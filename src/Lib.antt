-- ===== src/Lib.antt =====
-- gitd: a personal git server. A patched sshd starts the gateway (internal/sshcmd) for each session;
-- the gateway parses the command, checks name, identity and disk, makes a missing repository and
-- runs git. Git runs the hooks of the repository: pre-receive (internal/cli/pre_receive.go) judges
-- a push by the policies of internal/webhook, and notify (internal/cli/notify.go) tells the server.
--
-- Prelude and the modules below it hold lists, byte texts, results, maps, sorting and the laws of
-- splitting that the components share; FilePath and Os hold what the program uses of Go's packages
-- filepath and os. A text is a list of bytes, a Go error is a constructor of the component's own
-- error type, and state is passed on explicitly.
-- - Sshcmd.Tokenize: internal/sshcmd/tokenize.go. The loop of ParseCommand is the fold `scan` of
--   `step`; `finish` is what follows it.
-- - Sshcmd.Identity: internal/sshcmd/identity.go.
-- - Sshcmd.Gateway: internal/sshcmd/gateway.go. `serve` is Serve cut at its tests: `authorize` is
--   the checks in front of any effect, `prepare` what a push does to the disk. `git init` is the field
--   git_init of the configuration, with what it leaves behind also when it fails.
-- - Os: what the program uses of package os, on a map from paths to nodes; `broken` paths report an
--   error, and `stuck` ones stay when they are removed.
-- - Repo: internal/repo/repo.go.
-- - Disk: internal/disk/disk.go, with the uint64 product written out.
-- - Hooks: the reading of ref lines in internal/cli/notify.go and internal/cli/pre_receive.go, and
--   the gates of a push, Hooks.PreReceive.
-- - Policy: internal/webhook/policy.go, and internal/webhook/policies/nonfastforward in
--   Policy.NonFastForward, where path.Match and git merge-base are parameters.
-- - Event: internal/event/event.go. Spool: internal/spool/spool.go, on a directory that is a map from
--   file names to texts; an id is a file name. One `Store` holds what one call meets: clock,
--   failing system calls, and the JSON and time codecs as parameters. writeAtomic
--   is a list of steps, and `crash` the directory after some of them, where what is not synced may be cut. Spool.Retry: internal/spool/retry.go.
-- - Deliverer: internal/webhook/deliverer.go and registry.go. A plugin is a function of the timeout
--   and the event. Deliverer.HttpPlugin: internal/webhook/plugins/http/http.go.
-- - ObjectStore: the interface of internal/objectstore/objectstore.go as a record of operations, with
--   what its comments promise as a record of laws, and MemoryStore. Mirror: internal/mirror/mirror.go
--   over any object store; git and the format of a time are fields of the configuration. Mirror.Header is
--   internal/mirror/bundleformat.go, and Mirror.Restore is Fetch, with the git commands of a restore
--   and what they leave behind as fields of `RestoreGit`.
-- - Agent: internal/mirror/agent.go, the jobs that restore and delete repositories; the world of a
--   job is its spool, the file system and the object store. Agent.Removal: what a deletion removes.
-- - Config: internal/config/webhooks.go, the plugins that the deliverer and the hook read, and in
--   Config.Gitd internal/config/config.go and reload.go; Config.Duration is internal/config/duration.go.
-- - Notify: internal/cli/notify.go, Notify and what it calls. The server's answers are a function of
--   the call, and the calls that are made are part of the result.
-- - Serve: internal/serve/serve.go. Serve.Channel is the buffered channel of actions with its one worker:
--   a move is one event of a submitter, of the worker or of the shutdown, and `step` is none where the
--   code cannot make it. Serve.Work are the actions and the sweep, Serve.Jobs the files that the server
--   leaves for the agent and the wait for their results, Serve.Handlers the endpoints. Agent.Files is
--   WriteJobFile, which both sides call.
-- - Cli: internal/cli/cli.go, common.go, repo.go, mirror.go and spool.go up to the work that a command
--   line asks for, and what internal/socket/socket.go makes of an answer. Cli.Flags is what the
--   program uses of Go's package flag.
-- - Browse: internal/browse. Browse.Paths is git.go, Browse.Text helpers.go, Browse.Blob highlight.go and
--   readme.go, Browse.Pages the handlers of pages.go, Browse.Views the data of their pages, and Browse.Tls
--   the callbacks of tls.go, on files as they are at a handshake; crypto/tls, which calls them, is left
--   out. goldmark, chroma and the parsers of certificates are fields of records.
-- - GitEnv: internal/gitenv/gitenv.go. HookShim: internal/hookshim/hookshim.go.
--
-- A push goes through Sshcmd, Repo, Disk, Hooks and Policy; its event through Notify, Spool, Deliverer and
-- the sweep of Serve.Work; its bundle through Serve.Work and Mirror into an ObjectStore; a restore or a
-- deletion from Cli through Serve.Handlers and Serve.Jobs to Agent.
--
-- Recursion is structural, but for the loop of parseRepoFlags in Cli.Flags: it is on fuel, one more than
-- the number of arguments, of which each round takes one away.
--
-- Not modelled: log lines, the text of usages and of HTML templates, ddns, static files,
-- host names and the middlewares of the web pages, and the processes that git runs in.
pub mod Prelude
pub mod FilePath
pub mod Os
pub mod Disk
pub mod Repo
pub mod Sshcmd
pub mod Hooks
pub mod Policy
pub mod Event
pub mod Spool
pub mod Deliverer
pub mod ObjectStore
pub mod Mirror
pub mod Notify
pub mod Agent
pub mod Config
pub mod Serve
pub mod Cli
pub mod Browse
pub mod GitEnv
pub mod HookShim
pub mod Tests
