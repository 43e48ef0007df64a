-- ===== src/Cli.antt =====
-- internal/cli/cli.go, common.go, repo.go, mirror.go, spool.go and internal/socket/socket.go: which
-- work a command line asks for, with what exit code, and what the socket's answer comes to.
pub mod Flags
pub mod Replay
pub mod Confirmed
pub mod Fuel
pub mod Delete
use gitd.Prelude.{
  ℕ, ◌≡◌, refl, Bool, true, false, not, ◌&&◌, ◌||◌, List, [], ◌∷◌, ◌++◌, Bytes, codes, Option, none,
  some, if◌then◌else◌, str_eq, is_nil, leb, length, take, ltb, map, ◌==◌,
}
use gitd.Prelude.Map.{Map, lookup}
use gitd.Prelude.Sorted.{sort_strings}
use gitd.Prelude.Result.{Result, ok, err, ◌>>=◌, wrap}
use gitd.Repo.{valid_name}
use gitd.Config.{PluginConfig}
use gitd.Serve.Handlers.{Reply}
use gitd.Cli.Flags.{default_flags, parse, parse_all}

-- The exit codes.
abbrev pub exit_ok : ℕ
exit_ok = 0

abbrev pub exit_error : ℕ
exit_error = 1

abbrev pub exit_usage : ℕ
exit_usage = 2

-- What is wrong with a command line.
pub data Usage : Type 0 where
  bad_flags no_subcommand unknown_subcommand wrong_arguments not_confirmed invalid_name : Usage

-- The work that is left once the command line is understood.
pub data Job : Type 0 where
  help list_repos list_all_mirrors list_spool purge_spool : Job
  delete_repo list_mirrors delete_mirrors restore_mirror replay_event : Bytes → Job

-- parseRepoFlags
unfoldable pub parse_repo_flags : List Bytes → Result Usage (Bool × List Bytes)
parse_repo_flags args = elim (parse_all args) [
  | none ↦ err bad_flags
  | some (f, positional) ↦ ok (f.yes, positional)
]

abbrev pub delete_job : List Bytes → Result Usage Job
delete_job (name ∷ []) = if not (valid_name name) then err invalid_name else ok (delete_repo name)
delete_job _ = err wrong_arguments

abbrev pub if_none : List Bytes → Job → Result Usage Job
if_none args job = if is_nil args then ok job else err wrong_arguments

abbrev pub repo_job : Bool → List Bytes → Result Usage Job
repo_job confirmed [] = err no_subcommand
repo_job confirmed (sub ∷ args) =
    if str_eq sub (codes "help")
    then if_none args help
    else if str_eq sub (codes "list")
    then if_none args list_repos
    else if str_eq sub (codes "delete")
    then (if not confirmed then err not_confirmed else delete_job args)
    else err unknown_subcommand

-- runRepo, up to the work
unfoldable pub run_repo : List Bytes → Result Usage Job
run_repo args = do parsed ← parse_repo_flags args; repo_job parsed.0 parsed.1

-- parseConfigFlag
unfoldable pub parse_config_flag : List Bytes → Result Usage (Bytes × List Bytes)
parse_config_flag args = elim (parse false default_flags args) [
  | none ↦ err bad_flags
  | some (f, rest) ↦ ok (f.config, rest)
]

abbrev pub one_name : (Bytes → Job) → List Bytes → Result Usage Job
one_name job (name ∷ []) = ok (job name)
one_name job _ = err wrong_arguments

abbrev pub list_job : List Bytes → Result Usage Job
list_job [] = ok list_all_mirrors
list_job args = one_name list_mirrors args

abbrev pub mirror_job : List Bytes → Result Usage Job
mirror_job [] = err no_subcommand
mirror_job (sub ∷ args) =
    if str_eq sub (codes "help")
    then if_none args help
    else if str_eq sub (codes "list")
    then list_job args
    else if str_eq sub (codes "delete")
    then one_name delete_mirrors args
    else if str_eq sub (codes "restore")
    then one_name restore_mirror args
    else err unknown_subcommand

-- runMirror, up to the work, with the path of the configuration
unfoldable pub run_mirror : List Bytes → Result Usage (Bytes × Job)
run_mirror args = do parsed ← parse_config_flag args; job ← mirror_job parsed.1; ok (parsed.0, job)

abbrev pub spool_job : List Bytes → Result Usage Job
spool_job [] = err no_subcommand
spool_job (sub ∷ args) =
    if str_eq sub (codes "help")
    then if_none args help
    else if str_eq sub (codes "list")
    then if_none args list_spool
    else if str_eq sub (codes "purge")
    then if_none args purge_spool
    else if str_eq sub (codes "replay")
    then one_name replay_event args
    else err unknown_subcommand

-- runSpool, up to the work, with the path of the configuration
unfoldable pub run_spool : List Bytes → Result Usage (Bytes × Job)
run_spool args = do parsed ← parse_config_flag args; job ← spool_job parsed.1; ok (parsed.0, job)

-- An error of a command: of its use, or of its run.
pub data CommandError (E : Type 0) : Type 0 where
  usage : Usage → CommandError E
  runtime : E → CommandError E

abbrev pub exit_code {ℓ} : {E : Type 0} {A : Type ℓ} → Result (CommandError E) A → ℕ
exit_code (ok a) = exit_ok
exit_code (err (usage u)) = exit_usage
exit_code (err (runtime e)) = exit_error

-- Run: the command table is a list of names with what the command does with its arguments
unfoldable pub run_verb :
    {E : Type 0}
    → List (Bytes × (List Bytes → Result (CommandError E) (Unit {0})))
    → Bytes
    → List Bytes
    → ℕ
run_verb [] verb args = exit_usage
run_verb ((name, run) ∷ table) verb args =
    if str_eq name verb then exit_code (run args) else run_verb table verb args

unfoldable pub run_gitd :
    {E : Type 0} → List (Bytes × (List Bytes → Result (CommandError E) (Unit {0}))) → List Bytes → ℕ
run_gitd table [] = exit_usage
run_gitd table (verb ∷ args) = run_verb table verb args

pub data ClientError : Type 0 where
  not_reached : ClientError
  refused : ℕ → ClientError

-- The end of Client.Deliver, Restore and DeleteRepo: what the server's answer comes to, with none
-- where there was no answer
unfoldable pub client_result : Option Reply → Result ClientError (Unit {0})
client_result none = err not_reached
client_result (some r) = if r.status == 200 then ok tt else err (refused r.status)

-- trim of the socket client
unfoldable pub trim_message : Bytes → Bytes
trim_message s = if ltb 200 (length s) then take 200 s ++ codes "..." else s

-- the loop of spoolReplay: the plugins that were called, and the first failure
unfoldable pub replay_each :
    (Bytes → Option Reply) → List PluginConfig → List Bytes × Result ClientError (Unit {0})
replay_each call [] = ([], ok tt)
replay_each call (p ∷ ps) =
    let (called, r) = replay_each call ps in
    elim (client_result (call p.id)) [ err e ↦ (p.id ∷ [], err e) | ok u ↦ (p.id ∷ called, r) ]

abbrev pub bundles_of : Map (List Bytes) → Bytes → List Bytes
bundles_of repos name = elim (lookup name repos) [ none ↦ [] | some ks ↦ ks ]

-- mirrorListAll: what is written for each repository, in the order of their names
unfoldable pub listed : Map (List Bytes) → List (Bytes × List Bytes)
listed repos = map (λ n. (n, bundles_of repos n)) (sort_strings (map (λ e. e.0) repos))
