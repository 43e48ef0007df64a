-- ===== src/Notify.antt =====
-- internal/cli/notify.go: the post-receive hook, from the events of a push to its deliveries.
pub mod Calls
pub mod Summaries
use gitd.Prelude.{
  ℕ, ◌+◌, ◌≡◌, refl, Bool, true, false, not, ◌&&◌, ◌||◌, List, [], ◌∷◌, ◌++◌, Bytes, codes, Option,
  none, some, if◌then◌else◌, is_nil, split, has_prefix,
}
use gitd.Prelude.Result.{Result, ok, err, ◌>>=◌, wrap, guard, ◌>>◌}
use gitd.Config.{PluginConfig}
use gitd.Event.{Event, Commit, current_version}
use gitd.FilePath.{base}
use gitd.Os.{FileSystem, OsError}
use gitd.Repo.{PathError, realpath_under, is_bare_repo, normalize, valid_name}
use gitd.Hooks.{RefLine, is_zero_sha, parse_ref_lines}
use gitd.Spool.{Store, Files, SpoolError, write_event}

-- a ref line's type: a creation, a deletion, or a push
unfoldable pub kind_of : RefLine → Bytes
kind_of r =
    if is_zero_sha r.old && not (is_zero_sha r.new)
    then codes "ref-created"
    else if not (is_zero_sha r.old) && is_zero_sha r.new
    then codes "ref-deleted"
    else codes "push"

abbrev skipped : Bytes → Bool
skipped line = is_nil line || has_prefix line (codes "commit ")

abbrev summary_of : List Bytes → Option Commit
summary_of (sha ∷ subject ∷ author ∷ []) =
    some (record { sha = sha; subject = subject; author = author })
summary_of _ = none

abbrev pub add_summary : Option Commit → Option (List Commit) → Option (List Commit)
add_summary none rest = none
add_summary (some c) none = none
add_summary (some c) (some cs) = some (c ∷ cs)

-- the loop over the lines of rev-list; `none` is an unexpected line
unfoldable pub parse_summaries : List Bytes → Option (List Commit)
parse_summaries [] = some []
parse_summaries (line ∷ lines) =
    let rest = parse_summaries lines in
    if skipped line then rest else add_summary (summary_of (split line 0)) rest

abbrev pub range_of : RefLine → Bytes
range_of r = if not (is_zero_sha r.old) then r.old ++ (codes ".." ++ r.new) else r.new

abbrev pub newline : ℕ
newline = b'\n'

abbrev summaries_of : Option Bytes → Option (List Commit)
summaries_of none = none
summaries_of (some out) = parse_summaries (split out newline)

-- commitSummaries: `rev_list` is git rev-list of the range in the directory
unfoldable pub commit_summaries : (Bytes → Option Bytes) → RefLine → Option (List Commit)
commit_summaries rev_list r =
    if is_zero_sha r.new then some [] else summaries_of (rev_list (range_of r))

abbrev event_with : Bytes → Bytes → RefLine → Option (List Commit) → Option Event
event_with now repo r none = none
event_with now repo r (some commits) = some (record {
  schema_version = current_version;
  event_id = [];
  created_at = now;
  repo = repo;
  ref = r.ref;
  kind = kind_of r;
  commits = commits;
})

-- notifier.buildEvent: `now` is the formatted time
unfoldable pub build_event : (Bytes → Option Bytes) → Bytes → Bytes → RefLine → Option Event
build_event rev_list now repo r = event_with now repo r (commit_summaries rev_list r)

pub data Call : Type 0 where
  bundle : Bytes → Call
  deliver : Bytes → Bytes → Call

pub data NotifyError : Type 0 where
  outside_root : PathError → NotifyError
  inspect_failed : OsError → NotifyError
  not_bare bad_name : Bytes → NotifyError
  spool_failed : SpoolError → NotifyError
  call_failed : Call → NotifyError

-- What the hook meets: the store at each write, git, the clock, the plugins, and which calls to the
-- server it answers without an error.
pub record Notifier : Type 0 where
  pub stores : ℕ → Store
  pub rev_list : Bytes → Option Bytes
  pub now : Bytes
  pub plugins : List PluginConfig
  pub answers : Call → Bool

-- the loop over the ref lines: a line without an event is skipped, a failed write ends the hook
unfoldable pub spool_lines :
    Notifier → Bytes → ℕ → List RefLine → Files → Result SpoolError (List Bytes) × Files
spool_lines n repo k [] d = (ok [], d)
spool_lines n repo k (r ∷ rs) d = elim (build_event n.rev_list n.now repo r) [
  | none ↦ spool_lines n repo k rs d
  | some ev ↦
      let (w, d1) = write_event (n.stores k) ev d in
      elim w [
        | err e ↦ (err e, d1)
        | ok id ↦
            let (rest, d2) = spool_lines n repo (k + 1) rs d1 in (rest >>= λ ids. ok (id ∷ ids), d2)
      ]
]

-- The calls that were made, and the first that failed.
abbrev pub Calls : Type 0
Calls = Result NotifyError (Unit {0}) × List Call

abbrev then_calls : Call → Bool → Calls → Calls
then_calls c false rest = (err (call_failed c), c ∷ [])
then_calls c true (r, calls) = (r, c ∷ calls)

abbrev pub call : (Call → Bool) → Call → Calls → Calls
call answers c rest = then_calls c (answers c) rest

-- the inner loop of the sync deliveries
unfoldable pub deliver_ids : (Call → Bool) → Bytes → List Bytes → Calls → Calls
deliver_ids answers plugin [] rest = rest
deliver_ids answers plugin (id ∷ ids) rest =
    call answers (deliver plugin id) (deliver_ids answers plugin ids rest)

-- the outer loop
unfoldable pub deliver_sync : (Call → Bool) → List PluginConfig → List Bytes → Calls
deliver_sync answers [] ids = (ok tt, [])
deliver_sync answers (p ∷ ps) ids =
    let rest = deliver_sync answers ps ids in
    if not p.sync then rest else deliver_ids answers p.id ids rest

-- what Notify does for a repository: spool the events, upload one bundle, deliver
unfoldable pub notify_repo :
    Notifier → Bytes → List RefLine → Files → Result NotifyError (Unit {0}) × List Call × Files
notify_repo n name lines d =
    let (r, d') = spool_lines n name 0 lines d in
    elim r [
      | err e ↦ (err (spool_failed e), [], d')
      | ok ids ↦
          let (result, calls) =
            call n.answers (bundle name) (deliver_sync n.answers n.plugins ids) in
          (result, calls, d')
    ]

-- the checks of the hook's directory, which give the name
unfoldable pub repo_of : FileSystem → Result PathError Bytes → Result NotifyError Bytes
repo_of fs resolved = do
  dir ← wrap outside_root resolved
  bare ← wrap inspect_failed (is_bare_repo fs dir)
  guard bare (not_bare dir)
  guard (valid_name (normalize (base dir))) (bad_name (normalize (base dir)))
  ok (normalize (base dir))

-- notifier.Notify, from what realpath_under gave for the working directory
unfoldable pub notify :
    Notifier
    → FileSystem
    → Result PathError Bytes
    → Bytes
    → Files
    → Result NotifyError (Unit {0}) × List Call × Files
notify n fs resolved stdin d = elim (repo_of fs resolved) [
  | err e ↦ (err e, [], d)
  | ok name ↦ notify_repo n name (parse_ref_lines stdin) d
]
