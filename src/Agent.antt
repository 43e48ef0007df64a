-- ===== src/Agent.antt =====
-- internal/mirror/agent.go: the agent that restores and deletes repositories, one job at a time.
pub mod Files
pub mod Once
pub mod Removal
use gitd.Prelude.{
  ◌≡◌, refl, Bool, true, false, not, List, [], ◌∷◌, ◌++◌, Bytes, codes, Option, none, some,
  if◌then◌else◌, str_eq, cut_suffix,
}
use gitd.Prelude.Map.{Map, lookup, erase}
use gitd.Agent.Files.{JobWriter, write_job_file}
use gitd.Prelude.Result.{Result, ok, err}
use gitd.FilePath.{join_path, base}
use gitd.Os.{FileSystem, OsError, remove_all}
use gitd.Repo.{PathError, valid_name, dot_git, realpath_under, is_bare_repo}
use gitd.ObjectStore.{ObjectStore}
use gitd.Mirror.{Mirror}
use gitd.Mirror.Header.{Format, bundle_object_format}
use gitd.Mirror.Restore.{RestoreGit, FetchError}
use gitd.Mirror.Restore

abbrev pub bundle_ext : Bytes
bundle_ext = codes ".bundle"

abbrev pub request_ext : Bytes
request_ext = codes ".request"

abbrev pub result_ext : Bytes
result_ext = codes ".result"

pub record JobRequest : Type 0 where
  pub kind : Bytes
  pub repo : Bytes
  pub bundle : Bytes

-- the messages of a result
pub data Message : Type 0 where
  unreadable bad_request repo_deleted restore_complete bundle_refused remove_failed : Message
  invalid_repo not_bare bundle_mismatch : Bytes → Message
  unresolved : PathError → Message
  uninspected : OsError → Message
  restore_failed : FetchError → Message

-- The agent, with what its job meets: the system calls that fail, the JSON codec, how paths resolve,
-- and whether git verifies a bundle in a scratch repository of a format.
pub record Agent : Type 0 where
  pub mirror : Mirror
  pub git : RestoreGit
  pub repos_root : Bytes
  pub read_fails : Bytes → Bool
  pub remove_fails : Bytes → Bool
  pub writer : JobWriter
  pub decode_request : Bytes → Option JobRequest
  pub encode_result : Bool → Message → Bytes
  pub absolute : Bytes → Option Bytes
  pub eval_symlinks : Bytes → Option Bytes
  pub scratch_verify : Format → Bytes → Bool

-- The files of the job spool by name, the file system with the repositories, and the object store.
pub record World (S : Type 0) : Type 0 where
  pub jobs : Map Bytes
  pub fs : FileSystem
  pub objects : S

-- requestJobID
unfoldable pub request_job_id : Bytes → Option Bytes
request_job_id path = cut_suffix (base path) request_ext

abbrev consume : Agent → Bytes → Map Bytes → Map Bytes
consume a name jobs = if a.remove_fails name then jobs else erase name jobs

-- Agent.finish: the inputs go before the result is written
unfoldable pub finish : Agent → Bytes → Bool → Message → Map Bytes → Map Bytes
finish a id done message jobs =
    let rest = consume a (id ++ bundle_ext) (consume a (id ++ request_ext) jobs) in
    (write_job_file a.writer (id ++ result_ext) (a.encode_result done message) rest).1

-- Mirror.VerifyBundleFile of the bytes of the file
unfoldable pub verify_bundle_file : (Format → Bytes → Bool) → Bytes → Bool
verify_bundle_file scratch_verify text = elim (bundle_object_format text) [
  | none ↦ false
  | some format ↦ scratch_verify format text
]

-- Whether the job was done, the message of its result, and the file system.
abbrev pub Outcome : Type 0
Outcome = Bool × Message × FileSystem

abbrev removed : Result OsError (Unit {0}) × FileSystem → Outcome
removed (ok u, fs) = (true, repo_deleted, fs)
removed (err e, fs) = (false, remove_failed, fs)

abbrev remove_bare : Agent → Bytes → Bytes → FileSystem → Result OsError Bool → Outcome
remove_bare a repo resolved fs (err e) = (false, uninspected e, fs)
remove_bare a repo resolved fs (ok false) = (false, not_bare repo, fs)
remove_bare a repo resolved fs (ok true) = removed (remove_all fs resolved)

abbrev remove_resolved : Agent → Bytes → FileSystem → Result PathError Bytes → Outcome
remove_resolved a repo fs (err e) = (false, unresolved e, fs)
remove_resolved a repo fs (ok resolved) = remove_bare a repo resolved fs (is_bare_repo fs resolved)

-- Agent.deleteRepo
unfoldable pub delete_repo : Agent → JobRequest → FileSystem → Outcome
delete_repo a req fs =
    if not (valid_name req.repo)
    then (false, invalid_repo req.repo, fs)
    else let target = join_path a.repos_root (req.repo ++ dot_git) in
      remove_resolved a req.repo fs
        (realpath_under (a.absolute a.repos_root) (a.eval_symlinks target))

abbrev pub restored : Result FetchError (Unit {0}) × FileSystem → Outcome
restored (ok u, fs) = (true, restore_complete, fs)
restored (err e, fs) = (false, restore_failed e, fs)

module _ {S : Type 0} (store : ObjectStore S) where
  abbrev restore_verified : Agent → Bytes → World S → Option Bytes → Outcome
  restore_verified a repo w none = (false, bundle_refused, w.fs)
  restore_verified a repo w (some text) =
      if verify_bundle_file a.scratch_verify text
      then restored (Restore.restore store a.mirror a.git repo w.objects w.fs)
      else (false, bundle_refused, w.fs)

  -- Agent.restore: the staged bundle must be that of the job
  unfoldable pub restore_repo : Agent → Bytes → JobRequest → World S → Outcome
  restore_repo a id req w =
      if not (valid_name req.repo)
      then (false, invalid_repo req.repo, w.fs)
      else if not (str_eq req.bundle (id ++ bundle_ext))
      then (false, bundle_mismatch req.bundle, w.fs)
      else restore_verified a req.repo w (lookup req.bundle w.jobs)

  -- an absent type is a restore
  unfoldable pub perform : Agent → Bytes → Option JobRequest → World S → Outcome
  perform a id none w = (false, bad_request, w.fs)
  perform a id (some req) w =
      if str_eq req.kind (codes "delete") then delete_repo a req w.fs else restore_repo a id req w

  abbrev pub finished : Agent → Bytes → World S → Outcome → World S
  finished a id w (done, message, fs) = record {
    jobs = finish a id done message w.jobs;
    fs = fs;
    objects = w.objects;
  }

  -- Agent.processJob: a request that is gone is a no-op
  unfoldable pub process_job : Agent → Bytes → World S → World S
  process_job a id w = elim (lookup (id ++ request_ext) w.jobs) [
    | none ↦ w
    | some text ↦
        if a.read_fails (id ++ request_ext)
        then finished a id w (false, unreadable, w.fs)
        else finished a id w (perform a id (a.decode_request text) w)
  ]

  -- the jobs that a scan or the watcher found, in order
  unfoldable pub process_jobs : Agent → List Bytes → World S → World S
  process_jobs a [] w = w
  process_jobs a (id ∷ ids) w = process_jobs a ids (process_job a id w)
