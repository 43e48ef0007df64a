-- ===== src/Serve/Jobs.antt =====
-- internal/serve/serve.go: the jobs that the server stages for the mirror agent, in the spool that
-- both share, a map from file names to texts. LatestBundle is in internal/mirror/agent.go.
pub mod Exchange
pub mod Delete
pub mod Restore
pub mod RestoreExchange
pub mod Cleanup
pub mod Missing
use gitd.Prelude.{
  ℕ, suc, ◌+◌, ◌≡◌, refl, Bool, true, false, not, ◌&&◌, ◌||◌, List, [], ◌∷◌, ◌++◌, Bytes, codes,
  Option, none, some, if◌then◌else◌, has_suffix, take, last?, is_some, select, map,
}
use gitd.Prelude.Map.{Map, lookup, insert, erase}
use gitd.Prelude.Sorted.{sort_strings}
use gitd.Prelude.Result.{Result, ok, err, wrap}
use gitd.Os.{FileSystem, OsError}
use gitd.Repo.{DirEntry, list_bare, valid_name}
use gitd.ObjectStore.{ObjectStore}
use gitd.Mirror.{Mirror, list_all_repos}
use gitd.Mirror.Header.{Format}
use gitd.Mirror.Restore.{FetchError, bad_repo, latest_bundle}
use gitd.Spool.{WriteStep}
use gitd.Agent.{JobRequest, Message, bundle_ext, request_ext, result_ext, verify_bundle_file}
use gitd.Agent.Files.{JobWriter, write_job_file}

-- How os.WriteFile of the bundle ends: torn, it leaves the first bytes.
pub data BundleWrite : Type 0 where
  written not_created : BundleWrite
  torn : ℕ → BundleWrite

-- The server, with what one call meets: the id that spool.NewID gives, the system calls that fail,
-- the JSON codec, and whether git verifies a bundle in a scratch repository of a format.
pub record Stager : Type 0 where
  pub mirror : Mirror
  pub new_id : Option Bytes
  pub mkdir_fails : Bool
  pub bundle_write : BundleWrite
  pub writer : JobWriter
  pub read_fails : Bytes → Bool
  pub remove_fails : Bytes → Bool
  pub encode_request : JobRequest → Option Bytes
  pub decode_result : Bytes → Option (Bool × Message)
  pub scratch_verify : Format → Bytes → Bool

pub data StageError : Type 0 where
  no_job_id mkdir_failed stage_bundle_failed bundle_refused encode_failed : StageError
  download_failed : FetchError → StageError
  stage_request_failed : WriteStep → StageError

-- os.Remove of a job file, its error ignored or logged
abbrev pub remove_job : Stager → Bytes → Map Bytes → Map Bytes
remove_job srv name jobs = if srv.remove_fails name then jobs else erase name jobs

-- os.WriteFile of the staged bundle
abbrev pub write_bundle : BundleWrite → Bytes → Bytes → Map Bytes → Bool × Map Bytes
write_bundle written name text jobs = (true, insert name text jobs)
write_bundle not_created name text jobs = (false, jobs)
write_bundle (torn n) name text jobs = (false, insert name (take n text) jobs)

abbrev pub staged :
    Bytes → Result WriteStep (Unit {0}) × Map Bytes → Result StageError Bytes × Map Bytes
staged id (ok u, jobs) = (ok id, jobs)
staged id (err e, jobs) = (err (stage_request_failed e), jobs)

-- the request is written; a failure removes the bundle
abbrev pub or_remove_bundle :
    Stager → Bytes → Result StageError Bytes × Map Bytes → Result StageError Bytes × Map Bytes
or_remove_bundle srv id (ok i, jobs) = (ok i, jobs)
or_remove_bundle srv id (err e, jobs) = (err e, remove_job srv (id ++ bundle_ext) jobs)

abbrev pub restore_request : Bytes → Bytes → JobRequest
restore_request name id = record { kind = []; repo = name; bundle = id ++ bundle_ext }

abbrev pub delete_request : Bytes → JobRequest
delete_request name = record { kind = codes "delete"; repo = name; bundle = [] }

unfoldable pub hand_over :
    Stager → Bytes → JobRequest → Map Bytes → Result StageError Bytes × Map Bytes
hand_over srv id req jobs = elim (srv.encode_request req) [
  | none ↦ (err encode_failed, jobs)
  | some text ↦ staged id (write_job_file srv.writer (id ++ request_ext) text jobs)
]

-- from the staged bundle on
unfoldable pub stage_verified :
    Stager → Bytes → Bytes → Bytes → Bool × Map Bytes → Result StageError Bytes × Map Bytes
stage_verified srv name id text (false, jobs) = (err stage_bundle_failed, jobs)
stage_verified srv name id text (true, jobs) =
    if not (verify_bundle_file srv.scratch_verify text)
    then (err bundle_refused, remove_job srv (id ++ bundle_ext) jobs)
    else or_remove_bundle srv id (hand_over srv id (restore_request name id) jobs)

module _ {S : Type 0} (store : ObjectStore S) where
  -- Mirror.LatestBundle
  unfoldable pub download_latest : Mirror → Bytes → S → Result FetchError Bytes
  download_latest m name s =
      if not (valid_name name) then err bad_repo else latest_bundle store m name s

  -- Serve.stageRestoreJob
  unfoldable pub stage_restore_job :
      Stager → Bytes → S → Map Bytes → Result StageError Bytes × Map Bytes
  stage_restore_job srv name s jobs = elim srv.new_id [
    | none ↦ (err no_job_id, jobs)
    | some id ↦
        if srv.mkdir_fails
        then (err mkdir_failed, jobs)
        else elim (download_latest srv.mirror name s) [
          | err e ↦ (err (download_failed e), jobs)
          | ok text ↦
              stage_verified srv name id text
                (write_bundle srv.bundle_write (id ++ bundle_ext) text jobs)
        ]
  ]

-- Serve.stageDeleteJob
unfoldable pub stage_delete_job : Stager → Bytes → Map Bytes → Result StageError Bytes × Map Bytes
stage_delete_job srv name jobs = elim srv.new_id [
  | none ↦ (err no_job_id, jobs)
  | some id ↦
      if srv.mkdir_fails
      then (err mkdir_failed, jobs)
      else hand_over srv id (delete_request name) jobs
]

pub data WaitError : Type 0 where
  in_progress read_failed undecodable : WaitError

abbrev pub decoded : Option (Bool × Message) → Result WaitError (Bool × Message)
decoded none = err undecodable
decoded (some r) = ok r

-- Serve.waitRestoreResult, from the spool at each tick before the deadline
unfoldable pub wait_result : Stager → Bytes → List (Map Bytes) → Result WaitError (Bool × Message)
wait_result srv id [] = err in_progress
wait_result srv id (jobs ∷ later) =
    let rest = wait_result srv id later in
    elim (lookup (id ++ result_ext) jobs) [
      | none ↦ rest
      | some text ↦
          if srv.read_fails (id ++ result_ext)
          then err read_failed
          else decoded (srv.decode_result text)
    ]

-- Serve.cleanupRestoreJob
unfoldable pub cleanup_job : Stager → Bytes → Map Bytes → Map Bytes
cleanup_job srv id jobs =
    remove_job srv (id ++ result_ext)
      (remove_job srv (id ++ request_ext) (remove_job srv (id ++ bundle_ext) jobs))

abbrev pub is_job_file : Bytes → Bool
is_job_file name =
    has_suffix name bundle_ext || has_suffix name request_ext || has_suffix name result_ext

-- the loop of sweepRestoreSpool: how many files it removed, and what is left
unfoldable pub sweep_entries : Stager → List DirEntry → Map Bytes → ℕ × Map Bytes
sweep_entries srv [] jobs = (0, jobs)
sweep_entries srv (e ∷ es) jobs =
    let go = not e.is_dir && is_job_file e.name && not (srv.remove_fails e.name) in
    let (n, jobs') = sweep_entries srv es (if go then erase e.name jobs else jobs) in
    (if go then suc n else n, jobs')

-- Serve.sweepRestoreSpool, from what os.ReadDir returned
unfoldable pub sweep_restore_spool :
    Stager → Result OsError (List DirEntry) → Map Bytes → ℕ × Map Bytes
sweep_restore_spool srv (err e) jobs = (0, jobs)
sweep_restore_spool srv (ok entries) jobs = sweep_entries srv entries jobs

-- The repositories with mirrors that are not live, in order.
unfoldable pub missing_repos : List Bytes → Map (List Bytes) → List Bytes
missing_repos live mirrored =
    let live_set : Map Bool = map (λ (n : Bytes). (n, true)) live in
    sort_strings (select (λ name. not (is_some (lookup name live_set))) (map (λ e. e.0) mirrored))

module _ {S : Type 0} (store : ObjectStore S) where
  -- the loop of restoreMissingOnStart; each job meets its own calls
  unfoldable pub stage_each : (ℕ → Stager) → ℕ → List Bytes → S → Map Bytes → Map Bytes
  stage_each env i [] s jobs = jobs
  stage_each env i (name ∷ names) s jobs =
      stage_each env (suc i) names s (stage_restore_job store (env i) name s jobs).1

  abbrev pub stage_missing :
      (ℕ → Stager) → Result OsError (List Bytes) → Map (List Bytes) → S → Map Bytes → Map Bytes
  stage_missing env (err e) mirrored s jobs = jobs
  stage_missing env (ok live) mirrored s jobs =
      stage_each env 0 (missing_repos live mirrored) s jobs

  -- Serve.restoreMissingOnStart
  unfoldable pub restore_missing_on_start :
      Bool
      → Mirror
      → (ℕ → Stager)
      → FileSystem
      → Bytes
      → Result OsError (List DirEntry)
      → S
      → Map Bytes
      → Map Bytes
  restore_missing_on_start on m env fs root read_dir s jobs =
      if not on then jobs else elim (list_all_repos store m s) [
        | err e ↦ jobs
        | ok mirrored ↦ stage_missing env (list_bare fs root read_dir) mirrored s jobs
      ]
