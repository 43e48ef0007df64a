-- ===== src/Serve/Jobs/Restore.antt =====
-- stageRestoreJob of internal/serve/serve.go.
use gitd.Prelude.{
  ◌≡◌, ◌≢◌, refl, Bool, true, false, ◌++◌, Bytes, Option, none, some, arith, str_eq, Bool-cases,
  inl, inr,
}
use gitd.Prelude.Map.{Map, lookup, lookup-insert, lookup-erase}
use gitd.Prelude.Result.{Result, ok, err, Result-cases}
use gitd.ObjectStore.{ObjectStore}
use gitd.Mirror.Restore.{FetchError}
use gitd.Spool.{WriteStep, sync_dir}
use gitd.Agent.{JobRequest, request_ext, bundle_ext, verify_bundle_file}
use gitd.Agent.Once.{str_eq-append_both}
use gitd.Agent.Files.{write_job_file, write_job_file-unplaced, placed}
use gitd.Serve.Jobs.{
  Stager, StageError, stage_request_failed, BundleWrite, written, not_created, torn, write_bundle,
  remove_job, stage_restore_job, stage_verified, hand_over, staged, or_remove_bundle,
  restore_request, download_latest, mkdir_failed, download_failed,
}

bundle_not_request : (id : Bytes) → str_eq (id ++ bundle_ext) (id ++ request_ext) ≡ false
unfolding str_eq
bundle_not_request id = str_eq-append_both id bundle_ext request_ext

pub request_not_bundle : (id : Bytes) → str_eq (id ++ request_ext) (id ++ bundle_ext) ≡ false
unfolding str_eq
request_not_bundle id = str_eq-append_both id request_ext bundle_ext

-- No request of the job is in the spool.
abbrev Unasked : Bytes → Map Bytes → Type 0
Unasked id jobs = lookup (id ++ request_ext) jobs ≡ none

remove_job-Unasked :
    (srv : Stager) (id name : Bytes) (jobs : Map Bytes)
    → Unasked id jobs
    → Unasked id (remove_job srv name jobs)
remove_job-Unasked srv id name jobs h = ground (arith, lookup-erase name (id ++ request_ext) jobs)

write_bundle-Unasked :
    (b : BundleWrite) (id text : Bytes) (jobs : Map Bytes)
    → Unasked id jobs
    → Unasked id (write_bundle b (id ++ bundle_ext) text jobs).1
write_bundle-Unasked written id text jobs h =
    rw (lookup-insert (id ++ bundle_ext) (id ++ request_ext) text jobs, bundle_not_request id) h
write_bundle-Unasked not_created id text jobs h = h
write_bundle-Unasked (torn n) id text jobs h =
    rw (lookup-insert (id ++ bundle_ext) (id ++ request_ext) _ jobs, bundle_not_request id) h

-- an error other than that of the last fsync
abbrev pub IsClean : StageError → Type 0
IsClean e = e ≢ stage_request_failed sync_dir

staged-Unasked :
    (id : Bytes) (e : StageError) (o : Result WriteStep (Unit {0}) × Map Bytes)
    → (staged id o).0 ≡ err e
    → IsClean e
    → (placed o.0 ≡ false → Unasked id o.1)
    → Unasked id (staged id o).1
staged-Unasked id e (ok u, d) h c f = cc
staged-Unasked id e (err x, d) h c f = f (by_step x h)
  where
    by_step : (x : WriteStep) → (staged id (err x, d)).0 ≡ err e → placed (err x) ≡ false
    by_step sync_dir k = absurd (c (cc k))
    by_step WriteStep.create_temp k = refl
    by_step WriteStep.chmod k = refl
    by_step WriteStep.write k = refl
    by_step WriteStep.sync k = refl
    by_step WriteStep.close k = refl
    by_step WriteStep.rename k = refl

hand_over-Unasked :
    (srv : Stager) (id : Bytes) (req : JobRequest) (e : StageError) (d : Map Bytes)
    → (hand_over srv id req d).0 ≡ err e
    → IsClean e
    → Unasked id d
    → Unasked id (hand_over srv id req d).1
unfolding hand_over
hand_over-Unasked srv id req e d h c u = on_text (srv.encode_request req) refl
  where
    on_text :
        (o : Option Bytes) → srv.encode_request req ≡ o → Unasked id (hand_over srv id req d).1
    on_text none p = rw (p, hand_over) u
    on_text (some text) p =
        rw (p, hand_over)
          (staged-Unasked id e (write_job_file srv.writer (id ++ request_ext) text d)
            (rw (p, hand_over) at h) c
            (λ n.
              write_job_file-unplaced srv.writer (id ++ request_ext) text (id ++ request_ext) d n
                u))

or_remove-Unasked :
    (srv : Stager) (id : Bytes) (e : StageError) (o : Result StageError Bytes × Map Bytes)
    → (or_remove_bundle srv id o).0 ≡ err e
    → (o.0 ≡ err e → Unasked id o.1)
    → Unasked id (or_remove_bundle srv id o).1
or_remove-Unasked srv id e (ok i, d) h f = cc
or_remove-Unasked srv id e (err x, d) h f = remove_job-Unasked srv id (id ++ bundle_ext) d (f h)

stage_verified-Unasked :
    (srv : Stager) (name id text : Bytes) (e : StageError) (o : Bool × Map Bytes)
    → (stage_verified srv name id text o).0 ≡ err e
    → IsClean e
    → Unasked id o.1
    → Unasked id (stage_verified srv name id text o).1
unfolding stage_verified
stage_verified-Unasked srv name id text e (false, d) h c u = u
stage_verified-Unasked srv name id text e (true, d) h c u =
    elim (Bool-cases (verify_bundle_file srv.scratch_verify text)) [
      | inl v ↦
          rw (v, stage_verified)
            (or_remove-Unasked srv id e (hand_over srv id (restore_request name id) d)
              (rw (v, stage_verified) at h)
              (λ k. hand_over-Unasked srv id (restore_request name id) e d k c u))
      | inr v ↦ rw (v, stage_verified) (remove_job-Unasked srv id (id ++ bundle_ext) d u)
    ]

module _ {S : Type 0} (store : ObjectStore S) where
  pub stage-verified :
      (srv : Stager) (name id text : Bytes) (s : S) (d : Map Bytes)
      → srv.new_id ≡ some id
      → srv.mkdir_fails ≡ false
      → download_latest store srv.mirror name s ≡ ok text
      → stage_restore_job store srv name s d
        ≡ stage_verified srv name id text (write_bundle srv.bundle_write (id ++ bundle_ext) text d)
  unfolding stage_restore_job
  stage-verified srv name id text s d n m h = ground arith

  pub stage-mkdir :
      (srv : Stager) (name id : Bytes) (s : S) (d : Map Bytes)
      → srv.new_id ≡ some id
      → srv.mkdir_fails ≡ true
      → stage_restore_job store srv name s d ≡ (err mkdir_failed, d)
  unfolding stage_restore_job
  stage-mkdir srv name id s d n m = ground arith

  pub stage-download :
      (srv : Stager) (name id : Bytes) (e : FetchError) (s : S) (d : Map Bytes)
      → srv.new_id ≡ some id
      → srv.mkdir_fails ≡ false
      → download_latest store srv.mirror name s ≡ err e
      → stage_restore_job store srv name s d ≡ (err (download_failed e), d)
  unfolding stage_restore_job
  stage-download srv name id e s d n m h = ground arith

  -- A restore that could not be staged hands the agent no job, whichever step fails, if its id is
  -- new; the one exception is the last fsync of the request.
  pub stage_restore_job-Unasked :
      (srv : Stager) (name id : Bytes) (e : StageError) (s : S) (d : Map Bytes)
      → srv.new_id ≡ some id
      → Unasked id d
      → (stage_restore_job store srv name s d).0 ≡ err e
      → IsClean e
      → Unasked id (stage_restore_job store srv name s d).1
  stage_restore_job-Unasked srv name id e s d n u h c = elim (Bool-cases srv.mkdir_fails) [
    | inl m ↦ rw (stage-mkdir srv name id s d n m) u
    | inr m ↦ elim (Result-cases (download_latest store srv.mirror name s)) [
      | inr (x, q) ↦ rw (stage-download srv name id x s d n m q) u
      | inl (text, q) ↦
          let same = stage-verified srv name id text s d n m q in
          rw same (
            stage_verified-Unasked srv name id text e
              (write_bundle srv.bundle_write (id ++ bundle_ext) text d) (rw same at h) c
              (write_bundle-Unasked srv.bundle_write id text d u))
    ]
  ]
