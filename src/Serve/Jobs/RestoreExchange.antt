-- ===== src/Serve/Jobs/RestoreExchange.antt =====
-- A restore from internal/serve/serve.go through internal/mirror/agent.go and back.
use gitd.Repo.{valid_name}
use gitd.Prelude.{
  str_eq_refl, ◌≡◌, refl, sym, ap, ◌∙◌, true, false, List, ◌∷◌, ◌++◌, Bytes, some, str_eq,
  Bool-cases, inl, inr,
}
use gitd.Prelude.Map.{Map, lookup, insert, lookup-insert_self}
use gitd.Prelude.Result.{Result, ok, err, Result-cases}
use gitd.Os.{FileSystem}
use gitd.ObjectStore.{ObjectStore}
use gitd.Mirror.Restore
use gitd.Mirror.Restore.{FetchError}
use gitd.Agent.{
  restored, Agent, World, process_job, perform, restore_repo, request_ext, bundle_ext,
  verify_bundle_file,
}
use gitd.Agent.Files.{write_job_file-other, job_temp}
use gitd.Serve.Jobs.{
  Stager, StageError, BundleWrite, written, not_created, torn, write_bundle, stage_restore_job,
  stage_verified, hand_over, or_remove_bundle, restore_request, wait_result, download_latest,
}
use gitd.Serve.Jobs.Exchange.{Agree, IsHandedOver, hand_over-ok, job-waits, job-fs}
use gitd.Serve.Jobs.Restore.{stage-verified, stage-mkdir, stage-download, request_not_bundle}

restored-fs : (r : Result FetchError (Unit {0}) × FileSystem) → (restored r).2 ≡ r.1
restored-fs (ok u, fs) = refl
restored-fs (err e, fs) = refl

-- A bundle that git verified, with the request that names it.
pub record IsStaged (srv : Stager) (name id i text : Bytes) (d' : Map Bytes) : Type 0 where
  pub before : Map Bytes
  pub verified : verify_bundle_file srv.scratch_verify text ≡ true
  pub placed : lookup (id ++ bundle_ext) before ≡ some text
  pub handed : IsHandedOver srv id (restore_request name id) i before d'

or_remove-ok :
    (srv : Stager) (id i : Bytes) (o : Result StageError Bytes × Map Bytes) (d' : Map Bytes)
    → or_remove_bundle srv id o ≡ (ok i, d')
    → o ≡ (ok i, d')
or_remove-ok srv id i (ok j, d) d' h = h
or_remove-ok srv id i (err e, d) d' h = cc (ap (λ x. x.0) h)

stage_verified-ok :
    (srv : Stager) (name id i text : Bytes) (d d' : Map Bytes)
    → lookup (id ++ bundle_ext) d ≡ some text
    → stage_verified srv name id text (true, d) ≡ (ok i, d')
    → IsStaged srv name id i text d'
unfolding stage_verified
stage_verified-ok srv name id i text d d' p h =
    elim (Bool-cases (verify_bundle_file srv.scratch_verify text)) [
      | inl v ↦ record {
        before = d;
        verified = v;
        placed = p;
        handed = hand_over-ok srv id (restore_request name id) i d d' (
            or_remove-ok srv id i (hand_over srv id (restore_request name id) d) d'
              (rw (v, stage_verified) at h));
      }
      | inr v ↦ cc (ap (λ x. x.0) (rw (v, stage_verified) at h))
    ]

write_bundle-ok :
    (srv : Stager) (b : BundleWrite) (name id i text : Bytes) (d d' : Map Bytes)
    → stage_verified srv name id text (write_bundle b (id ++ bundle_ext) text d) ≡ (ok i, d')
    → IsStaged srv name id i text d'
unfolding stage_verified
write_bundle-ok srv written name id i text d d' h =
    stage_verified-ok srv name id i text (insert (id ++ bundle_ext) text d) d'
      (lookup-insert_self (id ++ bundle_ext) text d) h
write_bundle-ok srv not_created name id i text d d' h = cc (ap (λ x. x.0) h)
write_bundle-ok srv (torn n) name id i text d d' h = cc (ap (λ x. x.0) h)

module _ {S : Type 0} (store : ObjectStore S) where
  stage-IsStaged :
      (srv : Stager) (name id i : Bytes) (s : S) (d d' : Map Bytes)
      → srv.new_id ≡ some id
      → stage_restore_job store srv name s d ≡ (ok i, d')
      → (text : Bytes) × (download_latest store srv.mirror name s ≡ ok text)
        × IsStaged srv name id i text d'
  stage-IsStaged srv name id i s d d' n h = elim (Bool-cases srv.mkdir_fails) [
    | inl m ↦ cc (stage-mkdir store srv name id s d n m, h)
    | inr m ↦ elim (Result-cases (download_latest store srv.mirror name s)) [
      | inr (x, q) ↦ cc (stage-download store srv name id x s d n m q, h)
      | inl (text, q) ↦ (
        text,
        q,
        write_bundle-ok srv srv.bundle_write name id i text d d'
            (sym (stage-verified store srv name id text s d n m q) ∙ h),
      )
    ]
  ]

  bundle-there :
      (srv : Stager) (name id i text : Bytes) (d' : Map Bytes)
      → str_eq (job_temp srv.writer (id ++ request_ext)) (id ++ bundle_ext) ≡ false
      → IsStaged srv name id i text d'
      → lookup (id ++ bundle_ext) d' ≡ some text
  bundle-there srv name id i text d' t x =
      ap (λ y. lookup (id ++ bundle_ext) y) x.handed.written
      ∙ write_job_file-other srv.writer (id ++ request_ext) x.handed.text (id ++ bundle_ext)
          x.before (request_not_bundle id) t
      ∙ x.placed

  restore-performs :
      (a : Agent) (name id : Bytes) (w : World S)
      → perform store a id (some (restore_request name id)) w
        ≡ restore_repo store a id (restore_request name id) w
  unfolding perform str_eq
  restore-performs a name id w = refl

  -- a staged bundle that git verifies is restored
  restores :
      (a : Agent) (name id text : Bytes) (w : World S)
      → valid_name name ≡ true
      → lookup (id ++ bundle_ext) w.jobs ≡ some text
      → verify_bundle_file a.scratch_verify text ≡ true
      → restore_repo store a id (restore_request name id) w
        ≡ restored (Restore.restore store a.mirror a.git name w.objects w.fs)
  unfolding restore_repo
  restores a name id text w v h k = rw (v, str_eq_refl (id ++ bundle_ext), h, k) refl

  -- The server reads exactly what the restore of the bucket's latest bundle came to, done or failed
  -- with its error, and the file system is what that restore left; the agent found the bundle that was
  -- downloaded and verified. This holds for a valid name where the job was staged and the agent runs it
  -- next, git verifies the bundle for the agent too, the two agree on the formats and can read and
  -- write each other's files, and the request's temporary file is not named like the bundle.
  pub restore-exchange :
      (srv : Stager) (a : Agent) (name id i text : Bytes) (jobs jobs' : Map Bytes) (fs : FileSystem)
      (s : S) (later : List (Map Bytes))
      → valid_name name ≡ true
      → srv.new_id ≡ some id
      → str_eq (job_temp srv.writer (id ++ request_ext)) (id ++ bundle_ext) ≡ false
      → download_latest store srv.mirror name s ≡ ok text
      → stage_restore_job store srv name s jobs ≡ (ok i, jobs')
      → verify_bundle_file a.scratch_verify text ≡ true
      → Agree srv a id
          (restore_request name id)
          (restored (Restore.restore store a.mirror a.git name s fs)).0
          (restored (Restore.restore store a.mirror a.git name s fs)).1
      → (i ≡ id)
        × (verify_bundle_file srv.scratch_verify text ≡ true)
        × (lookup (id ++ bundle_ext) jobs' ≡ some text)
        × (wait_result srv id (
              (process_job store a id (record { jobs = jobs'; fs = fs; objects = s })).jobs ∷ later)
            ≡ ok (
              (restored (Restore.restore store a.mirror a.git name s fs)).0,
              (restored (Restore.restore store a.mirror a.git name s fs)).1,
            ))
        × ((process_job store a id (record { jobs = jobs'; fs = fs; objects = s })).fs
            ≡ (Restore.restore store a.mirror a.git name s fs).1)
  restore-exchange srv a name id i text jobs jobs' fs s later v n t dl h k ag =
      let (text', q, x) = stage-IsStaged srv name id i s jobs jobs' n h in
      let at : text' ≡ text = cc (q, dl) in
      let there = bundle-there srv name id i text' jobs' t x ∙ ap some at in
      let req = restore_request name id in
      let w : World S = record { jobs = jobs'; fs = fs; objects = s } in
      let same = restore-performs a name id w ∙ restores a name id text w v there k in
      let r = Restore.restore store a.mirror a.git name s fs in
      (
        x.handed.same,
        ap (verify_bundle_file srv.scratch_verify) (sym at) ∙ x.verified,
        there,
        job-waits srv a id req store x.handed.text w later (rw same ag) x.handed.encoded
              x.handed.there
            ∙ ap (λ o. ok (o.0, o.1)) same,
        job-fs srv a id req store x.handed.text w ag x.handed.encoded x.handed.there
            ∙ ap (λ o. o.2) same
            ∙ restored-fs r,
      )
