-- ===== src/Serve/Jobs/Delete.antt =====
-- stageDeleteJob of internal/serve/serve.go, and the agent on its job.
use gitd.Prelude.{
  Bool, Bool-cases, inl, inr, ◌≡◌, refl, sym, ap, ◌∙◌, true, false, List, ◌∷◌, ◌++◌, Bytes, some,
  arith, str_eq,
}
use gitd.Prelude.Map.{Map, lookup}
use gitd.Prelude.Result.{Result, ok, err}
use gitd.Os.{FileSystem}
use gitd.ObjectStore.{ObjectStore}
use gitd.Spool.{WriteStep, sync_dir}
use gitd.Agent.Removal.{IsRemoved, unstuck-IsRemoved}
use gitd.Repo.{valid_name, is_bare_repo, realpath_under, dot_git}
use gitd.FilePath.{join_path}
use gitd.Os.{is_under}
use gitd.Agent.{Agent, World, process_job, perform, delete_repo, request_ext}
use gitd.Agent.Files.{JobWriter, write_job_file, write_job_file_self}
use gitd.Serve.Jobs.{
  Stager, stage_request_failed, stage_delete_job, hand_over, staged, mkdir_failed, delete_request,
  wait_result,
}
use gitd.Serve.Jobs.Exchange.{
  Agree, IsHandedOver, hand_over-ok, hand_over-staged, job-waits, job-fs, agent-fs,
}

stage-hand_over :
    (srv : Stager) (name id : Bytes) (d : Map Bytes)
    → srv.new_id ≡ some id
    → srv.mkdir_fails ≡ false
    → stage_delete_job srv name d ≡ hand_over srv id (delete_request name) d
unfolding stage_delete_job
stage-hand_over srv name id d n m = ground arith

stage-mkdir :
    (srv : Stager) (name id : Bytes) (d : Map Bytes)
    → srv.new_id ≡ some id
    → srv.mkdir_fails ≡ true
    → stage_delete_job srv name d ≡ (err mkdir_failed, d)
unfolding stage_delete_job
stage-mkdir srv name id d n m = ground arith

delete-hand_over :
    (srv : Stager) (name id i : Bytes) (d d' : Map Bytes)
    → srv.new_id ≡ some id
    → stage_delete_job srv name d ≡ (ok i, d')
    → IsHandedOver srv id (delete_request name) i d d'
delete-hand_over srv name id i d d' n h = elim (Bool-cases srv.mkdir_fails) [
  | inl m ↦ cc (stage-mkdir srv name id d n m, h)
  | inr m ↦
      hand_over-ok srv id (delete_request name) i d d' (sym (stage-hand_over srv name id d n m) ∙ h)
]

module _ {S : Type 0} (store : ObjectStore S) where
  -- The server reads exactly what the deletion came to, and the file system is what the deletion
  -- left: where the job was staged, the agent runs it next, and the two agree on the formats and can
  -- read and write each other's files.
  pub delete-exchange :
      (srv : Stager) (a : Agent) (name id i : Bytes) (jobs jobs' : Map Bytes) (fs : FileSystem)
      (s : S) (later : List (Map Bytes))
      → srv.new_id ≡ some id
      → stage_delete_job srv name jobs ≡ (ok i, jobs')
      → Agree srv a id
          (delete_request name)
          (delete_repo a (delete_request name) fs).0
          (delete_repo a (delete_request name) fs).1
      → (i ≡ id)
        × (wait_result srv i (
              (process_job store a id (record { jobs = jobs'; fs = fs; objects = s })).jobs ∷ later)
            ≡ ok (
              (delete_repo a (delete_request name) fs).0,
              (delete_repo a (delete_request name) fs).1,
            ))
        × ((process_job store a id (record { jobs = jobs'; fs = fs; objects = s })).fs
            ≡ (delete_repo a (delete_request name) fs).2)
  unfolding perform str_eq
  delete-exchange srv a name id i jobs jobs' fs s later n h ag =
      let x = delete-hand_over srv name id i jobs jobs' n h in
      let w : World S = record { jobs = jobs'; fs = fs; objects = s } in
      (
        x.same,
        rw (x.same)
            (job-waits srv a id (delete_request name) store x.text w later ag x.encoded x.there),
        job-fs srv a id (delete_request name) store x.text w ag x.encoded x.there,
      )

delete-performs :
    {S : Type 0} (store : ObjectStore S) (a : Agent) (name id : Bytes) (w : World S)
    → (perform store a id (some (delete_request name)) w).2
      ≡ (delete_repo a (delete_request name) w.fs).2
unfolding perform str_eq
delete-performs store a name id w = refl

staged-err :
    (id : Bytes) (o : Result WriteStep (Unit {0}) × Map Bytes) {e : WriteStep}
    → o.0 ≡ err e
    → (staged id o).0 ≡ err (stage_request_failed e)
staged-err id (ok u, d) h = cc
staged-err id (err x, d) h = cc

staged-files : (id : Bytes) (o : Result WriteStep (Unit {0}) × Map Bytes) → (staged id o).1 ≡ o.1
staged-files id (ok u, d) = refl
staged-files id (err x, d) = refl

abbrev pub is_sync_dir : WriteStep → Bool
is_sync_dir sync_dir = true
is_sync_dir s = false

only_sync_dir :
    (w : JobWriter) (name text : Bytes) (d : Map Bytes)
    → ((s : WriteStep) → w.fails s ≡ is_sync_dir s)
    → (write_job_file w name text d).0 ≡ err sync_dir
unfolding write_job_file
only_sync_dir w name text d h =
    rw
      (
        h WriteStep.create_temp,
        h WriteStep.chmod,
        h WriteStep.write,
        h WriteStep.sync,
        h WriteStep.close,
        h WriteStep.rename,
        h sync_dir,
      )
      refl

-- Where only the last fsync of the job's request fails, a deletion is reported as failed to stage, and
-- yet the repository is gone when the agent has run the job, if the agent can read the request and
-- the name is valid and leads to a bare repository of which everything can be removed.
pub delete-fsync :
    {S : Type 0} (store : ObjectStore S) (srv : Stager) (a : Agent) (name id text d : Bytes)
    (jobs : Map Bytes) (fs : FileSystem) (s : S)
    → srv.new_id ≡ some id
    → srv.mkdir_fails ≡ false
    → srv.encode_request (delete_request name) ≡ some text
    → ((st : WriteStep) → srv.writer.fails st ≡ is_sync_dir st)
    → a.decode_request text ≡ some (delete_request name)
    → a.read_fails (id ++ request_ext) ≡ false
    → valid_name name ≡ true
    → realpath_under
        (a.absolute a.repos_root)
        (a.eval_symlinks (join_path a.repos_root (name ++ dot_git)))
      ≡ ok d
    → is_bare_repo fs d ≡ ok true
    → ((p : Bytes) → is_under d p ≡ true → fs.stuck p ≡ false)
    → ((stage_delete_job srv name jobs).0 ≡ err (stage_request_failed sync_dir))
      × IsRemoved a name fs
          (process_job store a id
            (record { jobs = (stage_delete_job srv name jobs).1; fs = fs; objects = s })).fs
delete-fsync store srv a name id text d jobs fs s n m e f g r v x b k =
    let req = delete_request name in
    let o = write_job_file srv.writer (id ++ request_ext) text jobs in
    let failed = only_sync_dir srv.writer (id ++ request_ext) text jobs f in
    let staged_as =
      stage-hand_over srv name id jobs n m ∙ hand_over-staged srv id text req jobs e in
    let there : lookup (id ++ request_ext) (stage_delete_job srv name jobs).1 ≡ some text =
      ap (λ y. lookup (id ++ request_ext) y.1) staged_as
      ∙ ap (lookup (id ++ request_ext)) (staged-files id o)
      ∙ write_job_file_self srv.writer (id ++ request_ext) text jobs (rw failed refl) in
    let w : World _ = record { jobs = (stage_delete_job srv name jobs).1; fs = fs; objects = s } in
    (
      ap (λ y. y.0) staged_as ∙ staged-err id o failed,
      rw (agent-fs store a id text req w there r g ∙ delete-performs store a name id w)
          (unstuck-IsRemoved a req fs v d x b k),
    )
