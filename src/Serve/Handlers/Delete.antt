-- ===== src/Serve/Handlers/Delete.antt =====
-- handleDelete of internal/serve/serve.go: the answer to a client.
use gitd.Agent.{
  Agent, World, process_job, delete_repo, Message, bundle_ext, request_ext, result_ext,
}
use gitd.Serve.Jobs.{stage_delete_job, delete_request, Stager, wait_result, cleanup_job}
use gitd.Serve.Jobs.Exchange.{Agree}
use gitd.Serve.Jobs.Delete.{delete-exchange}
use gitd.Os.{FileSystem}
use gitd.Agent.Removal.{IsRemoved, delete_repo_iff}
use gitd.Serve.Jobs.Cleanup.{cleanup_job-lookup}
use gitd.Prelude.{
  ◌↔◌, ◌++◌, ◌&&◌, ◌||◌, not, str_eq, ◌∷◌, ap, sym, ◌∙◌, refl, true, false, Bool, List,
  if◌then◌else◌, ◌≡◌, Bytes, none, some,
}
use gitd.Prelude.Map.{Map, lookup}
use gitd.Prelude.Result.{ok}
use gitd.Repo.{valid_name}
use gitd.ObjectStore.{ObjectStore}
use gitd.Serve.Handlers.{
  await_job, handle_delete, job_failed, empty, reply, serve_error, outcome_reply, with_name,
}

module _ {S : Type 0} (store : ObjectStore S) where
  handle_delete-reply :
      (srv : Stager) (a : Agent) (name id i : Bytes) (jobs jobs' : Map Bytes) (fs : FileSystem)
      (s : S) (later : List (Map Bytes)) (w : World S)
      → valid_name name ≡ true
      → srv.new_id ≡ some id
      → stage_delete_job srv name jobs ≡ (ok i, jobs')
      → Agree srv a id
          (delete_request name)
          (delete_repo a (delete_request name) fs).0
          (delete_repo a (delete_request name) fs).1
      → process_job store a id (record { jobs = jobs'; fs = fs; objects = s }) ≡ w
      → (handle_delete srv (some name) none false (w.jobs ∷ later) w.jobs jobs ≡ (
        (if (delete_repo a (delete_request name) fs).0
            then reply 200 empty
            else serve_error (job_failed (delete_repo a (delete_request name) fs).1)),
        cleanup_job srv id w.jobs,
      ))
        × (w.fs ≡ (delete_repo a (delete_request name) fs).2)
  unfolding handle_delete with_name await_job
  handle_delete-reply srv a name id i jobs jobs' fs s later w v n h ag e =
      let (same, r, f) = delete-exchange store srv a name id i jobs jobs' fs s later n h ag in
      let r' : wait_result srv id (w.jobs ∷ later)
          ≡ ok (
            (delete_repo a (delete_request name) fs).0,
            (delete_repo a (delete_request name) fs).1,
          ) =
        ap (λ (x : World S). wait_result srv id (x.jobs ∷ later)) (sym e)
        ∙ ap
            (λ j. wait_result srv j (
              (process_job store a id (record { jobs = jobs'; fs = fs; objects = s })).jobs
              ∷ later))
            (sym same)
        ∙ r in
      (
        rw (v, h)
            (ap (λ j. outcome_reply srv j w.jobs (wait_result srv j (w.jobs ∷ later))) same
              ∙ ap (outcome_reply srv id w.jobs) r'
              ∙ by_outcome (delete_repo a (delete_request name) fs).0
                  (delete_repo a (delete_request name) fs).1),
        ap (λ (x : World S). x.fs) (sym e) ∙ f,
      )
    where
      by_outcome :
          (done : Bool) (m : Message)
          → outcome_reply srv id w.jobs (ok (done, m)) ≡ (
            (if done then reply 200 empty else serve_error (job_failed m)),
            cleanup_job srv id w.jobs,
          )
      by_outcome true m = refl
      by_outcome false m = refl

  -- A deletion that was staged and that the agent runs next is answered 200 or with the agent's
  -- message, 200 exactly when the repository is gone afterwards: nothing is left at its path or below
  -- it, and every other path is as it was. The job's bundle, request and result are removed from
  -- the spool where they can be, and no other file of it. This holds where the two programs agree on the
  -- formats and can read and write each other's files.
  pub handle_delete-agent :
      (srv : Stager) (a : Agent) (name id i : Bytes) (jobs jobs' : Map Bytes) (fs : FileSystem)
      (s : S) (later : List (Map Bytes)) (w : World S)
      → valid_name name ≡ true
      → srv.new_id ≡ some id
      → stage_delete_job srv name jobs ≡ (ok i, jobs')
      → Agree srv a id
          (delete_request name)
          (delete_repo a (delete_request name) fs).0
          (delete_repo a (delete_request name) fs).1
      → process_job store a id (record { jobs = jobs'; fs = fs; objects = s }) ≡ w
      → ((done : Bool) × ((handle_delete srv (some name) none false (w.jobs ∷ later) w.jobs jobs).0
            ≡ (if done
                then reply 200 empty
                else serve_error (job_failed (delete_repo a (delete_request name) fs).1)))
          × ((done ≡ true) ↔ IsRemoved a name fs w.fs))
        × ((j : Bytes)
            → lookup j (handle_delete srv (some name) none false (w.jobs ∷ later) w.jobs jobs).1 ≡ (
                if (str_eq (id ++ bundle_ext) j
                    || str_eq (id ++ request_ext) j
                    || str_eq (id ++ result_ext) j)
                  && not (srv.remove_fails j)
                then none
                else lookup j w.jobs))
  handle_delete-agent srv a name id i jobs jobs' fs s later w v n h ag e =
      let (same, f) = handle_delete-reply srv a name id i jobs jobs' fs s later w v n h ag e in
      (
        (
          (delete_repo a (delete_request name) fs).0,
          ap (λ x. x.0) same,
          rw f (delete_repo_iff a (delete_request name) fs v),
        ),
        λ j. ap (λ x. lookup j x.1) same ∙ cleanup_job-lookup srv id j w.jobs,
      )
