-- ===== src/Cli/Delete.antt =====
-- `gitd repo delete` from internal/cli/repo.go through internal/serve/serve.go to
-- internal/mirror/agent.go.
use gitd.Agent.Removal.{IsRemoved}
use gitd.Prelude.{
  sym, ◌∙◌, ◌≡◌, ◌↔◌, refl, ap, Bool, true, false, List, ◌∷◌, Bytes, none, some, if◌then◌else◌,
}
use gitd.Prelude.Map.{Map}
use gitd.Prelude.Result.{ok}
use gitd.Os.{FileSystem}
use gitd.ObjectStore.{ObjectStore}
use gitd.Agent.{Agent, World, Message, process_job, delete_repo}
use gitd.Serve.Jobs.{Stager, stage_delete_job, delete_request}
use gitd.Serve.Jobs.Exchange.{Agree}
use gitd.Serve.Handlers.{handle_delete, reply, empty, serve_error, job_failed}
use gitd.Serve.Handlers.Delete.{handle_delete-agent}
use gitd.Cli.{Job, client_result, run_repo}
use gitd.Cli.Confirmed.{run_repo-confirmed}

reply-done :
    (done : Bool) (m : Message)
    → (client_result (if done then reply 200 empty else serve_error (job_failed m)) ≡ ok tt)
      ↔ (done ≡ true)
unfolding client_result serve_error
reply-done true m = (λ h. refl, λ h. refl)
reply-done false m = (λ h. cc h, λ h. cc h)

module _ {S : Type 0} (store : ObjectStore S) where
  -- The command `gitd repo delete` succeeds exactly when the repository is gone afterwards: its
  -- name led to a bare repository, nothing is left at its path or below it, and every other path is as
  -- it was. This holds where the server staged the job, the agent runs it next, and the two agree on
  -- the formats and can read and write each other's files.
  pub delete-outcome :
      (args : List Bytes) (srv : Stager) (a : Agent) (name id i : Bytes) (jobs jobs' : Map Bytes)
      (fs : FileSystem) (s : S) (later : List (Map Bytes)) (w : World S)
      → run_repo args ≡ ok (Job.delete_repo name)
      → srv.new_id ≡ some id
      → stage_delete_job srv name jobs ≡ (ok i, jobs')
      → Agree srv a id
          (delete_request name)
          (delete_repo a (delete_request name) fs).0
          (delete_repo a (delete_request name) fs).1
      → process_job store a id (record { jobs = jobs'; fs = fs; objects = s }) ≡ w
      → (client_result (handle_delete srv (some name) none false (w.jobs ∷ later) w.jobs jobs).0
          ≡ ok tt)
        ↔ IsRemoved a name fs w.fs
  delete-outcome args srv a name id i jobs jobs' fs s later w r n h ag e =
      let (v, y) = run_repo-confirmed args name r in
      let ((done, same, gone), f) =
        handle_delete-agent store srv a name id i jobs jobs' fs s later w v n h ag e in
      let told = reply-done done (delete_repo a (delete_request name) fs).1 in
      (
        λ k. gone.0 (told.0 (ap client_result (sym same) ∙ k)),
        λ x. ap client_result same ∙ told.1 (gone.1 x),
      )
