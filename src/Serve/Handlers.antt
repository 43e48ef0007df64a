-- ===== src/Serve/Handlers.antt =====
-- internal/serve/serve.go: the endpoints of the server. `submitted` is the answer of the channel, with
-- none where it took the action; `gone` says that the client disconnected before the action was done:
-- the action runs all the same, and nothing is replied.
pub mod Deliver
pub mod Delete
use gitd.Prelude.{
  ℕ, ◌≡◌, refl, Bool, true, false, not, ◌||◌, List, [], ◌∷◌, Bytes, Option, none, some,
  if◌then◌else◌, is_nil, str_eq, any,
}
use gitd.Prelude.Map.{Map}
use gitd.Prelude.Result.{Result, ok, err}
use gitd.Repo.{valid_name}
use gitd.Config.{PluginConfig}
use gitd.Spool.{Store, Files, dead}
use gitd.Spool.Retry.{set_state}
use gitd.Deliverer.{Deliverer, DeliverError, deliver}
use gitd.ObjectStore.{ObjectStore}
use gitd.Mirror.{MirrorError}
use gitd.Agent.{Message}
use gitd.Serve.Channel.{ServeError}
use gitd.Serve.Work.{Attempt, bundle_action}
use gitd.Serve.Jobs.{
  Stager, StageError, WaitError, stage_restore_job, stage_delete_job, wait_result, cleanup_job,
}

pub data Failure : Type 0 where
  not_accepted : ServeError → Failure
  bundle_failed : MirrorError → Failure
  delivery_failed : DeliverError → Failure
  staging_failed : StageError → Failure
  wait_failed : WaitError → Failure
  job_failed : Message → Failure

pub data Body : Type 0 where
  empty bad_body invalid_repo_name ids_required plugin_not_configured : Body
  uploaded : Bool → Body
  failure : Failure → Body

pub record Reply : Type 0 where
  pub status : ℕ
  pub body : Body

abbrev pub reply : ℕ → Body → Option Reply
reply status body = some (record { status = status; body = body })

-- writeServeError: a full channel and a shutdown are 503
unfoldable pub serve_error : Failure → Option Reply
serve_error (not_accepted e) = reply 503 (failure (not_accepted e))
serve_error f = reply 500 (failure f)

-- A reply to a client that is gone is not sent.
abbrev pub sent : Bool → Option Reply → Option Reply
sent gone r = if gone then none else r

abbrev pub bundle_reply : Result MirrorError Bool → Option Reply
bundle_reply (ok done) = reply 200 (uploaded done)
bundle_reply (err e) = serve_error (bundle_failed e)

abbrev pub deliver_reply : Result DeliverError (Unit {0}) → Option Reply
deliver_reply (ok u) = reply 200 empty
deliver_reply (err e) = serve_error (delivery_failed e)

module _ {S : Type 0} where
  abbrev run_bundle : (ℕ → Attempt S) → Option ServeError → Bool → Bytes → S → Option Reply × S
  run_bundle env (some e) gone name s = (serve_error (not_accepted e), s)
  run_bundle env none gone name s =
      let (r, s') = bundle_action env name s in (sent gone (bundle_reply r), s')

  -- Serve.handleBundle, from the decoded body
  unfoldable pub handle_bundle :
      (ℕ → Attempt S) → Option Bytes → Option ServeError → Bool → S → Option Reply × S
  handle_bundle env none submitted gone s = (reply 400 bad_body, s)
  handle_bundle env (some name) submitted gone s =
      if not (valid_name name)
      then (reply 400 invalid_repo_name, s)
      else run_bundle env submitted gone name s

-- Serve.pluginConfigured
unfoldable pub plugin_configured : List PluginConfig → Bytes → Bool
plugin_configured ps id = any (λ (p : PluginConfig). str_eq p.id id) ps

abbrev run_deliver :
    Deliverer → Store → Option ServeError → Bool → Bytes → Bytes → Files → Option Reply × Files
run_deliver s st (some e) gone plugin_id event_id d = (serve_error (not_accepted e), d)
run_deliver s st none gone plugin_id event_id d =
    let (r, d') = deliver s st plugin_id event_id d in (sent gone (deliver_reply r), d')

-- Serve.handleDeliver, from the decoded body: an unknown plugin dead-letters the event, and a failure
-- to do so is only logged
unfoldable pub handle_deliver :
    Deliverer
    → Store
    → Option (Bytes × Bytes)
    → Option ServeError
    → Bool
    → Files
    → Option Reply × Files
handle_deliver s st none submitted gone d = (reply 400 bad_body, d)
handle_deliver s st (some (plugin_id, event_id)) submitted gone d =
    if is_nil plugin_id || is_nil event_id
    then (reply 400 ids_required, d)
    else if not (plugin_configured s.plugins plugin_id)
    then (reply 404 plugin_not_configured, (set_state st event_id dead d).1)
    else run_deliver s st submitted gone plugin_id event_id d

-- What the agent left, when the wait is over: the snapshots of the ticks, and the job spool.
abbrev pub outcome_reply :
    Stager → Bytes → Map Bytes → Result WaitError (Bool × Message) → Option Reply × Map Bytes
outcome_reply srv id after (err e) = (serve_error (wait_failed e), after)
outcome_reply srv id after (ok (true, m)) = (reply 200 empty, cleanup_job srv id after)
outcome_reply srv id after (ok (false, m)) = (serve_error (job_failed m), cleanup_job srv id after)

-- After the staging action: `after` is the job spool once the wait is over.
unfoldable pub await_job :
    Stager
    → Bool
    → List (Map Bytes)
    → Map Bytes
    → Result StageError Bytes × Map Bytes
    → Option Reply × Map Bytes
await_job srv true ticks after (r, jobs) = (none, jobs)
await_job srv false ticks after (err e, jobs) = (serve_error (staging_failed e), jobs)
await_job srv false ticks after (ok id, jobs) =
    outcome_reply srv id after (wait_result srv id ticks)

abbrev pub if_accepted :
    Option ServeError → Option Reply × Map Bytes → Map Bytes → Option Reply × Map Bytes
if_accepted (some e) acted jobs = (serve_error (not_accepted e), jobs)
if_accepted none acted jobs = acted

-- the checks that handleRestore and handleDelete share, in front of the action
unfoldable pub with_name :
    Option Bytes
    → Option ServeError
    → (Bytes → Option Reply × Map Bytes)
    → Map Bytes
    → Option Reply × Map Bytes
with_name none submitted act jobs = (reply 400 bad_body, jobs)
with_name (some name) submitted act jobs =
    if not (valid_name name)
    then (reply 400 invalid_repo_name, jobs)
    else if_accepted submitted (act name) jobs

-- Serve.handleRestore
unfoldable pub handle_restore :
    {S : Type 0}
    → ObjectStore S
    → Stager
    → Option Bytes
    → Option ServeError
    → Bool
    → List (Map Bytes)
    → Map Bytes
    → S
    → Map Bytes
    → Option Reply × Map Bytes
handle_restore store srv req submitted gone ticks after s jobs =
    with_name req submitted
      (λ name. await_job srv gone ticks after (stage_restore_job store srv name s jobs)) jobs

-- Serve.handleDelete
unfoldable pub handle_delete :
    Stager
    → Option Bytes
    → Option ServeError
    → Bool
    → List (Map Bytes)
    → Map Bytes
    → Map Bytes
    → Option Reply × Map Bytes
handle_delete srv req submitted gone ticks after jobs =
    with_name req submitted
      (λ name. await_job srv gone ticks after (stage_delete_job srv name jobs)) jobs
