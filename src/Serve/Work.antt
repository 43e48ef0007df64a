-- ===== src/Serve/Work.antt =====
-- internal/serve/serve.go: what the actions do to the spool and the mirror. Log lines are left out.
pub mod Queue
pub mod Attempts
pub mod Deliveries
use gitd.Prelude.{
  ℕ, zero, suc, ◌≡◌, refl, Bool, true, false, List, [], ◌∷◌, ◌++◌, Bytes, Option, none, some,
  if◌then◌else◌, ltb, length, map,
}
use gitd.Prelude.Result.{Result, ok, err}
use gitd.Config.{PluginConfig}
use gitd.Spool.{Store, Files, SpoolError, purge}
use gitd.Spool.Retry.{catch_up}
use gitd.Deliverer.{Deliverer, DeliverError, deliver}
use gitd.ObjectStore.{ObjectStore}
use gitd.Mirror.{Mirror, MirrorError, create_bundle, verify}

-- The work that is sent to the channel. `startup` is the sweep of Run, with the restore spool.
pub data Action : Type 0 where
  deliver_all : Bytes → Action
  deliver_one : Bytes → Bytes → Action
  bundle stage_restore stage_delete : Bytes → Action
  sweep verify_mirrors startup : Action

-- the loop of deliverAllAction: which deliveries failed, and the spool; each delivery meets its own
-- calls to the system
unfoldable pub deliver_each :
    Deliverer
    → (ℕ → Store)
    → ℕ
    → Bytes
    → List PluginConfig
    → Files
    → List (Bytes × DeliverError) × Files
deliver_each s env i id [] d = ([], d)
deliver_each s env i id (p ∷ ps) d =
    let (r, d') = deliver s (env i) p.id id d in
    let (failed, d'') = deliver_each s env (suc i) id ps d' in
    (elim r [ ok u ↦ failed | err e ↦ (p.id, e) ∷ failed ], d'')

-- Serve.deliverAllAction
unfoldable pub deliver_all_action :
    Deliverer → (ℕ → Store) → Bytes → Files → List (Bytes × DeliverError) × Files
deliver_all_action s env id d = deliver_each s env 0 id s.plugins d

-- A send that does not block: a full channel drops the action.
abbrev pub offer {ℓ} : {A : Type ℓ} → ℕ → A → List A → List A
offer capacity a buffer = if ltb (length buffer) capacity then buffer ++ (a ∷ []) else buffer

-- the loop of sweepOnce
unfoldable pub requeue : ℕ → List Bytes → List Action → List Action
requeue capacity [] buffer = buffer
requeue capacity (id ∷ ids) buffer = requeue capacity ids (offer capacity (deliver_all id) buffer)

-- Serve.sweepOnce: a purge that fails does not keep the events from being queued again
unfoldable pub sweep_once : Store → ℕ → Files → List Action → Files × List Action
sweep_once st capacity d buffer =
    let (r, d') = purge st d in
    elim (catch_up st d') [ err e ↦ (d', buffer) | ok ids ↦ (d', requeue capacity ids buffer) ]

-- What Run sends before it listens: the events of Serve.catchUp, then the startup action.
unfoldable pub startup_actions : Store → Files → Result SpoolError (List Action)
startup_actions st d = elim (catch_up st d) [
  | err e ↦ err e
  | ok ids ↦ ok (map deliver_all ids ++ (startup ∷ []))
]

-- The loop of startSweepLoop, from the result of the submission at each tick: the number of sweeps
-- that it submitted. A refused submission ends the loop.
unfoldable pub sweep_loop {ℓ} : {E : Type ℓ} → List (Option E) → ℕ
sweep_loop [] = 0
sweep_loop (none ∷ ticks) = suc (sweep_loop ticks)
sweep_loop (some e ∷ ticks) = 0

-- What one attempt meets: git and the clock stand in the mirror and the time, the backend in the
-- store.
pub record Attempt (S : Type 0) : Type 0 where
  pub store : ObjectStore S
  pub mirror : Mirror
  pub now : ℕ

module _ {S : Type 0} where
  -- one attempt
  unfoldable pub attempt_bundle : Attempt S → Bytes → S → Result MirrorError Bool × S
  attempt_bundle a name s = create_bundle a.store a.mirror name a.now s

  -- the loop of bundleAction, with the attempts that are left after this one
  unfoldable pub bundle_loop : ℕ → ℕ → (ℕ → Attempt S) → Bytes → S → Result MirrorError Bool × S
  bundle_loop zero i env name s = attempt_bundle (env i) name s
  bundle_loop (suc left) i env name s =
      let (r, s') = attempt_bundle (env i) name s in
      elim r [ ok b ↦ (ok b, s') | err e ↦ bundle_loop left (suc i) env name s' ]

  -- Serve.bundleAction: one attempt and one for each backoff
  unfoldable pub bundle_action : (ℕ → Attempt S) → Bytes → S → Result MirrorError Bool × S
  bundle_action env name s = bundle_loop 3 0 env name s

  -- the loop of verifyOnce: the repositories that do not verify
  unfoldable pub verify_each : ObjectStore S → Mirror → List Bytes → S → List (Bytes × MirrorError)
  verify_each store m [] s = []
  verify_each store m (name ∷ names) s =
      let failed = verify_each store m names s in
      elim (verify store m name s) [ ok u ↦ failed | err e ↦ (name, e) ∷ failed ]
