-- ===== src/Tests/Server.antt =====
-- The server: its channel, its sweep, its bundles and its deliveries.
use gitd.Prelude.{◌↔◌}
use gitd.Prelude.{In}
use gitd.Prelude.Sorted.{IsSorted}
use gitd.Prelude.Map.{insert, Map, lookup}
use gitd.Prelude.{
  trim_space, text_end, trim_left, space_width, zero, ◌<◌, ◌≡◌, refl, ℕ, suc, List, [], ◌∷◌, ◌++◌,
  Bytes, codes, true, none, some, take, map, arith, str_eq,
}
use gitd.Mirror.{bundle_key, create_bundle, bundle_and_upload, upload, refs_failed}
use gitd.Serve.Work.{
  bundle_loop, Attempt, attempt_bundle, bundle_action, sweep_once, deliver_all, deliver_all_action,
}
use gitd.Prelude.Int.{pos}
use gitd.Prelude.Result.{ok}
use gitd.Serve.Channel.{
  Channel, Move, submits, receives, completes, leaves, shuts_down, slot, timer, draining, exited,
  new, run, step, submit, receive, complete, leave, push, drain_moves,
}
use gitd.Serve.Channel.Order.{IsFifo, run-IsFifo}
use gitd.Serve.Channel.Drain.{exit_complete, drain-ends, accepted_after_exit}
use gitd.Spool.{
  purge, list, read_all, read_file, decode_record, purge_loop, purge_one, expired, delete,
}
use gitd.Spool.Retry.{catch_up, due_ids, due}
use gitd.Spool.CatchUp.{IsDueId}
use gitd.Event.{check_version}
use gitd.Serve.Work.Queue.{sweep_once-queue}
use gitd.Serve.Work.Attempts.{before_attempt, Fails, bundle_action-first, bundle_action-err}
use gitd.Serve.Work.Deliveries.{deliver_all_action-Keeps}
use gitd.ObjectStore.Memory.{memory_store}
use gitd.Repo.{valid_name}
use gitd.Tests.Events.{store, one, test_deliverer, test_unmarshal}
use gitd.Tests.Bundles.{test_mirror, bucket}

-- two actions are sent, the first has run, and the shutdown began
abbrev moves : List (Move ℕ)
moves = submits slot 7 ∷ receives ∷ submits slot 8 ∷ shuts_down ∷ completes ∷ leaves ∷ []

abbrev ending : Channel ℕ
ending = record {
  buffer = 8 ∷ [];
  capacity = 2;
  done = true;
  worker = draining;
  accepted = 7 ∷ 8 ∷ [];
  finished = 7 ∷ [];
}

abbrev ended : Channel ℕ
ended = record ending { buffer = []; worker = exited; finished = 7 ∷ 8 ∷ [] }

run-IsFifo_example : IsFifo ending
unfolding run step submit receive complete leave new
run-IsFifo_example = run-IsFifo (pos 2) moves ending refl

drain-ends_example :
    (step leaves ending ≡ none)
    × ((e : Channel ℕ) → step leaves ending ≡ some e → e.finished ≡ e.accepted)
    × (c : Channel ℕ) × (run (drain_moves (8 ∷ [])) ending ≡ some c)
    × (c.worker ≡ exited)
    × (c.finished ≡ 7 ∷ 8 ∷ [])
unfolding run step submit receive complete leave new
drain-ends_example = drain-ends (pos 2) moves ending refl refl

abbrev emptied : Channel ℕ
emptied = record ending { buffer = []; finished = 7 ∷ 8 ∷ [] }

exit_complete_example : (ended.worker ≡ exited) × (ended.finished ≡ ended.accepted)
unfolding run step submit receive complete leave new
exit_complete_example =
    exit_complete (pos 2) (moves ++ (receives ∷ completes ∷ [])) emptied ended refl refl refl

accepted_after_exit_example :
    (submit slot 9 ended ≡ some (ok tt, push 9 ended)) × ((push 9 ended).finished ≡ ended.finished)
unfolding run step submit
accepted_after_exit_example =
    accepted_after_exit 9 ended (push 9 ended) (submits timer 3 ∷ []) refl (omega arith) refl

sweep_once-queue_example :
    ((sweep_once store 3 one (deliver_all (codes "z") ∷ [])).0 ≡ (purge store one).1)
    × ((sweep_once store 3 one (deliver_all (codes "z") ∷ [])).1
        ≡ (deliver_all (codes "z") ∷ []) ++ map deliver_all (take 2 (codes "a" ∷ [])))
    × IsSorted (λ s. s) (codes "a" ∷ [])
    × ((id : Bytes) → In id (codes "a" ∷ []) ↔ IsDueId store (purge store one).1 id)
unfolding purge purge_loop purge_one expired delete catch_up list read_all str_eq read_file lookup
    decode_record test_unmarshal check_version due_ids due
sweep_once-queue_example =
    sweep_once-queue store 3 one (deliver_all (codes "z") ∷ []) (codes "a" ∷ []) (omega arith) refl

-- the first attempt meets a git that fails
abbrev broken : Attempt (Map Bytes)
broken = record {
  store = memory_store;
  mirror = record test_mirror { for_each_ref = λ d. none };
  now = 49;
}

abbrev flaky : ℕ → Attempt (Map Bytes)
flaky zero = broken
flaky (suc n) = record { store = memory_store; mirror = test_mirror; now = 50 }

flaky-Fails : (j : ℕ) → j < 1 → Fails flaky (codes "a") j bucket
unfolding attempt_bundle create_bundle valid_name before_attempt
flaky-Fails zero h = (refs_failed, refl)
flaky-Fails (suc j) h = absurd (omega arith)

bundle_action-first_example :
    bundle_action flaky (codes "a") bucket ≡ (ok true, before_attempt flaky (codes "a") 2 bucket)
unfolding attempt_bundle create_bundle valid_name before_attempt trim_space text_end trim_left
    space_width bundle_and_upload upload lookup insert str_eq bundle_key
bundle_action-first_example =
    bundle_action-first flaky (codes "a") bucket true 1 (omega arith) flaky-Fails refl

bundle_action-err_example : Fails (λ i. broken) (codes "a") 3 bucket
unfolding bundle_action bundle_loop attempt_bundle create_bundle valid_name
bundle_action-err_example =
    bundle_action-err (λ i. broken) (codes "a") bucket refs_failed 3 refl (omega arith)

deliver_all_action-Keeps_example :
    lookup (codes "b.json") (deliver_all_action test_deliverer (λ i. store) (codes "a") one).1
    ≡ lookup (codes "b.json") one
unfolding lookup str_eq
deliver_all_action-Keeps_example =
    deliver_all_action-Keeps (λ i. store) (codes "a") test_deliverer one (codes "b.json")
      (λ i. (refl, refl)) refl
