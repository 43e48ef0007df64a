-- ===== src/Serve/Work/Queue.antt =====
-- sweepOnce of internal/serve/serve.go: the actions it queues.
use gitd.Prelude.{
  lt→ltb, suc, zero, ℕ, ◌≡◌, ◌≤◌, ◌+◌, ◌-◌, refl, sym, ◌∙◌, false, List, [], ◌∷◌, ◌++◌, Bytes,
  length, ltb, length-append, take, map, arith,
}
use gitd.Prelude.{In, ◌↔◌}
use gitd.Prelude.Sorted.{IsSorted}
use gitd.Prelude.Result.{ok}
use mathlib.Core.List.{append_assoc, append-nil}
use gitd.Spool.{Store, Files, purge}
use gitd.Spool.Retry.{catch_up}
use gitd.Spool.CatchUp.{IsDueId, catch_up_sound, catch_up_iff}
use gitd.Serve.Work.{Action, deliver_all, requeue, sweep_once}

requeue-full :
    (capacity : ℕ) (ids : List Bytes) (buffer : List Action)
    → ltb (length buffer) capacity ≡ false
    → requeue capacity ids buffer ≡ buffer
unfolding requeue
requeue-full capacity [] buffer h = refl
requeue-full capacity (id ∷ ids) buffer h = rw h (requeue-full capacity ids buffer h)

-- as many as the channel has room for, in order
requeue-take :
    (n capacity : ℕ) (ids : List Bytes) (buffer : List Action)
    → length buffer + n ≡ capacity
    → requeue capacity ids buffer ≡ buffer ++ map deliver_all (take n ids)
unfolding requeue
requeue-take zero capacity ids buffer e =
    requeue-full capacity ids buffer (ground arith) ∙ sym (append-nil buffer)
requeue-take (suc n) capacity [] buffer e = sym (append-nil buffer)
requeue-take (suc n) capacity (id ∷ ids) buffer e =
    rw (lt→ltb (length buffer) capacity (omega arith)) (
      requeue-take n capacity ids (buffer ++ (deliver_all id ∷ []))
        (omega (arith, length-append {0} buffer (deliver_all id ∷ [])))
      ∙ append_assoc buffer (deliver_all id ∷ []) (map deliver_all (take n ids)))

-- A sweep whose CatchUp succeeds queues, behind what waits already and as far as the channel has
-- room, the events of the purged spool that are pending and due, every one of them and no other, in
-- the order of their ids; it removes nothing from the channel.
pub sweep_once-queue :
    (st : Store) (capacity : ℕ) (d : Files) (buffer : List Action) (ids : List Bytes)
    → length buffer ≤ capacity
    → catch_up st (purge st d).1 ≡ ok ids
    → ((sweep_once st capacity d buffer).0 ≡ (purge st d).1)
      × ((sweep_once st capacity d buffer).1
          ≡ buffer ++ map deliver_all (take (capacity - length buffer) ids))
      × IsSorted (λ s. s) ids
      × ((id : Bytes) → In id ids ↔ IsDueId st (purge st d).1 id)
unfolding sweep_once
sweep_once-queue st capacity d buffer ids room h = (
  rw (h, sweep_once) refl,
  rw (h, sweep_once) (requeue-take (capacity - length buffer) capacity ids buffer (omega arith)),
  (catch_up_sound st (purge st d).1 ids h).0,
  catch_up_iff st (purge st d).1 ids h,
)
