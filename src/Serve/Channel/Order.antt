-- ===== src/Serve/Channel/Order.antt =====
-- submit and startWorker of internal/serve/serve.go: the order of the actions.
use gitd.Prelude.{
  ◌≡◌, ◌≤◌, ◌<◌, refl, sym, ap, ◌∙◌, true, false, List, [], ◌∷◌, ◌++◌, Option, none, some, length,
  length-append, ltb, Bool-cases, inl, inr, arith, ltb→lt, if-eq-some, Bool, if◌then◌else◌,
}
use gitd.Prelude.Int.{ℤ}
use mathlib.Core.Path.{subst}
use gitd.Prelude.Result.{err}
use mathlib.Core.List.{append_assoc}
use gitd.Serve.Channel.{
  Channel, shutting_down, Worker, waiting, running, draining, finishing, exited, new, Arm, slot,
  timer, closed, push, submit, take_next, finish, exit_if_empty, after_submit, receive, complete,
  leave, Move, submits, receives, completes, leaves, shuts_down, step, run,
}

module _ {A : Type 0} where
  -- the action that the worker has in hand
  abbrev pub in_hand : Worker A → List A
  in_hand (running a) = a ∷ []
  in_hand (finishing a) = a ∷ []
  in_hand _ = []

  -- the worker is behind the outer select
  abbrev pub IsEnding : Worker A → Type 0
  IsEnding waiting = ⊥
  IsEnding (running a) = ⊥
  IsEnding _ = Unit

  -- Nothing accepted is lost, repeated or overtaken, the buffer keeps to its size, and the worker
  -- leaves its loop only after the shutdown began.
  pub record IsFifo (c : Channel A) : Type 0 where
    pub in_order : c.accepted ≡ c.finished ++ (in_hand c.worker ++ c.buffer)
    pub bounded : length c.buffer ≤ c.capacity
    pub ends_late : IsEnding c.worker → c.done ≡ true

  -- a move is known by its result
  pub moved : (P : Channel A → Type 0) {c d : Channel A} → P d → some d ≡ some c → P c
  moved P {c} {d} p h = subst P (cc h) p

  -- a receive takes the head of the buffer in hand
  received :
      (next : A → Worker A) (buf : List A) (c c' : Channel A)
      → c.buffer ≡ buf
      → in_hand c.worker ≡ []
      → ((a : A) → in_hand (next a) ≡ a ∷ [])
      → ((a : A) → IsEnding (next a) → c.done ≡ true)
      → IsFifo c
      → take_next next buf c ≡ some c'
      → IsFifo c'
  received next [] c c' b w n e f h = cc
  received next (a ∷ rest) c c' b w n e f h =
      moved IsFifo
        (record {
          in_order = f.in_order ∙ rw (b, w, n a) refl;
          bounded = ground (arith, f.bounded);
          ends_late = e a;
        })
        h

  -- a completed action follows those that ran before it
  completed :
      (next : Worker A) (a : A) (c c' : Channel A)
      → in_hand c.worker ≡ a ∷ []
      → in_hand next ≡ []
      → (IsEnding next → c.done ≡ true)
      → IsFifo c
      → finish next a c ≡ some c'
      → IsFifo c'
  completed next a c c' w n e f h =
      moved IsFifo
        (record {
          in_order = f.in_order ∙ rw (w, n) (sym (append_assoc c.finished (a ∷ []) c.buffer));
          bounded = f.bounded;
          ends_late = e;
        })
        h

  -- the worker goes on with nothing in hand
  left :
      (next : Worker A) (c c' : Channel A)
      → in_hand c.worker ≡ []
      → in_hand next ≡ []
      → c.done ≡ true
      → IsFifo c
      → some (record c { worker = next }) ≡ some c'
      → IsFifo c'
  left next c c' w n e f h =
      moved IsFifo
        (record { in_order = f.in_order ∙ rw (w, n) refl; bounded = f.bounded; ends_late = λ x. e })
        h

  receive-IsFifo :
      (w : Worker A) (c c' : Channel A)
      → c.worker ≡ w
      → IsFifo c
      → receive w c ≡ some c'
      → IsFifo c'
  unfolding receive
  receive-IsFifo waiting c c' e f h =
      received running c.buffer c c' refl (rw e refl) (λ a. refl) (λ a x. absurd x) f h
  receive-IsFifo draining c c' e f h =
      received finishing c.buffer c c' refl (rw e refl) (λ a. refl) (λ a x. f.ends_late (rw e tt)) f
        h
  receive-IsFifo (running a) c c' e f h = cc
  receive-IsFifo (finishing a) c c' e f h = cc
  receive-IsFifo exited c c' e f h = cc

  complete-IsFifo :
      (w : Worker A) (c c' : Channel A)
      → c.worker ≡ w
      → IsFifo c
      → complete w c ≡ some c'
      → IsFifo c'
  unfolding complete
  complete-IsFifo (running a) c c' e f h =
      completed waiting a c c' (rw e refl) refl (λ x. absurd x) f h
  complete-IsFifo (finishing a) c c' e f h =
      completed draining a c c' (rw e refl) refl (λ x. f.ends_late (rw e tt)) f h
  complete-IsFifo waiting c c' e f h = cc
  complete-IsFifo draining c c' e f h = cc
  complete-IsFifo exited c c' e f h = cc

  leave_empty :
      (buf : List A) (c c' : Channel A)
      → c.worker ≡ draining
      → IsFifo c
      → exit_if_empty buf c ≡ some c'
      → IsFifo c'
  leave_empty [] c c' e f h = left exited c c' (rw e refl) refl (f.ends_late (rw e tt)) f h
  leave_empty (a ∷ rest) c c' e f h = cc

  leave-IsFifo :
      (w : Worker A) (c c' : Channel A) → c.worker ≡ w → IsFifo c → leave w c ≡ some c' → IsFifo c'
  unfolding leave
  leave-IsFifo waiting c c' e f h =
      let (d, q) = if-eq-some c.done h in left draining c c' (rw e refl) refl d f q
  leave-IsFifo draining c c' e f h = leave_empty c.buffer c c' e f h
  leave-IsFifo (running a) c c' e f h = cc
  leave-IsFifo (finishing a) c c' e f h = cc
  leave-IsFifo exited c c' e f h = cc

  push-IsFifo :
      (a : A) (c : Channel A) → length c.buffer < c.capacity → IsFifo c → IsFifo (push a c)
  push-IsFifo a c room f = record {
    in_order =
        ap (λ l. l ++ (a ∷ [])) f.in_order
        ∙ append_assoc c.finished (in_hand c.worker ++ c.buffer) (a ∷ [])
        ∙ ap (λ l. c.finished ++ l) (append_assoc (in_hand c.worker) c.buffer (a ∷ []));
    bounded = omega (arith, length-append {0} c.buffer (a ∷ []));
    ends_late = f.ends_late;
  }

  refused :
      (b : Bool) (c : Channel A) {c' : Channel A}
      → after_submit (if b then some (err shutting_down, c) else none) ≡ some c'
      → some c ≡ some c'
  refused true c h = h
  refused false c h = cc

  submit-IsFifo :
      (arm : Arm) (a : A) (c c' : Channel A)
      → IsFifo c
      → after_submit (submit arm a c) ≡ some c'
      → IsFifo c'
  unfolding submit
  submit-IsFifo slot a c c' f h = elim (Bool-cases (ltb (length c.buffer) c.capacity)) [
    | inl e ↦ moved IsFifo (push-IsFifo a c (ltb→lt _ _ e) f) (rw e at h)
    | inr e ↦ cc (rw e at h)
  ]
  submit-IsFifo timer a c c' f h = moved IsFifo f h
  submit-IsFifo closed a c c' f h = moved IsFifo f (refused c.done c h)

  pub step-IsFifo : (m : Move A) (c c' : Channel A) → IsFifo c → step m c ≡ some c' → IsFifo c'
  unfolding step
  step-IsFifo (submits arm a) c c' f h = submit-IsFifo arm a c c' f h
  step-IsFifo receives c c' f h = receive-IsFifo c.worker c c' refl f h
  step-IsFifo completes c c' f h = complete-IsFifo c.worker c c' refl f h
  step-IsFifo leaves c c' f h = leave-IsFifo c.worker c c' refl f h
  step-IsFifo shuts_down c c' f h = elim (Bool-cases c.done) [
    | inl e ↦ cc (rw e at h)
    | inr e ↦
        moved IsFifo (record { in_order = f.in_order; bounded = f.bounded; ends_late = λ x. refl })
          (rw e at h)
  ]

  pub run-cons :
      (m : Move A) (ms : List (Move A)) (c c' : Channel A)
      → run (m ∷ ms) c ≡ some c'
      → (d : Channel A) × (step m c ≡ some d) × (run ms d ≡ some c')
  unfolding run
  run-cons m ms c c' h = go (step m c) refl h
    where
      go :
          (o : Option (Channel A))
          → step m c ≡ o
          → elim o [ none ↦ none | some d ↦ run ms d ] ≡ some c'
          → (d : Channel A) × (step m c ≡ some d) × (run ms d ≡ some c')
      go none e q = cc
      go (some d) e q = (d, e, q)

  pub run-keeps :
      (ms : List (Move A)) (c c' : Channel A) → IsFifo c → run ms c ≡ some c' → IsFifo c'
  unfolding run
  run-keeps [] c c' f h = moved IsFifo f h
  run-keeps (m ∷ ms) c c' f h =
      let (d, e, q) = run-cons m ms c c' h in run-keeps ms d c' (step-IsFifo m c d f e) q

  pub new-IsFifo : (size : ℤ) → IsFifo (new {A = A} size)
  unfolding new
  new-IsFifo size = record { in_order = refl; bounded = omega arith; ends_late = λ x. absurd x }

  -- However submitters, the worker and the shutdown interleave: what was accepted is what has run,
  -- what is in hand and what waits, in this order; the buffer keeps to its size; and the worker
  -- leaves its loop only after the shutdown began.
  pub run-IsFifo :
      (size : ℤ) (ms : List (Move A)) (c : Channel A) → run ms (new size) ≡ some c → IsFifo c
  run-IsFifo size ms c h = run-keeps ms (new size) c (new-IsFifo size) h
