-- ===== src/Serve/Channel/Drain.antt =====
-- startWorker of internal/serve/serve.go at the shutdown, and submissions behind its end.
use gitd.Serve.Channel.Order.{moved, IsFifo, run-IsFifo, run-cons}
use gitd.Prelude.{
  if◌then◌else◌, is_nil, none, ◌≡◌, ◌<◌, refl, sym, ap, ◌∙◌, List, [], ◌∷◌, ◌++◌, some, length,
  arith, lt→ltb,
}
use gitd.Prelude.Int.{ℤ}
use gitd.Prelude.Result.{ok}
use mathlib.Core.List.{append_assoc, append-nil}
use gitd.Serve.Channel.{
  Channel, Worker, waiting, running, draining, finishing, exited, new, slot, timer, closed, push,
  submit, take_next, receive, complete, leave, Move, submits, receives, completes, leaves,
  shuts_down, step, run, drain_moves, exit_if_empty,
}

module _ {A : Type 0} where
  -- the state after the draining loop
  abbrev drained : Channel A → Channel A
  drained c = record c { buffer = []; worker = exited; finished = c.finished ++ c.buffer }

  run-step :
      (m : Move A) (ms : List (Move A)) (c : Channel A) {d : Channel A}
      → step m c ≡ some d
      → run (m ∷ ms) c ≡ run ms d
  unfolding run
  run-step m ms c e = rw (e, run) refl

  drain_run :
      (buf : List A) (c : Channel A)
      → c.buffer ≡ buf
      → c.worker ≡ draining
      → run (drain_moves buf) c
        ≡ some (record c { buffer = []; worker = exited; finished = c.finished ++ buf })
  unfolding step receive complete leave run
  drain_run [] c b w =
      run-step leaves [] c (ap (λ x. leave x c) w ∙ ap (λ l. exit_if_empty l c) b)
      ∙ ground (arith, append-nil c.finished)
  drain_run (a ∷ rest) c b w =
      run-step receives (completes ∷ drain_moves rest) c
        (ap (λ x. receive x c) w ∙ ap (λ l. take_next finishing l c) b)
      ∙ run-step completes (drain_moves rest) (record c { buffer = rest; worker = finishing a })
          refl
      ∙ drain_run rest
          (record c { buffer = rest; worker = draining; finished = c.finished ++ (a ∷ []) }) refl
          refl
      ∙ ap (λ l. some (record c { buffer = []; worker = exited; finished = l }))
          (append_assoc c.finished (a ∷ []) rest)

  left_empty :
      (buf : List A) (c c' : Channel A)
      → c.buffer ≡ buf
      → IsFifo c
      → c.worker ≡ draining
      → exit_if_empty buf c ≡ some c'
      → (c'.worker ≡ exited) × (c'.finished ≡ c'.accepted)
  left_empty [] c c' b f w h =
      moved (λ x. (x.worker ≡ exited) × (x.finished ≡ x.accepted))
        (refl, sym (f.in_order ∙ rw (w, b) (append-nil c.finished))) h
  left_empty (a ∷ rest) c c' b f w h = cc

  exit_from :
      (w : Worker A) (c c' : Channel A)
      → c.worker ≡ w
      → c.worker ≡ draining
      → IsFifo c
      → leave w c ≡ some c'
      → (c'.worker ≡ exited) × (c'.finished ≡ c'.accepted)
  unfolding leave
  exit_from draining c c' e w f h = left_empty c.buffer c c' refl f w h
  exit_from waiting c c' e w f h = cc
  exit_from (running a) c c' e w f h = cc
  exit_from (finishing a) c c' e w f h = cc
  exit_from exited c c' e w f h = cc

  -- After any interleaving, a draining worker goes only when everything accepted so far has run, in
  -- order.
  pub exit_complete :
      (size : ℤ) (ms : List (Move A)) (c c' : Channel A)
      → run ms (new size) ≡ some c
      → c.worker ≡ draining
      → step leaves c ≡ some c'
      → (c'.worker ≡ exited) × (c'.finished ≡ c'.accepted)
  unfolding step
  exit_complete size ms c c' h w q = exit_from c.worker c c' refl w (run-IsFifo size ms c h) q

  leave-draining :
      (buf : List A) (w : Worker A) (c : Channel A)
      → c.buffer ≡ buf
      → w ≡ draining
      → leave w c ≡ (if is_nil c.buffer then some (record c { worker = exited }) else none)
  unfolding leave
  leave-draining [] w c b e = rw (e, leave) (rw b refl)
  leave-draining (a ∷ buf) w c b e = rw (e, leave) (rw b refl)

  -- After any interleaving, a draining worker can leave exactly when its buffer is empty; whenever it
  -- leaves, everything accepted has run, in order; and its loop ends, if nothing more is sent, after one
  -- receive for each action in the buffer.
  pub drain-ends :
      (size : ℤ) (ms : List (Move A)) (c : Channel A)
      → run ms (new size) ≡ some c
      → c.worker ≡ draining
      → (step leaves c ≡ (if is_nil c.buffer then some (record c { worker = exited }) else none))
        × ((e : Channel A) → step leaves c ≡ some e → e.finished ≡ e.accepted)
        × (c' : Channel A) × (run (drain_moves c.buffer) c ≡ some c')
        × (c'.worker ≡ exited)
        × (c'.finished ≡ c.accepted)
  unfolding step
  drain-ends size ms c h w =
      let f = run-IsFifo size ms c h in
      (
        leave-draining c.buffer c.worker c refl w,
        λ e q. (exit_complete size ms c e h w q).1,
        drained c,
        drain_run c.buffer c refl w,
        refl,
        sym (f.in_order ∙ rw w refl),
      )

  gone :
      (m : Move A) (c d : Channel A)
      → c.worker ≡ exited
      → step m c ≡ some d
      → (d.worker ≡ exited) × (d.finished ≡ c.finished)
  unfolding step submit receive complete leave
  gone (submits slot a) c d w h = ground arith
  gone (submits timer a) c d w h = ground arith
  gone (submits closed a) c d w h = ground arith
  gone receives c d w h = cc (rw w at h)
  gone completes c d w h = cc (rw w at h)
  gone leaves c d w h = cc (rw w at h)
  gone shuts_down c d w h = ground arith

  gone_for_good :
      (ms : List (Move A)) (c d : Channel A)
      → c.worker ≡ exited
      → run ms c ≡ some d
      → d.finished ≡ c.finished
  unfolding run
  gone_for_good [] c d w h = ground arith
  gone_for_good (m ∷ ms) c d w h =
      let (e, p, q) = run-cons m ms c d h in
      let (w', same) = gone m c e w p in gone_for_good ms e d w' q ∙ same

  -- A submission that finds the worker gone and a free slot can still be accepted, since the select
  -- may take the slot: the action then never runs, whatever moves follow.
  pub accepted_after_exit :
      (a : A) (c d : Channel A) (ms : List (Move A))
      → c.worker ≡ exited
      → length c.buffer < c.capacity
      → run ms (push a c) ≡ some d
      → (submit slot a c ≡ some (ok tt, push a c)) × (d.finished ≡ c.finished)
  unfolding submit
  accepted_after_exit a c d ms w room h =
      (rw (lt→ltb _ _ room) refl, gone_for_good ms (push a c) d w h)
