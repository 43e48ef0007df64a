-- ===== src/Serve/Channel.antt =====
-- internal/serve/serve.go: the buffered channel of actions and the one worker that runs them. A move
-- is one event of a submitter, of the worker or of the shutdown; `step` is `none` where the code
-- cannot make the move in that state.
pub mod Order
pub mod Drain
use gitd.Prelude.{
  ℕ, suc, ◌≡◌, refl, Bool, true, false, List, [], ◌∷◌, ◌++◌, Option, none, some, if◌then◌else◌, ltb,
  length,
}
use gitd.Prelude.Int.{ℤ, pos, is_nonpos}
use gitd.Prelude.Result.{Result, ok, err}

pub data ServeError : Type 0 where
  busy shutting_down : ServeError

-- Where the worker is: in the outer select, in an action, in the draining loop, in an action of that
-- loop, or gone.
pub data Worker (A : Type 0) : Type 0 where
  waiting : Worker A
  running : A → Worker A
  draining : Worker A
  finishing : A → Worker A
  exited : Worker A

-- The channel with its worker. `accepted` and `finished` record what was sent and what has run, in
-- order; the code does not keep them.
pub record Channel (A : Type 0) : Type 0 where
  pub buffer : List A
  pub capacity : ℕ
  pub done : Bool
  pub worker : Worker A
  pub accepted : List A
  pub finished : List A

abbrev magnitude : ℤ → ℕ
magnitude (pos n) = n
magnitude _ = 0

-- New: a buffer size of 0 or less is 64
unfoldable pub new : {A : Type 0} → ℤ → Channel A
new size = record {
  buffer = [];
  capacity = if is_nonpos size then 64 else magnitude size;
  done = false;
  worker = waiting;
  accepted = [];
  finished = [];
}

-- the arms of the select of submit
pub data Arm : Type 0 where
  slot timer closed : Arm

module _ {A : Type 0} where
  abbrev pub push : A → Channel A → Channel A
  push a c = record c { buffer = c.buffer ++ (a ∷ []); accepted = c.accepted ++ (a ∷ []) }

  -- Serve.submit, for the arm that the select takes; `none` where that arm is not ready
  unfoldable pub submit : Arm → A → Channel A → Option (Result ServeError (Unit {0}) × Channel A)
  submit slot a c = if ltb (length c.buffer) c.capacity then some (ok tt, push a c) else none
  submit timer a c = some (err busy, c)
  submit closed a c = if c.done then some (err shutting_down, c) else none

  -- A receive with the state of the worker that follows it.
  abbrev pub take_next : (A → Worker A) → List A → Channel A → Option (Channel A)
  take_next next [] c = none
  take_next next (a ∷ rest) c = some (record c { buffer = rest; worker = next a })

  abbrev pub finish : Worker A → A → Channel A → Option (Channel A)
  finish next a c = some (record c { worker = next; finished = c.finished ++ (a ∷ []) })

  -- the default arm of the draining loop, where no receive is ready
  abbrev pub exit_if_empty : List A → Channel A → Option (Channel A)
  exit_if_empty [] c = some (record c { worker = exited })
  exit_if_empty (a ∷ rest) c = none

  -- The moves of the worker: a receive, the end of an action, the other arm of the select.
  unfoldable pub receive : Worker A → Channel A → Option (Channel A)
  receive waiting c = take_next running c.buffer c
  receive draining c = take_next finishing c.buffer c
  receive _ c = none

  unfoldable pub complete : Worker A → Channel A → Option (Channel A)
  complete (running a) c = finish waiting a c
  complete (finishing a) c = finish draining a c
  complete _ c = none

  unfoldable pub leave : Worker A → Channel A → Option (Channel A)
  leave waiting c = if c.done then some (record c { worker = draining }) else none
  leave draining c = exit_if_empty c.buffer c
  leave _ c = none

  abbrev pub after_submit : Option (Result ServeError (Unit {0}) × Channel A) → Option (Channel A)
  after_submit none = none
  after_submit (some (r, c)) = some c

pub data Move (A : Type 0) : Type 0 where
  submits : Arm → A → Move A
  receives completes leaves shuts_down : Move A

module _ {A : Type 0} where
  -- close(s.done) happens once, when Run begins to shut down
  unfoldable pub step : Move A → Channel A → Option (Channel A)
  unfolding submit receive complete leave
  step (submits arm a) c = after_submit (submit arm a c)
  step receives c = receive c.worker c
  step completes c = complete c.worker c
  step leaves c = leave c.worker c
  step shuts_down c = if c.done then none else some (record c { done = true })

  -- a sequence of moves
  unfoldable pub run : List (Move A) → Channel A → Option (Channel A)
  run [] c = some c
  run (m ∷ ms) c = elim (step m c) [ none ↦ none | some c' ↦ run ms c' ]

  -- the loop of the worker to its end, without other submitters: one action is received and completed
  -- for each that is in the buffer
  abbrev pub drain_moves : List A → List (Move A)
  drain_moves [] = leaves ∷ []
  drain_moves (a ∷ rest) = receives ∷ completes ∷ drain_moves rest
