-- ===== src/Spool/Retry/Budget.antt =====
-- NextRetryAt and RecordFailure of internal/spool/retry.go, failure after failure.
use gitd.Prelude.{
  ◌≢◌, str_eq_eq, ◌||◌, Bytes, Bool, true, false, ℕ, ◌+◌, ◌≡◌, List, [], ◌∷◌, ◌≤◌, ◌<◌, str_eq, leb,
  ◌==◌, length, arith, Bool-cases, inl, inr, str_eq_refl,
}
use gitd.Spool.{delivered, pending, Store, Record, dead}
use gitd.Spool.Retry.{due, fail_record, next_retry_at}
use gitd.Prelude.Int.{pos}

-- the failures of a record, one after the other, each at the clock of its store
abbrev pub fail_all : List Store → Record → Record
fail_all [] rec = rec
fail_all (st ∷ sts) rec = fail_all sts (fail_record st rec)

fail_record-dead :
    (st : Store) (rec : Record)
    → str_eq rec.state dead ≡ true
    → str_eq (fail_record st rec).state dead ≡ true
unfolding fail_record
fail_record-dead st rec h = ground (arith, str_eq_refl dead)

fail_all-dead :
    (sts : List Store) (rec : Record)
    → str_eq rec.state dead ≡ true
    → str_eq (fail_all sts rec).state dead ≡ true
fail_all-dead [] rec h = h
fail_all-dead (st ∷ sts) rec h = fail_all-dead sts (fail_record st rec) (fail_record-dead st rec h)

fail_record-last :
    (st : Store) (rec : Record)
    → rec.attempts ≡ pos 3
    → str_eq (fail_record st rec).state dead ≡ true
unfolding fail_record next_retry_at
fail_record-last st rec h = rw h (str_eq_refl dead)

fail_record-retry :
    (st : Store) (rec : Record) (n : ℕ)
    → rec.attempts ≡ pos n
    → n < 3
    → ((fail_record st rec).attempts ≡ pos (n + 1)) × ((fail_record st rec).state ≡ rec.state)
unfolding fail_record next_retry_at
fail_record-retry st rec n h k = (ground (arith, h), ground (arith, h))

fail_all-from :
    (sts : List Store) (rec : Record) (n : ℕ)
    → rec.attempts ≡ pos n
    → n ≤ 3
    → str_eq rec.state dead ≡ false
    → str_eq (fail_all sts rec).state dead ≡ leb 4 (n + length sts)
fail_all-from [] rec n h k p = ground arith
fail_all-from (st ∷ sts) rec n h k p = elim (Bool-cases (n == 3)) [
  | inl e ↦
      ground
        (arith, fail_all-dead sts (fail_record st rec) (fail_record-last st rec (ground arith)))
  | inr e ↦
      let (a, b) = fail_record-retry st rec n h (ground arith) in
      ground (arith, fail_all-from sts (fail_record st rec) (n + 1) a (ground arith) (rw b p))
]

-- A record that was never tried is dead exactly after its fourth failure: it survives three.
pub fail_all-budget :
    (sts : List Store) (rec : Record)
    → rec.attempts ≡ pos 0
    → rec.state ≡ pending
    → str_eq (fail_all sts rec).state dead ≡ leb 4 (length sts)
unfolding str_eq
fail_all-budget sts rec h p = ground (arith, fail_all-from sts rec 0 h (omega arith) (rw p))

-- a state from which no retry starts
abbrev is_final : Bytes → Bool
is_final s = str_eq s delivered || str_eq s dead

fail_record-is_final :
    (st : Store) (rec : Record)
    → is_final rec.state ≡ true
    → is_final (fail_record st rec).state ≡ true
unfolding fail_record
fail_record-is_final st rec h = ground (arith, str_eq_refl dead)

fail_all-is_final :
    (sts : List Store) (rec : Record)
    → is_final rec.state ≡ true
    → is_final (fail_all sts rec).state ≡ true
fail_all-is_final [] rec h = h
fail_all-is_final (st ∷ sts) rec h =
    fail_all-is_final sts (fail_record st rec) (fail_record-is_final st rec h)

pending_not_final : (s : Bytes) → s ≡ pending → is_final s ≢ true
unfolding str_eq
pending_not_final s e h = cc (rw e at h)

is_final-not_due : (st : Store) (rec : Record) → is_final rec.state ≡ true → due st rec ≡ false
unfolding due
is_final-not_due st rec h = elim (Bool-cases (str_eq rec.state pending)) [
  | inl e ↦ absurd (pending_not_final rec.state (str_eq_eq rec.state pending e) h)
  | inr e ↦ rw e
]

-- Once an event is marked delivered, no failed delivery makes it due again, however many follow.
pub fail_all-not_due :
    (sts : List Store) (st : Store) (rec : Record)
    → rec.state ≡ delivered
    → due st (fail_all sts rec) ≡ false
fail_all-not_due sts st rec h =
    is_final-not_due st (fail_all sts rec)
      (fail_all-is_final sts rec (rw (h, str_eq_refl delivered)))

pub fail_record-event : (st : Store) (rec : Record) → (fail_record st rec).event ≡ rec.event
unfolding fail_record
fail_record-event st rec = ground arith
