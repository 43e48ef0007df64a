-- ===== src/Serve/Work/Attempts.antt =====
-- bundleAction of internal/serve/serve.go: its attempts.
use gitd.Serve.Work.{bundle_action, bundle_loop, Attempt, attempt_bundle}
use gitd.Prelude.{
  refl, arith, inl, inr, sym, ap, ◌∙◌, ◌<◌, ◌≤◌, Bool, ◌+◌, ℕ, zero, suc, ◌≡◌, Bytes,
}
use gitd.Prelude.Result.{Result-cases, ok, err}
use native.Mathlib.Decide.{dec_lt}
use gitd.Mirror.{MirrorError}

module _ {S : Type 0} (env : ℕ → Attempt S) (name : Bytes) where
  -- The state before attempt number i, where the earlier ones were made one after the other.
  unfoldable pub before_attempt : ℕ → S → S
  before_attempt zero s = s
  before_attempt (suc i) s = (attempt_bundle (env i) name (before_attempt i s)).1

  -- attempt number i fails
  abbrev pub Fails : ℕ → S → Type 0
  Fails i s = (e : MirrorError) × ((attempt_bundle (env i) name (before_attempt i s)).0 ≡ err e)

  -- an attempt that succeeds ends the loop
  loop-stop :
      (left i : ℕ) (s : S) (b : Bool)
      → (attempt_bundle (env i) name s).0 ≡ ok b
      → bundle_loop left i env name s ≡ (ok b, (attempt_bundle (env i) name s).1)
  unfolding bundle_loop
  loop-stop zero i s b h = ap (λ r. (r, (attempt_bundle (env i) name s).1)) h
  loop-stop (suc left) i s b h = rw (h, bundle_loop) refl

  loop-again :
      (left i : ℕ) (s : S) (e : MirrorError)
      → (attempt_bundle (env i) name s).0 ≡ err e
      → bundle_loop (suc left) i env name s
        ≡ bundle_loop left (suc i) env name (attempt_bundle (env i) name s).1
  unfolding bundle_loop
  loop-again left i s e h = rw (h, bundle_loop) refl

  loop-Fails :
      (left i : ℕ) (s : S) (e : MirrorError)
      → (bundle_loop left i env name (before_attempt i s)).0 ≡ err e
      → (j : ℕ) → i ≤ j
      → j ≤ i + left
      → Fails j s
  unfolding bundle_loop before_attempt
  loop-Fails zero i s e h j p q = rw (same) (e, h)
    where
      same : j ≡ i
      same = omega arith
  loop-Fails (suc left) i s e h j p q =
      elim (Result-cases (attempt_bundle (env i) name (before_attempt i s)).0) [
        | inl (b, k) ↦ cc (loop-stop (suc left) i (before_attempt i s) b k, h)
        | inr (x, k) ↦ elim (dec_lt i j) [
          | yes below ↦
              loop-Fails left (suc i) s e
                (ap (λ r. r.0) (sym (loop-again left i (before_attempt i s) x k)) ∙ h) j
                (omega arith) (omega arith)
          | no same ↦ let at : j ≡ i = omega arith in rw at (x, k)
        ]
      ]

  loop-first :
      (left i : ℕ) (s : S) (b : Bool) (t : ℕ)
      → i ≤ t
      → t ≤ i + left
      → ((j : ℕ) → j < t → Fails j s)
      → (attempt_bundle (env t) name (before_attempt t s)).0 ≡ ok b
      → bundle_loop left i env name (before_attempt i s) ≡ (ok b, before_attempt (suc t) s)
  unfolding before_attempt
  loop-first zero i s b t p q f h =
      let at : i ≡ t = omega arith in rw at (loop-stop 0 t (before_attempt t s) b h)
  loop-first (suc left) i s b t p q f h = elim (dec_lt i t) [
    | yes below ↦
        let (e, k) = f i below in
        loop-again left i (before_attempt i s) e k
        ∙ loop-first left (suc i) s b t (omega arith) (omega arith) f h
    | no same ↦
        let at : i ≡ t = omega arith in rw at (loop-stop (suc left) t (before_attempt t s) b h)
  ]

  -- One success in four attempts is enough: the result and the storage are those of the first
  -- attempt that succeeds.
  pub bundle_action-first :
      (s : S) (b : Bool) (i : ℕ)
      → i ≤ 3
      → ((j : ℕ) → j < i → Fails j s)
      → (attempt_bundle (env i) name (before_attempt i s)).0 ≡ ok b
      → bundle_action env name s ≡ (ok b, before_attempt (suc i) s)
  unfolding bundle_action before_attempt
  bundle_action-first s b i le f h = loop-first 3 0 s b i (omega arith) le f h

  -- A bundle fails only when its four attempts, made one after the other, have failed.
  pub bundle_action-err :
      (s : S) (e : MirrorError) (i : ℕ) → (bundle_action env name s).0 ≡ err e → i ≤ 3 → Fails i s
  unfolding bundle_action before_attempt
  bundle_action-err s e i h le = loop-Fails 3 0 s e h i (omega arith) le
