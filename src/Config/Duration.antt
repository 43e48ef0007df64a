-- ===== src/Config/Duration.antt =====
-- internal/config/duration.go: a number of days, or what time.ParseDuration reads, in nanoseconds.
use gitd.Prelude.{
  ltb→lt, str_eq, ℕ, zero, suc, ◌+◌, ◌-◌, ◌*◌, ◌%◌, ◌^◌, ◌≤◌, ◌<◌, ◌≡◌, ◌↔◌, refl, ap, Bool, not,
  ◌&&◌, ◌||◌, [], ◌∷◌, Bytes, codes, Option, none, some, if◌then◌else◌, is_nil, all, leb, ltb,
  cut_suffix, ◌==◌, foldl, arith, Bool-cases, inl, inr,
}
use gitd.Prelude.Int.{ℤ, pos, negsuc, to_int64}
use gitd.Prelude.Result.{Result, ok, err}

pub data DurationError : Type 0 where
  bad_days negative_days bad_duration : DurationError

abbrev is_digit : ℕ → Bool
is_digit c = leb b'0' c && leb c b'9'

abbrev pub number : Bytes → ℕ
number = foldl (λ n c. n * 10 + (c - b'0')) 0

-- at most the largest int64, and for a negative number one more
abbrev digits_in : ℕ → (ℕ → ℤ) → Bytes → Option ℤ
digits_in most sign s =
    if is_nil s || not (all is_digit s)
    then none
    else if ltb most (number s)
    then none
    else some (sign (number s))

abbrev pub negate : ℕ → ℤ
negate zero = pos 0
negate (suc n) = negsuc n

-- strconv.ParseInt to base 10, of 64 bits
unfoldable pub parse_int : Bytes → Option ℤ
parse_int [] = none
parse_int (c ∷ s) =
    if c == b'-'
    then digits_in (2 ^ 63) negate s
    else if c == b'+'
    then digits_in (2 ^ 63 - 1) pos s
    else digits_in (2 ^ 63 - 1) pos (c ∷ s)

-- 24 hours
abbrev pub day : ℕ
day = 86400000000000

abbrev pub days : Option ℤ → Result DurationError ℤ
days none = err bad_days
days (some (negsuc n)) = err negative_days
days (some (pos n)) = ok (to_int64 (n * day))

abbrev pub or_bad_duration : Option ℤ → Result DurationError ℤ
or_bad_duration none = err bad_duration
or_bad_duration (some d) = ok d

-- ParseDuration; `go_duration` is time.ParseDuration
unfoldable pub parse_duration : (Bytes → Option ℤ) → Bytes → Result DurationError ℤ
parse_duration go_duration s = elim (cut_suffix s (codes "d")) [
  | some rest ↦ days (parse_int rest)
  | none ↦ or_bad_duration (go_duration s)
]

abbrev or_zero : ℤ → ℕ
or_zero (pos n) = n
or_zero (negsuc n) = 0

to_int64-exact : (n : ℕ) → (to_int64 n ≡ pos n) ↔ (n < 2 ^ 63)
to_int64-exact n = elim (Bool-cases (ltb (n % 2 ^ 64) (2 ^ 63))) [
  | inl e ↦ (
    λ h. let q = ap or_zero (rw e at h) in omega (arith, ltb→lt _ _ e, q),
    λ h. rw e (ap pos (omega arith)),
  )
  | inr e ↦ (λ h. cc (rw e at h), λ h. absurd (ground arith))
]

abbrev ok_or : ℤ → Result DurationError ℤ → ℤ
ok_or d (ok x) = x
ok_or d (err e) = d

-- A number of days is read as that many days exactly when it is at most 106751: more than that
-- overflows the duration.
pub parse_duration-exact :
    (go_duration : Bytes → Option ℤ) (s rest : Bytes) (n : ℕ)
    → cut_suffix s (codes "d") ≡ some rest
    → parse_int rest ≡ some (pos n)
    → (parse_duration go_duration s ≡ ok (pos (n * day))) ↔ (n ≤ 106751)
unfolding parse_duration
parse_duration-exact go_duration s rest n c p =
    let (there, back) = to_int64-exact (n * day) in
    (
      (λ h.
          let b = there (ap (ok_or (pos 0)) (rw (parse_duration, c, p) at h)) in omega (arith, b)),
      (λ h. rw (parse_duration, c, p) (ap ok (back (omega (arith, h))))),
    )

-- the first number of days that is too large
overflow : parse_duration (λ s. none) (codes "106752d") ≡ ok (negsuc (2 ^ 64 - 1 - 106752 * day))
unfolding parse_duration parse_int cut_suffix str_eq
overflow = refl
