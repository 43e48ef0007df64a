-- ===== src/Repo/Names.antt =====
-- ValidName and Normalize of internal/repo/repo.go.
use gitd.Prelude.{
  ◌<◌, ℕ, ◌≡◌, refl, ap, ◌∙◌, true, false, [], ◌∷◌, ◌++◌, Bytes, codes, all, length, cut_suffix,
  none, some, contains_byte, arith, ◌≤◌, str_eq, all-append, length-append, Bool-cases, inl, inr,
  str_eq_refl, has_prefix, ◌≢◌, str_eq_eq,
}
use gitd.FilePath.{slash}
use gitd.FilePath.Laws.{IsPlain}
use gitd.Repo.{valid_name, is_alnum, is_name_byte, normalize, dot_git}

all-no_slash : (s : Bytes) → all is_name_byte s ≡ true → contains_byte slash s ≡ false
all-no_slash [] h = refl
all-no_slash (c ∷ s) h = ground (arith, all-no_slash s)

-- One path element that is not special, too long or taken for an option.
pub record IsSafe (n : Bytes) : Type 0 where
  pub plain : IsPlain n
  pub short : length n ≤ 100
  pub no_option : has_prefix n (codes "-") ≡ false
  pub not_hidden : has_prefix n (codes ".") ≡ false

IsPlain-cons : (c : ℕ) (s : Bytes) → is_alnum c ≡ true → all is_name_byte s ≡ true → IsPlain (c ∷ s)
unfolding str_eq
IsPlain-cons c s h k = record {
  no_slash = ground (arith, all-no_slash s);
  non_empty = refl;
  not_dot = ground arith;
  not_dot_dot = ground arith;
}

-- A valid name is a plain path element of at most 100 bytes that starts with neither "-" nor ".".
pub valid_name-IsSafe : (n : Bytes) → valid_name n ≡ true → IsSafe n
unfolding valid_name has_prefix
valid_name-IsSafe [] h = cc
valid_name-IsSafe (c ∷ s) h = record {
  plain = IsPlain-cons c s (ground arith) (ground arith);
  short = ground arith;
  no_option = ground arith;
  not_hidden = ground arith;
}

pub valid_name-IsPlain_dot_git : (n : Bytes) → valid_name n ≡ true → IsPlain (n ++ dot_git)
unfolding valid_name
valid_name-IsPlain_dot_git [] h = cc
valid_name-IsPlain_dot_git (c ∷ s) h =
    IsPlain-cons c (s ++ dot_git) (ground arith) (all-append is_name_byte s dot_git ∙ ground arith)

longer_ne : (c : ℕ) (s p : Bytes) → str_eq (c ∷ (s ++ p)) p ≡ false
longer_ne c s p = elim (Bool-cases (str_eq (c ∷ (s ++ p)) p)) [
  | inl e ↦
      absurd
        (omega (arith, ap (λ l. length l) (str_eq_eq (c ∷ (s ++ p)) p e), length-append {0} s p))
  | inr e ↦ e
]

pub cut_suffix-append : (s : Bytes) (c : ℕ) (p : Bytes) → cut_suffix (s ++ (c ∷ p)) (c ∷ p) ≡ some s
unfolding cut_suffix
cut_suffix-append [] c p = rw (str_eq_refl (c ∷ p))
cut_suffix-append (d ∷ s) c p = rw (longer_ne d s (c ∷ p), cut_suffix-append s c p)

normalize-cut : (s n : Bytes) → 4 < length s → cut_suffix s dot_git ≡ some n → normalize s ≡ n
unfolding normalize
normalize-cut s n h e = ground arith

-- Exactly one trailing ".git" is stripped: a non-empty name comes back, also one that ends in ".git".
pub normalize-dot_git : (n : Bytes) → n ≢ [] → normalize (n ++ dot_git) ≡ n
normalize-dot_git [] h = absurd (h refl)
normalize-dot_git (c ∷ n) h =
    normalize-cut ((c ∷ n) ++ dot_git) (c ∷ n) (omega (arith, length-append {0} n dot_git))
      (cut_suffix-append (c ∷ n) b'.' (codes "git"))

-- A name with no trailing ".git" is left alone.
pub normalize-plain : (n : Bytes) → cut_suffix n dot_git ≡ none → normalize n ≡ n
unfolding normalize
normalize-plain n h = ground arith

pub valid_name-ne_nil : (n : Bytes) → valid_name n ≡ true → n ≢ []
unfolding valid_name
valid_name-ne_nil n h = ground arith
