-- ===== src/Prelude/Split.antt =====
-- Laws of strings.Split, strings.Cut and strings.CutPrefix.
use gitd.Prelude.{
  ℕ, ◌≡◌, refl, sym, ap, ◌∙◌, true, false, List, [], ◌∷◌, ◌++◌, Bytes, ◌==◌, ==_iff, inl, inr,
  split, push_first, cut, cut_prefix, some, arith, contains_byte, Bool-cases, has_prefix, ==_refl,
}

-- without the separator the text is one element
pub split-plain : (w : Bytes) (b : ℕ) → contains_byte b w ≡ false → split w b ≡ w ∷ []
unfolding split
split-plain [] b h = refl
split-plain (c ∷ w) b h = ground (arith, split-plain w b)

pub split-cons_sep : (b : ℕ) (s : Bytes) → split (b ∷ s) b ≡ [] ∷ split s b
unfolding split
split-cons_sep b s = ground arith

split-cons : (c b : ℕ) (s : Bytes) → (c == b) ≡ false → split (c ∷ s) b ≡ push_first c (split s b)
unfolding split
split-cons c b s h = rw h

push_first-head :
    (c : ℕ) (ws : List Bytes) → (v : Bytes) × (vs : List Bytes) × (push_first c ws ≡ v ∷ vs)
push_first-head c [] = (c ∷ [], [], refl)
push_first-head c (w ∷ ws) = (c ∷ w, ws, refl)

split-head : (s : Bytes) (b : ℕ) → (w : Bytes) × (ws : List Bytes) × (split s b ≡ w ∷ ws)
unfolding split
split-head [] b = ([], [], refl)
split-head (c ∷ s) b = elim (Bool-cases (c == b)) [
  | inl e ↦ ([], split s b, rw e)
  | inr e ↦ let (v, vs, p) = push_first-head c (split s b) in (v, vs, rw e p)
]

push_first-append :
    (c : ℕ) (s : Bytes) (b : ℕ) (vs : List Bytes)
    → push_first c (split s b ++ vs) ≡ push_first c (split s b) ++ vs
push_first-append c s b vs = let (w, ws, p) = split-head s b in rw p refl

-- splitting at a separator that is there
pub split-append : (s t : Bytes) (b : ℕ) → split (s ++ (b ∷ t)) b ≡ split s b ++ split t b
split-append [] t b = split-cons_sep b t ∙ ap (λ ws. ws ++ split t b) (sym (split-plain [] b refl))
split-append (c ∷ s) t b = elim (Bool-cases (c == b)) [
  | inl e ↦ same (split-append s t b) ((==_iff c b).0 e)
  | inr e ↦
      split-cons c b (s ++ (b ∷ t)) e
      ∙ ap (push_first c) (split-append s t b)
      ∙ push_first-append c s b (split t b)
      ∙ ap (λ ws. ws ++ split t b) (sym (split-cons c b s e))
]
  where
    same :
        split (s ++ (b ∷ t)) b ≡ split s b ++ split t b
        → c ≡ b
        → split (c ∷ (s ++ (b ∷ t))) b ≡ split (c ∷ s) b ++ split t b
    same ih p = rw p (
        split-cons_sep b (s ++ (b ∷ t))
        ∙ ap (λ ws. [] ∷ ws) ih
        ∙ ap (λ ws. ws ++ split t b) (sym (split-cons_sep b s)))

-- strings.Cut finds the first separator
pub cut-append :
    (s t : Bytes) (b : ℕ) → contains_byte b s ≡ false → cut (s ++ (b ∷ t)) b ≡ some (s, t)
unfolding cut
cut-append [] t b h = rw (==_refl b)
cut-append (c ∷ s) t b h = ground (arith, cut-append s t b)

pub cut_prefix-append : (p s : Bytes) → cut_prefix (p ++ s) p ≡ some s
unfolding cut_prefix
cut_prefix-append [] s = refl
cut_prefix-append (c ∷ p) s = rw (==_refl c, cut_prefix-append p s)

pub cut_prefix-eq : (p s r : Bytes) → cut_prefix s p ≡ some r → s ≡ p ++ r
unfolding cut_prefix
cut_prefix-eq [] s r h = ground arith
cut_prefix-eq (c ∷ p) [] r h = cc
cut_prefix-eq (c ∷ p) (d ∷ s) r h = ground (arith, cut_prefix-eq p s r)

pub has_prefix-append : (p s : Bytes) → has_prefix (p ++ s) p ≡ true
unfolding has_prefix
has_prefix-append [] s = refl
has_prefix-append (c ∷ p) s = rw (==_refl c, has_prefix-append p s)
