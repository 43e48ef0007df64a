-- ===== src/Prelude/Fields.antt =====
-- strings.Fields and strings.TrimSpace on words of printable ASCII with single spaces between them.
use gitd.Prelude.{
  Bool-cases, ℕ, ◌+◌, ◌≡◌, refl, sym, ap, ◌∙◌, Bool, true, false, ◌&&◌, ◌||◌, List, [], ◌∷◌, ◌++◌,
  Bytes, ◌==◌, arith, all, ltb, is_nil, space_width, fields_from, fields, trim_left, text_end,
  trim_space, take, length, length-append, inl, inr,
}
use mathlib.Core.List.{append_assoc, append-nil}

abbrev pub is_printable : ℕ → Bool
is_printable c = ltb 32 c && ltb c 127

abbrev pub is_plain : ℕ → Bool
is_plain c = c == 32 || is_printable c

space_width-printable : (c : ℕ) (s : Bytes) → is_printable c ≡ true → space_width (c ∷ s) ≡ 0
unfolding space_width
space_width-printable c [] h = ground arith
space_width-printable c (d ∷ []) h = ground arith
space_width-printable c (d ∷ e ∷ s) h = ground arith

space_width-space : (c : ℕ) (s : Bytes) → (c == 32) ≡ true → space_width (c ∷ s) ≡ 1
unfolding space_width
space_width-space c [] h = ground arith
space_width-space c (d ∷ []) h = ground arith
space_width-space c (d ∷ e ∷ s) h = ground arith

fields_from-word :
    (cur w s : Bytes)
    → all is_printable w ≡ true
    → fields_from 0 cur (w ++ s) ≡ fields_from 0 (cur ++ w) s
unfolding fields_from
fields_from-word cur [] s h = ap (λ c. fields_from 0 c s) (sym (append-nil cur))
fields_from-word cur (c ∷ w) s h =
    rw (space_width-printable c (w ++ s) (ground arith), fields_from)
      (fields_from-word (cur ++ (c ∷ [])) w s (ground arith)
        ∙ ap (λ x. fields_from 0 x s) (append_assoc cur (c ∷ []) w))

fields_from-space :
    (cur s : Bytes) → is_nil cur ≡ false → fields_from 0 cur (32 ∷ s) ≡ cur ∷ fields_from 0 [] s
unfolding fields_from
fields_from-space cur s h = rw (space_width-space 32 s refl, fields_from) (rw h)

fields_from-end : (cur : Bytes) → is_nil cur ≡ false → fields_from 0 cur [] ≡ cur ∷ []
unfolding fields_from
fields_from-end cur h = rw h

-- a word that Fields returns whole
abbrev pub IsWord : Bytes → Type 0
IsWord w = (all is_printable w ≡ true) × (is_nil w ≡ false)

fields_from-word_space :
    (w s : Bytes) → IsWord w → fields_from 0 [] (w ++ (32 ∷ s)) ≡ w ∷ fields_from 0 [] s
fields_from-word_space w s (p, n) = fields_from-word [] w (32 ∷ s) p ∙ fields_from-space w s n

pub fields-three :
    (u v w : Bytes)
    → IsWord u
    → IsWord v
    → IsWord w
    → fields (u ++ (32 ∷ (v ++ (32 ∷ w)))) ≡ u ∷ v ∷ w ∷ []
unfolding fields
fields-three u v w hu hv hw =
    fields_from-word_space u (v ++ (32 ∷ w)) hu
    ∙ ap (λ l. u ∷ l) (fields_from-word_space v w hv)
    ∙ ap (λ l. u ∷ v ∷ l)
        (ap (fields_from 0 []) (sym (append-nil w))
          ∙ fields_from-word [] w [] hw.0
          ∙ fields_from-end w hw.1)

text_end-step :
    (end here c : ℕ) (s : Bytes)
    → is_plain c ≡ true
    → (e : ℕ) × (text_end 0 end here (c ∷ s) ≡ text_end 0 e (here + 1) s)
unfolding text_end
text_end-step end here c s h = elim (Bool-cases (c == 32)) [
  | inl e ↦ (end, rw (space_width-space c s e, text_end))
  | inr e ↦ (here + 1, rw (space_width-printable c s (ground arith), text_end))
]

text_end-snoc :
    (end here : ℕ) (x : Bytes) (c : ℕ)
    → all is_plain x ≡ true
    → is_printable c ≡ true
    → text_end 0 end here (x ++ (c ∷ [])) ≡ here + length x + 1
unfolding text_end
text_end-snoc end here [] c h p = rw (space_width-printable c [] p, text_end) (omega arith)
text_end-snoc end here (d ∷ x) c h p =
    let (e, q) = text_end-step end here d (x ++ (c ∷ [])) (ground arith) in
    q ∙ text_end-snoc e (here + 1) x c (ground arith) p ∙ omega arith

take-length {ℓ} : {A : Type ℓ} (xs : List A) → take (length xs) xs ≡ xs
take-length [] = refl
take-length (x ∷ xs) = ap (λ l. x ∷ l) (take-length xs)

trim_left-printable : (c : ℕ) (s : Bytes) → is_printable c ≡ true → trim_left 0 (c ∷ s) ≡ c ∷ s
unfolding trim_left
trim_left-printable c s h = rw (space_width-printable c s h, trim_left)

-- Text that starts and ends with printable bytes, with only such bytes and spaces in it, is trimmed.
pub trim_space-trimmed :
    (c : ℕ) (x : Bytes) (d : ℕ)
    → is_printable c ≡ true
    → all is_plain x ≡ true
    → is_printable d ≡ true
    → trim_space (c ∷ (x ++ (d ∷ []))) ≡ c ∷ (x ++ (d ∷ []))
unfolding trim_space
trim_space-trimmed c x d hc hx hd =
    let t = c ∷ (x ++ (d ∷ [])) in
    let e : text_end 0 0 0 (c ∷ (x ++ (d ∷ []))) ≡ length (c ∷ (x ++ (d ∷ []))) =
      text_end-snoc 0 0 (c ∷ x) d (ground arith) hd ∙ omega (arith, length-append {0} x (d ∷ [])) in
    rw (trim_left-printable c (x ++ (d ∷ [])) hc, e) (take-length t)
