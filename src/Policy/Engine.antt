-- ===== src/Policy/Engine.antt =====
-- The policies of internal/webhook/policy.go together, on the lines of a push.
use gitd.Prelude.{◌≡◌, refl, ◌↔◌, List, [], ◌∷◌, ◌++◌, none, All, arith, Option-cases, inl, inr}
use gitd.Hooks.{RefLine}
use gitd.Policy.{Policy, rejections, all_rejections, evaluate}

-- every policy accepts the line
abbrev pub Accepts : List Policy → RefLine → Type 0
Accepts ps l = All (λ p. p l ≡ none) ps

rejections-nil : (ps : List Policy) (l : RefLine) → rejections ps l ≡ [] → Accepts ps l
unfolding rejections
rejections-nil [] l h = tt
rejections-nil (p ∷ ps) l h = elim (Option-cases (p l)) [
  | inl e ↦ (e, rejections-nil ps l (ground arith))
  | inr (x, e) ↦ cc (rw (e, rejections) at h)
]

Accepts-rejections : (ps : List Policy) (l : RefLine) → Accepts ps l → rejections ps l ≡ []
unfolding rejections
Accepts-rejections [] l h = refl
Accepts-rejections (p ∷ ps) l (h, hs) = rw (h, rejections) (Accepts-rejections ps l hs)

append-nil_parts {ℓ} : {A : Type ℓ} (xs ys : List A) → xs ++ ys ≡ [] → (xs ≡ []) × (ys ≡ [])
append-nil_parts [] ys h = (refl, h)
append-nil_parts (x ∷ xs) ys h = (cc h, cc h)

all_rejections_iff :
    (ps : List Policy) (ls : List RefLine) → (all_rejections ps ls ≡ []) ↔ All (Accepts ps) ls
unfolding all_rejections
all_rejections_iff ps [] = (λ h. tt, λ h. refl)
all_rejections_iff ps (l ∷ ls) = (
  λ h.
      let (a, b) = append-nil_parts (rejections ps l) (all_rejections ps ls) h in
      (rejections-nil ps l a, (all_rejections_iff ps ls).0 b),
  λ (h, hs). rw (Accepts-rejections ps l h) ((all_rejections_iff ps ls).1 hs),
)

All-trivial : (ls : List RefLine) → All (Accepts []) ls
All-trivial [] = tt
All-trivial (l ∷ ls) = (tt, All-trivial ls)

-- The engine reports no rejection exactly when every policy accepts every line.
pub evaluate_iff :
    (ps : List Policy) (ls : List RefLine) → (evaluate ps ls ≡ []) ↔ All (Accepts ps) ls
unfolding evaluate
evaluate_iff [] ls = (λ h. All-trivial ls, λ h. refl)
evaluate_iff (p ∷ ps) ls = all_rejections_iff (p ∷ ps) ls
