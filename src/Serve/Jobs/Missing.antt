-- ===== src/Serve/Jobs/Missing.antt =====
-- restoreMissingOnStart of internal/serve/serve.go: the repositories it chooses.
use gitd.Prelude.{
  ◌≡◌, ◌↔◌, refl, sym, ap, ◌∙◌, Bool, true, not, List, [], ◌∷◌, Bytes, is_some, In, select, map,
  inl, inr, Bool-cases, str_eq, str_eq_eq, str_eq_refl,
}
use gitd.Prelude.Map.{Map, lookup}
use gitd.Prelude.Sorted.{IsSorted, sort_strings, In-sort_by, In-sort_by_inv, sort_by-IsSorted}
use gitd.Serve.Jobs.{missing_repos}

abbrev set_of : List Bytes → Map Bool
set_of live = map (λ (n : Bytes). (n, true)) live

In-lookup :
    (name : Bytes) (live : List Bytes) → In name live → is_some (lookup name (set_of live)) ≡ true
unfolding lookup
In-lookup name [] m = absurd m
In-lookup name (x ∷ xs) (inl e) = rw (sym e, str_eq_refl name) refl
In-lookup name (x ∷ xs) (inr m) = elim (Bool-cases (str_eq x name)) [
  | inl e ↦ rw e refl
  | inr e ↦ rw e (In-lookup name xs m)
]

lookup-In :
    (name : Bytes) (live : List Bytes) → is_some (lookup name (set_of live)) ≡ true → In name live
unfolding lookup
lookup-In name [] h = cc
lookup-In name (x ∷ xs) h = elim (Bool-cases (str_eq x name)) [
  | inl e ↦ inl (sym (str_eq_eq x name e))
  | inr e ↦ inr (lookup-In name xs (rw e at h))
]

module _ {A : Type 0} (p : A → Bool) where
  In-select : (a : A) (xs : List A) → In a xs → p a ≡ true → In a (select p xs)
  In-select a [] m h = absurd m
  In-select a (x ∷ xs) (inl e) h = rw (sym e, h) (inl refl)
  In-select a (x ∷ xs) (inr m) h = elim (Bool-cases (p x)) [
    | inl e ↦ rw e (inr (In-select a xs m h))
    | inr e ↦ rw e (In-select a xs m h)
  ]

  In-select_head :
      (a x : A) (xs : List A)
      → (In a (select p xs) → In a xs × (p a ≡ true))
      → p x ≡ true
      → In a (x ∷ select p xs)
      → In a (x ∷ xs) × (p a ≡ true)
  In-select_head a x xs ih e (inl q) = (inl q, ap p q ∙ e)
  In-select_head a x xs ih e (inr n) = let (k, h) = ih n in (inr k, h)

  In-select_inv : (a : A) (xs : List A) → In a (select p xs) → In a xs × (p a ≡ true)
  In-select_inv a [] m = absurd m
  In-select_inv a (x ∷ xs) m = elim (Bool-cases (p x)) [
    | inl e ↦ In-select_head a x xs (In-select_inv a xs) e (rw e at m)
    | inr e ↦ let (n, h) = In-select_inv a xs (rw e at m) in (inr n, h)
  ]

absent-lookup :
    (name : Bytes) (live : List Bytes)
    → ¬ (In name live)
    → not (is_some (lookup name (set_of live))) ≡ true
absent-lookup name live h = elim (Bool-cases (is_some (lookup name (set_of live)))) [
  | inl e ↦ absurd (h (lookup-In name live e))
  | inr e ↦ rw e refl
]

-- A start restores, in order, exactly the repositories that have mirrors and are not live.
pub missing_repos_iff :
    (live : List Bytes) (mirrored : Map (List Bytes)) (name : Bytes)
    → IsSorted (λ s. s) (missing_repos live mirrored)
      × (In name (missing_repos live mirrored)
          ↔ (In name (map (λ e. e.0) mirrored) × ¬ (In name live)))
unfolding missing_repos sort_strings
missing_repos_iff live mirrored name =
    let keys = map (λ (e : Bytes × List Bytes). e.0) mirrored in
    let absent = λ (n : Bytes). not (is_some (lookup n (set_of live))) in
    (
      sort_by-IsSorted (λ s. s) (select absent keys),
      (
        λ m.
            let (k, h) =
              In-select_inv absent name keys
                (In-sort_by_inv (λ s. s) name (select absent keys) m) in
            (k, λ l. cc (In-lookup name live l, h)),
        λ r.
            In-sort_by (λ s. s) name (select absent keys)
              (In-select absent name keys r.0 (absent-lookup name live r.1)),
      ),
    )
