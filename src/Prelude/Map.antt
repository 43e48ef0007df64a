-- ===== src/Prelude/Map.antt =====
-- Go maps and directories as association lists over byte strings.
use gitd.Prelude.{
  ◌≡◌, refl, Option, none, some, List, [], ◌∷◌, arith, Bytes, str_eq, str_eq_iff, str_eq_refl,
  str_eq_eq, Bool, Bool-cases, inl, inr, ◌∙◌, false, if◌then◌else◌,
}

abbrev pub Map {ℓ} : Type ℓ → Type ℓ
Map V = List (Bytes × V)

module _ {ℓ} {V : Type ℓ} where
  unfoldable pub lookup : Bytes → Map V → Option V
  lookup k [] = none
  lookup k ((j, v) ∷ m) = if str_eq j k then some v else lookup k m

  unfoldable pub insert : Bytes → V → Map V → Map V
  insert k v [] = (k, v) ∷ []
  insert k v ((j, w) ∷ m) = if str_eq j k then (k, v) ∷ m else (j, w) ∷ insert k v m

  unfoldable pub erase : Bytes → Map V → Map V
  erase k [] = []
  erase k ((j, w) ∷ m) = let rest = erase k m in if str_eq j k then rest else (j, w) ∷ rest

  pub lookup-insert :
      (k j : Bytes) (v : V) (m : Map V)
      → lookup j (insert k v m) ≡ (if str_eq k j then some v else lookup j m)
  unfolding lookup insert
  lookup-insert k j v [] = refl
  lookup-insert k j v ((i, w) ∷ m) =
      ground (arith, str_eq_iff k j, str_eq_iff i k, str_eq_iff i j, lookup-insert k j v m)

  pub lookup-erase :
      (k j : Bytes) (m : Map V) → lookup j (erase k m) ≡ (if str_eq k j then none else lookup j m)
  unfolding lookup erase
  lookup-erase k j [] = ground arith
  lookup-erase k j ((i, w) ∷ m) =
      ground (arith, str_eq_iff k j, str_eq_iff i k, str_eq_iff i j, lookup-erase k j m)

  -- the entries whose key fails a test
  unfoldable pub erase_where : (Bytes → Bool) → Map V → Map V
  erase_where p [] = []
  erase_where p ((j, w) ∷ m) = let rest = erase_where p m in if p j then rest else (j, w) ∷ rest

  pub lookup-erase_where :
      (p : Bytes → Bool) (k : Bytes) (m : Map V)
      → lookup k (erase_where p m) ≡ (if p k then none else lookup k m)
  unfolding lookup erase_where
  lookup-erase_where p k [] = ground arith
  lookup-erase_where p k ((j, w) ∷ m) = elim (Bool-cases (str_eq j k)) [
    | inl e ↦ elim (Bool-cases (p k)) [
      | inl b ↦ rw (str_eq_eq j k e, b) (lookup-erase_where p k m ∙ rw b)
      | inr b ↦ rw (str_eq_eq j k e, b) (rw (str_eq_refl k))
    ]
    | inr e ↦ elim (Bool-cases (p j)) [
      | inl b ↦ rw (b, e) (lookup-erase_where p k m)
      | inr b ↦ rw (b, e) (lookup-erase_where p k m)
    ]
  ]

  pub lookup-insert_self : (k : Bytes) (v : V) (m : Map V) → lookup k (insert k v m) ≡ some v
  lookup-insert_self k v m = rw lookup-insert (rw (str_eq_refl k))

  pub lookup-erase_self : (k : Bytes) (m : Map V) → lookup k (erase k m) ≡ none
  lookup-erase_self k m = rw lookup-erase (rw (str_eq_refl k))

  pub lookup-insert_ne :
      (k j : Bytes) (v : V) (m : Map V) → str_eq k j ≡ false → lookup j (insert k v m) ≡ lookup j m
  lookup-insert_ne k j v m h = rw lookup-insert (rw h)

  pub lookup-erase_ne :
      (k j : Bytes) (m : Map V) → str_eq k j ≡ false → lookup j (erase k m) ≡ lookup j m
  lookup-erase_ne k j m h = rw lookup-erase (rw h)

pub ruleset map_laws = (lookup-insert, lookup-erase)
