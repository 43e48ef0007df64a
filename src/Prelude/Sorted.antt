-- ===== src/Prelude/Sorted.antt =====
-- sort.Strings, and sort.Slice by a string key: the result of any correct sort on distinct keys.
use gitd.Prelude.{
  ◌≡◌, refl, ap, ◌⊎◌, inl, inr, Bool, true, false, ◌&&◌, ◌||◌, List, [], ◌∷◌, arith, Bytes, ltb,
  ◌==◌, if◌then◌else◌, In, All, Bool-cases, length, suc, ◌∙◌,
}

-- `a <= b` on strings: the order of their bytes
unfoldable pub str_le : Bytes → Bytes → Bool
str_le [] y = true
str_le (a ∷ x) [] = false
str_le (a ∷ x) (b ∷ y) = ltb a b || (a == b && str_le x y)

pub str_le_refl : (x : Bytes) → str_le x x ≡ true
unfolding str_le
str_le_refl [] = refl
str_le_refl (a ∷ x) = ground (arith, str_le_refl x)

pub str_le_total : (x y : Bytes) → str_le x y ≡ false → str_le y x ≡ true
unfolding str_le
str_le_total [] y h = cc
str_le_total (a ∷ x) [] h = refl
str_le_total (a ∷ x) (b ∷ y) h = ground (arith, str_le_total x y)

pub str_le_trans : (x y z : Bytes) → str_le x y ≡ true → str_le y z ≡ true → str_le x z ≡ true
unfolding str_le
str_le_trans [] y z h k = refl
str_le_trans (a ∷ x) [] z h k = cc
str_le_trans (a ∷ x) (b ∷ y) [] h k = cc
str_le_trans (a ∷ x) (b ∷ y) (c ∷ z) h k = ground (arith, str_le_trans x y z)

module _ {A : Type 0} (key : A → Bytes) where
  unfoldable pub insert_sorted : A → List A → List A
  unfolding str_le
  insert_sorted a [] = a ∷ []
  insert_sorted a (x ∷ xs) = if str_le (key a) (key x) then a ∷ x ∷ xs else x ∷ insert_sorted a xs

  unfoldable pub sort_by : List A → List A
  unfolding insert_sorted
  sort_by [] = []
  sort_by (x ∷ xs) = insert_sorted x (sort_by xs)

  -- every element's key is at most those of the elements behind it
  abbrev pub IsSorted : List A → Type 0
  IsSorted [] = Unit
  IsSorted (x ∷ xs) = All (λ y. str_le (key x) (key y) ≡ true) xs × IsSorted xs

  insert_sorted-All :
      (P : A → Type 0) (a : A) (xs : List A) → P a → All P xs → All P (insert_sorted a xs)
  unfolding insert_sorted
  insert_sorted-All P a [] h hs = (h, tt)
  insert_sorted-All P a (x ∷ xs) h hs = elim (Bool-cases (str_le (key a) (key x))) [
    | inl e ↦ rw e (h, hs)
    | inr e ↦ rw e (hs.0, insert_sorted-All P a xs h hs.1)
  ]

  All-le_trans :
      (a x : A) (xs : List A)
      → str_le (key a) (key x) ≡ true
      → All (λ y. str_le (key x) (key y) ≡ true) xs
      → All (λ y. str_le (key a) (key y) ≡ true) xs
  All-le_trans a x [] h hs = tt
  All-le_trans a x (y ∷ ys) h hs =
      (str_le_trans (key a) (key x) (key y) h hs.0, All-le_trans a x ys h hs.1)

  insert_sorted-IsSorted : (a : A) (xs : List A) → IsSorted xs → IsSorted (insert_sorted a xs)
  unfolding insert_sorted
  insert_sorted-IsSorted a [] h = (tt, tt)
  insert_sorted-IsSorted a (x ∷ xs) h = elim (Bool-cases (str_le (key a) (key x))) [
    | inl e ↦ rw e ((e, All-le_trans a x xs e h.0), h)
    | inr e ↦ rw e (
      insert_sorted-All (λ y. str_le (key x) (key y) ≡ true) a xs (str_le_total (key a) (key x) e)
          h.0,
      insert_sorted-IsSorted a xs h.1,
    )
  ]

  pub sort_by-IsSorted : (xs : List A) → IsSorted (sort_by xs)
  unfolding sort_by
  sort_by-IsSorted [] = tt
  sort_by-IsSorted (x ∷ xs) = insert_sorted-IsSorted x (sort_by xs) (sort_by-IsSorted xs)

  pub sort_by-All : (P : A → Type 0) (xs : List A) → All P xs → All P (sort_by xs)
  unfolding sort_by
  sort_by-All P [] h = tt
  sort_by-All P (x ∷ xs) h = insert_sorted-All P x (sort_by xs) h.0 (sort_by-All P xs h.1)

  In-insert_sorted : (y a : A) (xs : List A) → In y (a ∷ xs) → In y (insert_sorted a xs)
  unfolding insert_sorted
  In-insert_sorted y a [] m = m
  In-insert_sorted y a (x ∷ xs) m = elim (Bool-cases (str_le (key a) (key x))) [
    | inl e ↦ rw e m
    | inr e ↦ rw e (elim m [
      | inl p ↦ inr (In-insert_sorted y a xs (inl p))
      | inr (inl p) ↦ inl p
      | inr (inr p) ↦ inr (In-insert_sorted y a xs (inr p))
    ])
  ]

  pub In-sort_by : (y : A) (xs : List A) → In y xs → In y (sort_by xs)
  unfolding sort_by
  In-sort_by y [] m = m
  In-sort_by y (x ∷ xs) (inl p) = In-insert_sorted y x (sort_by xs) (inl p)
  In-sort_by y (x ∷ xs) (inr p) = In-insert_sorted y x (sort_by xs) (inr (In-sort_by y xs p))

  move_front : (y a x : A) (xs : List A) → (y ≡ x) ⊎ In y (a ∷ xs) → In y (a ∷ x ∷ xs)
  move_front y a x xs (inl p) = inr (inl p)
  move_front y a x xs (inr (inl q)) = inl q
  move_front y a x xs (inr (inr q)) = inr (inr q)

  In-insert_sorted_inv : (y a : A) (xs : List A) → In y (insert_sorted a xs) → In y (a ∷ xs)
  unfolding insert_sorted
  In-insert_sorted_inv y a [] m = m
  In-insert_sorted_inv y a (x ∷ xs) m = elim (Bool-cases (str_le (key a) (key x))) [
    | inl e ↦ rw e at m
    | inr e ↦ move_front y a x xs (under (In-insert_sorted_inv y a xs) (rw e at m))
  ]
    where
      under :
          (In y (insert_sorted a xs) → In y (a ∷ xs))
          → In y (x ∷ insert_sorted a xs)
          → (y ≡ x) ⊎ In y (a ∷ xs)
      under f (inl p) = inl p
      under f (inr p) = inr (f p)

  pub In-sort_by_inv : (y : A) (xs : List A) → In y (sort_by xs) → In y xs
  unfolding sort_by
  In-sort_by_inv y [] m = m
  In-sort_by_inv y (x ∷ xs) m = elim (In-insert_sorted_inv y x (sort_by xs) m) [
    | inl p ↦ inl p
    | inr p ↦ inr (In-sort_by_inv y xs p)
  ]

  length-insert_sorted : (a : A) (xs : List A) → length (insert_sorted a xs) ≡ suc (length xs)
  unfolding insert_sorted
  length-insert_sorted a [] = refl
  length-insert_sorted a (x ∷ xs) = ground (arith, length-insert_sorted a xs)

  pub length-sort_by : (xs : List A) → length (sort_by xs) ≡ length xs
  unfolding sort_by
  length-sort_by [] = refl
  length-sort_by (x ∷ xs) = length-insert_sorted x (sort_by xs) ∙ ap suc (length-sort_by xs)

-- sort.Strings
unfoldable pub sort_strings : List Bytes → List Bytes
unfolding sort_by
sort_strings = sort_by (λ s. s)
