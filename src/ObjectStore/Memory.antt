-- ===== src/ObjectStore/Memory.antt =====
-- MemoryStore of internal/objectstore/objectstore.go against the interface.
use gitd.Prelude.{
  ◌≡◌, ◌≢◌, refl, sym, ◌↔◌, List, [], ◌∷◌, Bytes, Bool, true, Option, none, some, str_eq,
  str_eq_refl, str_eq_eq, has_prefix, In, inl, inr, map, select, Bool-cases,
}
use gitd.Prelude.Map.{Map, lookup, insert, erase, lookup-insert, lookup-erase}
use gitd.Prelude.Sorted.{sort_strings, sort_by-IsSorted, In-sort_by, In-sort_by_inv}
use gitd.Prelude.Result.{Result, ok, err}
use gitd.ObjectStore.{ObjectStore, Promises, StoreError, key_not_found}

abbrev found : Bytes → Option Bytes → Result StoreError Bytes
found k none = err (key_not_found k)
found k (some v) = ok v

abbrev keys_of : Map Bytes → List Bytes
keys_of m = map (λ e. e.0) m

-- MemoryStore: no operation but Get fails
abbrev pub memory_store : ObjectStore (Map Bytes)
memory_store = record {
  put = λ k v m. ok (insert k v m);
  get = λ k m. found k (lookup k m);
  list = λ p m. ok (sort_strings (select (λ k. has_prefix k p) (keys_of m)));
  delete = λ k m. ok (erase k m);
}

In-select :
    (p : Bytes → Bool) (k : Bytes) (ks : List Bytes) → In k (select p ks) ↔ (In k ks × (p k ≡ true))
In-select p k [] = (λ m. absurd m, λ (m, e). m)
In-select p k (j ∷ ks) = elim (Bool-cases (p j)) [
  | inl e ↦ rw e (
    λ m. elim m [
      | inl q ↦ (inl q, rw (q, e))
      | inr n ↦ (inr ((In-select p k ks).0 n).0, ((In-select p k ks).0 n).1)
    ],
    λ (m, h). elim m [ inl q ↦ inl q | inr n ↦ inr ((In-select p k ks).1 (n, h)) ],
  )
  | inr e ↦ rw e (
    λ m. (inr ((In-select p k ks).0 m).0, ((In-select p k ks).0 m).1),
    λ (m, h). elim m [ inl q ↦ cc (q, e, h) | inr n ↦ (In-select p k ks).1 (n, h) ],
  )
]

In-keys : (k : Bytes) (m : Map Bytes) → In k (keys_of m) ↔ (lookup k m ≢ none)
unfolding lookup
In-keys k [] = (λ m. absurd m, λ h. absurd (h refl))
In-keys k ((j, v) ∷ m) = elim (Bool-cases (str_eq j k)) [
  | inl e ↦ rw e (λ n. cc, λ h. inl (sym (str_eq_eq j k e)))
  | inr e ↦ rw e (
    λ n. elim n [ inl q ↦ cc (str_eq_refl k, q, e) | inr i ↦ (In-keys k m).0 i ],
    λ h. inr ((In-keys k m).1 h),
  )
]

found-ok : (k v : Bytes) (o : Option Bytes) → found k o ≡ ok v → o ≡ some v
found-ok k v none h = cc h
found-ok k v (some w) h = cc h

-- The store in memory keeps every promise of the interface.
pub memory_store-Promises : Promises (Map Bytes) memory_store (λ m k. lookup k m)
unfolding sort_strings
memory_store-Promises = record {
  get-at = λ k v m h. found-ok k v (lookup k m) h;
  put-at = λ k v s t j h. let e : t ≡ insert k v s = cc h in rw e (lookup-insert k j v s);
  delete-at = λ k s t j h. let e : t ≡ erase k s = cc h in rw e (lookup-erase k j s);
  list-IsSorted = λ p s ks h.
      let e : ks ≡ sort_strings (select (λ k. has_prefix k p) (keys_of s)) = cc h in
      rw e (sort_by-IsSorted (λ k. k) (select (λ k. has_prefix k p) (keys_of s)));
  list-In = λ p s ks k h.
      let e : ks ≡ sort_strings (select (λ k. has_prefix k p) (keys_of s)) = cc h in
      let sel = In-select (λ k. has_prefix k p) k (keys_of s) in
      rw e (
        λ m.
            let (i, x) =
              sel.0 (In-sort_by_inv (λ k. k) k (select (λ k. has_prefix k p) (keys_of s)) m) in
            (x, (In-keys k s).0 i),
        λ (x, n).
            In-sort_by (λ k. k) k (select (λ k. has_prefix k p) (keys_of s))
              (sel.1 ((In-keys k s).1 n, x)),
      );
}
