-- ===== src/ObjectStore.antt =====
-- internal/objectstore/objectstore.go: the storage seam of the mirror, and the store in memory.
pub mod Memory
use gitd.Prelude.{
  ◌≡◌, ◌≢◌, ◌↔◌, List, Bytes, Option, none, some, if◌then◌else◌, str_eq, has_prefix, true, In,
}
use gitd.Prelude.Sorted.{IsSorted}
use gitd.Prelude.Result.{Result, ok}

pub data StoreError : Type 0 where
  key_not_found : Bytes → StoreError
  backend : StoreError

-- The interface Store, over the state of the storage.
pub record ObjectStore (S : Type 0) : Type 0 where
  pub put : Bytes → Bytes → S → Result StoreError S
  pub get : Bytes → S → Result StoreError Bytes
  pub list : Bytes → S → Result StoreError (List Bytes)
  pub delete : Bytes → S → Result StoreError S

-- What the comments of the interface promise, where `at` is the object at each key.
pub record Promises (S : Type 0) (o : ObjectStore S) (at : S → Bytes → Option Bytes) : Type 0 where
  pub get-at : (k v : Bytes) (s : S) → o.get k s ≡ ok v → at s k ≡ some v
  pub put-at :
      (k v : Bytes) (s t : S) (j : Bytes)
      → o.put k v s ≡ ok t
      → at t j ≡ (if str_eq k j then some v else at s j)
  pub delete-at :
      (k : Bytes) (s t : S) (j : Bytes)
      → o.delete k s ≡ ok t
      → at t j ≡ (if str_eq k j then none else at s j)
  pub list-IsSorted :
      (p : Bytes) (s : S) (ks : List Bytes) → o.list p s ≡ ok ks → IsSorted (λ k. k) ks
  pub list-In :
      (p : Bytes) (s : S) (ks : List Bytes) (k : Bytes)
      → o.list p s ≡ ok ks
      → In k ks ↔ ((has_prefix k p ≡ true) × (at s k ≢ none))
