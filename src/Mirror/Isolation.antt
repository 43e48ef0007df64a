-- ===== src/Mirror/Isolation.antt =====
-- Delete of internal/mirror/mirror.go: the keys it removes from the store.
use gitd.Mirror.{
  Option, Mirror, MirrorError, store_failed, bundle_key, repo_prefix, list_bundles, delete_keys,
  delete_bundles,
}
use gitd.Prelude.{
  ℕ, ◌≡◌, ◌≢◌, refl, sym, ◌∙◌, ◌↔◌, true, List, [], ◌∷◌, Bytes, none, str_eq, str_eq_iff, str_eq_eq,
  has_prefix, arith, if◌then◌else◌, Bool-cases, inl, inr, any, In, Option-cases,
}
use gitd.Prelude.Result.{Result, ok, err, wrap-eq-ok}
use gitd.Repo.{valid_name}
use gitd.ObjectStore.{ObjectStore, Promises, StoreError}
use gitd.Mirror.Keys.{bundle_key-prefix, bundle_key-own_prefix}

In-any : (j : Bytes) (ks : List Bytes) → (any (λ k. str_eq k j) ks ≡ true) ↔ In j ks
In-any j [] = (λ h. cc h, λ m. absurd m)
In-any j (k ∷ ks) = elim (Bool-cases (str_eq k j)) [
  | inl e ↦ rw e (λ h. inl (sym (str_eq_eq k j e)), λ m. refl)
  | inr e ↦ rw e (
    λ h. inr ((In-any j ks).0 h),
    λ m. elim m [ inl q ↦ cc ((str_eq_iff k j).1 (sym q), e) | inr i ↦ (In-any j ks).1 i ],
  )
]

module _ {S : Type 0} (store : ObjectStore S) (at : S → Bytes → Option Bytes)
    (law : Promises S store at) where
  delete_keys-at :
      (ks : List Bytes) (s : S) (j : Bytes)
      → (delete_keys store ks s).0 ≡ ok tt
      → at (delete_keys store ks s).1 j ≡ (if any (λ k. str_eq k j) ks then none else at s j)
  unfolding delete_keys
  delete_keys-at [] s j h = refl
  delete_keys-at (k ∷ ks) s j h = on_delete (store.delete k s) refl h (delete_keys-at ks)
    where
      on_delete :
          (r : Result StoreError S)
          → store.delete k s ≡ r
          → (delete_keys store (k ∷ ks) s).0 ≡ ok tt
          → ((t : S) (i : Bytes)
              → (delete_keys store ks t).0 ≡ ok tt
              → at (delete_keys store ks t).1 i
                ≡ (if any (λ k. str_eq k i) ks then none else at t i))
          → at (delete_keys store (k ∷ ks) s).1 j
            ≡ (if any (λ k. str_eq k j) (k ∷ ks) then none else at s j)
      on_delete (err e) p q ih = cc (rw (p, delete_keys) at q)
      on_delete (ok t) p q ih =
          rw (p, delete_keys)
            (ground (arith, ih t j (rw (p, delete_keys) at q), law.delete-at k s t j p))

  pub list_bundles-list :
      (m : Mirror) (name : Bytes) (s : S) (ks : List Bytes)
      → list_bundles store m name s ≡ ok ks
      → store.list (repo_prefix m name) s ≡ ok ks
  unfolding list_bundles
  list_bundles-list m name s ks p = elim (Bool-cases (valid_name name)) [
    | inl e ↦ wrap-eq-ok store_failed (store.list (repo_prefix m name) s) (rw e at p)
    | inr e ↦ cc (rw e at p)
  ]

  delete_bundles-list :
      (m : Mirror) (name : Bytes) (s : S)
      → (delete_bundles store m name s).0 ≡ ok tt
      → (ks : List Bytes) × (store.list (repo_prefix m name) s ≡ ok ks)
        × (delete_bundles store m name s ≡ delete_keys store ks s)
  unfolding delete_bundles
  delete_bundles-list m name s h = on_list (list_bundles store m name s) refl h
    where
      on_list :
          (r : Result MirrorError (List Bytes))
          → list_bundles store m name s ≡ r
          → (delete_bundles store m name s).0 ≡ ok tt
          → (ks : List Bytes) × (store.list (repo_prefix m name) s ≡ ok ks)
            × (delete_bundles store m name s ≡ delete_keys store ks s)
      on_list (err e) p q = cc (rw (p, delete_bundles) at q)
      on_list (ok ks) p q = (ks, list_bundles-list m name s ks p, rw (p, delete_bundles))

  -- In an object store that keeps its promises, a deletion that succeeds removes exactly the
  -- objects below the prefix of the repository.
  pub delete_bundles-at :
      (m : Mirror) (name : Bytes) (s : S) (j : Bytes)
      → (delete_bundles store m name s).0 ≡ ok tt
      → at (delete_bundles store m name s).1 j
        ≡ (if has_prefix j (repo_prefix m name) then none else at s j)
  delete_bundles-at m name s j h =
      let (ks, p, q) = delete_bundles-list m name s h in
      rw q (delete_keys-at ks s j (rw q at h) ∙ same ks p)
    where
      same :
          (ks : List Bytes)
          → store.list (repo_prefix m name) s ≡ ok ks
          → (if any (λ k. str_eq k j) ks then none else at s j)
            ≡ (if has_prefix j (repo_prefix m name) then none else at s j)
      same ks p = elim (Bool-cases (any (λ k. str_eq k j) ks)) [
        | inl e ↦ rw (e, ((law.list-In (repo_prefix m name) s ks j p).0 ((In-any j ks).0 e)).0)
        | inr e ↦ elim (Option-cases (at s j)) [
          | inl o ↦ rw o (ground arith)
          | inr (v, o) ↦ elim (Bool-cases (has_prefix j (repo_prefix m name))) [
            | inl x ↦ cc (
                (In-any j ks).1 ((law.list-In (repo_prefix m name) s ks j p).1 (x, λ z. cc (z, o))))
            | inr x ↦ rw (e, x)
          ]
        ]
      ]

  -- In an object store that keeps its promises, deleting one valid repository's bundles without an
  -- error removes each of them, and leaves every bundle of another valid repository as it was.
  pub delete_bundles-isolated :
      (m : Mirror) (n k : Bytes) (t : ℕ) (s : S)
      → valid_name n ≡ true
      → valid_name k ≡ true
      → (delete_bundles store m n s).0 ≡ ok tt
      → (at (delete_bundles store m n s).1 (bundle_key m n t) ≡ none)
        × (n ≢ k → at (delete_bundles store m n s).1 (bundle_key m k t) ≡ at s (bundle_key m k t))
  delete_bundles-isolated m n k t s h g d = (
    delete_bundles-at m n s (bundle_key m n t) d ∙ rw (bundle_key-prefix m n t),
    λ ne.
        delete_bundles-at m n s (bundle_key m k t) d
        ∙ elim (Bool-cases (has_prefix (bundle_key m k t) (repo_prefix m n))) [
          | inl e ↦ absurd (ne (bundle_key-own_prefix m n k t h g e))
          | inr e ↦ rw e
        ],
  )
