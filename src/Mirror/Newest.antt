-- ===== src/Mirror/Newest.antt =====
-- CreateBundle and List of internal/mirror/mirror.go: the place of the bundle uploaded last.
use gitd.Prelude.{
  ℕ, ◌≡◌, ◌≢◌, refl, sym, ap, ◌∙◌, true, List, [], ◌∷◌, ◌++◌, Bytes, Option, none, some, str_eq,
  str_eq_refl, str_eq_eq, has_prefix, arith, Bool-cases, inl, inr, In, All, last?, Option-cases,
}
use gitd.Prelude.Result.{Result, ok, err}
use gitd.Prelude.Sorted.{IsSorted, str_le, str_le_refl}
use gitd.FilePath.{join_path}
use gitd.Repo.{dot_git}
use gitd.ObjectStore.{ObjectStore, Promises, StoreError}
use gitd.Mirror.{
  Mirror, bundle_key, repo_prefix, list_bundles, create_bundle, bundle_and_upload, upload,
}
use gitd.Mirror.Keys.{bundle_key-prefix}
use gitd.Mirror.Isolation.{list_bundles-list}

str_le_antisym : (x y : Bytes) → str_le x y ≡ true → str_le y x ≡ true → x ≡ y
unfolding str_le
str_le_antisym [] [] h g = refl
str_le_antisym [] (b ∷ y) h g = cc g
str_le_antisym (a ∷ x) [] h g = cc h
str_le_antisym (a ∷ x) (b ∷ y) h g = ground (arith, str_le_antisym x y)

last-In : (ks : List Bytes) (y : Bytes) → last? ks ≡ some y → In y ks
last-In [] y h = cc h
last-In (k ∷ []) y h = inl (cc h)
last-In (k ∷ j ∷ ks) y h = inr (last-In (j ∷ ks) y h)

All_In : (P : Bytes → Type 0) (ks : List Bytes) (y : Bytes) → All P ks → In y ks → P y
All_In P [] y a m = absurd m
All_In P (k ∷ ks) y (a, bs) (inl q) = rw q a
All_In P (k ∷ ks) y (a, bs) (inr m) = All_In P ks y bs m

last-greatest :
    (ks : List Bytes) (x y : Bytes)
    → IsSorted (λ k. k) ks
    → last? ks ≡ some y
    → In x ks
    → str_le x y ≡ true
last-greatest [] x y s l m = absurd m
last-greatest (k ∷ []) x y s l (inl q) = let e : x ≡ y = cc (q, l) in rw e (str_le_refl y)
last-greatest (k ∷ []) x y s l (inr m) = absurd m
last-greatest (k ∷ j ∷ ks) x y (a, s) l (inl q) =
    rw q (All_In (λ y. str_le k y ≡ true) (j ∷ ks) y a (last-In (j ∷ ks) y l))
last-greatest (k ∷ j ∷ ks) x y (a, s) l (inr m) = last-greatest (j ∷ ks) x y s l m

last-none : (ks : List Bytes) (x : Bytes) → last? ks ≡ none → In x ks → ⊥
last-none [] x h m = m
last-none (k ∷ []) x h m = cc h
last-none (k ∷ j ∷ ks) x h m = last-none (j ∷ ks) j h (inl refl)

-- the greatest key of a sorted list is the last
last-eq :
    (ks : List Bytes) (x : Bytes)
    → IsSorted (λ k. k) ks
    → In x ks
    → ((k : Bytes) → In k ks → str_le k x ≡ true)
    → last? ks ≡ some x
last-eq ks x s m top = elim (Option-cases (last? ks)) [
  | inl e ↦ absurd (last-none ks x e m)
  | inr (y, e) ↦
      e ∙ ap some (str_le_antisym y x (top y (last-In ks y e)) (last-greatest ks x y s e m))
]

module _ {S : Type 0} (store : ObjectStore S) (at : S → Bytes → Option Bytes)
    (law : Promises S store at) where
  upload-ok :
      (m : Mirror) (name : Bytes) (now : ℕ) (bundle : Bytes) (s : S)
      → (upload store m name now bundle s).0 ≡ ok true
      → store.put (bundle_key m name now) bundle s ≡ ok (upload store m name now bundle s).1
  unfolding upload
  upload-ok m name now bundle s h = on_put (store.put (bundle_key m name now) bundle s) refl h
    where
      on_put :
          (r : Result StoreError S)
          → store.put (bundle_key m name now) bundle s ≡ r
          → (upload store m name now bundle s).0 ≡ ok true
          → store.put (bundle_key m name now) bundle s ≡ ok (upload store m name now bundle s).1
      on_put (err e) p k = cc (rw (p, upload) at k)
      on_put (ok t) p k = p ∙ rw (p, upload)

  bundle_and_upload-ok :
      (m : Mirror) (name d : Bytes) (now : ℕ) (s : S)
      → (bundle_and_upload store m name d now s).0 ≡ ok true
      → (bundle : Bytes) × (m.bundle_all d ≡ some bundle)
        × (store.put (bundle_key m name now) bundle s
            ≡ ok (bundle_and_upload store m name d now s).1)
  unfolding bundle_and_upload
  bundle_and_upload-ok m name d now s h = on_bundle (m.bundle_all d) refl h
    where
      on_bundle :
          (o : Option Bytes)
          → m.bundle_all d ≡ o
          → (bundle_and_upload store m name d now s).0 ≡ ok true
          → (bundle : Bytes) × (m.bundle_all d ≡ some bundle)
            × (store.put (bundle_key m name now) bundle s
                ≡ ok (bundle_and_upload store m name d now s).1)
      on_bundle none p k = cc (rw (p, bundle_and_upload) at k)
      on_bundle (some bundle) p k = (
        bundle,
        p,
        rw (p, bundle_and_upload) (upload-ok m name now bundle s (rw (p, bundle_and_upload) at k)),
      )

  create_bundle-upload :
      (m : Mirror) (name : Bytes) (now : ℕ) (s : S)
      → (create_bundle store m name now s).0 ≡ ok true
      → create_bundle store m name now s
        ≡ bundle_and_upload store m name (join_path m.repos_root (name ++ dot_git)) now s
  unfolding create_bundle
  create_bundle-upload m name now s h = ground arith

  -- In an object store that keeps its promises, if no bundle of the repository has a later key and
  -- the listing succeeds, the bundle that CreateBundle uploaded is the last of the listing, and
  -- the object there is the bundle that git made.
  pub create_bundle-newest :
      (m : Mirror) (name : Bytes) (now : ℕ) (s : S) (ks : List Bytes)
      → (create_bundle store m name now s).0 ≡ ok true
      → ((k : Bytes)
          → has_prefix k (repo_prefix m name) ≡ true
          → at s k ≢ none
          → str_le k (bundle_key m name now) ≡ true)
      → list_bundles store m name (create_bundle store m name now s).1 ≡ ok ks
      → (last? ks ≡ some (bundle_key m name now))
        × ((bundle : Bytes) × (m.bundle_all (join_path m.repos_root (name ++ dot_git))
              ≡ some bundle)
            × (at (create_bundle store m name now s).1 (bundle_key m name now) ≡ some bundle))
  create_bundle-newest m name now s ks h top l =
      let d = join_path m.repos_root (name ++ dot_git) in
      let key = bundle_key m name now in
      let t = (create_bundle store m name now s).1 in
      let e = create_bundle-upload m name now s h in
      let (bundle, b, p) = bundle_and_upload-ok m name d now s (rw e at h) in
      let put : store.put key bundle s ≡ ok t = rw e p in
      let there : at t key ≡ some bundle =
        law.put-at key bundle s t key put ∙ rw (str_eq_refl key) in
      let listed = list_bundles-list store at law m name t ks l in
      let mem = λ (k : Bytes). law.list-In (repo_prefix m name) t ks k listed in
      (
        last-eq ks key (law.list-IsSorted (repo_prefix m name) t ks listed)
            ((mem key).1 (bundle_key-prefix m name now, λ z. cc (z, there)))
            (λ k i. elim (Bool-cases (str_eq key k)) [
              | inl q ↦ rw (sym (str_eq_eq key k q)) (str_le_refl key)
              | inr q ↦
                  top k ((mem k).0 i).0
                    (λ z. ((mem k).0 i).1 (law.put-at key bundle s t k put ∙ rw q z))
            ]),
        (bundle, b, there),
      )
