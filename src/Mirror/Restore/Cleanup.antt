-- ===== src/Mirror/Restore/Cleanup.antt =====
-- Fetch of internal/mirror/mirror.go: the file system behind a restore that failed.
use gitd.Prelude.{
  ◌≡◌, ◌≢◌, refl, ap, ◌∙◌, Bool, true, false, not, ◌&&◌, List, [], ◌∷◌, Bytes, Option, none, some,
  Bool-cases, inl, inr, ◌⊎◌, In, fields, split,
}
use gitd.Mirror.Restore.{
  first_branch, RestoreGit, FetchError, init_failed, update_refs, ref_of, repoint, or_fail,
  then_repoint, with_listing, unbundle, checked, or_remove, initialized, install, install_latest,
  with_parent, latest_bundle, fetch, is_present,
}
use gitd.Prelude.Map.{lookup, lookup-erase_where}
use gitd.Prelude.Result.{Result, ok, err}
use gitd.Os.{FileSystem, OsError, dir, is_under, remove_all, parents, mkdir_all, stat}
use gitd.Os.Laws.{IsNewParent, IsMade, mkdir_all-IsMade}
use gitd.Repo.{valid_name}
use gitd.ObjectStore.{ObjectStore}
use gitd.Mirror.{Mirror}
use gitd.Mirror.Header.{Format, bundle_object_format}

-- Every path that is not below the directory is as it was, and the same paths can be removed.
pub record IsOutside (d : Bytes) (fs fs' : FileSystem) : Type 0 where
  pub kept : (p : Bytes) → is_under d p ≡ false → lookup p fs'.nodes ≡ lookup p fs.nodes
  pub stuck : fs'.stuck ≡ fs.stuck

pub unchanged : (d : Bytes) (fs : FileSystem) → IsOutside d fs fs
unchanged d fs = record { kept = λ p n. refl; stuck = refl }

after : (d : Bytes) (a b c : FileSystem) → IsOutside d a b → IsOutside d b c → IsOutside d a c
after d a b c x y = record { kept = λ p n. y.kept p n ∙ x.kept p n; stuck = y.stuck ∙ x.stuck }

-- git changes nothing outside the directory that it works in
pub record IsConfined (g : RestoreGit) : Type 0 where
  pub init : (fs : FileSystem) (f : Format) (d : Bytes) → IsOutside d fs (g.init_bare fs f d).1
  pub verify : (fs : FileSystem) (d b : Bytes) → IsOutside d fs (g.verify fs d b).1
  pub unbundle : (fs : FileSystem) (d b : Bytes) → IsOutside d fs (g.unbundle fs d b).1
  pub update_ref : (fs : FileSystem) (d r s : Bytes) → IsOutside d fs (g.update_ref fs d r s).1
  pub symbolic_ref : (fs : FileSystem) (d r : Bytes) → IsOutside d fs (g.symbolic_ref fs d r).1

module _ (g : RestoreGit) (law : IsConfined g) (d : Bytes) where
  update_refs-IsOutside :
      (lines : List Bytes) (first : Bytes) (fs : FileSystem)
      → IsOutside d fs (update_refs g d lines first fs).1
  unfolding update_refs
  update_refs-IsOutside [] first fs = unchanged d fs
  update_refs-IsOutside (line ∷ lines) first fs =
      on_ref (ref_of (fields line)) refl (λ f t. update_refs-IsOutside lines f t)
    where
      on_ref :
          (o : Option (Bytes × Bytes))
          → ref_of (fields line) ≡ o
          → ((f : Bytes) (t : FileSystem) → IsOutside d t (update_refs g d lines f t).1)
          → IsOutside d fs (update_refs g d (line ∷ lines) first fs).1
      on_ref none e ih = rw (e, update_refs) (ih first fs)
      on_ref (some (sha, ref)) e ih =
          let one = law.update_ref fs d ref sha in
          elim (Bool-cases (g.update_ref fs d ref sha).0) [
            | inl b ↦
                rw (e, update_refs)
                  (rw b (
                    after d fs (g.update_ref fs d ref sha).1 _ one
                      (ih (first_branch first ref) (g.update_ref fs d ref sha).1)))
            | inr b ↦ rw (e, update_refs) (rw b one)
          ]

  or_fail-IsOutside :
      (e : FetchError) (fs : FileSystem) (r : Bool × FileSystem)
      → IsOutside d fs r.1
      → IsOutside d fs (or_fail e r).1
  or_fail-IsOutside e fs (true, t) h = h
  or_fail-IsOutside e fs (false, t) h = h

  repoint-IsOutside : (first : Bytes) (fs : FileSystem) → IsOutside d fs (repoint g d first fs).1
  unfolding repoint
  repoint-IsOutside [] fs = unchanged d fs
  repoint-IsOutside (c ∷ first) fs = elim (Bool-cases (g.head_resolves fs d)) [
    | inl e ↦ rw e (unchanged d fs)
    | inr e ↦ rw e (
        or_fail-IsOutside _ fs (g.symbolic_ref fs d (c ∷ first))
          (law.symbolic_ref fs d (c ∷ first)))
  ]

  then_repoint-IsOutside :
      (fs : FileSystem) (r : Result FetchError Bytes × FileSystem)
      → IsOutside d fs r.1
      → IsOutside d fs (then_repoint g d r).1
  then_repoint-IsOutside fs (err e, t) h = h
  then_repoint-IsOutside fs (ok first, t) h = after d fs t _ h (repoint-IsOutside first t)

  with_listing-IsOutside :
      (fs : FileSystem) (r : Option Bytes × FileSystem)
      → IsOutside d fs r.1
      → IsOutside d fs (with_listing g d r).1
  with_listing-IsOutside fs (none, t) h = h
  with_listing-IsOutside fs (some out, t) h =
      then_repoint-IsOutside fs (update_refs g d (split out b'\n') [] t)
        (after d fs t _ h (update_refs-IsOutside (split out b'\n') [] t))

  checked-IsOutside :
      (fs : FileSystem) (b : Bytes) (r : Bool × FileSystem)
      → IsOutside d fs r.1
      → IsOutside d fs (checked g d b r).1
  unfolding unbundle
  checked-IsOutside fs b (false, t) h = h
  checked-IsOutside fs b (true, t) h =
      after d fs t _ h (with_listing-IsOutside t (g.unbundle t d b) (law.unbundle t d b))

  -- nothing is at the directory or below it, and everything that comes there can be removed
  pub record IsAbsent (fs : FileSystem) : Type 0 where
    pub nothing : (p : Bytes) → is_under d p ≡ true → lookup p fs.nodes ≡ none
    pub removable : (p : Bytes) → is_under d p ≡ true → fs.stuck p ≡ false

  -- a result that failed after the `init`, and left every path as it was
  abbrev Restored : FileSystem → Result FetchError (Unit {0}) × FileSystem → Type 0
  Restored fs r =
      (e : FetchError)
      → r.0 ≡ err e
      → e ≢ init_failed
      → (p : Bytes) → lookup p r.1.nodes ≡ lookup p fs.nodes

  or_remove-Restored :
      (fs : FileSystem) (r : Result FetchError (Unit {0}) × FileSystem)
      → IsAbsent fs
      → IsOutside d fs r.1
      → Restored fs (or_remove d r)
  unfolding remove_all
  or_remove-Restored fs (ok u, t) a h e q i p = cc q
  or_remove-Restored fs (err x, t) a h e q i p =
      lookup-erase_where (λ x. is_under d x && not (t.stuck x)) p t.nodes
      ∙ elim (Bool-cases (is_under d p)) [
        | inl b ↦ rw (b, ap (λ f. f p) h.stuck, a.removable p b, a.nothing p b) refl
        | inr b ↦ rw (b, h.kept p b) refl
      ]

  initialized-Restored :
      (fs : FileSystem) (b : Bytes) (r : Bool × FileSystem)
      → IsAbsent fs
      → IsOutside d fs r.1
      → Restored fs (initialized g d b r)
  initialized-Restored fs b (false, t) a h e q i p = absurd (i (cc q))
  initialized-Restored fs b (true, t) a h e q i p =
      or_remove-Restored fs (checked g d b (g.verify t d b)) a
        (checked-IsOutside fs b (g.verify t d b) (after d fs t _ h (law.verify t d b))) e q i p

  install-Restored : (fs : FileSystem) (b : Bytes) → IsAbsent fs → Restored fs (install g d b fs)
  unfolding install
  install-Restored fs b a = on_format (bundle_object_format b) refl
    where
      on_format : (o : Option Format) → bundle_object_format b ≡ o → Restored fs (install g d b fs)
      on_format none o = rw (o, install) (λ e q i p. refl)
      on_format (some f) o =
          rw (o, install) (initialized-Restored fs b (g.init_bare fs f d) a (law.init fs f d))

  install_latest-Restored :
      (fs : FileSystem) (latest : Result FetchError Bytes)
      → IsAbsent fs
      → Restored fs (install_latest g d latest fs)
  install_latest-Restored fs (err x) a = λ e q i p. refl
  install_latest-Restored fs (ok b) a = install-Restored fs b a

  with_parent-Restored :
      (fs : FileSystem) (ps : List Bytes) (latest : Result FetchError Bytes)
      (r : Result OsError (Unit {0}) × FileSystem)
      → IsMade fs ps r.1
      → ((q : Bytes) → In q ps → is_under d q ≡ false)
      → IsAbsent fs
      → (e : FetchError) → (with_parent g d latest r).0 ≡ err e
      → e ≢ init_failed
      → (p : Bytes) → IsNewParent fs ps (with_parent g d latest r).1 p
  with_parent-Restored fs ps latest (err x, t) m u a e q i p = m.nodes p
  with_parent-Restored fs ps latest (ok v, t) m u a e q i p =
      let b : IsAbsent t = record {
        nothing = λ j n. elim (m.nodes j) [
          | inl same ↦ same ∙ a.nothing j n
          | inr (x, y, z) ↦ cc (u j x, n)
        ];
        removable = λ j n. ap (λ f. f j) m.stuck ∙ a.removable j n;
      } in
      let back = install_latest-Restored t latest b e q i p in
      elim (m.nodes p) [ inl same ↦ inl (back ∙ same) | inr (x, y, z) ↦ inr (x, y, back ∙ z) ]

  -- A restore that fails for any reason but `git init` leaves every path as it was, but for missing
  -- parent directories that it made: nothing of the repository stays behind, and nothing else is
  -- touched. Git is confined to the destination, nothing was there or below it, what comes there
  -- can be removed, and the parents are not below it.
  pub fetch-Restored :
      {S : Type 0} (store : ObjectStore S) (m : Mirror) (name : Bytes) (s : S) (fs : FileSystem)
      → ((q : Bytes) → In q (parents [] [] (g.dir_of d)) → is_under d q ≡ false)
      → IsAbsent fs
      → (e : FetchError) → (fetch store m g name d s fs).0 ≡ err e
      → e ≢ init_failed
      → (p : Bytes)
      → (lookup p (fetch store m g name d s fs).1.nodes ≡ lookup p fs.nodes)
        ⊎ (In p (parents [] [] (g.dir_of d))
            × (lookup p fs.nodes ≡ none)
            × (lookup p (fetch store m g name d s fs).1.nodes ≡ some dir))
  unfolding fetch
  fetch-Restored store m name s fs u a e q i p = elim (Bool-cases (valid_name name)) [
    | inr v ↦ rw v (inl refl)
    | inl v ↦ elim (Bool-cases (is_present (stat fs d))) [
      | inl w ↦ rw (v, w) (inl refl)
      | inr w ↦
          rw (v, w)
            (with_parent-Restored fs (parents [] [] (g.dir_of d)) (latest_bundle store m name s)
              (mkdir_all fs (g.dir_of d)) (mkdir_all-IsMade fs (g.dir_of d)) u a e (rw (v, w) at q)
              i p)
    ]
  ]
