-- ===== src/Mirror.antt =====
-- internal/mirror/mirror.go: the bundles of the repositories in the object store.
pub mod Keys
pub mod Isolation
pub mod Newest
pub mod Header
pub mod Restore
use gitd.Prelude.{
  ℕ, ◌≡◌, refl, Bool, true, false, not, ◌||◌, List, [], ◌∷◌, ◌++◌, Bytes, codes, Option, none, some,
  if◌then◌else◌, ◌==◌, map, cut_prefix, cut, is_nil, trim_space, last?,
}
use gitd.Prelude.Map.{Map, lookup, insert}
use gitd.Prelude.Result.{Result, ok, err, ◌>>=◌, wrap}
use gitd.FilePath.{join_path, slash}
use gitd.Repo.{valid_name, dot_git}
use gitd.ObjectStore.{ObjectStore, StoreError}

pub data MirrorError : Type 0 where
  invalid_name malformed_key : Bytes → MirrorError
  refs_failed bundle_failed verify_failed : MirrorError
  store_failed : StoreError → MirrorError

-- The configuration of a Mirror. What git says of a repository's directory is no code of this
-- repository: its refs, the bundle of all of them, and whether a bundle verifies. So is the format
-- of a time.
pub record Mirror : Type 0 where
  pub repos_root : Bytes
  pub prefix : Bytes
  pub for_each_ref : Bytes → Option Bytes
  pub bundle_all : Bytes → Option Bytes
  pub verifies : Bytes → Bytes → Bool
  pub format_time : ℕ → Bytes

abbrev dash_for_colon : ℕ → ℕ
dash_for_colon c = if c == b':' then b'-' else c

abbrev pub stamp : Mirror → ℕ → Bytes
stamp m t = map dash_for_colon (m.format_time t)

abbrev pub repo_prefix : Mirror → Bytes → Bytes
repo_prefix m name = m.prefix ++ (slash ∷ (name ++ (slash ∷ [])))

-- Mirror.bundleKey
unfoldable pub bundle_key : Mirror → Bytes → ℕ → Bytes
bundle_key m name t = m.prefix ++ (slash ∷ (name ++ (slash ∷ (stamp m t ++ codes ".bundle"))))

abbrev checked_name : Option (Bytes × Bytes) → Option Bytes
checked_name none = none
checked_name (some (name, rest)) =
    if is_nil name then none else if valid_name name then some name else none

-- Mirror.repoNameFromKey; `none` is the false result
unfoldable pub repo_name_from_key : Mirror → Bytes → Option Bytes
repo_name_from_key m key = elim (cut_prefix key (m.prefix ++ (slash ∷ []))) [
  | none ↦ none
  | some rest ↦ checked_name (cut rest slash)
]

abbrev bundles_of : Bytes → Map (List Bytes) → List Bytes
bundles_of name repos = elim (lookup name repos) [ none ↦ [] | some ks ↦ ks ]

-- the loop of ListAllRepos
unfoldable pub group_keys :
    Mirror → List Bytes → Map (List Bytes) → Result MirrorError (Map (List Bytes))
group_keys m [] repos = ok repos
group_keys m (key ∷ keys) repos = elim (repo_name_from_key m key) [
  | none ↦ err (malformed_key key)
  | some name ↦ group_keys m keys (insert name (bundles_of name repos ++ (key ∷ [])) repos)
]

-- The operations, over any object store.
module _ {S : Type 0} (store : ObjectStore S) where
  -- Mirror.List
  unfoldable pub list_bundles : Mirror → Bytes → S → Result MirrorError (List Bytes)
  list_bundles m name s =
      if not (valid_name name)
      then err (invalid_name name)
      else wrap store_failed (store.list (repo_prefix m name) s)

  -- Mirror.ListAllRepos
  unfoldable pub list_all_repos : Mirror → S → Result MirrorError (Map (List Bytes))
  list_all_repos m s = do
    keys ← wrap store_failed (store.list (m.prefix ++ (slash ∷ [])) s)
    group_keys m keys []

  -- the upload at the end of CreateBundle
  unfoldable pub upload : Mirror → Bytes → ℕ → Bytes → S → Result MirrorError Bool × S
  upload m name now bundle s = elim (store.put (bundle_key m name now) bundle s) [
    | err e ↦ (err (store_failed e), s)
    | ok s' ↦ (ok true, s')
  ]

  unfoldable pub bundle_and_upload : Mirror → Bytes → Bytes → ℕ → S → Result MirrorError Bool × S
  bundle_and_upload m name repo_dir now s = elim (m.bundle_all repo_dir) [
    | none ↦ (err bundle_failed, s)
    | some bundle ↦ upload m name now bundle s
  ]

  -- Mirror.CreateBundle: whether a bundle was uploaded
  unfoldable pub create_bundle : Mirror → Bytes → ℕ → S → Result MirrorError Bool × S
  create_bundle m name now s =
      if not (valid_name name)
      then (err (invalid_name name), s)
      else let repo_dir = join_path m.repos_root (name ++ dot_git) in
        elim (m.for_each_ref repo_dir) [
          | none ↦ (err refs_failed, s)
          | some refs ↦
              if is_nil (trim_space refs)
              then (ok false, s)
              else bundle_and_upload m name repo_dir now s
        ]

  -- the loop of Delete: a failure leaves what was deleted before it
  unfoldable pub delete_keys : List Bytes → S → Result MirrorError (Unit {0}) × S
  delete_keys [] s = (ok tt, s)
  delete_keys (key ∷ keys) s = elim (store.delete key s) [
    | err e ↦ (err (store_failed e), s)
    | ok s' ↦ delete_keys keys s'
  ]

  -- Mirror.Delete
  unfoldable pub delete_bundles : Mirror → Bytes → S → Result MirrorError (Unit {0}) × S
  delete_bundles m name s = elim (list_bundles m name s) [
    | err e ↦ (err e, s)
    | ok keys ↦ delete_keys keys s
  ]

  abbrev verify_bundle : Mirror → Bytes → Bytes → Result MirrorError (Unit {0})
  verify_bundle m repo_dir bundle = if m.verifies repo_dir bundle then ok tt else err verify_failed

  abbrev verify_latest : Mirror → Bytes → S → Option Bytes → Result MirrorError (Unit {0})
  verify_latest m repo_dir s none = ok tt
  verify_latest m repo_dir s (some latest) = do
    bundle ← wrap store_failed (store.get latest s)
    verify_bundle m repo_dir bundle

  -- Mirror.Verify: a repository with no bundles passes
  unfoldable pub verify : Mirror → Bytes → S → Result MirrorError (Unit {0})
  verify m name s = do
    keys ← list_bundles m name s
    verify_latest m (join_path m.repos_root (name ++ dot_git)) s (last? keys)
