-- ===== src/Tests/Bundles.antt =====
-- The mirror over the store in memory.
use gitd.Prelude.Map.{insert, erase, Map, lookup}
use gitd.Prelude.{
  Bool-cases, inl, inr, str_eq, str_eq_eq, sym, trim_space, text_end, trim_left, space_width, ◌≡◌,
  ◌≢◌, refl, List, [], ◌∷◌, ◌++◌, Bytes, codes, true, none, some, has_prefix, last?, if◌then◌else◌,
}
use gitd.Mirror.{
  delete_keys, bundle_and_upload, upload, Mirror, bundle_key, repo_name_from_key, delete_bundles,
  create_bundle, list_bundles, repo_prefix,
}
use gitd.Prelude.Sorted.{sort_strings, str_le}
use gitd.Repo.{valid_name, dot_git}
use gitd.FilePath.{join_path}
use gitd.ObjectStore.Memory.{memory_store, memory_store-Promises}
use gitd.Mirror.Keys.{repo_name_from_key-bundle_key}
use gitd.Mirror.Isolation.{delete_bundles-isolated, delete_bundles-at}
use gitd.Mirror.Newest.{create_bundle-newest}

abbrev pub test_mirror : Mirror
test_mirror = record {
  repos_root = codes "/srv";
  prefix = codes "repos";
  for_each_ref = λ d. some (codes "refs/heads/main");
  bundle_all = λ d. some (codes "pack");
  verifies = λ d bundle. true;
  format_time = λ t. t ∷ [];
}

-- one bundle of each of two repositories
abbrev pub bucket : Map Bytes
bucket =
    (codes "repos/a/1.bundle", codes "old a") ∷ (codes "repos/a.b/1.bundle", codes "old b") ∷ []

repo_name_from_key-bundle_key_example :
    repo_name_from_key test_mirror (bundle_key test_mirror (codes "a.b") 49) ≡ some (codes "a.b")
unfolding valid_name
repo_name_from_key-bundle_key_example =
    repo_name_from_key-bundle_key test_mirror (codes "a.b") 49 refl

delete_bundles-at_example :
    lookup (codes "repos/a/1.bundle") (delete_bundles memory_store test_mirror (codes "a") bucket).1
    ≡ (if has_prefix (codes "repos/a/1.bundle") (repo_prefix test_mirror (codes "a"))
        then none
        else lookup (codes "repos/a/1.bundle") bucket)
unfolding delete_bundles list_bundles valid_name delete_keys sort_strings has_prefix lookup erase
    str_eq
delete_bundles-at_example =
    delete_bundles-at memory_store (λ m k. lookup k m) memory_store-Promises test_mirror (codes "a")
      bucket (codes "repos/a/1.bundle") refl

delete_bundles-isolated_example :
    (lookup
        (bundle_key test_mirror (codes "a") 49)
        (delete_bundles memory_store test_mirror (codes "a") bucket).1
      ≡ none)
    × (codes "a" ≢ codes "a.b"
        → lookup
            (bundle_key test_mirror (codes "a.b") 49)
            (delete_bundles memory_store test_mirror (codes "a") bucket).1
          ≡ lookup (bundle_key test_mirror (codes "a.b") 49) bucket)
unfolding valid_name delete_bundles list_bundles delete_keys sort_strings has_prefix lookup erase
    str_eq bundle_key
delete_bundles-isolated_example =
    delete_bundles-isolated memory_store (λ m k. lookup k m) memory_store-Promises test_mirror
      (codes "a") (codes "a.b") 49 bucket refl refl refl

abbrev one_bucket : Map Bytes
one_bucket = (codes "repos/a.b/1.bundle", codes "old b") ∷ []

abbrev listing : List Bytes
listing = codes "repos/a/2.bundle" ∷ []

none_listed :
    (k : Bytes)
    → has_prefix k (repo_prefix test_mirror (codes "a")) ≡ true
    → lookup k one_bucket ≢ none
    → str_le k (bundle_key test_mirror (codes "a") 50) ≡ true
unfolding has_prefix lookup
none_listed k h n = elim (Bool-cases (str_eq (codes "repos/a.b/1.bundle") k)) [
  | inl e ↦ cc (rw (sym (str_eq_eq (codes "repos/a.b/1.bundle") k e)) at h)
  | inr e ↦ absurd (n (rw e))
]

create_bundle-newest_example :
    (last? listing ≡ some (bundle_key test_mirror (codes "a") 50))
    × ((bundle : Bytes) × (test_mirror.bundle_all (join_path (codes "/srv") (codes "a" ++ dot_git))
          ≡ some bundle)
        × (lookup
              (bundle_key test_mirror (codes "a") 50)
              (create_bundle memory_store test_mirror (codes "a") 50 one_bucket).1
            ≡ some bundle))
unfolding create_bundle valid_name trim_space text_end trim_left space_width bundle_and_upload
    upload lookup str_eq bundle_key list_bundles sort_strings insert has_prefix
create_bundle-newest_example =
    create_bundle-newest memory_store (λ m k. lookup k m) memory_store-Promises test_mirror
      (codes "a") 50 one_bucket listing refl none_listed refl
