-- ===== src/Tests/Restores.antt =====
-- A restore that git refuses.
use gitd.Os.{mkdir}
use gitd.Prelude.{
  ◌⊎◌, In, inl, inr, some, str_eq_iff, arith, has_prefix, ◌≡◌, refl, [], ◌∷◌, Bytes, codes, true,
  false, none, str_eq,
}
use gitd.Prelude.Map.{lookup-insert, Map, lookup, insert}
use gitd.Repo.{valid_name}
use gitd.Os.{parents, make_dirs, is_under, stat, mkdir_all, FileSystem, dir}
use gitd.Mirror.Restore.{latest_bundle, install, RestoreGit, fetch, not_applicable}
use gitd.Mirror.{list_bundles, Mirror}
use gitd.Prelude.Sorted.{sort_strings}
use gitd.Mirror.Header.{bundle_object_format}
use gitd.Hooks.{scan_lines}
use gitd.ObjectStore.Memory.{memory_store}
use gitd.Mirror.Restore.Cleanup.{IsConfined, IsOutside, unchanged, fetch-Restored}

-- `git init` makes the directory, and no bundle verifies
abbrev made : FileSystem → Bytes → FileSystem
made fs d = record fs { nodes = insert d dir fs.nodes }

abbrev refusing_git : RestoreGit
refusing_git = record {
  dir_of = λ p. codes "/srv";
  init_bare = λ fs f d. (true, made fs d);
  verify = λ fs d b. (false, fs);
  unbundle = λ fs d b. (none, fs);
  update_ref = λ fs d r s. (false, fs);
  head_resolves = λ fs d. true;
  symbolic_ref = λ fs d r. (true, fs);
}

made-IsOutside : (fs : FileSystem) (d : Bytes) → IsOutside d fs (made fs d)
made-IsOutside fs d = record {
  kept = λ p n. ground (arith, lookup-insert d p dir fs.nodes, str_eq_iff d p, str_eq_iff p d);
  stuck = refl;
}

refusing_git-IsConfined : IsConfined refusing_git
refusing_git-IsConfined = record {
  init = λ fs f d. made-IsOutside fs d;
  verify = λ fs d b. unchanged d fs;
  unbundle = λ fs d b. unchanged d fs;
  update_ref = λ fs d r s. unchanged d fs;
  symbolic_ref = λ fs d r. unchanged d fs;
}

abbrev empty_disk : FileSystem
empty_disk = record { nodes = []; broken = λ p. false; stuck = λ p. false }

abbrev mirror : Mirror
mirror = record {
  repos_root = codes "/srv";
  prefix = codes "repos";
  for_each_ref = λ d. none;
  bundle_all = λ d. none;
  verifies = λ d bundle. false;
  format_time = λ t. [];
}

abbrev bucket : Map Bytes
bucket = (codes "repos/a/1.bundle", codes "# v2 git bundle\n") ∷ []

abbrev restored : FileSystem
restored =
    (fetch memory_store mirror refusing_git (codes "a") (codes "/srv/a.git") bucket empty_disk).1

fetch-Restored_example :
    (lookup (codes "/srv/a.git") restored.nodes ≡ lookup (codes "/srv/a.git") empty_disk.nodes)
    ⊎ (In (codes "/srv/a.git") (codes "/srv" ∷ [])
        × (lookup (codes "/srv/a.git") empty_disk.nodes ≡ none)
        × (lookup (codes "/srv/a.git") restored.nodes ≡ some dir))
unfolding str_eq has_prefix lookup fetch valid_name stat mkdir_all latest_bundle list_bundles
    sort_strings install bundle_object_format scan_lines parents make_dirs mkdir
fetch-Restored_example =
    fetch-Restored refusing_git refusing_git-IsConfined (codes "/srv/a.git") memory_store mirror
      (codes "a") bucket empty_disk outside
      (record { nothing = λ p u. refl; removable = λ p u. refl }) not_applicable refl (λ e. cc e)
      (codes "/srv/a.git")
  where
    outside : (q : Bytes) → In q (codes "/srv" ∷ []) → is_under (codes "/srv/a.git") q ≡ false
    outside q (inl e) = rw e refl
    outside q (inr e) = absurd e
