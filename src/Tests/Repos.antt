-- ===== src/Tests/Repos.antt =====
-- Names and listings of repositories.
use gitd.Prelude.{has_suffix, ◌≡◌, refl, List, [], ◌∷◌, ◌++◌, codes, true, false, All, In, inl}
use gitd.Repo.{is_bare_repo, list_bare, normalize, valid_name, collect, inspect, DirEntry}
use gitd.Os.{stat, FileSystem, dir, file}
use gitd.Prelude.Map.{lookup}
use gitd.FilePath.{join_path}
use gitd.Prelude.Sorted.{sort_strings, IsSorted}
use gitd.Prelude.Result.{ok}
use gitd.Repo.Names.{valid_name-IsSafe, IsSafe, normalize-dot_git}
use gitd.Repo.Listing.{list_bare_sound, list_bare_complete, IsListed}

valid_name-IsSafe_example : IsSafe (codes "my.repo-1")
unfolding valid_name
valid_name-IsSafe_example = valid_name-IsSafe (codes "my.repo-1") refl

normalize-dot_git_example : normalize (codes "a.git" ++ codes ".git") ≡ codes "a.git"
normalize-dot_git_example = normalize-dot_git (codes "a.git") (λ e. cc e)

-- one bare repository, and one directory that is none
abbrev two_dirs : FileSystem
two_dirs = record {
  nodes =
      (codes "/srv/b.git/HEAD", file [])
      ∷ (codes "/srv/b.git/objects", dir)
      ∷ (codes "/srv/b.git/refs", dir)
      ∷ (codes "/srv/a.git/HEAD", file [])
      ∷ (codes "/srv/a.git/objects", dir)
      ∷ (codes "/srv/a.git/refs", dir)
      ∷ [];
  broken = λ p. false;
  stuck = λ p. false;
}

abbrev entry_b : DirEntry
entry_b = record { name = codes "b.git"; is_dir = true }

abbrev entries : List DirEntry
entries =
    entry_b
    ∷ record { name = codes "a.git"; is_dir = true }
    ∷ record { name = codes "c.git"; is_dir = true }
    ∷ []

list_bare_sound_example :
    IsSorted (λ s. s) (codes "a" ∷ codes "b" ∷ [])
    × All (IsListed two_dirs (codes "/srv")) (codes "a" ∷ codes "b" ∷ [])
unfolding list_bare collect inspect has_suffix valid_name normalize is_bare_repo stat lookup
    join_path sort_strings
list_bare_sound_example =
    list_bare_sound two_dirs (codes "/srv") (ok entries) (codes "a" ∷ codes "b" ∷ []) refl

list_bare_complete_example : In (codes "b") (codes "a" ∷ codes "b" ∷ [])
unfolding list_bare collect inspect has_suffix valid_name normalize is_bare_repo stat lookup
    join_path sort_strings
list_bare_complete_example =
    list_bare_complete two_dirs (codes "/srv") entries entry_b (codes "b")
      (codes "a" ∷ codes "b" ∷ []) refl (inl refl) refl
