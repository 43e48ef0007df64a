-- ===== src/Browse/Paths.antt =====
-- internal/browse/git.go: paths in a repository, and what is asked of git.
pub mod Inside
use gitd.Prelude.{
  ℕ, ◌≡◌, refl, Bool, true, false, not, ◌&&◌, ◌||◌, List, [], ◌∷◌, ◌++◌, Bytes, codes, Option, none,
  some, if◌then◌else◌, str_eq, is_nil, has_prefix, cut_prefix, split, select, trim_space, length,
  ltb, ◌==◌,
}
use gitd.Prelude.Int.{ℤ, pos}
use gitd.Prelude.Result.{Result, ok, err, ◌>>=◌}
use gitd.FilePath.{clean, join_path, slash}
use gitd.Repo.{valid_name, dot_git, PathError, realpath_under}

pub data GitError : Type 0 where
  bad_path : GitError
  git_failed : List Bytes → GitError

-- the runner in a directory
abbrev pub Git : Type 0
Git = Bytes → List Bytes → Option Bytes

unfoldable pub run_in : Git → Bytes → List Bytes → Result GitError Bytes
run_in git dir args = elim (git dir args) [ none ↦ err (git_failed args) | some out ↦ ok out ]

abbrev pub or_bad_path : Result PathError Bytes → Result GitError Bytes
or_bad_path (ok p) = ok p
or_bad_path (err e) = err bad_path

-- Handler.repoDir, from what filepath.Abs and filepath.EvalSymlinks return
unfoldable pub repo_dir :
    (Bytes → Option Bytes) → (Bytes → Option Bytes) → Bytes → Bytes → Result GitError Bytes
repo_dir absolute eval_symlinks root name =
    if not (valid_name name)
    then err bad_path
    else or_bad_path
        (realpath_under (absolute root) (eval_symlinks (join_path root (name ++ dot_git))))

-- strings.Contains
unfoldable pub contains : Bytes → Bytes → Bool
contains [] p = is_nil p
contains (c ∷ s) p = has_prefix (c ∷ s) p || contains s p

-- strings.TrimPrefix
abbrev pub trim_prefix : Bytes → Bytes → Bytes
trim_prefix s p = elim (cut_prefix s p) [ none ↦ s | some r ↦ r ]

abbrev pub escapes_repo : Bytes → Bool
escapes_repo c = str_eq c (codes "..") || has_prefix c (codes "../") || contains c (codes "/../")

abbrev pub inside_or_err : Bytes → Result GitError Bytes
inside_or_err c =
    if str_eq c (codes ".") then ok [] else if escapes_repo c then err bad_path else ok c

-- cleanRepoPath
unfoldable pub clean_repo_path : Bytes → Result GitError Bytes
clean_repo_path p = if is_nil p then ok [] else inside_or_err (clean (trim_prefix p (codes "/")))

-- pageSizeCommits
abbrev pub page_size_commits : ℕ
page_size_commits = 50

-- the arguments of commitLog; `decimal` is fmt.Sprint of a number
abbrev pub log_args : (ℤ → Bytes) → Bytes → ℤ → List Bytes
log_args decimal ref skip =
    codes "log"
    ∷ codes "--format=%H%x00%h%x00%an%x00%ad%x00%s"
    ∷ codes "--date=short"
    ∷ codes "--skip"
    ∷ decimal skip
    ∷ (codes "-" ++ decimal (pos page_size_commits))
    ∷ ref
    ∷ []

-- splitNul
unfoldable pub split_nul : Bytes → List Bytes
split_nul out = select (λ s. not (is_nil s)) (split out 0)

-- the object that a ref and a path in it name
abbrev pub tree_spec : Bytes → Bytes → Bytes
tree_spec ref path = if is_nil path then ref else ref ++ (b':' ∷ path)

-- maxRenderBytes
abbrev pub max_render_bytes : ℕ
max_render_bytes = 262144

module _ (git : Git) (dir : Bytes) where
  -- Handler.hasRef
  unfoldable pub has_ref : Result GitError Bool
  has_ref = do
    out ← run_in git dir (codes "for-each-ref" ∷ codes "--format=%(refname)" ∷ [])
    ok (not (is_nil (trim_space out)))

  abbrev pub ref_args : List Bytes
  ref_args =
      codes "for-each-ref"
      ∷ codes "--format=%(refname:short)"
      ∷ codes "refs/heads"
      ∷ codes "refs/tags"
      ∷ []

  -- Handler.refs
  unfoldable pub list_refs : Result GitError (List Bytes)
  list_refs = do
    out ← run_in git dir ref_args
    ok (select (λ line. not (is_nil line)) (split (trim_space out) b'\n'))

  abbrev pub first_ref : Result GitError (List Bytes) → Bytes
  first_ref (ok (r ∷ rs)) = r
  first_ref r = codes "main"

  abbrev pub resolves : Option Bytes → Bool
  resolves none = false
  resolves (some out) = not (is_nil (trim_space out))

  -- Handler.defaultRef
  unfoldable pub default_ref : Bytes
  default_ref = elim (git dir (codes "symbolic-ref" ∷ codes "--short" ∷ codes "HEAD" ∷ [])) [
    | none ↦ codes "main"
    | some out ↦
        let ref = trim_space out in
        if resolves (git dir (codes "rev-parse" ∷ codes "--verify" ∷ codes "--quiet" ∷ ref ∷ []))
        then ref
        else first_ref list_refs
  ]

  -- Handler.commitLog
  unfoldable pub commit_log : (ℤ → Bytes) → Bytes → ℤ → Result GitError (List Bytes)
  commit_log decimal ref skip = do
    out ← run_in git dir (log_args decimal ref skip)
    ok (split (trim_space out) b'\n')

  -- Handler.treeEntries
  unfoldable pub tree_entries : Bytes → Bytes → Result GitError (List Bytes)
  tree_entries ref path = do
    out ← run_in git dir (codes "ls-tree" ∷ codes "-z" ∷ tree_spec ref path ∷ [])
    ok (split_nul out)

  -- Handler.blobAt
  unfoldable pub blob_at : Bytes → Bytes → Result GitError Bytes
  blob_at ref path = run_in git dir (codes "show" ∷ (ref ++ (b':' ∷ path)) ∷ [])

  -- Handler.diffOf: the diff, and whether the page truncates it
  unfoldable pub diff_of : Bytes → Result GitError (Bytes × Bool)
  diff_of commit = do
    out ←
        run_in git dir
          (codes "show" ∷ codes "--format=fuller" ∷ codes "--stat" ∷ codes "--patch" ∷ commit ∷ [])
    ok (out, ltb max_render_bytes (length out))
