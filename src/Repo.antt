-- ===== src/Repo.antt =====
-- internal/repo/repo.go: repository names, and the layout of a bare repository.
pub mod Names
pub mod Listing
use gitd.Prelude.{
  ℕ, ◌≡◌, refl, Bool, true, false, not, ◌||◌, ◌&&◌, List, [], ◌∷◌, ◌++◌, Bytes, codes, ◌==◌,
  if◌then◌else◌, leb, all, length, cut_suffix, Option, none, some, ltb, has_suffix, has_prefix,
  str_eq,
}
use gitd.Prelude.Result.{Result, ok, err, ◌>>=◌}
use gitd.Prelude.Sorted.{sort_strings}
use gitd.FilePath.{join_path, slash, clean}
use gitd.Os.{Node, dir, file, FileSystem, stat, OsError, not_exist, exist, io_error}

abbrev pub is_alnum : ℕ → Bool
is_alnum c = (leb b'A' c && leb c b'Z') || (leb b'a' c && leb c b'z') || (leb b'0' c && leb c b'9')

-- [A-Za-z0-9._-]
abbrev pub is_name_byte : ℕ → Bool
is_name_byte c = is_alnum c || c == b'.' || c == b'_' || c == b'-'

-- ^[A-Za-z0-9][A-Za-z0-9._-]{0,99}$
unfoldable pub valid_name : Bytes → Bool
valid_name [] = false
valid_name (c ∷ s) = is_alnum c && leb (length s) 99 && all is_name_byte s

abbrev pub dot_git : Bytes
dot_git = codes ".git"

-- `none` is the false result
unfoldable pub strip_dot_git : Bytes → Option Bytes
unfolding cut_suffix
strip_dot_git s = if ltb 4 (length s) then cut_suffix s dot_git else none

unfoldable pub normalize : Bytes → Bytes
unfolding strip_dot_git
normalize s = elim (strip_dot_git s) [ none ↦ s | some n ↦ n ]

-- the loop of IsBareRepo over the names that must be there
unfoldable pub has_layout : FileSystem → Bytes → List Bytes → Result OsError Bool
has_layout fs d [] = ok true
has_layout fs d (name ∷ names) =
    let rest = has_layout fs d names in
    elim (stat fs (join_path d name)) [ ok n ↦ rest | err not_exist ↦ ok false | err e ↦ err e ]

unfoldable pub is_bare_repo : FileSystem → Bytes → Result OsError Bool
unfolding has_layout
is_bare_repo fs d = has_layout fs d (codes "HEAD" ∷ codes "objects" ∷ codes "refs" ∷ [])

-- an entry of os.ReadDir: its name, and whether it is a directory
pub record DirEntry : Type 0 where
  pub name : Bytes
  pub is_dir : Bool

-- the body of the loop of ListBare: `none` is `continue`
unfoldable pub inspect : FileSystem → Bytes → DirEntry → Result OsError (Option Bytes)
inspect fs root e =
    if not e.is_dir || not (has_suffix e.name dot_git)
    then ok none
    else let name = normalize e.name in
      if not (valid_name name)
      then ok none
      else do bare ← is_bare_repo fs (join_path root e.name); ok (if bare then some name else none)

unfoldable pub collect : FileSystem → Bytes → List DirEntry → Result OsError (List Bytes)
collect fs root [] = ok []
collect fs root (e ∷ es) = do
  found ← inspect fs root e
  names ← collect fs root es
  ok (elim found [ none ↦ names | some name ↦ name ∷ names ])

-- ListBare, from what os.ReadDir of the root returned
unfoldable pub list_bare :
    FileSystem → Bytes → Result OsError (List DirEntry) → Result OsError (List Bytes)
list_bare fs root read_dir = do
  entries ← read_dir
  names ← collect fs root entries
  ok (sort_strings names)

pub data PathError : Type 0 where
  unresolved escapes : PathError

-- RealpathUnder, from what filepath.Abs and filepath.EvalSymlinks returned
unfoldable pub realpath_under : Option Bytes → Option Bytes → Result PathError Bytes
realpath_under none resolved = err unresolved
realpath_under (some root) none = err unresolved
realpath_under (some root) (some resolved) =
    let path = clean resolved in
    if not (str_eq path root) && not (has_prefix path (root ++ (slash ∷ [])))
    then err escapes
    else ok path
