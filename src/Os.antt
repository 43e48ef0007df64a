-- ===== src/Os.antt =====
-- The file system as the program sees it through package os: a node for each path that is there,
-- the paths on which the system reports an error other than "not found", and those that cannot be
-- removed.
pub mod Laws
use gitd.Prelude.{
  any, not, ◌&&◌, ◌==◌, is_nil, List, [], ◌∷◌, codes, str_eq, has_prefix, ◌||◌, ◌++◌, Bool, Bytes,
  if◌then◌else◌, Option, none, some,
}
use gitd.Prelude.Map.{Map, lookup, insert, erase_where}
use gitd.Prelude.Result.{Result, ok, err}

pub data Node : Type 0 where
  dir : Node
  file : Bytes → Node

pub data OsError : Type 0 where
  not_exist exist io_error : OsError

pub record FileSystem : Type 0 where
  pub nodes : Map Node
  pub broken : Bytes → Bool
  -- the paths that a removal leaves, since they or something below them cannot be removed
  pub stuck : Bytes → Bool

abbrev stat_node : Option Node → Result OsError Node
stat_node none = err not_exist
stat_node (some n) = ok n

-- os.Stat
unfoldable pub stat : FileSystem → Bytes → Result OsError Node
stat fs p = if fs.broken p then err io_error else stat_node (lookup p fs.nodes)

-- os.Mkdir: made only where nothing is at the path
unfoldable pub mkdir : FileSystem → Bytes → Result OsError FileSystem
mkdir fs p = if fs.broken p then err io_error else elim (lookup p fs.nodes) [
  | none ↦ ok (record fs { nodes = insert p dir fs.nodes })
  | some n ↦ err exist
]

-- os.WriteFile
unfoldable pub write_file : FileSystem → Bytes → Bytes → Result OsError FileSystem
write_file fs p text = if fs.broken p then err io_error else elim (lookup p fs.nodes) [
  | some dir ↦ err io_error
  | _ ↦ ok (record fs { nodes = insert p (file text) fs.nodes })
]

-- the path and its parents, the innermost first
unfoldable pub parents : List Bytes → Bytes → Bytes → List Bytes
parents outer seen [] = seen ∷ outer
parents outer seen (c ∷ s) =
    parents (if c == b'/' && not (is_nil seen) then seen ∷ outer else outer) (seen ++ (c ∷ [])) s

-- a Mkdir that failed is no error where a directory has come to be
abbrev or_there :
    FileSystem → Bytes → Result OsError FileSystem → Result OsError (Unit {0}) × FileSystem
or_there fs p (ok made) = (ok tt, made)
or_there fs p (err e) = elim (stat fs p) [ ok dir ↦ (ok tt, fs) | _ ↦ (err e, fs) ]

abbrev make_dir :
    Bytes → Result OsError (Unit {0}) × FileSystem → Result OsError (Unit {0}) × FileSystem
make_dir p (err e, fs) = (err e, fs)
make_dir p (ok u, fs) = or_there fs p (mkdir fs p)

unfoldable pub make_dirs : FileSystem → List Bytes → Result OsError (Unit {0}) × FileSystem
make_dirs fs [] = (ok tt, fs)
make_dirs fs (p ∷ ps) = elim (stat fs p) [
  | ok dir ↦ (ok tt, fs)
  | ok (file t) ↦ (err exist, fs)
  | err e ↦ make_dir p (make_dirs fs ps)
]

-- os.MkdirAll: what was made before an error stays
unfoldable pub mkdir_all : FileSystem → Bytes → Result OsError (Unit {0}) × FileSystem
mkdir_all fs p = make_dirs fs (parents [] [] p)

-- the path itself or a path below it
abbrev pub is_under : Bytes → Bytes → Bool
is_under d p = str_eq p d || has_prefix p (d ++ codes "/")

-- os.RemoveAll: an error if something stays
unfoldable pub remove_all : FileSystem → Bytes → Result OsError (Unit {0}) × FileSystem
remove_all fs d = (
  (if any (λ e. is_under d e.0 && fs.stuck e.0) fs.nodes then err io_error else ok tt),
  record fs { nodes = erase_where (λ p. is_under d p && not (fs.stuck p)) fs.nodes },
)
