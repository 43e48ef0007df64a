-- ===== src/Mirror/Restore.antt =====
-- internal/mirror/mirror.go: a repository restored from its latest bundle.
pub mod Cleanup
use gitd.Prelude.{
  Bool, true, false, not, ◌&&◌, List, [], ◌∷◌, ◌++◌, Bytes, codes, Option, none, some,
  if◌then◌else◌, is_nil, has_prefix, split, fields, last?,
}
use gitd.Prelude.Result.{Result, ok, err, ◌>>=◌, wrap}
use gitd.FilePath.{join_path}
use gitd.Os.{FileSystem, OsError, Node, stat, mkdir_all, remove_all}
use gitd.Repo.{valid_name, dot_git}
use gitd.ObjectStore.{ObjectStore}
use gitd.Mirror.{Mirror, MirrorError, store_failed, list_bundles}
use gitd.Mirror.Header.{Format, bundle_object_format}

pub data FetchError : Type 0 where
  bad_repo already_exists no_bundles bad_header init_failed not_applicable unbundle_failed :
      FetchError
  update_ref_failed : Bytes → FetchError
  repoint_failed : FetchError
  mkdir_failed : OsError → FetchError
  mirror_failed : MirrorError → FetchError

-- The git commands of a restore, each with what it leaves in the file system, also when it fails, and
-- filepath.Dir.
pub record RestoreGit : Type 0 where
  pub dir_of : Bytes → Bytes
  pub init_bare : FileSystem → Format → Bytes → Bool × FileSystem
  pub verify : FileSystem → Bytes → Bytes → Bool × FileSystem
  pub unbundle : FileSystem → Bytes → Bytes → Option Bytes × FileSystem
  pub update_ref : FileSystem → Bytes → Bytes → Bytes → Bool × FileSystem
  pub head_resolves : FileSystem → Bytes → Bool
  pub symbolic_ref : FileSystem → Bytes → Bytes → Bool × FileSystem

-- a line of the listing: the object id and the ref below refs/
abbrev pub ref_of : List Bytes → Option (Bytes × Bytes)
ref_of (sha ∷ ref ∷ []) = if has_prefix ref (codes "refs/") then some (sha, ref) else none
ref_of _ = none

abbrev pub first_branch : Bytes → Bytes → Bytes
first_branch first ref = if is_nil first && has_prefix ref (codes "refs/heads/") then ref else first

-- the loop of unbundle: the first branch, and the refs updated so far
unfoldable pub update_refs :
    RestoreGit → Bytes → List Bytes → Bytes → FileSystem → Result FetchError Bytes × FileSystem
update_refs g dest [] first fs = (ok first, fs)
update_refs g dest (line ∷ lines) first fs = elim (ref_of (fields line)) [
  | none ↦ update_refs g dest lines first fs
  | some (sha, ref) ↦
      let (done, fs') = g.update_ref fs dest ref sha in
      elim done [
        | false ↦ (err (update_ref_failed ref), fs')
        | true ↦ update_refs g dest lines (first_branch first ref) fs'
      ]
]

abbrev pub or_fail : FetchError → Bool × FileSystem → Result FetchError (Unit {0}) × FileSystem
or_fail e (true, fs) = (ok tt, fs)
or_fail e (false, fs) = (err e, fs)

-- a dangling HEAD is pointed at the first branch
unfoldable pub repoint :
    RestoreGit → Bytes → Bytes → FileSystem → Result FetchError (Unit {0}) × FileSystem
repoint g dest [] fs = (ok tt, fs)
repoint g dest (c ∷ first) fs =
    if g.head_resolves fs dest
    then (ok tt, fs)
    else or_fail repoint_failed (g.symbolic_ref fs dest (c ∷ first))

abbrev pub then_repoint :
    RestoreGit
    → Bytes
    → Result FetchError Bytes × FileSystem
    → Result FetchError (Unit {0}) × FileSystem
then_repoint g dest (err e, fs) = (err e, fs)
then_repoint g dest (ok first, fs) = repoint g dest first fs

abbrev pub with_listing :
    RestoreGit → Bytes → Option Bytes × FileSystem → Result FetchError (Unit {0}) × FileSystem
with_listing g dest (none, fs) = (err unbundle_failed, fs)
with_listing g dest (some out, fs) =
    then_repoint g dest (update_refs g dest (split out b'\n') [] fs)

-- Mirror.unbundle
unfoldable pub unbundle :
    RestoreGit → Bytes → Bytes → FileSystem → Result FetchError (Unit {0}) × FileSystem
unbundle g dest bundle fs = with_listing g dest (g.unbundle fs dest bundle)

abbrev pub checked :
    RestoreGit → Bytes → Bytes → Bool × FileSystem → Result FetchError (Unit {0}) × FileSystem
checked g dest bundle (false, fs) = (err not_applicable, fs)
checked g dest bundle (true, fs) = unbundle g dest bundle fs

-- the deferred removal: what was made is removed unless everything succeeded
abbrev pub or_remove :
    Bytes → Result FetchError (Unit {0}) × FileSystem → Result FetchError (Unit {0}) × FileSystem
or_remove dest (ok u, fs) = (ok u, fs)
or_remove dest (err e, fs) = (err e, (remove_all fs dest).1)

abbrev pub initialized :
    RestoreGit → Bytes → Bytes → Bool × FileSystem → Result FetchError (Unit {0}) × FileSystem
initialized g dest bundle (false, fs) = (err init_failed, fs)
initialized g dest bundle (true, fs) =
    or_remove dest (checked g dest bundle (g.verify fs dest bundle))

-- from the downloaded bundle on
unfoldable pub install :
    RestoreGit → Bytes → Bytes → FileSystem → Result FetchError (Unit {0}) × FileSystem
install g dest bundle fs = elim (bundle_object_format bundle) [
  | none ↦ (err bad_header, fs)
  | some format ↦ initialized g dest bundle (g.init_bare fs format dest)
]

abbrev pub is_present : Result OsError Node → Bool
is_present (ok n) = true
is_present (err e) = false

abbrev pub install_latest :
    RestoreGit
    → Bytes
    → Result FetchError Bytes
    → FileSystem
    → Result FetchError (Unit {0}) × FileSystem
install_latest g dest (err e) fs = (err e, fs)
install_latest g dest (ok bundle) fs = install g dest bundle fs

abbrev pub with_parent :
    RestoreGit
    → Bytes
    → Result FetchError Bytes
    → Result OsError (Unit {0}) × FileSystem
    → Result FetchError (Unit {0}) × FileSystem
with_parent g dest latest (err e, fs) = (err (mkdir_failed e), fs)
with_parent g dest latest (ok u, fs) = install_latest g dest latest fs

module _ {S : Type 0} (store : ObjectStore S) where
  abbrev get_latest : S → Option Bytes → Result FetchError Bytes
  get_latest s none = err no_bundles
  get_latest s (some key) = wrap (λ e. mirror_failed (store_failed e)) (store.get key s)

  -- the bytes of the latest bundle
  unfoldable pub latest_bundle : Mirror → Bytes → S → Result FetchError Bytes
  latest_bundle m name s = do
    keys ← wrap mirror_failed (list_bundles store m name s)
    get_latest s (last? keys)

  -- Mirror.Fetch
  unfoldable pub fetch :
      Mirror
      → RestoreGit
      → Bytes
      → Bytes
      → S
      → FileSystem
      → Result FetchError (Unit {0}) × FileSystem
  fetch m g name dest s fs =
      if not (valid_name name)
      then (err bad_repo, fs)
      else if is_present (stat fs dest)
      then (err already_exists, fs)
      else with_parent g dest (latest_bundle m name s) (mkdir_all fs (g.dir_of dest))

  -- Mirror.Restore
  unfoldable pub restore :
      Mirror → RestoreGit → Bytes → S → FileSystem → Result FetchError (Unit {0}) × FileSystem
  restore m g name s fs = fetch m g name (join_path m.repos_root (name ++ dot_git)) s fs
