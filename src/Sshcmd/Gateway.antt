-- ===== src/Sshcmd/Gateway.antt =====
-- internal/sshcmd/gateway.go: the handler of one ssh session.
pub mod Gate
pub mod Create
use gitd.Prelude.{
  ℕ, ◌≡◌, refl, sym, ap, ◌∙◌, Bool, true, false, not, ◌&&◌, ◌||◌, List, [], ◌∷◌, ◌++◌, Bytes, codes,
  Option, none, some, arith, is_nil, if◌then◌else◌, Bool-cases, inl, inr, trim_space, str_eq,
}
use gitd.Prelude.Result.{Result, ok, err, ◌>>=◌, ◌>>◌, wrap, guard}
use gitd.FilePath.{clean, base, join_path}
use gitd.Os.{
  FileSystem, OsError, Node, dir, file, mkdir, stat, write_file, not_exist, exist, io_error,
}
use gitd.Disk
use gitd.Disk.{Statfs, DiskError, Headroom}
use gitd.Repo.{normalize, valid_name, is_bare_repo, dot_git}
use gitd.Sshcmd.Tokenize.{TokenizeError, parse_command}
use gitd.Sshcmd.Identity.{Identity, identity_from_env, env_get, complete, greeting}

pub data Op : Type 0 where
  upload_pack receive_pack : Op

abbrev pub op_name : Op → Bytes
op_name upload_pack = codes "git-upload-pack"
op_name receive_pack = codes "git-receive-pack"

pub data CreateError : Type 0 where
  init_failed description_failed hooks_missing not_bare : CreateError
  inspect_failed mkdir_failed : OsError → CreateError

pub data GatewayError : Type 0 where
  tokenize : TokenizeError → GatewayError
  bad_op : Bytes → GatewayError
  bad_arity : GatewayError
  bad_name : Bytes → GatewayError
  no_identity : GatewayError
  no_headroom : DiskError → GatewayError
  create : CreateError → GatewayError

-- What the handler does at the end: print the greeting, or run git on a directory.
pub data Action : Type 0 where
  greet : Bytes → Action
  run : Op → Bytes → Action

-- The configuration, and the effect of `git init --bare`, which is no code of this repository: whether
-- it succeeded, and what it leaves, also when it fails.
pub record GatewayConfig : Type 0 where
  pub repos_root : Bytes
  pub hooks_dir : Bytes
  pub headroom : Headroom
  pub git_init : FileSystem → Bytes → Bool × FileSystem

unfoldable pub repo_name_from_arg : Bytes → Result GatewayError Bytes
repo_name_from_arg arg =
    let b = base (clean arg) in
    let name = normalize b in if valid_name name then ok name else err (bad_name b)

-- an empty hooks directory switches the check off
unfoldable pub verify_hooks : FileSystem → Bytes → Result CreateError (Unit {0})
verify_hooks fs [] = ok tt
verify_hooks fs (c ∷ hooks) = elim (stat fs (c ∷ hooks)) [
  | ok dir ↦ ok tt
  | ok (file t) ↦ err hooks_missing
  | err e ↦ err hooks_missing
]

abbrev pub description : Bytes → Bytes
description name = name ++ codes " repository on git.cmposer.cc\n"

-- What follows a successful mkdir. Nothing is undone when a step fails.
unfoldable pub init_repo :
    GatewayConfig → Bytes → Bytes → FileSystem → Result CreateError (Unit {0}) × FileSystem
init_repo cfg name repo_dir fs =
    let (done, fs') = cfg.git_init fs repo_dir in
    elim done [
      | false ↦ (err init_failed, fs')
      | true ↦ elim (write_file fs' (join_path repo_dir (codes "description")) (description name)) [
        | err e ↦ (err description_failed, fs')
        | ok fs'' ↦ (verify_hooks fs'' cfg.hooks_dir, fs'')
      ]
    ]

unfoldable pub check_existing : FileSystem → Bytes → Result CreateError (Unit {0})
check_existing fs repo_dir = elim (is_bare_repo fs repo_dir) [
  | ok true ↦ ok tt
  | ok false ↦ err not_bare
  | err e ↦ err (inspect_failed e)
]

unfoldable pub push_to_create :
    GatewayConfig → Bytes → Bytes → FileSystem → Result CreateError (Unit {0}) × FileSystem
unfolding init_repo check_existing
push_to_create cfg name repo_dir fs = elim (mkdir fs repo_dir) [
  | ok fs' ↦ init_repo cfg name repo_dir fs'
  | err exist ↦ (check_existing fs repo_dir, fs)
  | err e ↦ (err (mkdir_failed e), fs)
]

-- the switch on the operation: anything else is refused
unfoldable pub op_of : Bytes → Result GatewayError Op
op_of word =
    if str_eq word (op_name upload_pack)
    then ok upload_pack
    else if str_eq word (op_name receive_pack)
    then ok receive_pack
    else err (bad_op word)

abbrev one_arg : List Bytes → Result GatewayError Bytes
one_arg (arg ∷ []) = ok arg
one_arg _ = err bad_arity

-- the checks in front of any effect
unfoldable pub authorize : Identity → Bytes → List Bytes → Result GatewayError (Op × Bytes)
unfolding op_of repo_name_from_arg
authorize ident word rest = do
  op ← op_of word
  arg ← one_arg rest
  name ← repo_name_from_arg arg
  guard (complete ident) no_identity
  ok (op, name)

-- receive-pack checks the disk and makes a missing repository
unfoldable pub prepare :
    GatewayConfig
    → Option Statfs
    → Op
    → Bytes
    → Bytes
    → FileSystem
    → Result GatewayError (Unit {0}) × FileSystem
prepare cfg st upload_pack name repo_dir fs = (ok tt, fs)
prepare cfg st receive_pack name repo_dir fs = elim (Disk.check cfg.headroom st) [
  | err e ↦ (err (no_headroom e), fs)
  | ok warned ↦ let (r, fs') = push_to_create cfg name repo_dir fs in (wrap create r, fs')
]

abbrev pub run_if : Op → Bytes → Result GatewayError (Unit {0}) → Result GatewayError Action
run_if op repo_dir (ok u) = ok (run op repo_dir)
run_if op repo_dir (err e) = err e

unfoldable pub serve_op :
    GatewayConfig
    → Option Statfs
    → Op
    → Bytes
    → FileSystem
    → Result GatewayError Action × FileSystem
serve_op cfg st op name fs =
    let repo_dir = join_path cfg.repos_root (name ++ dot_git) in
    let (r, fs') = prepare cfg st op name repo_dir fs in (run_if op repo_dir r, fs')

unfoldable pub serve_git :
    GatewayConfig
    → Option Statfs
    → Identity
    → Bytes
    → List Bytes
    → FileSystem
    → Result GatewayError Action × FileSystem
serve_git cfg st ident word rest fs = elim (authorize ident word rest) [
  | err e ↦ (err e, fs)
  | ok (op, name) ↦ serve_op cfg st op name fs
]

unfoldable pub serve_args :
    GatewayConfig
    → Option Statfs
    → Identity
    → List Bytes
    → FileSystem
    → Result GatewayError Action × FileSystem
serve_args cfg st ident [] fs = (ok (greet (greeting ident)), fs)
serve_args cfg st ident (word ∷ rest) fs = serve_git cfg st ident word rest fs

unfoldable pub serve_parsed :
    GatewayConfig
    → Option Statfs
    → Identity
    → Result TokenizeError (List Bytes)
    → FileSystem
    → Result GatewayError Action × FileSystem
serve_parsed cfg st ident (err e) fs = (err (tokenize e), fs)
serve_parsed cfg st ident (ok args) fs = serve_args cfg st ident args fs

-- Serve: `st` is what statfs of the root reports. Writing the greeting and what git does when it
-- runs are outside the model.
unfoldable pub serve :
    GatewayConfig
    → Option Statfs
    → List Bytes
    → FileSystem
    → Result GatewayError Action × FileSystem
serve cfg st env fs =
    let ident = identity_from_env env in
    let raw = env_get env (codes "SSH_ORIGINAL_COMMAND") in
    if is_nil (trim_space raw)
    then (ok (greet (greeting ident)), fs)
    else serve_parsed cfg st ident (parse_command raw) fs
