-- ===== src/Sshcmd/Gateway/Gate.antt =====
-- Serve of internal/sshcmd/gateway.go: the checks in front of git, and the changes to the file
-- system.
use gitd.Sshcmd.Gateway.{serve_parsed, run_if}
use gitd.Sshcmd.Gateway.{serve_op}
use gitd.Prelude.{◌⊎◌, inl, inr, Bool-cases, is_nil, trim_space, refl, ◌≢◌}
use gitd.Prelude.{
  ◌≡◌, refl, ap, ◌∙◌, Bool, true, List, [], ◌∷◌, ◌++◌, Bytes, codes, Option, arith, is_nil,
  Bool-cases, inl, inr, ◌⊎◌, trim_space, str_eq,
}
use gitd.Prelude.Result.{Result, ok, err}
use gitd.FilePath.{base, join_path, slash}
use gitd.FilePath.Laws.{base-clean-append, base-join_path}
use gitd.Os.{FileSystem}
use gitd.Disk
use gitd.Disk.{DiskError, Statfs, DiskError, Headroom}
use gitd.Repo.{valid_name, dot_git}
use gitd.Repo.Names.{normalize-dot_git, valid_name-ne_nil, valid_name-IsPlain_dot_git}
use gitd.Sshcmd.Tokenize.{TokenizeError, parse_command}
use gitd.Sshcmd.Identity.{Identity, identity_from_env, env_get, complete}
use gitd.Sshcmd.Gateway.{
  Op, upload_pack, receive_pack, op_name, op_of, GatewayError, Action, run, GatewayConfig,
  repo_name_from_arg, authorize, prepare, serve_git, serve_args, serve, push_to_create,
}

-- Every spelling of the path of a valid repository, below any directory, gives its name.
pub repo_name_from_arg-append :
    (u n : Bytes) → valid_name n ≡ true → repo_name_from_arg (u ++ (slash ∷ (n ++ dot_git))) ≡ ok n
unfolding repo_name_from_arg
repo_name_from_arg-append u n h = rw (
  base-clean-append u (n ++ dot_git) (valid_name-IsPlain_dot_git n h),
  normalize-dot_git n (valid_name-ne_nil n h),
  h,
)

pub repo_name_from_arg-valid : (arg n : Bytes) → repo_name_from_arg arg ≡ ok n → valid_name n ≡ true
unfolding repo_name_from_arg
repo_name_from_arg-valid arg n h = ground arith

op_of-name : (word : Bytes) (op : Op) → op_of word ≡ ok op → str_eq word (op_name op) ≡ true
unfolding op_of
op_of-name word op h = ground arith

-- What `authorize` has checked of the words of the command.
pub record IsAuthorized (ident : Identity) (word : Bytes) (rest : List Bytes) (op : Op)
    (name : Bytes) : Type 0 where
  pub named : str_eq word (op_name op) ≡ true
  pub arg : Bytes
  pub only : rest ≡ arg ∷ []
  pub from_arg : repo_name_from_arg arg ≡ ok name
  pub valid : valid_name name ≡ true
  pub identified : complete ident ≡ true

authorize-none :
    (ident : Identity) (word : Bytes) (op : Op) (name : Bytes)
    → authorize ident word [] ≢ ok (op, name)
unfolding authorize
authorize-none ident word op name h = ground arith

authorize-many :
    (ident : Identity) (word u v : Bytes) (rest : List Bytes) (op : Op) (name : Bytes)
    → authorize ident word (u ∷ v ∷ rest) ≢ ok (op, name)
unfolding authorize
authorize-many ident word u v rest op name h = ground arith

authorize-one :
    (ident : Identity) (word arg : Bytes) (op : Op) (name : Bytes)
    → authorize ident word (arg ∷ []) ≡ ok (op, name)
    → (op_of word ≡ ok op) × (repo_name_from_arg arg ≡ ok name) × (complete ident ≡ true)
unfolding authorize
authorize-one ident word arg op name h = (ground arith, ground arith, ground arith)

authorize-IsAuthorized :
    (ident : Identity) (word : Bytes) (rest : List Bytes) (op : Op) (name : Bytes)
    → authorize ident word rest ≡ ok (op, name)
    → IsAuthorized ident word rest op name
authorize-IsAuthorized ident word [] op name h = absurd (authorize-none ident word op name h)
authorize-IsAuthorized ident word (u ∷ v ∷ rest) op name h =
    absurd (authorize-many ident word u v rest op name h)
authorize-IsAuthorized ident word (arg ∷ []) op name h =
    let (p, q, r) = authorize-one ident word arg op name h in
    record {
      named = op_of-name word op p;
      arg = arg;
      only = refl;
      from_arg = q;
      valid = repo_name_from_arg-valid arg name q;
      identified = r;
    }

-- What stands behind a git process that the gateway starts.
pub record IsGranted (cfg : GatewayConfig) (st : Option Statfs) (env : List Bytes) (op : Op)
    (d : Bytes) : Type 0 where
  pub name : Bytes
  pub word : Bytes
  pub rest : List Bytes
  pub parsed : parse_command (env_get env (codes "SSH_ORIGINAL_COMMAND")) ≡ ok (word ∷ rest)
  pub authorized : IsAuthorized (identity_from_env env) word rest op name
  pub target : d ≡ join_path cfg.repos_root (name ++ dot_git)
  pub own_element : base d ≡ name ++ dot_git
  pub disk : (op ≡ receive_pack) → (warned : Bool) × (Disk.check cfg.headroom st ≡ ok warned)

prepare-disk :
    (cfg : GatewayConfig) (st : Option Statfs) (op : Op) (name d : Bytes) (fs : FileSystem)
    → (prepare cfg st op name d fs).0 ≡ ok tt
    → op ≡ receive_pack
    → (warned : Bool) × (Disk.check cfg.headroom st ≡ ok warned)
unfolding prepare
prepare-disk cfg st op name d fs h e = ground arith

serve_git-authorize :
    (cfg : GatewayConfig) (st : Option Statfs) (ident : Identity) (word : Bytes) (rest : List Bytes)
    (fs : FileSystem) (op : Op) (d : Bytes)
    → (serve_git cfg st ident word rest fs).0 ≡ ok (run op d)
    → (p : Op × Bytes) × (authorize ident word rest ≡ ok p)
      × ((serve_op cfg st p.0 p.1 fs).0 ≡ ok (run op d))
unfolding serve_git
serve_git-authorize cfg st ident word rest fs op d h = ground arith

run_if-eq :
    (op op' : Op) (d d' : Bytes) (r : Result GatewayError (Unit {0}))
    → run_if op' d' r ≡ ok (run op d)
    → (op ≡ op') × (d ≡ d') × (r ≡ ok tt)
run_if-eq op op' d d' (ok u) h = (cc h, cc h, refl)
run_if-eq op op' d d' (err e) h = (cc h, cc h, cc h)

serve_git-run :
    (cfg : GatewayConfig) (st : Option Statfs) (ident : Identity) (word : Bytes) (rest : List Bytes)
    (fs : FileSystem) (op : Op) (d : Bytes)
    → (serve_git cfg st ident word rest fs).0 ≡ ok (run op d)
    → (name : Bytes) × (authorize ident word rest ≡ ok (op, name))
      × (d ≡ join_path cfg.repos_root (name ++ dot_git))
      × ((prepare cfg st op name d fs).0 ≡ ok tt)
unfolding serve_op
serve_git-run cfg st ident word rest fs op d h =
    let ((op', name), a, q) = serve_git-authorize cfg st ident word rest fs op d h in
    let dir = join_path cfg.repos_root (name ++ dot_git) in
    let (e, t, r) = run_if-eq op op' d dir (prepare cfg st op' name dir fs).0 q in
    (name, rw e a, t, rw (e, t) r)

serve-parsed :
    (cfg : GatewayConfig) (st : Option Statfs) (env : List Bytes) (fs : FileSystem) (op : Op)
    (d : Bytes)
    → (serve cfg st env fs).0 ≡ ok (run op d)
    → (word : Bytes) × (rest : List Bytes) × (parse_command
          (env_get env (codes "SSH_ORIGINAL_COMMAND"))
        ≡ ok (word ∷ rest))
      × ((serve_git cfg st (identity_from_env env) word rest fs).0 ≡ ok (run op d))
unfolding serve serve_parsed serve_args
serve-parsed cfg st env fs op d h = ground arith

-- If the gateway runs git, the command was one of the two operations with exactly one argument, the
-- argument names a valid repository, the pusher's key and certificate are known, the directory is
-- <root>/<name>.git, and for a push the disk has headroom.
pub serve-IsGranted :
    (cfg : GatewayConfig) (st : Option Statfs) (env : List Bytes) (fs : FileSystem) (op : Op)
    (d : Bytes)
    → (serve cfg st env fs).0 ≡ ok (run op d)
    → IsGranted cfg st env op d
serve-IsGranted cfg st env fs op d h =
    let (word, rest, p, q) = serve-parsed cfg st env fs op d h in
    let (name, a, t, r) = serve_git-run cfg st (identity_from_env env) word rest fs op d q in
    let auth = authorize-IsAuthorized (identity_from_env env) word rest op name a in
    record {
      name = name;
      word = word;
      rest = rest;
      parsed = p;
      authorized = auth;
      target = t;
      own_element =
          ap base t
          ∙ base-join_path cfg.repos_root (name ++ dot_git)
              (valid_name-IsPlain_dot_git name auth.valid);
      disk = prepare-disk cfg st op name d fs r;
    }

-- The push of an authorized session past the disk check: the only way to `push_to_create`.
pub record IsPush (cfg : GatewayConfig) (st : Option Statfs) (env : List Bytes)
    (fs fs' : FileSystem) : Type 0 where
  pub name : Bytes
  pub word : Bytes
  pub rest : List Bytes
  pub parsed : parse_command (env_get env (codes "SSH_ORIGINAL_COMMAND")) ≡ ok (word ∷ rest)
  pub authorized : IsAuthorized (identity_from_env env) word rest receive_pack name
  pub warned : Bool
  pub disk : Disk.check cfg.headroom st ≡ ok warned
  pub created : fs' ≡ (push_to_create cfg name (join_path cfg.repos_root (name ++ dot_git)) fs).1

abbrev Changes :
    GatewayConfig
    → Option Statfs
    → List Bytes
    → FileSystem
    → Result GatewayError Action × FileSystem
    → Type 0
Changes cfg st env fs r = (r.1 ≡ fs) ⊎ IsPush cfg st env fs r.1

serve_op-Changes :
    (cfg : GatewayConfig) (st : Option Statfs) (env : List Bytes) (word : Bytes) (rest : List Bytes)
    (fs : FileSystem) (op : Op) (name : Bytes)
    → parse_command (env_get env (codes "SSH_ORIGINAL_COMMAND")) ≡ ok (word ∷ rest)
    → IsAuthorized (identity_from_env env) word rest op name
    → Changes cfg st env fs (serve_op cfg st op name fs)
unfolding serve_op prepare
serve_op-Changes cfg st env word rest fs upload_pack name c a = inl refl
serve_op-Changes cfg st env word rest fs receive_pack name c a =
    on_disk (Disk.check cfg.headroom st) refl
  where
    on_disk :
        (r : Result DiskError Bool)
        → Disk.check cfg.headroom st ≡ r
        → Changes cfg st env fs (serve_op cfg st receive_pack name fs)
    on_disk (err e) p = inl (rw (p, prepare))
    on_disk (ok w) p = inr (record {
      name = name;
      word = word;
      rest = rest;
      parsed = c;
      authorized = a;
      warned = w;
      disk = p;
      created = rw (p, prepare);
    })

serve_git-Changes :
    (cfg : GatewayConfig) (st : Option Statfs) (env : List Bytes) (word : Bytes) (rest : List Bytes)
    (fs : FileSystem)
    → parse_command (env_get env (codes "SSH_ORIGINAL_COMMAND")) ≡ ok (word ∷ rest)
    → Changes cfg st env fs (serve_git cfg st (identity_from_env env) word rest fs)
unfolding serve_git
serve_git-Changes cfg st env word rest fs c =
    on_auth (authorize (identity_from_env env) word rest) refl
  where
    on_auth :
        (r : Result GatewayError (Op × Bytes))
        → authorize (identity_from_env env) word rest ≡ r
        → Changes cfg st env fs (serve_git cfg st (identity_from_env env) word rest fs)
    on_auth (err e) p = inl (rw (p, serve_git))
    on_auth (ok (op, name)) p =
        rw (p, serve_git)
          (serve_op-Changes cfg st env word rest fs op name c
            (authorize-IsAuthorized (identity_from_env env) word rest op name p))

serve_parsed-Changes :
    (cfg : GatewayConfig) (st : Option Statfs) (env : List Bytes)
    (r : Result TokenizeError (List Bytes)) (fs : FileSystem)
    → parse_command (env_get env (codes "SSH_ORIGINAL_COMMAND")) ≡ r
    → Changes cfg st env fs (serve_parsed cfg st (identity_from_env env) r fs)
unfolding serve_parsed serve_args
serve_parsed-Changes cfg st env (err e) fs c = inl refl
serve_parsed-Changes cfg st env (ok []) fs c = inl refl
serve_parsed-Changes cfg st env (ok (word ∷ rest)) fs c =
    serve_git-Changes cfg st env word rest fs c

-- A session changes the file system only by `push_to_create`, where SSH_ORIGINAL_COMMAND is an
-- authorized push of a valid name and the disk has headroom; every other session leaves
-- it as it was.
pub serve-changes :
    (cfg : GatewayConfig) (st : Option Statfs) (env : List Bytes) (fs : FileSystem)
    → ((serve cfg st env fs).1 ≡ fs) ⊎ IsPush cfg st env fs (serve cfg st env fs).1
unfolding serve
serve-changes cfg st env fs =
    elim (Bool-cases (is_nil (trim_space (env_get env (codes "SSH_ORIGINAL_COMMAND"))))) [
      | inl e ↦ inl (rw e)
      | inr e ↦ rw e (
          serve_parsed-Changes cfg st env
            (parse_command (env_get env (codes "SSH_ORIGINAL_COMMAND"))) fs refl)
    ]
