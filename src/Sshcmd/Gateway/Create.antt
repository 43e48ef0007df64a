-- ===== src/Sshcmd/Gateway/Create.antt =====
-- Push-to-create in internal/sshcmd/gateway.go.
use gitd.Prelude.{Bool, false, true, ◌≢◌, ◌≡◌, refl, Bytes, codes, arith, inl, inr, ◌⊎◌}
use gitd.Prelude.Result.{Result, ok, err}
use gitd.FilePath.{join_path}
use gitd.Os.{FileSystem, OsError, exist, io_error, not_exist, mkdir, write_file, stat}
use gitd.Os.Laws.{IsThere, mkdir-IsThere, write_file-IsThere}
use gitd.Repo.{is_bare_repo}
use gitd.Sshcmd.Gateway.{
  GatewayConfig, CreateError, hooks_missing, init_repo, check_existing, push_to_create, description,
}

-- What the gateway relies on `git init --bare` for: the directory is there, with the bare layout.
pub record InitsBare (cfg : GatewayConfig) : Type 0 where
  pub makes :
      (fs : FileSystem) (d : Bytes)
      → (cfg.git_init fs d).0 ≡ true
      → IsThere (cfg.git_init fs d).1 d
        × IsThere (cfg.git_init fs d).1 (join_path d (codes "HEAD"))
        × IsThere (cfg.git_init fs d).1 (join_path d (codes "objects"))
        × IsThere (cfg.git_init fs d).1 (join_path d (codes "refs"))

is_bare_repo-IsThere :
    (fs : FileSystem) (d : Bytes)
    → IsThere fs (join_path d (codes "HEAD"))
    → IsThere fs (join_path d (codes "objects"))
    → IsThere fs (join_path d (codes "refs"))
    → is_bare_repo fs d ≡ ok true
unfolding is_bare_repo stat
is_bare_repo-IsThere fs d h o r = ground arith

-- a repository that is there and bare
abbrev Made : FileSystem → Bytes → Type 0
Made fs d = (is_bare_repo fs d ≡ ok true) × IsThere fs d

Made-of_written :
    (cfg : GatewayConfig) (name d : Bytes) (fs fs'' : FileSystem)
    → InitsBare cfg
    → (cfg.git_init fs d).0 ≡ true
    → write_file (cfg.git_init fs d).1 (join_path d (codes "description")) (description name)
      ≡ ok fs''
    → Made fs'' d
Made-of_written cfg name d fs fs'' law p w =
    let keep =
      write_file-IsThere (cfg.git_init fs d).1 fs'' (join_path d (codes "description"))
        (description name) in
    let (top, head, objects, refs) = law.makes fs d p in
    (
      is_bare_repo-IsThere fs'' d (keep (join_path d (codes "HEAD")) w head)
          (keep (join_path d (codes "objects")) w objects)
          (keep (join_path d (codes "refs")) w refs),
      keep d w top,
    )

-- a creation that got as far as looking for the hooks
abbrev GotToHooks : Result CreateError (Unit {0}) → Type 0
GotToHooks r = (r ≡ ok tt) ⊎ (r ≡ err hooks_missing)

init_repo-Made :
    (cfg : GatewayConfig) (name d : Bytes) (fs : FileSystem)
    → InitsBare cfg
    → GotToHooks (init_repo cfg name d fs).0
    → Made (init_repo cfg name d fs).1 d
unfolding init_repo
init_repo-Made cfg name d fs law = on_init (cfg.git_init fs d).0 refl
  where
    on_write :
        (r : Result OsError FileSystem)
        → (cfg.git_init fs d).0 ≡ true
        → write_file (cfg.git_init fs d).1 (join_path d (codes "description")) (description name)
          ≡ r
        → GotToHooks (init_repo cfg name d fs).0
        → Made (init_repo cfg name d fs).1 d
    on_write (err e) p w = rw (p, init_repo, w) (λ h. ground arith)
    on_write (ok fs'') p w = rw (p, init_repo, w) (λ h. Made-of_written cfg name d fs fs'' law p w)

    on_init :
        (b : Bool)
        → (cfg.git_init fs d).0 ≡ b
        → GotToHooks (init_repo cfg name d fs).0
        → Made (init_repo cfg name d fs).1 d
    on_init false p = rw (p, init_repo) (λ h. ground arith)
    on_init true p =
        on_write
          (write_file (cfg.git_init fs d).1 (join_path d (codes "description")) (description name))
          p refl

check_existing-bare :
    (fs : FileSystem) (d : Bytes) → check_existing fs d ≡ ok tt → is_bare_repo fs d ≡ ok true
unfolding check_existing
check_existing-bare fs d h = ground arith

not_hooks_missing : (fs : FileSystem) (d : Bytes) → check_existing fs d ≢ err hooks_missing
unfolding check_existing
not_hooks_missing fs d h = ground arith

-- With a `git init` that makes bare repositories, a successful push-to-create leaves one at the
-- directory, whether it made it or found it.
pub push_to_create-bare :
    (cfg : GatewayConfig) (name d : Bytes) (fs : FileSystem)
    → InitsBare cfg
    → (push_to_create cfg name d fs).0 ≡ ok tt
    → is_bare_repo (push_to_create cfg name d fs).1 d ≡ ok true
unfolding push_to_create
push_to_create-bare cfg name d fs law = on_mkdir (mkdir fs d) refl
  where
    on_mkdir :
        (r : Result OsError FileSystem)
        → mkdir fs d ≡ r
        → (push_to_create cfg name d fs).0 ≡ ok tt
        → is_bare_repo (push_to_create cfg name d fs).1 d ≡ ok true
    on_mkdir (ok fs') p =
        rw (p, push_to_create) (λ h. (init_repo-Made cfg name d fs' law (inl h)).0)
    on_mkdir (err exist) p = rw (p, push_to_create) (λ h. check_existing-bare fs d h)
    on_mkdir (err io_error) p = rw (p, push_to_create) (λ h. cc h)
    on_mkdir (err not_exist) p = rw (p, push_to_create) (λ h. cc h)

push_to_create-exist :
    (cfg : GatewayConfig) (name d : Bytes) (fs : FileSystem)
    → Made fs d
    → push_to_create cfg name d fs ≡ (ok tt, fs)
unfolding push_to_create check_existing
push_to_create-exist cfg name d fs (bare, there) =
    rw (mkdir-IsThere fs d there, push_to_create) (rw (bare, check_existing))

-- With a `git init` that makes bare repositories: when the hooks directory is missing, the push
-- that creates a repository fails and leaves it in place, and the next push to it succeeds: the
-- hooks are not looked for again.
pub push_to_create_again :
    (cfg : GatewayConfig) (name d : Bytes) (fs : FileSystem)
    → InitsBare cfg
    → (push_to_create cfg name d fs).0 ≡ err hooks_missing
    → push_to_create cfg name d (push_to_create cfg name d fs).1
      ≡ (ok tt, (push_to_create cfg name d fs).1)
unfolding push_to_create
push_to_create_again cfg name d fs law h =
    push_to_create-exist cfg name d (push_to_create cfg name d fs).1 (made (mkdir fs d) refl h)
  where
    made :
        (r : Result OsError FileSystem)
        → mkdir fs d ≡ r
        → (push_to_create cfg name d fs).0 ≡ err hooks_missing
        → Made (push_to_create cfg name d fs).1 d
    made (ok fs') p = rw (p, push_to_create) (λ h. init_repo-Made cfg name d fs' law (inr h))
    made (err exist) p = rw (p, push_to_create) (λ h. absurd (not_hooks_missing fs d h))
    made (err io_error) p = rw (p, push_to_create) (λ h. cc h)
    made (err not_exist) p = rw (p, push_to_create) (λ h. cc h)
