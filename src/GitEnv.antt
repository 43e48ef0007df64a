-- ===== src/GitEnv.antt =====
-- internal/gitenv/gitenv.go: the environment that git runs with, and what a run comes to. A process is
-- a function of its program, directory, environment and arguments.
use gitd.Prelude.{
  inr, inl, Bool-cases, ◌≡◌, refl, ◌||◌, List, [], ◌∷◌, ◌++◌, Bytes, codes, Option, none, some,
  if◌then◌else◌, str_eq, is_nil, has_prefix, trim_space, select,
}

-- Runner
pub record Runner : Type 0 where
  pub git_bin : Bytes
  pub home : Bytes
  pub path : Bytes
  pub object_format : Bytes

-- NewRunner, with the PATH of the process
unfoldable pub new_runner : Bytes → Bytes → Bytes → Bytes → Runner
new_runner env_path git_bin home path = record {
  git_bin = git_bin;
  home = home;
  path = if is_nil path then env_path else path;
  object_format = [];
}

-- Runner.WithObjectFormat
unfoldable pub with_object_format : Runner → Bytes → Runner
with_object_format r f =
    if str_eq f (codes "sha1") || str_eq f (codes "sha256")
    then record r { object_format = f }
    else r

abbrev pub hash_entry : Bytes → List Bytes
hash_entry f = if is_nil f then [] else (codes "GIT_DEFAULT_HASH=" ++ f) ∷ []

-- Runner.env
unfoldable pub env : Runner → List Bytes
env r =
    codes "LC_ALL=C"
    ∷ codes "TZ=UTC"
    ∷ codes "GIT_CONFIG_SYSTEM=/etc/gitconfig"
    ∷ codes "GIT_CONFIG_GLOBAL=/dev/null"
    ∷ codes "GIT_TERMINAL_PROMPT=0"
    ∷ (codes "HOME=" ++ r.home)
    ∷ (hash_entry r.object_format ++ ((codes "PATH=" ++ r.path) ∷ []))

-- What a process leaves: its output, and where it failed its error output and how it failed.
pub record Outcome : Type 0 where
  pub out : Bytes
  pub failure : Option (Bytes × Bytes)

abbrev pub Process : Type 0
Process = Bytes → Bytes → List Bytes → List Bytes → Outcome

abbrev pub message : Bytes × Bytes → Bytes
message (stderr, reason) = if is_nil (trim_space stderr) then reason else trim_space stderr

-- Runner.run: the output, and the message of a failure
unfoldable pub run_command : Process → Runner → Bytes → Bytes → List Bytes → Bytes × Option Bytes
run_command process r name dir args =
    let o = process name dir (env r) args in
    elim o.failure [ none ↦ (o.out, none) | some f ↦ (o.out, some (message f)) ]

-- Runner.Run
abbrev pub run_git : Process → Runner → List Bytes → Bytes × Option Bytes
run_git process r args = run_command process r r.git_bin [] args

-- the settings of git that are in the environment
abbrev pub git_settings : List Bytes → List Bytes
git_settings = select (λ e. has_prefix e (codes "GIT_"))

-- The settings of git are the three that are pinned and, where the format of objects is a known one,
-- that format: the caller's HOME and PATH add none.
pub env-settings :
    (env_path git_bin home path f : Bytes)
    → git_settings (env (with_object_format (new_runner env_path git_bin home path) f))
      ≡ codes "GIT_CONFIG_SYSTEM=/etc/gitconfig"
        ∷ codes "GIT_CONFIG_GLOBAL=/dev/null"
        ∷ codes "GIT_TERMINAL_PROMPT=0"
        ∷ (if str_eq f (codes "sha1") || str_eq f (codes "sha256")
            then (codes "GIT_DEFAULT_HASH=" ++ f) ∷ []
            else [])
unfolding env with_object_format new_runner has_prefix str_eq
env-settings env_path git_bin home path [] = refl
env-settings env_path git_bin home path (c ∷ f) =
    elim (Bool-cases (str_eq (c ∷ f) (codes "sha1") || str_eq (c ∷ f) (codes "sha256"))) [
      | inl e ↦ rw e refl
      | inr e ↦ rw e refl
    ]
