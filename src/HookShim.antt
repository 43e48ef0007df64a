-- ===== src/HookShim.antt =====
-- internal/hookshim/hookshim.go: the program that a hook of git runs. `exec` gives how the child ended.
use gitd.Prelude.{◌≡◌, refl, List, [], ◌∷◌, Bytes, codes, Option, none, some, if◌then◌else◌, str_eq}
use gitd.Prelude.Int.{ℤ, pos}
use gitd.FilePath.{base}

-- gitdConfig and gitdBinary
abbrev pub gitd_config : Bytes
gitd_config = codes "/etc/gitd/gitd.yaml"

abbrev pub gitd_binary : Bytes
gitd_binary = codes "/usr/local/bin/gitd"

-- subcommandFor
unfoldable pub subcommand_for : Bytes → Option Bytes
subcommand_for bin =
    let name = base bin in
    if str_eq name (codes "pre-receive")
    then some (codes "pre-receive")
    else if str_eq name (codes "post-receive")
    then some (codes "notify")
    else none

pub data Ending : Type 0 where
  finished not_started : Ending
  -- the code, -1 for a child that a signal ended
  exited_with : ℤ → Ending

abbrev pub code_of : Ending → ℤ
code_of finished = pos 0
code_of (exited_with n) = n
code_of not_started = pos 1

-- Run
unfoldable pub run_hook : (Bytes → List Bytes → Ending) → List Bytes → ℤ
run_hook exec [] = pos 1
run_hook exec (bin ∷ args) = elim (subcommand_for bin) [
  | none ↦ pos 1
  | some sub ↦ code_of (exec gitd_binary (sub ∷ codes "--config" ∷ gitd_config ∷ []))
]

run_hook_example :
    run_hook
      (λ bin args. elim args [
        | [] ↦ finished
        | a ∷ rest ↦ if str_eq a (codes "notify") then exited_with (pos 3) else finished
      ])
      (codes "/usr/local/lib/gitd/hooks/post-receive" ∷ [])
    ≡ pos 3
unfolding run_hook subcommand_for base str_eq
run_hook_example = refl
