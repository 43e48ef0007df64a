-- ===== src/Policy.antt =====
-- internal/webhook/policy.go: the pre-receive policies, built from the configuration.
pub mod NonFastForward
pub mod Engine
pub mod Slashes
use gitd.Prelude.{
  ℕ, ◌≡◌, refl, Bool, true, false, not, ◌&&◌, ◌||◌, List, [], ◌∷◌, ◌++◌, Bytes, codes, Option, none,
  some, if◌then◌else◌, is_nil,
}
use gitd.Prelude.Map.{Map, lookup}
use gitd.Prelude.Result.{Result, ok, err, ◌>>=◌}
use gitd.Hooks.{RefLine}

pub data PolicyError : Type 0 where
  rejected check_failed : PolicyError

-- A policy: `none` accepts the line.
abbrev pub Policy : Type 0
Policy = RefLine → Option PolicyError

-- the value of one policy's key in gitd.yaml, as the YAML decoder leaves it
mutual
  pub data Yaml : Type 0 where
    null : Yaml
    text : Bytes → Yaml
    list : YamlList → Yaml
    mapping : YamlMap → Yaml
    other : Yaml

  pub data YamlList : Type 0 where
    empty : YamlList
    item : Yaml → YamlList → YamlList

  pub data YamlMap : Type 0 where
    end : YamlMap
    entry : Bytes → Yaml → YamlMap → YamlMap

pub data BuildError : Type 0 where
  unknown_policy not_mapping bad_config : Bytes → BuildError

-- A constructor gets the mapping of its key, or none where the key is absent or null.
abbrev pub PolicyConstructor : Type 0
PolicyConstructor = Option YamlMap → Option Policy

pub record PoliciesConfig : Type 0 where
  pub enabled : List Bytes
  pub config : Map Yaml

unfoldable pub raw_config : Bytes → Option Yaml → Result BuildError (Option YamlMap)
raw_config name none = ok none
raw_config name (some null) = ok none
raw_config name (some (mapping m)) = ok (some m)
raw_config name (some (text t)) = err (not_mapping name)
raw_config name (some (list l)) = err (not_mapping name)
raw_config name (some other) = err (not_mapping name)

abbrev or_error {ℓ} : {A : Type ℓ} → BuildError → Option A → Result BuildError A
or_error e none = err e
or_error e (some a) = ok a

-- the body of the loop of Build
unfoldable pub build_one : Map PolicyConstructor → Map Yaml → Bytes → Result BuildError Policy
build_one registry config name = do
  c ← or_error (unknown_policy name) (lookup name registry)
  raw ← raw_config name (lookup name config)
  or_error (bad_config name) (c raw)

-- PolicyEngine.Build
unfoldable pub build :
    Map PolicyConstructor → Map Yaml → List Bytes → Result BuildError (List Policy)
build registry config [] = ok []
build registry config (name ∷ names) = do
  p ← build_one registry config name
  ps ← build registry config names
  ok (p ∷ ps)

-- the rejections of one line, in the order of the policies
unfoldable pub rejections : List Policy → RefLine → List (Bytes × PolicyError)
rejections [] line = []
rejections (p ∷ ps) line =
    let rest = rejections ps line in elim (p line) [ none ↦ rest | some e ↦ (line.ref, e) ∷ rest ]

unfoldable pub all_rejections : List Policy → List RefLine → List (Bytes × PolicyError)
all_rejections ps [] = []
all_rejections ps (l ∷ ls) = rejections ps l ++ all_rejections ps ls

-- PolicyEngine.Evaluate: the joined errors, none when there is nothing to reject
unfoldable pub evaluate : List Policy → List RefLine → List (Bytes × PolicyError)
evaluate [] lines = []
evaluate (p ∷ ps) lines = all_rejections (p ∷ ps) lines
