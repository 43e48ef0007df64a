-- ===== src/Policy/NonFastForward.antt =====
-- internal/webhook/policies/nonfastforward: pushes to guarded branches must fast-forward.
use gitd.Prelude.{
  Bool, false, not, ◌||◌, List, [], ◌∷◌, Bytes, codes, Option, none, some, if◌then◌else◌, any,
  cut_prefix, str_eq,
}
use gitd.Hooks.{is_zero_sha}
use gitd.Policy.{
  Policy, PolicyError, rejected, check_failed, Yaml, YamlList, YamlMap, text, list, empty, item,
  end, entry,
}

abbrev pub policy_name : Bytes
policy_name = codes "non-fast-forward"

abbrev pub branch_prefix : Bytes
branch_prefix = codes "refs/heads/"

-- How `git merge-base --is-ancestor` ended: with exit status 0, with 1, in any other way.
pub data Ancestry : Type 0 where
  is_ancestor not_ancestor failed : Ancestry

-- the globs of the list, if every entry is a text
unfoldable pub globs_of : YamlList → Option (List Bytes)
globs_of empty = some []
globs_of (item (text g) rest) =
    let gs = globs_of rest in elim gs [ none ↦ none | some l ↦ some (g ∷ l) ]
globs_of (item y rest) = none

unfoldable pub branches_key : YamlMap → Option Yaml
branches_key end = none
branches_key (entry k v m) =
    let rest = branches_key m in if str_eq k (codes "branches") then some v else rest

-- a missing key guards every branch; anything but a list of texts is refused
unfoldable pub branches_of : Option YamlMap → Option (List Bytes)
unfolding branches_key globs_of
branches_of none = some (codes "*" ∷ [])
branches_of (some m) = elim (branches_key m) [
  | none ↦ some (codes "*" ∷ [])
  | some (list l) ↦ globs_of l
  | some _ ↦ none
]

-- `glob` is path.Match, with its error read as no match; `ancestry` is the run of git.
module _ (glob : Bytes → Bytes → Bool) (ancestry : Bytes → Bytes → Ancestry) where
  unfoldable pub guards : List Bytes → Bytes → Bool
  guards branches ref = elim (cut_prefix ref branch_prefix) [
    | none ↦ false
    | some name ↦ any (λ g. glob g name) branches
  ]

  abbrev verdict : Ancestry → Option PolicyError
  verdict is_ancestor = none
  verdict not_ancestor = some rejected
  verdict failed = some check_failed

  -- Policy.Evaluate
  unfoldable pub evaluate : List Bytes → Policy
  evaluate branches line =
      if is_zero_sha line.old || is_zero_sha line.new
      then none
      else if not (guards branches line.ref)
      then none
      else verdict (ancestry line.old line.new)

  -- New
  unfoldable pub new : Option YamlMap → Option Policy
  new cfg = elim (branches_of cfg) [ none ↦ none | some branches ↦ some (evaluate branches) ]
