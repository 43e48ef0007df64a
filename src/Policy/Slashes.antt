-- ===== src/Policy/Slashes.antt =====
-- The default glob "*" and the branches that have a slash in their name.
use gitd.Prelude.{
  ◌≡◌, true, false, none, some, Bool, Bytes, codes, [], ◌∷◌, contains_byte, cut_prefix, arith,
}
use gitd.Hooks.{RefLine}
use gitd.Policy.NonFastForward.{Ancestry, evaluate, guards, branch_prefix}

-- path.Match: a star does not match a slash
pub record StarStops (glob : Bytes → Bytes → Bool) : Type 0 where
  pub no_slash : (name : Bytes) → contains_byte b'/' name ≡ true → glob (codes "*") name ≡ false

guards-slash :
    (glob : Bytes → Bytes → Bool) (ancestry : Bytes → Bytes → Ancestry) (ref name : Bytes)
    → StarStops glob
    → cut_prefix ref branch_prefix ≡ some name
    → contains_byte b'/' name ≡ true
    → guards glob ancestry (codes "*" ∷ []) ref ≡ false
unfolding guards cut_prefix
guards-slash glob ancestry ref name law p h = rw (p, law.no_slash name h)

-- With a glob whose star stops at a slash, the default configuration accepts every update of a branch
-- with a slash in its name, whatever git says of the commits.
pub evaluate-slash :
    (glob : Bytes → Bytes → Bool) (ancestry : Bytes → Bytes → Ancestry) (r : RefLine) (name : Bytes)
    → StarStops glob
    → cut_prefix r.ref branch_prefix ≡ some name
    → contains_byte b'/' name ≡ true
    → evaluate glob ancestry (codes "*" ∷ []) r ≡ none
unfolding evaluate
evaluate-slash glob ancestry r name law p h =
    ground (arith, guards-slash glob ancestry r.ref name law p h)
