-- ===== src/Hooks/PreReceive.antt =====
-- internal/cli/pre_receive.go: the gates of a push, in order.
use gitd.Prelude.{
  ◌≡◌, refl, ◌↔◌, Bool, true, false, List, [], ◌∷◌, Bytes, Option, none, some, All, arith,
}
use mathlib.Core.Path.{subst}
use gitd.Prelude.Result.{wrap-eq-ok, Result, ok, err, ◌>>=◌, >>=-eq-ok, wrap}
use gitd.Disk
use gitd.Disk.{Statfs, DiskError, Headroom}
use gitd.Hooks.{RefLine, HookError, parse_strict, parse_ref_lines, scan_lines, is_zero_sha}
use gitd.Hooks.Lines.{parse_strict_iff, AllReadable}
use gitd.Policy
use gitd.Policy.{Policy, PolicyError}
use gitd.Policy.Engine.{Accepts, evaluate_iff}
use gitd.Policy.NonFastForward
use gitd.Policy.NonFastForward.{Ancestry, is_ancestor, not_ancestor, failed, guards}

pub data PushError : Type 0 where
  bad_input : HookError → PushError
  no_headroom : DiskError → PushError
  policies : List (Bytes × PolicyError) → PushError

-- A missing engine has no policies.
pub record PreReceive : Type 0 where
  pub headroom : Headroom
  pub engine : Option (List Policy)

abbrev none_or_policies : List (Bytes × PolicyError) → Result PushError (Unit {0})
none_or_policies [] = ok tt
none_or_policies (e ∷ es) = err (policies (e ∷ es))

unfoldable pub check_policies : Option (List Policy) → List RefLine → Result PushError (Unit {0})
check_policies none refs = ok tt
check_policies (some ps) refs = none_or_policies (Policy.evaluate ps refs)

-- preReceive.Run: the strict parse, the disk, the policies
unfoldable pub run : PreReceive → Option Statfs → Bytes → Result PushError (Unit {0})
run p st stdin = do
  refs ← wrap bad_input (parse_strict stdin)
  warned ← wrap no_headroom (Disk.check p.headroom st)
  check_policies p.engine refs

-- what every policy of the engine accepts
abbrev pub Passes : Option (List Policy) → List RefLine → Type 0
Passes none refs = Unit
Passes (some ps) refs = All (Accepts ps) refs

none_or_policies-nil : (es : List (Bytes × PolicyError)) → none_or_policies es ≡ ok tt → es ≡ []
none_or_policies-nil [] h = refl
none_or_policies-nil (e ∷ es) h = cc h

check_policies_iff :
    (engine : Option (List Policy)) (refs : List RefLine)
    → (check_policies engine refs ≡ ok tt) ↔ Passes engine refs
unfolding check_policies
check_policies_iff none refs = (λ h. tt, λ h. refl)
check_policies_iff (some ps) refs = (
  λ h. (evaluate_iff ps refs).0 (none_or_policies-nil (Policy.evaluate ps refs) h),
  λ h. rw ((evaluate_iff ps refs).1 h),
)

-- the gates of `run`, one by one
abbrev Gates : PreReceive → Option Statfs → Bytes → Type 0
Gates p st stdin =
    AllReadable (scan_lines stdin).lines
    × ((scan_lines stdin).failed ≡ false)
    × ((warned : Bool) × (Disk.check p.headroom st ≡ ok warned))
    × Passes p.engine (parse_ref_lines stdin)

run-Gates :
    (p : PreReceive) (st : Option Statfs) (stdin : Bytes)
    → run p st stdin ≡ ok tt
    → Gates p st stdin
unfolding run
run-Gates p st stdin h =
    let (refs, a, h1) =
      >>=-eq-ok (wrap bad_input (parse_strict stdin))
        (λ refs. wrap no_headroom (Disk.check p.headroom st) >>= λ w. check_policies p.engine refs)
        h in
    let (warned, b, h2) =
      >>=-eq-ok (wrap no_headroom (Disk.check p.headroom st)) (λ w. check_policies p.engine refs)
        h1 in
    let (readable, whole, e) =
      (parse_strict_iff stdin refs).0 (wrap-eq-ok bad_input (parse_strict stdin) a) in
    (
      readable,
      whole,
      (warned, wrap-eq-ok no_headroom (Disk.check p.headroom st) b),
      subst (Passes p.engine) e ((check_policies_iff p.engine refs).0 h2),
    )

Gates-run :
    (p : PreReceive) (st : Option Statfs) (stdin : Bytes)
    → Gates p st stdin
    → run p st stdin ≡ ok tt
unfolding run
Gates-run p st stdin (readable, whole, (warned, d), passes) = rw (
  (parse_strict_iff stdin (parse_ref_lines stdin)).1 (readable, whole, refl),
  d,
  (check_policies_iff p.engine (parse_ref_lines stdin)).1 passes,
)

-- A push is accepted exactly when every line of the input can be read and none is too long, the disk
-- has headroom, and every policy accepts every line.
pub run_iff :
    (p : PreReceive) (st : Option Statfs) (stdin : Bytes)
    → (run p st stdin ≡ ok tt) ↔ (
        AllReadable (scan_lines stdin).lines
        × ((scan_lines stdin).failed ≡ false)
        × ((warned : Bool) × (Disk.check p.headroom st ≡ ok warned))
        × Passes p.engine (parse_ref_lines stdin))
run_iff p st stdin = (run-Gates p st stdin, Gates-run p st stdin)

module _ (glob : Bytes → Bytes → Bool) (ancestry : Bytes → Bytes → Ancestry)
    (branches : List Bytes) where
  -- an update of a guarded branch that neither makes nor deletes it goes forward
  abbrev pub FastForwards : RefLine → Type 0
  FastForwards r =
      is_zero_sha r.old ≡ false
      → is_zero_sha r.new ≡ false
      → guards glob ancestry branches r.ref ≡ true
      → ancestry r.old r.new ≡ is_ancestor

  accepted-FastForwards :
      (r : RefLine) → NonFastForward.evaluate glob ancestry branches r ≡ none → FastForwards r
  unfolding NonFastForward.evaluate
  accepted-FastForwards r h a b c = ground arith

  All-FastForwards :
      (rs : List RefLine)
      → All (Accepts (NonFastForward.evaluate glob ancestry branches ∷ [])) rs
      → All FastForwards rs
  All-FastForwards [] h = tt
  All-FastForwards (r ∷ rs) ((a, _), hs) = (accepted-FastForwards r a, All-FastForwards rs hs)

  -- With the non-fast-forward policy, every update of an accepted push to a guarded branch goes
  -- forward, unless it makes or deletes the branch: where git cannot tell, the push is rejected.
  pub run-FastForwards :
      (headroom : Headroom) (st : Option Statfs) (stdin : Bytes)
      → run
          (record {
            headroom = headroom;
            engine = some (NonFastForward.evaluate glob ancestry branches ∷ []);
          })
          st
          stdin
        ≡ ok tt
      → All FastForwards (parse_ref_lines stdin)
  run-FastForwards headroom st stdin h =
      All-FastForwards (parse_ref_lines stdin)
        (run-Gates
          (record {
            headroom = headroom;
            engine = some (NonFastForward.evaluate glob ancestry branches ∷ []);
          })
          st stdin h).3
