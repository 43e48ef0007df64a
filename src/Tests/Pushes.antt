-- ===== src/Tests/Pushes.antt =====
-- A push to a hook, and the policies that judge it.
use gitd.Prelude.{none, ap, not, contains_byte}
use gitd.Policy.NonFastForward.{not_ancestor}
use gitd.Policy.Slashes.{StarStops, evaluate-slash}
use gitd.Hooks.{is_zero_sha}
use gitd.Prelude.{cut_prefix}
use gitd.Hooks.{parse_all}
use gitd.Hooks.{parse_line}
use gitd.Prelude.{trim_space}
use gitd.Prelude.{text_end}
use gitd.Prelude.{trim_left}
use gitd.Prelude.{space_width}
use gitd.Hooks.{parse_fields}
use gitd.Prelude.{fields}
use gitd.Prelude.{fields_from}
use gitd.Hooks.PreReceive.{check_policies}
use gitd.Hooks.{drop_cr}
use gitd.Hooks.{scan_raw}
use gitd.Prelude.{split}
use gitd.Prelude.{has_prefix}
use gitd.Prelude.{arith}
use gitd.Prelude.{
  ◌≡◌, refl, List, [], ◌∷◌, ◌++◌, Bytes, codes, true, false, All, Option, some, ◌↔◌, Bool, str_eq,
}
use gitd.Prelude.Result.{ok}
use gitd.Disk
use gitd.Disk.{Statfs, Headroom}
use gitd.Hooks.{RefLine, parse_strict, parse_ref_lines, scan_lines, valid_sha}
use gitd.Hooks.Lines.{parse_strict_iff, AllReadable}
use gitd.Hooks.RoundTrip.{parse_strict-format_lines, format_lines, IsSendable}
use gitd.Hooks.PreReceive.{run_iff, run, Passes, PreReceive, run-FastForwards, FastForwards}
use gitd.Policy
use gitd.Policy.{Policy, BuildError, build}
use gitd.Policy.Engine.{evaluate_iff, Accepts}
use gitd.Policy.NonFastForward
use gitd.Policy.NonFastForward.{Ancestry, is_ancestor, not_ancestor}

abbrev sha_a : Bytes
sha_a = codes "aaaaaaaaaaaaaaaaaaaaaaaaaaaaaaaaaaaaaaaa"

abbrev sha_b : Bytes
sha_b = codes "bbbbbbbbbbbbbbbbbbbbbbbbbbbbbbbbbbbbbbbb"

abbrev update : RefLine
update = record { old = sha_a; new = sha_b; ref = codes "refs/heads/main" }

abbrev good_input : Bytes
good_input = format_lines (update ∷ [])

abbrev mixed_input : Bytes
mixed_input = codes "hello\n" ++ format_lines (update ∷ [])

-- git says yes for one pair of commits
abbrev test_ancestry : Bytes → Bytes → Ancestry
test_ancestry old new = elim (str_eq new sha_b) [ true ↦ is_ancestor | false ↦ not_ancestor ]

abbrev any_branch : Bytes → Bytes → Bool
any_branch glob name = true

abbrev headroom : Headroom
headroom = record { min_free = 10; warn_free = 20 }

abbrev roomy : Option Statfs
roomy = some (record { bavail = 100; bsize = 4 })

abbrev hook : PreReceive
hook = record {
  headroom = headroom;
  engine = some (NonFastForward.evaluate any_branch test_ancestry (codes "main" ∷ []) ∷ []);
}

update-IsSendable : IsSendable update
unfolding valid_sha has_prefix
update-IsSendable = record {
  old_sha = refl;
  new_sha = refl;
  in_refs = refl;
  printable = refl;
  room = omega arith;
}

parse_strict-format_lines_example : parse_strict good_input ≡ ok (update ∷ [])
parse_strict-format_lines_example = parse_strict-format_lines (update ∷ []) (update-IsSendable, tt)

parse_strict_iff_example : (parse_strict good_input ≡ ok (update ∷ [])) ↔ (
    AllReadable (scan_lines good_input).lines
    × ((scan_lines good_input).failed ≡ false)
    × (update ∷ [] ≡ parse_ref_lines good_input))
parse_strict_iff_example = parse_strict_iff good_input (update ∷ [])

run_iff_example : (run hook roomy good_input ≡ ok tt) ↔ (
    AllReadable (scan_lines good_input).lines
    × ((scan_lines good_input).failed ≡ false)
    × ((warned : Bool) × (Disk.check headroom roomy ≡ ok warned))
    × Passes hook.engine (parse_ref_lines good_input))
run_iff_example = run_iff hook roomy good_input

run-FastForwards_example :
    All (FastForwards any_branch test_ancestry (codes "main" ∷ [])) (parse_ref_lines good_input)
unfolding run parse_strict parse_all scan_lines parse_line trim_space text_end trim_left space_width
    parse_fields fields fields_from valid_sha has_prefix Disk.check check_policies Policy.evaluate
    Disk.free_bytes drop_cr scan_raw Policy.all_rejections Policy.rejections split
    NonFastForward.evaluate is_zero_sha NonFastForward.guards cut_prefix str_eq
run-FastForwards_example =
    run-FastForwards any_branch test_ancestry (codes "main" ∷ []) headroom roomy good_input refl

abbrev test_policies : List Policy
test_policies = NonFastForward.evaluate any_branch test_ancestry (codes "main" ∷ []) ∷ []

evaluate_iff_example :
    (Policy.evaluate test_policies (update ∷ []) ≡ []) ↔ All (Accepts test_policies) (update ∷ [])
evaluate_iff_example = evaluate_iff test_policies (update ∷ [])

-- a star that stops at a slash, and no other glob
abbrev star : Bytes → Bytes → Bool
star glob name = not (contains_byte b'/' name)

star-StarStops : StarStops star
star-StarStops = record { no_slash = λ name h. ap not h }

evaluate-slash_example :
    NonFastForward.evaluate star
      (λ old new. not_ancestor)
      (codes "*" ∷ [])
      (record { old = sha_a; new = sha_b; ref = codes "refs/heads/feature/x" })
    ≡ none
unfolding cut_prefix
evaluate-slash_example =
    evaluate-slash star (λ old new. not_ancestor)
      (record { old = sha_a; new = sha_b; ref = codes "refs/heads/feature/x" }) (codes "feature/x")
      star-StarStops refl refl
