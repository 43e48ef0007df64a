-- ===== src/Hooks/Lines.antt =====
-- The strict reading of ref lines in internal/cli/pre_receive.go and the lenient one in
-- internal/cli/notify.go.
use gitd.Prelude.{
  ◌≡◌, refl, true, false, List, [], ◌∷◌, Bytes, if◌then◌else◌, arith, All, has_prefix, ◌↔◌,
  trim_space, fields,
}
use gitd.Prelude.Result.{>>=-eq-ok, ok, err}
use gitd.Hooks.{
  read_failed, RefLine, Parsed, blank, malformed, good, valid_sha, refs_prefix, parse_fields,
  parse_line, keep_good, parse_all, parse_ref_lines, parse_strict, scan_lines,
}

-- A ref line with two object ids and a ref below refs/.
pub record IsWellFormed (r : RefLine) : Type 0 where
  pub old_sha : valid_sha r.old ≡ true
  pub new_sha : valid_sha r.new ≡ true
  pub in_refs : has_prefix r.ref refs_prefix ≡ true

parse_fields-IsWellFormed :
    (line : Bytes) (fs : List Bytes) (r : RefLine) → parse_fields line fs ≡ good r → IsWellFormed r
unfolding parse_fields
parse_fields-IsWellFormed line (old ∷ new ∷ ref ∷ []) r h = record {
  old_sha = ground arith;
  new_sha = ground arith;
  in_refs = ground arith;
}
parse_fields-IsWellFormed line _ r h = cc h

parse_line-IsWellFormed : (l : Bytes) (r : RefLine) → parse_line l ≡ good r → IsWellFormed r
unfolding parse_line
parse_line-IsWellFormed l r h =
    parse_fields-IsWellFormed (trim_space l) (fields (trim_space l)) r (ground arith)

keep_good-IsWellFormed : (ls : List Bytes) → All IsWellFormed (keep_good ls)
unfolding keep_good
keep_good-IsWellFormed [] = tt
keep_good-IsWellFormed (l ∷ ls) = on_line (parse_line l) refl (keep_good-IsWellFormed ls)
  where
    on_line :
        (p : Parsed)
        → parse_line l ≡ p
        → All IsWellFormed (keep_good ls)
        → All IsWellFormed (keep_good (l ∷ ls))
    on_line blank e h = rw (e, keep_good) h
    on_line (malformed m) e h = rw (e, keep_good) h
    on_line (good r) e h = rw (e, keep_good) (parse_line-IsWellFormed l r e, h)

-- Every ref line that notify reads has two object ids, of 40 or 64 hexadecimal digits, and a ref
-- that starts with refs/.
parse_ref_lines-IsWellFormed : (s : Bytes) → All IsWellFormed (parse_ref_lines s)
unfolding parse_ref_lines
parse_ref_lines-IsWellFormed s = keep_good-IsWellFormed (scan_lines s).lines

abbrev IsMalformed : Parsed → Type 0
IsMalformed (malformed m) = Unit
IsMalformed _ = ⊥

-- no line is malformed
abbrev pub AllReadable : List Bytes → Type 0
AllReadable = All (λ l. ¬ IsMalformed (parse_line l))

-- the strict reading succeeds with what the lenient reading keeps, if every line can be read
parse_all-readable : (ls : List Bytes) → AllReadable ls → parse_all ls ≡ ok (keep_good ls)
unfolding parse_all keep_good
parse_all-readable [] h = refl
parse_all-readable (l ∷ ls) (h, hs) = on_line (parse_line l) refl (parse_all-readable ls hs)
  where
    on_line :
        (p : Parsed)
        → parse_line l ≡ p
        → parse_all ls ≡ ok (keep_good ls)
        → parse_all (l ∷ ls) ≡ ok (keep_good (l ∷ ls))
    on_line blank e ih = rw (e, parse_all, keep_good) ih
    on_line (malformed m) e ih = absurd (h (rw e tt))
    on_line (good r) e ih = rw (e, parse_all, keep_good) (rw ih)

readable-parse_all : (ls : List Bytes) (rs : List RefLine) → parse_all ls ≡ ok rs → AllReadable ls
unfolding parse_all
readable-parse_all [] rs h = tt
readable-parse_all (l ∷ ls) rs h = on_line (parse_line l) refl (readable-parse_all ls) h
  where
    on_line :
        (p : Parsed)
        → parse_line l ≡ p
        → ((rs' : List RefLine) → parse_all ls ≡ ok rs' → AllReadable ls)
        → parse_all (l ∷ ls) ≡ ok rs
        → AllReadable (l ∷ ls)
    on_line blank e ih k = rw e (λ x. x, ih rs (rw (e, parse_all) at k))
    on_line (malformed m) e ih k = cc (rw (e, parse_all) at k)
    on_line (good r) e ih k =
        let (rs', p, q) = >>=-eq-ok (parse_all ls) (λ t. ok (r ∷ t)) (rw (e, parse_all) at k) in
        rw e (λ x. x, ih rs' p)

-- pre-receive accepts the input exactly when every line can be read and no line is too long, and
-- then it reads what notify reads.
pub parse_strict_iff :
    (s : Bytes) (rs : List RefLine)
    → (parse_strict s ≡ ok rs) ↔ (
        AllReadable (scan_lines s).lines
        × ((scan_lines s).failed ≡ false)
        × (rs ≡ parse_ref_lines s))
unfolding parse_strict parse_ref_lines
parse_strict_iff s rs = (forth, back)
  where
    forth :
        parse_strict s ≡ ok rs
        → AllReadable (scan_lines s).lines
          × ((scan_lines s).failed ≡ false)
          × (rs ≡ parse_ref_lines s)
    forth h =
        let (rs', p, q) =
          >>=-eq-ok (parse_all (scan_lines s).lines)
            (λ t. if (scan_lines s).failed then err read_failed else ok t) h in
        let r = readable-parse_all (scan_lines s).lines rs' p in
        (r, ground arith, ground (arith, parse_all-readable (scan_lines s).lines r))

    back :
        AllReadable (scan_lines s).lines
          × ((scan_lines s).failed ≡ false)
          × (rs ≡ parse_ref_lines s)
        → parse_strict s ≡ ok rs
    back (r, f, e) = rw (e, parse_all-readable (scan_lines s).lines r, f)
