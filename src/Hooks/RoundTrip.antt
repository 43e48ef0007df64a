-- ===== src/Hooks/RoundTrip.antt =====
-- The ref lines of internal/cli/pre_receive.go as git writes them.
use gitd.Prelude.{
  ℕ, ◌<◌, ◌≡◌, refl, sym, ap, ◌∙◌, Bool, true, false, List, [], ◌∷◌, ◌++◌, Bytes, arith, all,
  is_nil, split, length, length-append, all-append, All, has_prefix, trim_space, contains_byte,
  lt→ltb, map,
}
use mathlib.Core.Path.{subst}
use mathlib.Core.List.{append_assoc}
use gitd.Prelude.Result.{ok}
use gitd.Prelude.Split.{split-plain, split-append}
use gitd.Prelude.Fields.{is_printable, is_plain, IsWord, fields-three, trim_space-trimmed}
use gitd.Hooks.{
  RefLine, good, valid_sha, is_hex, refs_prefix, parse_fields, parse_line, parse_all, parse_strict,
  scan_lines, scan_raw, drop_cr, max_token,
}

-- "<old> <new> <ref>"
abbrev pub format_line : RefLine → Bytes
format_line r = r.old ++ (b' ' ∷ (r.new ++ (b' ' ∷ r.ref)))

-- each line with its newline
abbrev pub format_lines : List RefLine → Bytes
format_lines [] = []
format_lines (r ∷ rs) = format_line r ++ (b'\n' ∷ format_lines rs)

-- Two object ids, and a printable ref below refs/ that leaves room in the scanner's buffer.
pub record IsSendable (r : RefLine) : Type 0 where
  pub old_sha : valid_sha r.old ≡ true
  pub new_sha : valid_sha r.new ≡ true
  pub in_refs : has_prefix r.ref refs_prefix ≡ true
  pub printable : all is_printable r.ref ≡ true
  pub room : length r.ref < 65000

all-weaken :
    (p q : ℕ → Bool) (s : Bytes)
    → ((c : ℕ) → p c ≡ true → q c ≡ true)
    → all p s ≡ true
    → all q s ≡ true
all-weaken p q [] w h = refl
all-weaken p q (c ∷ s) w h = ground (arith, w c, all-weaken p q s w)

hex-printable : (c : ℕ) → is_hex c ≡ true → is_printable c ≡ true
hex-printable c h = ground arith

valid_sha-IsWord : (s : Bytes) → valid_sha s ≡ true → IsWord s
unfolding valid_sha
valid_sha-IsWord [] h = cc h
valid_sha-IsWord (c ∷ s) h =
    (all-weaken is_hex is_printable (c ∷ s) hex-printable (ground arith), refl)

valid_sha-length : (s : Bytes) → valid_sha s ≡ true → length s < 65
unfolding valid_sha
valid_sha-length s h = ground arith

ref-IsWord : (r : RefLine) → IsSendable r → IsWord r.ref
unfolding has_prefix
ref-IsWord r h = (h.printable, ground (arith, h.in_refs))

printable-plain : (c : ℕ) → is_printable c ≡ true → is_plain c ≡ true
printable-plain c h = ground arith

-- a word followed by more text, seen from its first byte; the same from its last byte
word-ends :
    (w : Bytes)
    → IsWord w
    → (x : Bytes) × (d : ℕ) × (w ≡ x ++ (d ∷ []))
      × (all is_plain x ≡ true)
      × (is_printable d ≡ true)
word-ends [] (h, n) = cc n
word-ends (c ∷ []) (h, n) = ([], c, refl, refl, ground arith)
word-ends (c ∷ d ∷ w) (h, n) =
    let (x, e, p, q, r) = word-ends (d ∷ w) (ground arith, refl) in
    (c ∷ x, e, ap (λ l. c ∷ l) p, ground (arith, printable-plain c), r)

all_append :
    (p : ℕ → Bool) (xs ys : Bytes) → all p xs ≡ true → all p ys ≡ true → all p (xs ++ ys) ≡ true
all_append p xs ys hx hy = rw (all-append p xs ys, hx, hy)

line-snoc :
    (u v x : Bytes) (d : ℕ)
    → u ++ (32 ∷ (v ++ (32 ∷ (x ++ (d ∷ []))))) ≡ (u ++ (32 ∷ (v ++ (32 ∷ x)))) ++ (d ∷ [])
line-snoc u v x d = simp append_assoc

trim-ends :
    (c : ℕ) (u v x : Bytes) (d : ℕ)
    → is_printable c ≡ true
    → all is_plain u ≡ true
    → all is_plain v ≡ true
    → all is_plain x ≡ true
    → is_printable d ≡ true
    → trim_space (c ∷ (u ++ (32 ∷ (v ++ (32 ∷ (x ++ (d ∷ [])))))))
      ≡ c ∷ (u ++ (32 ∷ (v ++ (32 ∷ (x ++ (d ∷ []))))))
trim-ends c u v x d hc hu hv hx hd = rw (line-snoc u v x d) (
    trim_space-trimmed c (u ++ (32 ∷ (v ++ (32 ∷ x)))) d hc
      (all_append is_plain u (32 ∷ (v ++ (32 ∷ x))) hu (all_append is_plain v (32 ∷ x) hv hx)) hd)

-- a line of words is trimmed
trim-line :
    (u v w : Bytes)
    → IsWord u
    → IsWord v
    → IsWord w
    → trim_space (u ++ (32 ∷ (v ++ (32 ∷ w)))) ≡ u ++ (32 ∷ (v ++ (32 ∷ w)))
trim-line [] v w (h, n) hv hw = cc n
trim-line (c ∷ u) v w (h, n) hv hw =
    let (x, d, p, q, r) = word-ends w hw in
    subst (λ t. trim_space (c ∷ (u ++ (32 ∷ (v ++ (32 ∷ t))))) ≡ c ∷ (u ++ (32 ∷ (v ++ (32 ∷ t)))))
      (sym p)
      (trim-ends c u v x d (ground arith)
        (all-weaken is_printable is_plain u printable-plain (ground arith))
        (all-weaken is_printable is_plain v printable-plain hv.0) q r)

is_nil-append : (u w : Bytes) → is_nil u ≡ false → is_nil (u ++ w) ≡ false
is_nil-append [] w h = cc h
is_nil-append (c ∷ u) w h = refl

parse_fields-three :
    (line : Bytes) (r : RefLine)
    → IsSendable r
    → parse_fields line (r.old ∷ r.new ∷ r.ref ∷ []) ≡ good r
unfolding parse_fields
parse_fields-three line r h = rw (h.old_sha, h.new_sha, h.in_refs)

parse_line-format : (r : RefLine) → IsSendable r → parse_line (format_line r) ≡ good r
unfolding parse_line
parse_line-format r h =
    let o = valid_sha-IsWord r.old h.old_sha in
    let n = valid_sha-IsWord r.new h.new_sha in
    let f = ref-IsWord r h in
    rw
      (
        trim-line r.old r.new r.ref o n f,
        fields-three r.old r.new r.ref o n f,
        is_nil-append r.old (b' ' ∷ (r.new ++ (b' ' ∷ r.ref))) o.1,
      )
      (parse_fields-three (format_line r) r h)

-- a printable line has no newline and no carriage return at its end
no_newline : (s : Bytes) → all is_plain s ≡ true → contains_byte b'\n' s ≡ false
no_newline [] h = refl
no_newline (c ∷ s) h = ground (arith, no_newline s)

drop_cr-plain : (s : Bytes) → all is_plain s ≡ true → drop_cr s ≡ s
unfolding drop_cr
drop_cr-plain [] h = refl
drop_cr-plain (c ∷ []) h = ground arith
drop_cr-plain (c ∷ d ∷ s) h = ap (λ l. c ∷ l) (drop_cr-plain (d ∷ s) (ground arith))

format_line-plain : (r : RefLine) → IsSendable r → all is_plain (format_line r) ≡ true
format_line-plain r h =
    let weaken =
      λ (s : Bytes) (w : IsWord s). all-weaken is_printable is_plain s printable-plain w.0 in
    all_append is_plain r.old (b' ' ∷ (r.new ++ (b' ' ∷ r.ref)))
      (weaken r.old (valid_sha-IsWord r.old h.old_sha))
      (all_append is_plain r.new (b' ' ∷ r.ref) (weaken r.new (valid_sha-IsWord r.new h.new_sha))
        (weaken r.ref (ref-IsWord r h)))

format_line-short : (r : RefLine) → IsSendable r → length (format_line r) < max_token
format_line-short r h = omega (
  arith,
  length-append {0} r.old (b' ' ∷ (r.new ++ (b' ' ∷ r.ref))),
  length-append {0} r.new (b' ' ∷ r.ref),
  valid_sha-length r.old h.old_sha,
  valid_sha-length r.new h.new_sha,
  h.room,
)

split-line :
    (r : RefLine) (s : Bytes)
    → IsSendable r
    → split (format_line r ++ (b'\n' ∷ s)) b'\n' ≡ format_line r ∷ split s b'\n'
split-line r s h =
    split-append (format_line r) s b'\n'
    ∙ ap (λ l. l ++ split s b'\n')
        (split-plain (format_line r) b'\n' (no_newline (format_line r) (format_line-plain r h)))

abbrev pub AllSendable : List RefLine → Type 0
AllSendable = All IsSendable

-- the lines of the input, with the empty text behind the last newline
split-lines :
    (rs : List RefLine)
    → AllSendable rs
    → split (format_lines rs) b'\n' ≡ map format_line rs ++ ([] ∷ [])
split-lines [] h = split-plain [] b'\n' refl
split-lines (r ∷ rs) (h, hs) =
    split-line r (format_lines rs) h ∙ ap (λ l. format_line r ∷ l) (split-lines rs hs)

scan_raw-lines :
    (rs : List RefLine)
    → AllSendable rs
    → scan_raw (map format_line rs ++ ([] ∷ []))
      ≡ record { lines = map format_line rs; failed = false }
unfolding scan_raw
scan_raw-lines [] h = refl
scan_raw-lines (r ∷ []) (h, hs) = rw (
  lt→ltb (length (format_line r)) max_token (format_line-short r h),
  drop_cr-plain (format_line r) (format_line-plain r h),
)
scan_raw-lines (r ∷ q ∷ rs) (h, hs) = rw (
  lt→ltb (length (format_line r)) max_token (format_line-short r h),
  scan_raw-lines (q ∷ rs) hs,
  drop_cr-plain (format_line r) (format_line-plain r h),
)

parse_all-format : (rs : List RefLine) → AllSendable rs → parse_all (map format_line rs) ≡ ok rs
unfolding parse_all
parse_all-format [] h = refl
parse_all-format (r ∷ rs) (h, hs) =
    rw (parse_line-format r h, parse_all) (rw (parse_all-format rs hs))

-- What git writes to the hook is read back: lines of two object ids and a printable ref below
-- refs/ of under 65000 bytes, each with a newline behind it.
pub parse_strict-format_lines :
    (rs : List RefLine) → AllSendable rs → parse_strict (format_lines rs) ≡ ok rs
unfolding parse_strict scan_lines
parse_strict-format_lines rs h = rw (split-lines rs h, scan_raw-lines rs h, parse_all-format rs h)
