-- ===== src/Hooks.antt =====
-- internal/cli/notify.go and internal/cli/pre_receive.go: the ref lines that git writes to a hook.
pub mod Lines
pub mod RoundTrip
pub mod PreReceive
use gitd.Prelude.{
  ℕ, ◌≡◌, refl, Bool, true, false, not, ◌&&◌, ◌||◌, List, [], ◌∷◌, ◌++◌, Bytes, codes, Option, none,
  some, if◌then◌else◌, ltb, leb, ◌==◌, all, length, is_nil, split, trim_space, fields, has_prefix,
  map, str_eq,
}
use gitd.Prelude.Result.{Result, ok, err, ◌>>=◌}

abbrev pub is_hex : ℕ → Bool
is_hex c = (leb b'0' c && leb c b'9') || (leb b'a' c && leb c b'f') || (leb b'A' c && leb c b'F')

abbrev pub has_sha_length : Bytes → Bool
has_sha_length s = length s == 40 || length s == 64

-- validSHA. A byte that is part of no hexadecimal digit belongs to no such rune either.
unfoldable pub valid_sha : Bytes → Bool
valid_sha s = has_sha_length s && all is_hex s

-- isZeroSHA, and isZero of the policy
unfoldable pub is_zero_sha : Bytes → Bool
is_zero_sha s = has_sha_length s && all (λ c. c == b'0') s

pub record RefLine : Type 0 where
  pub old : Bytes
  pub new : Bytes
  pub ref : Bytes

-- The lines of bufio.Scanner: without the final newline and one carriage return before it. A line
-- that does not fit the buffer of 64 KiB stops the scan with an error.
abbrev pub max_token : ℕ
max_token = 65536

unfoldable pub drop_cr : Bytes → Bytes
drop_cr [] = []
drop_cr (c ∷ []) = if c == b'\r' then [] else c ∷ []
drop_cr (c ∷ d ∷ s) = c ∷ drop_cr (d ∷ s)

pub record Scanned : Type 0 where
  pub lines : List Bytes
  pub failed : Bool

-- what stands behind the last newline is a line only if it is not empty
unfoldable pub scan_raw : List Bytes → Scanned
unfolding drop_cr
scan_raw [] = record { lines = []; failed = false }
scan_raw (l ∷ []) =
    if is_nil l
    then record { lines = []; failed = false }
    else if ltb (length l) max_token
    then record { lines = drop_cr l ∷ []; failed = false }
    else record { lines = []; failed = true }
scan_raw (l ∷ k ∷ ls) =
    let rest = scan_raw (k ∷ ls) in
    if ltb (length l) max_token
    then record { lines = drop_cr l ∷ rest.lines; failed = rest.failed }
    else record { lines = []; failed = true }

unfoldable pub scan_lines : Bytes → Scanned
unfolding scan_raw split
scan_lines s = scan_raw (split s b'\n')

pub data Parsed : Type 0 where
  blank : Parsed
  malformed : Bytes → Parsed
  good : RefLine → Parsed

abbrev pub refs_prefix : Bytes
refs_prefix = codes "refs/"

unfoldable pub parse_fields : Bytes → List Bytes → Parsed
parse_fields line (old ∷ new ∷ ref ∷ []) =
    if not (valid_sha old) || not (valid_sha new) || not (has_prefix ref refs_prefix)
    then malformed line
    else good (record { old = old; new = new; ref = ref })
parse_fields line _ = malformed line

-- the body of both loops, up to what a malformed line leads to
unfoldable pub parse_line : Bytes → Parsed
parse_line text =
    let line = trim_space text in if is_nil line then blank else parse_fields line (fields line)

-- notifier.parseRefLines: malformed lines are skipped, and so is what follows a scanner's error
unfoldable pub keep_good : List Bytes → List RefLine
keep_good [] = []
keep_good (l ∷ ls) = let rest = keep_good ls in elim (parse_line l) [ good r ↦ r ∷ rest | _ ↦ rest ]

unfoldable pub parse_ref_lines : Bytes → List RefLine
parse_ref_lines s = keep_good (scan_lines s).lines

pub data HookError : Type 0 where
  malformed_line : Bytes → HookError
  read_failed : HookError

unfoldable pub parse_all : List Bytes → Result HookError (List RefLine)
parse_all [] = ok []
parse_all (l ∷ ls) =
    let rest = parse_all ls in
    elim (parse_line l) [
      | blank ↦ rest
      | malformed line ↦ err (malformed_line line)
      | good r ↦ do rs ← rest; ok (r ∷ rs)
    ]

-- preReceive.parseStrict: the first malformed line rejects, then a scanner's error does
unfoldable pub parse_strict : Bytes → Result HookError (List RefLine)
parse_strict s = do
  rs ← parse_all (scan_lines s).lines
  if (scan_lines s).failed then err read_failed else ok rs
