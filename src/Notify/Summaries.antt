-- ===== src/Notify/Summaries.antt =====
-- commitSummaries of internal/cli/notify.go, on the output of rev-list.
use gitd.Prelude.{
  ℕ, ◌≡◌, refl, ap, ◌∙◌, true, false, List, [], ◌∷◌, ◌++◌, Bytes, codes, some, split, contains_byte,
  arith, is_nil, has_prefix, All, all,
}
use gitd.Prelude.Split.{split-append, split-plain}
use gitd.Event.{Commit}
use gitd.Hooks.{is_hex}
use gitd.Notify.{parse_summaries, newline, add_summary}

-- "%H%x00%s%x00%an <%ae>"
abbrev pub format_line : Commit → Bytes
format_line c = c.sha ++ (0 ∷ (c.subject ++ (0 ∷ c.author)))

-- rev-list writes a line "commit <sha>" before each line of the format
abbrev pub format_commits : List Commit → Bytes
format_commits [] = []
format_commits (c ∷ cs) =
    (codes "commit " ++ c.sha) ++ (newline ∷ (format_line c ++ (newline ∷ format_commits cs)))

abbrev NoByte : ℕ → Bytes → Type 0
NoByte b s = contains_byte b s ≡ false

-- a hexadecimal id, and texts without a newline or a zero byte
pub record IsPrintable (c : Commit) : Type 0 where
  pub sha_hex : all is_hex c.sha ≡ true
  pub sha_there : is_nil c.sha ≡ false
  pub subject_line : NoByte newline c.subject
  pub subject_zero : NoByte 0 c.subject
  pub author_line : NoByte newline c.author
  pub author_zero : NoByte 0 c.author

hex-no_newline : (s : Bytes) → all is_hex s ≡ true → NoByte newline s
hex-no_newline [] h = refl
hex-no_newline (c ∷ s) h = ground (arith, hex-no_newline s)

hex-no_zero : (s : Bytes) → all is_hex s ≡ true → NoByte 0 s
hex-no_zero [] h = refl
hex-no_zero (c ∷ s) h = ground (arith, hex-no_zero s)

contains-append : (b : ℕ) (x y : Bytes) → NoByte b x → NoByte b y → NoByte b (x ++ y)
contains-append b [] y h g = g
contains-append b (c ∷ x) y h g = ground (arith, contains-append b x y)

not_header :
    (s x : Bytes)
    → all is_hex s ≡ true
    → is_nil s ≡ false
    → has_prefix (s ++ (0 ∷ x)) (codes "commit ") ≡ false
unfolding has_prefix
not_header [] x h n = refl
not_header (c ∷ []) x h n = ground arith
not_header (c ∷ d ∷ s) x h n = ground arith

not_nil : (s x : Bytes) → is_nil s ≡ false → is_nil (s ++ x) ≡ false
not_nil [] x h = cc h
not_nil (c ∷ s) x h = refl

format_line-no_newline : (c : Commit) → IsPrintable c → NoByte newline (format_line c)
format_line-no_newline c h =
    contains-append newline c.sha (0 ∷ (c.subject ++ (0 ∷ c.author)))
      (hex-no_newline c.sha h.sha_hex)
      (contains-append newline c.subject (0 ∷ c.author) h.subject_line h.author_line)

split-format_line :
    (c : Commit) → IsPrintable c → split (format_line c) 0 ≡ c.sha ∷ c.subject ∷ c.author ∷ []
split-format_line c h = rw (
  split-append c.sha (c.subject ++ (0 ∷ c.author)) 0,
  split-plain c.sha 0 (hex-no_zero c.sha h.sha_hex),
  split-append c.subject c.author 0,
  split-plain c.subject 0 h.subject_zero,
  split-plain c.author 0 h.author_zero,
)

header_skipped :
    (sha : Bytes) (ls : List Bytes)
    → parse_summaries ((codes "commit " ++ sha) ∷ ls) ≡ parse_summaries ls
unfolding parse_summaries has_prefix
header_skipped sha ls = refl

line_read :
    (c : Commit) (ls : List Bytes)
    → IsPrintable c
    → parse_summaries (format_line c ∷ ls) ≡ add_summary (some c) (parse_summaries ls)
unfolding parse_summaries
line_read c ls h = rw (
  not_nil c.sha (0 ∷ (c.subject ++ (0 ∷ c.author))) h.sha_there,
  not_header c.sha (c.subject ++ (0 ∷ c.author)) h.sha_hex h.sha_there,
  split-format_line c h,
)

split-line :
    (w s : Bytes) → NoByte newline w → split (w ++ (newline ∷ s)) newline ≡ w ∷ split s newline
split-line w s h =
    split-append w s newline ∙ ap (λ l. l ++ split s newline) (split-plain w newline h)

-- The commits that rev-list prints are read back, in order: hexadecimal ids, and subjects and authors
-- with neither a newline nor a zero byte.
pub parse_summaries-format_commits :
    (cs : List Commit)
    → All IsPrintable cs
    → parse_summaries (split (format_commits cs) newline) ≡ some cs
parse_summaries-format_commits [] h = unfold parse_summaries in rw (split-plain [] newline refl)
parse_summaries-format_commits (c ∷ cs) (h, hs) = rw (
  split-line (codes "commit " ++ c.sha) (format_line c ++ (newline ∷ format_commits cs))
      (contains-append newline (codes "commit ") c.sha refl (hex-no_newline c.sha h.sha_hex)),
  split-line (format_line c) (format_commits cs) (format_line-no_newline c h),
  header_skipped c.sha (format_line c ∷ split (format_commits cs) newline),
  line_read c (split (format_commits cs) newline) h,
  parse_summaries-format_commits cs hs,
)
