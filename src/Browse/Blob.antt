-- ===== src/Browse/Blob.antt =====
-- internal/browse/highlight.go and readme.go: how a file is shown. The renderers of goldmark and of
-- chroma are fields of `Renderers`.
use gitd.Prelude.{
  cut, ◌+◌, ℕ, suc, zero, Bool, not, ◌&&◌, ◌||◌, List, [], ◌∷◌, Bytes, codes, Option, none, some,
  if◌then◌else◌, str_eq, has_suffix, split, leb, ltb, length, take, map, any, contains_byte, ◌==◌,
}
use Prim.Native.Nat.{pred}
use gitd.Prelude.Result.{Result, ok, ◌>>=◌}
use gitd.FilePath.{base}
use gitd.Browse.Paths.{GitError, Git, tree_entries, blob_at, max_render_bytes}

-- `Lexer` stands for the lexers of chroma.
pub record Renderers (Lexer : Type 0) : Type 0 where
  pub markdown : Bytes → Option Bytes
  pub lexer_for : Bytes → Option Lexer
  pub analyse : Bytes → Option Lexer
  pub highlight : Lexer → Bytes → Option Bytes
  pub lexer_name : Lexer → Bytes

-- strings.ToLower of ASCII letters
abbrev pub lower_byte : ℕ → ℕ
lower_byte c = if leb b'A' c && leb c b'Z' then c + 32 else c

abbrev pub lower : Bytes → Bytes
lower = map lower_byte

-- Whether the name ends in `.md`, in any case. No character but M and D has m or d as its lower case.
abbrev pub is_markdown : Bytes → Bool
is_markdown path = has_suffix (lower path) (codes ".md")

-- binaryScanBytes
abbrev pub binary_scan_bytes : ℕ
binary_scan_bytes = 8000

-- maxPathologicalLine
abbrev pub max_pathological_line : ℕ
max_pathological_line = 10000

-- isBinary
unfoldable pub is_binary : Bytes → Bool
is_binary s = contains_byte 0 (take binary_scan_bytes s)

abbrev is_tail : ℕ → Bool
is_tail c = leb 0x80 c && leb c 0xBF

-- The number of bytes of the character at the head: 1 for a byte that begins none.
unfoldable pub rune_width : Bytes → ℕ
rune_width (c ∷ d ∷ e ∷ f ∷ _) =
    if leb 0xC2 c && leb c 0xDF && is_tail d
    then 2
    else if (c == 0xE0 && leb 0xA0 d && leb d 0xBF
          || leb 0xE1 c && leb c 0xEF && not (c == 0xED) && is_tail d
          || c == 0xED && leb 0x80 d && leb d 0x9F)
        && is_tail e
    then 3
    else if (c == 0xF0 && leb 0x90 d && leb d 0xBF
          || leb 0xF1 c && leb c 0xF3 && is_tail d
          || c == 0xF4 && leb 0x80 d && leb d 0x8F)
        && is_tail e
        && is_tail f
    then 4
    else 1
rune_width (c ∷ d ∷ e ∷ []) =
    if leb 0xC2 c && leb c 0xDF && is_tail d
    then 2
    else if (c == 0xE0 && leb 0xA0 d && leb d 0xBF
          || leb 0xE1 c && leb c 0xEF && not (c == 0xED) && is_tail d
          || c == 0xED && leb 0x80 d && leb d 0x9F)
        && is_tail e
    then 3
    else 1
rune_width (c ∷ d ∷ []) = if leb 0xC2 c && leb c 0xDF && is_tail d then 2 else 1
rune_width _ = 1

-- the length of a []rune: `skip` bytes belong to the character just counted
unfoldable pub rune_count : ℕ → Bytes → ℕ
rune_count skip [] = 0
rune_count (suc k) (c ∷ s) = rune_count k s
rune_count zero (c ∷ s) = suc (rune_count (pred (rune_width (c ∷ s))) s)

-- hasPathologicalLine
unfoldable pub has_pathological_line : Bytes → Bool
has_pathological_line s =
    any (λ line. ltb max_pathological_line (rune_count 0 line)) (split s b'\n')

module _ {Lexer : Type 0} (r : Renderers Lexer) where
  -- resolveBlobLexer
  unfoldable pub resolve_blob_lexer : Bytes → Bytes → Option Lexer
  resolve_blob_lexer path s =
      if is_binary s
      then none
      else if has_pathological_line s
      then none
      else elim (r.lexer_for (base path)) [ some l ↦ some l | none ↦ r.analyse s ]

  -- renderMarkdownServer
  unfoldable pub render_markdown_server : Bytes → Option Bytes
  render_markdown_server s = elim (r.markdown s) [
    | none ↦ none
    | some out ↦ some (take max_render_bytes out)
  ]

-- readmeNames
abbrev pub readme_names : List Bytes
readme_names = codes "README.md" ∷ codes "README" ∷ codes "readme.md" ∷ codes "Readme.md" ∷ []

-- the name in a line of `git ls-tree`
abbrev pub entry_name : Bytes → Bytes
entry_name line = elim (cut line b'\t') [ none ↦ line | some (meta, name) ↦ name ]

unfoldable pub first_readme : List Bytes → Option Bytes
first_readme [] = none
first_readme (line ∷ lines) =
    let rest = first_readme lines in
    if any (str_eq (entry_name line)) readme_names then some (entry_name line) else rest

module _ (git : Git) (dir : Bytes) where
  -- findReadme: the name and what the file holds
  unfoldable pub find_readme : Bytes → Result GitError (Option (Bytes × Bytes))
  find_readme ref = do
    entries ← tree_entries git dir ref []
    elim (first_readme entries) [
      | none ↦ ok none
      | some name ↦ do content ← blob_at git dir ref name; ok (some (name, content))
    ]

-- what a page shows of a file, and whether it is cut off
abbrev pub shown : Bytes → Bytes
shown s = if ltb max_render_bytes (length s) then take max_render_bytes s else s

abbrev pub is_truncated : Bytes → Bool
is_truncated s = ltb max_render_bytes (length s)
