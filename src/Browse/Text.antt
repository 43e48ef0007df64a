-- ===== src/Browse/Text.antt =====
-- internal/browse/helpers.go and parentPath of fragments.go: what git prints as data, and as HTML.
pub mod Escape
pub mod Listing
use gitd.Prelude.{
  ℕ, ◌≡◌, refl, Bool, true, false, not, ◌&&◌, ◌||◌, List, [], ◌∷◌, ◌++◌, Bytes, codes, Option, none,
  some, if◌then◌else◌, str_eq, is_nil, has_prefix, split, cut, fields, ◌==◌, map,
}

-- commitItem
pub record CommitItem : Type 0 where
  pub hash : Bytes
  pub short : Bytes
  pub author : Bytes
  pub date : Bytes
  pub msg : Bytes

-- the fields of a line: further ones are left out
abbrev pub commit_of : List Bytes → Option CommitItem
commit_of (h ∷ s ∷ a ∷ d ∷ m ∷ ps) =
    some (record { hash = h; short = s; author = a; date = d; msg = m })
commit_of _ = none

abbrev pub push_some {ℓ} : {A : Type ℓ} → Option A → List A → List A
push_some none xs = xs
push_some (some x) xs = x ∷ xs

-- parseCommits
unfoldable pub parse_commits : List Bytes → List CommitItem
parse_commits [] = []
parse_commits (line ∷ lines) =
    let rest = parse_commits lines in
    if is_nil line then rest else push_some (commit_of (split line 0)) rest

-- treeEntry
pub record TreeEntry : Type 0 where
  pub kind : Bytes
  pub name : Bytes
  pub path : Bytes

abbrev pub path_in : Bytes → Bytes → Bytes
path_in dir name = if is_nil dir then name else dir ++ (b'/' ∷ name)

abbrev pub entry_in : Bytes → Bytes → List Bytes → Option TreeEntry
entry_in dir name (mode ∷ kind ∷ fs) =
    some (record { kind = kind; name = name; path = path_in dir name })
entry_in dir name _ = none

abbrev pub entry_of : Bytes → Option (Bytes × Bytes) → Option TreeEntry
entry_of dir none = none
entry_of dir (some (meta, name)) = entry_in dir name (fields meta)

-- parseTree
unfoldable pub parse_tree : List Bytes → Bytes → List TreeEntry
parse_tree [] dir = []
parse_tree (line ∷ lines) dir = push_some (entry_of dir (cut line b'\t')) (parse_tree lines dir)

-- what stands before and behind the last occurrence, strings.LastIndex
unfoldable pub cut_last : Bytes → ℕ → Option (Bytes × Bytes)
cut_last [] b = none
cut_last (c ∷ s) b = elim (cut_last s b) [
  | some (x, y) ↦ some (c ∷ x, y)
  | none ↦ if c == b then some ([], s) else none
]

-- fileBase
unfoldable pub file_base : Bytes → Bytes
file_base p = elim (cut_last p b'/') [ none ↦ p | some (x, y) ↦ y ]

-- parentPath
unfoldable pub parent_path : Bytes → Bytes
parent_path p = elim (cut_last p b'/') [ none ↦ [] | some (x, y) ↦ x ]

-- html.EscapeString
abbrev pub escape_byte : ℕ → Bytes
escape_byte c =
    if c == b'&'
    then codes "&amp;"
    else if c == 39
    then codes "&#39;"
    else if c == b'<'
    then codes "&lt;"
    else if c == b'>'
    then codes "&gt;"
    else if c == 34
    then codes "&#34;"
    else c ∷ []

-- htmlEscape
unfoldable pub html_escape : Bytes → Bytes
html_escape [] = []
html_escape (c ∷ s) = escape_byte c ++ html_escape s

-- strings.TrimRight of newlines
unfoldable pub trim_newlines : Bytes → Bytes
trim_newlines [] = []
trim_newlines (c ∷ s) =
    let rest = trim_newlines s in if is_nil rest && c == b'\n' then [] else c ∷ rest

-- the class of a line of a diff
unfoldable pub line_class : Bytes → Bytes
line_class line =
    if has_prefix line (codes "+")
    then codes "add"
    else if has_prefix line (codes "-")
    then codes "del"
    else if has_prefix line (codes "@@")
        || has_prefix line (codes "diff ")
        || has_prefix line (codes "index ")
        || has_prefix line (codes "---")
        || has_prefix line (codes "+++")
    then codes "meta"
    else []

abbrev pub span : Bytes → Bytes → Bytes
span cls text = codes "<span class=\"" ++ cls ++ codes "\">" ++ text ++ codes "</span>"

unfoldable pub render_line : Bytes → Bytes
render_line line =
    (if is_nil (line_class line)
      then html_escape line
      else span (line_class line) (html_escape line))
    ++ codes "\n"

abbrev pub render_lines : List Bytes → Bytes
render_lines [] = []
render_lines (line ∷ lines) = render_line line ++ render_lines lines

-- highlightDiff
unfoldable pub highlight_diff : Bytes → Bytes
highlight_diff d = render_lines (split (trim_newlines d) b'\n')

highlight_diff_example :
    highlight_diff (codes "+a<b\n c\n\n") ≡ codes "<span class=\"add\">+a&lt;b</span>\n c\n"
unfolding highlight_diff render_line line_class html_escape split trim_newlines has_prefix
highlight_diff_example = refl
