-- ===== src/Browse/Text/Listing.antt =====
-- parseCommits and parseTree of internal/browse/helpers.go, on what git prints.
use gitd.Prelude.{
  codes, cut_prefix, In, ==_refl, ℕ, ◌≡◌, refl, sym, ap, ◌∙◌, false, inl, inr, List, [], ◌∷◌, ◌++◌,
  Bytes, Option, none, some, is_nil, split, contains_byte, arith, map, All, cut, fields,
}
use gitd.Prelude.Split.{split-plain, split-append}
use mathlib.Core.List.{append-nil}
use gitd.Prelude.Int.{ℤ}
use gitd.Browse.Paths.{log_args}
use gitd.Browse.Text.{
  CommitItem, TreeEntry, parse_commits, parse_tree, push_some, entry_of, entry_in, path_in,
  cut_last, file_base, parent_path,
}

-- the format among the arguments of `git log`
unfoldable pub format_in : List Bytes → Bytes
format_in [] = []
format_in (arg ∷ args) = elim (cut_prefix arg (codes "--format=")) [
  | none ↦ format_in args
  | some format ↦ format
]

-- What git documents of the placeholders of `git log --format`, where `pretty` prints a commit in a
-- format.
pub record IsPretty (pretty : Bytes → CommitItem → Bytes) : Type 0 where
  pub finished : (i : CommitItem) → pretty [] i ≡ []
  pub hash : (f : Bytes) (i : CommitItem) → pretty (codes "%H" ++ f) i ≡ i.hash ++ pretty f i
  pub short : (f : Bytes) (i : CommitItem) → pretty (codes "%h" ++ f) i ≡ i.short ++ pretty f i
  pub author : (f : Bytes) (i : CommitItem) → pretty (codes "%an" ++ f) i ≡ i.author ++ pretty f i
  pub date : (f : Bytes) (i : CommitItem) → pretty (codes "%ad" ++ f) i ≡ i.date ++ pretty f i
  pub subject : (f : Bytes) (i : CommitItem) → pretty (codes "%s" ++ f) i ≡ i.msg ++ pretty f i
  pub nul : (f : Bytes) (i : CommitItem) → pretty (codes "%x00" ++ f) i ≡ 0 ∷ pretty f i

-- the fields, with a NUL between two
abbrev commit_line : CommitItem → Bytes
commit_line i = i.hash ++ (0 ∷ (i.short ++ (0 ∷ (i.author ++ (0 ∷ (i.date ++ (0 ∷ i.msg)))))))

abbrev pub NoNul : Bytes → Type 0
NoNul w = contains_byte 0 w ≡ false

-- no field has a NUL
pub record IsClean (i : CommitItem) : Type 0 where
  pub hash : NoNul i.hash
  pub short : NoNul i.short
  pub author : NoNul i.author
  pub date : NoNul i.date
  pub msg : NoNul i.msg

split-field : (w s : Bytes) → NoNul w → split (w ++ (0 ∷ s)) 0 ≡ w ∷ split s 0
split-field w s h = split-append w s 0 ∙ ap (λ l. l ++ split s 0) (split-plain w 0 h)

split-commit_line :
    (i : CommitItem)
    → IsClean i
    → split (commit_line i) 0 ≡ i.hash ∷ i.short ∷ i.author ∷ i.date ∷ i.msg ∷ []
split-commit_line i c =
    split-field i.hash _ c.hash
    ∙ ap (λ l. i.hash ∷ l)
        (split-field i.short _ c.short
          ∙ ap (λ l. i.short ∷ l)
              (split-field i.author _ c.author
                ∙ ap (λ l. i.author ∷ l)
                    (split-field i.date i.msg c.date
                      ∙ ap (λ l. i.date ∷ l) (split-plain i.msg 0 c.msg))))

commit_line-non_nil : (i : CommitItem) → is_nil (commit_line i) ≡ false
commit_line-non_nil i = append-non_nil i.hash _
  where
    append-non_nil : (w s : Bytes) → is_nil (w ++ (0 ∷ s)) ≡ false
    append-non_nil [] s = refl
    append-non_nil (c ∷ w) s = refl

parse_commits-commit_line :
    (cs : List CommitItem) → All IsClean cs → parse_commits (map commit_line cs) ≡ cs
unfolding parse_commits
parse_commits-commit_line [] a = refl
parse_commits-commit_line (i ∷ cs) (c, a) =
    rw (commit_line-non_nil i, split-commit_line i c)
      (ap (λ l. i ∷ l) (parse_commits-commit_line cs a))

module _ (pretty : Bytes → CommitItem → Bytes) (p : IsPretty pretty) (decimal : ℤ → Bytes)
    (ref : Bytes) (skip : ℤ) where
  abbrev printed : CommitItem → Bytes
  printed i = pretty (format_in (log_args decimal ref skip)) i

  last_field : (i : CommitItem) → pretty (codes "%s") i ≡ i.msg
  last_field i = p.subject [] i ∙ ap (λ t. i.msg ++ t) (p.finished i) ∙ append-nil i.msg

  nul_then : (f t : Bytes) (i : CommitItem) → pretty f i ≡ t → pretty (codes "%x00" ++ f) i ≡ 0 ∷ t
  nul_then f t i e = p.nul f i ∙ ap (λ s. 0 ∷ s) e

  printed-commit_line : (i : CommitItem) → printed i ≡ commit_line i
  unfolding format_in cut_prefix
  printed-commit_line i =
      let date = nul_then (codes "%s") _ i (last_field i) in
      let author =
        nul_then (codes "%ad%x00%s") _ i (p.date (codes "%x00%s") i ∙ ap (λ t. i.date ++ t) date) in
      let short =
        nul_then (codes "%an%x00%ad%x00%s") _ i
          (p.author (codes "%x00%ad%x00%s") i ∙ ap (λ t. i.author ++ t) author) in
      let hash =
        nul_then (codes "%h%x00%an%x00%ad%x00%s") _ i
          (p.short (codes "%x00%an%x00%ad%x00%s") i ∙ ap (λ t. i.short ++ t) short) in
      p.hash (codes "%x00%h%x00%an%x00%ad%x00%s") i ∙ ap (λ t. i.hash ++ t) hash

  printed_all : (cs : List CommitItem) → map printed cs ≡ map commit_line cs
  printed_all [] = refl
  printed_all (i ∷ cs) = rw (printed-commit_line i) (ap (λ l. commit_line i ∷ l) (printed_all cs))

  -- The commits are read back from the lines in which git prints them in the format that the commit
  -- log asks it for, where git treats the placeholders as documented and no field has a NUL.
  pub parse_commits-line :
      (cs : List CommitItem)
      → All IsClean cs
      → parse_commits (map (pretty (format_in (log_args decimal ref skip))) cs) ≡ cs
  parse_commits-line cs a = ap parse_commits (printed_all cs) ∙ parse_commits-commit_line cs a

cut_last-none : (w : Bytes) (b : ℕ) → contains_byte b w ≡ false → cut_last w b ≡ none
unfolding cut_last
cut_last-none [] b h = refl
cut_last-none (c ∷ w) b h = ground (arith, cut_last-none w b)

cut_last-append :
    (s w : Bytes) (b : ℕ) → contains_byte b w ≡ false → cut_last (s ++ (b ∷ w)) b ≡ some (s, w)
unfolding cut_last
cut_last-append [] w b h = rw (cut_last-none w b h) (rw (==_refl b))
cut_last-append (c ∷ s) w b h = rw (cut_last-append s w b h)

path_in-parts :
    (dir name : Bytes)
    → contains_byte b'/' name ≡ false
    → (parent_path (path_in dir name) ≡ dir) × (file_base (path_in dir name) ≡ name)
unfolding parent_path file_base cut_last
path_in-parts [] name h = rw (cut_last-none name b'/' h) (refl, refl)
path_in-parts (c ∷ dir) name h = rw (cut_last-append (c ∷ dir) name b'/' h) (refl, refl)

abbrev entry_or : TreeEntry → Option TreeEntry → TreeEntry
entry_or e none = e
entry_or e (some x) = x

entry_in-path :
    (dir name : Bytes) (fs : List Bytes) (e : TreeEntry)
    → entry_in dir name fs ≡ some e
    → e.path ≡ path_in dir e.name
entry_in-path dir name [] e h = cc
entry_in-path dir name (m ∷ []) e h = cc
entry_in-path dir name (m ∷ k ∷ fs) e h =
    let p = ap (entry_or e) h in ap (λ x. x.path) (sym p) ∙ ap (λ x. path_in dir x.name) p

entry_of-path :
    (dir : Bytes) (o : Option (Bytes × Bytes)) (e : TreeEntry)
    → entry_of dir o ≡ some e
    → e.path ≡ path_in dir e.name
entry_of-path dir none e h = cc
entry_of-path dir (some (meta, name)) e h = entry_in-path dir name (fields meta) e h

-- all entries have their path in the directory
all-path :
    (lines : List Bytes) (dir : Bytes) (e : TreeEntry)
    → In e (parse_tree lines dir)
    → e.path ≡ path_in dir e.name
unfolding parse_tree
all-path [] dir e m = elim m [ ]
all-path (line ∷ lines) dir e m =
    on_entry (entry_of dir (cut line b'\t')) refl m (all-path lines dir e)
  where
    on_entry :
        (o : Option TreeEntry)
        → entry_of dir (cut line b'\t') ≡ o
        → In e (push_some o (parse_tree lines dir))
        → (In e (parse_tree lines dir) → e.path ≡ path_in dir e.name)
        → e.path ≡ path_in dir e.name
    on_entry none p i ih = ih i
    on_entry (some x) p (inl q) ih = entry_of-path dir (cut line b'\t') e (p ∙ ap some (sym q))
    on_entry (some x) p (inr i) ih = ih i

-- An entry of a directory's listing leads into the directory: its path has the directory as parent,
-- and the entry's name, where that has no slash, as the last element.
pub parse_tree-parent :
    (lines : List Bytes) (dir : Bytes) (e : TreeEntry)
    → In e (parse_tree lines dir)
    → contains_byte b'/' e.name ≡ false
    → (parent_path e.path ≡ dir) × (file_base e.path ≡ e.name)
parse_tree-parent lines dir e m h = rw (all-path lines dir e m) (path_in-parts dir e.name h)
