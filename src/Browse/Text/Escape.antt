-- ===== src/Browse/Text/Escape.antt =====
-- highlightDiff of internal/browse/helpers.go: the text and the markup of its HTML.
use gitd.Prelude.{
  ==_iff, push_first, ℕ, ◌≡◌, refl, sym, ap, ◌∙◌, Bool, false, not, ◌||◌, ◌⊎◌, inl, inr, List, [],
  ◌∷◌, ◌++◌, Bytes, codes, if◌then◌else◌, split, contains_byte, arith, Bool-cases, ◌==◌,
}
use mathlib.Core.List.{append_assoc}
use gitd.Browse.Text.{
  html_escape, escape_byte, highlight_diff, render_line, render_lines, line_class, trim_newlines,
}

-- what a reader sees of HTML: all but the tags; `tag` holds inside one
unfoldable pub without_tags : Bool → Bytes → Bytes
without_tags tag [] = []
without_tags tag (c ∷ s) =
    let rest = without_tags (if tag then not (c == b'>') else (c == b'<')) s in
    if tag || c == b'<' then rest else c ∷ rest

without_tags-plain :
    (w t : Bytes)
    → contains_byte b'<' w ≡ false
    → without_tags false (w ++ t) ≡ w ++ without_tags false t
unfolding without_tags
without_tags-plain [] t h = refl
without_tags-plain (c ∷ w) t h = ground (arith, without_tags-plain w t)

any-append_lt :
    (x y : Bytes) → contains_byte b'<' (x ++ y) ≡ (contains_byte b'<' x || contains_byte b'<' y)
any-append_lt [] y = refl
any-append_lt (c ∷ x) y = ground (arith, any-append_lt x y)

escape_byte-plain : (c : ℕ) → contains_byte b'<' (escape_byte c) ≡ false
escape_byte-plain c = ground arith

html_escape-plain : (s : Bytes) → contains_byte b'<' (html_escape s) ≡ false
unfolding html_escape
html_escape-plain [] = refl
html_escape-plain (c ∷ s) =
    any-append_lt (escape_byte c) (html_escape s) ∙ rw (escape_byte-plain c, html_escape-plain s)

html_escape-append : (s t : Bytes) → html_escape (s ++ t) ≡ html_escape s ++ html_escape t
unfolding html_escape
html_escape-append [] t = refl
html_escape-append (c ∷ s) t =
    ap (λ l. escape_byte c ++ l) (html_escape-append s t)
    ∙ sym (append_assoc (escape_byte c) (html_escape s) (html_escape t))

escape-line : (l x : Bytes) → html_escape (l ++ codes "\n") ++ x ≡ html_escape l ++ (b'\n' ∷ x)
unfolding html_escape
escape-line l x =
    ap (λ e. e ++ x) (html_escape-append l (codes "\n"))
    ∙ append_assoc (html_escape l) (codes "\n") x

spanned-text :
    (l t : Bytes)
    → without_tags false (((html_escape l ++ codes "</span>") ++ codes "\n") ++ t)
      ≡ html_escape (l ++ codes "\n") ++ without_tags false t
unfolding without_tags
spanned-text l t =
    ap (without_tags false) (
      append_assoc (html_escape l ++ codes "</span>") (codes "\n") t
      ∙ append_assoc (html_escape l) (codes "</span>") (codes "\n" ++ t))
    ∙ without_tags-plain (html_escape l) (codes "</span>\n" ++ t) (html_escape-plain l)
    ∙ sym (escape-line l (without_tags false t))

plain-text :
    (l t : Bytes)
    → without_tags false ((html_escape l ++ codes "\n") ++ t)
      ≡ html_escape (l ++ codes "\n") ++ without_tags false t
unfolding without_tags
plain-text l t =
    ap (without_tags false) (append_assoc (html_escape l) (codes "\n") t)
    ∙ without_tags-plain (html_escape l) (codes "\n" ++ t) (html_escape-plain l)
    ∙ sym (escape-line l (without_tags false t))

line_class-cases :
    (l : Bytes)
    → (line_class l ≡ [])
      ⊎ ((line_class l ≡ codes "add")
          ⊎ ((line_class l ≡ codes "del") ⊎ (line_class l ≡ codes "meta")))
unfolding line_class
line_class-cases l = ground arith

render_line-text :
    (l t : Bytes)
    → without_tags false (render_line l ++ t)
      ≡ html_escape (l ++ codes "\n") ++ without_tags false t
unfolding render_line without_tags
render_line-text l t = elim (line_class-cases l) [
  | inl e ↦ rw (render_line, e) (plain-text l t)
  | inr (inl e) ↦ rw (render_line, e) (spanned-text l t)
  | inr (inr (inl e)) ↦ rw (render_line, e) (spanned-text l t)
  | inr (inr (inr e)) ↦ rw (render_line, e) (spanned-text l t)
]

-- the lines again, each with its newline
abbrev ended : List Bytes → Bytes
ended [] = []
ended (l ∷ ls) = (l ++ codes "\n") ++ ended ls

render_lines-text :
    (ls : List Bytes) → without_tags false (render_lines ls) ≡ html_escape (ended ls)
unfolding without_tags html_escape
render_lines-text [] = refl
render_lines-text (l ∷ ls) =
    render_line-text l (render_lines ls)
    ∙ ap (λ x. html_escape (l ++ codes "\n") ++ x) (render_lines-text ls)
    ∙ sym (html_escape-append (l ++ codes "\n") (ended ls))

ended-push_first :
    (c : ℕ) (s : Bytes) (ws : List Bytes)
    → ended ws ≡ s ++ codes "\n"
    → ended (push_first c ws) ≡ c ∷ (s ++ codes "\n")
ended-push_first c [] [] h = cc
ended-push_first c (d ∷ s) [] h = cc
ended-push_first c s (w ∷ ws) h = ap (λ l. c ∷ l) h

ended-split : (s : Bytes) → ended (split s b'\n') ≡ s ++ codes "\n"
unfolding split
ended-split [] = refl
ended-split (c ∷ s) = elim (Bool-cases (c == b'\n')) [
  | inl e ↦ rw (e, (==_iff c b'\n').0 e) (ap (λ l. b'\n' ∷ l) (ended-split s))
  | inr e ↦ rw e (ended-push_first c s (split s b'\n') (ended-split s))
]

-- Without the tags, the HTML of a diff is the escaped diff: its text less the newlines at the end,
-- with one newline.
pub highlight_diff-text :
    (d : Bytes)
    → without_tags false (highlight_diff d) ≡ html_escape (trim_newlines d ++ codes "\n")
unfolding highlight_diff
highlight_diff-text d =
    render_lines-text (split (trim_newlines d) b'\n')
    ∙ ap html_escape (ended-split (trim_newlines d))
