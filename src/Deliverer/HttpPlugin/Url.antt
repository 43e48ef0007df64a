-- ===== src/Deliverer/HttpPlugin/Url.antt =====
-- buildURL of internal/webhook/plugins/http/http.go: the slashes of the URL.
use gitd.Prelude.{
  ℕ, suc, zero, ◌≡◌, refl, sym, ap, ◌∙◌, true, false, [], ◌∷◌, ◌++◌, Bytes, codes, Option, none,
  some, if◌then◌else◌, arith, ◌==◌, select, select-append, drop, cut_prefix, length, Bool-cases,
  inl, inr, ==_iff, ◌/◌, ◌%◌,
}
use mathlib.Core.Path.{subst}
use gitd.Prelude.Split.{cut_prefix-eq}
use gitd.Deliverer.HttpPlugin.{
  path_escape, escape_path_byte, hex_digit, is_path_safe, placeholder, or_else, substitute,
  build_url,
}

-- the slashes of a text
abbrev pub slashes : Bytes → Bytes
slashes = select (λ c. c == b'/')

safe-no_slash : (c : ℕ) → is_path_safe c ≡ true → (c == b'/') ≡ false
safe-no_slash c h = elim (Bool-cases (c == b'/')) [
  | inl e ↦ cc (rw ((==_iff c b'/').0 e) at h)
  | inr e ↦ e
]

hex_digit-no_slash : (n : ℕ) → (hex_digit n == b'/') ≡ false
hex_digit-no_slash n = ground arith

escape_path_byte-slashes : (c : ℕ) → slashes (escape_path_byte c) ≡ []
escape_path_byte-slashes c = elim (Bool-cases (is_path_safe c)) [
  | inl e ↦ rw e (rw (safe-no_slash c e) refl)
  | inr e ↦ rw e (rw (hex_digit-no_slash (c / 16), hex_digit-no_slash (c % 16)) refl)
]

path_escape-slashes : (s : Bytes) → slashes (path_escape s) ≡ []
unfolding path_escape
path_escape-slashes [] = refl
path_escape-slashes (c ∷ s) =
    select-append _ (escape_path_byte c) (path_escape s)
    ∙ rw (escape_path_byte-slashes c) (path_escape-slashes s)

drop-append : (p r : Bytes) → drop (length p) (p ++ r) ≡ r
drop-append [] r = refl
drop-append (c ∷ p) r = drop-append p r

abbrev tail_of : Bytes → Bytes
tail_of [] = []
tail_of (c ∷ s) = s

-- a placeholder without a slash, whose bytes behind the head are left out
found-slashes :
    (p s r : Bytes) (c : ℕ)
    → slashes p ≡ []
    → cut_prefix (c ∷ s) (b'{' ∷ p) ≡ some r
    → slashes (drop (length p) s) ≡ slashes (c ∷ s)
found-slashes p s r c n h =
    let e = cut_prefix-eq (b'{' ∷ p) (c ∷ s) r h in
    ap (λ l. slashes (drop (length p) l)) (ap tail_of e)
    ∙ ap slashes (drop-append p r)
    ∙ sym (select-append _ p r ∙ ap (λ l. l ++ slashes r) n)
    ∙ sym (ap slashes e)

-- what is found holds a value in place of a placeholder that has no slash
record IsFound (s : Bytes) (c : ℕ) (found : Bytes × ℕ) : Type 0 where
  pub value : slashes found.0 ≡ []
  pub behind : slashes (drop found.1 s) ≡ slashes (c ∷ s)

abbrev or_found : Bytes × ℕ → Option (Bytes × ℕ) → Bytes × ℕ
or_found x none = x
or_found x (some y) = y

or_else-IsFound :
    (value p s : Bytes) (c : ℕ) (other : Option (Bytes × ℕ)) (found : Bytes × ℕ) (o : Option Bytes)
    → slashes p ≡ []
    → cut_prefix (c ∷ s) (b'{' ∷ p) ≡ o
    → (other ≡ some found → IsFound s c found)
    → or_else (path_escape value, length p) other o ≡ some found
    → IsFound s c found
or_else-IsFound value p s c other found none n e next h = next h
or_else-IsFound value p s c other found (some r) n e next h =
    subst (IsFound s c) (ap (or_found found) h)
      (record { value = path_escape-slashes value; behind = found-slashes p s r c n e })

placeholder-IsFound :
    (repo ref id s : Bytes) (c : ℕ) (found : Bytes × ℕ)
    → placeholder repo ref id (c ∷ s) ≡ some found
    → IsFound s c found
unfolding placeholder
placeholder-IsFound repo ref id s c found =
    or_else-IsFound repo (codes "repo}") s c _ found (cut_prefix (c ∷ s) (codes "{repo}")) refl refl
      (or_else-IsFound ref (codes "ref}") s c _ found (cut_prefix (c ∷ s) (codes "{ref}")) refl refl
        (or_else-IsFound id (codes "event-id}") s c none found
          (cut_prefix (c ∷ s) (codes "{event-id}")) refl refl (λ h. cc)))

substitute-none :
    (repo ref id : Bytes) (c : ℕ) (s : Bytes)
    → placeholder repo ref id (c ∷ s) ≡ none
    → substitute repo ref id 0 (c ∷ s) ≡ c ∷ substitute repo ref id 0 s
unfolding substitute
substitute-none repo ref id c s e = rw (e, substitute) refl

substitute-some :
    (repo ref id : Bytes) (c : ℕ) (s value : Bytes) (width : ℕ)
    → placeholder repo ref id (c ∷ s) ≡ some (value, width)
    → substitute repo ref id 0 (c ∷ s) ≡ value ++ substitute repo ref id width s
unfolding substitute
substitute-some repo ref id c s value width e = rw (e, substitute) refl

slashes-cons : (c : ℕ) (x y : Bytes) → slashes x ≡ slashes y → slashes (c ∷ x) ≡ slashes (c ∷ y)
slashes-cons c x y h = ap (λ l. if c == b'/' then c ∷ l else l) h

-- the text behind the bytes that are skipped has the slashes that the URL has
substitute-slashes :
    (repo ref id : Bytes) (skip : ℕ) (s : Bytes)
    → slashes (substitute repo ref id skip s) ≡ slashes (drop skip s)
unfolding substitute
substitute-slashes repo ref id zero [] = refl
substitute-slashes repo ref id (suc k) [] = refl
substitute-slashes repo ref id (suc k) (c ∷ s) = substitute-slashes repo ref id k s
substitute-slashes repo ref id zero (c ∷ s) =
    on_place (placeholder repo ref id (c ∷ s)) refl (λ k. substitute-slashes repo ref id k s)
  where
    on_place :
        (o : Option (Bytes × ℕ))
        → placeholder repo ref id (c ∷ s) ≡ o
        → ((k : ℕ) → slashes (substitute repo ref id k s) ≡ slashes (drop k s))
        → slashes (substitute repo ref id zero (c ∷ s)) ≡ slashes (c ∷ s)
    on_place none e ih =
        ap slashes (substitute-none repo ref id c s e)
        ∙ slashes-cons c (substitute repo ref id 0 s) s (ih 0)
    on_place (some (value, width)) e ih =
        let f = placeholder-IsFound repo ref id s c (value, width) e in
        ap slashes (substitute-some repo ref id c s value width e)
        ∙ select-append _ value (substitute repo ref id width s)
        ∙ ap (λ l. l ++ slashes (substitute repo ref id width s)) f.value
        ∙ ih width
        ∙ f.behind

-- The slashes of the URL are those of the template: no value adds one.
pub build_url-slashes :
    (template repo ref id : Bytes) → slashes (build_url template repo ref id) ≡ slashes template
unfolding build_url
build_url-slashes template repo ref id = substitute-slashes repo ref id 0 template
