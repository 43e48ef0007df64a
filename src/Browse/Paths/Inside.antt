-- ===== src/Browse/Paths/Inside.antt =====
-- cleanRepoPath of internal/browse/git.go: the elements of the paths it accepts.
use gitd.Prelude.Split.{split-cons_sep, split-plain, split-append}
use gitd.Prelude.{
  str_eq_refl, str_eq_eq, ℕ, ◌≡◌, refl, sym, ap, ◌∙◌, Bool, true, false, ◌||◌, ◌⊎◌, inl, inr, List,
  [], ◌∷◌, ◌++◌, Bytes, codes, Option, none, some, str_eq, is_nil, split, join, push_first,
  contains_byte, last?, foldl, arith, Bool-cases, All, ◌==◌, All-append, has_prefix,
}
use mathlib.Core.List.{reverse-cons, reverse}
use mathlib.Core.Path.{subst}
use gitd.Prelude.Result.{ok}
use gitd.FilePath.{clean, clean_step, rejoin, slash, or_dot, is_rooted}
use gitd.Browse.Paths.{clean_repo_path, inside_or_err, escapes_repo, trim_prefix}

-- no slash in the element, and no `..`
abbrev NoSlash : Bytes → Type 0
NoSlash w = contains_byte slash w ≡ false

abbrev pub NotUp : Bytes → Type 0
NotUp w = str_eq w (codes "..") ≡ false

push_first-NoSlash :
    (c : ℕ) (ws : List Bytes)
    → (c == slash) ≡ false
    → All NoSlash ws
    → All NoSlash (push_first c ws)
push_first-NoSlash c [] h a = (rw h refl, tt)
push_first-NoSlash c (w ∷ ws) h (x, a) = (rw (h, x) refl, a)

split-NoSlash : (s : Bytes) → All NoSlash (split s slash)
unfolding split
split-NoSlash [] = (refl, tt)
split-NoSlash (c ∷ s) = elim (Bool-cases (c == slash)) [
  | inl e ↦ rw e (refl, split-NoSlash s)
  | inr e ↦ rw e (push_first-NoSlash c (split s slash) e (split-NoSlash s))
]

-- joining and splitting again
split-join :
    (w : Bytes) (ws : List Bytes)
    → NoSlash w
    → All NoSlash ws
    → split (join slash (w ∷ ws)) slash ≡ w ∷ ws
unfolding join
split-join w [] h a = split-plain w slash h
split-join w (v ∷ ws) h (x, a) =
    split-append w (join slash (v ∷ ws)) slash
    ∙ ap (λ l. l ++ split (join slash (v ∷ ws)) slash) (split-plain w slash h)
    ∙ ap (λ l. w ∷ l) (split-join v ws x a)

-- What Clean keeps, the last element first: elements without a slash that are not empty, and either no
-- `..` among them, or a `..` at the front of the path, which a rooted path has not.
abbrev Plain : Bytes → Type 0
Plain w = NoSlash w × (is_nil w ≡ false)

abbrev Ups : Bool → List Bytes → Type 0
Ups rooted k = All NotUp k ⊎ ((rooted ≡ false) × (last? k ≡ some (codes "..")))

clean_step-Plain :
    (rooted : Bool) (k : List Bytes) (w : Bytes)
    → NoSlash w
    → All Plain k
    → All Plain (clean_step rooted k w)
unfolding clean_step
clean_step-Plain rooted [] w n a = ground arith
clean_step-Plain rooted (v ∷ k) w n (x, a) = ground arith

last?-cons : (v : Bytes) (k : List Bytes) (u : Bytes) → last? k ≡ some u → last? (v ∷ k) ≡ some u
last?-cons v [] u h = cc
last?-cons v (x ∷ k) u h = h

abbrev or_nil : Option Bytes → Bytes
or_nil none = []
or_nil (some w) = w

last?-tail :
    (v : Bytes) (k : List Bytes)
    → str_eq v (codes "..") ≡ false
    → last? (v ∷ k) ≡ some (codes "..")
    → last? k ≡ some (codes "..")
last?-tail v [] e h = cc (e, ap or_nil h, str_eq_refl (codes ".."))
last?-tail v (x ∷ k) e h = h

up-Ups :
    (rooted : Bool) (k : List Bytes) (w : Bytes)
    → str_eq w (codes "..") ≡ true
    → Ups rooted k
    → Ups rooted (clean_step rooted k w)
unfolding clean_step
up-Ups rooted [] w e i = ground arith
up-Ups rooted (v ∷ k) w e i = elim (Bool-cases (str_eq v (codes ".."))) [
  | inl u ↦ rw (e, u, str_eq_eq w (codes "..") e) (elim i [ inl (q, a) ↦ cc | inr b ↦ inr b ])
  | inr u ↦
      rw (e, u, str_eq_eq w (codes "..") e)
        (elim i [ inl (q, a) ↦ inl a | inr (r, l) ↦ inr (r, last?-tail v k u l) ])
]

clean_step-Ups :
    (rooted : Bool) (k : List Bytes) (w : Bytes) → Ups rooted k → Ups rooted (clean_step rooted k w)
unfolding clean_step
clean_step-Ups rooted k w i = elim (Bool-cases (is_nil w || str_eq w (codes "."))) [
  | inl e ↦ rw e i
  | inr e ↦ elim (Bool-cases (str_eq w (codes ".."))) [
    | inl u ↦ up-Ups rooted k w u i
    | inr u ↦
        rw (e, u)
          (elim i [ inl a ↦ inl (u, a) | inr (r, l) ↦ inr (r, last?-cons w k (codes "..") l) ])
  ]
]

-- the elements are kept so, from the first to the last
steps-kept :
    (rooted : Bool) (ws k : List Bytes)
    → All NoSlash ws
    → All Plain k
    → Ups rooted k
    → All Plain (foldl (clean_step rooted) k ws) × Ups rooted (foldl (clean_step rooted) k ws)
steps-kept rooted [] k n a u = (a, u)
steps-kept rooted (w ∷ ws) k (x, n) a u =
    steps-kept rooted ws (clean_step rooted k w) n (clean_step-Plain rooted k w x a)
      (clean_step-Ups rooted k w u)

All-reverse : (P : Bytes → Type 0) (k : List Bytes) → All P k → All P (reverse k)
All-reverse P [] a = tt
All-reverse P (w ∷ k) (x, a) =
    rw (reverse-cons w k) (All-append P (reverse k) (w ∷ []) (All-reverse P k a) (x, tt))

-- the first element of what is put together
abbrev Starts : Bytes → List Bytes → Type 0
Starts w r = (ws : List Bytes) × (r ≡ w ∷ ws)

reverse-last? : (k : List Bytes) (u : Bytes) → last? k ≡ some u → Starts u (reverse k)
reverse-last? [] u h = cc
reverse-last? (w ∷ []) u h = ([], ap (λ o. or_nil o ∷ []) h)
reverse-last? (w ∷ v ∷ k) u h =
    let (ws, e) = reverse-last? (v ∷ k) u h in
    (ws ++ (w ∷ []), reverse-cons w (v ∷ k) ∙ ap (λ l. l ++ (w ∷ [])) e)

-- what is accepted is the cleaned path, or empty
accepted : (c q : Bytes) → inside_or_err c ≡ ok q → (q ≡ []) ⊎ ((q ≡ c) × (escapes_repo c ≡ false))
accepted c q h = ground arith

up-escapes : (ws : List Bytes) → escapes_repo (join slash (codes ".." ∷ ws)) ≡ true
unfolding join str_eq has_prefix
up-escapes [] = refl
up-escapes (w ∷ ws) = refl

abbrev Inside : Bytes → Type 0
Inside q = All NotUp (split q slash)

Inside-nil : {q : Bytes} → q ≡ [] → Inside q
unfolding split str_eq
Inside-nil e = rw e (refl, tt)

Plain-NoSlash : (r : List Bytes) → All Plain r → All NoSlash r
Plain-NoSlash [] a = tt
Plain-NoSlash (w ∷ r) ((x, y), a) = (x, Plain-NoSlash r a)

join-Inside : (r : List Bytes) → All Plain r → All NotUp r → Inside (join slash r)
unfolding join
join-Inside [] a n = Inside-nil refl
join-Inside (w ∷ ws) ((x, y), a) n =
    subst (λ l. All NotUp l) (sym (split-join w ws x (Plain-NoSlash ws a))) n

rooted_join-Inside : (r : List Bytes) → All Plain r → All NotUp r → Inside (slash ∷ join slash r)
unfolding str_eq
rooted_join-Inside r a n =
    subst (λ l. All NotUp l) (sym (split-cons_sep slash (join slash r))) (refl, join-Inside r a n)

or_dot-join :
    (w : Bytes) (ws : List Bytes)
    → is_nil w ≡ false
    → or_dot (join slash (w ∷ ws)) ≡ join slash (w ∷ ws)
unfolding join
or_dot-join [] ws h = cc
or_dot-join (c ∷ w) [] h = refl
or_dot-join (c ∷ w) (v ∷ ws) h = refl

accepted-Inside : (c q : Bytes) → Inside c → inside_or_err c ≡ ok q → Inside q
accepted-Inside c q i h = elim (accepted c q h) [
  | inl e ↦ Inside-nil e
  | inr (e, f) ↦ subst Inside (sym e) i
]

-- what a list of elements comes to, for a path that is not rooted
relative-Inside :
    (r : List Bytes) (q : Bytes)
    → All Plain r
    → All NotUp r
    → inside_or_err (or_dot (join slash r)) ≡ ok q
    → Inside q
unfolding join str_eq
relative-Inside [] q a n h = Inside-nil (cc h)
relative-Inside (w ∷ ws) q ((x, y), a) n h =
    accepted-Inside (join slash (w ∷ ws)) q (join-Inside (w ∷ ws) ((x, y), a) n)
      (rw (or_dot-join w ws y) at h)

-- a path that begins with `..` is not accepted
up-refused :
    (r : List Bytes) (q : Bytes)
    → Starts (codes "..") r
    → inside_or_err (or_dot (join slash r)) ≡ ok q
    → Inside q
up-refused r q (ws, e) h =
    elim (accepted (join slash (codes ".." ∷ ws)) q
      (rw (or_dot-join (codes "..") ws refl) at (rw e at h))) [
        | inl z ↦ Inside-nil z
        | inr (z, f) ↦ cc (f, up-escapes ws)
      ]

rejoin-Inside :
    (rooted : Bool) (k : List Bytes) (q : Bytes)
    → All Plain k
    → Ups rooted k
    → inside_or_err (rejoin rooted k) ≡ ok q
    → Inside q
rejoin-Inside true k q a (inl n) h =
    accepted-Inside (slash ∷ join slash (reverse k)) q
      (rooted_join-Inside (reverse k) (All-reverse Plain k a) (All-reverse NotUp k n)) h
rejoin-Inside false k q a (inl n) h =
    relative-Inside (reverse k) q (All-reverse Plain k a) (All-reverse NotUp k n) h
rejoin-Inside true k q a (inr (z, l)) h = cc
rejoin-Inside false k q a (inr (z, l)) h =
    up-refused (reverse k) q (reverse-last? k (codes "..") l) h

clean-Inside : (p q : Bytes) → inside_or_err (clean p) ≡ ok q → Inside q
unfolding clean
clean-Inside p q h =
    let (a, u) = steps-kept (is_rooted p) (split p slash) [] (split-NoSlash p) tt (inl tt) in
    rejoin-Inside (is_rooted p) (foldl (clean_step (is_rooted p)) [] (split p slash)) q a u h

-- A path that is accepted is empty or has no element `..`.
pub clean_repo_path-inside : (p q : Bytes) → clean_repo_path p ≡ ok q → All NotUp (split q slash)
unfolding clean_repo_path clean
clean_repo_path-inside [] q h = Inside-nil {q = q} (cc h)
clean_repo_path-inside (c ∷ p) q h = clean-Inside (trim_prefix (c ∷ p) (codes "/")) q h
