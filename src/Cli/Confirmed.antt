-- ===== src/Cli/Confirmed.antt =====
-- runRepo of internal/cli/repo.go: the flag --yes and the deletion of a repository.
use gitd.Cli.Flags.{
  parse_from, push_positional, parse_loop, parse_all, default_flags, Flags, Token, positional,
  terminator, malformed, flag, token, parse_bool, Effect, stops, stops_behind, refused, wants_value,
  sets, effect, parse,
}
use gitd.Cli.{Option, parse_repo_flags, delete_repo, run_repo, repo_job}
use mathlib.Core.Path.{subst}
use gitd.Prelude.Result.{ok}
use gitd.Repo.{valid_name}
use gitd.Prelude.{
  ◌||◌, ◌∙◌, arith, zero, suc, ℕ, ◌++◌, ◌⊎◌, inl, inr, ap, refl, ◌≡◌, Bool, true, false, ◌&&◌, List,
  [], ◌∷◌, Bytes, codes, none, some, str_eq, any,
}

-- The argument is `-yes`, `--yes`, or one of these with a true value.
abbrev pub confirms : Token → Bool
confirms (flag name none) = str_eq name (codes "yes")
confirms (flag name (some v)) =
    str_eq name (codes "yes") && elim (parse_bool v) [ some b ↦ b | none ↦ false ]
confirms t = false

abbrev pub is_yes : Bytes → Bool
is_yes a = confirms (token a)

-- A flag that sets yes is one that confirms.
sets-confirms :
    (f g : Flags) (t : Token)
    → effect true f t ≡ sets g
    → g.yes ≡ true
    → (f.yes ≡ true) ⊎ (confirms t ≡ true)
unfolding effect
sets-confirms f g positional h y = cc
sets-confirms f g terminator h y = cc
sets-confirms f g malformed h y = cc
sets-confirms f g (flag name none) h y = ground arith
sets-confirms f g (flag name (some v)) h y = ground arith

effect-confirms :
    (f g : Flags) (a : Bytes) (rest : List Bytes)
    → effect true f (token a) ≡ sets g
    → g.yes ≡ true
    → (f.yes ≡ true) ⊎ (any is_yes (a ∷ rest) ≡ true)
effect-confirms f g a rest p y = elim (sets-confirms f g (token a) p y) [
  | inl q ↦ inl q
  | inr q ↦ inr (rw q refl)
]

later :
    (f : Flags) (a : Bytes) (rest : List Bytes)
    → (f.yes ≡ true) ⊎ (any is_yes rest ≡ true)
    → (f.yes ≡ true) ⊎ (any is_yes (a ∷ rest) ≡ true)
later f a rest (inl q) = inl q
later f a rest (inr q) = inr (ground arith)

-- What is left, and whether the flag was set by one of the arguments that were read.
pub record IsRead (f g : Flags) (args rest : List Bytes) : Type 0 where
  pub taken : List Bytes
  pub parts : args ≡ taken ++ rest
  pub set_by : g.yes ≡ true → (f.yes ≡ true) ⊎ (any is_yes taken ≡ true)

IsRead-nothing : (f : Flags) (args : List Bytes) → IsRead f f args args
IsRead-nothing f args = record { taken = []; parts = refl; set_by = λ y. inl y }

moved :
    (f g : Flags) (args rest : List Bytes) {g' : Flags} {rest' : List Bytes}
    → IsRead f g args rest
    → ◌≡◌ {A = Flags × List Bytes} (g, rest) (g', rest')
    → IsRead f g' args rest'
moved f g args rest r e = subst {A = Flags × List Bytes} (λ x. IsRead f x.0 args x.1) e r

set_one :
    (f g : Flags) (a : Bytes) (rest : List Bytes)
    → effect true f (token a) ≡ sets g
    → IsRead f g (a ∷ rest) rest
set_one f g a rest p = record { taken = a ∷ []; parts = refl; set_by = effect-confirms f g a [] p }

then-IsRead :
    (f g h : Flags) (a : Bytes) (args rest : List Bytes)
    → effect true f (token a) ≡ sets g
    → IsRead g h args rest
    → IsRead f h (a ∷ args) rest
then-IsRead f g h a args rest p r = record {
  taken = a ∷ r.taken;
  parts = ap (λ l. a ∷ l) r.parts;
  set_by = λ y. elim (r.set_by y) [
    | inl q ↦ effect-confirms f g a r.taken p q
    | inr q ↦ later f a r.taken (inr q)
  ];
}

-- one call of Parse
pub parse-IsRead :
    (f g : Flags) (args rest : List Bytes)
    → parse true f args ≡ some (g, rest)
    → IsRead f g args rest
unfolding parse
parse-IsRead f g [] rest h = moved f f [] [] (IsRead-nothing f []) (cc h)
parse-IsRead f g (a ∷ []) rest h = on_effect (effect true f (token a)) refl
  where
    on_effect : (e : Effect) → effect true f (token a) ≡ e → IsRead f g (a ∷ []) rest
    on_effect stops p =
        moved f f (a ∷ []) (a ∷ []) (IsRead-nothing f (a ∷ [])) (cc (rw (p, parse) at h))
    on_effect stops_behind p =
        moved f f (a ∷ []) [] (record { taken = a ∷ []; parts = refl; set_by = λ y. inl y })
          (cc (rw (p, parse) at h))
    on_effect refused p = cc (rw (p, parse) at h)
    on_effect wants_value p = cc (rw (p, parse) at h)
    on_effect (sets x) p = moved f x (a ∷ []) [] (set_one f x a [] p) (cc (rw (p, parse) at h))
parse-IsRead f g (a ∷ b ∷ args) rest h =
    on_effect (effect true f (token a)) refl (λ x. parse-IsRead x g (b ∷ args) rest)
      (parse-IsRead (record f { config = b }) g args rest)
  where
    on_effect :
        (e : Effect)
        → effect true f (token a) ≡ e
        → ((x : Flags) → parse true x (b ∷ args) ≡ some (g, rest) → IsRead x g (b ∷ args) rest)
        → (parse true (record f { config = b }) args ≡ some (g, rest)
            → IsRead (record f { config = b }) g args rest)
        → IsRead f g (a ∷ b ∷ args) rest
    on_effect stops p ih ih' =
        moved f f (a ∷ b ∷ args) (a ∷ b ∷ args) (IsRead-nothing f (a ∷ b ∷ args))
          (cc (rw (p, parse) at h))
    on_effect stops_behind p ih ih' =
        moved f f (a ∷ b ∷ args) (b ∷ args)
          (record { taken = a ∷ []; parts = refl; set_by = λ y. inl y }) (cc (rw (p, parse) at h))
    on_effect refused p ih ih' = cc (rw (p, parse) at h)
    on_effect wants_value p ih ih' =
        let r = ih' (rw (p, parse) at h) in
        record {
          taken = a ∷ b ∷ r.taken;
          parts = ap (λ l. a ∷ b ∷ l) r.parts;
          set_by = λ y. elim (r.set_by y) [ inl q ↦ inl q | inr q ↦ inr (ground arith) ];
        }
    on_effect (sets x) p ih ih' = then-IsRead f x g a (b ∷ args) rest p (ih x (rw (p, parse) at h))

any-append : (q : Bytes → Bool) (xs ys : List Bytes) → any q (xs ++ ys) ≡ (any q xs || any q ys)
any-append q [] ys = refl
any-append q (x ∷ xs) ys = ground (arith, any-append q xs ys)

-- the loop: if the flag is set at the end, it was set before or by some argument
loop-confirms :
    (n : ℕ) (f g : Flags) (args ps : List Bytes)
    → parse_loop n f args ≡ some (g, ps)
    → g.yes ≡ true
    → (f.yes ≡ true) ⊎ (any is_yes args ≡ true)
unfolding parse_loop
loop-confirms zero f g args ps h y = cc
loop-confirms (suc n) f g args ps h y =
    on_parse (parse true f args) refl (λ x l qs. loop-confirms n x g l qs)
  where
    Claim : Type 0
    Claim = (f.yes ≡ true) ⊎ (any is_yes args ≡ true)

    from_read :
        (x : Flags) (l : List Bytes)
        → IsRead f x args l
        → (x.yes ≡ true) ⊎ (any is_yes l ≡ true)
        → Claim
    from_read x l r (inl q) = elim (r.set_by q) [
      | inl z ↦ inl z
      | inr z ↦ inr (ap (any is_yes) r.parts ∙ any-append is_yes r.taken l ∙ ground arith)
    ]
    from_read x l r (inr q) =
        inr (ap (any is_yes) r.parts ∙ any-append is_yes r.taken l ∙ ground arith)

    on_rest :
        (x : Flags) (a : Bytes) (l : List Bytes) (o : Option (Flags × List Bytes))
        → parse_loop n x l ≡ o
        → push_positional a o ≡ some (g, ps)
        → ((qs : List Bytes)
            → parse_loop n x l ≡ some (g, qs)
            → (x.yes ≡ true) ⊎ (any is_yes l ≡ true))
        → (x.yes ≡ true) ⊎ (any is_yes l ≡ true)
    on_rest x a l none p q ih = cc
    on_rest x a l (some (z, qs)) p q ih = ih qs (p ∙ cc q)

    on_parse :
        (o : Option (Flags × List Bytes))
        → parse true f args ≡ o
        → ((x : Flags) (l qs : List Bytes)
            → parse_loop n x l ≡ some (g, qs)
            → g.yes ≡ true
            → (x.yes ≡ true) ⊎ (any is_yes l ≡ true))
        → Claim
    on_parse none p ih = cc (rw (p, parse_loop) at h)
    on_parse (some (x, [])) p ih =
        from_read x [] (parse-IsRead f x args [] p) (inl (cc (rw (p, parse_loop) at h, y)))
    on_parse (some (x, a ∷ l)) p ih = from_read x (a ∷ l) (parse-IsRead f x args (a ∷ l) p) (
        later x a l
          (on_rest x a l (parse_loop n x l) refl (rw (p, parse_loop) at h) (λ qs e. ih x l qs e y)))

all-confirms :
    (g : Flags) (args ps : List Bytes)
    → parse_all args ≡ some (g, ps)
    → g.yes ≡ true
    → any is_yes args ≡ true
unfolding parse_all parse_from
all-confirms g args ps p y = elim (loop-confirms _ default_flags g args ps p y) [
  | inl q ↦ cc
  | inr q ↦ q
]

-- Work that deletes a repository comes only from arguments of which one confirms it, and names a
-- valid repository.
pub run_repo-confirmed :
    (args : List Bytes) (name : Bytes)
    → run_repo args ≡ ok (delete_repo name)
    → (valid_name name ≡ true) × (any is_yes args ≡ true)
unfolding run_repo parse_repo_flags
run_repo-confirmed args name h = on_flags (parse_all args) refl
  where
    on_job :
        (c : Bool) (ps : List Bytes)
        → repo_job c ps ≡ ok (delete_repo name)
        → (valid_name name ≡ true) × (c ≡ true)
    on_job c [] k = cc
    on_job c (sub ∷ []) k = ground arith
    on_job c (sub ∷ a ∷ []) k = ground arith
    on_job c (sub ∷ a ∷ b ∷ ps) k = ground arith

    on_flags :
        (o : Option (Flags × List Bytes))
        → parse_all args ≡ o
        → (valid_name name ≡ true) × (any is_yes args ≡ true)
    on_flags none p = cc (rw (p, run_repo, parse_repo_flags) at h)
    on_flags (some (g, ps)) p =
        let (v, y) = on_job g.yes ps (rw (p, run_repo, parse_repo_flags) at h) in
        (v, all-confirms g args ps p y)
