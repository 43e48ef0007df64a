-- ===== src/Cli/Fuel.antt =====
-- The loop of parseRepoFlags in internal/cli/repo.go, and its fuel.
use gitd.Prelude.{
  ◌∙◌, true, ℕ, suc, zero, ◌≡◌, ◌<◌, ◌≤◌, refl, ap, List, [], ◌∷◌, Bytes, Option, none, some,
  length, length-append, arith,
}
use gitd.Cli.Flags.{parse_from, Flags, parse, parse_loop, push_positional}
use gitd.Cli.Confirmed.{parse-IsRead}

parse-length :
    (f g : Flags) (args rest : List Bytes)
    → parse true f args ≡ some (g, rest)
    → length rest ≤ length args
parse-length f g args rest h =
    let r = parse-IsRead f g args rest h in
    omega (arith, ap length r.parts, length-append {0} r.taken rest)

-- any fuel above the number of arguments gives the same result
parse_loop-fuel :
    (n m : ℕ) (f : Flags) (args : List Bytes)
    → length args < n
    → length args < m
    → parse_loop n f args ≡ parse_loop m f args
unfolding parse_loop
parse_loop-fuel zero m f args p q = absurd (omega arith)
parse_loop-fuel (suc n) zero f args p q = absurd (omega arith)
parse_loop-fuel (suc n) (suc m) f args p q =
    on_parse (parse true f args) refl (λ g rest. parse_loop-fuel n m g rest)
  where
    on_parse :
        (o : Option (Flags × List Bytes))
        → parse true f args ≡ o
        → ((g : Flags) (rest : List Bytes)
            → length rest < n
            → length rest < m
            → parse_loop n g rest ≡ parse_loop m g rest)
        → parse_loop (suc n) f args ≡ parse_loop (suc m) f args
    on_parse none e ih = rw (e, parse_loop) refl
    on_parse (some (g, [])) e ih = rw (e, parse_loop) refl
    on_parse (some (g, a ∷ rest)) e ih =
        let short = parse-length f g args (a ∷ rest) e in
        rw (e, parse_loop) (ap (push_positional a) (ih g rest (omega arith) (omega arith)))

-- one round of the loop, with what reads the arguments that are left
abbrev pub resume :
    (Flags → List Bytes → Option (Flags × List Bytes))
    → Option (Flags × List Bytes)
    → Option (Flags × List Bytes)
resume loop none = none
resume loop (some (g, [])) = some (g, [])
resume loop (some (g, a ∷ rest)) = push_positional a (loop g rest)

parse_loop-resume :
    (n : ℕ) (f : Flags) (args : List Bytes)
    → parse_loop (suc n) f args ≡ resume (parse_loop n) (parse true f args)
unfolding parse_loop
parse_loop-resume n f args = on_parse (parse true f args)
  where
    on_parse :
        (o : Option (Flags × List Bytes))
        → elim o [
          | none ↦ none
          | some (g, []) ↦ some (g, [])
          | some (g, a ∷ rest) ↦ push_positional a (parse_loop n g rest)
        ]
          ≡ resume (parse_loop n) o
    on_parse none = refl
    on_parse (some (g, [])) = refl
    on_parse (some (g, a ∷ rest)) = refl

-- The fuel is enough: the parsing satisfies the equation of the loop itself, in which only a refused
-- flag fails and the parsing resumes behind each positional argument.
pub parse_from-resume :
    (f : Flags) (args : List Bytes) → parse_from f args ≡ resume parse_from (parse true f args)
unfolding parse_from
parse_from-resume f args =
    parse_loop-resume (length args) f args ∙ on_parse (parse true f args) refl
  where
    on_parse :
        (o : Option (Flags × List Bytes))
        → parse true f args ≡ o
        → resume (parse_loop (length args)) o ≡ resume parse_from o
    on_parse none e = refl
    on_parse (some (g, [])) e = refl
    on_parse (some (g, a ∷ rest)) e =
        let short = parse-length f g args (a ∷ rest) e in
        ap (push_positional a)
          (parse_loop-fuel (length args) (suc (length rest)) g rest (omega arith) (omega arith))
