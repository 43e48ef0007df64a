-- ===== src/Cli/Flags.antt =====
-- What the program uses of Go's package flag: `-name`, `--name`, `-name=value` and `-name value`, for
-- the flag config and, where it is defined, the Boolean flag yes. The first other argument ends the
-- flags, and so does `--`, which is taken away.
use gitd.Prelude.{
  ℕ, suc, zero, Bool, true, false, not, ◌&&◌, ◌||◌, List, [], ◌∷◌, Bytes, codes, Option, none, some,
  if◌then◌else◌, str_eq, is_nil, ◌==◌, cut, length, any,
}

pub record Flags : Type 0 where
  pub yes : Bool
  pub config : Bytes

-- defaultConfig
abbrev pub default_flags : Flags
default_flags = record { yes = false; config = codes "/etc/gitd/gitd.yaml" }

-- How an argument reads: as no flag, as the end of the flags, as a malformed flag, or as a flag with
-- the value that stands behind `=`.
pub data Token : Type 0 where
  positional terminator malformed : Token
  flag : Bytes → Option Bytes → Token

abbrev pub flag_parts : Option (Bytes × Bytes) → Bytes → Token
flag_parts none name = flag name none
flag_parts (some (n, v)) name = flag n (some v)

abbrev pub flag_of : Bytes → Token
flag_of [] = malformed
flag_of (c ∷ s) =
    if c == b'-' || c == b'=' then malformed else flag_parts (cut (c ∷ s) b'=') (c ∷ s)

unfoldable pub token : Bytes → Token
token [] = positional
token (c ∷ []) = positional
token (c ∷ d ∷ s) =
    if not (c == b'-')
    then positional
    else if not (d == b'-')
    then flag_of (d ∷ s)
    else if is_nil s
    then terminator
    else flag_of s

-- strconv.ParseBool
unfoldable pub parse_bool : Bytes → Option Bool
parse_bool v =
    if any (str_eq v)
      (codes "1" ∷ codes "t" ∷ codes "T" ∷ codes "true" ∷ codes "TRUE" ∷ codes "True" ∷ [])
    then some true
    else if any (str_eq v)
        (codes "0" ∷ codes "f" ∷ codes "F" ∷ codes "false" ∷ codes "FALSE" ∷ codes "False" ∷ [])
    then some false
    else none

abbrev pub set_yes : Flags → Option Bytes → Option Flags
set_yes f none = some (record f { yes = true })
set_yes f (some v) = elim (parse_bool v) [ none ↦ none | some b ↦ some (record f { yes = b }) ]

-- What one argument does: it ends the flags, is refused, sets a flag, or wants the next argument as
-- the value of config.
pub data Effect : Type 0 where
  stops stops_behind refused wants_value : Effect
  sets : Flags → Effect

abbrev pub yes_effect : Option Flags → Effect
yes_effect none = refused
yes_effect (some f) = sets f

abbrev pub flag_effect : Bool → Flags → Bytes → Option Bytes → Effect
flag_effect has_yes f name value =
    if has_yes && str_eq name (codes "yes")
    then yes_effect (set_yes f value)
    else if str_eq name (codes "config")
    then elim value [ none ↦ wants_value | some v ↦ sets (record f { config = v }) ]
    else refused

unfoldable pub effect : Bool → Flags → Token → Effect
effect has_yes f positional = stops
effect has_yes f terminator = stops_behind
effect has_yes f malformed = refused
effect has_yes f (flag name value) = flag_effect has_yes f name value

-- FlagSet.Parse: the flags, and the arguments that are left; `none` is an error
unfoldable pub parse : Bool → Flags → List Bytes → Option (Flags × List Bytes)
parse has_yes f [] = some (f, [])
parse has_yes f (a ∷ []) = elim (effect has_yes f (token a)) [
  | stops ↦ some (f, a ∷ [])
  | stops_behind ↦ some (f, [])
  | sets g ↦ some (g, [])
  | _ ↦ none
]
parse has_yes f (a ∷ b ∷ rest) = elim (effect has_yes f (token a)) [
  | stops ↦ some (f, a ∷ b ∷ rest)
  | stops_behind ↦ some (f, b ∷ rest)
  | sets g ↦ parse has_yes g (b ∷ rest)
  | wants_value ↦ parse has_yes (record f { config = b }) rest
  | refused ↦ none
]

abbrev pub push_positional : Bytes → Option (Flags × List Bytes) → Option (Flags × List Bytes)
push_positional a none = none
push_positional a (some (f, ws)) = some (f, a ∷ ws)

-- The loop of parseRepoFlags, on fuel: the parsing resumes behind each positional argument.
unfoldable pub parse_loop : ℕ → Flags → List Bytes → Option (Flags × List Bytes)
parse_loop zero f args = none
parse_loop (suc fuel) f args = elim (parse true f args) [
  | none ↦ none
  | some (g, []) ↦ some (g, [])
  | some (g, a ∷ rest) ↦ push_positional a (parse_loop fuel g rest)
]

-- Each round takes at least one argument away.
unfoldable pub parse_from : Flags → List Bytes → Option (Flags × List Bytes)
parse_from f args = parse_loop (suc (length args)) f args

unfoldable pub parse_all : List Bytes → Option (Flags × List Bytes)
parse_all args = parse_from default_flags args
