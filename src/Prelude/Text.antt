-- ===== src/Prelude/Text.antt =====
-- Go strings as their bytes, and what the program uses of package strings. White space is that of
-- unicode.IsSpace, read from its UTF-8 encoding.
use Prim.Native.Nat.{ℕ, zero, suc, ◌+◌, pred}
use Prim.Native.Char.{code}
use Prim.Native.String.{String}
use mathlib.Core.Path.{◌≡◌, refl}
use mathlib.Core.Logic.{◌↔◌}
use mathlib.Core.Bool.{Bool, true, false, ◌&&◌, ◌||◌}
use mathlib.Core.Option.{Option, none, some}
use mathlib.Core.List.{List, [], ◌∷◌, ◌++◌}
use native.Mathlib.Omega.{arith}
use gitd.Prelude.Tests.{◌==◌, leb, if◌then◌else◌}
use gitd.Prelude.Lists.{take, is_nil, any}

abbrev pub Bytes : Type 0
Bytes = List ℕ

-- The code points of a literal: its bytes, since every literal used is ASCII.
abbrev pub codes : String → Bytes
codes String.[] = []
codes (String.◌∷◌ c s) = code c ∷ codes s

-- `a == b`
unfoldable pub str_eq : Bytes → Bytes → Bool
str_eq [] [] = true
str_eq [] (b ∷ y) = false
str_eq (a ∷ x) [] = false
str_eq (a ∷ x) (b ∷ y) = a == b && str_eq x y

pub str_eq_refl : (x : Bytes) → str_eq x x ≡ true
unfolding str_eq
str_eq_refl [] = refl
str_eq_refl (a ∷ x) = ground (arith, str_eq_refl x)

pub str_eq_eq : (x y : Bytes) → str_eq x y ≡ true → x ≡ y
unfolding str_eq
str_eq_eq [] [] h = refl
str_eq_eq [] (b ∷ y) h = cc
str_eq_eq (a ∷ x) [] h = cc
str_eq_eq (a ∷ x) (b ∷ y) h = ground (arith, str_eq_eq x y)

pub str_eq_iff : (x y : Bytes) → (str_eq x y ≡ true) ↔ (x ≡ y)
str_eq_iff x y = (str_eq_eq x y, λ e. rw e (str_eq_refl y))

-- strings.HasPrefix
unfoldable pub has_prefix : Bytes → Bytes → Bool
has_prefix s [] = true
has_prefix [] (p ∷ ps) = false
has_prefix (c ∷ s) (p ∷ ps) = c == p && has_prefix s ps

-- strings.CutPrefix; `none` is the false result
unfoldable pub cut_prefix : Bytes → Bytes → Option Bytes
cut_prefix s [] = some s
cut_prefix [] (p ∷ ps) = none
cut_prefix (c ∷ s) (p ∷ ps) = let rest = cut_prefix s ps in if c == p then rest else none

-- strings.CutSuffix; `none` is the false result
unfoldable pub cut_suffix : Bytes → Bytes → Option Bytes
unfolding str_eq
cut_suffix [] p = if str_eq [] p then some [] else none
cut_suffix (c ∷ s) p =
    let rest = cut_suffix s p in
    if str_eq (c ∷ s) p then some [] else elim rest [ none ↦ none | some r ↦ some (c ∷ r) ]

-- strings.HasSuffix
unfoldable pub has_suffix : Bytes → Bytes → Bool
unfolding str_eq
has_suffix [] p = str_eq [] p
has_suffix (c ∷ s) p = str_eq (c ∷ s) p || has_suffix s p

-- strings.Cut by one byte: what stands before and after its first occurrence
unfoldable pub cut : Bytes → ℕ → Option (Bytes × Bytes)
cut [] b = none
cut (c ∷ s) b =
    let rest = cut s b in
    if c == b then some ([], s) else elim rest [ none ↦ none | some (x, y) ↦ some (c ∷ x, y) ]

-- one byte in front of the first element
abbrev pub push_first : ℕ → List Bytes → List Bytes
push_first c [] = (c ∷ []) ∷ []
push_first c (w ∷ ws) = (c ∷ w) ∷ ws

-- strings.Split by one byte: never empty
unfoldable pub split : Bytes → ℕ → List Bytes
split [] b = [] ∷ []
split (c ∷ s) b = if c == b then [] ∷ split s b else push_first c (split s b)

-- strings.Contains of one byte
abbrev pub contains_byte : ℕ → Bytes → Bool
contains_byte b = any (λ c. c == b)

-- The number of bytes of the white-space character at the head, 0 where there is none. A lead byte
-- is never a continuation byte, so reading byte by byte finds the characters that a decoder finds.
unfoldable pub space_width : Bytes → ℕ
space_width [] = 0
space_width (c ∷ []) = if (leb 9 c && leb c 13) || c == 32 then 1 else 0
space_width (c ∷ d ∷ []) =
    if (leb 9 c && leb c 13) || c == 32
    then 1
    else if c == 0xC2 && (d == 0x85 || d == 0xA0)
    then 2
    else 0
space_width (c ∷ d ∷ e ∷ _) =
    if (leb 9 c && leb c 13) || c == 32
    then 1
    else if c == 0xC2 && (d == 0x85 || d == 0xA0)
    then 2
    else if c == 0xE1 && d == 0x9A && e == 0x80
    then 3
    else if c == 0xE2
        && d == 0x80
        && (leb 0x80 e && leb e 0x8A || e == 0xA8 || e == 0xA9 || e == 0xAF)
    then 3
    else if c == 0xE2 && d == 0x81 && e == 0x9F
    then 3
    else if c == 0xE3 && d == 0x80 && e == 0x80
    then 3
    else 0

-- strings.Fields: `skip` bytes belong to the white-space character just met, `cur` is the field
-- read so far.
unfoldable pub fields_from : ℕ → Bytes → Bytes → List Bytes
fields_from skip cur [] = if is_nil cur then [] else cur ∷ []
fields_from (suc k) cur (c ∷ s) = fields_from k cur s
fields_from zero cur (c ∷ s) =
    let w = space_width (c ∷ s) in
    let rest = fields_from (pred w) (if w == 0 then cur ++ (c ∷ []) else []) s in
    if w == 0 then rest else if is_nil cur then rest else cur ∷ rest

unfoldable pub fields : Bytes → List Bytes
fields s = fields_from 0 [] s

-- strings.TrimSpace: the white space in front is dropped, then what follows the last other byte.
unfoldable pub trim_left : ℕ → Bytes → Bytes
trim_left skip [] = []
trim_left (suc k) (c ∷ s) = trim_left k s
trim_left zero (c ∷ s) =
    let w = space_width (c ∷ s) in let rest = trim_left (pred w) s in if w == 0 then c ∷ s else rest

-- the position behind the last byte that is no white space; `here` bytes are read
unfoldable pub text_end : ℕ → ℕ → ℕ → Bytes → ℕ
text_end skip end here [] = end
text_end (suc k) end here (c ∷ s) = text_end k end (here + 1) s
text_end zero end here (c ∷ s) =
    let w = space_width (c ∷ s) in text_end (pred w) (if w == 0 then here + 1 else end) (here + 1) s

unfoldable pub trim_space : Bytes → Bytes
trim_space s = let t = trim_left 0 s in take (text_end 0 0 0 t) t

-- strings.Join by one byte
unfoldable pub join : ℕ → List Bytes → Bytes
join b [] = []
join b (w ∷ []) = w
join b (w ∷ v ∷ ws) = w ++ (b ∷ join b (v ∷ ws))

fields_example : fields (codes " a  bc\t") ≡ codes "a" ∷ codes "bc" ∷ []
unfolding fields fields_from space_width
fields_example = refl

trim_space_example : trim_space (codes "  a b \n") ≡ codes "a b"
unfolding trim_space text_end trim_left space_width
trim_space_example = refl

cut_suffix_example : cut_suffix (codes "90d") (codes "d") ≡ some (codes "90")
unfolding cut_suffix
cut_suffix_example = refl
