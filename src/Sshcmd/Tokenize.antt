-- ===== src/Sshcmd/Tokenize.antt =====
-- internal/sshcmd/tokenize.go: the tokenizer of SSH_ORIGINAL_COMMAND.
pub mod RoundTrip
pub mod Quotes
use gitd.Prelude.{
  ℕ, ◌≡◌, refl, Bool, true, false, not, ◌||◌, ◌&&◌, List, [], ◌∷◌, ◌++◌, foldl, Bytes, codes, ◌==◌,
  if◌then◌else◌,
}
use gitd.Prelude.Result.{Result, ok, err}

pub data TokenizeError : Type 0 where
  unterminated_quote : TokenizeError

-- the variables of the loop
pub record Scan : Type 0 where
  pub args : List Bytes
  pub cur : Bytes
  pub in_quote : Bool
  pub started : Bool

abbrev pub quote : ℕ
quote = b'\''

abbrev pub is_separator : ℕ → Bool
is_separator c = c == b' ' || c == b'\t' || c == b'\n' || c == b'\r'

abbrev pub start : Scan
start = record { args = []; cur = []; in_quote = false; started = false }

-- the body of the loop: the three cases of the switch
unfoldable pub step : Scan → ℕ → Scan
step s c =
    if c == quote
    then record s { in_quote = not s.in_quote; started = true }
    else if is_separator c && not s.in_quote
    then (if s.started
        then record s { args = s.args ++ (s.cur ∷ []); cur = []; started = false }
        else s)
    else record s { cur = s.cur ++ (c ∷ []); started = true }

unfoldable pub scan : Scan → Bytes → Scan
unfolding step
scan s [] = s
scan s (c ∷ cs) = scan (step s c) cs

-- what follows the loop
unfoldable pub finish : Scan → Result TokenizeError (List Bytes)
finish s =
    if s.in_quote
    then err unterminated_quote
    else ok (if s.started then s.args ++ (s.cur ∷ []) else s.args)

unfoldable pub parse_command : Bytes → Result TokenizeError (List Bytes)
unfolding scan finish
parse_command s = finish (scan start s)

upload_pack_example :
    parse_command (codes "git-upload-pack 'a b.git'")
    ≡ ok (codes "git-upload-pack" ∷ codes "a b.git" ∷ [])
unfolding parse_command
upload_pack_example = refl
