-- ===== src/Sshcmd/Tokenize/RoundTrip.antt =====
-- ParseCommand of internal/sshcmd/tokenize.go on words that are quoted.
use gitd.Prelude.{
  ℕ, ◌≡◌, refl, ap, ◌∙◌, true, false, List, [], ◌∷◌, ◌++◌, Bytes, ◌==◌, arith, contains_byte, join,
  map,
}
use mathlib.Core.List.{append_assoc, append-nil}
use gitd.Prelude.Result.{ok}
use gitd.Sshcmd.Tokenize.{Scan, step, scan, finish, parse_command, quote}

-- a word in single quotes, as a git client sends it
abbrev pub quoted : Bytes → Bytes
quoted w = quote ∷ (w ++ (quote ∷ []))

-- the words in single quotes, with one space between them
abbrev pub quote_words : List Bytes → Bytes
quote_words ws = join b' ' (map quoted ws)

abbrev NoQuote : Bytes → Type 0
NoQuote w = contains_byte quote w ≡ false

abbrev pub AllNoQuote : List Bytes → Type 0
AllNoQuote [] = Unit
AllNoQuote (w ∷ ws) = NoQuote w × AllNoQuote ws

scan-append : (s : Scan) (x y : Bytes) → scan s (x ++ y) ≡ scan (scan s x) y
unfolding scan
scan-append s [] y = refl
scan-append s (c ∷ x) y = scan-append (step s c) x y

abbrev inside : List Bytes → Bytes → Scan
inside args cur = record { args = args; cur = cur; in_quote = true; started = true }

abbrev between : List Bytes → Bytes → Scan
between args cur = record { args = args; cur = cur; in_quote = false; started = true }

abbrev fresh : List Bytes → Scan
fresh args = record { args = args; cur = []; in_quote = false; started = false }

-- inside quotes every byte but the quote is collected
step-inside :
    (args : List Bytes) (cur : Bytes) (c : ℕ)
    → (c == quote) ≡ false
    → step (inside args cur) c ≡ inside args (cur ++ (c ∷ []))
unfolding step
step-inside args cur c h = ground arith

scan-inside :
    (args : List Bytes) (cur w : Bytes)
    → NoQuote w
    → scan (inside args cur) w ≡ inside args (cur ++ w)
unfolding scan
scan-inside args cur [] h = rw append-nil
scan-inside args cur (c ∷ w) h = rw (step-inside args cur c (ground arith)) (
    scan-inside args (cur ++ (c ∷ [])) w (ground arith)
    ∙ ap (inside args) (append_assoc cur (c ∷ []) w))

scan-quoted :
    (args : List Bytes) (w : Bytes) → NoQuote w → scan (fresh args) (quoted w) ≡ between args w
unfolding scan step
scan-quoted args w h =
    scan-append (inside args []) w (quote ∷ [])
    ∙ ap (λ s. scan s (quote ∷ [])) (scan-inside args [] w h)

-- a separator after a word starts the next one
scan-space :
    (args : List Bytes) (w r : Bytes)
    → scan (between args w) (b' ' ∷ r) ≡ scan (fresh (args ++ (w ∷ []))) r
unfolding scan step
scan-space args w r = refl

scan-quoted_then :
    (args : List Bytes) (w r : Bytes)
    → NoQuote w
    → scan (fresh args) (quoted w ++ (b' ' ∷ r)) ≡ scan (fresh (args ++ (w ∷ []))) r
scan-quoted_then args w r h =
    scan-append (fresh args) (quoted w) (b' ' ∷ r)
    ∙ ap (λ s. scan s (b' ' ∷ r)) (scan-quoted args w h)
    ∙ scan-space args w r

scan-words :
    (args : List Bytes) (w : Bytes) (ws : List Bytes)
    → NoQuote w
    → AllNoQuote ws
    → finish (scan (fresh args) (quote_words (w ∷ ws))) ≡ ok (args ++ (w ∷ ws))
unfolding finish join
scan-words args w [] h hs = rw (scan-quoted args w h)
scan-words args w (v ∷ ws) h hs =
    ap finish (scan-quoted_then args w (quote_words (v ∷ ws)) h)
    ∙ scan-words (args ++ (w ∷ [])) v ws hs.0 hs.1
    ∙ ap ok (append_assoc args (w ∷ []) (v ∷ ws))

-- A line of one or more words in single quotes, none holding a quote, parses to the words.
pub parse_command-quote_words :
    (w : Bytes) (ws : List Bytes)
    → AllNoQuote (w ∷ ws)
    → parse_command (quote_words (w ∷ ws)) ≡ ok (w ∷ ws)
unfolding parse_command
parse_command-quote_words w ws h = scan-words [] w ws h.0 h.1
