-- ===== src/Sshcmd/Tokenize/Quotes.antt =====
-- ParseCommand of internal/sshcmd/tokenize.go: its failures, the quotes in its words, and lines
-- without quotes.
use gitd.Prelude.{
  push_first, sym, ℕ, ◌≡◌, refl, ap, sym, ◌∙◌, ◌↔◌, Bool, true, false, not, ◌&&◌, List, [], ◌∷◌,
  ◌++◌, Bytes, ◌==◌, arith, contains_byte, select, is_nil, if◌then◌else◌, All, All-append,
  Bool-cases, inl, inr,
}
use mathlib.Core.List.{append_assoc, append-nil}
use gitd.Prelude.Result.{ok, err}
use gitd.Sshcmd.Tokenize.{
  unterminated_quote, Scan, step, scan, finish, parse_command, start, quote, is_separator,
}

-- whether the text has an odd number of quotes
abbrev pub odd_quotes : Bytes → Bool
odd_quotes [] = false
odd_quotes (c ∷ s) = if c == quote then not (odd_quotes s) else odd_quotes s

abbrev flip_if : Bool → Bool → Bool
flip_if true b = not b
flip_if false b = b

in_quote-step :
    (s : Scan) (c : ℕ) → (step s c).in_quote ≡ (if c == quote then not s.in_quote else s.in_quote)
unfolding step
in_quote-step s c = ground arith

in_quote-scan : (s : Scan) (x : Bytes) → (scan s x).in_quote ≡ flip_if (odd_quotes x) s.in_quote
unfolding scan
in_quote-scan s [] = refl
in_quote-scan s (c ∷ x) = in_quote-scan (step s c) x ∙ ground (arith, in_quote-step s c)

-- Parsing fails exactly on the texts with an odd number of single quotes.
pub parse_command-err :
    (s : Bytes) → (parse_command s ≡ err unterminated_quote) ↔ (odd_quotes s ≡ true)
unfolding parse_command
parse_command-err s = ground (arith, in_quote-scan start s)

abbrev pub NoQuote : Bytes → Type 0
NoQuote w = contains_byte quote w ≡ false

record IsClean (s : Scan) : Type 0 where
  words : All NoQuote s.args
  current : NoQuote s.cur

NoQuote-snoc : (w : Bytes) (c : ℕ) → (c == quote) ≡ false → NoQuote w → NoQuote (w ++ (c ∷ []))
NoQuote-snoc [] c h k = ground arith
NoQuote-snoc (d ∷ w) c h k = ground (arith, NoQuote-snoc w c h)

step-IsClean : (s : Scan) (c : ℕ) → IsClean s → IsClean (step s c)
unfolding step
step-IsClean s c h = elim (Bool-cases (c == quote)) [
  | inl q ↦ rw q (record { words = h.words; current = h.current })
  | inr q ↦ elim (Bool-cases (is_separator c && not s.in_quote)) [
    | inl e ↦
        rw (q, e)
          (elim (Bool-cases s.started) [
            | inl b ↦ rw b (record {
              words = All-append NoQuote s.args (s.cur ∷ []) h.words (h.current, tt);
              current = refl;
            })
            | inr b ↦ simp b h
          ])
    | inr e ↦ rw (q, e) (record { words = h.words; current = NoQuote-snoc s.cur c q h.current })
  ]
]

scan-IsClean : (s : Scan) (x : Bytes) → IsClean s → IsClean (scan s x)
unfolding scan
scan-IsClean s [] h = h
scan-IsClean s (c ∷ x) h = scan-IsClean (step s c) x (step-IsClean s c h)

abbrev final_words : Scan → List Bytes
final_words s = if s.started then s.args ++ (s.cur ∷ []) else s.args

final_words-AllNoQuote : (s : Scan) → IsClean s → All NoQuote (final_words s)
final_words-AllNoQuote s h = elim (Bool-cases s.started) [
  | inl b ↦ simp b (All-append NoQuote s.args (s.cur ∷ []) h.words (h.current, tt))
  | inr b ↦ simp b h.words
]

finish-final_words : (s : Scan) (ws : List Bytes) → finish s ≡ ok ws → ws ≡ final_words s
unfolding finish
finish-final_words s ws e = ground arith

finish-AllNoQuote : (s : Scan) (ws : List Bytes) → IsClean s → finish s ≡ ok ws → All NoQuote ws
finish-AllNoQuote s ws h e = rw (finish-final_words s ws e) (final_words-AllNoQuote s h)

-- No word that parsing returns holds a single quote.
parse_command-AllNoQuote : (s : Bytes) (ws : List Bytes) → parse_command s ≡ ok ws → All NoQuote ws
unfolding parse_command
parse_command-AllNoQuote s ws e =
    finish-AllNoQuote (scan start s) ws
      (scan-IsClean start s (record { words = tt; current = refl })) e

-- the words between separators, by a reference definition
abbrev pub split_words : Bytes → List Bytes
split_words [] = [] ∷ []
split_words (c ∷ s) = if is_separator c then [] ∷ split_words s else push_first c (split_words s)

-- The words of the reference definition, the open word `cur` in front of the first.
abbrev extend : Bytes → List Bytes → List Bytes
extend cur [] = cur ∷ []
extend cur (w ∷ ws) = (cur ++ w) ∷ ws

abbrev pub non_empty : List Bytes → List Bytes
non_empty = select (λ w. not (is_nil w))

abbrev plain : List Bytes → Bytes → Scan
plain args cur = record { args = args; cur = cur; in_quote = false; started = not (is_nil cur) }

-- a separator closes the open word, if there is one
close : List Bytes → Bytes → List Bytes
close args [] = args
close args (c ∷ cur) = args ++ ((c ∷ cur) ∷ [])

step-separator :
    (args : List Bytes) (cur : Bytes) (c : ℕ)
    → (c == quote) ≡ false
    → is_separator c ≡ true
    → step (plain args cur) c ≡ plain (close args cur) []
unfolding step close
step-separator args [] c h k = rw (h, k)
step-separator args (d ∷ cur) c h k = rw (h, k)

step-other :
    (args : List Bytes) (cur : Bytes) (c : ℕ)
    → (c == quote) ≡ false
    → is_separator c ≡ false
    → step (plain args cur) c ≡ plain args (cur ++ (c ∷ []))
unfolding step
step-other args [] c h k = rw (h, k)
step-other args (d ∷ cur) c h k = rw (h, k)

close-extend :
    (args : List Bytes) (cur : Bytes) (ws : List Bytes)
    → close args cur ++ non_empty ws ≡ args ++ non_empty (extend cur ([] ∷ ws))
unfolding close
close-extend args [] ws = refl
close-extend args (c ∷ cur) ws =
    append_assoc args ((c ∷ cur) ∷ []) (non_empty ws)
    ∙ ap (λ w. args ++ (w ∷ non_empty ws)) (sym (append-nil (c ∷ cur)))

extend-nil_push_first : (c : ℕ) (ws : List Bytes) → extend [] (push_first c ws) ≡ push_first c ws
extend-nil_push_first c [] = refl
extend-nil_push_first c (w ∷ ws) = refl

extend-nil : (s : Bytes) → extend [] (split_words s) ≡ split_words s
extend-nil [] = refl
extend-nil (c ∷ s) = elim (Bool-cases (is_separator c)) [
  | inl k ↦ rw k
  | inr k ↦ rw k (extend-nil_push_first c (split_words s))
]

extend-cons :
    (cur : Bytes) (c : ℕ) (ws : List Bytes)
    → extend (cur ++ (c ∷ [])) ws ≡ extend cur (push_first c ws)
extend-cons cur c [] = refl
extend-cons cur c (v ∷ vs) = ap (λ w. w ∷ vs) (append_assoc cur (c ∷ []) v)

scan-split_words :
    (args : List Bytes) (cur s : Bytes)
    → NoQuote s
    → finish (scan (plain args cur) s) ≡ ok (args ++ non_empty (extend cur (split_words s)))
unfolding finish scan
scan-split_words args [] [] h = rw append-nil
scan-split_words args (c ∷ cur) [] h = rw append-nil
scan-split_words args cur (c ∷ s) h = elim (Bool-cases (is_separator c)) [
  | inl k ↦ rw k (
      ap (λ t. finish (scan t s)) (step-separator args cur c (ground arith) k)
      ∙ scan-split_words (close args cur) [] s (ground arith)
      ∙ ap ok (
          ap (λ ws. close args cur ++ non_empty ws) (extend-nil s)
          ∙ close-extend args cur (split_words s)))
  | inr k ↦ rw k (
      ap (λ t. finish (scan t s)) (step-other args cur c (ground arith) k)
      ∙ scan-split_words args (cur ++ (c ∷ [])) s (ground arith)
      ∙ ap (λ ws. ok (args ++ non_empty ws)) (extend-cons cur c (split_words s)))
]

-- A command without quotes parses to the non-empty words between separators.
pub parse_command-split_words :
    (s : Bytes) → NoQuote s → parse_command s ≡ ok (non_empty (split_words s))
unfolding parse_command
parse_command-split_words s h =
    scan-split_words [] [] s h ∙ ap (λ ws. ok (non_empty ws)) (extend-nil s)
