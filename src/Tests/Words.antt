-- ===== src/Tests/Words.antt =====
-- Commands and their words.
use gitd.Prelude.{◌≡◌, refl, [], ◌∷◌, codes, true, ◌↔◌}
use gitd.Prelude.Result.{ok, err}
use gitd.Sshcmd.Tokenize.{parse_command, unterminated_quote}
use gitd.Sshcmd.Tokenize.RoundTrip.{parse_command-quote_words, quote_words}
use gitd.Sshcmd.Tokenize.Quotes.{
  parse_command-err, odd_quotes, parse_command-split_words, split_words, non_empty,
}

parse_command-quote_words_example :
    parse_command (quote_words (codes "git-upload-pack" ∷ codes "a b.git" ∷ []))
    ≡ ok (codes "git-upload-pack" ∷ codes "a b.git" ∷ [])
parse_command-quote_words_example =
    parse_command-quote_words (codes "git-upload-pack") (codes "a b.git" ∷ []) (refl, (refl, tt))

parse_command-err_example :
    (parse_command (codes "git-upload-pack 'a") ≡ err unterminated_quote)
    ↔ (odd_quotes (codes "git-upload-pack 'a") ≡ true)
parse_command-err_example = parse_command-err (codes "git-upload-pack 'a")

parse_command-split_words_example :
    parse_command (codes " git-upload-pack  a")
    ≡ ok (non_empty (split_words (codes " git-upload-pack  a")))
parse_command-split_words_example = parse_command-split_words (codes " git-upload-pack  a") refl
