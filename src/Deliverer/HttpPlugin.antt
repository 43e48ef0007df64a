-- ===== src/Deliverer/HttpPlugin.antt =====
-- internal/webhook/plugins/http/http.go: the plugin that posts events. The JSON encoding, path.Match,
-- HMAC-SHA256 and the server that answers are fields of `Client`.
pub mod Url
pub mod Sent
use gitd.Prelude.{
  ◌%◌, ◌-◌, ◌+◌, ◌/◌, ℕ, suc, zero, ◌≡◌, refl, Bool, true, false, not, ◌&&◌, ◌||◌, List, [], ◌∷◌,
  ◌++◌, Bytes, codes, Option, none, some, if◌then◌else◌, is_nil, leb, ltb, cut_prefix, any,
  trim_space, ◌==◌,
}
use gitd.Prelude.Result.{Result, ok, err, ◌>>=◌, ◌>>◌, guard}
use gitd.Config.{PluginConfig}
use gitd.Event.{Event}

-- url.PathEscape: an upper-case hexadecimal digit
abbrev pub hex_digit : ℕ → ℕ
hex_digit n = if ltb n 10 then n + b'0' else n - 10 + b'A'

abbrev pub is_path_safe : ℕ → Bool
is_path_safe c =
    (leb b'a' c && leb c b'z')
    || (leb b'A' c && leb c b'Z')
    || (leb b'0' c && leb c b'9')
    || c == b'-'
    || c == b'_'
    || c == b'.'
    || c == b'~'
    || c == b'$'
    || c == b'&'
    || c == b'+'
    || c == b'='
    || c == b':'
    || c == b'@'

abbrev pub escape_path_byte : ℕ → Bytes
escape_path_byte c =
    if is_path_safe c then c ∷ [] else b'%' ∷ hex_digit (c / 16) ∷ hex_digit (c % 16) ∷ []

unfoldable pub path_escape : Bytes → Bytes
path_escape [] = []
path_escape (c ∷ s) = escape_path_byte c ++ path_escape s

abbrev pub or_else : Bytes × ℕ → Option (Bytes × ℕ) → Option Bytes → Option (Bytes × ℕ)
or_else found other none = other
or_else found other (some r) = some found

-- What a replacer finds at the head of the text: the value, and the number of bytes behind the head
-- that it takes away.
unfoldable pub placeholder : Bytes → Bytes → Bytes → Bytes → Option (Bytes × ℕ)
placeholder repo ref id s =
    or_else (path_escape repo, 5)
      (or_else (path_escape ref, 4)
        (or_else (path_escape id, 9) none (cut_prefix s (codes "{event-id}")))
        (cut_prefix s (codes "{ref}")))
      (cut_prefix s (codes "{repo}"))

-- the replacer: `skip` bytes belong to a placeholder
unfoldable pub substitute : Bytes → Bytes → Bytes → ℕ → Bytes → Bytes
substitute repo ref id skip [] = []
substitute repo ref id (suc k) (c ∷ s) = substitute repo ref id k s
substitute repo ref id zero (c ∷ s) = elim (placeholder repo ref id (c ∷ s)) [
  | none ↦ c ∷ substitute repo ref id 0 s
  | some (value, width) ↦ value ++ substitute repo ref id width s
]

-- buildURL
unfoldable pub build_url : Bytes → Bytes → Bytes → Bytes → Bytes
build_url template repo ref id = substitute repo ref id 0 template

pub record Request : Type 0 where
  pub url : Bytes
  pub payload : Bytes
  pub signature : Option Bytes

pub data HttpError : Type 0 where
  not_encoded bad_url no_secret no_answer : HttpError
  refused : ℕ → HttpError

pub record Client : Type 0 where
  pub encode : Event → Option Bytes
  -- whether a request can be built for the URL
  pub valid_url : Bytes → Bool
  pub matches_glob : Bytes → Bytes → Bool
  pub read_file : Bytes → Option Bytes
  -- hex of HMAC-SHA256, from the secret and the payload
  pub hmac : Bytes → Bytes → Bytes
  -- the status of the answer
  pub post : Request → Option ℕ

abbrev pub or_failed {ℓ} : {A : Type ℓ} → HttpError → Option A → Result HttpError A
or_failed e none = err e
or_failed e (some a) = ok a

module _ (c : Client) (p : PluginConfig) where
  -- Plugin.matches
  unfoldable pub matches : Bytes → Bool
  matches repo = is_nil p.repos || any (λ g. c.matches_glob g repo) p.repos

  -- Plugin.signature
  unfoldable pub signature_of : Bytes → Result HttpError Bytes
  signature_of payload = do
    secret ← or_failed no_secret (c.read_file p.secret_file)
    ok (c.hmac (trim_space secret) payload)

  abbrev pub sign : Bytes → Result HttpError (Option Bytes)
  sign payload =
      if is_nil p.secret_file
      then ok none
      else (do s ← signature_of payload; ok (some (codes "sha256=" ++ s)))

  abbrev pub judge : ℕ → Result HttpError (Unit {0})
  judge status = if ltb status 200 || leb 300 status then err (refused status) else ok tt

  -- the request of Plugin.Deliver
  unfoldable pub request_for : Event → Result HttpError Request
  request_for ev = do
    payload ← or_failed not_encoded (c.encode ev)
    let url = build_url p.url_template ev.repo ev.ref ev.event_id in
        (guard (c.valid_url url) bad_url
          >> (sign payload >>= λ signature.
              ok (record { url = url; payload = payload; signature = signature })))

  abbrev pub answer_of : Option ℕ → Result HttpError (Unit {0})
  answer_of o = do status ← or_failed no_answer o; judge status

  abbrev pub post_request : Result HttpError Request → Result HttpError (Unit {0}) × List Request
  post_request (err e) = (err e, [])
  post_request (ok request) = (answer_of (c.post request), request ∷ [])

  -- Plugin.Deliver: its result, and the requests that it posts
  unfoldable pub deliver_http : Event → Result HttpError (Unit {0}) × List Request
  deliver_http ev = if not (matches ev.repo) then (ok tt, []) else post_request (request_for ev)
