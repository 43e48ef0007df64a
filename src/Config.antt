-- ===== src/Config.antt =====
-- internal/config/webhooks.go: the plugins of webhooks.yaml, their defaults and their validation.
pub mod Duration
pub mod Valid
pub mod Gitd
use gitd.Prelude.{
  ℕ, ◌*◌, ◌≡◌, refl, Bool, true, false, not, ◌||◌, List, [], ◌∷◌, ◌++◌, Bytes, codes, Option, none,
  some, if◌then◌else◌, str_eq, is_nil, any,
}
use gitd.Prelude.Int.{ℤ, pos, negsuc, is_zero}
use gitd.Prelude.Result.{Result, ok, err}

pub record PluginConfig : Type 0 where
  pub id : Bytes
  pub kind : Bytes
  pub url_template : Bytes
  pub secret_file : Bytes
  pub sync : Bool
  pub repos : List Bytes
  pub timeout : ℤ
  pub retries : ℤ
  pub insecure_skip_verify : Bool

pub data ConfigError : Type 0 where
  timeout_not_positive retries_negative id_empty duplicate_id url_missing unknown_type :
      Bytes → ConfigError
  unreadable bad_yaml : ConfigError

abbrev pub is_negative : ℤ → Bool
is_negative (pos n) = false
is_negative (negsuc n) = true

-- 30 seconds in nanoseconds
abbrev pub default_timeout : ℤ
default_timeout = pos 30000000000

abbrev pub or_default_int : ℤ → ℤ → ℤ
or_default_int d v = if is_zero v then d else v

abbrev pub or_any : List Bytes → List Bytes
or_any [] = codes "*" ∷ []
or_any (r ∷ rs) = r ∷ rs

-- the defaults that the loop of validate fills in
unfoldable pub with_defaults : PluginConfig → PluginConfig
with_defaults p = record p {
  timeout = or_default_int default_timeout p.timeout;
  retries = or_default_int (pos 3) p.retries;
  repos = or_any p.repos;
}

abbrev pub error_if : Bool → ConfigError → List ConfigError
error_if true e = e ∷ []
error_if false e = []

-- the switch on the type
unfoldable pub type_errors : PluginConfig → List ConfigError
type_errors p =
    if str_eq p.kind (codes "http")
    then error_if (is_nil p.url_template) (url_missing p.id)
    else error_if (not (str_eq p.kind (codes "logger"))) (unknown_type p.id)

-- the body of the loop, for a plugin with its defaults and the ids seen before it
unfoldable pub plugin_errors : List Bytes → PluginConfig → List ConfigError
plugin_errors seen p =
    error_if (is_negative p.timeout) (timeout_not_positive p.id)
    ++ (error_if (is_negative p.retries) (retries_negative p.id)
        ++ (error_if (is_nil p.id) (id_empty p.id)
            ++ (error_if (any (λ i. str_eq i p.id) seen) (duplicate_id p.id) ++ type_errors p)))

-- validate: all the errors, and the plugins with their defaults
unfoldable pub validate : List Bytes → List PluginConfig → List ConfigError × List PluginConfig
validate seen [] = ([], [])
validate seen (p ∷ ps) =
    let q = with_defaults p in
    let (es, qs) = validate (q.id ∷ seen) ps in (plugin_errors seen q ++ es, q ∷ qs)

abbrev pub if_valid :
    List ConfigError × List PluginConfig → Result (List ConfigError) (List PluginConfig)
if_valid ([], ps) = ok ps
if_valid (e ∷ es, ps) = err (e ∷ es)

-- LoadWebhooks: the file's text if it can be read, and the strict YAML decoder
unfoldable pub load_webhooks :
    (Bytes → Option (List PluginConfig))
    → Option Bytes
    → Result (List ConfigError) (List PluginConfig)
load_webhooks unmarshal none = err (unreadable ∷ [])
load_webhooks unmarshal (some text) = elim (unmarshal text) [
  | none ↦ err (bad_yaml ∷ [])
  | some ps ↦ if_valid (validate [] ps)
]
