-- ===== src/Sshcmd/Identity.antt =====
-- internal/sshcmd/identity.go: the pusher's identity from the environment, and the greeting.
use gitd.Prelude.{
  fields_from, space_width, ◌≡◌, refl, Bool, not, ◌&&◌, List, [], ◌∷◌, ◌++◌, Bytes, codes, none,
  some, cut_prefix, is_nil, fields,
}

pub record Identity : Type 0 where
  pub key_fp : Bytes
  pub key_type : Bytes
  pub cert_id : Bytes
  pub client_ip : Bytes

-- the value of the first entry that starts with the key and "="
unfoldable pub env_get_prefix : List Bytes → Bytes → Bytes
unfolding cut_prefix
env_get_prefix [] prefix = []
env_get_prefix (kv ∷ env) prefix = elim (cut_prefix kv prefix) [
  | some v ↦ v
  | none ↦ env_get_prefix env prefix
]

unfoldable pub env_get : List Bytes → Bytes → Bytes
unfolding env_get_prefix
env_get env key = env_get_prefix env (key ++ codes "=")

abbrev first : List Bytes → Bytes
first [] = []
first (f ∷ fs) = f

unfoldable pub client_ip : Bytes → Bytes
unfolding fields
client_ip connection = first (fields connection)

unfoldable pub identity_from_env : List Bytes → Identity
unfolding env_get client_ip
identity_from_env env = record {
  key_fp = env_get env (codes "SSH_AUTH_KEY_FP");
  key_type = env_get env (codes "SSH_AUTH_KEY_TYPE");
  cert_id = env_get env (codes "SSH_AUTH_CERT_ID");
  client_ip = client_ip (env_get env (codes "SSH_CONNECTION"));
}

unfoldable pub complete : Identity → Bool
complete i = not (is_nil i.key_fp) && not (is_nil i.cert_id)

abbrev or_default : Bytes → Bytes → Bytes
or_default [] d = d
or_default (c ∷ s) d = c ∷ s

unfoldable pub greeting : Identity → Bytes
greeting i =
    codes "Hello "
    ++ (or_default i.cert_id (codes "unknown identity")
        ++ (codes " (key "
            ++ (or_default i.key_fp (codes "unknown key")
                ++ (codes " from "
                    ++ (or_default i.client_ip (codes "unknown address")
                        ++ (codes ")!\n"
                            ++ codes
                                "You have no shell access. Push to create or update repositories: git push git@git.cmposer.cc:<repo>.git\n"))))))

identity_example :
    (identity_from_env (
      codes "HOME=/"
      ∷ codes "SSH_AUTH_KEY_FP=SHA256:x"
      ∷ codes "SSH_CONNECTION=10.0.0.1 22 10.0.0.2 22"
      ∷ [])).client_ip
    ≡ codes "10.0.0.1"
unfolding identity_from_env fields_from space_width
identity_example = refl
