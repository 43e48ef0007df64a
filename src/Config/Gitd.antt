-- ===== src/Config/Gitd.antt =====
-- internal/config/config.go and reload.go: gitd.yaml, and the configuration of a running process.
pub mod Reload
use gitd.Prelude.{
  ℕ, ◌*◌, ◌≡◌, refl, Bool, true, false, List, [], ◌∷◌, ◌++◌, Bytes, codes, Option, none, some,
  str_eq, is_nil, any,
}
use gitd.Prelude.Int.{ℤ, pos, is_nonpos}
use gitd.Prelude.Result.{Result, ok, err, ◌>>=◌, wrap}
use gitd.Policy.{PoliciesConfig}
use gitd.Config.{PluginConfig, ConfigError, load_webhooks}

-- gitd.yaml, its blocks flattened; durations in nanoseconds
pub record GitdConfig : Type 0 where
  pub log_level : Bytes
  pub log_format : Bytes
  pub storage_type : Bytes
  pub storage_bucket : Bytes
  pub storage_region : Bytes
  pub storage_prefix : Bytes
  pub tls_cert : Bytes
  pub tls_key : Bytes
  pub tls_client_ca : Bytes
  pub tls_revocation_list : Bytes
  pub git_binary : Bytes
  pub object_format : Bytes
  pub render : Bytes
  pub ddns_host : Bytes
  pub ddns_domain : Bytes
  pub ddns_password_file : Bytes
  pub ddns_interval : ℤ
  pub disk_min_free_bytes : ℕ
  pub spool_retention : ℤ
  pub actions_buffer_size : ℕ
  pub host_allowlist : List Bytes
  pub verify_interval : ℤ
  pub restore_on_start : Bool
  pub policies : PoliciesConfig

abbrev hour : ℕ
hour = 3600000000000

-- DefaultConfig
unfoldable pub default_config : GitdConfig
default_config = record {
  log_level = codes "info";
  log_format = codes "text";
  storage_type = codes "s3";
  storage_bucket = codes "git.cmposer.cc";
  storage_region = codes "us-east-2";
  storage_prefix = codes "repos";
  tls_cert = codes "/etc/gitd/tls/server.crt";
  tls_key = codes "/etc/gitd/tls/server.key";
  tls_client_ca = codes "/etc/gitd/tls/client-ca.crt";
  tls_revocation_list = codes "/etc/gitd/tls/revoked.crl";
  git_binary = codes "/usr/local/bin/git";
  object_format = codes "sha1";
  render = codes "server";
  ddns_host = codes "git";
  ddns_domain = codes "cmposer.cc";
  ddns_password_file = codes "/etc/gitd/ddns-password";
  ddns_interval = pos (6 * hour);
  disk_min_free_bytes = 512 * 1024 * 1024;
  spool_retention = pos (90 * 24 * hour);
  actions_buffer_size = 64;
  host_allowlist = codes "git.cmposer.cc" ∷ codes "localhost" ∷ codes "127.0.0.1" ∷ [];
  verify_interval = pos (7 * 24 * hour);
  restore_on_start = true;
  policies = record { enabled = []; config = [] };
}

pub data GitdError : Type 0 where
  log_level_invalid log_format_invalid storage_type_invalid object_format_invalid render_invalid :
      Bytes → GitdError
  bucket_empty region_empty git_binary_empty interval_not_positive retention_not_positive :
      GitdError
  verify_interval_not_positive allowlist_empty gitd_unreadable gitd_bad_yaml : GitdError

abbrev unless_one_of : List Bytes → Bytes → GitdError → List GitdError
unless_one_of known v e = elim (any (λ k. str_eq k v) known) [ true ↦ [] | false ↦ e ∷ [] ]

abbrev error_when : Bool → GitdError → List GitdError
error_when true e = e ∷ []
error_when false e = []

-- the checks of GitdConfig.validate, in order
unfoldable pub gitd_errors : GitdConfig → List GitdError
gitd_errors c =
    unless_one_of (codes "debug" ∷ codes "info" ∷ codes "warn" ∷ codes "error" ∷ []) c.log_level
      (log_level_invalid c.log_level)
    ++ (unless_one_of (codes "text" ∷ codes "json" ∷ []) c.log_format
          (log_format_invalid c.log_format)
        ++ (unless_one_of (codes "s3" ∷ []) c.storage_type (storage_type_invalid c.storage_type)
            ++ (error_when (is_nil c.storage_bucket) bucket_empty
                ++ (error_when (is_nil c.storage_region) region_empty
                    ++ (error_when (is_nil c.git_binary) git_binary_empty
                        ++ (unless_one_of (codes "sha1" ∷ codes "sha256" ∷ []) c.object_format
                              (object_format_invalid c.object_format)
                            ++ (unless_one_of (codes "server" ∷ codes "client" ∷ codes "none" ∷ [])
                                  c.render (render_invalid c.render)
                                ++ (error_when (is_nonpos c.ddns_interval) interval_not_positive
                                    ++ (error_when (is_nonpos c.spool_retention)
                                          retention_not_positive
                                        ++ (error_when (is_nonpos c.verify_interval)
                                              verify_interval_not_positive
                                            ++ error_when (is_nil c.host_allowlist)
                                                allowlist_empty))))))))))

abbrev pub if_sound : GitdConfig → List GitdError → Result (List GitdError) GitdConfig
if_sound c [] = ok c
if_sound c (e ∷ es) = err (e ∷ es)

-- LoadGitd: `unmarshal` is the strict YAML decoder, over the defaults
unfoldable pub load_gitd :
    (Bytes → GitdConfig → Option GitdConfig) → Option Bytes → Result (List GitdError) GitdConfig
load_gitd unmarshal none = err (gitd_unreadable ∷ [])
load_gitd unmarshal (some text) = elim (unmarshal text default_config) [
  | none ↦ err (gitd_bad_yaml ∷ [])
  | some c ↦ if_sound c (gitd_errors c)
]

pub data LoadError : Type 0 where
  bad_gitd : List GitdError → LoadError
  bad_webhooks : List ConfigError → LoadError

-- The two files as they are read at one time, and their decoders.
pub record ConfigFiles : Type 0 where
  pub gitd_file : Option Bytes
  pub webhooks_file : Option Bytes
  pub decode_gitd : Bytes → GitdConfig → Option GitdConfig
  pub decode_webhooks : Bytes → Option (List PluginConfig)

-- the live configuration
pub record Runtime : Type 0 where
  pub gitd : GitdConfig
  pub webhooks : List PluginConfig

-- Load
unfoldable pub load : ConfigFiles → Result LoadError Runtime
load files = do
  gitd ← wrap bad_gitd (load_gitd files.decode_gitd files.gitd_file)
  webhooks ← wrap bad_webhooks (load_webhooks files.decode_webhooks files.webhooks_file)
  ok (record { gitd = gitd; webhooks = webhooks })

abbrev pub swap : Runtime → Result LoadError Runtime → Result LoadError (Unit {0}) × Runtime
swap live (ok new) = (ok tt, new)
swap live (err e) = (err e, live)

-- Runtime.Reload: webhooks.yaml is read first, and an error keeps both files' previous values
unfoldable pub reload : ConfigFiles → Runtime → Result LoadError (Unit {0}) × Runtime
reload files live = swap live (do
  webhooks ← wrap bad_webhooks (load_webhooks files.decode_webhooks files.webhooks_file)
  gitd ← wrap bad_gitd (load_gitd files.decode_gitd files.gitd_file)
  ok (record { gitd = gitd; webhooks = webhooks }))

default_config_example : gitd_errors default_config ≡ []
unfolding gitd_errors default_config str_eq
default_config_example = refl
