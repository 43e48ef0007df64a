-- ===== src/Tests/Plugins.antt =====
-- The http plugin, and the environment of git.
use gitd.Prelude.{
  true, has_prefix, cut_prefix, ◌≡◌, refl, [], ◌∷◌, ◌++◌, codes, false, some, ◌⊎◌, if◌then◌else◌,
  str_eq,
}
use gitd.Prelude.Int.{pos}
use gitd.Config.{PluginConfig}
use gitd.Event.{Event}
use gitd.Deliverer.HttpPlugin.{
  Client, build_url, matches, deliver_http, request_for, signature_of, substitute, path_escape,
  placeholder,
}
use gitd.Deliverer.HttpPlugin.Url.{slashes, build_url-slashes}
use gitd.Deliverer.HttpPlugin.Sent.{IsSent, deliver_http-IsSent}
use gitd.GitEnv.{env, with_object_format, new_runner, git_settings}
use gitd.Tests.Events.{test_plugin}

url_of_branch :
    build_url (codes "https://h/{repo}/{ref}?{x}") (codes "a") (codes "refs/heads/b c") (codes "1")
    ≡ codes "https://h/a/refs%2Fheads%2Fb%20c?{x}"
unfolding build_url substitute path_escape placeholder cut_prefix
url_of_branch = refl

build_url-slashes_example :
    slashes
      (build_url (codes "https://h/{repo}/{ref}") (codes "a") (codes "refs/heads/b") (codes "1"))
    ≡ codes "////"
build_url-slashes_example =
    build_url-slashes (codes "https://h/{repo}/{ref}") (codes "a") (codes "refs/heads/b")
      (codes "1")

abbrev event : Event
event = record {
  schema_version = pos 1;
  event_id = codes "1";
  created_at = [];
  repo = codes "a";
  ref = codes "refs/heads/b";
  kind = codes "update";
  commits = [];
}

abbrev client : Client
client = record {
  encode = λ ev. some (codes "{}");
  valid_url = λ url. true;
  matches_glob = str_eq;
  read_file = λ path. some (codes "key\n");
  hmac = λ secret payload. secret ++ payload;
  post = λ r. if str_eq r.payload (codes "{}") then some 204 else some 500;
}

abbrev plugin : PluginConfig
plugin = record test_plugin {
  url_template = codes "https://h/{repo}";
  secret_file = codes "/key";
  repos = codes "a" ∷ [];
}

deliver_http-IsSent_example :
    ((matches client plugin (codes "a") ≡ false) × ((deliver_http client plugin event).1 ≡ []))
    ⊎ ((matches client plugin (codes "a") ≡ true) × IsSent client plugin event)
unfolding deliver_http matches request_for signature_of str_eq
deliver_http-IsSent_example = deliver_http-IsSent client plugin event refl

pinned_sha256 :
    git_settings (
      env (
        with_object_format
          (new_runner (codes "/bin") (codes "git") (codes "/h") [])
          (codes "sha256")))
    ≡ codes "GIT_CONFIG_SYSTEM=/etc/gitconfig"
      ∷ codes "GIT_CONFIG_GLOBAL=/dev/null"
      ∷ codes "GIT_TERMINAL_PROMPT=0"
      ∷ codes "GIT_DEFAULT_HASH=sha256"
      ∷ []
unfolding env with_object_format new_runner has_prefix str_eq
pinned_sha256 = refl
