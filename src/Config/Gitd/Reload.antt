-- ===== src/Config/Gitd/Reload.antt =====
-- Reload of internal/config/reload.go: the configuration that is live behind it.
use gitd.Prelude.{◌≡◌, refl, sym, List, [], ◌∷◌, Bytes, Option, none, some, All}
use gitd.Prelude.Result.{Result, ok, err, ◌>>=◌, >>=-eq-ok, wrap, wrap-eq-ok}
use gitd.Config.{load_webhooks}
use gitd.Config.Valid.{IsValid, DistinctIds, load_webhooks-IsValid}
use gitd.Config.Gitd.{
  GitdConfig, GitdError, gitd_errors, if_sound, load_gitd, default_config, LoadError, bad_gitd,
  bad_webhooks, ConfigFiles, Runtime, swap, reload,
}

if_sound-eq : (a c : GitdConfig) (es : List GitdError) → if_sound a es ≡ ok c → (es ≡ []) × (a ≡ c)
if_sound-eq a c [] h = (refl, cc h)
if_sound-eq a c (e ∷ es) h = (cc h, cc h)

load_gitd_sound :
    (unmarshal : Bytes → GitdConfig → Option GitdConfig) (file : Option Bytes) (c : GitdConfig)
    → load_gitd unmarshal file ≡ ok c
    → gitd_errors c ≡ []
unfolding load_gitd
load_gitd_sound unmarshal none c h = cc h
load_gitd_sound unmarshal (some text) c h = on_yaml (unmarshal text default_config) refl h
  where
    on_yaml :
        (o : Option GitdConfig)
        → unmarshal text default_config ≡ o
        → load_gitd unmarshal (some text) ≡ ok c
        → gitd_errors c ≡ []
    on_yaml none e k = cc (rw (e, load_gitd) at k)
    on_yaml (some a) e k =
        let (p, q) = if_sound-eq a c (gitd_errors a) (rw (e, load_gitd) at k) in rw (sym q) p

-- Both files of the live configuration passed their validation.
pub record IsLive (r : Runtime) : Type 0 where
  pub gitd_valid : gitd_errors r.gitd ≡ []
  pub plugins_valid : All IsValid r.webhooks
  pub ids_distinct : DistinctIds [] r.webhooks

swap-IsLive :
    (live : Runtime) (r : Result LoadError Runtime)
    → IsLive live
    → ((new : Runtime) → r ≡ ok new → IsLive new)
    → IsLive (swap live r).1
swap-IsLive live (ok new) h k = k new refl
swap-IsLive live (err e) h k = h

-- Whatever the two files hold at a reload, the configuration that is live behind it passed the
-- validation, if the one before it did.
pub reload-IsLive :
    (files : ConfigFiles) (live : Runtime) → IsLive live → IsLive (reload files live).1
unfolding reload
reload-IsLive files live h = swap-IsLive live _ h (λ new e.
    let web = load_webhooks files.decode_webhooks files.webhooks_file in
    let (ps, p, e1) =
      >>=-eq-ok (wrap bad_webhooks web)
        (λ ps. wrap bad_gitd (load_gitd files.decode_gitd files.gitd_file) >>= λ g.
          ok (record { gitd = g; webhooks = ps }))
        e in
    let (g, q, e2) =
      >>=-eq-ok (wrap bad_gitd (load_gitd files.decode_gitd files.gitd_file))
        (λ g. ok (record { gitd = g; webhooks = ps })) e1 in
    let same : record { gitd = g; webhooks = ps } ≡ new = cc e2 in
    let (v, d) =
      load_webhooks-IsValid files.decode_webhooks files.webhooks_file ps
        (wrap-eq-ok bad_webhooks web p) in
    rw (sym same) (record {
      gitd_valid =
          load_gitd_sound files.decode_gitd files.gitd_file g
            (wrap-eq-ok bad_gitd (load_gitd files.decode_gitd files.gitd_file) q);
      plugins_valid = v;
      ids_distinct = d;
    }))
