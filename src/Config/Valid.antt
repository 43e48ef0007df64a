-- ===== src/Config/Valid.antt =====
-- LoadWebhooks of internal/config/webhooks.go: the configurations that load.
use gitd.Config.{
  or_default_int, or_any, default_timeout, PluginConfig, ConfigError, with_defaults, plugin_errors,
  type_errors, error_if, validate, load_webhooks, if_valid, is_negative,
}
use gitd.Prelude.{
  ◌≡◌, refl, Bool, true, false, not, List, [], ◌∷◌, ◌++◌, Bytes, codes, Option, none, some, str_eq,
  is_nil, any, All, arith, ◌⊎◌, inl, inr, sym, Bool-cases,
}
use gitd.Prelude.Int.{ℤ, pos, negsuc, is_nonpos}
use gitd.Prelude.Result.{ok}

-- a plugin that can be delivered to
pub record IsValid (p : PluginConfig) : Type 0 where
  pub has_id : is_nil p.id ≡ false
  pub timeout : is_nonpos p.timeout ≡ false
  pub retries : is_nonpos p.retries ≡ false
  pub repos : is_nil p.repos ≡ false
  pub kind :
      (str_eq p.kind (codes "logger") ≡ true)
      ⊎ ((str_eq p.kind (codes "http") ≡ true) × (is_nil p.url_template ≡ false))

-- no id is one of the given ones, and none comes twice
abbrev pub DistinctIds : List Bytes → List PluginConfig → Type 0
DistinctIds seen [] = Unit
DistinctIds seen (p ∷ ps) = (any (λ i. str_eq i p.id) seen ≡ false) × DistinctIds (p.id ∷ seen) ps

append-nil_parts : (xs ys : List ConfigError) → xs ++ ys ≡ [] → (xs ≡ []) × (ys ≡ [])
append-nil_parts [] ys h = (refl, h)
append-nil_parts (x ∷ xs) ys h = (cc h, cc h)

error_if-nil : (b : Bool) (e : ConfigError) → error_if b e ≡ [] → b ≡ false
error_if-nil true e h = cc h
error_if-nil false e h = refl

type_errors-kind :
    (p : PluginConfig)
    → type_errors p ≡ []
    → (str_eq p.kind (codes "logger") ≡ true)
      ⊎ ((str_eq p.kind (codes "http") ≡ true) × (is_nil p.url_template ≡ false))
unfolding type_errors
type_errors-kind p h = elim (Bool-cases (str_eq p.kind (codes "http"))) [
  | inl e ↦ inr (e, error_if-nil _ _ (rw e at h))
  | inr e ↦ inl (ground (arith, error_if-nil (not (str_eq p.kind (codes "logger"))) _ (rw e at h)))
]

or_default_int-positive :
    (d v : ℤ)
    → is_nonpos d ≡ false
    → is_negative (or_default_int d v) ≡ false
    → is_nonpos (or_default_int d v) ≡ false
or_default_int-positive d (pos n) h k = ground arith
or_default_int-positive d (negsuc n) h k = cc k

or_any-not_nil : (rs : List Bytes) → is_nil (or_any rs) ≡ false
or_any-not_nil [] = refl
or_any-not_nil (r ∷ rs) = refl

plugin_errors-IsValid :
    (seen : List Bytes) (p : PluginConfig)
    → plugin_errors seen (with_defaults p) ≡ []
    → IsValid (with_defaults p) × (any (λ i. str_eq i p.id) seen ≡ false)
unfolding plugin_errors with_defaults
plugin_errors-IsValid seen p h =
    let q = with_defaults p in
    let (a, h1) = append-nil_parts (error_if (is_negative q.timeout) _) _ h in
    let (b, h2) = append-nil_parts (error_if (is_negative q.retries) _) _ h1 in
    let (c, h3) = append-nil_parts (error_if (is_nil q.id) _) _ h2 in
    let (d, k) = append-nil_parts (error_if (any (λ i. str_eq i q.id) seen) _) _ h3 in
    (
      record {
        has_id = error_if-nil (is_nil q.id) _ c;
        timeout =
            or_default_int-positive default_timeout p.timeout refl
              (error_if-nil (is_negative q.timeout) _ a);
        retries =
            or_default_int-positive (pos 3) p.retries refl
              (error_if-nil (is_negative q.retries) _ b);
        repos = or_any-not_nil p.repos;
        kind = type_errors-kind q k;
      },
      error_if-nil (any (λ i. str_eq i q.id) seen) _ d,
    )

validate-IsValid :
    (seen : List Bytes) (ps : List PluginConfig)
    → (validate seen ps).0 ≡ []
    → All IsValid (validate seen ps).1 × DistinctIds seen (validate seen ps).1
unfolding validate
validate-IsValid seen [] h = (tt, tt)
validate-IsValid seen (p ∷ ps) h =
    let q = with_defaults p in
    let (a, b) = append-nil_parts (plugin_errors seen q) (validate (q.id ∷ seen) ps).0 h in
    let (v, d) = plugin_errors-IsValid seen p a in
    let (vs, ds) = validate-IsValid (q.id ∷ seen) ps b in ((v, vs), (unfold with_defaults in d, ds))

if_valid-ok :
    (r : List ConfigError × List PluginConfig) (ps : List PluginConfig)
    → if_valid r ≡ ok ps
    → (r.0 ≡ []) × (r.1 ≡ ps)
if_valid-ok ([], qs) ps h = (refl, cc h)
if_valid-ok (e ∷ es, qs) ps h = (cc h, cc h)

-- A webhooks.yaml that loads has plugins with distinct, non-empty ids, positive timeouts and retries, at
-- least one repository pattern, and the type logger, or http with a URL template.
pub load_webhooks-IsValid :
    (unmarshal : Bytes → Option (List PluginConfig)) (file : Option Bytes) (ps : List PluginConfig)
    → load_webhooks unmarshal file ≡ ok ps
    → All IsValid ps × DistinctIds [] ps
unfolding load_webhooks
load_webhooks-IsValid unmarshal none ps h = cc h
load_webhooks-IsValid unmarshal (some text) ps h = on_yaml (unmarshal text) refl h
  where
    on_yaml :
        (o : Option (List PluginConfig))
        → unmarshal text ≡ o
        → load_webhooks unmarshal (some text) ≡ ok ps
        → All IsValid ps × DistinctIds [] ps
    on_yaml none e k = cc (rw (e, load_webhooks) at k)
    on_yaml (some qs) e k =
        let (a, b) = if_valid-ok (validate [] qs) ps (rw (e, load_webhooks) at k) in
        rw (sym b) (validate-IsValid [] qs a)
