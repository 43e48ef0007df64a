-- ===== src/Deliverer/HttpPlugin/Sent.antt =====
-- Deliver of internal/webhook/plugins/http/http.go: the request of a delivery.
use gitd.Deliverer.HttpPlugin.{
  bad_url, Client, Request, HttpError, or_failed, no_answer, answer_of, post_request, no_secret,
  not_encoded, matches, request_for, deliver_http, judge, sign, signature_of, build_url,
}
use gitd.Prelude.{
  refl, ℕ, ◌≡◌, ◌≤◌, ◌<◌, sym, ap, ◌∙◌, true, false, ◌⊎◌, inl, inr, [], ◌∷◌, Bytes, codes, Option,
  none, some, is_nil, arith, Bool-cases, trim_space, ◌++◌,
}
use mathlib.Core.Path.{subst}
use gitd.Prelude.Result.{Result, ok, err, >>=-eq-ok, guard}
use gitd.Config.{PluginConfig}
use gitd.Event.{Event}

-- The one request was posted and answered with a status of the 200s; its payload is the event, and where
-- the plugin has a secret file, the signature is made with what the file holds, less white space at the ends.
pub record IsSent (c : Client) (p : PluginConfig) (ev : Event) : Type 0 where
  pub request : Request
  pub posted : (deliver_http c p ev).1 ≡ request ∷ []
  pub status : ℕ
  pub answered : c.post request ≡ some status
  pub at_least : 200 ≤ status
  pub below : status < 300
  pub url : request.url ≡ build_url p.url_template ev.repo ev.ref ev.event_id
  pub payload : c.encode ev ≡ some request.payload
  pub signed :
      ((is_nil p.secret_file ≡ true) × (request.signature ≡ none))
      ⊎ ((secret : Bytes) × (c.read_file p.secret_file ≡ some secret)
          × (request.signature
              ≡ some (codes "sha256=" ++ c.hmac (trim_space secret) request.payload)))

or_failed-ok :
    {A : Type 0} (e : HttpError) (o : Option A) (a : A) → or_failed e o ≡ ok a → o ≡ some a
or_failed-ok e none a h = cc
or_failed-ok e (some b) a h = cc

abbrev ok_or {ℓ} : {A : Type ℓ} → A → Result HttpError A → A
ok_or a (ok b) = b
ok_or a (err e) = a

judge-ok : (c : Client) (p : PluginConfig) (n : ℕ) → judge c p n ≡ ok tt → (200 ≤ n) × (n < 300)
judge-ok c p n h = ground arith

module _ (c : Client) (p : PluginConfig) where
  abbrev Signed : Bytes → Option Bytes → Type 0
  Signed payload signature =
      ((is_nil p.secret_file ≡ true) × (signature ≡ none))
      ⊎ ((secret : Bytes) × (c.read_file p.secret_file ≡ some secret)
          × (signature ≡ some (codes "sha256=" ++ c.hmac (trim_space secret) payload)))

  sign-Signed : (payload : Bytes) (o : Option Bytes) → sign c p payload ≡ ok o → Signed payload o
  unfolding signature_of
  sign-Signed payload o h = elim (Bool-cases (is_nil p.secret_file)) [
    | inl e ↦ inl (e, sym (ap (ok_or o) (rw e at h)))
    | inr e ↦
        let (s, q, h') = >>=-eq-ok (signature_of c p payload) _ (rw e at h) in
        let (secret, r, q') = >>=-eq-ok (or_failed no_secret (c.read_file p.secret_file)) _ q in
        inr (
          secret,
          or_failed-ok no_secret (c.read_file p.secret_file) secret r,
          sym (ap (ok_or o) h') ∙ ap (λ x. some (codes "sha256=" ++ x)) (sym (ap (ok_or s) q')),
        )
  ]

  post_request-ok :
      (r : Result HttpError Request)
      → (post_request c p r).0 ≡ ok tt
      → (request : Request) × (r ≡ ok request)
        × (answer_of c p (c.post request) ≡ ok tt)
        × ((post_request c p r).1 ≡ request ∷ [])
  post_request-ok (err e) h = cc
  post_request-ok (ok request) h = (request, refl, h, refl)

  -- A delivery succeeds only if the plugin's globs leave the repository out, and nothing is posted,
  -- or if one request with the event was posted and answered with a status of the 200s, signed where
  -- the plugin has a secret file.
  pub deliver_http-IsSent :
      (ev : Event)
      → (deliver_http c p ev).0 ≡ ok tt
      → ((matches c p ev.repo ≡ false) × ((deliver_http c p ev).1 ≡ []))
        ⊎ ((matches c p ev.repo ≡ true) × IsSent c p ev)
  unfolding deliver_http request_for
  deliver_http-IsSent ev h = elim (Bool-cases (matches c p ev.repo)) [
    | inr e ↦ inl (e, rw e refl)
    | inl e ↦
        let (req, r, h', sent) = post_request-ok (request_for c p ev) (rw e at h) in
        let (status, a, j) = >>=-eq-ok (or_failed no_answer (c.post req)) _ h' in
        let (payload, q, r') = >>=-eq-ok (or_failed not_encoded (c.encode ev)) _ r in
        let (u, v, s') =
          >>=-eq-ok
            (guard (c.valid_url (build_url p.url_template ev.repo ev.ref ev.event_id)) bad_url) _
            r' in
        let (signature, g, r'') = >>=-eq-ok (sign c p payload) _ s' in
        let (lo, hi) = judge-ok c p status j in
        let same = ap (ok_or req) r'' in
        inr (
          e,
          record {
            request = req;
            posted = rw e sent;
            status = status;
            answered = or_failed-ok no_answer (c.post req) status a;
            at_least = lo;
            below = hi;
            url = sym (ap (λ x. x.url) same);
            payload =
                or_failed-ok not_encoded (c.encode ev) payload q ∙ ap (λ x. some x.payload) same;
            signed =
                subst (λ (x : Request). Signed x.payload x.signature) same
                  (sign-Signed payload signature g);
          },
        )
  ]
