-- ===== src/Browse/Tls/Accept.antt =====
-- The callbacks of internal/browse/tls.go and what they answer.
use gitd.Browse.Tls.{
  revoked_serial, X509, Certificate, Key, ecdsa, other_key, TlsPaths, TlsError, Files, or_error,
  config_for_client, read_file, revoked_in, parse_leaf, unreadable, bad_key_pair, no_certificates,
  bad_revocation_list, load_revoked, load_client_cas, load_server_cert, verify_client_cert,
  require_p256, bad_certificate,
}
use gitd.Prelude.{
  ◌↔◌, ◌≡◌, refl, Bool, true, false, List, [], ◌∷◌, Bytes, Option, none, some, if◌then◌else◌,
  str_eq, any, arith, ◌∙◌, ap, sym, ◌⊎◌, inl, inr,
}
use gitd.Prelude.Result.{>>=-eq-ok, Result, ok, err}

-- The first certificate has a P-256 key and is not among those revoked.
pub record IsAdmitted (x : X509) (raws revoked : List Bytes) : Type 0 where
  pub raw : Bytes
  pub raws_behind : List Bytes
  pub leaf : Certificate
  pub presented : raws ≡ raw ∷ raws_behind
  pub parsed : x.parse_certificate raw ≡ some leaf
  pub p256 : leaf.key ≡ ecdsa true
  pub not_revoked : any (str_eq leaf.serial) revoked ≡ false

require_p256-ok : (k : Key) → require_p256 k ≡ ok tt → k ≡ ecdsa true
unfolding require_p256
require_p256-ok other_key h = cc
require_p256-ok (ecdsa b) h = ground arith

or_error-ok : {A : Type 0} (e : TlsError) (o : Option A) (a : A) → or_error e o ≡ ok a → o ≡ some a
or_error-ok e none a h = cc
or_error-ok e (some b) a h = cc

not_in-ok :
    (b : Bool) (s : Bytes)
    → ◌≡◌ {A = Result TlsError (Unit {0})} (if b then err (revoked_serial s) else ok tt) (ok tt)
    → b ≡ false
not_in-ok true s h = cc
not_in-ok false s h = refl

verify_client_cert-ok :
    (x : X509) (raws revoked : List Bytes)
    → verify_client_cert x raws revoked ≡ ok tt
    → IsAdmitted x raws revoked
unfolding verify_client_cert
verify_client_cert-ok x [] revoked h = cc
verify_client_cert-ok x (raw ∷ raws) revoked h =
    let (leaf, p, h') = >>=-eq-ok (or_error bad_certificate (x.parse_certificate raw)) _ h in
    let (u, q, h'') = >>=-eq-ok (require_p256 leaf.key) _ h' in
    record {
      raw = raw;
      raws_behind = raws;
      leaf = leaf;
      presented = refl;
      parsed = or_error-ok bad_certificate (x.parse_certificate raw) leaf p;
      p256 = require_p256-ok leaf.key q;
      not_revoked = not_in-ok (any (str_eq leaf.serial) revoked) leaf.serial h'';
    }

IsAdmitted-verify_client_cert :
    (x : X509) (raws revoked : List Bytes)
    → IsAdmitted x raws revoked
    → verify_client_cert x raws revoked ≡ ok tt
unfolding verify_client_cert require_p256
IsAdmitted-verify_client_cert x raws revoked a =
    rw (a.presented, a.parsed, a.p256, a.not_revoked) refl

some_or_none : {A : Type 0} (o : Option A) → ((a : A) × (o ≡ some a)) ⊎ (o ≡ none)
some_or_none none = inr refl
some_or_none (some a) = inl (a, refl)

-- How the serials stand in the text: it is empty, a DER list, or else a PEM block of one.
abbrev pub IsListed : X509 → Bytes → List Bytes → Type 0
IsListed x text revoked =
    ((text ≡ []) × (revoked ≡ []))
    ⊎ (x.parse_revocation_list text ≡ some revoked)
    ⊎ ((x.parse_revocation_list text ≡ none)
        × ((block : Bytes) × (x.pem_block text ≡ some block)
            × (x.parse_revocation_list block ≡ some revoked)))

revoked_in-IsListed :
    (x : X509) (text : Bytes) (revoked : List Bytes)
    → revoked_in x text ≡ ok revoked
    → IsListed x text revoked
revoked_in-IsListed x [] revoked h = inl (refl, cc h)
revoked_in-IsListed x (c ∷ s) revoked h = elim (some_or_none (x.parse_revocation_list (c ∷ s))) [
  | inl (serials, e) ↦ inr (inl (e ∙ cc (rw (e, revoked_in) at h)))
  | inr e ↦ elim (some_or_none (x.pem_block (c ∷ s))) [
    | inl (block, q) ↦ inr (
        inr (
          e,
          (
            block,
            q,
            or_error-ok bad_revocation_list (x.parse_revocation_list block) revoked
                (rw (e, q, revoked_in) at h),
          ),
        ))
    | inr q ↦ cc (rw (e, q, revoked_in) at h)
  ]
]

-- What the files hold, from which the callbacks answer.
pub record IsSetUp (x : X509) (files : Files) (p : TlsPaths) (cas : List Certificate)
    (revoked own_chain : List Bytes) : Type 0 where
  pub ca_text : Bytes
  pub ca_there : files p.client_ca ≡ some ca_text
  pub cas_read : x.pool_of ca_text ≡ some cas
  pub revocation_text : Bytes
  pub revocation_there : files p.revocation_list ≡ some revocation_text
  pub listed : IsListed x revocation_text revoked
  pub cert_text : Bytes
  pub key_text : Bytes
  pub cert_there : files p.cert ≡ some cert_text
  pub key_there : files p.key ≡ some key_text
  pub paired : x.key_pair cert_text key_text ≡ some own_chain
  pub own_leaf : Certificate
  pub own_raw : Bytes
  pub own_raws : List Bytes
  pub own_first : own_chain ≡ own_raw ∷ own_raws
  pub own_parsed : x.parse_certificate own_raw ≡ some own_leaf
  pub own_p256 : own_leaf.key ≡ ecdsa true

parse_leaf-ok :
    (x : X509) (ders : List Bytes) (leaf : Certificate)
    → parse_leaf x ders ≡ ok leaf
    → (der : Bytes) × (rest : List Bytes) × (ders ≡ der ∷ rest)
      × (x.parse_certificate der ≡ some leaf)
unfolding parse_leaf
parse_leaf-ok x [] leaf h = cc
parse_leaf-ok x (der ∷ ders) leaf h =
    (der, ders, refl, or_error-ok bad_certificate (x.parse_certificate der) leaf h)

abbrev ok_or : {A : Type 0} → A → Result TlsError A → A
ok_or a (ok b) = b
ok_or a (err e) = a

callbacks-IsSetUp :
    (x : X509) (files : Files) (p : TlsPaths) (cas : List Certificate)
    (revoked own_chain : List Bytes)
    → config_for_client x files p ≡ ok (cas, revoked)
    → load_server_cert x files p ≡ ok own_chain
    → IsSetUp x files p cas revoked own_chain
unfolding config_for_client load_client_cas load_revoked load_server_cert
callbacks-IsSetUp x files p cas revoked own_chain c s =
    let (cas', a, c') = >>=-eq-ok (load_client_cas x files p.client_ca) _ c in
    let (ca_text, at, a') = >>=-eq-ok (read_file files p.client_ca) _ a in
    let (revoked', r, same) = >>=-eq-ok (load_revoked x files p.revocation_list) _ c' in
    let (text, rt, r') = >>=-eq-ok (read_file files p.revocation_list) _ r in
    let (cert, ct, s1) = >>=-eq-ok (read_file files p.cert) _ s in
    let (key, kt, s2) = >>=-eq-ok (read_file files p.key) _ s1 in
    let (chain, pair, s3) = >>=-eq-ok (or_error bad_key_pair (x.key_pair cert key)) _ s2 in
    let (leaf, l, s4) = >>=-eq-ok (parse_leaf x chain) _ s3 in
    let (u, q, s5) = >>=-eq-ok (require_p256 leaf.key) _ s4 in
    let (der, ders, first, parsed) = parse_leaf-ok x chain leaf l in
    let own : chain ≡ own_chain = ap (ok_or chain) s5 in
    let both : (cas', revoked') ≡ (cas, revoked) = ap (ok_or (cas', revoked')) same in
    record {
      ca_text = ca_text;
      ca_there = or_error-ok (unreadable p.client_ca) (files p.client_ca) ca_text at;
      cas_read = or_error-ok no_certificates (x.pool_of ca_text) cas' a' ∙ ap (λ y. some y.0) both;
      revocation_text = text;
      revocation_there =
          or_error-ok (unreadable p.revocation_list) (files p.revocation_list) text rt;
      listed = revoked_in-IsListed x text revoked (r' ∙ ap (λ y. ok y.1) both);
      cert_text = cert;
      key_text = key;
      cert_there = or_error-ok (unreadable p.cert) (files p.cert) cert ct;
      key_there = or_error-ok (unreadable p.key) (files p.key) key kt;
      paired = or_error-ok bad_key_pair (x.key_pair cert key) chain pair ∙ ap (λ y. some y) own;
      own_leaf = leaf;
      own_raw = der;
      own_raws = ders;
      own_first = sym own ∙ first;
      own_parsed = parsed;
      own_p256 = require_p256-ok leaf.key q;
    }

-- When the callbacks of a connection give CAs, a revocation list and the server's chain, these are
-- what the files hold then: the CAs are the bundle's, the revoked serials those of the list's file
-- (none if it is empty, else DER or PEM), and the server's first certificate has a P-256 key. The
-- check on the client passes exactly when its first certificate has a P-256 key and is not on
-- that list.
pub verify_client_cert-IsAdmitted :
    (x : X509) (files : Files) (p : TlsPaths) (cas : List Certificate)
    (revoked own_chain raws : List Bytes)
    → config_for_client x files p ≡ ok (cas, revoked)
    → load_server_cert x files p ≡ ok own_chain
    → IsSetUp x files p cas revoked own_chain
      × ((verify_client_cert x raws revoked ≡ ok tt) ↔ IsAdmitted x raws revoked)
verify_client_cert-IsAdmitted x files p cas revoked own_chain raws c s = (
  callbacks-IsSetUp x files p cas revoked own_chain c s,
  (verify_client_cert-ok x raws revoked, IsAdmitted-verify_client_cert x raws revoked),
)
