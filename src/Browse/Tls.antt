-- ===== src/Browse/Tls.antt =====
-- internal/browse/tls.go: the callbacks of the TLS listener. The files are a function, so what is
-- read at a handshake is what they hold then. The parsers of crypto/x509 and encoding/pem are
-- fields of `X509`.
pub mod Accept
use gitd.Prelude.{
  ◌≡◌, refl, Bool, true, false, not, List, [], ◌∷◌, Bytes, Option, none, some, if◌then◌else◌,
  str_eq, is_nil, any,
}
use gitd.Prelude.Result.{Result, ok, err, ◌>>=◌, guard}

pub data Key : Type 0 where
  ecdsa : Bool → Key
  other_key : Key

pub record Certificate : Type 0 where
  pub key : Key
  pub serial : Bytes

pub record X509 : Type 0 where
  -- tls.LoadX509KeyPair, from what the two files hold: the chain
  pub key_pair : Bytes → Bytes → Option (List Bytes)
  pub parse_certificate : Bytes → Option Certificate
  -- AppendCertsFromPEM into a new pool
  pub pool_of : Bytes → Option (List Certificate)
  -- x509.ParseRevocationList: the serials
  pub parse_revocation_list : Bytes → Option (List Bytes)
  -- pem.Decode: the bytes of the first block
  pub pem_block : Bytes → Option Bytes

-- TLSPaths
pub record TlsPaths : Type 0 where
  pub cert : Bytes
  pub key : Bytes
  pub client_ca : Bytes
  pub revocation_list : Bytes

pub data TlsError : Type 0 where
  unreadable : Bytes → TlsError
  bad_key_pair empty_bundle bad_certificate not_ecdsa not_p256 : TlsError
  no_certificates bad_revocation_list no_client_certificate : TlsError
  revoked_serial : Bytes → TlsError

abbrev pub or_error {ℓ} : {A : Type ℓ} → TlsError → Option A → Result TlsError A
or_error e none = err e
or_error e (some a) = ok a

abbrev pub Files : Type 0
Files = Bytes → Option Bytes

abbrev pub read_file : Files → Bytes → Result TlsError Bytes
read_file files path = or_error (unreadable path) (files path)

-- requireP256
unfoldable pub require_p256 : Key → Result TlsError (Unit {0})
require_p256 other_key = err not_ecdsa
require_p256 (ecdsa p256) = if p256 then ok tt else err not_p256

module _ (x : X509) where
  -- parseLeaf
  unfoldable pub parse_leaf : List Bytes → Result TlsError Certificate
  parse_leaf [] = err empty_bundle
  parse_leaf (der ∷ ders) = or_error bad_certificate (x.parse_certificate der)

  -- loadServerCert
  unfoldable pub load_server_cert : Files → TlsPaths → Result TlsError (List Bytes)
  load_server_cert files p = do
    cert ← read_file files p.cert
    key ← read_file files p.key
    chain ← or_error bad_key_pair (x.key_pair cert key)
    leaf ← parse_leaf chain
    checked ← require_p256 leaf.key
    ok chain

  -- loadClientCAs
  unfoldable pub load_client_cas : Files → Bytes → Result TlsError (List Certificate)
  load_client_cas files path = do
    text ← read_file files path
    or_error no_certificates (x.pool_of text)

  abbrev pub revoked_in_pem : Option Bytes → Result TlsError (List Bytes)
  revoked_in_pem none = err bad_revocation_list
  revoked_in_pem (some block) = or_error bad_revocation_list (x.parse_revocation_list block)

  abbrev pub revoked_in : Bytes → Result TlsError (List Bytes)
  revoked_in [] = ok []
  revoked_in (c ∷ s) = elim (x.parse_revocation_list (c ∷ s)) [
    | some serials ↦ ok serials
    | none ↦ revoked_in_pem (x.pem_block (c ∷ s))
  ]

  -- loadRevoked
  unfoldable pub load_revoked : Files → Bytes → Result TlsError (List Bytes)
  load_revoked files path = do text ← read_file files path; revoked_in text

  -- verifyClientCert
  unfoldable pub verify_client_cert : List Bytes → List Bytes → Result TlsError (Unit {0})
  verify_client_cert [] revoked = err no_client_certificate
  verify_client_cert (raw ∷ raws) revoked = do
    leaf ← or_error bad_certificate (x.parse_certificate raw)
    checked ← require_p256 leaf.key
    if any (str_eq leaf.serial) revoked then err (revoked_serial leaf.serial) else ok tt

  -- NewTLSConfig: what is checked when the server starts
  unfoldable pub new_tls_config : Files → TlsPaths → Result TlsError (Unit {0})
  new_tls_config files p = do
    chain ← load_server_cert files p
    cas ← load_client_cas files p.client_ca
    revoked ← load_revoked files p.revocation_list
    ok tt

  -- GetConfigForClient: the CAs and the revoked serials of one handshake
  unfoldable pub config_for_client :
      Files → TlsPaths → Result TlsError (List Certificate × List Bytes)
  config_for_client files p = do
    cas ← load_client_cas files p.client_ca
    revoked ← load_revoked files p.revocation_list
    ok (cas, revoked)
