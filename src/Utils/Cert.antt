-- ===== src/Utils/Cert.antt =====
-- src/utils/cert.rs: the key type of the server's certificate and the choice of a cipher. Files and
-- OpenSSL are a parameter.
pub mod Laws
mod Tests
use ocserv_rs.Base.{Option, none, some, List, [], ◌∷◌, find_first}
use ocserv_rs.Base.Text.{Text, Bytes, text, split, starts_with}

-- `openssl::pkey::Id`.
pub data KeyId : Type 0 where
  ec rsa other : KeyId

-- `std::fs::read`, and `X509::from_pem` with `public_key` and `id`.
pub record Openssl : Type 1 where
  pub X509 : Type 0
  pub Key : Type 0
  pub read_file : Text → Option Bytes
  pub from_pem : Bytes → Option X509
  pub public_key : X509 → Option Key
  pub id : Key → KeyId

pub data CertKeyType : Type 0 where
  ec rsa unknown : CertKeyType

unfoldable pub key_type_of_id : KeyId → CertKeyType
key_type_of_id KeyId.ec = CertKeyType.ec
key_type_of_id KeyId.rsa = CertKeyType.rsa
key_type_of_id KeyId.other = unknown

abbrev or_unknown {ℓ} : {A : Type ℓ} → Option A → (A → CertKeyType) → CertKeyType
or_unknown none k = unknown
or_unknown (some a) k = k a

unfoldable pub detect_cert_key_type : Openssl → Text → CertKeyType
unfolding key_type_of_id
detect_cert_key_type o cert_path = or_unknown (o.read_file cert_path) λ cert_pem.
    or_unknown (o.from_pem cert_pem)
      λ cert. or_unknown (o.public_key cert) λ key. key_type_of_id (o.id key)

unfoldable pub preferred_prefixes : CertKeyType → List Text
preferred_prefixes CertKeyType.ec = text "ECDHE-ECDSA-" ∷ []
preferred_prefixes CertKeyType.rsa = text "ECDHE-RSA-" ∷ text "DHE-RSA-" ∷ []
preferred_prefixes unknown =
    text "ECDHE-ECDSA-" ∷ text "ECDHE-RSA-" ∷ text "DHE-RSA-" ∷ text "AES" ∷ []

abbrev pub or_next : Option Text → Option Text → Option Text
or_next none o = o
or_next (some c) o = some c

-- The two loops: the first cipher with the first prefix that any cipher has.
unfoldable pub first_match : List Text → List Text → Option Text
unfolding find_first
first_match [] ciphers = none
first_match (prefix ∷ prefixes) ciphers =
    or_next (find_first (starts_with prefix) ciphers) (first_match prefixes ciphers)

-- `first().unwrap_or(&"AES256-GCM-SHA384")`.
unfoldable pub fallback : List Text → Text
fallback [] = text "AES256-GCM-SHA384"
fallback (cipher ∷ ciphers) = cipher

unfoldable pub selected : Option Text → List Text → Text
unfolding fallback
selected (some cipher) ciphers = cipher
selected none ciphers = fallback ciphers

unfoldable pub select_compatible_cipher : Text → CertKeyType → Text
unfolding selected first_match preferred_prefixes
select_compatible_cipher client_ciphers cert_type =
    selected (first_match (preferred_prefixes cert_type) (split b':' client_ciphers))
      (split b':' client_ciphers)
