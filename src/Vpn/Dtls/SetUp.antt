-- ===== src/Vpn/Dtls/SetUp.antt =====
-- src/vpn/dtls.rs: the set-up of the DTLS server. The socket and OpenSSL's builder of a context are
-- parameters.
use ocserv_rs.Base.{ℕ, Option, none, some, Bool, Result, ok, err, ◌>>=◌, if◌then◌else◌}
use ocserv_rs.Base.Text.{Text}
use ocserv_rs.Utils.Cert.{Openssl}
use ocserv_rs.Vpn.Dtls.{
  CipherError, detect_cipher_suite_for_cert, DtlsSessionStore, DtlsServer, new,
}

-- The calls on a builder of type B; `none` is a failure.
pub record SslBuilder (B : Type 0) : Type 0 where
  pub mozilla_intermediate_v5 : Option B
  pub set_certificate_chain_file : Text → B → Option B
  pub set_private_key_file : Text → B → Option B
  pub set_cipher_list : Text → B → Option B
  pub set_verify_none : B → B

-- The steps that fail.
pub data SetUpError : Type 0 where
  not_bound no_builder no_certificate no_private_key bad_cipher_list : SetUpError
  no_cipher_suite : CipherError → SetUpError

abbrev step : {A : Type 0} → SetUpError → Option A → Result SetUpError A
step e none = err e
step e (some a) = ok a

abbrev detected : Result CipherError Text → Result SetUpError Text
detected (ok suite) = ok suite
detected (err e) = err (no_cipher_suite e)

-- The context by its builder: the key callback is `psk_callback`.
unfoldable pub configure : {B : Type 0} → SslBuilder B → Openssl → Text → Text → Result SetUpError B
unfolding detect_cipher_suite_for_cert
configure ssl o cert_path key_path = do
  builder ← step no_builder ssl.mozilla_intermediate_v5
  with_cert ← step no_certificate (ssl.set_certificate_chain_file cert_path builder)
  with_key ← step no_private_key (ssl.set_private_key_file key_path with_cert)
  cipher_suite ← detected (detect_cipher_suite_for_cert o cert_path)
  with_ciphers ← step bad_cipher_list (ssl.set_cipher_list cipher_suite with_key)
  ok (ssl.set_verify_none with_ciphers)

-- `bind` is whether the UDP socket of a port can be bound.
unfoldable pub set_up :
    {B : Type 0}
    → (ℕ → Bool)
    → SslBuilder B
    → Openssl
    → ℕ
    → DtlsSessionStore
    → Text
    → Text
    → Result SetUpError (B × DtlsServer)
unfolding configure new
set_up bind ssl o port sessions cert_path key_path =
    if bind port
    then (configure ssl o cert_path key_path >>= λ context. ok (context, new sessions))
    else err not_bound
