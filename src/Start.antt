-- ===== src/Start.antt =====
-- src/main.rs, src/tls_config.rs and the set-up in src/http/server.rs and src/http/handlers.rs: from
-- the command line to a server that accepts connections. Files, the parsers of PEM and TOML, hashes
-- and sockets are parameters.
pub mod Laws
mod Tests
use ocserv_rs.Base.{
  ℕ, Result, ok, err, Option, none, some, Bool, true, false, List, [], ◌∷◌, if◌then◌else◌,
}
use ocserv_rs.Base.Text.{Text, Bytes, text}
use ocserv_rs.Base.Utf8.{from_utf8}
use ocserv_rs.Config.{Config, ControlConfig, default_config}
use ocserv_rs.Auth.Provider.{AuthManager, from_config}
use ocserv_rs.Vpn.IpPool
use ocserv_rs.Vpn.IpPool.{IpNetwork, IpPool, PoolError}
use ocserv_rs.Http.ConnectFlow.{ServerState}
use ocserv_rs.Http.Connection.{Shared}

-- How a piece of the start ends: with a value, an error, or a panic.
pub data Run {ℓ} (A : Type ℓ) : Type ℓ where
  done : A → Run A
  failed : Text → Run A
  panicked : Run A

infixl 5 ◌>>=◌
abbrev pub ◌>>=◌ {ℓ κ} : {A : Type ℓ} {B : Type κ} → Run A → (A → Run B) → Run B
done a >>= f = f a
failed e >>= f = failed e
panicked >>= f = panicked

abbrev pub try {ℓ} : {A : Type ℓ} → Result Text A → Run A
try (ok a) = done a
try (err e) = failed e

-- `context`: the text of the error is the one given.
abbrev pub context {ℓ} : {A : Type ℓ} → Text → Run A → Run A
context what (done a) = done a
context what (failed e) = failed what
context what panicked = panicked

-- The machine that the server starts on; a configuration of rustls by its bytes.
pub record Host : Type 0 where
  pub exists : Text → Bool
  pub read_file : Text → Result Text Bytes
  pub parse_toml : Text → Result Text Config
  pub certs : Bytes → Result Text (List Bytes)
  pub pkcs8_private_keys : Bytes → Result Text (List Bytes)
  pub with_single_cert : List Bytes → Bytes → Result Text Bytes
  pub parse_addr : Text → Result Text Text
  pub sha1 : Bytes → Bytes
  pub hex_encode : Bytes → Text
  pub bind : Text → Result Text Text

-- `keys.remove(0)` panics if there is no key.
abbrev pub first_key : List Bytes → Run Bytes
first_key [] = panicked
first_key (key ∷ keys) = done key

unfoldable pub load_tls_config : Host → Text → Text → Run Bytes
load_tls_config h cert_path key_path = do
  cert_file ← try (h.read_file cert_path)
  certs ← try (h.certs cert_file)
  key_file ← try (h.read_file key_path)
  keys ← try (h.pkcs8_private_keys key_file)
  key ← first_key keys
  try (h.with_single_cert certs key)

-- `TlsAcceptor::from`.
unfoldable pub create_tls_acceptor : Bytes → Bytes
create_tls_acceptor config = config

abbrev or_fail {ℓ} : {A : Type ℓ} → Option A → Text → Run A
or_fail none e = failed e
or_fail (some a) e = done a

unfoldable pub from_file : Host → Text → Run Config
unfolding from_utf8
from_file h path = do
  bytes ← context (text "Failed to read config file") (try (h.read_file path))
  content ← or_fail (from_utf8 bytes) (text "Failed to read config file")
  context (text "Failed to parse config file") (try (h.parse_toml content))

pub record HttpServer : Type 0 where
  pub addr : Text
  pub tls_acceptor : Bytes
  pub config : Config
  pub cert_hash : Text

unfoldable pub new_server : Text → Bytes → Config → Text → HttpServer
new_server addr tls_acceptor config cert_hash = record {
  addr = addr;
  tls_acceptor = tls_acceptor;
  config = config;
  cert_hash = cert_hash;
}

abbrev first_cert : List Bytes → Run Bytes
first_cert [] = failed (text "No certificate found in file")
first_cert (cert ∷ certs) = done cert

-- Up to the server that is then run; `config_path` is the argument of the command line.
unfoldable pub main : Host → Text → Run HttpServer
unfolding from_file load_tls_config create_tls_acceptor new_server
main h config_path = do
  config ← if h.exists config_path then from_file h config_path else done default_config
  tls_config ←
      context (text "Failed to load TLS configuration")
        (load_tls_config h config.server.cert_path config.server.key_path)
  addr ← context (text "Invalid listen address in config") (try (h.parse_addr config.server.listen))
  cert_bytes ←
      context (text "Failed to read certificate for hash calculation")
        (try (h.read_file config.server.cert_path))
  certs ← context (text "Failed to parse certificate PEM") (try (h.certs cert_bytes))
  cert ← first_cert certs
  done (new_server addr (create_tls_acceptor tls_config) config (h.hex_encode (h.sha1 cert)))

-- What is spawned beside the loop that accepts connections.
pub data Service : Type 0 where
  dtls_server : ℕ → Text → Text → ℕ → Service
  control_server : ControlConfig → Service

abbrev dtls_service : Config → Option ℕ → List Service → List Service
dtls_service config none services = services
dtls_service config (some dtls_port) services =
    dtls_server dtls_port config.server.cert_path config.server.key_path
      config.performance.buffer_size
    ∷ services

unfoldable pub services : Config → List Service
services config = dtls_service config config.server.dtls_port (control_server config.control ∷ [])

module _ (net : IpNetwork) where
  -- `expect` panics if the pool cannot be made.
  abbrev pool_or_panic : Result PoolError (IpPool net) → Run (IpPool net)
  pool_or_panic (ok pool) = done pool
  pool_or_panic (err e) = panicked

  unfoldable pub new_state : Config → Run (AuthManager × Shared net)
  unfolding from_config
  new_state config = do
    pool ← pool_or_panic (IpPool.new net config.network.ipv4_pool)
    done (
      from_config config.auth,
      record {
        server = record { sessions = []; dtls_sessions = []; ip_pool = pool };
        hpke_contexts = [];
      },
    )

  -- The socket is bound before the state is made.
  unfoldable pub run : Host → HttpServer → Run (AuthManager × Shared net × List Service)
  unfolding new_state services
  run h server = do
    listener ← try (h.bind server.addr)
    (auth_manager, state) ← new_state server.config
    done (auth_manager, state, services server.config)
