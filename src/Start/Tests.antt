-- ===== src/Start/Tests.antt =====
-- A machine whose files are what they are named, and on which no key can be found.
use ocserv_rs.Base.{◌≡◌, ◌↔◌, refl, ok, err, false, [], ◌∷◌}
use ocserv_rs.Base.Text.{text}
use ocserv_rs.Config.{default_config}
use ocserv_rs.Auth.Provider.{from_config}
use ocserv_rs.Vpn.IpPool
use ocserv_rs.Vpn.IpPool.{IpPool, reserve}
use ocserv_rs.Http.ConnectFlow.Sample.{small}
use ocserv_rs.Http.Connection.{Shared}
use ocserv_rs.Start.{done, panicked, Host, load_tls_config, HttpServer, services, run}
use ocserv_rs.Start.Laws.{LacksKey, load_tls_config-panicked, IsFresh, run-IsFresh}

abbrev host : Host
host = record {
  exists = λ path. false;
  read_file = λ path. ok path;
  parse_toml = λ t. err t;
  certs = λ pem. ok (pem ∷ []);
  pkcs8_private_keys = λ pem. ok [];
  with_single_cert = λ certs key. ok key;
  parse_addr = λ t. ok t;
  sha1 = λ b. b;
  hex_encode = λ b. b;
  bind = λ t. ok t;
}

load_tls_config-panicked_example :
    (load_tls_config host (text "server.crt") (text "server.key") ≡ panicked)
    ↔ LacksKey host (text "server.crt") (text "server.key")
load_tls_config-panicked_example =
    load_tls_config-panicked host (text "server.crt") (text "server.key")

abbrev server : HttpServer
server = record { addr = []; tls_acceptor = []; config = default_config; cert_hash = [] }

abbrev state : Shared small
state = record {
  server = record { sessions = []; dtls_sessions = []; ip_pool = reserve small 40 41 };
  hpke_contexts = [];
}

runs :
    run small host server ≡ done (from_config default_config.auth, state, services default_config)
unfolding run IpPool.new from_config services
runs = refl

run-IsFresh_example :
    IsFresh small default_config (from_config default_config.auth, state, services default_config)
run-IsFresh_example =
    run-IsFresh small host server (from_config default_config.auth, state, services default_config)
      runs
