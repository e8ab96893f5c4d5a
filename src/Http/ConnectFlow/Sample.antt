-- ===== src/Http/ConnectFlow/Sample.antt =====
-- A server with one session and a pool of one free address, for the tests.
use ocserv_rs.Base.{ℕ, ◌+◌, some, none, true, [], ◌∷◌}
use ocserv_rs.Base.Text.{text}
use ocserv_rs.Base.Eq.{bytes_eq}
use ocserv_rs.Auth.User.{plain_user}
use ocserv_rs.Auth.Session.{VpnSession}
use ocserv_rs.Utils.Cert.{Openssl, KeyId}
use ocserv_rs.Vpn.IpPool.{IpNetwork, reserve}
use ocserv_rs.Http.ConnectFlow.{Surroundings, ServerState}

abbrev pub small : IpNetwork
small = record {
  Ipv4Network = ℕ;
  parse = λ cidr. some 40;
  network = λ n. n;
  broadcast = λ n. n + 3;
  nth = λ n i. some (n + i);
  iter = λ n. n ∷ (n + 1) ∷ (n + 2) ∷ (n + 3) ∷ [];
}

abbrev pub openssl : Openssl
openssl = record {
  X509 = ℕ;
  Key = ℕ;
  read_file = λ path. none;
  from_pem = λ pem. none;
  public_key = λ cert. none;
  id = λ key. KeyId.other;
}

abbrev pub around : Surroundings
around = record {
  random = 7 ∷ 8 ∷ [];
  exported_psk = some (1 ∷ 2 ∷ 3 ∷ []);
  hex_encode = λ bytes. bytes;
  hex_decode = λ digits. some digits;
  base64_decode = λ value. none;
  openssl = openssl;
  written = true;
  flushed = true;
  tun_made = true;
  dtls_tx = 10;
  signal_tx = 11;
  remote_addr = [];
  now = 5;
}

unfoldable pub session : VpnSession
unfolding text
session = record {
  session_id = 1 ∷ [];
  session_token = text "tok";
  hpke_ctx_id = none;
  user_info = plain_user (text "alice");
  created_at = 0;
  vpn_ip = none;
  remote_ip = none;
  user_agent = none;
  connected_at = none;
}

unfoldable pub server : ServerState small
unfolding session
server = record {
  sessions = (1 ∷ [], session) ∷ [];
  dtls_sessions = [];
  ip_pool = reserve small 40 41;
}
