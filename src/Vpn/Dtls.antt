-- ===== src/Vpn/Dtls.antt =====
-- src/vpn/dtls.rs: the DTLS server, which routes datagrams to tunnels and hands out pre-shared keys.
-- The socket, the channels, the crate hex and OpenSSL are parameters of its steps.
pub mod Hello
pub mod Laws
pub mod Routes
pub mod SetUp
mod Tests
use ocserv_rs.Base.{
  ℕ, Option, none, some, Bool, true, false, Result, ok, err, ◌>>=◌, List, [], ◌∷◌, length,
  if◌then◌else◌, leb,
}
use ocserv_rs.Base.Text.{Text, Bytes, text}
use ocserv_rs.Base.Eq.{nat_eq, bytes_eq}
use ocserv_rs.Base.HashMap.{HashMap, get, insert, remove}
use ocserv_rs.Auth.Session.{SocketAddr}
use ocserv_rs.Utils.Cert.{KeyId, Openssl}
use ocserv_rs.Vpn.Dtls.Hello.{extract_session_id_from_client_hello}

-- The calls of `detect_cipher_suite_for_cert` that fail.
pub data CipherError : Type 0 where
  read_failed parse_failed no_public_key : CipherError

unfoldable pub cipher_suite_of_id : KeyId → Text
unfolding text
cipher_suite_of_id KeyId.ec =
    text
      "ECDHE-ECDSA-AES256-GCM-SHA384:ECDHE-ECDSA-AES128-GCM-SHA256:ECDHE-ECDSA-AES256-SHA384:ECDHE-ECDSA-AES128-SHA256:PSK-AES256-GCM-SHA384:PSK-AES128-GCM-SHA256"
cipher_suite_of_id KeyId.rsa =
    text
      "ECDHE-RSA-AES256-GCM-SHA384:ECDHE-RSA-AES128-GCM-SHA256:ECDHE-RSA-AES256-SHA384:ECDHE-RSA-AES128-SHA256:DHE-RSA-AES256-GCM-SHA384:DHE-RSA-AES128-GCM-SHA256:PSK-AES256-GCM-SHA384:PSK-AES128-GCM-SHA256"
cipher_suite_of_id KeyId.other =
    text
      "ECDHE-ECDSA-AES256-GCM-SHA384:ECDHE-RSA-AES256-GCM-SHA384:ECDHE-ECDSA-AES128-GCM-SHA256:ECDHE-RSA-AES128-GCM-SHA256:DHE-RSA-AES256-GCM-SHA384:DHE-RSA-AES128-GCM-SHA256:PSK-AES256-GCM-SHA384:PSK-AES128-GCM-SHA256"

abbrev ok_or {ℓ κ} : {E : Type ℓ} {A : Type κ} → E → Option A → Result E A
ok_or e none = err e
ok_or e (some a) = ok a

unfoldable pub detect_cipher_suite_for_cert : Openssl → Text → Result CipherError Text
unfolding cipher_suite_of_id
detect_cipher_suite_for_cert o cert_path = do
  cert_pem ← ok_or read_failed (o.read_file cert_path)
  cert ← ok_or parse_failed (o.from_pem cert_pem)
  pubkey ← ok_or no_public_key (o.public_key cert)
  ok (cipher_suite_of_id (o.id pubkey))

-- The sending end of a channel, by a number.
abbrev pub Sender : Type 0
Sender = ℕ

pub record DtlsSessionInfo : Type 0 where
  pub psk : Bytes
  pub tun_tx : Option Sender
  pub dtls_signal_tx : Option Sender

abbrev pub DtlsSessionStore : Type 0
DtlsSessionStore = HashMap Text DtlsSessionInfo

-- The keys of `pending_session_ids` are the addresses of SSL objects.
pub record DtlsServer : Type 0 where
  pub sessions : DtlsSessionStore
  pub active_sessions : HashMap SocketAddr Sender
  pub pending_session_ids : HashMap ℕ Text

unfoldable pub new : DtlsSessionStore → DtlsServer
new sessions = record { sessions = sessions; active_sessions = []; pending_session_ids = [] }

-- `psk_buf` has room for n bytes. Nothing copied is `Ok(0)`.
unfoldable pub copy_key : Option DtlsSessionInfo → ℕ → Bytes
copy_key none n = []
copy_key (some info) n = if leb (length info.psk) n then info.psk else []

unfoldable pub key_of : DtlsServer → Option Text → ℕ → Bytes
unfolding copy_key
key_of s none n = []
key_of s (some sid) n = copy_key (get sid s.sessions) n

unfoldable pub psk_callback : DtlsServer → ℕ → ℕ → Bytes
unfolding key_of
psk_callback s ssl_ptr n = key_of s (get ssl_ptr s.pending_session_ids) n

-- What the server does to channels.
pub data Action : Type 0 where
  forward : Sender → Bytes → Action
  signal : Sender → ℕ → SocketAddr → Action

-- The outcome of `try_send`: a refusal carries whether the channel is closed.
pub data Sent : Type 0 where
  sent : Sent
  refused : Bool → Sent

-- The answers of the surroundings in one round of the loop: `try_send`, the address of the SSL
-- object of a new engine, and whether the two channels of a session take what they are sent.
pub record Answers : Type 0 where
  pub try_send : Sent
  pub new_engine : Option ℕ
  pub signal_sent : Bool
  pub packet_sent : Bool

unfoldable pub remove_active : SocketAddr → DtlsServer → DtlsServer
remove_active addr s = record s { active_sessions = remove addr s.active_sessions }

-- The drop of an engine, and with it of its `SessionGuard`.
unfoldable pub drop_engine : ℕ → DtlsServer → DtlsServer
drop_engine ptr s = record s { pending_session_ids = remove ptr s.pending_session_ids }

-- A datagram from an address with an active session.
unfoldable pub forward_active :
    Sender → Sent → SocketAddr → Bytes → DtlsServer → DtlsServer × List Action
unfolding remove_active
forward_active tx sent addr packet s = (s, forward tx packet ∷ [])
forward_active tx (refused closed) addr packet s = (if closed then remove_active addr s else s, [])

unfoldable pub register : ℕ → Text → SocketAddr → Sender → DtlsServer → DtlsServer
register ptr sid addr tun_tx s = record s {
  pending_session_ids = insert ptr sid s.pending_session_ids;
  active_sessions = insert addr tun_tx s.active_sessions;
}

-- The engine goes to the tunnel, and behind it the ClientHello. An engine that cannot be sent is
-- dropped.
unfoldable pub hand_over :
    Answers → ℕ → SocketAddr → Bytes → Sender → Sender → DtlsServer → DtlsServer × List Action
unfolding drop_engine remove_active
hand_over a ptr addr packet tun_tx signal_tx s =
    if a.signal_sent
    then (s, signal signal_tx ptr addr ∷ (if a.packet_sent then forward tun_tx packet ∷ [] else []))
    else (remove_active addr (drop_engine ptr s), [])

unfoldable pub start_engine :
    Answers
    → Option ℕ
    → Text
    → SocketAddr
    → Bytes
    → Sender
    → Sender
    → DtlsServer
    → DtlsServer × List Action
unfolding hand_over register
start_engine a none sid addr packet tun_tx signal_tx s = (s, [])
start_engine a (some ptr) sid addr packet tun_tx signal_tx s =
    hand_over a ptr addr packet tun_tx signal_tx (register ptr sid addr tun_tx s)

-- `if let (Some(tun_tx), Some(signal_tx))`.
unfoldable pub with_channels :
    Answers
    → Option Sender
    → Option Sender
    → Text
    → SocketAddr
    → Bytes
    → DtlsServer
    → DtlsServer × List Action
unfolding start_engine
with_channels a (some tun_tx) (some signal_tx) sid addr packet s =
    start_engine a a.new_engine sid addr packet tun_tx signal_tx s
with_channels a (some tun_tx) none sid addr packet s = (s, [])
with_channels a none signal_tx sid addr packet s = (s, [])

unfoldable pub with_info :
    Answers
    → Option DtlsSessionInfo
    → Text
    → SocketAddr
    → Bytes
    → DtlsServer
    → DtlsServer × List Action
unfolding with_channels
with_info a none sid addr packet s = with_channels a none none sid addr packet s
with_info a (some info) sid addr packet s =
    with_channels a info.tun_tx info.dtls_signal_tx sid addr packet s

unfoldable pub new_session :
    Answers → Option Text → SocketAddr → Bytes → DtlsServer → DtlsServer × List Action
unfolding with_info
new_session a none addr packet s = (s, [])
new_session a (some sid) addr packet s = with_info a (get sid s.sessions) sid addr packet s

unfoldable pub route :
    (Bytes → Text)
    → Answers
    → Option Sender
    → SocketAddr
    → Bytes
    → DtlsServer
    → DtlsServer × List Action
unfolding forward_active new_session
route hex a (some tx) addr packet s = forward_active tx a.try_send addr packet s
route hex a none addr packet s =
    new_session a (extract_session_id_from_client_hello hex packet) addr packet s

-- One round of the loop of `run`: a datagram from an address.
unfoldable pub receive :
    (Bytes → Text) → Answers → SocketAddr → Bytes → DtlsServer → DtlsServer × List Action
unfolding route
receive hex a addr packet s = route hex a (get addr s.active_sessions) addr packet s
