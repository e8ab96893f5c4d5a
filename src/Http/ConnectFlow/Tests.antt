-- ===== src/Http/ConnectFlow/Tests.antt =====
-- CONNECT requests to a server with one session and a pool of one free address.
use ocserv_rs.Base.{
  ℕ, ◌+◌, List, Option, subst, Result, ok, err, inl, inr, nat_beq_iff, zero, suc, ◌≤◌, ◌≡◌, refl,
  arith, some, none, Bool, true, false, [], ◌∷◌, ◌++◌, if◌then◌else◌,
}
use ocserv_rs.Base.Text.{Text, Bytes, text, contains, to_lowercase}
use ocserv_rs.Base.HashSet
use ocserv_rs.Base.HashMap.{get, insert}
use ocserv_rs.Base.Eq.{◌==◌, nat_eq, bytes_eq, list_beq}
use ocserv_rs.Config.{default_config}
use ocserv_rs.Auth.Session.{VpnSession, get_session_by_token}
use ocserv_rs.Auth.Session.Laws.{IsIdle, IdleAt}
use ocserv_rs.Vpn.IpPool
use ocserv_rs.Vpn.IpPool.{IpNetwork, IpPool, PoolError, reserve}
use ocserv_rs.Vpn.IpPool.Laws.{Represents, allocate-Represents, new-Represents}
use ocserv_rs.Vpn.Dtls.{DtlsServer, DtlsSessionStore, Answers, sent, forward, psk_callback, receive}
use ocserv_rs.Vpn.Dtls.Hello.Laws.{ClientHello}
use ocserv_rs.Http.Request.{HttpRequest, header}
use ocserv_rs.Http.Cookie.{extract_webvpn_token}
use ocserv_rs.Http.RawConnect.{DtlsConfig, psk, build_connect_response}
use ocserv_rs.Http.ConnectFlow.{
  ServerState, refused, tunnel_ended, unlinked, negotiate, session_token, webvpn_cookie,
  link_session, connect_flow,
}
use ocserv_rs.Http.ConnectFlow.Laws.{
  tunnel_has_session, RunsFrom, IsBalanced, connect_flow-Represents, connect_flow-sessions,
}
use ocserv_rs.Http.ConnectFlow.Session.{key_for, connect_then_hello}
use ocserv_rs.Http.ConnectFlow.Refusal.{LacksSession, connect_refused}
use ocserv_rs.Http.Response.{HttpResponse}
use ocserv_rs.Http.ConnectFlow.Sample.{small, around, session, server}

abbrev request_with : Text → HttpRequest
unfolding text
request_with cookie = record {
  method = text "CONNECT";
  path = text "/CSCOSSLC/tunnel";
  version = 1;
  headers = (text "Cookie", cookie) ∷ (text "X-DTLS-CipherSuite", text "PSK-NEGOTIATE:AES") ∷ [];
  body = [];
}

abbrev alone : ServerState small → ServerState small
alone s = s

bad_token : session_token around (request_with (text "webvpn=bad")) server.sessions ≡ none
unfolding session_token server session request_with header extract_webvpn_token text
    get_session_by_token to_lowercase list_beq
bad_token = refl

good_token :
    session_token around (request_with (text "a=b; webvpn=tok")) server.sessions ≡ some (text "tok")
unfolding bad_token session_token header request_with list_beq to_lowercase extract_webvpn_token
    get_session_by_token
good_token = refl

abbrev bad : HttpRequest
unfolding request_with text
bad = request_with (text "webvpn=bad")

bad_lacks : LacksSession around bad server.sessions
unfolding bad_token good_token bad webvpn_cookie request_with header extract_webvpn_token text
    get_session_by_token to_lowercase list_beq server session
bad_lacks token e = subst (λ o. found_by o ≡ none) e refl
  where
    found_by : Option Text → Option VpnSession
    found_by none = none
    found_by (some t) = get_session_by_token t server.sessions

connect_refused_example :
    (answer : HttpResponse) × ((connect_flow small default_config around alone bad server).1
      ≡ refused answer)
    × (answer.status_code ≡ 401)
    × (answer.body ≡ text "Unauthorized")
    × ((connect_flow small default_config around alone bad server).0.sessions ≡ server.sessions)
    × ((connect_flow small default_config around alone bad server).0.ip_pool ≡ server.ip_pool)
    × ((dtls : DtlsConfig)
        → (negotiate default_config around bad server.dtls_sessions).1 ≡ some dtls
        → get
            (around.hex_encode around.random)
            (connect_flow small default_config around alone bad server).0.dtls_sessions
          ≡ some (unlinked (key_for around bad dtls)))
connect_refused_example = connect_refused small default_config around alone bad server bad_lacks

abbrev good : HttpRequest
unfolding request_with text
good = request_with (text "a=b; webvpn=tok")

abbrev good_psk : DtlsConfig
good_psk = psk (record { port = 8443; app_id = 7 ∷ 8 ∷ []; rekey_time = 86_400; keepalive = 30 })

good_negotiated :
    negotiate default_config around good []
    ≡ ((7 ∷ 8 ∷ [], unlinked (1 ∷ 2 ∷ 3 ∷ [])) ∷ [], some good_psk)
unfolding bad_token good negotiate contains insert header list_beq to_lowercase
good_negotiated = refl

good_ends :
    (connect_flow small default_config around alone good server).1
    ≡ tunnel_ended (build_connect_response default_config (some good_psk) 42)
unfolding good_negotiated connect_flow IpPool.allocate session_token header good list_beq
    to_lowercase extract_webvpn_token get_session_by_token HashSet.contains HashSet.insert negotiate
    contains
good_ends = refl

tunnel_has_session_example :
    (token : Text) × (webvpn_cookie around good ≡ some token)
    × ((s : VpnSession) × (get_session_by_token token server.sessions ≡ some s))
tunnel_has_session_example =
    tunnel_has_session small default_config around alone good server
      (build_connect_response default_config (some good_psk) 42) good_ends

-- A network with two free addresses, on which another client takes one while the tunnel runs.
abbrev wide : IpNetwork
wide = record {
  Ipv4Network = ℕ;
  parse = λ cidr. some 40;
  network = λ n. n;
  broadcast = λ n. n + 4;
  nth = λ n i. some (n + i);
  iter = λ n. n ∷ (n + 1) ∷ (n + 2) ∷ (n + 3) ∷ (n + 4) ∷ [];
}

abbrev wide_server : ServerState wide
wide_server = record {
  sessions = (1 ∷ [], session) ∷ [];
  dtls_sessions = [];
  ip_pool = reserve wide 40 41;
}

abbrev another : ServerState wide → ServerState wide
another s = record s { ip_pool = (IpPool.allocate wide s.ip_pool).0 }

abbrev taken : Result PoolError ℕ → List ℕ
taken (ok ip) = ip ∷ []
taken (err e) = []

abbrev held_then : ServerState wide → ℕ → List ℕ
held_then s ip = taken (IpPool.allocate wide s.ip_pool).1

held_in_turn :
    (p : IpPool wide) (a b : ℕ)
    → Represents wide p (a ∷ b ∷ [])
    → HashSet.contains a (b ∷ []) ≡ false
    → (HashSet.contains b (a ∷ []) ≡ false) × Represents wide p (b ∷ a ∷ [])
unfolding HashSet.contains
held_in_turn p a b r free =
    (ground (arith, free, nat_beq_iff a b, nat_beq_iff b a), λ x. ground (arith, r x))

another-RunsFrom : RunsFrom wide default_config around another good [] held_then
unfolding HashSet.contains
another-RunsFrom s ip free r = elim (allocate-Represents wide s.ip_pool (ip ∷ []) r) [
  | inl (other, e, a, k) ↦
      rw e (held_in_turn (IpPool.allocate wide s.ip_pool).0 other ip k a.free.1)
  | inr (e, full) ↦ rw e (refl, r)
]

abbrev pool_empty : Represents wide wide_server.ip_pool []
unfolding IpPool.new
pool_empty = new-Represents wide (text "10.0.0.40/29") (reserve wide 40 41) refl

connect_flow-Represents_example :
    IsBalanced wide default_config around another good [] held_then
      (connect_flow wide default_config around another good wide_server)
connect_flow-Represents_example =
    connect_flow-Represents wide default_config around another good wide_server [] held_then
      another-RunsFrom pool_empty

server_idle :
    (token : Text)
    → session_token around good server.sessions ≡ some token
    → IdleAt token server.sessions
unfolding server session get_session_by_token
server_idle token e s found = go (session.session_token == token) found
  where
    go : (b : Bool) → (if b then some session else none) ≡ some s → IsIdle s
    go true k = record { no_ip = cc; no_peer = cc; no_agent = cc; no_time = cc }
    go false k = absurd (ground arith)

connect_flow-sessions_run :
    (connect_flow small default_config around alone good server).0.sessions ≡ server.sessions
connect_flow-sessions_run =
    connect_flow-sessions small default_config around alone good server (λ x. refl) server_idle

abbrev zeros : ℕ → Bytes
zeros zero = []
zeros (suc n) = 0 ∷ zeros n

abbrev head : Bytes
head = 22 ∷ (zeros 12 ++ 1 ∷ zeros 45)

abbrev hello : Bytes
hello = head ++ 2 ∷ 7 ∷ 8 ∷ []

hello-ClientHello : ClientHello hello (7 ∷ 8 ∷ [])
hello-ClientHello = record {
  head = head;
  rest = [];
  layout = refl;
  head_length = refl;
  content_type = refl;
  handshake_type = refl;
  nonempty = omega arith;
}

abbrev linked : DtlsSessionStore
linked = (7 ∷ 8 ∷ [], unlinked (1 ∷ 2 ∷ 3 ∷ [])) ∷ []

abbrev dtls_server : DtlsServer
dtls_server = record {
  sessions = link_session (some (7 ∷ 8 ∷ [])) around linked;
  active_sessions = [];
  pending_session_ids = [];
}

abbrev yes : Answers
yes = record { try_send = sent; new_engine = some 99; signal_sent = true; packet_sent = true }

nobody : get (4 ∷ []) dtls_server.active_sessions ≡ none
unfolding get
nobody = refl

connect_then_hello_example :
    ((n : ℕ)
      → 3 ≤ n
      → psk_callback (receive around.hex_encode yes (4 ∷ []) hello dtls_server).0 99 n
        ≡ 1 ∷ 2 ∷ 3 ∷ [])
    × ((b : Answers) (next : Bytes)
        → b.try_send ≡ sent
        → receive around.hex_encode b
            (4 ∷ [])
            next
            (receive around.hex_encode yes (4 ∷ []) hello dtls_server).0
          ≡ ((receive around.hex_encode yes (4 ∷ []) hello dtls_server).0, forward 10 next ∷ []))
connect_then_hello_example =
    connect_then_hello default_config around good [] linked good_psk dtls_server yes (4 ∷ []) hello
      99 good_negotiated refl nobody hello-ClientHello refl refl
