-- ===== src/Vpn/Dtls/Tests.antt =====
-- A DTLS server with one session, its ClientHello and the datagrams that follow.
use ocserv_rs.Base.{ℕ, zero, suc, ◌≤◌, ◌≡◌, ◌↔◌, refl, arith, some, none, true, [], ◌∷◌, ◌++◌}
use ocserv_rs.Base.Text.{Text, Bytes}
use ocserv_rs.Base.Eq.{bytes_eq, list_beq, nat_eq}
use ocserv_rs.Base.HashMap.{get, insert}
use ocserv_rs.Auth.Session.{SocketAddr}
use ocserv_rs.Vpn.Dtls.{
  sent, Answers, DtlsSessionInfo, DtlsServer, new, receive, psk_callback, drop_engine, forward,
}
use ocserv_rs.Vpn.Dtls.Hello.{extract_session_id_from_client_hello}
use ocserv_rs.Vpn.Dtls.Hello.Laws.{ClientHello, extract_iff}
use ocserv_rs.Vpn.Dtls.Laws.{IsOpen, psk_callback-drop_engine, hello_opens, receive_unknown}
use ocserv_rs.Vpn.Dtls.Routes.{
  IsRouted, add_session, link, started, received, added, linked, Reached-IsRouted,
}

-- Digits that stand for themselves, in place of the crate's.
abbrev digits : Bytes → Text
digits bytes = bytes

abbrev zeros : ℕ → Bytes
zeros zero = []
zeros (suc n) = 0 ∷ zeros n

abbrev head : Bytes
head = 22 ∷ (zeros 12 ++ 1 ∷ zeros 45)

abbrev hello : Bytes
hello = head ++ 2 ∷ 7 ∷ 8 ∷ 5 ∷ []

abbrev hello-ClientHello : ClientHello hello (7 ∷ 8 ∷ [])
hello-ClientHello = record {
  head = head;
  rest = 5 ∷ [];
  layout = refl;
  head_length = refl;
  content_type = refl;
  handshake_type = refl;
  nonempty = omega arith;
}

extract_iff_example :
    (extract_session_id_from_client_hello digits hello ≡ some (7 ∷ 8 ∷ []))
    ↔ ((session_id : Bytes) × ClientHello hello session_id × (digits session_id ≡ 7 ∷ 8 ∷ []))
extract_iff_example = extract_iff digits hello (7 ∷ 8 ∷ [])

hello_extracted : extract_session_id_from_client_hello digits hello ≡ some (7 ∷ 8 ∷ [])
unfolding extract_session_id_from_client_hello
hello_extracted = refl

abbrev info : DtlsSessionInfo
info = record { psk = 1 ∷ 2 ∷ 3 ∷ []; tun_tx = some 10; dtls_signal_tx = some 11 }

abbrev server : DtlsServer
server = record {
  sessions = (7 ∷ 8 ∷ [], info) ∷ [];
  active_sessions = [];
  pending_session_ids = [];
}

abbrev yes : Answers
yes = record { try_send = sent; new_engine = some 99; signal_sent = true; packet_sent = true }

server-IsOpen : IsOpen (7 ∷ 8 ∷ []) info 10 11 server
unfolding get list_beq
server-IsOpen = record { stored = refl; has_tun = refl; has_signal = refl }

abbrev peer : SocketAddr
peer = 4 ∷ []

nobody : get peer server.active_sessions ≡ none
unfolding get
nobody = refl

hello_opens_run :
    ((n : ℕ) → 3 ≤ n → psk_callback (receive digits yes peer hello server).0 99 n ≡ 1 ∷ 2 ∷ 3 ∷ [])
    × ((b : Answers) (next : Bytes)
        → b.try_send ≡ sent
        → receive digits b peer next (receive digits yes peer hello server).0
          ≡ ((receive digits yes peer hello server).0, forward 10 next ∷ []))
hello_opens_run =
    hello_opens digits yes peer hello (7 ∷ 8 ∷ []) info 10 11 99 server nobody hello-ClientHello
      server-IsOpen refl refl

dropped_engine : psk_callback (drop_engine 99 server) 99 64 ≡ []
dropped_engine = psk_callback-drop_engine 99 64 server

no_sessions :
    (session_id : Bytes)
    → ClientHello hello session_id
    → get (digits session_id) (new []).sessions ≡ none
unfolding get new
no_sessions session_id h = refl

no_peers : get peer (new []).active_sessions ≡ none
unfolding get new
no_peers = refl

receive_unknown_run : receive digits yes peer hello (new []) ≡ (new [], [])
receive_unknown_run = receive_unknown digits yes peer hello (new []) no_peers no_sessions

nothing_stored : get (7 ∷ 8 ∷ []) (new []).sessions ≡ none
unfolding get new
nothing_stored = refl

abbrev waiting : DtlsServer
waiting = add_session (7 ∷ 8 ∷ []) (1 ∷ []) (new [])

abbrev waiting_info : DtlsSessionInfo
waiting_info = record { psk = 1 ∷ []; tun_tx = none; dtls_signal_tx = none }

waiting_stored : get (7 ∷ 8 ∷ []) waiting.sessions ≡ some waiting_info
unfolding get insert new list_beq
waiting_stored = refl

Reached-IsRouted_example :
    IsRouted (receive digits yes peer hello (link (7 ∷ 8 ∷ []) waiting_info 10 11 waiting)).0
Reached-IsRouted_example = Reached-IsRouted (
    received yes peer hello (
      linked (7 ∷ 8 ∷ []) waiting_info 10 11 waiting_stored refl
        (added (7 ∷ 8 ∷ []) (1 ∷ []) nothing_stored started)))
