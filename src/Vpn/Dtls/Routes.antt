-- ===== src/Vpn/Dtls/Routes.antt =====
-- The active addresses of the DTLS server lead to tunnels of sessions in its store.
use ocserv_rs.Base.{
  ℕ, ◌≡◌, refl, sym, subst, Option, none, some, true, false, [], arith, Bool-cases, inl, inr,
}
use ocserv_rs.Base.Text.{Text, Bytes}
use ocserv_rs.Base.Eq.{◌==◌, bytes_eq, list_beq_iff, nat_eq}
use ocserv_rs.Base.HashMap.{get, insert, get-insert, get-remove}
use ocserv_rs.Auth.Session.{SocketAddr}
use ocserv_rs.Vpn.Dtls.{
  Sender, Sent, sent, refused, Answers, DtlsSessionInfo, DtlsSessionStore, DtlsServer, new,
  remove_active, drop_engine, register, forward_active, hand_over, start_engine, with_channels,
  with_info, new_session, route, receive,
}
use ocserv_rs.Vpn.Dtls.Hello.{extract_session_id_from_client_hello}

-- A session of the store with this channel.
abbrev pub HasTunnel : DtlsSessionStore → Sender → Type 0
HasTunnel sessions tx =
    (sid : Text) × (info : DtlsSessionInfo) × (get sid sessions ≡ some info)
    × (info.tun_tx ≡ some tx)

abbrev pub IsRouted : DtlsServer → Type 0
IsRouted s =
    (addr : SocketAddr) (tx : Sender)
    → get addr s.active_sessions ≡ some tx
    → HasTunnel s.sessions tx

remove_active-IsRouted :
    (addr : SocketAddr) (s : DtlsServer) → IsRouted s → IsRouted (remove_active addr s)
unfolding remove_active
remove_active-IsRouted addr s h other tx e =
    h other tx (ground (arith, get-remove addr other s.active_sessions))

register-IsRouted :
    (ptr : ℕ) (sid : Text) (addr : SocketAddr) (tx : Sender) (s : DtlsServer)
    → HasTunnel s.sessions tx
    → IsRouted s
    → IsRouted (register ptr sid addr tx s)
unfolding register
register-IsRouted ptr sid addr tx s k h other found e = elim (Bool-cases (addr == other)) [
  | inl same ↦
      subst (HasTunnel s.sessions) (ground (arith, get-insert addr other tx s.active_sessions)) k
  | inr distinct ↦ h other found (ground (arith, get-insert addr other tx s.active_sessions))
]

drop_engine-IsRouted : (ptr : ℕ) (s : DtlsServer) → IsRouted s → IsRouted (drop_engine ptr s)
unfolding drop_engine
drop_engine-IsRouted ptr s h = h

module _ (a : Answers) (addr : SocketAddr) (packet : Bytes) where
  forward_active-IsRouted :
      (tx : Sender) (o : Sent) (s : DtlsServer)
      → IsRouted s
      → IsRouted (forward_active tx o addr packet s).0
  unfolding forward_active
  forward_active-IsRouted tx sent s h = h
  forward_active-IsRouted tx (refused true) s h = remove_active-IsRouted addr s h
  forward_active-IsRouted tx (refused false) s h = h

  hand_over-IsRouted :
      (ptr : ℕ) (tun_tx signal_tx : Sender) (s : DtlsServer)
      → IsRouted s
      → IsRouted (hand_over a ptr addr packet tun_tx signal_tx s).0
  unfolding hand_over
  hand_over-IsRouted ptr tun_tx signal_tx s h = elim (Bool-cases a.signal_sent) [
    | inl e ↦ rw e h
    | inr e ↦ rw e (remove_active-IsRouted addr (drop_engine ptr s) (drop_engine-IsRouted ptr s h))
  ]

  start_engine-IsRouted :
      (ptr : Option ℕ) (sid : Text) (tun_tx signal_tx : Sender) (s : DtlsServer)
      → HasTunnel s.sessions tun_tx
      → IsRouted s
      → IsRouted (start_engine a ptr sid addr packet tun_tx signal_tx s).0
  unfolding start_engine
  start_engine-IsRouted none sid tun_tx signal_tx s k h = h
  start_engine-IsRouted (some ptr) sid tun_tx signal_tx s k h =
      hand_over-IsRouted ptr tun_tx signal_tx (register ptr sid addr tun_tx s)
        (register-IsRouted ptr sid addr tun_tx s k h)

  with_channels-IsRouted :
      (tun_tx signal_tx : Option Sender) (sid : Text) (s : DtlsServer)
      → ((tx : Sender) → tun_tx ≡ some tx → HasTunnel s.sessions tx)
      → IsRouted s
      → IsRouted (with_channels a tun_tx signal_tx sid addr packet s).0
  unfolding with_channels
  with_channels-IsRouted (some tun_tx) (some signal_tx) sid s k h =
      start_engine-IsRouted a.new_engine sid tun_tx signal_tx s (k tun_tx refl) h
  with_channels-IsRouted (some tun_tx) none sid s k h = h
  with_channels-IsRouted none signal_tx sid s k h = h

  with_info-IsRouted :
      (info : Option DtlsSessionInfo) (sid : Text) (s : DtlsServer)
      → get sid s.sessions ≡ info
      → IsRouted s
      → IsRouted (with_info a info sid addr packet s).0
  unfolding with_info
  with_info-IsRouted none sid s e h = with_channels-IsRouted none none sid s (λ tx n. absurd (cc)) h
  with_info-IsRouted (some info) sid s e h =
      with_channels-IsRouted info.tun_tx info.dtls_signal_tx sid s (λ tx n. (sid, info, e, n)) h

  new_session-IsRouted :
      (id : Option Text) (s : DtlsServer) → IsRouted s → IsRouted (new_session a id addr packet s).0
  unfolding new_session
  new_session-IsRouted none s h = h
  new_session-IsRouted (some sid) s h = with_info-IsRouted (get sid s.sessions) sid s refl h

  route-IsRouted :
      (hex : Bytes → Text) (tx : Option Sender) (s : DtlsServer)
      → IsRouted s
      → IsRouted (route hex a tx addr packet s).0
  unfolding route
  route-IsRouted hex (some tx) s h = forward_active-IsRouted tx a.try_send s h
  route-IsRouted hex none s h =
      new_session-IsRouted (extract_session_id_from_client_hello hex packet) s h

-- A datagram, whatever it and the answers are, leaves every active address on the channel of a
-- session in the store.
pub receive-IsRouted :
    (hex : Bytes → Text) (a : Answers) (addr : SocketAddr) (packet : Bytes) (s : DtlsServer)
    → IsRouted s
    → IsRouted (receive hex a addr packet s).0
unfolding receive
receive-IsRouted hex a addr packet s h =
    route-IsRouted a addr packet hex (get addr s.active_sessions) s h

-- What the HTTP server does to the store that it shares: a session without channels, and later the
-- channels of the tunnel for it.
abbrev pub add_session : Text → Bytes → DtlsServer → DtlsServer
add_session sid psk s = record s {
  sessions = insert sid (record { psk = psk; tun_tx = none; dtls_signal_tx = none }) s.sessions;
}

abbrev pub link : Text → DtlsSessionInfo → Sender → Sender → DtlsServer → DtlsServer
link sid info tun_tx signal_tx s = record s {
  sessions =
      insert sid (record info { tun_tx = some tun_tx; dtls_signal_tx = some signal_tx }) s.sessions;
}

-- A session without a tunnel may be replaced.
insert-IsRouted :
    (sid : Text) (info : DtlsSessionInfo) (s : DtlsServer)
    → ((old : DtlsSessionInfo) → get sid s.sessions ≡ some old → old.tun_tx ≡ none)
    → IsRouted s
    → IsRouted (record s { sessions = insert sid info s.sessions })
insert-IsRouted sid info s idle h addr tx e =
    let (id, old, found, tun) = h addr tx e in
    elim (Bool-cases (sid == id)) [
      | inl same ↦ absurd (
          ground (
            arith,
            idle old (
                subst (λ t. get t s.sessions ≡ some old) (sym ((list_beq_iff sid id).0 same))
                  found),
            tun,
          ))
      | inr distinct ↦ (id, old, ground (arith, get-insert sid id info s.sessions, found), tun)
    ]

-- The states of a server that starts with an empty store: datagrams arrive, engines are dropped by
-- the tunnels that have them, sessions are added under ids that the store does not have, and a
-- session without a tunnel gets its channels.
pub data Reached (hex : Bytes → Text) : DtlsServer → Type 0 where
  started : Reached hex (new [])
  received :
      {s : DtlsServer} (a : Answers) (addr : SocketAddr) (packet : Bytes)
      → Reached hex s
      → Reached hex (receive hex a addr packet s).0
  dropped : {s : DtlsServer} (ptr : ℕ) → Reached hex s → Reached hex (drop_engine ptr s)
  added :
      {s : DtlsServer} (sid : Text) (psk : Bytes)
      → get sid s.sessions ≡ none
      → Reached hex s
      → Reached hex (add_session sid psk s)
  linked :
      {s : DtlsServer} (sid : Text) (info : DtlsSessionInfo) (tun_tx signal_tx : Sender)
      → get sid s.sessions ≡ some info
      → info.tun_tx ≡ none
      → Reached hex s
      → Reached hex (link sid info tun_tx signal_tx s)

-- In every state that the server reaches while sessions get new ids, an active address's datagrams
-- go to the tunnel of a session in the store.
pub Reached-IsRouted : {hex : Bytes → Text} {s : DtlsServer} → Reached hex s → IsRouted s
unfolding new get
Reached-IsRouted started = λ addr tx e. absurd (cc)
Reached-IsRouted {hex} (received {s} a addr packet r) =
    receive-IsRouted hex a addr packet s (Reached-IsRouted r)
Reached-IsRouted (dropped {s} ptr r) = drop_engine-IsRouted ptr s (Reached-IsRouted r)
Reached-IsRouted (added {s} sid psk fresh r) =
    insert-IsRouted sid _ s (λ old e. ground (arith, fresh, e)) (Reached-IsRouted r)
Reached-IsRouted (linked {s} sid info tun_tx signal_tx found idle r) =
    insert-IsRouted sid _ s (λ old e. cc) (Reached-IsRouted r)
