-- ===== src/Vpn/Dtls/Laws.antt =====
-- Where datagrams and keys go.
use ocserv_rs.Base.{
  ℕ, ◌≤◌, ◌≡◌, refl, sym, Option, none, some, true, [], ◌∷◌, length, arith, if◌then◌else◌,
}
use ocserv_rs.Base.Text.{Text, Bytes}
use ocserv_rs.Base.Eq.{nat_eq, bytes_eq}
use ocserv_rs.Base.HashMap.{get, get-remove, get-insert_self}
use ocserv_rs.Auth.Session.{SocketAddr}
use ocserv_rs.Vpn.Dtls.{
  Sender, sent, forward, signal, Answers, DtlsSessionInfo, DtlsServer, psk_callback, drop_engine,
  receive, register,
}
use ocserv_rs.Vpn.Dtls.Hello.Laws.{ClientHello, extract-ClientHello, ClientHello_of_extract}
use ocserv_rs.Vpn.Dtls.Hello.{extract_session_id_from_client_hello}

-- A client's session: the store has it under its id, with both channels.
pub record IsOpen (sid : Text) (info : DtlsSessionInfo) (tun_tx signal_tx : Sender) (s : DtlsServer)
    : Type 0 where
  pub stored : get sid s.sessions ≡ some info
  pub has_tun : info.tun_tx ≡ some tun_tx
  pub has_signal : info.dtls_signal_tx ≡ some signal_tx

-- The key callback of an engine that has been registered for a session in the store.
psk_callback-register :
    (ptr : ℕ) (sid : Text) (addr : SocketAddr) (tun_tx : Sender) (info : DtlsSessionInfo)
    (s : DtlsServer) (n : ℕ)
    → get sid s.sessions ≡ some info
    → length info.psk ≤ n
    → psk_callback (register ptr sid addr tun_tx s) ptr n ≡ info.psk
unfolding psk_callback register
psk_callback-register ptr sid addr tun_tx info s n e room =
    rw (get-insert_self ptr sid s.pending_session_ids, e) (ground arith)

-- An engine that has been dropped gets no key.
pub psk_callback-drop_engine :
    (ptr n : ℕ) (s : DtlsServer) → psk_callback (drop_engine ptr s) ptr n ≡ []
unfolding psk_callback drop_engine
psk_callback-drop_engine ptr n s = ground (arith, get-remove ptr ptr s.pending_session_ids)

module _ (hex : Bytes → Text) (a : Answers) (addr : SocketAddr) where
  receive-hello :
      (packet session_id : Bytes) (info : DtlsSessionInfo) (tun_tx signal_tx : Sender) (ptr : ℕ)
      (s : DtlsServer)
      → get addr s.active_sessions ≡ none
      → ClientHello packet session_id
      → IsOpen (hex session_id) info tun_tx signal_tx s
      → a.new_engine ≡ some ptr
      → a.signal_sent ≡ true
      → receive hex a addr packet s ≡ (
        register ptr (hex session_id) addr tun_tx s,
        signal signal_tx ptr addr ∷ (if a.packet_sent then forward tun_tx packet ∷ [] else []),
      )
  unfolding receive
  receive-hello packet sid info tun_tx signal_tx ptr s idle h o e k =
      rw (idle, extract-ClientHello hex packet sid h, o.stored, o.has_tun, o.has_signal, e, k) refl

  receive-register :
      (ptr : ℕ) (sid : Text) (tun_tx : Sender) (s : DtlsServer) (b : Answers) (next : Bytes)
      → b.try_send ≡ sent
      → receive hex b addr next (register ptr sid addr tun_tx s)
        ≡ (register ptr sid addr tun_tx s, forward tun_tx next ∷ [])
  unfolding receive register
  receive-register ptr sid tun_tx s b next t =
      rw (get-insert_self addr tun_tx s.active_sessions, t) refl

  -- A ClientHello from an address without a session, that names an open session and whose engine is
  -- made and taken by the tunnel, opens the way for what follows: the engine's key callback copies
  -- the session's key if there is room for it, and the next datagram from the address goes to the
  -- session's tunnel if its channel takes it.
  pub hello_opens :
      (packet session_id : Bytes) (info : DtlsSessionInfo) (tun_tx signal_tx : Sender) (ptr : ℕ)
      (s : DtlsServer)
      → get addr s.active_sessions ≡ none
      → ClientHello packet session_id
      → IsOpen (hex session_id) info tun_tx signal_tx s
      → a.new_engine ≡ some ptr
      → a.signal_sent ≡ true
      → ((n : ℕ)
          → length info.psk ≤ n
          → psk_callback (receive hex a addr packet s).0 ptr n ≡ info.psk)
        × ((b : Answers) (next : Bytes)
            → b.try_send ≡ sent
            → receive hex b addr next (receive hex a addr packet s).0
              ≡ ((receive hex a addr packet s).0, forward tun_tx next ∷ []))
  hello_opens packet sid info tun_tx signal_tx ptr s idle h o e k =
      let opened = receive-hello packet sid info tun_tx signal_tx ptr s idle h o e k in
      (
        (λ n room.
            rw opened (psk_callback-register ptr (hex sid) addr tun_tx info s n o.stored room)),
        (λ b next t. rw opened (receive-register ptr (hex sid) tun_tx s b next t)),
      )

  -- A datagram from an address without an active session does nothing if it is not a ClientHello
  -- that names a session in the store.
  pub receive_unknown :
      (packet : Bytes) (s : DtlsServer)
      → get addr s.active_sessions ≡ none
      → ((session_id : Bytes)
          → ClientHello packet session_id
          → get (hex session_id) s.sessions ≡ none)
      → receive hex a addr packet s ≡ (s, [])
  unfolding receive
  receive_unknown packet s idle h = go (extract_session_id_from_client_hello hex packet) refl
    where
      go :
          (o : Option Text)
          → extract_session_id_from_client_hello hex packet ≡ o
          → receive hex a addr packet s ≡ (s, [])
      go none e = rw (idle, e) refl
      go (some id) e =
          let (sid, hello, same) = ClientHello_of_extract hex packet id e in
          rw (idle, e, sym same, h sid hello) refl
