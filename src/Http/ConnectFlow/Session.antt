-- ===== src/Http/ConnectFlow/Session.antt =====
-- The sessions around a tunnel, and the DTLS session that a CONNECT request leaves to the DTLS server.
use ocserv_rs.Base.{
  ℕ, ◌≤◌, ◌≡◌, refl, ap, sym, subst, ◌∙◌, Option, none, some, Bool, true, false, [], ◌∷◌, length,
  if◌then◌else◌,
}
use ocserv_rs.Base.Text.{Text, Bytes, text, contains}
use ocserv_rs.Base.Eq.{bytes_eq}
use ocserv_rs.Base.HashMap.{get, get-insert_self}
use ocserv_rs.Config.{Config}
use ocserv_rs.Auth.Session.{SocketAddr}
use ocserv_rs.Vpn.Dtls.{
  DtlsSessionInfo, DtlsSessionStore, DtlsServer, Answers, sent, forward, psk_callback, receive,
}
use ocserv_rs.Vpn.Dtls.Hello.Laws.{ClientHello}
use ocserv_rs.Vpn.Dtls.Laws.{IsOpen, hello_opens}
use ocserv_rs.Http.Request.{HttpRequest, header}
use ocserv_rs.Http.RawConnect.{DtlsConfig, psk, legacy}
use ocserv_rs.Http.ConnectFlow.{
  Surroundings, negotiate, negotiate_psk, negotiate_legacy, negotiate_without_psk, session_id_of,
  link_session, or_default, unlinked,
}

-- The key that a mode stores: the exported one, or the client's master secret.
abbrev pub key_for : Surroundings → HttpRequest → DtlsConfig → Bytes
key_for w request (psk p) = or_default w.exported_psk []
key_for w request (legacy l) =
    or_default (w.hex_decode (or_default (header request (text "X-DTLS-Master-Secret")) [])) []

-- What a negotiation that comes to a mode leaves in the store.
abbrev pub IsStored : Surroundings → HttpRequest → DtlsSessionStore × Option DtlsConfig → Type 0
IsStored w request (store, none) = Unit {0}
IsStored w request (store, some dtls) =
    (session_id_of (some dtls) ≡ some (w.hex_encode w.random))
    × (get (w.hex_encode w.random) store ≡ some (unlinked (key_for w request dtls)))

module _ (config : Config) (w : Surroundings) (request : HttpRequest) where
  pick :
      (b : Bool) (x y : DtlsSessionStore × Option DtlsConfig)
      → IsStored w request x
      → IsStored w request y
      → IsStored w request (if b then x else y)
  pick true x y h k = h
  pick false x y h k = k

  negotiate_psk-IsStored :
      (key : Option Bytes) (store : DtlsSessionStore)
      → w.exported_psk ≡ key
      → IsStored w request (negotiate_psk config (w.hex_encode w.random) key store)
  unfolding negotiate_psk
  negotiate_psk-IsStored none store e = tt
  negotiate_psk-IsStored (some key) store e = (
    refl,
    get-insert_self (w.hex_encode w.random) (unlinked key) store
        ∙ ap (λ k. some (unlinked (or_default k []))) (sym e),
  )

  negotiate_without_psk-IsStored :
      (secret : Option Text) (store : DtlsSessionStore)
      → header request (text "X-DTLS-Master-Secret") ≡ secret
      → IsStored w request (negotiate_without_psk config w secret request store)
  unfolding negotiate_without_psk negotiate_legacy
  negotiate_without_psk-IsStored none store e = tt
  negotiate_without_psk-IsStored (some secret) store e = (
    refl,
    get-insert_self (w.hex_encode w.random) (unlinked (or_default (w.hex_decode secret) [])) store
        ∙ ap (λ h. some (unlinked (or_default (w.hex_decode (or_default h [])) []))) (sym e),
  )

  pub negotiate-IsStored :
      (store : DtlsSessionStore) → IsStored w request (negotiate config w request store)
  unfolding negotiate
  negotiate-IsStored store =
      pick
        (contains (text "PSK-NEGOTIATE")
          (or_default (header request (text "X-DTLS-CipherSuite")) []))
        _ _ (negotiate_psk-IsStored w.exported_psk store refl)
        (negotiate_without_psk-IsStored (header request (text "X-DTLS-Master-Secret")) store refl)

  -- The session that the DTLS server finds after the request.
  abbrev pub linked_info : DtlsConfig → DtlsSessionInfo
  linked_info dtls = record {
    psk = key_for w request dtls;
    tun_tx = some w.dtls_tx;
    dtls_signal_tx = some w.signal_tx;
  }

  link-IsOpen :
      (store : DtlsSessionStore) (dtls : DtlsConfig) (d : DtlsServer)
      → IsStored w request (store, some dtls)
      → d.sessions ≡ link_session (session_id_of (some dtls)) w store
      → IsOpen (w.hex_encode w.random) (linked_info dtls) w.dtls_tx w.signal_tx d
  unfolding link_session
  link-IsOpen store dtls d (id, found) e = record {
    stored = rw (e, id, found) (get-insert_self (w.hex_encode w.random) (linked_info dtls) store);
    has_tun = refl;
    has_signal = refl;
  }

  -- A CONNECT request that comes to a mode of DTLS prepares the DTLS server. When the tunnel's
  -- channels have been linked, and a ClientHello that names the random bytes of the request comes
  -- from an address without a session, its engine is made and the tunnel takes it: the engine's key
  -- callback copies the key of the mode, which is the one exported from the TLS session or the
  -- client's master secret, if there is room for it, and the next datagram from the address goes to
  -- the channel of the tunnel if that takes it.
  pub connect_then_hello :
      (store linked : DtlsSessionStore) (dtls : DtlsConfig) (d : DtlsServer) (a : Answers)
      (addr : SocketAddr) (packet : Bytes) (ptr : ℕ)
      → negotiate config w request store ≡ (linked, some dtls)
      → d.sessions ≡ link_session (session_id_of (some dtls)) w linked
      → get addr d.active_sessions ≡ none
      → ClientHello packet w.random
      → a.new_engine ≡ some ptr
      → a.signal_sent ≡ true
      → ((n : ℕ)
          → length (key_for w request dtls) ≤ n
          → psk_callback (receive w.hex_encode a addr packet d).0 ptr n ≡ key_for w request dtls)
        × ((b : Answers) (next : Bytes)
            → b.try_send ≡ sent
            → receive w.hex_encode b addr next (receive w.hex_encode a addr packet d).0
              ≡ ((receive w.hex_encode a addr packet d).0, forward w.dtls_tx next ∷ []))
  connect_then_hello store linked dtls d a addr packet ptr e l idle h engine taken =
      hello_opens w.hex_encode a addr packet w.random (linked_info dtls) w.dtls_tx w.signal_tx ptr d
        idle h
        (link-IsOpen linked dtls d (subst (IsStored w request) e (negotiate-IsStored store)) l)
        engine taken
