-- ===== src/Vpn/Tunnel/Writer/Laws.antt =====
-- Each packet of the TUN device leaves once, and what leaves by TLS the peer's reader can cut.
use ocserv_rs.Base.{
  ℕ, suc, ◌+◌, ◌<◌, ◌≡◌, ◌≢◌, ◌⊎◌, inl, inr, refl, ap, sym, ◌∙◌, Bool, true, false, List, [], ◌∷◌,
  ◌++◌, arith, if◌then◌else◌, Option, none, some, map, length, All, append_assoc, append-nil,
}
use ocserv_rs.Base.Text.{Bytes}
use ocserv_rs.Vpn.Cstp.{CstpPacket, data_packet, encode, write_packet}
use ocserv_rs.Vpn.Cstp.Laws.{write_packet-eq-encode_into}
use ocserv_rs.Vpn.DtlsEngine.{Ssl, DtlsEngine, feed_decrypted, extract_outgoing}
use ocserv_rs.Vpn.Tunnel.Writer.{
  WriteOutcome, written, write_failed, flush_failed, Network, Writer, record_write, write_tls,
  clear_batch, flush_batch, encrypt, send_udp, send_by_engine, send_dtls, send_tls, send_packet,
}

abbrev pub data_frame : Bytes → CstpPacket
data_frame payload = record { packet_type = data_packet; payload = payload }

pub write_packet-nil :
    (payload : Bytes) → write_packet data_packet payload [] ≡ encode (data_frame payload)
write_packet-nil payload =
    let (same, split) = write_packet-eq-encode_into (data_frame payload) [] in same ∙ split

module _ (ssl : Ssl) (net : Network) where
  -- The engine takes the packet behind DTLS's header, and gives one datagram for it.
  abbrev pub Encrypts : Bytes → DtlsEngine ssl → DtlsEngine ssl → Bytes → Type 0
  Encrypts payload e e' datagram =
      let fed = feed_decrypted ssl e (0 ∷ payload) in
      (fed.1 ≡ true) × (extract_outgoing ssl fed.0 ≡ (e', some datagram))

  -- By DTLS: the datagram that the engine makes of the packet, and nothing on the TLS stream.
  abbrev pub LeftByDtls : Bytes → Writer ssl → Writer ssl → Type 0
  LeftByDtls payload w w' =
      (e : DtlsEngine ssl) × (e' : DtlsEngine ssl) × (datagram : Bytes) × (w.use_dtls ≡ true)
      × (w.dtls_state ≡ some e)
      × Encrypts payload e e' datagram
      × (w'.dtls_state ≡ some e')
      × (w'.udp_out ≡ w.udp_out ++ datagram ∷ [])
      × (w'.tls_out ≡ w.tls_out)

  -- By TLS: the packet's frame on the stream, and no datagram.
  abbrev pub LeftByTls : Bytes → Writer ssl → Writer ssl → Type 0
  LeftByTls payload w w' =
      (w'.udp_out ≡ w.udp_out) × (w'.tls_out ≡ w.tls_out ++ encode (data_frame payload))

  -- What the fast path leaves behind: a datagram, or no trace outside.
  abbrev AfterDtls : Bytes → Writer ssl → Writer ssl × Bool → Type 0
  AfterDtls payload w (w', true) = LeftByDtls payload w w'
  AfterDtls payload w (w', false) =
      (w'.udp_out ≡ w.udp_out) × (w'.tls_out ≡ w.tls_out) × (w'.tls_batch ≡ w.tls_batch)

  encrypt-Encrypts :
      (payload : Bytes) (e e' : DtlsEngine ssl) (datagram : Bytes)
      → encrypt ssl net (0 ∷ payload) e ≡ (e', some datagram)
      → Encrypts payload e e' datagram
  unfolding encrypt
  encrypt-Encrypts payload e e' datagram h = go (feed_decrypted ssl e (0 ∷ payload)).1 refl h
    where
      go :
          (b : Bool)
          → (feed_decrypted ssl e (0 ∷ payload)).1 ≡ b
          → (if b
              then extract_outgoing ssl (feed_decrypted ssl e (0 ∷ payload)).0
              else ((feed_decrypted ssl e (0 ∷ payload)).0, none))
            ≡ (e', some datagram)
          → Encrypts payload e e' datagram
      go true f k = (f, k)
      go false f k = absurd (ground (arith, ap (λ x. x.1) k))

  module _ (payload : Bytes) (w : Writer ssl) where
    send_udp-AfterDtls :
        (e : DtlsEngine ssl) (x : DtlsEngine ssl × Option Bytes)
        → w.use_dtls ≡ true
        → w.dtls_state ≡ some e
        → encrypt ssl net (0 ∷ payload) e ≡ x
        → AfterDtls payload w (send_udp ssl net x w)
    unfolding send_udp
    send_udp-AfterDtls e (e', none) on has made = (refl, refl, refl)
    send_udp-AfterDtls e (e', some d) on has made = go (net.udp_ok w.udp_calls)
      where
        go :
            (b : Bool)
            → AfterDtls payload w (
                if b
                then (
                  record w {
                    dtls_state = some e';
                    udp_out = w.udp_out ++ d ∷ [];
                    udp_calls = w.udp_calls + 1;
                  },
                  true,
                )
                else (record w { dtls_state = some e'; udp_calls = w.udp_calls + 1 }, false))
        go true = (e, e', d, on, has, encrypt-Encrypts payload e e' d made, refl, refl, refl)
        go false = (refl, refl, refl)

    send_by_engine-AfterDtls :
        (o : Option (DtlsEngine ssl))
        → w.use_dtls ≡ true
        → w.dtls_state ≡ o
        → AfterDtls payload w (send_by_engine ssl net o (0 ∷ payload) w)
    unfolding send_by_engine
    send_by_engine-AfterDtls none on has = (refl, refl, refl)
    send_by_engine-AfterDtls (some e) on has = send_udp-AfterDtls e _ on has refl

    send_dtls-AfterDtls : AfterDtls payload w (send_dtls ssl net (0 ∷ payload) w)
    unfolding send_dtls
    send_dtls-AfterDtls = go w.use_dtls refl
      where
        go :
            (b : Bool)
            → w.use_dtls ≡ b
            → AfterDtls payload w
                (if b then send_by_engine ssl net w.dtls_state (0 ∷ payload) w else (w, false))
        go true on = send_by_engine-AfterDtls w.dtls_state on refl
        go false on = (refl, refl, refl)

  record_write_frame :
      (o : WriteOutcome) (payload : Bytes) (w v : Writer ssl)
      → v.udp_out ≡ w.udp_out
      → v.tls_out ≡ w.tls_out
      → (clear_batch ssl net (record_write ssl net o (encode (data_frame payload)) v)).1 ≡ true
      → LeftByTls payload w
          (clear_batch ssl net (record_write ssl net o (encode (data_frame payload)) v)).0
  unfolding clear_batch record_write
  record_write_frame written payload w v u t e = (u, ap (λ b. b ++ encode (data_frame payload)) t)
  record_write_frame write_failed payload w v u t e = cc
  record_write_frame flush_failed payload w v u t e = cc

  send_tls_leaves :
      (payload : Bytes) (w : Writer ssl) (x : Writer ssl × Bool)
      → w.tls_batch ≡ []
      → AfterDtls payload w x
      → (send_tls ssl net payload x).1 ≡ true
      → LeftByDtls payload w (send_tls ssl net payload x).0
        ⊎ LeftByTls payload w (send_tls ssl net payload x).0
  unfolding send_tls flush_batch write_tls
  send_tls_leaves payload w (w', true) h a e = inl a
  send_tls_leaves payload w (w', false) h (u, t, b) e = inr (
      go (write_packet data_packet payload w'.tls_batch)
        (ap (write_packet data_packet payload) (b ∙ h) ∙ write_packet-nil payload) e)
    where
      go :
          (frame : Bytes)
          → frame ≡ encode (data_frame payload)
          → (flush_batch ssl net (record w' { tls_batch = frame })).1 ≡ true
          → LeftByTls payload w (flush_batch ssl net (record w' { tls_batch = frame })).0
      go frame eq =
          ocserv_rs.Base.subst
            (λ f.
              (flush_batch ssl net (record w' { tls_batch = f })).1 ≡ true
              → LeftByTls payload w (flush_batch ssl net (record w' { tls_batch = f })).0)
            (sym eq) (record_write_frame (net.tls w'.tls_calls) payload w _ u t)

  -- A packet that the task goes on after left exactly once: as the one datagram that the engine gives
  -- for the byte 0 and the packet, when DTLS is on, or as its frame on the TLS stream.
  pub send_packet_once :
      (payload : Bytes) (w : Writer ssl)
      → w.tls_batch ≡ []
      → (send_packet ssl net payload w).1 ≡ true
      → LeftByDtls payload w (send_packet ssl net payload w).0
        ⊎ LeftByTls payload w (send_packet ssl net payload w).0
  unfolding send_packet
  send_packet_once payload w h e =
      send_tls_leaves payload w (send_dtls ssl net (0 ∷ payload) w) h
        (send_dtls-AfterDtls payload w) e
