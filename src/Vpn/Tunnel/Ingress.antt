-- ===== src/Vpn/Tunnel/Ingress.antt =====
-- src/vpn/tunnel.rs, task 2, DTLS branch: an encrypted datagram is decrypted, its packets go to the
-- TUN device or are answered, and what the engine has to send leaves by UDP.
pub mod Laws
mod Tests
use ocserv_rs.Base.{
  ℕ, zero, suc, Option, none, some, Bool, true, false, Result, ok, err, List, [], ◌∷◌, ◌++◌, length,
  if◌then◌else◌,
}
use ocserv_rs.Base.Text.{Bytes, is_empty}
use ocserv_rs.Base.Eq.{◌==◌, nat_eq}
use ocserv_rs.Vpn.DtlsEngine.{
  Ssl, DtlsEngine, EngineError, feed_encrypted, feed_decrypted, extract_outgoing,
}

module _ (ssl : Ssl) where
  -- `dtls_state`, the payloads written to TUN and the datagrams sent, in order.
  pub record Ingress : Type 0 where
    pub dtls_state : Option (DtlsEngine ssl)
    pub tun : List Bytes
    pub udp_out : List Bytes

  -- The match on the first byte of a packet that is not empty; `to_write_tun` grows at its end.
  unfoldable pub handle_type : ℕ → Bytes → DtlsEngine ssl × List Bytes → DtlsEngine ssl × List Bytes
  handle_type pkt_type body (e, to_write_tun) =
      if pkt_type == 0
      then (e, if is_empty body then to_write_tun else to_write_tun ++ body ∷ [])
      else if pkt_type == 3
      then ((feed_decrypted ssl e (4 ∷ [])).0, to_write_tun)
      else if pkt_type == 7
      then ((feed_decrypted ssl e (7 ∷ [])).0, to_write_tun)
      else (e, to_write_tun)

  unfoldable pub handle_list :
      List Bytes → DtlsEngine ssl × List Bytes → DtlsEngine ssl × List Bytes
  unfolding handle_type
  handle_list [] x = x
  handle_list ([] ∷ packets) x = handle_list packets x
  handle_list ((pkt_type ∷ body) ∷ packets) x = handle_list packets (handle_type pkt_type body x)

  unfoldable pub handle_decrypted :
      DtlsEngine ssl × Result EngineError (List Bytes) → DtlsEngine ssl × List Bytes
  unfolding handle_list
  handle_decrypted (e, ok packets) = handle_list packets (e, [])
  handle_decrypted (e, err _) = (e, [])

  -- The part under the lock: the engine, `to_write_tun` and `to_send_socket`.
  unfoldable pub decrypt : DtlsEngine ssl → Bytes → DtlsEngine ssl × List Bytes × Option Bytes
  unfolding handle_decrypted
  decrypt e encrypted =
      let (e', to_write_tun) = handle_decrypted (feed_encrypted ssl e encrypted) in
      let (e'', outgoing) = extract_outgoing ssl e' in (e'', to_write_tun, outgoing)

  module _ (tun_ok : ℕ → Bool) where
    -- The writes to TUN; `false` when one failed and the task returns.
    unfoldable pub write_tun : List Bytes → List Bytes → List Bytes × Bool
    write_tun [] tun = (tun, true)
    write_tun (packet ∷ packets) tun =
        let rest = write_tun packets (tun ++ packet ∷ []) in
        if tun_ok (length tun) then rest else (tun, false)

    unfoldable pub send_outgoing : Option Bytes → List Bytes → List Bytes
    send_outgoing none udp_out = udp_out
    send_outgoing (some datagram) udp_out = udp_out ++ datagram ∷ []

    unfoldable pub deliver :
        DtlsEngine ssl → Option Bytes → List Bytes → List Bytes × Bool → Ingress × Bool
    unfolding send_outgoing
    deliver e outgoing udp_out (tun, true) =
        (record { dtls_state = some e; tun = tun; udp_out = send_outgoing outgoing udp_out }, true)
    deliver e outgoing udp_out (tun, false) =
        (record { dtls_state = some e; tun = tun; udp_out = udp_out }, false)

    unfoldable pub receive_with : Option (DtlsEngine ssl) → Ingress → Bytes → Ingress × Bool
    unfolding decrypt write_tun deliver
    receive_with none i encrypted = (i, true)
    receive_with (some e) i encrypted =
        let (e', to_write_tun, outgoing) = decrypt e encrypted in
        deliver e' outgoing i.udp_out (write_tun to_write_tun i.tun)

    -- `Some(encrypted)` from the DTLS server.
    unfoldable pub receive : Ingress → Bytes → Ingress × Bool
    unfolding receive_with
    receive i encrypted = receive_with i.dtls_state i encrypted
