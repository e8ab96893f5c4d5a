-- ===== src/Vpn/Tunnel/Writer.antt =====
-- src/vpn/tunnel.rs, task 1: packets from the TUN device go out by DTLS or TLS, and task 2's
-- messages by TLS. The select is a list of events, in the order in which it takes them.
pub mod Laws
pub mod Batch
mod Tests
use ocserv_rs.Base.{
  ℕ, zero, suc, ◌+◌, Option, none, some, Bool, true, false, List, [], ◌∷◌, ◌++◌, if◌then◌else◌,
}
use ocserv_rs.Base.Text.{Bytes, is_empty}
use ocserv_rs.Vpn.Cstp.{data_packet, write_packet}
use ocserv_rs.Vpn.DtlsEngine.{Ssl, DtlsEngine, feed_decrypted, extract_outgoing}

-- What a write on the TLS stream with its flush comes to.
pub data WriteOutcome : Type 0 where
  written write_failed flush_failed : WriteOutcome

-- The outcomes of the I/O calls, by the number of calls made before.
pub record Network : Type 0 where
  pub tls : ℕ → WriteOutcome
  pub udp_ok : ℕ → Bool

module _ (ssl : Ssl) where
  -- What the select, or the signal monitor, receives.
  pub data Event : Type 0 where
    control : Bytes → Event
    control_closed : Event
    tun_read : Bytes → Event
    tun_closed tun_failed : Event
    signal : DtlsEngine ssl → Event
    signal_closed : Event

  -- The state of the task and what it shares: `tls_out` and `udp_out` are what was sent.
  pub record Writer : Type 0 where
    pub tls_batch : Bytes
    pub tls_out : Bytes
    pub tls_calls : ℕ
    pub udp_out : List Bytes
    pub udp_calls : ℕ
    pub use_dtls : Bool
    pub dtls_state : Option (DtlsEngine ssl)

  abbrev pub start : Writer
  start = record {
    tls_batch = [];
    tls_out = [];
    tls_calls = 0;
    udp_out = [];
    udp_calls = 0;
    use_dtls = false;
    dtls_state = none;
  }

  module _ (net : Network) where
    -- `write_all` and `flush`; `false` when the task breaks off.
    unfoldable pub record_write : WriteOutcome → Bytes → Writer → Writer × Bool
    record_write written bytes w =
        (record w { tls_out = w.tls_out ++ bytes; tls_calls = w.tls_calls + 1 }, true)
    record_write write_failed bytes w = (record w { tls_calls = w.tls_calls + 1 }, false)
    record_write flush_failed bytes w =
        (record w { tls_out = w.tls_out ++ bytes; tls_calls = w.tls_calls + 1 }, false)

    unfoldable pub write_tls : Bytes → Writer → Writer × Bool
    unfolding record_write
    write_tls bytes w = record_write (net.tls w.tls_calls) bytes w

    unfoldable pub clear_batch : Writer × Bool → Writer × Bool
    clear_batch (w, true) = (record w { tls_batch = [] }, true)
    clear_batch (w, false) = (w, false)

    -- The batch goes out and is emptied.
    unfoldable pub flush_batch : Writer → Writer × Bool
    unfolding write_tls clear_batch
    flush_batch w = clear_batch (write_tls w.tls_batch w)

    unfoldable pub then_write : Bytes → Writer × Bool → Writer × Bool
    unfolding write_tls
    then_write msg (w, true) = write_tls msg w
    then_write msg (w, false) = (w, false)

    -- A message from task 2: what is left in the batch goes out first.
    unfoldable pub send_control : Bytes → Writer → Writer × Bool
    unfolding then_write flush_batch
    send_control msg w = then_write msg (if is_empty w.tls_batch then (w, true) else flush_batch w)

    -- The datagram that the engine makes of a packet, if it makes one.
    unfoldable pub encrypt : Bytes → DtlsEngine ssl → DtlsEngine ssl × Option Bytes
    encrypt packet e =
        let (e', fed) = feed_decrypted ssl e packet in
        if fed then extract_outgoing ssl e' else (e', none)

    unfoldable pub send_udp : DtlsEngine ssl × Option Bytes → Writer → Writer × Bool
    send_udp (e, none) w = (record w { dtls_state = some e }, false)
    send_udp (e, some datagram) w =
        if net.udp_ok w.udp_calls
        then (
          record w {
            dtls_state = some e;
            udp_out = w.udp_out ++ datagram ∷ [];
            udp_calls = w.udp_calls + 1;
          },
          true,
        )
        else (record w { dtls_state = some e; udp_calls = w.udp_calls + 1 }, false)

    unfoldable pub send_by_engine : Option (DtlsEngine ssl) → Bytes → Writer → Writer × Bool
    unfolding send_udp encrypt
    send_by_engine none packet w = (w, false)
    send_by_engine (some e) packet w = send_udp (encrypt packet e) w

    -- The fast path; the Boolean is `sent_via_dtls`.
    unfoldable pub send_dtls : Bytes → Writer → Writer × Bool
    unfolding send_by_engine
    send_dtls packet w = if w.use_dtls then send_by_engine w.dtls_state packet w else (w, false)

    -- The fallback when the packet did not leave by DTLS.
    unfoldable pub send_tls : Bytes → Writer × Bool → Writer × Bool
    unfolding flush_batch
    send_tls payload (w, true) = (w, true)
    send_tls payload (w, false) =
        flush_batch (record w { tls_batch = write_packet data_packet payload w.tls_batch })

    -- A packet from the TUN device: the byte 0 before it is DTLS's header.
    unfoldable pub send_packet : Bytes → Writer → Writer × Bool
    unfolding send_tls send_dtls
    send_packet payload w = send_tls payload (send_dtls (0 ∷ payload) w)

    unfoldable pub step : Event → Writer → Writer × Bool
    step (control msg) w = send_control msg w
    step control_closed w = (w, false)
    step (tun_read payload) w = send_packet payload w
    step tun_closed w = (w, false)
    step tun_failed w = (w, false)
    step (signal e) w = (record w { dtls_state = some e; use_dtls = true }, true)
    step signal_closed w = (record w { use_dtls = false }, true)

    unfoldable pub continue : (Writer → Writer × Bool) → Writer × Bool → Writer × Bool
    continue k (w, true) = k w
    continue k (w, false) = (w, false)

    unfoldable pub run : List Event → Writer → Writer × Bool
    unfolding step continue
    run [] w = (w, true)
    run (e ∷ events) w = continue (run events) (step e w)
