-- ===== src/Vpn/Tunnel/Writer/Tests.antt =====
-- Runs of task 1, and its theorems at concrete packets.
use ocserv_rs.Base.{◌≡◌, ◌⊎◌, refl, true, some, [], ◌∷◌, ◌++◌, List}
use ocserv_rs.Base.Text.{text, is_empty}
use ocserv_rs.Vpn.Cstp.{write_packet, encode, to_u8}
use ocserv_rs.Vpn.DtlsEngine.{DtlsEngine, fresh, feed_decrypted, extract_outgoing, write}
use ocserv_rs.Vpn.DtlsEngine.Sample.{pass_through}
use ocserv_rs.Vpn.Tunnel.Writer.{
  Network, written, Event, control, tun_read, signal, Writer, start, send_packet, run, send_control,
}
use ocserv_rs.Vpn.Tunnel.Writer.Batch.{run-batch}
use ocserv_rs.Vpn.Tunnel.Writer.Laws.{LeftByDtls, LeftByTls, send_packet_once, data_frame}

abbrev net : Network
net = record { tls = λ n. written; udp_ok = λ n. true }

abbrev engine : DtlsEngine pass_through
engine = record { conn = 0; stream = fresh }

abbrev signalled : Writer pass_through
signalled = record {
  tls_batch = [];
  tls_out = [];
  tls_calls = 0;
  udp_out = [];
  udp_calls = 0;
  use_dtls = true;
  dtls_state = some engine;
}

abbrev events : List (Event pass_through)
events = tun_read (text "a") ∷ control (text "m") ∷ signal engine ∷ tun_read (text "b") ∷ []

writer : Unit {0}
unfolding run send_packet send_control is_empty text feed_decrypted extract_outgoing write
    write_packet to_u8 encode
writer = tt

run_both_ways :
    ((run pass_through net events (start pass_through)).0.tls_out
      ≡ encode (data_frame (text "a")) ++ text "m")
    × ((run pass_through net events (start pass_through)).0.udp_out ≡ (0 ∷ text "b") ∷ [])
unfolding writer
run_both_ways = (refl, refl)

run-batch_run : (run pass_through net events (start pass_through)).0.tls_batch ≡ []
unfolding writer
run-batch_run = run-batch pass_through net events (start pass_through) refl refl

send_packet_once_example :
    LeftByDtls pass_through net
      (text "b")
      signalled
      (send_packet pass_through net (text "b") signalled).0
    ⊎ LeftByTls pass_through net
        (text "b")
        signalled
        (send_packet pass_through net (text "b") signalled).0
unfolding writer
send_packet_once_example = send_packet_once pass_through net (text "b") signalled refl refl
