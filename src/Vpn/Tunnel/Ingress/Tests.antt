-- ===== src/Vpn/Tunnel/Ingress/Tests.antt =====
-- Runs of the DTLS branch, and its theorems at concrete datagrams.
use ocserv_rs.Base.{◌≡◌, refl, some, true, [], ◌∷◌}
use ocserv_rs.Base.Text.{Bytes, is_empty}
use ocserv_rs.Vpn.DtlsEngine.{
  DtlsEngine, fresh, feed_encrypted, feed_decrypted, extract_outgoing, write, read_loop,
}
use ocserv_rs.Vpn.DtlsEngine.Sample.{pass_read, pass_through}
use ocserv_rs.Vpn.Tunnel.Ingress.{Ingress, receive}
use ocserv_rs.Vpn.Tunnel.Ingress.Laws.{answers, dtls_payloads, feed_all, receive_packets}

-- One record waits in the engine.
abbrev engine : DtlsEngine pass_through
engine = record { conn = 1; stream = fresh }

abbrev drained : Bytes → DtlsEngine pass_through
drained buf = record { conn = 0; stream = record { incoming = buf; position = 0; outgoing = [] } }

abbrev ingress : Ingress pass_through
ingress = record { dtls_state = some engine; tun = (9 ∷ []) ∷ []; udp_out = [] }

data_payload :
    (receive pass_through (λ n. true) ingress (0 ∷ 5 ∷ [])).0.tun ≡ (9 ∷ []) ∷ (5 ∷ []) ∷ []
unfolding receive feed_encrypted read_loop pass_read is_empty extract_outgoing
data_payload = refl

receive_packets_example : receive pass_through (λ n. true) ingress (3 ∷ []) ≡ (
  record { dtls_state = some (drained (3 ∷ [])); tun = (9 ∷ []) ∷ []; udp_out = (4 ∷ []) ∷ [] },
  true,
)
unfolding receive feed_encrypted read_loop pass_read is_empty extract_outgoing feed_all answers
    feed_decrypted write dtls_payloads
receive_packets_example =
    receive_packets pass_through (λ n. true) (λ n. refl) ingress engine (drained (3 ∷ [])) (3 ∷ [])
      ((3 ∷ []) ∷ []) refl refl
