-- ===== src/Vpn/Tunnel/Tests.antt =====
-- The theorems on both tasks together at concrete packets.
use ocserv_rs.Base.{ℕ, ◌≡◌, refl, true, [], ◌∷◌, List, map, arith, take, drop}
use ocserv_rs.Base.Text.{Bytes}
use ocserv_rs.Vpn.DtlsEngine.Sample.{pass_through}
use ocserv_rs.Vpn.Tunnel.Reader
use ocserv_rs.Vpn.Tunnel.Reader.{waiting, received}
use ocserv_rs.Vpn.Tunnel.Reader.Fragments.{outputs, flatten}
use ocserv_rs.Vpn.Tunnel.Writer.{Network, written, tun_read, start, run}
use ocserv_rs.Vpn.Tunnel.EndToEnd.{tunnel_delivers}

abbrev net : Network
net = record { tls = λ n. written; udp_ok = λ n. true }

abbrev payloads : List Bytes
payloads = (1 ∷ 2 ∷ []) ∷ (3 ∷ []) ∷ []

abbrev sent : Bytes
sent = (run pass_through net (map tun_read payloads) (start pass_through)).0.tls_out

tunnel_delivers_example :
    outputs (Reader.run (λ n. true) Reader.start (map received (sent ∷ [])))
    ≡ (payloads, [], waiting)
unfolding flatten
tunnel_delivers_example =
    tunnel_delivers pass_through net (λ n. refl) (λ n. true) (λ n. refl) payloads (sent ∷ [])
      (omega arith) (ocserv_rs.Base.append-nil _)
