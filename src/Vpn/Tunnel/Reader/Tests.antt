-- ===== src/Vpn/Tunnel/Reader/Tests.antt =====
-- Runs of the TLS reader, and its theorems at concrete streams.
use ocserv_rs.Base.{
  ℕ, ◌≡◌, ◌⊎◌, refl, none, true, [], ◌∷◌, ◌++◌, List, map, arith, length, take, drop,
}
use ocserv_rs.Base.Text.{is_empty, Bytes, text}
use ocserv_rs.Vpn.Cstp.{
  data_packet, dpd_req, dpd_resp, disconnect, keep_alive, encode, CstpPacket, to_u8, from_u8,
  body_len,
}
use ocserv_rs.Vpn.Tunnel.Reader.{
  start, waiting, stopped, run, deframe, received, split_packet, process, handle_packet, handle,
  after, resume, extend,
}
use ocserv_rs.Vpn.Tunnel.Reader.Fragments.{outputs, flatten, run-fragments, deframe_ends}
use ocserv_rs.Vpn.Tunnel.Reader.Delivery.{data_payloads, replies, run-packets, run-disconnect}

abbrev packets : List CstpPacket
packets =
    record { packet_type = data_packet; payload = text "ab" }
    ∷ record { packet_type = dpd_req; payload = text "?" }
    ∷ record { packet_type = keep_alive; payload = [] }
    ∷ []

abbrev bye : CstpPacket
bye = record { packet_type = disconnect; payload = [] }

abbrev up : ℕ → ocserv_rs.Base.Bool
up _ = true

abbrev stream : Bytes
stream = flatten (map encode packets)

reader : Unit {0}
unfolding run deframe process split_packet handle_packet handle after resume flatten encode to_u8
    from_u8 text body_len data_payloads replies
reader = tt

-- The stream in two reads, the first of which ends inside a header.
run_split : outputs (run up start (received (take 13 stream) ∷ received (drop 13 stream) ∷ [])) ≡ (
  text "ab" ∷ [],
  encode (record { packet_type = dpd_resp; payload = text "?" })
      ∷ encode (record { packet_type = keep_alive; payload = [] })
      ∷ [],
  waiting,
)
unfolding reader is_empty
run_split = refl

run-fragments_example :
    outputs (run up start (map received (stream ∷ [])))
    ≡ outputs (run up start (map received (take 13 stream ∷ drop 13 stream ∷ [])))
unfolding reader
run-fragments_example =
    run-fragments up (stream ∷ []) (take 13 stream ∷ drop 13 stream ∷ []) start refl refl

deframe_ends_run :
    ((deframe up (extend start stream)).1 ≡ waiting)
      × (split_packet (deframe up (extend start stream)).0.tls_in_buf ≡ none)
    ⊎ ((deframe up (extend start stream)).1 ≡ stopped)
deframe_ends_run = deframe_ends up (extend start stream)

run-packets_example :
    outputs (run up start (map received (stream ∷ [])))
    ≡ (data_payloads packets, replies packets, waiting)
unfolding reader
run-packets_example =
    run-packets up (λ n. refl) packets (stream ∷ []) (omega arith)
      ((λ e. cc), ((λ e. cc), ((λ e. cc), tt))) refl

run-disconnect_run :
    outputs (run up start (map received ((stream ++ (encode bye ++ stream)) ∷ [])))
    ≡ (data_payloads packets, replies packets, stopped)
unfolding reader
run-disconnect_run =
    run-disconnect up (λ n. refl) packets bye ((stream ++ (encode bye ++ stream)) ∷ []) stream
      (omega arith) ((λ e. cc), ((λ e. cc), ((λ e. cc), tt))) (omega arith) refl refl
