-- ===== src/Vpn/Tunnel/Reader/Delivery.antt =====
-- What a peer that frames its packets by `CstpPacket::encode` gets done by the reader.
use ocserv_rs.Base.{
  Bool-cases, inl, inr, ℕ, ◌+◌, ◌<◌, ◌≡◌, ◌≢◌, refl, ap, sym, ◌∙◌, some, Bool, true, List, [], ◌∷◌,
  ◌++◌, map, length, drop, length-append, append-nil, append_assoc, arith, All, get_or,
  take-length-append, drop-length-append,
}
use ocserv_rs.Base.Text.{is_empty, Bytes}
use ocserv_rs.Vpn.Cstp.{
  PacketType, data_packet, dpd_req, dpd_resp, disconnect, keep_alive, to_u8, body_len, encode,
  CstpPacket,
}
use ocserv_rs.Vpn.Cstp.Laws.{IsCanonical, packet_type_roundtrip, length-encode, body_len-encode}
use ocserv_rs.Vpn.Tunnel.Reader.{
  Reader, waiting, stopped, start, split_packet, handle, handle_packet, after, deframe, run,
  received,
}
use ocserv_rs.Vpn.Tunnel.Reader.Step.{deframe-none, deframe-some}
use ocserv_rs.Vpn.Tunnel.Reader.Fragments.{outputs, flatten, run-received}

-- The payload fits the length field, and the type is the one that its code names.
abbrev pub IsSendable : CstpPacket → Type 0
IsSendable p = (length p.payload < 65536) × IsCanonical p.packet_type

abbrev pub IsOpen : CstpPacket → Type 0
IsOpen p = p.packet_type ≢ disconnect

-- The payloads that belong on the TUN device.
abbrev pub data_of : PacketType → Bytes → List Bytes → List Bytes
data_of data_packet payload rest = payload ∷ rest
data_of _ payload rest = rest

unfoldable pub data_payloads : List CstpPacket → List Bytes
data_payloads [] = []
data_payloads (p ∷ ps) = data_of p.packet_type p.payload (data_payloads ps)

-- The answers: a probe is answered by a response with its payload, a keep-alive by itself.
abbrev pub reply_to : PacketType → Bytes → List Bytes → List Bytes
reply_to dpd_req payload rest = encode (record { packet_type = dpd_resp; payload = payload }) ∷ rest
reply_to keep_alive payload rest =
    encode (record { packet_type = keep_alive; payload = payload }) ∷ rest
reply_to _ payload rest = rest

unfoldable pub replies : List CstpPacket → List Bytes
replies [] = []
replies (p ∷ ps) = reply_to p.packet_type p.payload (replies ps)

encoded_type : (p : CstpPacket) → get_or (encode p) 6 0 ≡ to_u8 p.packet_type
unfolding encode
encoded_type p = refl

encoded_payload : (p : CstpPacket) → drop 8 (encode p) ≡ p.payload
unfolding encode
encoded_payload p = refl

split_packet-encode :
    (p : CstpPacket) (rest : Bytes)
    → length p.payload < 65536
    → split_packet (encode p ++ rest) ≡ some (encode p, rest)
unfolding split_packet
split_packet-encode p rest h =
    let total : 8 + body_len (encode p ++ rest) ≡ length (encode p) =
      omega (arith, body_len-encode p rest, length-encode p) in
    rw total (
      rw (take-length-append (encode p) rest, drop-length-append (encode p) rest)
        (ground (arith, length-append (encode p) rest, length-encode p)))

module _ (tun_ok : ℕ → Bool) (up : (n : ℕ) → tun_ok n ≡ true) where
  handle_open :
      (t : PacketType) (payload : Bytes) (r : Reader)
      → t ≢ disconnect
      → handle tun_ok r t payload ≡ (
        record r {
          tun = r.tun ++ data_of t payload [];
          control = r.control ++ reply_to t payload [];
        },
        true,
      )
  unfolding handle
  handle_open data_packet payload r h = elim (Bool-cases (is_empty payload)) [
    | inl e ↦ rw (e, append-nil)
    | inr e ↦ rw (e, up (length r.tun), append-nil)
  ]
  handle_open dpd_req payload r h = rw append-nil
  handle_open keep_alive payload r h = rw append-nil
  handle_open disconnect payload r h = absurd (h refl)
  handle_open _ payload r h = simp append-nil

  data_of-append :
      (t : PacketType) (payload : Bytes) (rest : List Bytes)
      → data_of t payload [] ++ rest ≡ data_of t payload rest
  data_of-append data_packet payload rest = refl
  data_of-append _ payload rest = refl

  reply_to-append :
      (t : PacketType) (payload : Bytes) (rest : List Bytes)
      → reply_to t payload [] ++ rest ≡ reply_to t payload rest
  reply_to-append dpd_req payload rest = refl
  reply_to-append _ payload rest = refl

  handle_packet-encode :
      (p : CstpPacket) (r : Reader) (rest : Bytes)
      → IsSendable p
      → handle_packet tun_ok r (encode p) rest
        ≡ handle tun_ok (record r { tls_in_buf = rest }) p.packet_type p.payload
  unfolding handle_packet
  handle_packet-encode p r rest h =
      rw (encoded_type p, encoded_payload p, (packet_type_roundtrip 0 p.packet_type).1.1 h.1)

  deframe-packets :
      (ps : List CstpPacket) (r : Reader) (rest : Bytes)
      → All IsSendable ps
      → All IsOpen ps
      → deframe tun_ok (record r { tls_in_buf = flatten (map encode ps) ++ rest })
        ≡ deframe tun_ok (record {
          tls_in_buf = rest;
          tun = r.tun ++ data_payloads ps;
          control = r.control ++ replies ps;
        })
  unfolding flatten data_payloads replies after
  deframe-packets [] r rest h k = rw (append-nil r.tun, append-nil r.control)
  deframe-packets (p ∷ ps) r rest (h, hs) (k, ks) =
      rw (append_assoc (encode p) (flatten (map encode ps)) rest) (
        deframe-some tun_ok _ (encode p) (flatten (map encode ps) ++ rest)
          (split_packet-encode p _ h.0)
        ∙ ap (after (deframe tun_ok)) (
            handle_packet-encode p
              (record r { tls_in_buf = encode p ++ (flatten (map encode ps) ++ rest) }) _ h
            ∙ handle_open p.packet_type p.payload _ k)
        ∙ deframe-packets ps
            (record {
              tls_in_buf = [];
              tun = r.tun ++ data_of p.packet_type p.payload [];
              control = r.control ++ reply_to p.packet_type p.payload [];
            })
            rest hs ks
        ∙ (simp (append_assoc, data_of-append, reply_to-append)))

  -- With the TUN device up, packets that a peer encodes and the network cuts in any way come out
  -- whole and in order: the data payloads on the TUN device, an answer on the control channel for
  -- each probe and keep-alive, and the reader waits for more.
  pub run-packets :
      (ps : List CstpPacket) (cs : List Bytes)
      → All IsSendable ps
      → All IsOpen ps
      → flatten cs ≡ flatten (map encode ps)
      → outputs (run tun_ok start (map received cs)) ≡ (data_payloads ps, replies ps, waiting)
  unfolding split_packet
  run-packets ps cs h k e =
      run-received tun_ok cs start refl
      ∙ ap (λ b. outputs (deframe tun_ok (record start { tls_in_buf = b })))
          (e ∙ sym (append-nil _))
      ∙ ap outputs (deframe-packets ps start [] h k ∙ deframe-none tun_ok _ refl)

  -- A Disconnect ends the task: the packets before it are served and nothing behind it is.
  pub run-disconnect :
      (ps : List CstpPacket) (bye : CstpPacket) (cs : List Bytes) (behind : Bytes)
      → All IsSendable ps
      → All IsOpen ps
      → length bye.payload < 65536
      → bye.packet_type ≡ disconnect
      → flatten cs ≡ flatten (map encode ps) ++ (encode bye ++ behind)
      → outputs (run tun_ok start (map received cs)) ≡ (data_payloads ps, replies ps, stopped)
  unfolding split_packet handle after
  run-disconnect ps bye cs behind h k fits leaves e =
      run-received tun_ok cs start refl
      ∙ ap (λ b. outputs (deframe tun_ok (record start { tls_in_buf = b }))) e
      ∙ ap outputs (
          deframe-packets ps start (encode bye ++ behind) h k
          ∙ deframe-some tun_ok _ (encode bye) behind (split_packet-encode bye behind fits)
          ∙ ap (after (deframe tun_ok)) (
              handle_packet-encode bye
                (record {
                  tls_in_buf = encode bye ++ behind;
                  tun = data_payloads ps;
                  control = replies ps;
                })
                behind (fits, rw leaves tt)
              ∙ ap
                  (λ t.
                    handle tun_ok
                      (record { tls_in_buf = behind; tun = data_payloads ps; control = replies ps })
                      t bye.payload)
                  leaves))
