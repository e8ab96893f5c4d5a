-- ===== src/Vpn/Tunnel/Ingress/Laws.antt =====
-- The packets of a datagram against their description, and what reaches the TUN device.
use ocserv_rs.Base.{
  ℕ, ◌≡◌, refl, ap, sym, ◌∙◌, some, Bool, true, ok, err, List, [], ◌∷◌, ◌++◌, length, if◌then◌else◌,
  arith, append_assoc, append-nil,
}
use ocserv_rs.Base.Text.{Bytes, is_empty}
use ocserv_rs.Base.Eq.{◌==◌, nat_eq}
use ocserv_rs.Vpn.DtlsEngine.{
  Ssl, DtlsEngine, EngineError, feed_encrypted, feed_decrypted, extract_outgoing,
}
use ocserv_rs.Vpn.Tunnel.Ingress.{
  Ingress, handle_type, handle_list, handle_decrypted, decrypt, write_tun, deliver, send_outgoing,
  receive, receive_with,
}

-- The payload that a packet holds for the TUN device: what follows the byte 0, if it is not empty.
abbrev pub payload_of : Bytes → List Bytes
payload_of [] = []
payload_of (t ∷ []) = []
payload_of (t ∷ b ∷ body) = if t == 0 then (b ∷ body) ∷ [] else []

unfoldable pub dtls_payloads : List Bytes → List Bytes
dtls_payloads [] = []
dtls_payloads (p ∷ ps) = payload_of p ++ dtls_payloads ps

-- The answer to a packet: 4 to a probe, 7 to a keep-alive.
abbrev pub answer_of : Bytes → List Bytes
answer_of [] = []
answer_of (t ∷ body) = if t == 3 then (4 ∷ []) ∷ [] else if t == 7 then (7 ∷ []) ∷ [] else []

unfoldable pub answers : List Bytes → List Bytes
answers [] = []
answers (p ∷ ps) = answer_of p ++ answers ps

module _ (ssl : Ssl) where
  -- The engine after it was given some packets to encrypt.
  unfoldable pub feed_all : List Bytes → DtlsEngine ssl → DtlsEngine ssl
  feed_all [] e = e
  feed_all (p ∷ ps) e = feed_all ps (feed_decrypted ssl e p).0

  handle_type_lem :
      (t : ℕ) (body : Bytes) (e : DtlsEngine ssl) (out : List Bytes)
      → handle_type ssl t body (e, out)
        ≡ (feed_all (answer_of (t ∷ body)) e, out ++ payload_of (t ∷ body))
  unfolding handle_type feed_all is_empty
  handle_type_lem t [] e out = ground (arith, append-nil out)
  handle_type_lem t (b ∷ body) e out = ground (arith, append-nil out)

  feed_all-append :
      (ps qs : List Bytes) (e : DtlsEngine ssl)
      → feed_all qs (feed_all ps e) ≡ feed_all (ps ++ qs) e
  unfolding feed_all
  feed_all-append [] qs e = refl
  feed_all-append (p ∷ ps) qs e = feed_all-append ps qs (feed_decrypted ssl e p).0

  handle_list_lem :
      (packets : List Bytes) (e : DtlsEngine ssl) (out : List Bytes)
      → handle_list ssl packets (e, out)
        ≡ (feed_all (answers packets) e, out ++ dtls_payloads packets)
  unfolding handle_list answers dtls_payloads feed_all
  handle_list_lem [] e out = λ i. (e, sym (append-nil out) i)
  handle_list_lem ([] ∷ packets) e out = handle_list_lem packets e out
  handle_list_lem ((t ∷ body) ∷ packets) e out =
      ap (handle_list ssl packets) (handle_type_lem t body e out)
      ∙ handle_list_lem packets (feed_all (answer_of (t ∷ body)) e) (out ++ payload_of (t ∷ body))
      ∙ (λ i. (
        feed_all-append (answer_of (t ∷ body)) (answers packets) e i,
        append_assoc out (payload_of (t ∷ body)) (dtls_payloads packets) i,
      ))

  module _ (tun_ok : ℕ → Bool) where
    write_tun_up :
        (up : (n : ℕ) → tun_ok n ≡ true) (packets tun : List Bytes)
        → write_tun ssl tun_ok packets tun ≡ (tun ++ packets, true)
    unfolding write_tun
    write_tun_up up [] tun = λ i. (sym (append-nil tun) i, true)
    write_tun_up up (p ∷ ps) tun =
        rw (up (length tun))
          (write_tun_up up ps (tun ++ p ∷ []) ∙ λ i. (append_assoc tun (p ∷ []) ps i, true))

    -- A datagram that decrypts to some packets, with the TUN device up: the payloads of the data
    -- packets go to the TUN device in order, probes and keep-alives are answered in order, the
    -- engine's output leaves as one datagram if there is any, and the task goes on, also after a
    -- disconnect packet.
    pub receive_packets :
        (up : (n : ℕ) → tun_ok n ≡ true) (i : Ingress ssl) (e e' : DtlsEngine ssl)
        (encrypted : Bytes) (packets : List Bytes)
        → i.dtls_state ≡ some e
        → feed_encrypted ssl e encrypted ≡ (e', ok packets)
        → receive ssl tun_ok i encrypted ≡ (
          record {
            dtls_state = some (extract_outgoing ssl (feed_all (answers packets) e')).0;
            tun = i.tun ++ dtls_payloads packets;
            udp_out =
                send_outgoing ssl tun_ok
                  (extract_outgoing ssl (feed_all (answers packets) e')).1
                  i.udp_out;
          },
          true,
        )
    unfolding receive receive_with decrypt handle_decrypted deliver
    receive_packets up i e e' encrypted packets s d =
        ap (λ o. receive_with ssl tun_ok o i encrypted) s
        ∙ ap (λ x. run_on (handle_decrypted ssl x)) d
        ∙ ap run_on (handle_list_lem packets e' [])
        ∙ ap (deliver ssl tun_ok _ _ _) (write_tun_up up (dtls_payloads packets) i.tun)
      where
        run_on : DtlsEngine ssl × List Bytes → Ingress ssl × Bool
        run_on (f, to_write_tun) =
            deliver ssl tun_ok (extract_outgoing ssl f).0 (extract_outgoing ssl f).1 i.udp_out
              (write_tun ssl tun_ok to_write_tun i.tun)

    -- A datagram that the engine refuses writes nothing to the TUN device, and the task goes on.
    pub receive_refused :
        (i : Ingress ssl) (e e' : DtlsEngine ssl) (encrypted : Bytes) (code : EngineError)
        → i.dtls_state ≡ some e
        → feed_encrypted ssl e encrypted ≡ (e', err code)
        → ((receive ssl tun_ok i encrypted).0.tun ≡ i.tun)
          × ((receive ssl tun_ok i encrypted).1 ≡ true)
    unfolding receive receive_with decrypt handle_decrypted deliver write_tun
    receive_refused i e e' encrypted code s d = ground arith
