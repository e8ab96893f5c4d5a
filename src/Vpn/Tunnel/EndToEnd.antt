-- ===== src/Vpn/Tunnel/EndToEnd.antt =====
-- Task 1 at one end of a TLS stream and task 2 at the other.
use ocserv_rs.Base.{
  ℕ, ◌+◌, ◌<◌, ◌≡◌, refl, ap, sym, ◌∙◌, Bool, true, false, List, [], ◌∷◌, ◌++◌, arith, map, length,
  All, append_assoc, append-nil,
}
use ocserv_rs.Base.Text.{Bytes}
use ocserv_rs.Vpn.Cstp.{encode}
use ocserv_rs.Vpn.DtlsEngine.{Ssl}
use ocserv_rs.Vpn.Tunnel.Reader
use ocserv_rs.Vpn.Tunnel.Reader.{waiting, received}
use ocserv_rs.Vpn.Tunnel.Reader.Fragments.{outputs, flatten}
use ocserv_rs.Vpn.Tunnel.Reader.Delivery.{IsSendable, IsOpen, data_payloads, replies, run-packets}
use ocserv_rs.Vpn.Tunnel.Writer.{
  written, Network, tun_read, Writer, start, record_write, write_tls, clear_batch, flush_batch,
  send_dtls, send_tls, send_packet, step, continue, run,
}
use ocserv_rs.Vpn.Tunnel.Writer.Laws.{data_frame, write_packet-nil}

abbrev pub frames : List Bytes → Bytes
frames payloads = flatten (map encode (map data_frame payloads))

module _ (ssl : Ssl) (net : Network) (up : (n : ℕ) → net.tls n ≡ written) where
  step-tls :
      (payload : Bytes) (w : Writer ssl)
      → w.tls_batch ≡ []
      → w.use_dtls ≡ false
      → step ssl net (tun_read payload) w ≡ (
        record w {
          tls_batch = [];
          tls_out = w.tls_out ++ encode (data_frame payload);
          tls_calls = w.tls_calls + 1;
        },
        true,
      )
  unfolding step send_packet send_dtls send_tls flush_batch write_tls clear_batch record_write
  step-tls payload w h d = ground (arith, up w.tls_calls, write_packet-nil payload)

  run-tls :
      (payloads : List Bytes) (w : Writer ssl)
      → w.tls_batch ≡ []
      → w.use_dtls ≡ false
      → ((run ssl net (map tun_read payloads) w).0.tls_out ≡ w.tls_out ++ frames payloads)
        × ((run ssl net (map tun_read payloads) w).1 ≡ true)
  unfolding run continue flatten
  run-tls [] w h d = (sym (append-nil _), refl)
  run-tls (p ∷ ps) w h d =
      let (out, on) =
        run-tls ps
          (record w {
            tls_batch = [];
            tls_out = w.tls_out ++ encode (data_frame p);
            tls_calls = w.tls_calls + 1;
          })
          refl d in
      rw (step-tls p w h d) (out ∙ append_assoc w.tls_out (encode (data_frame p)) (frames ps), on)

  data_payloads_frames : (ps : List Bytes) → data_payloads (map data_frame ps) ≡ ps
  unfolding data_payloads
  data_payloads_frames [] = refl
  data_payloads_frames (p ∷ ps) = ap (◌∷◌ p) (data_payloads_frames ps)

  replies_frames : (ps : List Bytes) → replies (map data_frame ps) ≡ []
  unfolding replies
  replies_frames [] = refl
  replies_frames (p ∷ ps) = replies_frames ps

  frames-IsSendable :
      (ps : List Bytes) → All (λ p. length p < 65536) ps → All IsSendable (map data_frame ps)
  frames-IsSendable [] h = tt
  frames-IsSendable (p ∷ ps) (h, hs) = ((h, tt), frames-IsSendable ps hs)

  frames-IsOpen : (ps : List Bytes) → All IsOpen (map data_frame ps)
  frames-IsOpen [] = tt
  frames-IsOpen (p ∷ ps) = ((λ e. cc), frames-IsOpen ps)

  -- While DTLS is off, all TLS writes succeed and the receiving TUN device is up, what task 1 reads
  -- from its TUN device comes out of task 2 at the other end in order and unchanged, however the
  -- network cuts the stream.
  pub tunnel_delivers :
      (tun_ok : ℕ → Bool) (tun_up : (n : ℕ) → tun_ok n ≡ true) (payloads cs : List Bytes)
      → All (λ p. length p < 65536) payloads
      → flatten cs ≡ (run ssl net (map tun_read payloads) (start ssl)).0.tls_out
      → outputs (Reader.run tun_ok Reader.start (map received cs)) ≡ (payloads, [], waiting)
  tunnel_delivers tun_ok tun_up payloads cs h e =
      run-packets tun_ok tun_up (map data_frame payloads) cs (frames-IsSendable payloads h)
        (frames-IsOpen payloads) (e ∙ (run-tls payloads (start ssl) refl refl).0)
      ∙ (λ i. (data_payloads_frames payloads i, replies_frames payloads i, waiting))
