-- ===== src/Vpn/Tunnel/Writer/Batch.antt =====
-- The batch of task 1 is empty between events: its batching is disabled.
use ocserv_rs.Base.{◌≡◌, refl, ◌∙◌, Bool, true, false, List, [], ◌∷◌, arith, Option, none, some}
use ocserv_rs.Base.Text.{Bytes, is_empty}
use ocserv_rs.Vpn.DtlsEngine.{Ssl, DtlsEngine}
use ocserv_rs.Vpn.Tunnel.Writer.{
  WriteOutcome, written, Network, Event, control, tun_read, signal, signal_closed, Writer,
  record_write, write_tls, clear_batch, flush_batch, then_write, send_control, send_udp,
  send_by_engine, send_dtls, send_tls, send_packet, step, continue, run,
}

module _ (ssl : Ssl) (net : Network) where
  record_write-batch :
      (o : WriteOutcome) (bytes : Bytes) (w : Writer ssl)
      → (record_write ssl net o bytes w).0.tls_batch ≡ w.tls_batch
  unfolding record_write
  record_write-batch written bytes w = refl
  record_write-batch _ bytes w = refl

  write_tls-batch :
      (bytes : Bytes) (w : Writer ssl) → (write_tls ssl net bytes w).0.tls_batch ≡ w.tls_batch
  unfolding write_tls
  write_tls-batch bytes w = record_write-batch _ bytes w

  clear_batch_empty :
      (x : Writer ssl × Bool)
      → (clear_batch ssl net x).1 ≡ true
      → (clear_batch ssl net x).0.tls_batch ≡ []
  unfolding clear_batch
  clear_batch_empty (w, true) e = refl
  clear_batch_empty (w, false) e = cc

  flush_batch_empty :
      (w : Writer ssl) → (flush_batch ssl net w).1 ≡ true → (flush_batch ssl net w).0.tls_batch ≡ []
  unfolding flush_batch
  flush_batch_empty w e = clear_batch_empty _ e

  send_udp-batch :
      (x : DtlsEngine ssl × Option Bytes) (w : Writer ssl)
      → (send_udp ssl net x w).0.tls_batch ≡ w.tls_batch
  unfolding send_udp
  send_udp-batch (e, none) w = refl
  send_udp-batch (e, some d) w = ground arith

  send_by_engine-batch :
      (o : Option (DtlsEngine ssl)) (packet : Bytes) (w : Writer ssl)
      → (send_by_engine ssl net o packet w).0.tls_batch ≡ w.tls_batch
  unfolding send_by_engine
  send_by_engine-batch none packet w = refl
  send_by_engine-batch (some e) packet w = send_udp-batch _ w

  send_dtls-batch :
      (packet : Bytes) (w : Writer ssl) → (send_dtls ssl net packet w).0.tls_batch ≡ w.tls_batch
  unfolding send_dtls
  send_dtls-batch packet w = ground (arith, send_by_engine-batch w.dtls_state packet w)

  send_tls-batch :
      (payload : Bytes) (x : Writer ssl × Bool)
      → x.0.tls_batch ≡ []
      → (send_tls ssl net payload x).1 ≡ true
      → (send_tls ssl net payload x).0.tls_batch ≡ []
  unfolding send_tls
  send_tls-batch payload (w, true) h e = h
  send_tls-batch payload (w, false) h e = flush_batch_empty _ e

  then_write-batch :
      (msg : Bytes) (x : Writer ssl × Bool)
      → x.0.tls_batch ≡ []
      → (then_write ssl net msg x).0.tls_batch ≡ []
  unfolding then_write
  then_write-batch msg (w, true) h = write_tls-batch msg w ∙ h
  then_write-batch msg (w, false) h = h

  send_control-batch :
      (msg : Bytes) (w : Writer ssl)
      → w.tls_batch ≡ []
      → (send_control ssl net msg w).0.tls_batch ≡ []
  unfolding send_control is_empty
  send_control-batch msg w h = simp h (then_write-batch msg (w, true) h)

  step-batch :
      (e : Event ssl) (w : Writer ssl)
      → w.tls_batch ≡ []
      → (step ssl net e w).1 ≡ true
      → (step ssl net e w).0.tls_batch ≡ []
  unfolding step send_packet
  step-batch (control msg) w h e = send_control-batch msg w h
  step-batch (tun_read payload) w h e =
      send_tls-batch payload (send_dtls ssl net (0 ∷ payload) w)
        (send_dtls-batch (0 ∷ payload) w ∙ h) e
  step-batch (signal x) w h e = h
  step-batch signal_closed w h e = h
  step-batch _ w h e = h

  continue-batch :
      (k : Writer ssl → Writer ssl × Bool) (x : Writer ssl × Bool)
      → (x.1 ≡ true → x.0.tls_batch ≡ [])
      → ((w : Writer ssl) → w.tls_batch ≡ [] → (k w).1 ≡ true → (k w).0.tls_batch ≡ [])
      → (continue ssl net k x).1 ≡ true
      → (continue ssl net k x).0.tls_batch ≡ []
  unfolding continue
  continue-batch k (w, true) h f e = f w (h refl) e
  continue-batch k (w, false) h f e = cc

  -- After any events, as long as the task goes on, nothing is left in the batch: the flush before a
  -- control message never has anything to write.
  pub run-batch :
      (events : List (Event ssl)) (w : Writer ssl)
      → w.tls_batch ≡ []
      → (run ssl net events w).1 ≡ true
      → (run ssl net events w).0.tls_batch ≡ []
  unfolding run
  run-batch [] w h e = h
  run-batch (ev ∷ events) w h e =
      continue-batch (run ssl net events) (step ssl net ev w) (step-batch ev w h) (run-batch events)
        e
