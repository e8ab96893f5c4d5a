-- ===== src/Vpn/Tunnel/Reader/Step.antt =====
-- One round of the inner loop, and the loop without its fuel.
use ocserv_rs.Base.{
  ℕ, zero, suc, ◌+◌, ◌≤◌, ◌<◌, ◌≡◌, ◌≢◌, refl, ap, none, some, Bool, true, false, ◌∷◌, ◌++◌, length,
  length-append, length-drop, take-append_le, drop-append_le, arith, Option-cases, inl, inr,
}
use ocserv_rs.Base.Text.{Bytes}
use ocserv_rs.Vpn.Cstp.{PacketType, data_packet, dpd_req, disconnect, keep_alive, body_len}
use ocserv_rs.Vpn.Tunnel.Reader.{
  Reader, waiting, out_of_fuel, split_packet, handle, handle_packet, after, process, deframe,
  extend,
}

-- The length field stands in the first eight bytes.
body_len-append : (b c : Bytes) → 8 ≤ length b → body_len (b ++ c) ≡ body_len b
unfolding body_len
body_len-append (x0 ∷ x1 ∷ x2 ∷ x3 ∷ x4 ∷ x5 ∷ b) c h = refl
body_len-append b c h = absurd (omega arith)

pub split_packet_shorter :
    (b p rest : Bytes) → split_packet b ≡ some (p, rest) → length rest + 8 ≤ length b
unfolding split_packet
split_packet_shorter b p rest e = ground (arith, length-drop (8 + body_len b) b)

pub split_packet-append :
    (b c p rest : Bytes)
    → split_packet b ≡ some (p, rest)
    → split_packet (b ++ c) ≡ some (p, rest ++ c)
unfolding split_packet
split_packet-append b c p rest e = ground (
  arith,
  length-append b c,
  body_len-append b c,
  take-append_le (8 + body_len b) b c,
  drop-append_le (8 + body_len b) b c,
)

module _ (tun_ok : ℕ → Bool) where
  handle-buf :
      (r : Reader) (t : PacketType) (payload : Bytes)
      → (handle tun_ok r t payload).0.tls_in_buf ≡ r.tls_in_buf
  unfolding handle
  handle-buf r data_packet payload = ground arith
  handle-buf r dpd_req payload = refl
  handle-buf r keep_alive payload = refl
  handle-buf r disconnect payload = refl
  handle-buf r _ payload = refl

  handle-extend :
      (r : Reader) (c : Bytes) (t : PacketType) (payload : Bytes)
      → handle tun_ok (extend r c) t payload
        ≡ (extend (handle tun_ok r t payload).0 c, (handle tun_ok r t payload).1)
  unfolding handle
  handle-extend r c data_packet payload = ground arith
  handle-extend r c dpd_req payload = refl
  handle-extend r c keep_alive payload = refl
  handle-extend r c disconnect payload = refl
  handle-extend r c _ payload = refl

  pub handle_packet-buf :
      (r : Reader) (p rest : Bytes) → (handle_packet tun_ok r p rest).0.tls_in_buf ≡ rest
  unfolding handle_packet
  handle_packet-buf r p rest = handle-buf _ _ _

  pub handle_packet-extend :
      (r : Reader) (p rest c : Bytes)
      → handle_packet tun_ok r p (rest ++ c)
        ≡ (extend (handle_packet tun_ok r p rest).0 c, (handle_packet tun_ok r p rest).1)
  unfolding handle_packet
  handle_packet-extend r p rest c = handle-extend _ c _ _

  after_congr :
      (n m : ℕ) (x : Reader × Bool)
      → process tun_ok n x.0 ≡ process tun_ok m x.0
      → after (process tun_ok n) x ≡ after (process tun_ok m) x
  unfolding after
  after_congr n m (r, true) e = e
  after_congr n m (r, false) e = refl

  -- Fuel beyond the length of the buffer changes nothing.
  pub process_fuel :
      (n m : ℕ) (r : Reader)
      → length r.tls_in_buf < n
      → length r.tls_in_buf < m
      → process tun_ok n r ≡ process tun_ok m r
  unfolding process
  process_fuel zero m r h k = absurd (omega arith)
  process_fuel (suc n) zero r h k = absurd (omega arith)
  process_fuel (suc n) (suc m) r h k = elim (Option-cases (split_packet r.tls_in_buf)) [
    | inl e ↦ rw (e, process)
    | inr ((p, rest), e) ↦
        let short = split_packet_shorter r.tls_in_buf p rest e in
        let same = ap length (handle_packet-buf r p rest) in
        rw (e, process)
          (after_congr n m (handle_packet tun_ok r p rest)
            (process_fuel n m (handle_packet tun_ok r p rest).0 (omega arith) (omega arith)))
  ]

  after_out_of_fuel :
      (n : ℕ) (x : Reader × Bool)
      → (process tun_ok n x.0).1 ≢ out_of_fuel
      → (after (process tun_ok n) x).1 ≢ out_of_fuel
  unfolding after
  after_out_of_fuel n (r, true) h = h
  after_out_of_fuel n (r, false) h = λ e. cc

  process_enough :
      (n : ℕ) (r : Reader) → length r.tls_in_buf < n → (process tun_ok n r).1 ≢ out_of_fuel
  unfolding process
  process_enough zero r h = absurd (omega arith)
  process_enough (suc n) r h = elim (Option-cases (split_packet r.tls_in_buf)) [
    | inl e ↦ rw (e, process) (λ x. cc)
    | inr ((p, rest), e) ↦
        let short = split_packet_shorter r.tls_in_buf p rest e in
        let same = ap length (handle_packet-buf r p rest) in
        rw (e, process)
          (after_out_of_fuel n (handle_packet tun_ok r p rest)
            (process_enough n (handle_packet tun_ok r p rest).0 (omega arith)))
  ]

  pub deframe_enough : (r : Reader) → (deframe tun_ok r).1 ≢ out_of_fuel
  unfolding deframe
  deframe_enough r = process_enough _ r (omega arith)

  -- The loop's equations: it waits when no packet is whole, and otherwise goes on after one packet.
  pub deframe-none :
      (r : Reader) → split_packet r.tls_in_buf ≡ none → deframe tun_ok r ≡ (r, waiting)
  unfolding deframe process
  deframe-none r e = rw (e, process)

  pub deframe-some :
      (r : Reader) (p rest : Bytes)
      → split_packet r.tls_in_buf ≡ some (p, rest)
      → deframe tun_ok r ≡ after (deframe tun_ok) (handle_packet tun_ok r p rest)
  unfolding deframe process after
  deframe-some r p rest e =
      let short = split_packet_shorter r.tls_in_buf p rest e in
      let same = ap length (handle_packet-buf r p rest) in
      rw (e, process) (go (handle_packet tun_ok r p rest) (omega arith))
    where
      go :
          (x : Reader × Bool)
          → length x.0.tls_in_buf < length r.tls_in_buf
          → after (process tun_ok (length r.tls_in_buf)) x
            ≡ after (λ s. process tun_ok (suc (length s.tls_in_buf)) s) x
      go (s, true) h =
          process_fuel (length r.tls_in_buf) (suc (length s.tls_in_buf)) s h (omega arith)
      go (s, false) h = refl
