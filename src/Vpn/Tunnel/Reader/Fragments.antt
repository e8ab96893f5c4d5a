-- ===== src/Vpn/Tunnel/Reader/Fragments.antt =====
-- The packets that the reader sees do not depend on how the network cuts the stream.
use ocserv_rs.Base.{
  ℕ, zero, suc, ◌<◌, ◌≡◌, refl, ap, sym, ◌∙◌, none, some, Bool, true, false, List, [], ◌∷◌, ◌++◌,
  map, length, append-nil, append_assoc, arith, Option-cases, inl, inr, ◌≢◌, ◌⊎◌,
}
use ocserv_rs.Base.Text.{Bytes}
use ocserv_rs.Vpn.Tunnel.Reader.{
  Reader, Exit, waiting, stopped, out_of_fuel, split_packet, handle_packet, after, deframe, extend,
  resume, run, received,
}
use ocserv_rs.Vpn.Tunnel.Reader.Step.{
  split_packet_shorter, split_packet-append, handle_packet-buf, handle_packet-extend, deframe-none,
  deframe-some, deframe_enough,
}

-- What a run shows to the outside: the writes to TUN, the messages to task 1, and how it stands.
abbrev pub outputs : Reader × Exit → List Bytes × List Bytes × Exit
outputs (r, e) = (r.tun, r.control, e)

unfoldable pub flatten : List Bytes → Bytes
flatten [] = []
flatten (c ∷ cs) = c ++ flatten cs

module _ (tun_ok : ℕ → Bool) where
  -- A pass over a longer buffer: it goes on where the first one waited, and stops where it stopped.
  abbrev Continues : Reader → Bytes → Reader × Exit → Type 0
  Continues r c (s, waiting) =
      (deframe tun_ok (extend r c) ≡ deframe tun_ok (extend s c))
      × (split_packet s.tls_in_buf ≡ none)
  Continues r c (s, stopped) = outputs (deframe tun_ok (extend r c)) ≡ (s.tun, s.control, stopped)
  Continues r c (s, out_of_fuel) = Unit

  Continues-of_eq :
      (r q : Reader) (c : Bytes) (o : Reader × Exit)
      → deframe tun_ok (extend r c) ≡ deframe tun_ok (extend q c)
      → Continues q c o
      → Continues r c o
  Continues-of_eq r q c (s, waiting) e h = (e ∙ h.0, h.1)
  Continues-of_eq r q c (s, stopped) e h = ap outputs e ∙ h
  Continues-of_eq r q c (s, out_of_fuel) e h = h

  deframe-extend-some :
      (r : Reader) (c p rest : Bytes)
      → split_packet r.tls_in_buf ≡ some (p, rest)
      → deframe tun_ok (extend r c)
        ≡ after
            (deframe tun_ok)
            (extend (handle_packet tun_ok r p rest).0 c, (handle_packet tun_ok r p rest).1)
  unfolding handle_packet
  deframe-extend-some r c p rest e =
      deframe-some tun_ok (extend r c) p (rest ++ c) (split_packet-append r.tls_in_buf c p rest e)
      ∙ ap (after (deframe tun_ok)) (handle_packet-extend tun_ok r p rest c)

  continue_after :
      (r : Reader) (c : Bytes) (x : Reader × Bool)
      → deframe tun_ok (extend r c) ≡ after (deframe tun_ok) (extend x.0 c, x.1)
      → Continues x.0 c (deframe tun_ok x.0)
      → Continues r c (after (deframe tun_ok) x)
  unfolding after
  continue_after r c (s, true) e h = Continues-of_eq r s c (deframe tun_ok s) e h
  continue_after r c (s, false) e h = ap outputs e

  deframe-extend_fuel :
      (n : ℕ) (r : Reader) (c : Bytes) → length r.tls_in_buf < n → Continues r c (deframe tun_ok r)
  deframe-extend_fuel zero r c h = absurd (omega arith)
  deframe-extend_fuel (suc n) r c h = elim (Option-cases (split_packet r.tls_in_buf)) [
    | inl e ↦ rw (deframe-none tun_ok r e) (refl, e)
    | inr ((p, rest), e) ↦
        let short = split_packet_shorter r.tls_in_buf p rest e in
        let same = ap length (handle_packet-buf tun_ok r p rest) in
        rw (deframe-some tun_ok r p rest e) (
          continue_after r c (handle_packet tun_ok r p rest) (deframe-extend-some r c p rest e)
            (deframe-extend_fuel n (handle_packet tun_ok r p rest).0 c (omega arith)))
  ]

  deframe-extend : (r : Reader) (c : Bytes) → Continues r c (deframe tun_ok r)
  deframe-extend r c = deframe-extend_fuel (suc (length r.tls_in_buf)) r c (omega arith)

  resume_join :
      (r : Reader) (c : Bytes) (k : Reader → Reader × Exit) (o : Reader × Exit)
      → o.1 ≢ out_of_fuel
      → ((s : Reader)
          → split_packet s.tls_in_buf ≡ none
          → outputs (k s) ≡ outputs (deframe tun_ok (extend s c)))
      → Continues r c o
      → outputs (resume k o) ≡ outputs (deframe tun_ok (extend r c))
  unfolding resume
  resume_join r c k (s, waiting) f h (same, empty) = h s empty ∙ sym (ap outputs same)
  resume_join r c k (s, stopped) f h e = sym e
  resume_join r c k (s, out_of_fuel) f h e = absurd (f refl)

  pub run-received :
      (cs : List Bytes) (r : Reader)
      → split_packet r.tls_in_buf ≡ none
      → outputs (run tun_ok r (map received cs)) ≡ outputs (deframe tun_ok (extend r (flatten cs)))
  unfolding run flatten
  run-received [] r e = rw (append-nil, deframe-none tun_ok r e)
  run-received (c ∷ cs) r e =
      resume_join (extend r c) (flatten cs) (λ s. run tun_ok s (map received cs))
        (deframe tun_ok (extend r c)) (deframe_enough tun_ok (extend r c)) (run-received cs)
        (deframe-extend (extend r c) (flatten cs))
      ∙ ap (λ b. outputs (deframe tun_ok (record r { tls_in_buf = b })))
          (append_assoc r.tls_in_buf c (flatten cs))

  -- From a buffer that holds no whole packet, two ways of cutting one stream into reads lead to the
  -- same writes to TUN, the same messages to task 1 and the same end.
  pub run-fragments :
      (cs ds : List Bytes) (r : Reader)
      → split_packet r.tls_in_buf ≡ none
      → flatten cs ≡ flatten ds
      → outputs (run tun_ok r (map received cs)) ≡ outputs (run tun_ok r (map received ds))
  run-fragments cs ds r e same =
      run-received cs r e
      ∙ ap (λ b. outputs (deframe tun_ok (extend r b))) same
      ∙ sym (run-received ds r e)

  -- A pass over the buffer ends: it waits for more data or returns from the task, and where it waits
  -- no whole packet is left in the buffer.
  pub deframe_ends :
      (r : Reader)
      → ((deframe tun_ok r).1 ≡ waiting) × (split_packet (deframe tun_ok r).0.tls_in_buf ≡ none)
        ⊎ ((deframe tun_ok r).1 ≡ stopped)
  deframe_ends r = go (deframe tun_ok r) (deframe_enough tun_ok r) (deframe-extend r [])
    where
      go :
          (o : Reader × Exit)
          → o.1 ≢ out_of_fuel
          → Continues r [] o
          → (o.1 ≡ waiting) × (split_packet o.0.tls_in_buf ≡ none) ⊎ (o.1 ≡ stopped)
      go (s, waiting) f h = inl (refl, h.1)
      go (s, stopped) f h = inr refl
      go (s, out_of_fuel) f h = absurd (f refl)
