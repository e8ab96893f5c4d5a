-- ===== src/Auth/Session/Laws.antt =====
-- What registering and unregistering a tunnel change.
use ocserv_rs.Base.{
  ℕ, ◌≡◌, refl, ap, sym, Option, none, some, [], ◌∷◌, if◌then◌else◌, arith, Bool-cases, inl, inr,
}
use ocserv_rs.Base.Text.{Text}
use ocserv_rs.Base.Eq.{◌==◌, bytes_eq, list_beq_iff}
use ocserv_rs.Auth.Session.{
  SocketAddr, VpnSession, Sessions, get_session_by_token, update_by_token, connect, disconnect,
  register_tunnel, unregister_tunnel,
}

abbrev pub map_some : (VpnSession → VpnSession) → Option VpnSession → Option VpnSession
map_some f none = none
map_some f (some s) = some (f s)

update-by_token :
    (f : VpnSession → VpnSession) (token t : Text) (m : Sessions)
    → ((s : VpnSession) → (f s).session_token ≡ s.session_token)
    → get_session_by_token t (update_by_token f token m)
      ≡ (if token == t then map_some f (get_session_by_token t m) else get_session_by_token t m)
unfolding get_session_by_token update_by_token
update-by_token f token t [] h = ground arith
update-by_token f token t ((k, s) ∷ m) h = ground (
  arith,
  h s,
  list_beq_iff s.session_token token,
  list_beq_iff s.session_token t,
  list_beq_iff (f s).session_token t,
  list_beq_iff token t,
  update-by_token f token t m h,
)

-- A tunnel is registered on the session of its token alone, with the address, peer, agent and time
-- given; sessions found by other tokens are as before.
pub by_token-register_tunnel :
    (token t vpn_ip agent : Text) (peer : SocketAddr) (now : ℕ) (m : Sessions)
    → get_session_by_token t (register_tunnel token vpn_ip peer agent now m) ≡ (
        if token == t
        then map_some (connect vpn_ip peer agent now) (get_session_by_token t m)
        else get_session_by_token t m)
unfolding register_tunnel
by_token-register_tunnel token t vpn_ip agent peer now m =
    update-by_token (connect vpn_ip peer agent now) token t m (λ s. refl)

-- No tunnel: the four fields that tell of one are empty.
pub record IsIdle (s : VpnSession) : Type 0 where
  pub no_ip : s.vpn_ip ≡ none
  pub no_peer : s.remote_ip ≡ none
  pub no_agent : s.user_agent ≡ none
  pub no_time : s.connected_at ≡ none

abbrev pub IdleAt : Text → Sessions → Type 0
IdleAt token m = (s : VpnSession) → get_session_by_token token m ≡ some s → IsIdle s

disconnect_idle : (s : VpnSession) → IsIdle s → disconnect s ≡ s
unfolding disconnect
disconnect_idle s h = λ i. record s {
  vpn_ip = sym h.no_ip i;
  remote_ip = sym h.no_peer i;
  user_agent = sym h.no_agent i;
  connected_at = sym h.no_time i;
}

disconnect-connect :
    (vpn_ip agent : Text) (peer : SocketAddr) (now : ℕ) (s : VpnSession)
    → disconnect (connect vpn_ip peer agent now s) ≡ disconnect s
unfolding disconnect connect
disconnect-connect vpn_ip agent peer now s = refl

-- Unregistering the tunnel that was registered on a session without one restores the sessions.
pub unregister-register_tunnel :
    (token vpn_ip agent : Text) (peer : SocketAddr) (now : ℕ) (m : Sessions)
    → IdleAt token m
    → unregister_tunnel token (register_tunnel token vpn_ip peer agent now m) ≡ m
unfolding unregister_tunnel register_tunnel get_session_by_token
unregister-register_tunnel token vpn_ip agent peer now [] h = refl
unregister-register_tunnel token vpn_ip agent peer now ((k, s) ∷ m) h =
    elim (Bool-cases (s.session_token == token)) [
      | inl same ↦
          rw (same, same) (ap (λ (t : VpnSession). (k, t) ∷ m) (disconnect_idle s (h s (rw same))))
      | inr other ↦
          rw (other, other)
            (ap (◌∷◌ (k, s))
              (unregister-register_tunnel token vpn_ip agent peer now m (λ t e. h t (rw other e))))
    ]
