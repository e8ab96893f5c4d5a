-- ===== src/Http/ConnectFlow/Laws.antt =====
-- Who gets a tunnel, and what a CONNECT request leaves of the pool and the sessions.
use ocserv_rs.Base.{
  ℕ, ◌≡◌, inl, inr, refl, ap, ◌∙◌, Result, ok, err, Option, none, some, Bool, true, false, not,
  List, ◌∷◌, arith, if◌then◌else◌,
}
use ocserv_rs.Base.Text.{Text, Bytes}
use ocserv_rs.Base.HashSet.{contains, contains-remove}
use ocserv_rs.Base.Eq.{nat_eq}
use ocserv_rs.Base.{nat_beq_iff}
use ocserv_rs.Config.{Config}
use ocserv_rs.Auth.Session.{VpnSession, Sessions, get_session_by_token, unregister_tunnel}
use ocserv_rs.Auth.Session.Laws.{IdleAt, unregister-register_tunnel}
use ocserv_rs.Vpn.IpPool.{IpNetwork, PoolError, allocate}
use ocserv_rs.Vpn.IpPool.Laws.{Represents, allocate-Represents, release-Represents}
use ocserv_rs.Http.Request.{HttpRequest}
use ocserv_rs.Http.RawConnect.{DtlsConfig}
use ocserv_rs.Http.ConnectFlow.{
  Surroundings, ServerState, Outcome, tunnel_ended, negotiate, session_token, webvpn_cookie,
  checked, checked_session, release_ip, start_tunnel, end_tunnel, with_address, allocated,
  authorized, connect_flow,
}

checked-some :
    (sessions : Sessions) (o : Option Text) (token : Text)
    → checked sessions o ≡ some token
    → (o ≡ some token) × ((s : VpnSession) × (get_session_by_token token sessions ≡ some s))
checked-some sessions none token e = absurd (ground arith)
checked-some sessions (some t) token e = go (get_session_by_token t sessions) refl e
  where
    go :
        (o : Option VpnSession)
        → get_session_by_token t sessions ≡ o
        → checked_session t o ≡ some token
        → (some t ≡ some token)
          × ((s : VpnSession) × (get_session_by_token token sessions ≡ some s))
    go none found k = absurd (ground arith)
    go (some s) found k = (k, (s, cc))

module _ (net : IpNetwork) (config : Config) (w : Surroundings)
    (run : ServerState net → ServerState net) (request : HttpRequest) where
  abbrev negotiated : ServerState net → ServerState net
  negotiated s = record s { dtls_sessions = (negotiate config w request s.dtls_sessions).0 }

  authorized_tunnel :
      (o : Option Text) (d : Option DtlsConfig) (s : ServerState net) (response : Bytes)
      → (authorized net config w run request o d s).1 ≡ tunnel_ended response
      → (token : Text) × (o ≡ some token)
  unfolding authorized
  authorized_tunnel none d s response e = absurd (cc)
  authorized_tunnel (some token) d s response e = (token, refl)

  -- A tunnel runs only for a request whose cookie has the token of a session.
  pub tunnel_has_session :
      (s : ServerState net) (response : Bytes)
      → (connect_flow net config w run request s).1 ≡ tunnel_ended response
      → (token : Text) × (webvpn_cookie w request ≡ some token)
        × ((session : VpnSession) × (get_session_by_token token s.sessions ≡ some session))
  unfolding connect_flow session_token
  tunnel_has_session s response e =
      let (token, found) =
        authorized_tunnel (session_token w request s.sessions) _ (negotiated s) response e in
      let (sent, session) = checked-some s.sessions (webvpn_cookie w request) token found in
      (token, sent, session)

  -- What other connections do while a tunnel with an address runs: the pool stands for that address
  -- and those that they hold before, and in the end for it and those that they hold then, which
  -- `after` gives for the state and the address that the tunnel starts with. They may take addresses
  -- and give theirs back, but leave the tunnel's alone.
  abbrev pub RunsFrom : List ℕ → (ServerState net → ℕ → List ℕ) → Type 0
  RunsFrom held after =
      (s : ServerState net) (ip : ℕ)
      → contains ip held ≡ false
      → Represents net s.ip_pool (ip ∷ held)
      → (contains ip (after s ip) ≡ false) × Represents net (run s).ip_pool (ip ∷ after s ip)

  give_back :
      (s : ServerState net) (ip : ℕ) (held : List ℕ)
      → contains ip held ≡ false
      → Represents net s.ip_pool (ip ∷ held)
      → Represents net (release_ip net ip s).ip_pool held
  unfolding release_ip contains
  give_back s ip held free r a = ground (
    arith,
    release-Represents net s.ip_pool (ip ∷ held) ip r a,
    contains-remove ip a (ip ∷ held),
    nat_beq_iff ip a,
    free,
  )

  -- What a connection leaves: if a tunnel ran, the pool stands for what others hold by then, and else
  -- for the addresses held before.
  abbrev pub IsBalanced :
      List ℕ → (ServerState net → ℕ → List ℕ) → ServerState net × Outcome net → Type 0
  IsBalanced held after (s, tunnel_ended response) =
      (t : ServerState net) × (ip : ℕ) × (contains ip held ≡ false)
      × Represents net t.ip_pool (ip ∷ held)
      × Represents net s.ip_pool (after t ip)
  IsBalanced held after (s, other) = Represents net s.ip_pool held

  pick :
      (P : ServerState net × Outcome net → Type 0) (b : Bool) (x y : ServerState net × Outcome net)
      → P x
      → P y
      → P (if b then x else y)
  pick P true x y h k = h
  pick P false x y h k = k

  ended-Represents :
      (token : Text) (ip : ℕ) (s : ServerState net) (held : List ℕ)
      (after : ServerState net → ℕ → List ℕ)
      → RunsFrom held after
      → contains ip held ≡ false
      → Represents net s.ip_pool (ip ∷ held)
      → Represents net (end_tunnel net token ip (run s)).ip_pool (after s ip)
  unfolding end_tunnel release_ip
  ended-Represents token ip s held after h free r =
      let (other, balanced) = h s ip free r in
      give_back (record (run s) { sessions = unregister_tunnel token (run s).sessions }) ip
        (after s ip) other balanced

  with_address-Represents :
      (token : Text) (d : Option DtlsConfig) (ip : ℕ) (s : ServerState net) (held : List ℕ)
      (after : ServerState net → ℕ → List ℕ)
      → RunsFrom held after
      → contains ip held ≡ false
      → Represents net s.ip_pool (ip ∷ held)
      → IsBalanced held after (with_address net config w run request token d ip s)
  unfolding with_address start_tunnel
  with_address-Represents token d ip s held after h free r =
      let back = give_back s ip held free r in
      pick (IsBalanced held after) (not w.written) _ _ back (
        pick (IsBalanced held after) (not w.flushed) _ _ back (
          pick (IsBalanced held after) (not w.tun_made) _ _ back (
            (
              start_tunnel net w request token ip d s,
              ip,
              free,
              r,
              ended-Represents token ip (start_tunnel net w request token ip d s) held after h free
                  r,
            ))))

  authorized-Represents :
      (o : Option Text) (d : Option DtlsConfig) (s : ServerState net) (held : List ℕ)
      (after : ServerState net → ℕ → List ℕ)
      → RunsFrom held after
      → Represents net s.ip_pool held
      → IsBalanced held after (authorized net config w run request o d s)
  unfolding authorized allocated
  authorized-Represents none d s held after h r = r
  authorized-Represents (some token) d s held after h r =
      elim (allocate-Represents net s.ip_pool held r) [
        | inl (ip, e, a, k) ↦ rw e (
            with_address-Represents token d ip (record s { ip_pool = (allocate net s.ip_pool).0 })
              held after h a.free.1 k)
        | inr (e, full) ↦ rw e r
      ]

  -- However a connection with a CONNECT request ends, its address goes back: the pool then stands
  -- for the addresses held before, or, if a tunnel ran with an address that nobody held, for those that
  -- others hold by then, provided that they leave the tunnel's address alone while it runs.
  pub connect_flow-Represents :
      (s : ServerState net) (held : List ℕ) (after : ServerState net → ℕ → List ℕ)
      → RunsFrom held after
      → Represents net s.ip_pool held
      → IsBalanced held after (connect_flow net config w run request s)
  unfolding connect_flow
  connect_flow-Represents s held after h r =
      authorized-Represents (session_token w request s.sessions)
        (negotiate config w request s.dtls_sessions).1 (negotiated s) held after h r

  abbrev KeepsSessions : Sessions → ServerState net × Outcome net → Type 0
  KeepsSessions sessions (s, outcome) = s.sessions ≡ sessions

  ended-sessions :
      (token : Text) (d : Option DtlsConfig) (ip : ℕ) (s : ServerState net)
      → ((x : ServerState net) → (run x).sessions ≡ x.sessions)
      → IdleAt token s.sessions
      → (end_tunnel net token ip (run (start_tunnel net w request token ip d s))).sessions
        ≡ s.sessions
  unfolding end_tunnel start_tunnel release_ip
  ended-sessions token d ip s h idle =
      ap (unregister_tunnel token) (h (start_tunnel net w request token ip d s))
      ∙ unregister-register_tunnel token _ _ w.remote_addr w.now s.sessions idle

  with_address-sessions :
      (token : Text) (d : Option DtlsConfig) (ip : ℕ) (s : ServerState net)
      → ((x : ServerState net) → (run x).sessions ≡ x.sessions)
      → IdleAt token s.sessions
      → KeepsSessions s.sessions (with_address net config w run request token d ip s)
  unfolding with_address release_ip
  with_address-sessions token d ip s h idle =
      pick (KeepsSessions s.sessions) (not w.written) _ _ refl (
        pick (KeepsSessions s.sessions) (not w.flushed) _ _ refl (
          pick (KeepsSessions s.sessions) (not w.tun_made) _ _ refl
            (ended-sessions token d ip s h idle)))

  allocated-sessions :
      (token : Text) (d : Option DtlsConfig) (r : Result PoolError ℕ) (s : ServerState net)
      → ((x : ServerState net) → (run x).sessions ≡ x.sessions)
      → IdleAt token s.sessions
      → KeepsSessions s.sessions (allocated net config w run request token d r s)
  unfolding allocated
  allocated-sessions token d (err e) s h idle = refl
  allocated-sessions token d (ok ip) s h idle = with_address-sessions token d ip s h idle

  authorized-sessions :
      (o : Option Text) (d : Option DtlsConfig) (s : ServerState net)
      → ((x : ServerState net) → (run x).sessions ≡ x.sessions)
      → ((token : Text) → o ≡ some token → IdleAt token s.sessions)
      → KeepsSessions s.sessions (authorized net config w run request o d s)
  unfolding authorized
  authorized-sessions none d s h idle = refl
  authorized-sessions (some token) d s h idle =
      allocated-sessions token d (allocate net s.ip_pool).1
        (record s { ip_pool = (allocate net s.ip_pool).0 }) h (idle token refl)

  -- However a connection with a CONNECT request ends, the sessions are as before it, if its session
  -- had no tunnel and others change no session while its tunnel runs.
  pub connect_flow-sessions :
      (s : ServerState net)
      → ((x : ServerState net) → (run x).sessions ≡ x.sessions)
      → ((token : Text) → session_token w request s.sessions ≡ some token → IdleAt token s.sessions)
      → (connect_flow net config w run request s).0.sessions ≡ s.sessions
  unfolding connect_flow
  connect_flow-sessions s h idle =
      authorized-sessions (session_token w request s.sessions)
        (negotiate config w request s.dtls_sessions).1 (negotiated s) h idle
