-- ===== src/Http/ConnectFlow/Login.antt =====
-- From a login to the tunnel that its cookie opens.
mod Tests
use ocserv_rs.Base.{
  ℕ, ◌≡◌, ◌≢◌, inl, inr, refl, ap, sym, ◌∙◌, Result, ok, err, Option, none, some, Bool, true, false,
  ◌||◌, List, [], ◌∷◌, ◌++◌, All, if◌then◌else◌,
}
use ocserv_rs.Base.Text.{Text, Bytes, text}
use ocserv_rs.Base.Utf8.{is_utf8}
use ocserv_rs.Base.HashSet.{contains}
use ocserv_rs.Base.Eq.{nat_eq, bytes_eq, eq_refl}
use ocserv_rs.Config.{Config}
use ocserv_rs.Auth.User.{UserInfo}
use ocserv_rs.Auth.Session.{
  VpnSession, Sessions, get_session, get_session_by_token, new_session, connect,
}
use ocserv_rs.Auth.Session.Laws.{by_token-register_tunnel}
use ocserv_rs.Vpn.IpPool.{IpNetwork, allocate, is_reserved}
use ocserv_rs.Vpn.IpPool.Laws.{Represents, allocate-Represents}
use ocserv_rs.Http.Request.{HttpRequest, header}
use ocserv_rs.Http.State.{LoginState}
use ocserv_rs.Http.Cookie.{extract_webvpn_token}
use ocserv_rs.Http.Login.{Handlers, log_in}
use ocserv_rs.Http.Login.Cookie.{IsCookieByte, Renders, kept_cookie, login_opens}
use ocserv_rs.Http.RawConnect.{DtlsConfig, display_ip, build_connect_response}
use ocserv_rs.Http.ConnectFlow.{
  Surroundings, ServerState, Outcome, tunnel_ended, or_default, negotiate, session_token,
  webvpn_cookie, start_tunnel, end_tunnel, with_address, allocated, authorized, connect_flow,
}

module _ (net : IpNetwork) (config : Config) (w : Surroundings)
    (run : ServerState net → ServerState net) (request : HttpRequest) where
  -- The surroundings of a tunnel let it start: the response is written and the TUN device made.
  abbrev pub Starts : Type 0
  Starts = (w.written ≡ true) × (w.flushed ≡ true) × (w.tun_made ≡ true)

  -- The session, as it is listed when its tunnel starts.
  abbrev pub session_on : ℕ → VpnSession → VpnSession
  session_on ip =
      connect (display_ip ip) w.remote_addr
        (or_default (header request (text "User-Agent")) (text "Unknown")) w.now

  -- How a request ends whose tunnel runs from the state `t` with an address.
  abbrev pub IsTunnelled :
      Text → VpnSession → List ℕ → Option DtlsConfig → ServerState net × Outcome net → Type 0
  IsTunnelled token x held d result =
      (ip : ℕ) × (contains ip held ≡ false)
      × ((t : ServerState net) × (result
            ≡ (end_tunnel net token ip (run t), tunnel_ended (build_connect_response config d ip)))
          × (get_session_by_token token t.sessions ≡ some (session_on ip x))
          × Represents net t.ip_pool (ip ∷ held))

  webvpn_cookie_found :
      (decode : Text → Option Bytes) (token cookie : Text)
      → header request (text "cookie") ≡ some cookie
      → w.base64_decode ≡ decode
      → extract_webvpn_token decode cookie ≡ some token
      → webvpn_cookie w request ≡ some token
  unfolding webvpn_cookie
  webvpn_cookie_found decode token cookie sent same found = rw (sent, same) found

  session_token_found :
      (sessions : Sessions) (token : Text) (x : VpnSession)
      → webvpn_cookie w request ≡ some token
      → get_session_by_token token sessions ≡ some x
      → session_token w request sessions ≡ some token
  unfolding session_token
  session_token_found sessions token x sent found = rw (sent, found) refl

  with_address_starts :
      (token : Text) (d : Option DtlsConfig) (ip : ℕ) (s : ServerState net)
      → Starts
      → with_address net config w run request token d ip s ≡ (
        end_tunnel net token ip (run (start_tunnel net w request token ip d s)),
        tunnel_ended (build_connect_response config d ip),
      )
  unfolding with_address
  with_address_starts token d ip s (h, k, l) = rw (h, k, l) refl

  -- A request with the token of a session, when an address is free.
  authorized-IsTunnelled :
      (token : Text) (x : VpnSession) (d : Option DtlsConfig) (s : ServerState net) (held : List ℕ)
      → Starts
      → get_session_by_token token s.sessions ≡ some x
      → Represents net s.ip_pool held
      → (All
            (λ a. (is_reserved net s.ip_pool a || contains a held) ≡ true)
            (net.iter s.ip_pool.network)
          → ⊥)
      → IsTunnelled token x held d (authorized net config w run request (some token) d s)
  unfolding authorized allocated start_tunnel
  authorized-IsTunnelled token x d s held h found r room =
      elim (allocate-Represents net s.ip_pool held r) [
        | inl (ip, e, a, k) ↦
            let after = record s { ip_pool = (allocate net s.ip_pool).0 } in
            (
              ip,
              a.free.1,
              (
                start_tunnel net w request token ip d after,
                rw e (with_address_starts token d ip after h),
                by_token-register_tunnel token token (display_ip ip) _ w.remote_addr w.now
                      s.sessions
                    ∙ rw (eq_refl token, found) refl,
                k,
              ),
            )
        | inr (e, full) ↦ absurd (room full)
      ]

  -- A user whom the manager has accepted comes to a tunnel: a CONNECT request that sends back the cookie
  -- of the login's answer runs one, with an address that no other client holds, and when it starts the
  -- user's session is listed with that address, the peer and the agent. Conditions: as for the login's
  -- cookie, the sessions are those that the login has left, the pool has a free address, the response
  -- is written and the TUN device made.
  pub login_then_tunnel :
      (h : Handlers) (info : UserInfo) (m : LoginState) (s : ServerState net) (held : List ℕ)
      → Renders h
      → All IsCookieByte (h.around.crypto.base64_encode h.around.drawn_token)
      → h.around.crypto.base64_decode (h.around.crypto.base64_encode h.around.drawn_token)
        ≡ some h.around.drawn_token
      → w.base64_decode ≡ h.around.crypto.base64_decode
      → is_utf8 h.around.drawn_token ≡ true
      → get_session h.around.drawn_id m.sessions ≡ none
      → get_session_by_token h.around.drawn_token m.sessions ≡ none
      → header request (text "cookie")
        ≡ kept_cookie (text "webvpn") (log_in h (ok info) m).1.headers
      → s.sessions ≡ (log_in h (ok info) m).0.sessions
      → Starts
      → Represents net s.ip_pool held
      → (All
            (λ a. (is_reserved net s.ip_pool a || contains a held) ≡ true)
            (net.iter s.ip_pool.network)
          → ⊥)
      → IsTunnelled h.around.drawn_token
          (new_session h.around.drawn_id h.around.drawn_token h.around.now info none)
          held
          (negotiate config w request s.dtls_sessions).1
          (connect_flow net config w run request s)
  unfolding connect_flow
  login_then_tunnel h info m s held renders clean d same u no_id no_token sent logged starts r
        room =
      let (cookie, kept, opens, found) = login_opens h info m renders clean d u no_id no_token in
      let here = ap (get_session_by_token h.around.drawn_token) logged ∙ found in
      rw
        (session_token_found s.sessions h.around.drawn_token _
          (webvpn_cookie_found _ h.around.drawn_token cookie (sent ∙ kept) same opens) here)
        (authorized-IsTunnelled h.around.drawn_token _ _ _ held starts here r room)
