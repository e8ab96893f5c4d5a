-- ===== src/Http/ConnectFlow/Refusal.antt =====
-- What a CONNECT request without a session leaves behind.
use ocserv_rs.Base.{ℕ, ◌≡◌, refl, ap, sym, subst, ◌∙◌, Option, none, some, [], ◌∷◌}
use ocserv_rs.Base.Text.{Text, text}
use ocserv_rs.Base.Eq.{bytes_eq}
use ocserv_rs.Base.HashMap.{get}
use ocserv_rs.Config.{Config}
use ocserv_rs.Auth.Session.{Sessions, get_session_by_token}
use ocserv_rs.Vpn.IpPool.{IpNetwork}
use ocserv_rs.Vpn.Dtls.{DtlsSessionStore}
use ocserv_rs.Http.Request.{HttpRequest}
use ocserv_rs.Http.Response.{HttpResponse, new, with_body}
use ocserv_rs.Http.RawConnect.{DtlsConfig}
use ocserv_rs.Http.ConnectFlow.{
  Surroundings, ServerState, refused, unauthorized, unlinked, negotiate, session_token,
  webvpn_cookie, checked, authorized, connect_flow,
}
use ocserv_rs.Http.ConnectFlow.Session.{key_for, IsStored, negotiate-IsStored}

-- No session has the token of the request's cookie, if it has one.
abbrev pub LacksSession : Surroundings → HttpRequest → Sessions → Type 0
LacksSession w request sessions =
    (token : Text)
    → webvpn_cookie w request ≡ some token
    → get_session_by_token token sessions ≡ none

checked-none :
    (sessions : Sessions) (o : Option Text)
    → ((token : Text) → o ≡ some token → get_session_by_token token sessions ≡ none)
    → checked sessions o ≡ none
checked-none sessions none h = refl
checked-none sessions (some token) h = rw (h token refl) refl

session_token-none :
    (w : Surroundings) (request : HttpRequest) (sessions : Sessions)
    → LacksSession w request sessions
    → session_token w request sessions ≡ none
unfolding session_token
session_token-none w request sessions h = checked-none sessions (webvpn_cookie w request) h

stored_key :
    (w : Surroundings) (request : HttpRequest) (r : DtlsSessionStore × Option DtlsConfig)
    (dtls : DtlsConfig)
    → r.1 ≡ some dtls
    → IsStored w request r
    → get (w.hex_encode w.random) r.0 ≡ some (unlinked (key_for w request dtls))
stored_key w request (store, none) dtls e h = absurd (cc)
stored_key w request (store, some d) dtls e h = h.1 ∙ ap (λ o. some (unlinked (of_mode o))) e
  where
    of_mode : Option DtlsConfig → ocserv_rs.Base.Text.Bytes
    of_mode none = []
    of_mode (some c) = key_for w request c

module _ (net : IpNetwork) (config : Config) (w : Surroundings)
    (run : ServerState net → ServerState net) (request : HttpRequest) where
  -- A request without the token of a session is answered with the status 401 and leaves the pool and the
  -- sessions as they are. But if it asks for a mode of DTLS that the server comes to, the server keeps
  -- a DTLS session for it, with the key of the mode, under the random bytes drawn.
  pub connect_refused :
      (s : ServerState net)
      → LacksSession w request s.sessions
      → (answer : HttpResponse) × ((connect_flow net config w run request s).1 ≡ refused answer)
        × (answer.status_code ≡ 401)
        × (answer.body ≡ text "Unauthorized")
        × ((connect_flow net config w run request s).0.sessions ≡ s.sessions)
        × ((connect_flow net config w run request s).0.ip_pool ≡ s.ip_pool)
        × ((dtls : DtlsConfig)
            → (negotiate config w request s.dtls_sessions).1 ≡ some dtls
            → get (w.hex_encode w.random) (connect_flow net config w run request s).0.dtls_sessions
              ≡ some (unlinked (key_for w request dtls)))
  unfolding connect_flow authorized unauthorized with_body new
  connect_refused s h = rw (session_token-none w request s.sessions h) (
    unauthorized,
    refl,
    refl,
    refl,
    refl,
    refl,
    λ dtls e.
        stored_key w request (negotiate config w request s.dtls_sessions) dtls e
          (negotiate-IsStored config w request s.dtls_sessions),
  )
