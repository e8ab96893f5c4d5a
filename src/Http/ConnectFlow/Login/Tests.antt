-- ===== src/Http/ConnectFlow/Login/Tests.antt =====
-- Alice logs in and connects, on a pool of one free address.
use ocserv_rs.Base.{◌≡◌, refl, arith, none, true, ok, ◌||◌, [], ◌∷◌, ◌++◌, All}
use ocserv_rs.Base.Text.{text, is_space, to_lowercase, starts_with}
use ocserv_rs.Base.Utf8.{is_utf8}
use ocserv_rs.Base.HashSet.{contains}
use ocserv_rs.Base.HashMap.{get}
use ocserv_rs.Base.Eq.{nat_eq, bytes_eq, list_beq}
use ocserv_rs.Config.{default_config}
use ocserv_rs.Auth.User.{plain_user}
use ocserv_rs.Auth.Session.{get_session, get_session_by_token, create_session, new_session}
use ocserv_rs.Auth.Sso.Sample
use ocserv_rs.Vpn.IpPool
use ocserv_rs.Vpn.IpPool.{reserve, is_reserved}
use ocserv_rs.Vpn.IpPool.Laws.{Represents, new-Represents}
use ocserv_rs.Http.Request.{HttpRequest, header}
use ocserv_rs.Http.Response.{with_header, with_body, ok_response}
use ocserv_rs.Http.State.{LoginState}
use ocserv_rs.Http.Login.{Handlers, log_in, create_auth_success_response_for_session}
use ocserv_rs.Http.Login.Cookie.{IsCookieByte, Renders, kept_cookie}
use ocserv_rs.Http.ConnectFlow.{Surroundings, ServerState, negotiate, connect_flow}
use ocserv_rs.Http.ConnectFlow.Sample.{small, around}
use ocserv_rs.Http.ConnectFlow.Login.{IsTunnelled, login_then_tunnel}

abbrev handlers : Handlers
handlers = record {
  auth_manager = record { password_provider = none; sso_provider = none };
  cert_hash = [];
  banner = none;
  parse_xml = λ t. none;
  render = λ t. ok [];
  around = Sample.around;
}

abbrev empty : LoginState
empty = record { sessions = []; hpke_contexts = [] }

abbrev w : Surroundings
w = record around { base64_decode = Sample.around.crypto.base64_decode }

abbrev server : ServerState small
server = record {
  sessions = (log_in handlers (ok (plain_user (97 ∷ []))) empty).0.sessions;
  dtls_sessions = [];
  ip_pool = reserve small 40 41;
}

abbrev connecting : HttpRequest
connecting = record {
  method = text "CONNECT";
  path = text "/CSCOSSLC/tunnel";
  version = 1;
  headers = (text "Cookie", text "webvpn=" ++ 65 ∷ 66 ∷ []) ∷ [];
  body = [];
}

with_cookie :
    header connecting (text "cookie")
    ≡ kept_cookie (text "webvpn") (log_in handlers (ok (plain_user (97 ∷ []))) empty).1.headers
unfolding header text to_lowercase list_beq kept_cookie log_in create_session new_session
    create_auth_success_response_for_session starts_with with_header with_body ok_response
with_cookie = refl

renders : Renders handlers
renders t = ([], refl)

no_id : get_session (49 ∷ []) [] ≡ none
unfolding get_session get
no_id = refl

no_token : get_session_by_token (65 ∷ 66 ∷ []) [] ≡ none
unfolding get_session_by_token
no_token = refl

valid : is_utf8 (65 ∷ 66 ∷ []) ≡ true
unfolding is_utf8
valid = refl

clean : IsCookieByte 65 × IsCookieByte 66
unfolding is_space
clean = ((ground arith, refl), (ground arith, refl))

pool_empty : Represents small (reserve small 40 41) []
unfolding IpPool.new
pool_empty = new-Represents small (text "10.0.0.40/30") (reserve small 40 41) refl

one_free :
    All
      (λ a. (is_reserved small (reserve small 40 41) a || contains a []) ≡ true)
      (small.iter (reserve small 40 41).network)
    → ⊥
unfolding is_reserved contains reserve
one_free h = absurd (ground (arith, h.1.1.0))

login_then_tunnel_example :
    IsTunnelled small default_config w
      (λ s. s)
      connecting
      (65 ∷ 66 ∷ [])
      (new_session (49 ∷ []) (65 ∷ 66 ∷ []) 5 (plain_user (97 ∷ [])) none)
      []
      (negotiate default_config w connecting []).1
      (connect_flow small default_config w (λ s. s) connecting server)
login_then_tunnel_example =
    login_then_tunnel small default_config w (λ s. s) connecting handlers (plain_user (97 ∷ []))
      empty server [] renders (clean.0, (clean.1, tt)) refl refl valid no_id no_token with_cookie
      refl (refl, refl, refl) pool_empty one_free
