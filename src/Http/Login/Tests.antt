-- ===== src/Http/Login/Tests.antt =====
-- A login by a form.
use ocserv_rs.Base.{◌≡◌, refl, arith, some, none, true, ok, [], ◌∷◌}
use ocserv_rs.Base.Text.{Text, text, is_space, split}
use ocserv_rs.Base.Utf8.{from_utf8_lossy, is_utf8}
use ocserv_rs.Base.HashMap.{get, insert}
use ocserv_rs.Base.Eq.{bytes_eq, list_beq}
use ocserv_rs.Auth.User.{plain_user}
use ocserv_rs.Auth.Provider.{AuthManager, authenticate}
use ocserv_rs.Auth.Session.{create_session, new_session, get_session, get_session_by_token}
use ocserv_rs.Http.Request.{HttpRequest, parse_form}
use ocserv_rs.Http.State.{LoginState}
use ocserv_rs.Auth.Sso.Sample.{around}
use ocserv_rs.Http.Cookie.{extract_webvpn_token}
use ocserv_rs.Http.Login.{Handlers, log_in, handle_form_auth, handle_xml_auth}
use ocserv_rs.Http.Login.Laws.{user_of, pass_of, IsLogin, handlers-IsLogin}
use ocserv_rs.Http.Login.Cookie.{IsCookieByte, Renders, kept_cookie, login_opens}

abbrev manager : AuthManager
manager = record {
  password_provider = some (record { enabled = true; users = (97 ∷ [], 112 ∷ []) ∷ [] });
  sso_provider = none;
}

abbrev handlers : Handlers
handlers = record {
  auth_manager = manager;
  cert_hash = [];
  banner = none;
  parse_xml = λ t. none;
  render = λ t. ok [];
  around = around;
}

abbrev empty : LoginState
empty = record { sessions = []; hpke_contexts = [] }

abbrev submitted : HttpRequest
submitted = record {
  method = [];
  path = [];
  version = 1;
  headers = [];
  body = text "username=a&password=p";
}

handlers-IsLogin_run :
    IsLogin handlers submitted
      (get (text "username") (parse_form handlers.around.url_decode submitted))
      (get (text "password") (parse_form handlers.around.url_decode submitted))
      empty
      (handle_form_auth handlers submitted empty).0
    × IsLogin handlers submitted
        (user_of (handlers.parse_xml (from_utf8_lossy submitted.body)))
        (pass_of (handlers.parse_xml (from_utf8_lossy submitted.body)))
        empty
        (handle_xml_auth handlers submitted empty).0
handlers-IsLogin_run = handlers-IsLogin handlers submitted empty

logged_in :
    get_session_by_token (65 ∷ 66 ∷ []) (handle_form_auth handlers submitted empty).0.sessions
    ≡ some (new_session (49 ∷ []) (65 ∷ 66 ∷ []) 5 (plain_user (97 ∷ [])) none)
unfolding get_session_by_token handle_form_auth parse_form from_utf8_lossy text list_beq get split
    insert authenticate create_session new_session
logged_in = refl

no_id : get_session (49 ∷ []) [] ≡ none
unfolding get_session get
no_id = refl

no_token : get_session_by_token (65 ∷ 66 ∷ []) [] ≡ none
unfolding get_session_by_token
no_token = refl

valid : is_utf8 (65 ∷ 66 ∷ []) ≡ true
unfolding is_utf8
valid = refl

clean : (IsCookieByte 65) × (IsCookieByte 66)
unfolding is_space
clean = ((ground arith, refl), (ground arith, refl))

renders : Renders handlers
renders t = ([], refl)

login_opens_example :
    (cookie : Text) × (kept_cookie
        (text "webvpn")
        (log_in handlers (ok (plain_user (97 ∷ []))) empty).1.headers
      ≡ some cookie)
    × (extract_webvpn_token handlers.around.crypto.base64_decode cookie ≡ some (65 ∷ 66 ∷ []))
    × (get_session_by_token
          (65 ∷ 66 ∷ [])
          (log_in handlers (ok (plain_user (97 ∷ []))) empty).0.sessions
        ≡ some (new_session (49 ∷ []) (65 ∷ 66 ∷ []) 5 (plain_user (97 ∷ [])) none))
login_opens_example =
    login_opens handlers (plain_user (97 ∷ [])) empty renders (clean.0, (clean.1, tt)) refl valid
      no_id no_token
