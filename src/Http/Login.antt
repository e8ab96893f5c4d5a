-- ===== src/Http/Login.antt =====
-- src/http/handlers/auth.rs: the handlers of the login. Templates and the XML parser are parameters,
-- like what is drawn for a session.
pub mod Laws
pub mod Cookie
mod Tests
use ocserv_rs.Base.{
  ℕ, ◌-◌, Option, none, some, Bool, true, false, ◌&&◌, Result, ok, err, List, [], ◌∷◌, ◌++◌, map,
  get_elem?, if◌then◌else◌, leb,
}
use ocserv_rs.Base.Text.{Text, Bytes, text, to_lowercase, split_whitespace, find_from}
use ocserv_rs.Base.Utf8.{from_utf8_lossy}
use ocserv_rs.Base.Eq.{◌==◌, nat_eq, bytes_eq}
use ocserv_rs.Base.HashMap.{HashMap, get}
use ocserv_rs.Crypto.Hpke
use ocserv_rs.Crypto.Hpke.{HpkeContext, set_client_dh_pubkey}
use ocserv_rs.Auth.Sso.{login_url, final_url}
use ocserv_rs.Auth.Sso.Shared.{Surroundings}
use ocserv_rs.Http.State.{LoginState, store_hpke_context}
use ocserv_rs.Protocol.Dtd.{ConfigAuth, ConfigAuthType, Auth, init}
use ocserv_rs.Auth.User.{UserInfo, AuthError}
use ocserv_rs.Auth.Provider.{AuthManager, SsoProvider, sso_enabled, password, authenticate}
use ocserv_rs.Auth.Session.{VpnSession, Sessions, create_session, get_session_by_token}
use ocserv_rs.Http.Request.{HttpRequest, header, parse_form}
use ocserv_rs.Http.Response.{HttpResponse, new, ok_response, with_header, with_body}
use ocserv_rs.Http.Cookie.{extract_webvpn_token}

-- The templates that are rendered, with their contexts.
pub data Template : Type 0 where
  auth_complete : Text → Template
  auth_complete_for : Text → Text → Text → Text → Template
  auth_request_password : Text → Option Text → Template
  auth_request_sso : Text → Text → Option Text → Text → Text → Template

-- What the handlers read of the server's state, and what they take from their surroundings.
pub record Handlers : Type 0 where
  pub auth_manager : AuthManager
  pub cert_hash : Text
  pub banner : Option Text
  pub parse_xml : Text → Option ConfigAuth
  pub render : Template → Result Text Text
  pub around : Surroundings

abbrev pub or_text : Option Text → Text → Text
or_text none d = d
or_text (some t) d = t

-- ASCII letters only, which the hash consists of.
unfoldable pub to_uppercase : Text → Text
to_uppercase s = map (λ c. if leb b'a' c && leb c b'z' then c - 32 else c) s

abbrev template_error : Text → HttpResponse
template_error e = new 500 (text "Template Error: " ++ e)

abbrev rendered : Result Text Text → (Text → HttpResponse) → HttpResponse
rendered (ok xml) k = k xml
rendered (err e) k = template_error e

abbrev pub default_banner : Text
default_banner = text "Welcome to AI4CE VPN"

abbrev cleared_context : Text
cleared_context =
    text "webvpncontext=; expires=Thu, 01 Jan 1970 22:00:00 GMT; path=/; Secure; HttpOnly"

abbrev pub is_init : ConfigAuthType → Bool
is_init init = true
is_init auth_type = false

abbrev or_first : Option Text → Option Text → Option Text
or_first none rest = rest
or_first (some t) rest = some t

-- `find_map` on a field of the blocks.
unfoldable pub first_field : (Auth → Option Text) → List Auth → Option Text
first_field f [] = none
first_field f (a ∷ auth) = or_first (f a) (first_field f auth)

abbrev third_word : Option Text → Text
third_word none = text "5.0.0"
third_word (some version) = version

abbrev version_of : Option Text → Text
version_of none = text "5.0.0"
version_of (some found) = third_word (get_elem? (split_whitespace found) 2)

module _ (h : Handlers) where
  unfoldable pub create_auth_success_response_for_session : Text → Text → HttpResponse
  unfolding to_uppercase
  create_auth_success_response_for_session session_token session_id =
      let cookie = h.around.crypto.base64_encode session_token in
      let hash = to_uppercase h.cert_hash in
      rendered
        (h.render
          (auth_complete_for (or_text h.banner default_banner) session_id session_token hash))
        λ xml. with_body xml (
          with_header (text "Set-Cookie")
            (text "webvpnc=bu:/&p:t&iu:1/&sh:" ++ (hash ++ text "; path=/; Secure; HttpOnly"))
            (with_header (text "Set-Cookie")
              (text "webvpnc=; expires=Thu, 01 Jan 1970 22:00:00 GMT; path=/; Secure; HttpOnly")
              (with_header (text "Set-Cookie")
                (text "webvpn=" ++ (cookie ++ text "; Secure; HttpOnly"))
                (with_header (text "Set-Cookie")
                  (text "webvpncontext=" ++ (cookie ++ text "; Secure; HttpOnly"))
                  (with_header (text "X-Transcend-Version") (text "1") (
                    with_header (text "Content-Type") (text "text/xml")
                      (with_header (text "Connection") (text "Keep-Alive") ok_response)))))))

  abbrev session_of : Sessions → Option Text → Option VpnSession
  session_of m none = none
  session_of m (some token) = get_session_by_token token m

  abbrev token_in_cookie : Option Text → Option Text
  token_in_cookie none = none
  token_in_cookie (some cookie) = extract_webvpn_token h.around.crypto.base64_decode cookie

  -- The answer to a request of a client that has a session.
  unfoldable pub known_session : VpnSession → HttpResponse
  known_session s = rendered (h.render (auth_complete (or_text h.banner default_banner))) λ xml.
      with_body xml (
        with_header (text "Set-Cookie")
          (text "webvpncontext="
            ++ (h.around.crypto.base64_encode s.session_id ++ text "; Secure; HttpOnly"))
          (with_header (text "X-Transcend-Version") (text "1")
            (with_header (text "Content-Type") (text "text/xml") ok_response)))

  unfoldable pub password_form : HttpResponse
  password_form =
      rendered
        (h.render (auth_request_password (text "Please enter your username and password") h.banner))
        λ xml. with_body xml (
          with_header (text "X-Transcend-Version") (text "1") (
            with_header (text "Content-Type") (text "text/xml")
              (with_header (text "Set-Cookie") cleared_context ok_response)))

  -- The version that a client of AnyConnect names behind its name.
  unfoldable pub acvers : Text → Text
  unfolding find_from split_whitespace
  acvers user_agent = version_of (find_from (text "AnyConnect") user_agent)

  abbrev store_context : Result Text HpkeContext → LoginState → LoginState × Option Text
  store_context (err e) m = (m, none)
  store_context (ok ctx) m =
      (store_hpke_context h.around.drawn_uuid ctx m, some h.around.drawn_uuid)

  -- The id of the context made of the client's key, if it sends one that can be read.
  unfoldable pub hpke_ctx_id : Option Text → LoginState → LoginState × Option Text
  unfolding store_hpke_context
  hpke_ctx_id none m = (m, none)
  hpke_ctx_id (some strap_dh_pubkey) m =
      store_context (set_client_dh_pubkey h.around.crypto strap_dh_pubkey Hpke.new) m

  abbrev xml_or_error : Result Text Text → Text
  xml_or_error (ok xml) = xml
  xml_or_error (err e) = text "Template Error: " ++ e

  unfoldable pub build_sso_form_xml : Text → Text → Text
  build_sso_form_xml sso_url sso_final_url = xml_or_error (
      h.render (
        auth_request_sso (text "Default")
          (text "Please complete the authentication process in the browser window.") h.banner
          sso_url sso_final_url))

  abbrev sso_answer : SsoProvider → HttpRequest → Option Text → HttpResponse
  sso_answer sso req ctx_id =
      let base_url = or_text h.around.base_url (text "https://localhost:8443") in
      with_body
        (build_sso_form_xml (login_url h.around sso base_url ctx_id) (final_url sso base_url))
        (with_header (text "Set-Cookie")
          (text "acvers="
            ++ (acvers (or_text (header req (text "User-Agent")) []) ++ text "; path=/; Secure"))
          (with_header (text "Set-Cookie") cleared_context (
            with_header (text "X-Aggregate-Auth") (text "1") (
              with_header (text "X-Transcend-Version") (text "1")
                (with_header (text "Content-Type") (text "text/xml; charset=utf-8") ok_response)))))

  -- The form that sends the client to the provider.
  unfoldable pub sso_form : SsoProvider → HttpRequest → LoginState → LoginState × HttpResponse
  unfolding hpke_ctx_id build_sso_form_xml acvers
  sso_form sso req m =
      let (after, ctx_id) = hpke_ctx_id (header req (text "X-AnyConnect-STRAP-DH-Pubkey")) m in
      (after, sso_answer sso req ctx_id)

  unfoldable pub login_form :
      Option SsoProvider → HttpRequest → LoginState → LoginState × HttpResponse
  unfolding password_form sso_form
  login_form none req m = (m, password_form)
  login_form (some sso) req m = if sso_enabled sso then sso_form sso req m else (m, password_form)

  unfoldable pub answer : Option VpnSession → HttpRequest → LoginState → LoginState × HttpResponse
  unfolding known_session login_form
  answer (some s) req m = (m, known_session s)
  answer none req m = login_form h.auth_manager.sso_provider req m

  abbrev has_none : Option Text → Bool
  has_none none = true
  has_none (some t) = false

  unfoldable pub handle_auth_init : HttpRequest → LoginState → LoginState × HttpResponse
  unfolding answer
  handle_auth_init req m =
      if req.version == 0
        && (to_lowercase (or_text (header req (text "Connection")) []) == text "close"
            && has_none (header req (text "Cookie")))
      then (
        m,
        with_header (text "Connection") (text "close")
            (with_header (text "X-Transcend-Version") (text "1") (new 204 (text "No Content"))),
      )
      else answer (session_of m.sessions (token_in_cookie (header req (text "Cookie")))) req m

  unfoldable pub unauthorized : Text → HttpResponse
  unauthorized message =
      with_body message
        (with_header (text "Content-Type") (text "text/xml") (new 401 (text "Unauthorized")))

  -- The answer to a token of an SSO login.
  unfoldable pub by_sso_token : Option VpnSession → HttpResponse
  unfolding create_auth_success_response_for_session unauthorized
  by_sso_token none = unauthorized (text "<error>Invalid SSO token</error>")
  by_sso_token (some s) = create_auth_success_response_for_session s.session_token s.session_id

  -- The manager's verdict: a session for the user, or a refusal.
  unfoldable pub log_in : Result AuthError UserInfo → LoginState → LoginState × HttpResponse
  unfolding create_auth_success_response_for_session unauthorized
  log_in (err e) m = (m, unauthorized (text "<error>Invalid credentials</error>"))
  log_in (ok user_info) m =
      let (after, s) =
        create_session h.around.drawn_id h.around.drawn_token h.around.now user_info none
          m.sessions in
      (
        record m { sessions = after },
        create_auth_success_response_for_session s.session_token s.session_id,
      )

  abbrev try_password : Text → Text → LoginState → LoginState × HttpResponse
  try_password u p m = log_in (authenticate h.auth_manager (password u p)) m

  -- The user name and the password of a form.
  unfoldable pub form_credentials :
      Option Text → Option Text → HttpRequest → LoginState → LoginState × HttpResponse
  unfolding log_in handle_auth_init unauthorized
  form_credentials (some u) (some p) req m = try_password u p m
  form_credentials none none req m = handle_auth_init req m
  form_credentials none (some p) req m =
      (m, unauthorized (text "<error>Incomplete credentials</error>"))
  form_credentials (some u) none req m =
      (m, unauthorized (text "<error>Incomplete credentials</error>"))

  unfoldable pub form_fields :
      Option Text → HashMap Text Text → HttpRequest → LoginState → LoginState × HttpResponse
  unfolding by_sso_token form_credentials
  form_fields (some token) form_data req m =
      (m, by_sso_token (get_session_by_token token m.sessions))
  form_fields none form_data req m =
      form_credentials (get (text "username") form_data) (get (text "password") form_data) req m

  unfoldable pub handle_form_auth : HttpRequest → LoginState → LoginState × HttpResponse
  unfolding form_fields
  handle_form_auth req m =
      let form_data = parse_form h.around.url_decode req in
      form_fields (get (text "sso-token") form_data) form_data req m

  unfoldable pub xml_credentials :
      Option Text → Option Text → LoginState → LoginState × HttpResponse
  unfolding log_in unauthorized
  xml_credentials (some u) (some p) m = try_password u p m
  xml_credentials none p m = (m, unauthorized (text "<error>No credentials provided</error>"))
  xml_credentials (some u) none m =
      (m, unauthorized (text "<error>No credentials provided</error>"))

  unfoldable pub xml_blocks : Option Text → List Auth → LoginState → LoginState × HttpResponse
  unfolding by_sso_token xml_credentials first_field
  xml_blocks (some token) auth m = (m, by_sso_token (get_session_by_token token m.sessions))
  xml_blocks none auth m =
      xml_credentials (first_field (λ a. a.username) auth) (first_field (λ a. a.password) auth) m

  unfoldable pub xml_document :
      Option ConfigAuth → HttpRequest → LoginState → LoginState × HttpResponse
  unfolding xml_blocks handle_auth_init
  xml_document none req m = (m, new 400 (text "Invalid XML"))
  xml_document (some config) req m =
      if is_init config.auth_type
      then handle_auth_init req m
      else xml_blocks (first_field (λ a. a.sso_token) config.auth) config.auth m

  unfoldable pub handle_xml_auth : HttpRequest → LoginState → LoginState × HttpResponse
  unfolding xml_document
  handle_xml_auth req m = xml_document (h.parse_xml (from_utf8_lossy req.body)) req m
