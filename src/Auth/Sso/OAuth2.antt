-- ===== src/Auth/Sso/OAuth2.antt =====
-- src/auth/sso/oauth2.rs: the OAuth2 provider.
use Prim.Native.Nat.{min}
use ocserv_rs.Base.{
  Result, ok, err, Option, none, some, Bool, not, ◌&&◌, List, [], ◌∷◌, ◌++◌, get_elem?,
  if◌then◌else◌, length,
}
use ocserv_rs.Base.Text.{Text, text, split}
use ocserv_rs.Base.Utf8.{from_utf8, is_char_boundary}
use ocserv_rs.Base.Eq.{◌==◌, bytes_eq}
use ocserv_rs.Base.HashMap.{HashMap, get, insert}
use ocserv_rs.Config.{OAuth2Config}
use ocserv_rs.Auth.User.{UserInfo}
use ocserv_rs.Auth.Session.{create_session}
use ocserv_rs.Http.Request.{HttpRequest}
use ocserv_rs.Http.Response.{HttpResponse, new, not_found, ok_response, with_header, with_body}
use ocserv_rs.Http.State.{LoginState}
use ocserv_rs.Auth.Sso.Shared.{
  Surroundings, Exchange, blocked, no_client, refused, unreadable, failed, token_data, and_then,
  or_default, path_part, query_part, form_value, saml_cookie, final_token, found_with_token,
}

unfoldable pub handle_login : Surroundings → OAuth2Config → Option Text → HttpResponse
handle_login w c ctx =
    let auth_url =
      c.auth_url
      ++ (text "?response_type=code&client_id="
          ++ (w.url_encode c.client_id
              ++ (text "&redirect_uri="
                  ++ (w.url_encode c.redirect_uri
                      ++ (text "&scope="
                          ++ (w.url_encode (or_default c.scope (text "openid profile email"))
                              ++ (text "&state=" ++ w.url_encode (or_default ctx [])))))))) in
    with_body [] (with_header (text "Location") auth_url (new 302 (text "Found")))

-- `collect` into a map: a later value of a name takes the place of an earlier one.
unfoldable pub collect : HashMap Text Text → List (Text × Text) → HashMap Text Text
collect m [] = m
collect m ((k, v) ∷ pairs) = collect (insert k v m) pairs

abbrev or_else {ℓ} : {A : Type ℓ} → Option A → Option A → Option A
or_else none o = o
or_else (some a) o = some a

-- The name in the claims: the first claim there is of these four, if it is a string.
unfoldable pub claimed_name : Surroundings → Text → Option Text
claimed_name w claims =
    and_then
      (or_else (w.json_get claims (text "preferred_username")) (
        or_else (w.json_get claims (text "upn"))
          (or_else (w.json_get claims (text "email")) (w.json_get claims (text "sub")))))
      w.json_as_str

-- The second part of a token `header.payload.signature`.
unfoldable pub jwt_name : Surroundings → Text → Option Text
unfolding claimed_name split from_utf8
jwt_name w jwt = and_then (get_elem? (split b'.' jwt) 1) λ payload.
    and_then (w.base64_url_decode payload) λ bytes.
      and_then (from_utf8 bytes)
        λ json. and_then (w.json_parse json) λ claims. claimed_name w claims

unfoldable pub username_of : Surroundings → Text → Text
unfolding jwt_name
username_of w json =
    or_default
      (and_then (w.json_get json (text "id_token"))
        λ t. and_then (w.json_as_str t) λ jwt. jwt_name w jwt)
      (text "oauth2_user")

unfoldable pub oauth2_user : Text → UserInfo
oauth2_user username = record {
  username = username;
  groups = text "oauth2_users" ∷ [];
  attributes = [];
}

-- The context's id in the parameter `state`.
unfoldable pub state_ctx : Surroundings → Option Text → Option Text
state_ctx w ctx_from_state = and_then ctx_from_state (form_value w (text "ctx"))

abbrev pub exchanged :
    Surroundings → Option Text → Exchange → LoginState → Option (LoginState × HttpResponse)
exchanged w state blocked s = none
exchanged w state no_client s = some (s, new 500 (text "Internal error"))
exchanged w state failed s = some (s, new 500 (text "Token exchange error"))
exchanged w state refused s = some (s, new 401 (text "Token exchange failed"))
exchanged w state unreadable s = some (s, new 500 (text "Token parse error"))
exchanged w state (token_data json) s =
    let (after, session) =
      create_session w.drawn_id w.drawn_token w.now (oauth2_user (username_of w json))
        (state_ctx w state) s.sessions in
    some (
      record s { sessions = after },
      with_body [] (found_with_token (text "/+CSCOE+/oauth2_login.html") session.session_token),
    )

-- The form of a token exchange.
unfoldable pub exchange_form : OAuth2Config → Text → List (Text × Text)
exchange_form c code =
    (text "grant_type", text "authorization_code")
    ∷ (text "code", code)
    ∷ (text "redirect_uri", c.redirect_uri)
    ∷ (text "client_id", c.client_id)
    ∷ (text "client_secret", c.client_secret)
    ∷ []

-- The message about a code shows its first bytes, at most 10, cut where no character need end.
unfoldable pub shows_code : Text → Bool
unfolding is_char_boundary
shows_code code = is_char_boundary code (min (length code) 10)

abbrev pub with_code :
    Surroundings
    → OAuth2Config
    → Option Text
    → Option Text
    → LoginState
    → Option (LoginState × HttpResponse)
with_code w c none state s = some (s, new 400 (text "Missing code parameter"))
with_code w c (some code) state s =
    if w.logs_info && not (shows_code code)
    then none
    else exchanged w state (w.post_form c.token_url (exchange_form c code)) s

-- `none` is a panic, which ends the task of the connection.
unfoldable pub handle_callback :
    Surroundings → OAuth2Config → HttpRequest → LoginState → Option (LoginState × HttpResponse)
unfolding query_part collect username_of oauth2_user state_ctx exchange_form shows_code
    found_with_token
handle_callback w c req s =
    let params = collect [] (w.form_urlencoded (or_default (query_part req) [])) in
    with_code w c (get (text "code") params) (get (text "state") params) s

abbrev pub success_page : Result Text Text → HttpResponse
success_page (err e) = new 500 (text "Template Error: " ++ e)
success_page (ok html) = with_body html (
    with_header (text "Cache-Control") (text "no-store")
      (with_header (text "Content-Type") (text "text/html; charset=utf-8") ok_response))

unfoldable pub handle_success : Surroundings → HttpRequest → LoginState → HttpResponse
unfolding saml_cookie final_token
handle_success w req s = success_page (w.render_saml_ac_login (final_token w (saml_cookie req) s))

abbrev ctx_state : Option Text → Text
ctx_state none = []
ctx_state (some c) = text "ctx=" ++ c

unfoldable pub login_url : Surroundings → Text → Option Text → Text
login_url w base_url ctx =
    base_url ++ (text "/+CSCOE+/oauth2/login?state=" ++ w.url_encode (ctx_state ctx))

unfoldable pub final_url : Text → Text
final_url base_url = base_url ++ text "/+CSCOE+/oauth2_login.html"

-- The context's id in the state of the query.
unfoldable pub query_ctx : Surroundings → HttpRequest → Option Text
unfolding query_part
query_ctx w req =
    and_then (query_part req)
      λ q. and_then (form_value w (text "state") q) λ v. form_value w (text "ctx") v

unfoldable pub handle :
    Surroundings → OAuth2Config → HttpRequest → LoginState → Option (LoginState × HttpResponse)
unfolding path_part query_ctx handle_login handle_callback handle_success
handle w c req s =
    let path = path_part req in
    if path == text "/+CSCOE+/oauth2/login"
    then some (s, handle_login w c (query_ctx w req))
    else if path == text "/+CSCOE+/oauth2/callback"
    then handle_callback w c req s
    else if path == text "/+CSCOE+/oauth2_login.html"
    then some (s, handle_success w req s)
    else some (s, not_found)
