-- ===== src/Auth/Sso/Saml.antt =====
-- src/auth/sso/saml.rs: the SAML provider.
use ocserv_rs.Base.{Result, ok, err, Option, none, some, not, [], ◌∷◌, ◌++◌, if◌then◌else◌}
use ocserv_rs.Base.Text.{Text, Bytes, text, is_empty}
use ocserv_rs.Base.Eq.{◌==◌, bytes_eq}
use ocserv_rs.Base.HashMap.{HashMap, get}
use ocserv_rs.Config.{SamlAuthConfig}
use ocserv_rs.Auth.User.{UserInfo}
use ocserv_rs.Auth.Session.{create_session}
use ocserv_rs.Http.Request.{HttpRequest, parse_form}
use ocserv_rs.Http.Response.{HttpResponse, new, not_found, ok_response, with_header, with_body}
use ocserv_rs.Http.State.{LoginState}
use ocserv_rs.Auth.Sso.Shared.{
  Surroundings, or_default, path_part, query_value, form_value, saml_cookie, final_token,
  found_with_token,
}

-- The destination is a placeholder in the code.
unfoldable pub generate_authn_request : Surroundings → Text → Text → Text
generate_authn_request w sp_entity_id acs_url =
    text
      "<samlp:AuthnRequest xmlns:samlp=\"urn:oasis:names:tc:SAML:2.0:protocol\" xmlns:saml=\"urn:oasis:names:tc:SAML:2.0:assertion\" ID=\"_"
    ++ (w.drawn_uuid
        ++ (text "\" Version=\"2.0\" IssueInstant=\""
            ++ (w.issue_instant
                ++ (text
                      "\" Destination=\"DESTINATION_PLACEHOLDER\" ProtocolBinding=\"urn:oasis:names:tc:SAML:2.0:bindings:HTTP-POST\" AssertionConsumerServiceURL=\""
                    ++ (acs_url
                        ++ (text "\"><saml:Issuer>"
                            ++ (sp_entity_id
                                ++ text
                                    "</saml:Issuer><samlp:NameIDPolicy Format=\"urn:oasis:names:tc:SAML:1.1:nameid-format:unspecified\" AllowCreate=\"true\"/></samlp:AuthnRequest>")))))))

abbrev encoded : Surroundings → Result Text Bytes → Result Text Text
encoded w (ok compressed) = ok (w.crypto.base64_encode compressed)
encoded w (err e) = err e

unfoldable pub compress_and_encode_authn_request : Surroundings → Text → Result Text Text
compress_and_encode_authn_request w xml = encoded w (w.deflate xml)

unfoldable pub get_base_url : Surroundings → Text
get_base_url w = or_default w.base_url (text "https://localhost:8443")

-- `Location` is the URL with the request and, if there is a context, the state to come back with.
abbrev relayed : Surroundings → Option Text → Text → Text
relayed w none url = url
relayed w (some c) url = w.append_pair (text "RelayState") (text "ctx=" ++ c) url

abbrev redirected : Surroundings → Option Text → Text → Result Text Text → HttpResponse
redirected w ctx request (err e) = new 500 (text "IdP URL Parse Error: " ++ e)
redirected w ctx request (ok url) = with_body [] (
    with_header (text "Location") (relayed w ctx (w.append_pair (text "SAMLRequest") request url))
      (new 302 (text "Found")))

abbrev compressed_request : Surroundings → Option Text → Text → Result Text Text → HttpResponse
compressed_request w ctx metadata (err e) = new 500 (text "SAML Compression Error: " ++ e)
compressed_request w ctx metadata (ok request) = redirected w ctx request (w.parse_url metadata)

unfoldable pub authn_request : Surroundings → SamlAuthConfig → Text
unfolding generate_authn_request get_base_url
authn_request w c =
    generate_authn_request w (or_default c.sp_entity_id (text "ocserv-rs"))
      (or_default c.acs_url (get_base_url w ++ text "/+CSCOE+/saml/sp/acs"))

abbrev login_at : Surroundings → SamlAuthConfig → Option Text → Option Text → HttpResponse
login_at w c ctx none = new 500 (text "SAML Configuration Error")
login_at w c ctx (some metadata) =
    compressed_request w ctx metadata (compress_and_encode_authn_request w (authn_request w c))

unfoldable pub handle_login : Surroundings → SamlAuthConfig → Option Text → HttpResponse
unfolding compress_and_encode_authn_request authn_request
handle_login w c ctx = login_at w c ctx c.idp_metadata_url

-- The context's id in the state that came back.
unfoldable pub relay_ctx : Surroundings → Text → Option Text
relay_ctx w relay_state =
    if not (is_empty relay_state) then form_value w (text "ctx") relay_state else none

unfoldable pub saml_user : UserInfo
saml_user = record { username = text "saml_user"; groups = text "saml_users" ∷ []; attributes = [] }

abbrev pub accepted :
    Surroundings → HashMap Text Text → Option Text → LoginState → LoginState × HttpResponse
accepted w form_data none s = (s, new 400 (text "Missing SAMLResponse"))
accepted w form_data (some saml_response) s =
    let (after, session) =
      create_session w.drawn_id w.drawn_token w.now saml_user
        (relay_ctx w (or_default (get (text "RelayState") form_data) [])) s.sessions in
    (
      record s { sessions = after },
      with_body [] (found_with_token (text "/+CSCOE+/saml_ac_login.html") session.session_token),
    )

unfoldable pub handle_acs : Surroundings → HttpRequest → LoginState → LoginState × HttpResponse
unfolding relay_ctx saml_user found_with_token
handle_acs w req s =
    let form_data = parse_form w.url_decode req in
    accepted w form_data (get (text "SAMLResponse") form_data) s

abbrev pub success_page : Result Text Text → HttpResponse
success_page (err e) = new 500 (text "Template Error: " ++ e)
success_page (ok html) = with_body html (
    with_header (text "X-Frame-Options") (text "SAMEORIGIN") (
      with_header (text "Pragma") (text "no-cache") (
        with_header (text "Cache-Control") (text "no-store")
          (with_header (text "Content-Type") (text "text/html; charset=utf-8") ok_response))))

unfoldable pub handle_success : Surroundings → HttpRequest → LoginState → HttpResponse
unfolding saml_cookie final_token
handle_success w req s = success_page (w.render_saml_ac_login (final_token w (saml_cookie req) s))

unfoldable pub login_url : Text → Option Text → Text
login_url base_url (some c) = base_url ++ (text "/+CSCOE+/saml/sp/login?ctx=" ++ c)
login_url base_url none = base_url ++ text "/+CSCOE+/saml/sp/login"

unfoldable pub final_url : Text → Text
final_url base_url = base_url ++ text "/+CSCOE+/saml_ac_login.html"

unfoldable pub handle :
    Surroundings → SamlAuthConfig → HttpRequest → LoginState → LoginState × HttpResponse
unfolding path_part query_value handle_login handle_acs handle_success
handle w c req s =
    let path = path_part req in
    if path == text "/+CSCOE+/saml/sp/login"
    then (s, handle_login w c (query_value (text "ctx=") req))
    else if path == text "/+CSCOE+/saml/sp/acs"
    then handle_acs w req s
    else if path == text "/+CSCOE+/saml_ac_login.html"
    then (s, handle_success w req s)
    else (s, not_found)
