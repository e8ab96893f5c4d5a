-- ===== src/Auth/Sso/MockIdp.antt =====
-- src/auth/sso/saml.rs: the identity provider that stands in for one in development.
use ocserv_rs.Base.{Result, ok, err, Option, none, some, not, [], ◌++◌, if◌then◌else◌}
use ocserv_rs.Base.Text.{Text, text, is_empty}
use ocserv_rs.Base.Eq.{bytes_eq}
use ocserv_rs.Base.HashMap.{get}
use ocserv_rs.Http.Request.{HttpRequest, header, parse_form}
use ocserv_rs.Http.Response.{HttpResponse, new, ok_response, with_header, with_body}
use ocserv_rs.Auth.Sso.Shared.{Surroundings, or_default, query_value}

abbrev html_page : Text → HttpResponse
html_page html = with_body html (with_header (text "Content-Type") (text "text/html") ok_response)

abbrev rendered : Result Text Text → HttpResponse
rendered (err e) = new 500 (text "Template Error: " ++ e)
rendered (ok html) = html_page html

abbrev or_else : Option Text → Option Text → Option Text
or_else none o = o
or_else (some t) o = some t

abbrev decoded : Surroundings → Option Text → Text
decoded w none = []
decoded w (some s) = or_default (w.url_decode s) s

unfoldable pub handle_mock_idp_get : Surroundings → HttpRequest → HttpResponse
unfolding query_value
handle_mock_idp_get w req = rendered (
    w.render_mock_idp_login
      (or_default
        (or_else (header req (text "samlrequest")) (query_value (text "SAMLRequest=") req)) [])
      (decoded w (query_value (text "RelayState=") req)))

-- The page that posts the answer: the address and the state are put into it as they are.
unfoldable pub post_page : Text → Text → Text
post_page acs_url relay_state =
    text "<html><body onload=\"document.forms[0].submit()\">"
    ++ (text "<form method=\"POST\" action=\""
        ++ (acs_url
            ++ (text
                  "\"><input type=\"hidden\" name=\"SAMLResponse\" value=\"DUMMY_SAML_RESPONSE_BASE64_ENCODED\"/>"
                ++ ((if not (is_empty relay_state)
                      then text "<input type=\"hidden\" name=\"RelayState\" value=\""
                        ++ (relay_state ++ text "\"/>")
                      else [])
                    ++ text "</form></body></html>"))))

-- `acs_url` is that of the configuration.
unfoldable pub handle_mock_idp_post : Surroundings → Option Text → HttpRequest → HttpResponse
unfolding post_page
handle_mock_idp_post w acs_url req = html_page (
    post_page (or_default acs_url (text "https://localhost:8443/+CSCOE+/saml/sp/acs"))
      (or_default (get (text "RelayState") (parse_form w.url_decode req)) []))
