-- ===== src/Http/Routes.antt =====
-- src/http/server.rs: the routing of requests other than CONNECT.
pub mod Laws
pub mod Sample
mod Tests
use ocserv_rs.Base.{
  ℕ, Option, none, some, Bool, true, false, ◌&&◌, ◌||◌, List, [], ◌∷◌, if◌then◌else◌,
}
use ocserv_rs.Base.Text.{Text, Bytes, text, starts_with, ends_with, contains}
use ocserv_rs.Base.Eq.{◌==◌, bytes_eq}
use ocserv_rs.Config.{SamlAuthConfig}
use ocserv_rs.Auth.Provider.{SsoProvider}
use ocserv_rs.Auth.Sso
use ocserv_rs.Auth.Sso.{SsoRoute, routes}
use ocserv_rs.Auth.Sso.Shared.{path_part}
use ocserv_rs.Auth.Sso.MockIdp.{handle_mock_idp_get, handle_mock_idp_post}
use ocserv_rs.Http.State.{LoginState}
use ocserv_rs.Http.Request.{HttpRequest, header}
use ocserv_rs.Http.Response.{HttpResponse, new, ok_response, not_found, with_header, with_body}
use ocserv_rs.Http.Login.{Handlers, handle_auth_init, handle_xml_auth, handle_form_auth}

-- `saml` is that of the configuration.
pub record Site : Type 0 where
  pub handlers : Handlers
  pub saml : SamlAuthConfig

unfoldable pub has_route : List SsoRoute → Text → Text → Bool
has_route [] method path = false
has_route (r ∷ routes) method path =
    (method == r.method && path == r.path) || has_route routes method path

abbrev or_empty : Option Text → Text
or_empty none = []
or_empty (some t) = t

-- A page of a kind of content.
unfoldable pub page : Text → Text → HttpResponse
page content_type body = with_body body (with_header (text "Content-Type") content_type ok_response)

unfoldable pub index_page : HttpResponse
index_page = with_body (text "<html></html>") (
    with_header (text "X-Transcend-Version") (text "1") (
      with_header (text "Content-Type") (text "text/html")
        (with_header (text "Connection") (text "Keep-Alive") ok_response)))

unfoldable pub logout_page : HttpResponse
logout_page =
    with_body
      (text "<?xml version=\"1.0\" encoding=\"UTF-8\"?>\n<logout><result>success</result></logout>")
      (with_header (text "X-Transcend-Version") (text "1")
        (with_header (text "Content-Type") (text "text/xml") ok_response))

unfoldable pub no_customization : HttpResponse
no_customization =
    with_body (text "<html><body><h1>404 Not Found</h1></body></html>")
      (with_header (text "Connection") (text "close") (new 404 (text "Not found")))

module _ (site : Site) where
  -- A page of the mock identity provider, if that is enabled.
  unfoldable pub mock_page : HttpResponse → HttpResponse
  mock_page page =
      if site.saml.dev_idp_enabled
      then page
      else with_body (text "Mock IdP disabled") (new 404 (text "Not Found"))

  unfoldable pub unknown : HttpResponse
  unknown = with_body (text "Not Found") not_found

  -- The answer to GET on a path other than "/".
  unfoldable pub get_page : Text → HttpRequest → HttpResponse
  unfolding mock_page unknown handle_mock_idp_get page index_page logout_page no_customization
  get_page path req =
      if path == text "/dev/idp"
      then mock_page (handle_mock_idp_get site.handlers.around req)
      else if ends_with (text "/binaries/update.txt") path
      then page (text "text/xml") (text "0,0,0000\n")
      else if ends_with (text "VPNManifest.xml") path
      then page (text "text/xml")
          (text "<?xml version=\"1.0\" encoding=\"UTF-8\"?>\n<vpn rev=\"1.0\"></vpn>\n")
      else if starts_with (text "/+CSCOT+/") path
      then no_customization
      else if ends_with (text "/1/index.html") path
      then index_page
      else if starts_with (text "/1/") path
      then index_page
      else if path == text "/logout" || path == text "//logout"
      then logout_page
      else unknown

  unfoldable pub handle_get : Text → HttpRequest → LoginState → LoginState × HttpResponse
  unfolding get_page handle_auth_init
  handle_get path req m =
      if path == text "/" || path == []
      then handle_auth_init site.handlers req m
      else (m, get_page path req)

  abbrev content_type_of : HttpRequest → Text
  content_type_of req = or_empty (header req (text "Content-Type"))

  unfoldable pub body_starts_with_xml : Bytes → Bool
  unfolding text starts_with
  body_starts_with_xml body =
      starts_with (text "<?xml") body || starts_with (text "<config-auth") body

  unfoldable pub handle_post : Text → HttpRequest → LoginState → LoginState × HttpResponse
  unfolding mock_page unknown handle_mock_idp_post handle_auth_init handle_xml_auth handle_form_auth
      body_starts_with_xml
  handle_post path req m =
      if path == text "/dev/idp"
      then (m, mock_page (handle_mock_idp_post site.handlers.around site.saml.acs_url req))
      else if path == text "/" || path == []
      then (if contains (text "xml") (content_type_of req) || body_starts_with_xml req.body
          then handle_xml_auth site.handlers req m
          else if contains (text "x-www-form-urlencoded") (content_type_of req)
          then handle_form_auth site.handlers req m
          else handle_auth_init site.handlers req m)
      else if path == text "/auth"
      then (if contains (text "xml") (content_type_of req)
          then handle_xml_auth site.handlers req m
          else handle_form_auth site.handlers req m)
      else (m, unknown)

  unfoldable pub by_method : HttpRequest → LoginState → LoginState × HttpResponse
  unfolding path_part handle_get handle_post unknown
  by_method req m =
      if req.method == text "GET"
      then handle_get (path_part req) req m
      else if req.method == text "POST"
      then handle_post (path_part req) req m
      else (m, unknown)

  abbrev pub by_provider :
      Option SsoProvider → HttpRequest → LoginState → Option (LoginState × HttpResponse)
  by_provider none req m = some (by_method req m)
  by_provider (some p) req m =
      if has_route (routes p) req.method (path_part req)
      then Sso.handle site.handlers.around p req m
      else some (by_method req m)

  -- `none` is a panic, which ends the task of the connection.
  unfoldable pub handle_http_request : HttpRequest → LoginState → Option (LoginState × HttpResponse)
  unfolding path_part has_route routes Sso.handle by_method
  handle_http_request req m = by_provider site.handlers.auth_manager.sso_provider req m
