-- ===== src/Auth/Sso.antt =====
-- src/auth/sso/mod.rs: the trait `SsoProvider`, whose calls go to the provider that is configured.
pub mod Shared
pub mod Saml
pub mod OAuth2
pub mod MockIdp
pub mod Laws
pub mod Token
pub mod SamlFlow
pub mod OAuth2Flow
pub mod Sample
mod Tests
use ocserv_rs.Base.{Option, some, List, [], ◌∷◌}
use ocserv_rs.Base.Text.{Text, text}
use ocserv_rs.Auth.Provider.{SsoProvider, saml, oauth2}
use ocserv_rs.Http.Request.{HttpRequest}
use ocserv_rs.Http.Response.{HttpResponse}
use ocserv_rs.Http.State.{LoginState}
use ocserv_rs.Auth.Sso.Shared.{Surroundings}
use ocserv_rs.Auth.Sso.Saml
use ocserv_rs.Auth.Sso.OAuth2

pub record SsoRoute : Type 0 where
  pub method : Text
  pub path : Text

unfoldable pub name : SsoProvider → Text
name (saml c) = text "saml"
name (oauth2 c) = text "oauth2"

abbrev route : Text → Text → SsoRoute
route method path = record { method = method; path = path }

unfoldable pub routes : SsoProvider → List SsoRoute
unfolding text
routes (saml c) =
    route (text "GET") (text "/+CSCOE+/saml/sp/login")
    ∷ route (text "POST") (text "/+CSCOE+/saml/sp/acs")
    ∷ route (text "GET") (text "/+CSCOE+/saml_ac_login.html")
    ∷ []
routes (oauth2 c) =
    route (text "GET") (text "/+CSCOE+/oauth2/login")
    ∷ route (text "GET") (text "/+CSCOE+/oauth2/callback")
    ∷ route (text "GET") (text "/+CSCOE+/oauth2_login.html")
    ∷ []

unfoldable pub login_url : Surroundings → SsoProvider → Text → Option Text → Text
unfolding Saml.login_url OAuth2.login_url
login_url w (saml c) base_url ctx = Saml.login_url base_url ctx
login_url w (oauth2 c) base_url ctx = OAuth2.login_url w base_url ctx

unfoldable pub final_url : SsoProvider → Text → Text
unfolding Saml.final_url OAuth2.final_url
final_url (saml c) base_url = Saml.final_url base_url
final_url (oauth2 c) base_url = OAuth2.final_url base_url

unfoldable pub handle :
    Surroundings → SsoProvider → HttpRequest → LoginState → Option (LoginState × HttpResponse)
unfolding Saml.handle OAuth2.handle
handle w (saml c) req s = some (Saml.handle w c req s)
handle w (oauth2 c) req s = OAuth2.handle w c req s
