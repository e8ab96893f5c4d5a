-- ===== src/Auth/Sso/Tests.antt =====
-- Logins by both providers.
use ocserv_rs.Base.{◌≡◌, refl, some, none, [], ◌∷◌, ◌++◌, arith}
use ocserv_rs.Base.Text.{Text, text, split}
use ocserv_rs.Base.Utf8.{from_utf8_lossy}
use ocserv_rs.Base.HashMap.{get, insert}
use ocserv_rs.Base.Eq.{bytes_eq, list_beq}
use ocserv_rs.Config.{OAuth2Config, default_saml, default_oauth2}
use ocserv_rs.Crypto.Hpke
use ocserv_rs.Crypto.Hpke.{HpkeContext}
use ocserv_rs.Auth.Provider.{saml}
use ocserv_rs.Auth.Session.{new_session, get_session, get_session_by_token}
use ocserv_rs.Http.Request.{HttpRequest, parse_form}
use ocserv_rs.Http.State.{LoginState}
use ocserv_rs.Auth.Sso
use ocserv_rs.Auth.Sso.Sample.{around}
use ocserv_rs.Auth.Sso.Saml
use ocserv_rs.Auth.Sso.Saml.{saml_user, handle_acs, login_url, relay_ctx}
use ocserv_rs.Auth.Sso.OAuth2.{query_ctx}
use ocserv_rs.Auth.Sso.Laws.{AnswersBy, handle-IsSsoLogin}
use ocserv_rs.Auth.Sso.Token.{cookie_of}
use ocserv_rs.Auth.Sso.SamlFlow.{IsId, handle-login_url, any_response_opens}
use ocserv_rs.Auth.Sso.OAuth2

abbrev empty : LoginState
empty = record { sessions = []; hpke_contexts = [] }

abbrev get_of : Text → HttpRequest
get_of path = record { method = text "GET"; path = path; version = 1; headers = []; body = [] }

abbrev id : Text
id = 55 ∷ []

abbrev link : HttpRequest
link = get_of (login_url [] (some id))

is_id : IsId id
is_id = ((ground arith, tt), (ground arith, tt), (ground arith, tt))

handle-login_url_run :
    Saml.handle around default_saml link empty
    ≡ (empty, Saml.handle_login around default_saml (some id))
handle-login_url_run = handle-login_url link id refl is_id around default_saml empty

abbrev acs : HttpRequest
acs = record {
  method = text "POST";
  path = text "/+CSCOE+/saml/sp/acs";
  version = 1;
  headers = [];
  body = text "SAMLResponse=r&RelayState=ctx=7";
}

response_sent : get (text "SAMLResponse") (parse_form around.url_decode acs) ≡ some (text "r")
unfolding parse_form split from_utf8_lossy text list_beq get insert
response_sent = refl

no_id : get_session (49 ∷ []) [] ≡ none
unfolding get_session get
no_id = refl

no_token : get_session_by_token (65 ∷ 66 ∷ []) [] ≡ none
unfolding get_session_by_token
no_token = refl

any_response_opens_example :
    get_session_by_token (65 ∷ 66 ∷ []) (handle_acs around acs empty).0.sessions
    ≡ some (new_session (49 ∷ []) (65 ∷ 66 ∷ []) 5 saml_user (relay_ctx around (text "ctx=" ++ id)))
unfolding text get parse_form split from_utf8_lossy insert list_beq
any_response_opens_example =
    any_response_opens around acs empty (text "r") response_sent no_id no_token

abbrev keyed : HpkeContext
keyed = record { client_pubkey = some (1 ∷ []) }

abbrev page : HttpRequest
page = record (get_of (text "/+CSCOE+/saml_ac_login.html")) {
  headers = (text "Cookie", cookie_of (65 ∷ 66 ∷ [])) ∷ [];
}

abbrev provider : OAuth2Config
provider = record default_oauth2 { token_url = text "https://idp/token" }

handle-IsSsoLogin_example :
    AnswersBy around (saml default_saml) acs empty (Sso.handle around (saml default_saml) acs empty)
handle-IsSsoLogin_example = handle-IsSsoLogin around (saml default_saml) acs empty

abbrev oauth2_link : HttpRequest
oauth2_link = get_of (text "/+CSCOE+/oauth2/login?state=ctx=7")

abbrev callback : HttpRequest
callback = get_of (text "/+CSCOE+/oauth2/callback?code=c&state=7")
