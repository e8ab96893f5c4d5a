-- ===== src/Auth/Provider.antt =====
-- src/auth/provider.rs: the providers and the manager that chooses among them.
pub mod Laws
mod Tests
use ocserv_rs.Base.{
  Result, ok, err, Option, none, some, Bool, true, false, List, [], ◌∷◌, if◌then◌else◌,
}
use ocserv_rs.Base.Text.{Text}
use ocserv_rs.Base.Eq.{◌==◌, bytes_eq}
use ocserv_rs.Base.HashMap
use ocserv_rs.Base.HashMap.{HashMap}
use ocserv_rs.Auth.User.{
  UserInfo, AuthError, invalid_password, user_not_found, plain_user, wrong_request,
  password_not_enabled, sso_needs_session,
}
use ocserv_rs.Config.{UserConfig, SamlAuthConfig, OAuth2Config, AuthConfig}

pub data AuthRequest : Type 0 where
  password : Text → Text → AuthRequest
  sso_token : Text → AuthRequest

pub record PasswordAuthProvider : Type 0 where
  pub enabled : Bool
  pub users : HashMap Text Text

-- The loop of `new`.
unfoldable pub fill : HashMap Text Text → List UserConfig → HashMap Text Text
fill users [] = users
fill users (user ∷ user_configs) =
    fill (HashMap.insert user.username user.password users) user_configs

unfoldable pub new : List UserConfig → PasswordAuthProvider
new user_configs = record { enabled = true; users = fill [] user_configs }

unfoldable pub with_enabled : List UserConfig → Bool → PasswordAuthProvider
unfolding new
with_enabled user_configs enabled = record (new user_configs) { enabled = enabled }

unfoldable pub match_password : Text → Text → Option Text → Result AuthError UserInfo
match_password username pass (some stored_password) =
    if stored_password == pass then ok (plain_user username) else err invalid_password
match_password username pass none = err user_not_found

unfoldable pub authenticate_password :
    PasswordAuthProvider → AuthRequest → Result AuthError UserInfo
unfolding match_password
authenticate_password p (password username pass) =
    match_password username pass (HashMap.get username p.users)
authenticate_password p (sso_token token) = err wrong_request

-- The implementations of the trait `SsoProvider`.
pub data SsoProvider : Type 0 where
  saml : SamlAuthConfig → SsoProvider
  oauth2 : OAuth2Config → SsoProvider

unfoldable pub sso_enabled : SsoProvider → Bool
sso_enabled (saml c) = c.enabled
sso_enabled (oauth2 c) = c.enabled

pub record AuthManager : Type 0 where
  pub password_provider : Option PasswordAuthProvider
  pub sso_provider : Option SsoProvider

unfoldable pub from_config : AuthConfig → AuthManager
from_config c = record {
  password_provider = if c.password.enabled then some (new c.password.users) else none;
  sso_provider =
      if c.saml.enabled
      then some (saml c.saml)
      else if c.oauth2.enabled
      then some (oauth2 c.oauth2)
      else none;
}

-- `as_ref().map_or(false, |p| p.is_enabled())`.
unfoldable pub provider_enabled : Option PasswordAuthProvider → Bool
provider_enabled none = false
provider_enabled (some p) = p.enabled

unfoldable pub any_sso_enabled : Option SsoProvider → Bool
unfolding sso_enabled
any_sso_enabled none = false
any_sso_enabled (some p) = sso_enabled p

unfoldable pub has_provider_for : AuthManager → AuthRequest → Bool
unfolding provider_enabled any_sso_enabled
has_provider_for m (password username pass) = provider_enabled m.password_provider
has_provider_for m (sso_token token) = any_sso_enabled m.sso_provider

unfoldable pub is_sso_enabled : AuthManager → Bool
unfolding any_sso_enabled
is_sso_enabled m = any_sso_enabled m.sso_provider

unfoldable pub is_password_enabled : AuthManager → Bool
unfolding provider_enabled
is_password_enabled m = provider_enabled m.password_provider

unfoldable pub ask : Option PasswordAuthProvider → AuthRequest → Result AuthError UserInfo
unfolding authenticate_password
ask none request = err password_not_enabled
ask (some p) request =
    if p.enabled then authenticate_password p request else err password_not_enabled

unfoldable pub authenticate : AuthManager → AuthRequest → Result AuthError UserInfo
unfolding ask
authenticate m (password username pass) = ask m.password_provider (password username pass)
authenticate m (sso_token token) = err sso_needs_session
