-- ===== src/Auth/Provider/Laws.antt =====
-- Who passes the password check, and which provider a configuration selects.
use ocserv_rs.Base.{
  ◌≡◌, ◌≢◌, ◌↔◌, ◌⊎◌, inl, inr, refl, ap, sym, ◌∙◌, Result, ok, err, Option, none, some, Bool, true,
  false, List, [], ◌∷◌, if◌then◌else◌, arith, Option-cases, Bool-cases,
}
use ocserv_rs.Base.Text.{Text}
use ocserv_rs.Base.Eq.{◌==◌, bytes_eq, list_beq_iff}
use ocserv_rs.Base.HashMap
use ocserv_rs.Base.HashMap.{HashMap}
use ocserv_rs.Auth.User.{
  UserInfo, AuthError, invalid_password, user_not_found, password_not_enabled, sso_needs_session,
  plain_user,
}
use ocserv_rs.Auth.Password
use ocserv_rs.Auth.Password.{insert_users, check}
use ocserv_rs.Auth.Provider.{
  fill, match_password, ask, password, sso_token, new, authenticate_password, saml, oauth2,
  from_config, has_provider_for, is_sso_enabled, is_password_enabled, authenticate,
}
use ocserv_rs.Config.{UserConfig, AuthConfig}

-- The password that a configuration gives a user: that of the last entry with the name.
unfoldable pub last_password : Text → List UserConfig → Option Text → Option Text
last_password name [] found = found
last_password name (u ∷ us) found =
    last_password name us (if u.username == name then some u.password else found)

get-fill :
    (name : Text) (us : List UserConfig) (users : HashMap Text Text)
    → HashMap.get name (fill users us) ≡ last_password name us (HashMap.get name users)
unfolding fill last_password
get-fill name [] users = refl
get-fill name (u ∷ us) users =
    get-fill name us (HashMap.insert u.username u.password users)
    ∙ ap (last_password name us) (HashMap.get-insert u.username name u.password users)

-- The outcome of a password check: the name's last configured password decides.
abbrev pub Verdict : List UserConfig → Text → Text → Result AuthError UserInfo → Type 0
Verdict us name pass r =
    ((last_password name us none ≡ some pass) × (r ≡ ok (plain_user name)))
    ⊎ ((stored : Text) × (last_password name us none ≡ some stored)
        × (stored ≢ pass)
        × (r ≡ err invalid_password))
    ⊎ ((last_password name us none ≡ none) × (r ≡ err user_not_found))

match_password-Verdict :
    (us : List UserConfig) (name pass : Text) (o : Option Text)
    → last_password name us none ≡ o
    → Verdict us name pass (match_password name pass o)
unfolding match_password
match_password-Verdict us name pass none e = inr (inr (e, refl))
match_password-Verdict us name pass (some stored) e = elim (Bool-cases (stored == pass)) [
  | inl same ↦ inl (e ∙ ap some ((list_beq_iff stored pass).0 same), rw same)
  | inr other ↦ inr (inl (stored, e, (λ q. ground (arith, list_beq_iff stored pass)), rw other))
]

-- A check of the password provider over a configuration ends in one of three ways: the name's last
-- configured password is the one given and the user is accepted with no groups; it is another one
-- and the password is invalid; or the name is not configured.
pub authenticate-Verdict :
    (us : List UserConfig) (name pass : Text)
    → Verdict us name pass (authenticate_password (new us) (password name pass))
unfolding authenticate_password new HashMap.get
authenticate-Verdict us name pass =
    match_password-Verdict us name pass (HashMap.get name (fill [] us)) (sym (get-fill name us []))

fill-eq-insert_users :
    (us : List UserConfig) (users : HashMap Text Text) → fill users us ≡ insert_users us users
unfolding fill insert_users
fill-eq-insert_users [] users = refl
fill-eq-insert_users (u ∷ us) users =
    fill-eq-insert_users us (HashMap.insert u.username u.password users)

match_password-eq-check :
    (name pass : Text) (o : Option Text) → match_password name pass o ≡ check o name pass
unfolding match_password check
match_password-eq-check name pass none = refl
match_password-eq-check name pass (some stored) = refl

same_check :
    (us : List UserConfig) (name pass : Text)
    → authenticate_password (new us) (password name pass)
      ≡ Password.authenticate (Password.new us) name pass
unfolding authenticate_password new Password.authenticate Password.new
same_check us name pass =
    match_password-eq-check name pass (HashMap.get name (fill [] us))
    ∙ ap (λ m. check (HashMap.get name m) name pass) (fill-eq-insert_users us [])

-- The two password implementations agree on every configuration, and the manager agrees with them
-- when passwords are enabled; when they are not it refuses every password, and an SSO token always.
pub authenticate_agrees :
    (c : AuthConfig) (name pass token : Text)
    → (authenticate_password (new c.password.users) (password name pass)
        ≡ Password.authenticate (Password.new c.password.users) name pass)
      × (authenticate (from_config c) (password name pass) ≡ (
          if c.password.enabled
          then Password.authenticate (Password.new c.password.users) name pass
          else err password_not_enabled))
      × (authenticate (from_config c) (sso_token token) ≡ err sso_needs_session)
unfolding authenticate from_config ask new
authenticate_agrees c name pass token =
    let same = same_check c.password.users name pass in (same, ground (arith, same), refl)

-- The SSO provider of a configuration: SAML if it is enabled, also beside OAuth2, else OAuth2 if
-- that is enabled, else none; so SSO counts as enabled exactly when one of the two is, and
-- `has_provider_for` agrees with the two tests.
pub from_config_providers :
    (c : AuthConfig) (name pass token : Text)
    → ((from_config c).sso_provider ≡ (
        if c.saml.enabled
        then some (saml c.saml)
        else if c.oauth2.enabled
        then some (oauth2 c.oauth2)
        else none))
      × (is_sso_enabled (from_config c) ≡ (ocserv_rs.Base.◌||◌ c.saml.enabled c.oauth2.enabled))
      × (is_password_enabled (from_config c) ≡ c.password.enabled)
      × (has_provider_for (from_config c) (password name pass)
          ≡ is_password_enabled (from_config c))
      × (has_provider_for (from_config c) (sso_token token) ≡ is_sso_enabled (from_config c))
unfolding from_config is_sso_enabled is_password_enabled has_provider_for new
from_config_providers c name pass token = (refl, ground arith, ground arith, refl, refl)
