-- ===== src/Auth/Provider/Tests.antt =====
-- Runs of the password check, and the theorems at concrete configurations.
use ocserv_rs.Base.{◌≡◌, refl, ok, err, none, true, false, List, [], ◌∷◌}
use ocserv_rs.Base.Text.{text}
use ocserv_rs.Base.Eq.{list_beq}
use ocserv_rs.Base.HashMap
use ocserv_rs.Auth.User.{invalid_password, user_not_found, sso_needs_session, plain_user}
use ocserv_rs.Auth.Password
use ocserv_rs.Auth.Provider.{
  password, sso_token, new, fill, authenticate_password, from_config, has_provider_for,
  is_sso_enabled, is_password_enabled, authenticate,
}
use ocserv_rs.Auth.Provider.Laws.{
  Verdict, authenticate-Verdict, authenticate_agrees, from_config_providers,
}
use ocserv_rs.Config.{UserConfig, AuthConfig, default_config}

-- The second entry for the name counts.
abbrev users : List UserConfig
users =
    record { username = text "ann"; password = text "old" }
    ∷ record { username = text "ann"; password = text "new" }
    ∷ []

provider : Unit {0}
unfolding authenticate_password new fill HashMap.get HashMap.insert list_beq text
    Password.authenticate Password.with_defaults
provider = tt

authenticate_tests :
    (authenticate_password (new users) (password (text "ann") (text "new"))
      ≡ ok (plain_user (text "ann")))
    × (authenticate_password (new users) (password (text "ann") (text "old"))
        ≡ err invalid_password)
    × (authenticate_password (new users) (password (text "bob") (text "new")) ≡ err user_not_found)
    × (Password.authenticate Password.with_defaults (text "user1") (text "pass1")
        ≡ ok (plain_user (text "user1")))
unfolding provider
authenticate_tests = (refl, refl, refl, refl)

authenticate-Verdict_example :
    Verdict users
      (text "ann")
      (text "new")
      (authenticate_password (new users) (password (text "ann") (text "new")))
authenticate-Verdict_example = authenticate-Verdict users (text "ann") (text "new")

abbrev auth : AuthConfig
auth = default_config.auth

authenticate_agrees_run :
    (authenticate_password (new auth.password.users) (password (text "test") (text "test"))
      ≡ Password.authenticate (Password.new auth.password.users) (text "test") (text "test"))
    × (authenticate (from_config auth) (password (text "test") (text "test"))
        ≡ Password.authenticate (Password.new auth.password.users) (text "test") (text "test"))
    × (authenticate (from_config auth) (sso_token (text "t")) ≡ err sso_needs_session)
authenticate_agrees_run = authenticate_agrees auth (text "test") (text "test") (text "t")

providers_made :
    ((from_config auth).sso_provider ≡ none)
    × (is_sso_enabled (from_config auth) ≡ false)
    × (is_password_enabled (from_config auth) ≡ true)
    × (has_provider_for (from_config auth) (password (text "a") (text "b"))
        ≡ is_password_enabled (from_config auth))
    × (has_provider_for (from_config auth) (sso_token (text "t"))
        ≡ is_sso_enabled (from_config auth))
providers_made = from_config_providers auth (text "a") (text "b") (text "t")
