-- ===== src/Auth/Password.antt =====
-- src/auth/password.rs: the authenticator over a table of users.
use ocserv_rs.Base.{Result, ok, err, Option, none, some, List, [], ◌∷◌, if◌then◌else◌}
use ocserv_rs.Base.Text.{Text, text}
use ocserv_rs.Base.Eq.{◌==◌, bytes_eq}
use ocserv_rs.Base.HashMap
use ocserv_rs.Base.HashMap.{HashMap}
use ocserv_rs.Auth.User.{UserInfo, AuthError, invalid_password, user_not_found, plain_user}
use ocserv_rs.Config.{UserConfig}

pub record PasswordAuthenticator : Type 0 where
  pub users : HashMap Text Text

-- The loop of `new`.
unfoldable pub insert_users : List UserConfig → HashMap Text Text → HashMap Text Text
insert_users [] users = users
insert_users (u ∷ us) users = insert_users us (HashMap.insert u.username u.password users)

unfoldable pub new : List UserConfig → PasswordAuthenticator
new user_configs = record { users = insert_users user_configs [] }

unfoldable pub with_defaults : PasswordAuthenticator
with_defaults = record {
  users = HashMap.insert (text "user1") (text "pass1") (
      HashMap.insert (text "admin") (text "admin") (HashMap.insert (text "test") (text "test") []));
}

unfoldable pub check : Option Text → Text → Text → Result AuthError UserInfo
check none username password = err user_not_found
check (some stored_password) username password =
    if stored_password == password then ok (plain_user username) else err invalid_password

unfoldable pub authenticate : PasswordAuthenticator → Text → Text → Result AuthError UserInfo
unfolding check
authenticate a username password = check (HashMap.get username a.users) username password
