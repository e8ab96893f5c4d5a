-- ===== src/Auth/User.antt =====
-- src/auth/mod.rs: the user that an authentication yields, and its failures.
use ocserv_rs.Base.{List, []}
use ocserv_rs.Base.Text.{Text}
use ocserv_rs.Base.HashMap.{HashMap}

pub record UserInfo : Type 0 where
  pub username : Text
  pub groups : List Text
  pub attributes : HashMap Text Text

-- The messages of `bail!` and `anyhow!` in the password code.
pub data AuthError : Type 0 where
  invalid_password user_not_found wrong_request password_not_enabled sso_needs_session : AuthError

-- The user of a password: no groups and no attributes.
abbrev pub plain_user : Text → UserInfo
plain_user name = record { username = name; groups = []; attributes = [] }
