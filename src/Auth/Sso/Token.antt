-- ===== src/Auth/Sso/Token.antt =====
-- The token of a new session: in the cookie of its login, and on the page behind it.
use ocserv_rs.Base.{ℕ, ◌≡◌, ◌≢◌, refl, Option, none, some, true, [], ◌∷◌, ◌++◌, All, find_first}
use ocserv_rs.Base.Text.{Text, text, split, starts_with, is_space}
use ocserv_rs.Base.Split.{Lacks, lacks-Lacks, split-one, split-two}
use ocserv_rs.Base.Eq.{bytes_eq, eq_refl}
use ocserv_rs.Auth.User.{UserInfo}
use ocserv_rs.Auth.Session.{new_session, get_session, get_session_by_token}
use ocserv_rs.Auth.Session.Fresh.{create_session_fresh}
use ocserv_rs.Http.Request.{HttpRequest, header}
use ocserv_rs.Http.State.{LoginState}
use ocserv_rs.Http.Login.Cookie.{
  IsCookieByte, IsCookieByte-Lacks, clean-IsCookieByte, IsCookieByte-append, trim-none,
}
use ocserv_rs.Auth.Sso.Shared.{Surroundings, by_id, saml_cookie, final_token}
use ocserv_rs.Auth.Sso.Laws.{created}

-- A byte that a token may have: one of a cookie, and no equals sign.
abbrev pub IsTokenByte : ℕ → Type 0
IsTokenByte c = IsCookieByte c × (c ≢ b'=')

All-cookie : (s : Text) → All IsTokenByte s → All IsCookieByte s
All-cookie [] h = tt
All-cookie (c ∷ s) ((h, n), hs) = (h, All-cookie s hs)

pub IsTokenByte-Lacks : (s : Text) → All IsTokenByte s → Lacks b'=' s
IsTokenByte-Lacks [] h = tt
IsTokenByte-Lacks (c ∷ s) ((h, n), hs) = (n, IsTokenByte-Lacks s hs)

abbrev pub cookie_of : Text → Text
cookie_of token = text "acSamlv2Token=" ++ token

cookie_of-IsCookieByte : (token : Text) → All IsTokenByte token → All IsCookieByte (cookie_of token)
unfolding text is_space
cookie_of-IsCookieByte token h =
    IsCookieByte-append (text "acSamlv2Token=") token
      (clean-IsCookieByte (text "acSamlv2Token=") refl) (All-cookie token h)

name_part :
    (token : Text)
    → All IsTokenByte token
    → split b'=' (cookie_of token) ≡ text "acSamlv2Token" ∷ token ∷ []
unfolding text
name_part token h =
    split-two b'=' (text "acSamlv2Token") token (lacks-Lacks b'=' (text "acSamlv2Token") refl)
      (IsTokenByte-Lacks token h)

is_named : (token : Text) → starts_with (text "acSamlv2Token=") (cookie_of token) ≡ true
unfolding text starts_with
is_named token = refl

-- The page reads the token from the cookie of the login, if it has no semicolon, white space or
-- equals sign.
pub saml_cookie_lem :
    (req : HttpRequest) (token : Text)
    → All IsTokenByte token
    → header req (text "cookie") ≡ some (cookie_of token)
    → saml_cookie req ≡ token
unfolding saml_cookie find_first
saml_cookie_lem req token h e =
    let whole = cookie_of-IsCookieByte token h in
    rw
      (
        e,
        split-one b';' (cookie_of token) (IsCookieByte-Lacks (cookie_of token) whole),
        trim-none (cookie_of token) whole,
        is_named token,
        name_part token h,
      )
      refl

-- The page of a session that is made with an id and a token that are new shows what its context makes
-- of the token.
pub final_token-created :
    (w : Surroundings) (info : UserInfo) (ctx : Option Text) (s : LoginState)
    → get_session w.drawn_id s.sessions ≡ none
    → get_session_by_token w.drawn_token s.sessions ≡ none
    → final_token w w.drawn_token (created w info ctx s)
      ≡ by_id w ctx w.drawn_token (created w info ctx s)
unfolding final_token new_session
final_token-created w info ctx s h k =
    let (_, found) =
      create_session_fresh w.drawn_id w.drawn_token w.now info ctx s.sessions w.drawn_id
        w.drawn_token h k in
    rw (found, eq_refl w.drawn_token) refl
