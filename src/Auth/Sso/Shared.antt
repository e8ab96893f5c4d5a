-- ===== src/Auth/Sso/Shared.antt =====
-- src/auth/sso: what the providers share: their surroundings, the reading of a query, and the page
-- that hands the token to the client, which both of them write out.
use ocserv_rs.Base.{
  ℕ, Result, ok, err, Option, none, some, Bool, List, [], ◌++◌, get_elem?, find_first,
}
use ocserv_rs.Base.Text.{Text, Bytes, text, split, starts_with, trim}
use ocserv_rs.Base.Eq.{◌==◌, bytes_eq}
use ocserv_rs.Crypto.Hpke.{Crates, HpkeContext, encrypt_token}
use ocserv_rs.Auth.Session.{VpnSession, get_session_by_token}
use ocserv_rs.Http.Request.{HttpRequest, header}
use ocserv_rs.Http.Response.{HttpResponse, new, with_header}
use ocserv_rs.Http.State.{LoginState, get_hpke_context}

-- How an exchange with the token endpoint of an OAuth2 provider ends, with its JSON if that can be
-- read. The blocking client of the crate reqwest may panic on a thread that must not block.
pub data Exchange : Type 0 where
  blocked no_client refused unreadable failed : Exchange
  token_data : Text → Exchange

-- What the providers take from their surroundings: the base URL of the configuration, the crates
-- (an URL by its text, a JSON value by its text), the other end of a token exchange, and what is drawn
-- for a request. `logs_info` is whether messages of that level are written.
pub record Surroundings : Type 0 where
  pub base_url : Option Text
  pub crypto : Crates
  pub server_secret : Bytes
  pub iv_bytes : Bytes
  pub url_encode : Text → Text
  pub url_decode : Text → Option Text
  pub form_urlencoded : Text → List (Text × Text)
  pub parse_url : Text → Result Text Text
  pub append_pair : Text → Text → Text → Text
  pub deflate : Text → Result Text Bytes
  pub base64_url_decode : Text → Option Bytes
  pub json_parse : Text → Option Text
  pub json_get : Text → Text → Option Text
  pub json_as_str : Text → Option Text
  pub post_form : Text → List (Text × Text) → Exchange
  pub render_saml_ac_login : Text → Result Text Text
  pub render_mock_idp_login : Text → Text → Result Text Text
  pub drawn_uuid : Text
  pub issue_instant : Text
  pub drawn_id : Text
  pub drawn_token : Text
  pub now : ℕ
  pub logs_info : Bool

abbrev pub and_then {ℓ κ} : {A : Type ℓ} {B : Type κ} → Option A → (A → Option B) → Option B
and_then none f = none
and_then (some a) f = f a

abbrev pub or_default {ℓ} : {A : Type ℓ} → Option A → A → A
or_default none d = d
or_default (some a) d = a

-- `split('?').next()` and `split('?').nth(1)`.
unfoldable pub path_part : HttpRequest → Text
unfolding split
path_part req = or_default (get_elem? (split b'?' req.path) 0) []

unfoldable pub query_part : HttpRequest → Option Text
unfolding split
query_part req = get_elem? (split b'?' req.path) 1

-- The part of a query that starts with `name`, which ends with `=`, up to the next `=`.
unfoldable pub query_value : Text → HttpRequest → Option Text
unfolding query_part split find_first
query_value name req =
    and_then (query_part req)
      λ q. and_then (find_first (starts_with name) (split b'&' q)) λ p. get_elem? (split b'=' p) 1

-- The first pair of a form with this name.
abbrev pub form_value : Surroundings → Text → Text → Option Text
form_value w name s = and_then (find_first (λ e. e.0 == name) (w.form_urlencoded s)) λ e. some e.1

-- The cookie of a login by SSO.
unfoldable pub saml_cookie : HttpRequest → Text
unfolding split find_first trim
saml_cookie req =
    or_default
      (and_then (header req (text "cookie")) λ v.
        and_then (find_first (λ p. starts_with (text "acSamlv2Token=") (trim p)) (split b';' v))
          λ p. get_elem? (split b'=' p) 1)
      []

abbrev pub encrypted_or : Result Text Text → Text → Text
encrypted_or (ok encrypted) token = encrypted
encrypted_or (err e) token = token

abbrev pub by_context : Surroundings → Option HpkeContext → Text → Text
by_context w none token = token
by_context w (some ctx) token =
    encrypted_or (encrypt_token w.crypto w.server_secret w.iv_bytes ctx token) token

abbrev pub by_id : Surroundings → Option Text → Text → LoginState → Text
by_id w none token s = token
by_id w (some hpke_id) token s = by_context w (get_hpke_context hpke_id s) token

abbrev pub by_session : Surroundings → Option VpnSession → Text → LoginState → Text
by_session w none token s = token
by_session w (some session) token s = by_id w session.hpke_ctx_id token s

-- The token that the page shows: encrypted if its session has an HPKE context.
unfoldable pub final_token : Surroundings → Text → LoginState → Text
unfolding get_hpke_context
final_token w token s = by_session w (get_session_by_token token s.sessions) token s

-- `header` and `body_str` of the answer to a login.
unfoldable pub found_with_token : Text → Text → HttpResponse
found_with_token location token =
    with_header (text "Set-Cookie")
      (text "acSamlv2Token=" ++ (token ++ text "; path=/; Secure; HttpOnly"))
      (with_header (text "Location") location (new 302 (text "Found")))
