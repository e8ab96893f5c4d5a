-- ===== src/Auth/Sso/OAuth2Flow.antt =====
-- src/auth/sso/oauth2.rs: what becomes of the context's id in a login by OAuth2.
use ocserv_rs.Base.{◌≡◌, refl, some, [], ◌∷◌, ◌++◌, find_first}
use ocserv_rs.Base.Text.{Text, text}
use ocserv_rs.Base.Eq.{bytes_eq, list_beq}
use ocserv_rs.Http.Request.{HttpRequest}
use ocserv_rs.Auth.Sso.Shared.{Surroundings, query_part}
use ocserv_rs.Http.Response.{HttpResponse}
use ocserv_rs.Auth.Sso.OAuth2.{query_ctx}

-- The login takes the context's id out of the state of the link, and sends the bare id as its own.
pub query_ctx_lem :
    (w : Surroundings) (req : HttpRequest) (query id : Text)
    → query_part req ≡ some query
    → w.form_urlencoded query ≡ (text "state", text "ctx=" ++ id) ∷ []
    → w.form_urlencoded (text "ctx=" ++ id) ≡ (text "ctx", id) ∷ []
    → query_ctx w req ≡ some id
unfolding query_ctx find_first text list_beq
query_ctx_lem w req query id q e k = rw (q, e, k) refl

-- How a text ends.
abbrev pub IsSuffix : Text → Text → Type 0
IsSuffix tail whole = (front : Text) × (front ++ tail ≡ whole)

-- The answer to a login with the id of a context: a redirection to the provider with a state.
abbrev pub RedirectsWith : Text → HttpResponse → Type 0
RedirectsWith state response =
    (response.status_code ≡ 302)
    × ((url : Text) × (response.headers ≡ (text "Location", url) ∷ [])
        × IsSuffix (text "&state=" ++ state) url)
