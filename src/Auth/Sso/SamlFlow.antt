-- ===== src/Auth/Sso/SamlFlow.antt =====
-- src/auth/sso/saml.rs: a login by SAML, from the link with the context's id to the page with the
-- token.
use ocserv_rs.Base.{ℕ, ◌≡◌, refl, Option, none, some, true, [], ◌∷◌, ◌++◌, find_first}
use ocserv_rs.Base.Text.{Text, text, split, starts_with}
use ocserv_rs.Base.Split.{Lacks, lacks-Lacks, split_from-one, split-one, split-two}
use ocserv_rs.Base.Eq.{bytes_eq, eq_refl}
use ocserv_rs.Base.HashMap.{get}
use ocserv_rs.Config.{SamlAuthConfig}
use ocserv_rs.Crypto.Hpke
use ocserv_rs.Auth.Session.{new_session, get_session, get_session_by_token}
use ocserv_rs.Auth.Session.Fresh.{create_session_fresh}
use ocserv_rs.Http.Request.{HttpRequest, parse_form}
use ocserv_rs.Http.State.{LoginState}
use ocserv_rs.Auth.Sso.Shared.{Surroundings, or_default, path_part, query_part, query_value}
use ocserv_rs.Auth.Sso.Saml.{handle, handle_login, handle_acs, relay_ctx, login_url, saml_user}
use ocserv_rs.Auth.Sso.Laws.{created}

-- The id of a context has none of the characters that part a URL's query.
abbrev pub IsId : Text → Type 0
IsId id = Lacks b'?' id × Lacks b'&' id × Lacks b'=' id

Lacks-append : (sep : ℕ) (s t : Text) → Lacks sep s → Lacks sep t → Lacks sep (s ++ t)
Lacks-append sep [] t h k = k
Lacks-append sep (c ∷ s) t (h, hs) k = (h, Lacks-append sep s t hs k)

abbrev login_path : Text
login_path = text "/+CSCOE+/saml/sp/login"

parted : (id : Text) → login_url [] (some id) ≡ login_path ++ b'?' ∷ (text "ctx=" ++ id)
unfolding login_url text
parted id = refl

path_parts :
    (id : Text)
    → Lacks b'?' id
    → split b'?' (login_url [] (some id)) ≡ login_path ∷ (text "ctx=" ++ id) ∷ []
unfolding text
path_parts id h = rw (parted id) (
    split-two b'?' login_path (text "ctx=" ++ id) (lacks-Lacks b'?' login_path refl)
      (Lacks-append b'?' (text "ctx=") id (lacks-Lacks b'?' (text "ctx=") refl) h))

is_ctx : (id : Text) → starts_with (text "ctx=") (text "ctx=" ++ id) ≡ true
unfolding text starts_with
is_ctx id = refl

module _ (req : HttpRequest) (id : Text) (e : req.path ≡ login_url [] (some id)) (h : IsId id) where
  login_path_part : path_part req ≡ login_path
  unfolding path_part
  login_path_part = rw (e, path_parts id h.0) refl

  ctx_value : query_value (text "ctx=") req ≡ some id
  unfolding query_value query_part find_first text
  ctx_value =
      rw
        (
          e,
          path_parts id h.0,
          split-one b'&' (text "ctx=" ++ id)
              (Lacks-append b'&' (text "ctx=") id (lacks-Lacks b'&' (text "ctx=") refl) h.1),
          is_ctx id,
          split_from-one b'=' [] id h.2,
        )
        refl

  -- The link that a client is sent to leads to the login with the context's id, if that has no
  -- question mark, ampersand or equals sign.
  pub handle-login_url :
      (w : Surroundings) (c : SamlAuthConfig) (s : LoginState)
      → handle w c req s ≡ (s, handle_login w c (some id))
  unfolding handle
  handle-login_url w c s = rw (login_path_part, ctx_value, eq_refl login_path) refl

module _ (w : Surroundings) (req : HttpRequest) (s : LoginState) (response : Text)
    (sent : get (text "SAMLResponse") (parse_form w.url_decode req) ≡ some response)
    (new_id : get_session w.drawn_id s.sessions ≡ none)
    (new_token : get_session_by_token w.drawn_token s.sessions ≡ none) where
  abbrev relayed_ctx : Option Text
  relayed_ctx = relay_ctx w (or_default (get (text "RelayState") (parse_form w.url_decode req)) [])

  acs_creates : (handle_acs w req s).0 ≡ created w saml_user relayed_ctx s
  unfolding handle_acs
  acs_creates = rw sent refl

  -- Whatever the response says that is posted to the provider, even one that nobody has signed, the
  -- token drawn, if it and the id are new, then opens a session of the user of SAML.
  pub any_response_opens :
      get_session_by_token w.drawn_token (handle_acs w req s).0.sessions
      ≡ some (new_session w.drawn_id w.drawn_token w.now saml_user relayed_ctx)
  any_response_opens =
      let (_, found) =
        create_session_fresh w.drawn_id w.drawn_token w.now saml_user relayed_ctx s.sessions
          w.drawn_id w.drawn_token new_id new_token in
      rw acs_creates (rw (found, eq_refl w.drawn_token) refl)
