-- ===== src/Auth/Sso/Laws.antt =====
-- Who gets a session by an SSO provider.
use ocserv_rs.Base.{
  ◌≡◌, ◌⊎◌, inl, inr, refl, Option, none, some, Bool, true, false, not, ◌&&◌, [], if◌then◌else◌,
}
use ocserv_rs.Base.Text.{Text, text}
use ocserv_rs.Base.Branch.{holds, Holds-holds, branch}
use ocserv_rs.Base.Eq.{◌==◌, bytes_eq}
use ocserv_rs.Base.HashMap.{HashMap, get}
use ocserv_rs.Config.{SamlAuthConfig, OAuth2Config}
use ocserv_rs.Auth.User.{UserInfo}
use ocserv_rs.Auth.Provider.{SsoProvider, saml, oauth2}
use ocserv_rs.Auth.Session.{create_session}
use ocserv_rs.Http.Request.{HttpRequest, parse_form}
use ocserv_rs.Http.Response.{HttpResponse, not_found}
use ocserv_rs.Http.State.{LoginState}
use ocserv_rs.Auth.Sso
use ocserv_rs.Auth.Sso.Shared.{
  Surroundings, Exchange, blocked, no_client, refused, unreadable, failed, token_data, or_default,
  path_part, query_part,
}
use ocserv_rs.Auth.Sso.Saml
use ocserv_rs.Auth.Sso.Saml.{saml_user, handle_acs, relay_ctx, accepted}
use ocserv_rs.Auth.Sso.OAuth2
use ocserv_rs.Auth.Sso.OAuth2.{
  collect, username_of, oauth2_user, exchange_form, shows_code, state_ctx, exchanged, with_code,
  handle_callback,
}

module _ (w : Surroundings) where
  -- The state with the session that is made for a user.
  abbrev pub created : UserInfo → Option Text → LoginState → LoginState
  created info ctx s = record s {
    sessions = (create_session w.drawn_id w.drawn_token w.now info ctx s.sessions).0;
  }

  abbrev pub params_of : HttpRequest → HashMap Text Text
  params_of req = collect [] (w.form_urlencoded (or_default (query_part req) []))

  -- What a provider asks for before it lets a user in.
  abbrev pub IsVouched : SsoProvider → HttpRequest → UserInfo → Type 0
  IsVouched (saml c) req info =
      (info ≡ saml_user)
      × ((response : Text) × (get (text "SAMLResponse") (parse_form w.url_decode req)
            ≡ some response))
  IsVouched (oauth2 c) req info =
      (code : Text) × (json : Text) × (get (text "code") (params_of req) ≡ some code)
      × (w.post_form c.token_url (exchange_form c code) ≡ token_data json)
      × (info ≡ oauth2_user (username_of w json))

  abbrev pub IsSsoLogin : SsoProvider → HttpRequest → LoginState → LoginState → Type 0
  IsSsoLogin p req s after =
      (after ≡ s)
      ⊎ ((info : UserInfo) × (ctx : Option Text) × IsVouched p req info
          × (after ≡ created info ctx s))

  -- The same of an answer, if there is one.
  abbrev pub AnswersBy :
      SsoProvider → HttpRequest → LoginState → Option (LoginState × HttpResponse) → Type 0
  AnswersBy p req s none = Unit
  AnswersBy p req s (some (after, response)) = IsSsoLogin p req s after

  accepted-IsSsoLogin :
      (c : SamlAuthConfig) (req : HttpRequest) (o : Option Text) (s : LoginState)
      → get (text "SAMLResponse") (parse_form w.url_decode req) ≡ o
      → IsSsoLogin (saml c) req s (accepted w (parse_form w.url_decode req) o s).0
  accepted-IsSsoLogin c req none s e = inl refl
  accepted-IsSsoLogin c req (some response) s e = inr (
    saml_user,
    relay_ctx w (or_default (get (text "RelayState") (parse_form w.url_decode req)) []),
    (refl, (response, e)),
    refl,
  )

  handle_acs-IsSsoLogin :
      (c : SamlAuthConfig) (req : HttpRequest) (s : LoginState)
      → IsSsoLogin (saml c) req s (handle_acs w req s).0
  unfolding handle_acs
  handle_acs-IsSsoLogin c req s =
      accepted-IsSsoLogin c req (get (text "SAMLResponse") (parse_form w.url_decode req)) s refl

  exchanged-IsSsoLogin :
      (c : OAuth2Config) (req : HttpRequest) (code : Text) (state : Option Text) (x : Exchange)
      (s : LoginState)
      → get (text "code") (params_of req) ≡ some code
      → w.post_form c.token_url (exchange_form c code) ≡ x
      → AnswersBy (oauth2 c) req s (exchanged w state x s)
  exchanged-IsSsoLogin c req code state blocked s e k = tt
  exchanged-IsSsoLogin c req code state no_client s e k = inl refl
  exchanged-IsSsoLogin c req code state refused s e k = inl refl
  exchanged-IsSsoLogin c req code state unreadable s e k = inl refl
  exchanged-IsSsoLogin c req code state failed s e k = inl refl
  exchanged-IsSsoLogin c req code state (token_data json) s e k =
      inr (oauth2_user (username_of w json), state_ctx w state, (code, json, e, k, refl), refl)

  with_code-IsSsoLogin :
      (c : OAuth2Config) (req : HttpRequest) (o state : Option Text) (s : LoginState)
      → get (text "code") (params_of req) ≡ o
      → AnswersBy (oauth2 c) req s (with_code w c o state s)
  with_code-IsSsoLogin c req none state s e = inl refl
  with_code-IsSsoLogin c req (some code) state s e =
      pick_code (w.logs_info && not (shows_code code))
        (exchanged w state (w.post_form c.token_url (exchange_form c code)) s)
        (exchanged-IsSsoLogin c req code state (w.post_form c.token_url (exchange_form c code)) s e
          refl)
    where
      pick_code :
          (b : Bool) (x : Option (LoginState × HttpResponse))
          → AnswersBy (oauth2 c) req s x
          → AnswersBy (oauth2 c) req s (if b then none else x)
      pick_code true x h = tt
      pick_code false x h = h

  -- A provider changes the state in no other way than by adding the session that it draws: SAML for a
  -- fixed user, if the form has a field for the response, whatever its content, and OAuth2 for the
  -- user of the token, if the token endpoint has accepted the code of the query.
  pub handle-IsSsoLogin :
      (p : SsoProvider) (req : HttpRequest) (s : LoginState)
      → AnswersBy p req s (Sso.handle w p req s)
  unfolding Sso.handle Saml.handle OAuth2.handle handle_callback
  handle-IsSsoLogin (saml c) req s =
      let P = λ (r : LoginState × HttpResponse). IsSsoLogin (saml c) req s r.0 in
      Holds-holds P (Saml.handle w c req s) (
        branch P (path_part req == text "/+CSCOE+/saml/sp/login") _ _ (holds P _ (inl refl)) (
          branch P _ _ _ (holds P _ (handle_acs-IsSsoLogin c req s))
            (branch P _ _ _ (holds P _ (inl refl)) (holds P _ (inl refl)))))
  handle-IsSsoLogin (oauth2 c) req s =
      let P = AnswersBy (oauth2 c) req s in
      Holds-holds P (OAuth2.handle w c req s) (
        branch P (path_part req == text "/+CSCOE+/oauth2/login") _ _
          (holds P (some (s, OAuth2.handle_login w c (OAuth2.query_ctx w req))) (inl refl))
          (branch P (path_part req == text "/+CSCOE+/oauth2/callback") _ _
            (holds P (handle_callback w c req s) (
              with_code-IsSsoLogin c req (get (text "code") (params_of req))
                (get (text "state") (params_of req)) s refl))
            (branch P (path_part req == text "/+CSCOE+/oauth2_login.html") _ _
              (holds P (some (s, OAuth2.handle_success w req s)) (inl refl))
              (holds P (some (s, not_found)) (inl refl)))))
