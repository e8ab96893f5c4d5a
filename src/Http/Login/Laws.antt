-- ===== src/Http/Login/Laws.antt =====
-- Who gets a session by a login.
use ocserv_rs.Base.{
  ◌≡◌, ◌⊎◌, inl, inr, refl, Option, none, some, Bool, true, false, Result, ok, err, if◌then◌else◌,
}
use ocserv_rs.Base.Text.{Text, text}
use ocserv_rs.Base.Utf8.{from_utf8_lossy}
use ocserv_rs.Base.Eq.{bytes_eq}
use ocserv_rs.Base.HashMap.{HashMap, get}
use ocserv_rs.Crypto.Hpke
use ocserv_rs.Crypto.Hpke.{HpkeContext, set_client_dh_pubkey}
use ocserv_rs.Http.State.{LoginState, store_hpke_context}
use ocserv_rs.Protocol.Dtd.{ConfigAuth}
use ocserv_rs.Auth.User.{UserInfo, AuthError}
use ocserv_rs.Auth.Provider.{SsoProvider, sso_enabled, password, authenticate}
use ocserv_rs.Auth.Session.{VpnSession, create_session}
use ocserv_rs.Http.Request.{HttpRequest, header, parse_form}
use ocserv_rs.Http.Response.{HttpResponse}
use ocserv_rs.Http.Login.{
  is_init, Handlers, store_context, hpke_ctx_id, sso_form, login_form, answer, handle_auth_init,
  log_in, form_credentials, form_fields, handle_form_auth, first_field, xml_credentials, xml_blocks,
  xml_document, handle_xml_auth,
}

-- The credentials of a document.
abbrev pub user_of : Option ConfigAuth → Option Text
user_of none = none
user_of (some config) = first_field (λ a. a.username) config.auth

abbrev pub pass_of : Option ConfigAuth → Option Text
pass_of none = none
pass_of (some config) = first_field (λ a. a.password) config.auth

module _ (h : Handlers) (req : HttpRequest) where
  -- The state with the session that is made for a user.
  abbrev pub created : UserInfo → LoginState → LoginState
  created info m = record m {
    sessions =
        (create_session h.around.drawn_id h.around.drawn_token h.around.now info none m.sessions).0;
  }

  -- No more than a new HPKE context under the id drawn for it, made of the key that the request sends.
  abbrev pub IsKept : LoginState → LoginState → Type 0
  IsKept m after =
      (after ≡ m)
      ⊎ ((key : Text) × (ctx : HpkeContext) × (header req (text "X-AnyConnect-STRAP-DH-Pubkey")
            ≡ some key)
          × (set_client_dh_pubkey h.around.crypto key Hpke.new ≡ ok ctx)
          × (after ≡ store_hpke_context h.around.drawn_uuid ctx m))

  -- What a login with these credentials may do to the state.
  abbrev pub IsLogin : Option Text → Option Text → LoginState → LoginState → Type 0
  IsLogin user pass m after =
      IsKept m after
      ⊎ ((u : Text) × (p : Text) × (info : UserInfo) × (user ≡ some u)
          × (pass ≡ some p)
          × (authenticate h.auth_manager (password u p) ≡ ok info)
          × (after ≡ created info m))

  kept : (m : LoginState) → IsKept m m
  kept m = inl refl

  store_context-IsKept :
      (key : Text) (r : Result Text HpkeContext) (m : LoginState)
      → header req (text "X-AnyConnect-STRAP-DH-Pubkey") ≡ some key
      → set_client_dh_pubkey h.around.crypto key Hpke.new ≡ r
      → IsKept m (store_context h r m).0
  store_context-IsKept key (err e) m sent made = inl refl
  store_context-IsKept key (ok ctx) m sent made = inr (key, ctx, sent, made, refl)

  hpke_ctx_id-IsKept :
      (o : Option Text) (m : LoginState)
      → header req (text "X-AnyConnect-STRAP-DH-Pubkey") ≡ o
      → IsKept m (hpke_ctx_id h o m).0
  unfolding hpke_ctx_id
  hpke_ctx_id-IsKept none m sent = inl refl
  hpke_ctx_id-IsKept (some key) m sent =
      store_context-IsKept key (set_client_dh_pubkey h.around.crypto key Hpke.new) m sent refl

  either :
      (m : LoginState) (b : Bool) (x y : LoginState × HttpResponse)
      → IsKept m x.0
      → IsKept m y.0
      → IsKept m (if b then x else y).0
  either m true x y a b = a
  either m false x y a b = b

  login_form-IsKept : (o : Option SsoProvider) (m : LoginState) → IsKept m (login_form h o req m).0
  unfolding login_form sso_form
  login_form-IsKept none m = inl refl
  login_form-IsKept (some sso) m =
      either m (sso_enabled sso) _ _
        (hpke_ctx_id-IsKept (header req (text "X-AnyConnect-STRAP-DH-Pubkey")) m refl) (inl refl)

  answer-IsKept : (o : Option VpnSession) (m : LoginState) → IsKept m (answer h o req m).0
  unfolding answer
  answer-IsKept none m = login_form-IsKept h.auth_manager.sso_provider m
  answer-IsKept (some s) m = inl refl

  -- The first answer of a login leaves the sessions as they are.
  pub handle_auth_init-IsKept : (m : LoginState) → IsKept m (handle_auth_init h req m).0
  unfolding handle_auth_init
  handle_auth_init-IsKept m = either m _ _ _ (inl refl) (answer-IsKept _ m)

  log_in-IsLogin :
      (u p : Text) (r : Result AuthError UserInfo) (m : LoginState)
      → authenticate h.auth_manager (password u p) ≡ r
      → IsLogin (some u) (some p) m (log_in h r m).0
  unfolding log_in
  log_in-IsLogin u p (err x) m e = inl (inl refl)
  log_in-IsLogin u p (ok info) m e = inr (u, p, info, refl, refl, e, refl)

  form_credentials-IsLogin :
      (user pass : Option Text) (m : LoginState)
      → IsLogin user pass m (form_credentials h user pass req m).0
  unfolding form_credentials
  form_credentials-IsLogin (some u) (some p) m =
      log_in-IsLogin u p (authenticate h.auth_manager (password u p)) m refl
  form_credentials-IsLogin none none m = inl (handle_auth_init-IsKept m)
  form_credentials-IsLogin none (some p) m = inl (inl refl)
  form_credentials-IsLogin (some u) none m = inl (inl refl)

  form_fields-IsLogin :
      (token : Option Text) (form : HashMap Text Text) (m : LoginState)
      → IsLogin
          (get (text "username") form)
          (get (text "password") form)
          m
          (form_fields h token form req m).0
  unfolding form_fields
  form_fields-IsLogin (some token) form m = inl (inl refl)
  form_fields-IsLogin none form m =
      form_credentials-IsLogin (get (text "username") form) (get (text "password") form) m

  xml_credentials-IsLogin :
      (user pass : Option Text) (m : LoginState)
      → IsLogin user pass m (xml_credentials h user pass m).0
  unfolding xml_credentials
  xml_credentials-IsLogin (some u) (some p) m =
      log_in-IsLogin u p (authenticate h.auth_manager (password u p)) m refl
  xml_credentials-IsLogin none pass m = inl (inl refl)
  xml_credentials-IsLogin (some u) none m = inl (inl refl)

  xml_blocks-IsLogin :
      (token : Option Text) (config : ConfigAuth) (m : LoginState)
      → IsLogin
          (user_of (some config))
          (pass_of (some config))
          m
          (xml_blocks h token config.auth m).0
  unfolding xml_blocks
  xml_blocks-IsLogin (some token) config m = inl (inl refl)
  xml_blocks-IsLogin none config m =
      xml_credentials-IsLogin (user_of (some config)) (pass_of (some config)) m

  pick :
      (user pass : Option Text) (m : LoginState) (b : Bool) (x y : LoginState × HttpResponse)
      → IsLogin user pass m x.0
      → IsLogin user pass m y.0
      → IsLogin user pass m (if b then x else y).0
  pick user pass m true x y a b = a
  pick user pass m false x y a b = b

  xml_document-IsLogin :
      (config : Option ConfigAuth) (m : LoginState)
      → IsLogin (user_of config) (pass_of config) m (xml_document h config req m).0
  unfolding xml_document
  xml_document-IsLogin none m = inl (inl refl)
  xml_document-IsLogin (some config) m =
      pick (user_of (some config)) (pass_of (some config)) m (is_init config.auth_type) _ _
        (inl (handle_auth_init-IsKept m))
        (xml_blocks-IsLogin (first_field (λ a. a.sso_token) config.auth) config m)

  -- The two login handlers change the state in no other way than by storing an HPKE context, of the
  -- key that the request sends, under the id drawn for it, or by adding the session that they draw for a user, the latter only if the request
  -- has a user name and a password and the manager accepts them.
  pub handlers-IsLogin :
      (m : LoginState)
      → let form = parse_form h.around.url_decode req in
        let config = h.parse_xml (from_utf8_lossy req.body) in
        IsLogin
          (get (text "username") form)
          (get (text "password") form)
          m
          (handle_form_auth h req m).0
        × IsLogin (user_of config) (pass_of config) m (handle_xml_auth h req m).0
  unfolding handle_form_auth handle_xml_auth
  handlers-IsLogin m =
      let form = parse_form h.around.url_decode req in
      (
        form_fields-IsLogin (get (text "sso-token") form) form m,
        xml_document-IsLogin (h.parse_xml (from_utf8_lossy req.body)) m,
      )
