-- ===== src/Http/Routes/Laws.antt =====
-- What a request may do to the state of the logins.
use ocserv_rs.Base.{
  ◌≡◌, ◌⊎◌, inl, inr, refl, Option, none, some, Bool, true, false, ◌||◌, [], if◌then◌else◌,
}
use ocserv_rs.Base.Text.{Text, text}
use ocserv_rs.Base.Utf8.{from_utf8_lossy}
use ocserv_rs.Base.Branch.{Holds, holds, Holds-holds, branch}
use ocserv_rs.Base.Eq.{◌==◌, bytes_eq}
use ocserv_rs.Base.HashMap.{get}
use ocserv_rs.Auth.Provider.{SsoProvider}
use ocserv_rs.Auth.Sso
use ocserv_rs.Auth.Sso.{routes}
use ocserv_rs.Auth.Sso.Shared.{path_part}
use ocserv_rs.Auth.Sso.Laws.{IsSsoLogin, AnswersBy, handle-IsSsoLogin}
use ocserv_rs.Http.State.{LoginState}
use ocserv_rs.Http.Request.{HttpRequest, parse_form}
use ocserv_rs.Http.Response.{HttpResponse}
use ocserv_rs.Http.Login.{handle_auth_init, handle_form_auth, handle_xml_auth}
use ocserv_rs.Http.Login.Laws.{user_of, pass_of, IsLogin, handlers-IsLogin, handle_auth_init-IsKept}
use ocserv_rs.Http.Routes.{
  Site, has_route, get_page, handle_get, handle_post, by_method, by_provider, handle_http_request,
}

module _ (site : Site) (req : HttpRequest) (m : LoginState) where
  -- The state after a request: as it was but for a context, or as by a login with the credentials of
  -- its form or its document.
  abbrev pub IsLoggedIn : LoginState → Type 0
  IsLoggedIn after =
      let form = parse_form site.handlers.around.url_decode req in
      let config = site.handlers.parse_xml (from_utf8_lossy req.body) in
      IsLogin site.handlers req (get (text "username") form) (get (text "password") form) m after
      ⊎ IsLogin site.handlers req (user_of config) (pass_of config) m after

  -- As by a login of the provider, if the path is one of its routes.
  abbrev pub IsLoggedInBy : Option SsoProvider → LoginState → Type 0
  IsLoggedInBy none after = ⊥
  IsLoggedInBy (some p) after =
      (has_route (routes p) req.method (path_part req) ≡ true)
      × IsSsoLogin site.handlers.around p req m after

  -- What an answer, if there is one, leaves.
  abbrev pub IsAnswered : Option (LoginState × HttpResponse) → Type 0
  IsAnswered none = Unit
  IsAnswered (some (after, response)) =
      IsLoggedIn after ⊎ IsLoggedInBy site.handlers.auth_manager.sso_provider after

  -- The same of a value, to be proved branch by branch.
  abbrev Keeps : LoginState × HttpResponse → Type 0
  Keeps r = IsLoggedIn r.0

  same : IsLoggedIn m
  same = inl (inl (inl refl))

  init-IsLoggedIn : IsLoggedIn (handle_auth_init site.handlers req m).0
  init-IsLoggedIn = inl (inl (handle_auth_init-IsKept site.handlers req m))

  unchanged : (response : HttpResponse) → Holds Keeps (m, response)
  unchanged response = holds Keeps (m, response) same

  handle_get-IsLoggedIn : (path : Text) → IsLoggedIn (handle_get site path req m).0
  unfolding handle_get
  handle_get-IsLoggedIn path = Holds-holds Keeps (handle_get site path req m) (
      branch Keeps (path == text "/" || path == []) (handle_auth_init site.handlers req m) _
        (holds Keeps _ init-IsLoggedIn) (unchanged (get_page site path req)))

  handle_post-IsLoggedIn : (path : Text) → IsLoggedIn (handle_post site path req m).0
  unfolding handle_post
  handle_post-IsLoggedIn path =
      let (form, xml) = handlers-IsLogin site.handlers req m in
      let by_form = holds Keeps (handle_form_auth site.handlers req m) (inl form) in
      let by_xml = holds Keeps (handle_xml_auth site.handlers req m) (inr xml) in
      Holds-holds Keeps (handle_post site path req m) (
        branch Keeps (path == text "/dev/idp") _ _ (unchanged _) (
          branch Keeps (path == text "/" || path == []) _ _
            (branch Keeps _ _ _ by_xml (branch Keeps _ _ _ by_form (holds Keeps _ init-IsLoggedIn)))
            (branch Keeps (path == text "/auth") _ _ (branch Keeps _ _ _ by_xml by_form)
              (unchanged _))))

  by_method-IsLoggedIn : IsLoggedIn (by_method site req m).0
  unfolding by_method
  by_method-IsLoggedIn = Holds-holds Keeps (by_method site req m) (
      branch Keeps (req.method == text "GET") _ _
        (holds Keeps (handle_get site (path_part req) req m)
          (handle_get-IsLoggedIn (path_part req)))
        (branch Keeps (req.method == text "POST") _ _
          (holds Keeps (handle_post site (path_part req) req m)
            (handle_post-IsLoggedIn (path_part req)))
          (unchanged _)))

  routed-IsAnswered :
      (p : SsoProvider) (b : Bool) (x : Option (LoginState × HttpResponse))
      → site.handlers.auth_manager.sso_provider ≡ some p
      → has_route (routes p) req.method (path_part req) ≡ b
      → AnswersBy site.handlers.around p req m x
      → IsAnswered (if b then x else some (by_method site req m))
  routed-IsAnswered p true none e k h = tt
  routed-IsAnswered p true (some (after, response)) e k h = rw e (inr (k, h))
  routed-IsAnswered p false x e k h = inl by_method-IsLoggedIn

  by_provider-IsAnswered :
      (o : Option SsoProvider)
      → site.handlers.auth_manager.sso_provider ≡ o
      → IsAnswered (by_provider site o req m)
  by_provider-IsAnswered none e = inl by_method-IsLoggedIn
  by_provider-IsAnswered (some p) e =
      routed-IsAnswered p (has_route (routes p) req.method (path_part req))
        (Sso.handle site.handlers.around p req m) e refl
        (handle-IsSsoLogin site.handlers.around p req m)

  -- A request that is answered changes the state of the logins in one of three ways only: it stores an
  -- HPKE context, made of the key in its header, under the id drawn; it adds the session drawn, for the
  -- user of credentials, of its form or its document, that the manager accepts; or, on a route of the
  -- SSO provider, it does what a login by that provider does.
  pub handle_http_request-IsLoggedIn : IsAnswered (handle_http_request site req m)
  unfolding handle_http_request
  handle_http_request-IsLoggedIn =
      by_provider-IsAnswered site.handlers.auth_manager.sso_provider refl
