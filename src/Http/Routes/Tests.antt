-- ===== src/Http/Routes/Tests.antt =====
-- Requests to a server with one user.
use ocserv_rs.Base.{◌≡◌, refl, []}
use ocserv_rs.Base.Text.{text, split}
use ocserv_rs.Base.Eq.{bytes_eq}
use ocserv_rs.Http.Request.{HttpRequest}
use ocserv_rs.Http.State.{LoginState}
use ocserv_rs.Auth.Sso.Shared.{path_part}
use ocserv_rs.Http.Routes.{handle_http_request}
use ocserv_rs.Http.Routes.Laws.{IsAnswered, handle_http_request-IsLoggedIn}
use ocserv_rs.Http.Routes.Sample.{site}

abbrev login : HttpRequest
login = record {
  method = text "POST";
  path = text "/auth?x=1";
  version = 1;
  headers = [];
  body = text "username=a&password=p";
}

login_path : path_part login ≡ text "/auth"
unfolding path_part split text
login_path = refl

abbrev empty : LoginState
empty = record { sessions = []; hpke_contexts = [] }

handle_http_request-IsLoggedIn_example :
    IsAnswered site login empty (handle_http_request site login empty)
handle_http_request-IsLoggedIn_example = handle_http_request-IsLoggedIn site login empty
