-- ===== src/Http/Routes/Sample.antt =====
-- A server with one user, for the tests.
use ocserv_rs.Base.{some, none, true, ok, [], ◌∷◌}
use ocserv_rs.Base.Eq.{bytes_eq}
use ocserv_rs.Auth.Sso.Sample.{around}
use ocserv_rs.Config.{default_saml}
use ocserv_rs.Http.Routes.{Site}

abbrev pub site : Site
site = record {
  handlers = record {
    auth_manager = record {
      password_provider = some (record { enabled = true; users = (97 ∷ [], 112 ∷ []) ∷ [] });
      sso_provider = none;
    };
    cert_hash = [];
    banner = none;
    parse_xml = λ t. none;
    render = λ t. ok [];
    around = around;
  };
  saml = default_saml;
}
