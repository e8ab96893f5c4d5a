-- ===== src/Auth/Sso/Sample.antt =====
-- Surroundings in which every encoding leaves text as it is, for the tests.
use ocserv_rs.Base.{ok, some, none, true, map, [], ◌∷◌, ◌++◌}
use ocserv_rs.Base.Text.{text, split}
use ocserv_rs.Crypto.Hpke.Sample.{crates, iv}
use ocserv_rs.Http.Request.{split_pair}
use ocserv_rs.Auth.Sso.Shared.{Surroundings, token_data}

abbrev pub around : Surroundings
around = record {
  base_url = none;
  crypto = crates;
  server_secret = 2 ∷ [];
  iv_bytes = iv;
  url_encode = λ t. t;
  url_decode = λ t. some t;
  form_urlencoded = λ t. map (split_pair []) (split b'&' t);
  parse_url = λ t. ok t;
  append_pair = λ name value url. url ++ (name ++ value);
  deflate = λ t. ok t;
  base64_url_decode = λ t. some t;
  json_parse = λ t. some t;
  json_get = λ json name. some json;
  json_as_str = λ t. some t;
  post_form = λ url form. token_data (text "a.b.c");
  render_saml_ac_login = λ t. ok t;
  render_mock_idp_login = λ request state. ok state;
  drawn_uuid = 55 ∷ [];
  issue_instant = [];
  drawn_id = 49 ∷ [];
  drawn_token = 65 ∷ 66 ∷ [];
  now = 5;
  logs_info = true;
}
