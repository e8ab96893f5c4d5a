-- ===== src/Auth/Session.antt =====
-- src/auth/session.rs: the sessions of authenticated users. What the code draws at random, the id
-- and the token, is an argument; an `Instant` is a number of nanoseconds.
pub mod Laws
pub mod Fresh
mod Tests
use ocserv_rs.Base.{ℕ, Option, none, some, List, [], ◌∷◌, map, find_first, if◌then◌else◌}
use ocserv_rs.Base.Text.{Text}
use ocserv_rs.Base.Eq.{◌==◌, bytes_eq}
use ocserv_rs.Base.HashMap
use ocserv_rs.Base.HashMap.{HashMap}
use ocserv_rs.Auth.User.{UserInfo}

-- `std::net::SocketAddr` by its printed form.
abbrev pub SocketAddr : Type 0
SocketAddr = Text

pub record VpnSession : Type 0 where
  pub session_id : Text
  pub session_token : Text
  pub hpke_ctx_id : Option Text
  pub user_info : UserInfo
  pub created_at : ℕ
  pub vpn_ip : Option Text
  pub remote_ip : Option SocketAddr
  pub user_agent : Option Text
  pub connected_at : Option ℕ

abbrev pub Sessions : Type 0
Sessions = HashMap Text VpnSession

-- `values()`.
unfoldable pub values : Sessions → List VpnSession
values [] = []
values ((k, s) ∷ m) = s ∷ values m

-- The session that `create_session` makes; the id and the token are those drawn.
unfoldable pub new_session : Text → Text → ℕ → UserInfo → Option Text → VpnSession
new_session session_id session_token now user_info hpke_ctx_id = record {
  session_id = session_id;
  session_token = session_token;
  hpke_ctx_id = hpke_ctx_id;
  user_info = user_info;
  created_at = now;
  vpn_ip = none;
  remote_ip = none;
  user_agent = none;
  connected_at = none;
}

unfoldable pub create_session :
    Text → Text → ℕ → UserInfo → Option Text → Sessions → Sessions × VpnSession
create_session session_id session_token now user_info hpke_ctx_id m =
    let s = new_session session_id session_token now user_info hpke_ctx_id in
    (HashMap.insert session_id s m, s)

unfoldable pub get_session : Text → Sessions → Option VpnSession
get_session session_id m = HashMap.get session_id m

unfoldable pub get_session_by_token : Text → Sessions → Option VpnSession
unfolding find_first values
get_session_by_token token m = find_first (λ s. s.session_token == token) (values m)

unfoldable pub remove_session : Text → Sessions → Sessions
remove_session session_id m = HashMap.remove session_id m

-- `values_mut().find(…)` with a change of the session found.
unfoldable pub update_by_token : (VpnSession → VpnSession) → Text → Sessions → Sessions
update_by_token f token [] = []
update_by_token f token ((k, s) ∷ m) =
    if s.session_token == token then (k, f s) ∷ m else (k, s) ∷ update_by_token f token m

unfoldable pub connect : Text → SocketAddr → Text → ℕ → VpnSession → VpnSession
connect vpn_ip remote_ip user_agent now s = record s {
  vpn_ip = some vpn_ip;
  remote_ip = some remote_ip;
  user_agent = some user_agent;
  connected_at = some now;
}

unfoldable pub disconnect : VpnSession → VpnSession
disconnect s = record s { vpn_ip = none; remote_ip = none; user_agent = none; connected_at = none }

unfoldable pub register_tunnel : Text → Text → SocketAddr → Text → ℕ → Sessions → Sessions
unfolding update_by_token connect
register_tunnel token vpn_ip remote_ip user_agent now m =
    update_by_token (connect vpn_ip remote_ip user_agent now) token m

unfoldable pub unregister_tunnel : Text → Sessions → Sessions
unfolding update_by_token disconnect
unregister_tunnel token m = update_by_token disconnect token m
