-- ===== src/Auth/Session/Tests.antt =====
-- The session theorems at concrete sessions.
use ocserv_rs.Base.{◌≡◌, ◌≢◌, refl, some, none, [], ◌∷◌, arith, if◌then◌else◌}
use ocserv_rs.Base.Text.{text}
use ocserv_rs.Base.Eq.{◌==◌, bytes_eq, list_beq, list_beq_iff}
use ocserv_rs.Base.HashMap
use ocserv_rs.Auth.User.{plain_user}
use ocserv_rs.Auth.Session.{
  VpnSession, Sessions, new_session, create_session, get_session, get_session_by_token,
  register_tunnel, unregister_tunnel, connect,
}
use ocserv_rs.Auth.Session.Laws.{
  map_some, IsIdle, by_token-register_tunnel, unregister-register_tunnel,
}
use ocserv_rs.Auth.Session.Fresh.{create_session_fresh, create_session_collision}

abbrev ann : VpnSession
unfolding new_session
ann = new_session (text "1") (text "AA") 5 (plain_user (text "ann")) none

abbrev sessions : Sessions
sessions = (text "1", ann) ∷ []

session_tests : Unit {0}
unfolding get_session get_session_by_token create_session new_session HashMap.get HashMap.insert
    list_beq text register_tunnel
session_tests = tt

registered :
    get_session_by_token
      (text "AA")
      (register_tunnel (text "AA") (text "10.0.0.2") (text "1.2.3.4:5") (text "ua") 9 sessions)
    ≡ some (connect (text "10.0.0.2") (text "1.2.3.4:5") (text "ua") 9 ann)
unfolding session_tests
registered = refl

by_token-register_tunnel_example :
    get_session_by_token
      (text "BB")
      (register_tunnel (text "AA") (text "10.0.0.2") (text "1.2.3.4:5") (text "ua") 9 sessions)
    ≡ (if text "AA" == text "BB"
        then map_some
            (connect (text "10.0.0.2") (text "1.2.3.4:5") (text "ua") 9)
            (get_session_by_token (text "BB") sessions)
        else get_session_by_token (text "BB") sessions)
by_token-register_tunnel_example =
    by_token-register_tunnel (text "AA") (text "BB") (text "10.0.0.2") (text "ua")
      (text "1.2.3.4:5") 9 sessions

ann-IsIdle : (s : VpnSession) → get_session_by_token (text "AA") sessions ≡ some s → IsIdle s
unfolding session_tests
ann-IsIdle s e = record { no_ip = cc; no_peer = cc; no_agent = cc; no_time = cc }

unregister-register_tunnel_run :
    unregister_tunnel
      (text "AA")
      (register_tunnel (text "AA") (text "10.0.0.2") (text "1.2.3.4:5") (text "ua") 9 sessions)
    ≡ sessions
unregister-register_tunnel_run =
    unregister-register_tunnel (text "AA") (text "10.0.0.2") (text "ua") (text "1.2.3.4:5") 9
      sessions ann-IsIdle

create_session_fresh_example :
    (get_session
        (text "1")
        (create_session (text "2") (text "BB") 6 (plain_user (text "bob")) none sessions).0
      ≡ (if text "2" == text "1"
          then some (new_session (text "2") (text "BB") 6 (plain_user (text "bob")) none)
          else get_session (text "1") sessions))
    × (get_session_by_token
          (text "BB")
          (create_session (text "2") (text "BB") 6 (plain_user (text "bob")) none sessions).0
        ≡ (if text "BB" == text "BB"
            then some (new_session (text "2") (text "BB") 6 (plain_user (text "bob")) none)
            else get_session_by_token (text "BB") sessions))
unfolding session_tests
create_session_fresh_example =
    create_session_fresh (text "2") (text "BB") 6 (plain_user (text "bob")) none sessions (text "1")
      (text "BB") refl refl

tokens_differ : text "BB" ≢ text "AA"
unfolding text
tokens_differ e = ground (arith, list_beq_iff (text "BB") (text "AA"))

create_session_collision_example :
    get_session_by_token
      (text "AA")
      (create_session (text "1") (text "BB") 6 (plain_user (text "bob")) none sessions).0
    ≡ none
unfolding session_tests
create_session_collision_example =
    create_session_collision (text "1") (text "BB") 6 (plain_user (text "bob")) none sessions ann
      (refl, tt) refl tokens_differ
