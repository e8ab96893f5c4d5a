-- ===== src/Control/Tests.antt =====
-- The control command at concrete sessions.
use ocserv_rs.Base.{
  true, false, Bool, ok, map, arith, if◌then◌else◌, ◌≤◌, ◌≡◌, ◌≢◌, refl, Option, some, none, List,
  [], ◌∷◌, All, length,
}
use ocserv_rs.Base.Text.{Text, text, is_empty, decimal}
use ocserv_rs.Base.Eq.{◌==◌, bytes_eq, list_beq}
use ocserv_rs.Auth.User.{plain_user}
use ocserv_rs.Auth.Session.{
  values, VpnSession, Sessions, new_session, get_session_by_token, register_tunnel, connect,
}
use ocserv_rs.Config.{ControlConfig}
use ocserv_rs.Control.{
  Clock, Json, ControlCommand, UserSessionInfo, info_of, active_users, show_users, send_users,
  run_command, handle_client,
}
use ocserv_rs.Control.Client.{display, table, Round, watch, handle_show_users}
use ocserv_rs.Control.Client.Laws.{
  IsFaithful, AreRows, shown_as, arriving, served_by, users_shown, watch_survives,
}
use ocserv_rs.Control.Server.{FileSystem, listen}
use ocserv_rs.Control.Server.Laws.{HasRights, listen_succeeds}
use ocserv_rs.Control.Laws.{IsInserted, active_users-register_tunnel, active_users_have_ip}

abbrev ann : VpnSession
unfolding new_session
ann = new_session (text "1") (text "AA") 5 (plain_user (text "ann")) none

abbrev sessions : Sessions
sessions = (text "1", ann) ∷ []

abbrev clock : Clock
clock = record { now = 3_000_000_009; system_now = 9_000_000_000; to_rfc3339 = decimal }

-- The whole table as the text of its rows' first cells is enough of a JSON here.
abbrev json : Json
json = record {
  command_from_slice = λ b. some show_users;
  command_to_string = λ c. some (text "show");
  users_to_string = λ us. some (decimal (length us));
  users_from_str = λ t. none;
}

control_tests : Unit {0}
unfolding handle_client run_command send_users text is_empty decimal active_users register_tunnel
    connect list_beq display info_of get_session_by_token
control_tests = tt

handle_client_tests :
    (handle_client clock json sessions (arriving (text "show"))
      ≡ record { written = text "0"; is_shut = true; result = ok tt })
    × (handle_client clock json sessions (arriving [])
        ≡ record { written = []; is_shut = false; result = ok tt })
    × (display (
          active_users clock
            (register_tunnel (text "AA") (text "10.0.0.2") (text "p") (text "ua") 9 sessions))
        ≡ table
            ((text "ann" ∷ text "10.0.0.2" ∷ text "p" ∷ text "6000000000" ∷ text "3s" ∷ []) ∷ []))
unfolding control_tests ann
handle_client_tests = (refl, refl, refl)

active_users-register_tunnel_example :
    IsInserted
      (info_of clock (connect (text "10.0.0.2") (text "p") (text "ua") 9 ann) (text "10.0.0.2"))
      (active_users clock sessions)
      (active_users clock
        (register_tunnel (text "AA") (text "10.0.0.2") (text "p") (text "ua") 9 sessions))
unfolding control_tests ann
active_users-register_tunnel_example =
    active_users-register_tunnel clock (text "AA") (text "10.0.0.2") (text "ua") (text "p") 9
      sessions ann refl refl

listed_have_ip :
    All (λ u. u.vpn_ip ≢ none) (active_users clock sessions)
    × (length (active_users clock sessions) ≤ 1)
listed_have_ip = active_users_have_ip clock sessions

-- Ann with a tunnel, and a JSON that writes her table by its length and knows it again.
abbrev tunnelled : Sessions
unfolding register_tunnel
tunnelled = register_tunnel (text "AA") (text "10.0.0.2") (text "p") (text "ua") 9 sessions

abbrev known : Text → Option (List UserSessionInfo)
unfolding active_users list_beq
known t = if t == text "1" then some (active_users clock tunnelled) else none

abbrev command_known : Text → Option ControlCommand
unfolding list_beq
command_known t = if t == text "show" then some show_users else none

abbrev table_json : Json
table_json = record {
  command_from_slice = command_known;
  command_to_string = λ c. some (text "show");
  users_to_string = λ us. some (decimal (length us));
  users_from_str = known;
}

table_json-IsFaithful : IsFaithful table_json (active_users clock tunnelled)
unfolding control_tests tunnelled known command_known ann
table_json-IsFaithful = record {
  commands = λ c. (text "show", refl, at_show c, omega arith);
  users = (text "1", refl, refl);
  not_empty = refl;
}
  where
    at_show : (c : ControlCommand) → some show_users ≡ some c
    at_show show_users = refl

users_shown_example :
    (rows : List (List Text)) × AreRows clock (values tunnelled) rows
    × (handle_show_users table_json (served_by clock table_json tunnelled) ≡ ok (shown_as rows))
users_shown_example = users_shown clock table_json tunnelled table_json-IsFaithful

-- A server that is gone, and one that answers.
abbrev rounds : List Round
rounds =
    record {
      clears = true;
      moves = true;
      socket = record {
        connects = false;
        write_all = λ b. true;
        shutdown = true;
        read_to_string = λ b. none;
      };
    }
    ∷ record { clears = true; moves = true; socket = served_by clock table_json tunnelled }
    ∷ []

watch_survives_run :
    watch table_json rounds ≡ (true, map (λ r. handle_show_users table_json r.socket) rounds)
watch_survives_run = watch_survives table_json rounds ((refl, refl), ((refl, refl), tt))

-- A file system with a place for the socket and one for its directory.
abbrev two_places : FileSystem (Bool × Bool)
unfolding list_beq
two_places = record {
  exists = λ path f. if path == text "/run/s" then f.0 else f.1;
  parent = λ path. if path == text "/run/s" then some (text "/run") else none;
  remove_file = λ path f. if f.0 then some (false, f.1) else none;
  create_dir_all = λ path f. some (f.0, true);
  bind = λ path f. if f.0 then none else (if f.1 then some (true, true) else none);
  set_permissions = λ path mode f. some f;
}

two_places-binds :
    (f : Bool × Bool)
    → two_places.exists (text "/run/s") f ≡ false
    → two_places.exists (text "/run") f ≡ true
    → two_places.bind (text "/run/s") f ≡ some (true, true)
unfolding two_places text list_beq
two_places-binds (true, made) free e = ground arith
two_places-binds (false, true) free e = refl
two_places-binds (false, false) free e = ground arith

two_places-makes :
    (f : Bool × Bool) (d : Text)
    → two_places.parent (text "/run/s") ≡ some d
    → two_places.exists d (f.0, true) ≡ true
unfolding two_places text list_beq
two_places-makes f d e = ground arith

two_places-HasRights : HasRights two_places (text "/run/s")
unfolding two_places text list_beq
two_places-HasRights = record {
  removes = λ f e. ((false, f.1), rw e refl, refl);
  makes = λ d f e free. ((f.0, true), refl, free, two_places-makes f d e);
  binds = λ f free made. ((true, true), two_places-binds f free (made (text "/run") refl), refl);
  keeps = λ mode f g e. ground arith;
}

abbrev control_config : ControlConfig
control_config = record { socket_path = text "/run/s"; socket_group = none }

-- A socket that an earlier server has left.
listen_succeeds_example :
    ((g : Bool × Bool) × (listen two_places control_config (true, true) ≡ ok g)
      × (two_places.exists (text "/run/s") g ≡ true))
listen_succeeds_example =
    listen_succeeds two_places control_config (true, true) two_places-HasRights
