-- ===== src/Control/Client/Laws.antt =====
-- What the client shows, with the server at the other end of its socket.
use ocserv_rs.Base.{
  ℕ, ◌-◌, ◌/◌, ◌++◌, ◌⊎◌, inl, inr, ◌≤◌, ◌≡◌, ◌≢◌, refl, ap, Option, none, some, true, ok, List, [],
  ◌∷◌, All, length, take-all, map, arith,
}
use ocserv_rs.Base.Text.{Text, Bytes, text, decimal, is_empty}
use ocserv_rs.Auth.Session.{VpnSession, Sessions, values}
use ocserv_rs.Control.{
  Clock, Json, ControlCommand, UserSessionInfo, UnixStream, map_option, info_of, push_active,
  active, show_users, active_users, send_users, run_command, request_size, handle_client,
}
use ocserv_rs.Control.Client.{
  Socket, Display, no_active_users, table, or_text, row, display, exchange, handle_show_users,
  Round, watch,
}

-- serde_json reads what it has written: of the command, in less than the server's buffer, and of these
-- users, which it can always write. It reads no value in an empty text.
pub record IsFaithful (json : Json) (us : List UserSessionInfo) : Type 0 where
  pub commands :
      (c : ControlCommand)
      → ((t : Text) × (json.command_to_string c ≡ some t)
          × (json.command_from_slice t ≡ some c)
          × (length t ≤ request_size))
  pub users : ((t : Text) × (json.users_to_string us ≡ some t) × (json.users_from_str t ≡ some us))
  pub not_empty : json.command_from_slice [] ≡ none

-- The server's end of a stream on which this request arrives in one piece.
abbrev pub arriving : Bytes → UnixStream
arriving request = record { read = some request; write_all = λ bytes. true; shutdown = true }

-- The client's end of a stream that `handle_client` serves.
abbrev pub served_by : Clock → Json → Sessions → Socket
served_by clock json m = record {
  connects = true;
  write_all = λ bytes. true;
  shutdown = true;
  read_to_string = λ request. some (handle_client clock json m (arriving request)).written;
}

request_served :
    (clock : Clock) (json : Json) (m : Sessions) (request response : Text)
    → request ≢ []
    → length request ≤ request_size
    → json.command_from_slice request ≡ some show_users
    → json.users_to_string (active_users clock m) ≡ some response
    → (handle_client clock json m (arriving request)).written ≡ response
unfolding handle_client run_command send_users is_empty
request_served clock json m [] response h l e w = absurd (h refl)
request_served clock json m (c ∷ cs) response h l e w =
    rw (take-all request_size (c ∷ cs) l, e, w) refl

-- The cells of a session's row, in a description of its own: a dash stands for what is not known.
abbrev peer_cell : Option Text → Text
peer_cell none = text "-"
peer_cell (some peer) = peer

abbrev time_cells : Clock → Option ℕ → List Text
time_cells clock none = text "-" ∷ text "-" ∷ []
time_cells clock (some t) =
    clock.to_rfc3339 (clock.system_now - (clock.now - t))
    ∷ (decimal ((clock.now - t) / 1_000_000_000) ++ text "s")
    ∷ []

-- The rows for sessions: one for each that has a tunnel, in their order, and no other.
abbrev pub AreRows : Clock → List VpnSession → List (List Text) → Type 0
AreRows clock [] rows = rows ≡ []
AreRows clock (s ∷ ss) rows =
    ((s.vpn_ip ≡ none) × AreRows clock ss rows)
    ⊎ ((ip : Text) × (rest : List (List Text)) × (s.vpn_ip ≡ some ip)
        × (rows
            ≡ (s.user_info.username ∷ ip ∷ peer_cell s.remote_ip ∷ time_cells clock s.connected_at)
              ∷ rest)
        × AreRows clock ss rest)

-- A table, or the sentence that there is none.
abbrev pub shown_as : List (List Text) → Display
shown_as [] = no_active_users
shown_as (r ∷ rows) = table (r ∷ rows)

display-shown_as : (us : List UserSessionInfo) → display us ≡ shown_as (map row us)
unfolding display
display-shown_as [] = refl
display-shown_as (u ∷ us) = refl

row-info_of :
    (clock : Clock) (s : VpnSession) (ip : Text)
    → row (info_of clock s ip)
      ≡ s.user_info.username ∷ ip ∷ peer_cell s.remote_ip ∷ time_cells clock s.connected_at
unfolding row info_of
row-info_of clock s ip = go s.remote_ip s.connected_at
  where
    go :
        (peer : Option Text) (at : Option ℕ)
        → s.user_info.username
            ∷ ip
            ∷ or_text peer (text "-")
            ∷ or_text
                (map_option (λ t. clock.to_rfc3339 (clock.system_now - (clock.now - t))) at)
                (text "-")
            ∷ or_text
                (map_option
                  (λ secs. decimal secs ++ text "s")
                  (map_option (λ t. (clock.now - t) / 1_000_000_000) at))
                (text "-")
            ∷ []
          ≡ s.user_info.username ∷ ip ∷ peer_cell peer ∷ time_cells clock at
    go none none = refl
    go none (some t) = refl
    go (some p) none = refl
    go (some p) (some t) = refl

active-AreRows :
    (clock : Clock) (ss : List VpnSession) → AreRows clock ss (map row (active clock ss))
unfolding active
active-AreRows clock [] = refl
active-AreRows clock (s ∷ ss) = go s.vpn_ip refl (active-AreRows clock ss)
  where
    go :
        (o : Option Text)
        → s.vpn_ip ≡ o
        → AreRows clock ss (map row (active clock ss))
        → AreRows clock (s ∷ ss) (map row (push_active clock s o (active clock ss)))
    go none e h = inl (e, h)
    go (some ip) e h = inr (
      ip,
      map row (active clock ss),
      e,
      ap (λ r. r ∷ map row (active clock ss)) (row-info_of clock s ip),
      h,
    )

-- If JSON reads what it writes, and no stream fails, `show users` shows the server's sessions that have a
-- tunnel, one row for each in their order and no other: the user's name, the address, the peer, and the
-- time and seconds of the connection, with a dash for what is not known. It says that there is none if
-- there is none.
pub users_shown :
    (clock : Clock) (json : Json) (m : Sessions)
    → IsFaithful json (active_users clock m)
    → (rows : List (List Text)) × AreRows clock (values m) rows
      × (handle_show_users json (served_by clock json m) ≡ ok (shown_as rows))
unfolding handle_show_users exchange active_users
users_shown clock json m h =
    let (request, written, read_back, short) = h.commands show_users in
    let (response, told, understood) = h.users in
    (
      map row (active clock (values m)),
      active-AreRows clock (values m),
      rw
          (
            written,
            request_served clock json m request response (λ e. ground (arith, h.not_empty)) short
                read_back told,
            understood,
          )
          (ap ok (display-shown_as (active clock (values m)))),
    )

-- A round of watching in which the terminal does its part.
abbrev pub Clears : Round → Type 0
Clears r = (r.clears ≡ true) × (r.moves ≡ true)

-- As long as the terminal clears the screen, the watch goes on round after round: a server that is down or
-- answers badly is shown as an error and does not end it.
pub watch_survives :
    (json : Json) (rounds : List Round)
    → All Clears rounds
    → watch json rounds ≡ (true, map (λ r. handle_show_users json r.socket) rounds)
unfolding watch
watch_survives json [] h = refl
watch_survives json (r ∷ rounds) h = rw (h.0.0, h.0.1, watch_survives json rounds h.1) refl
