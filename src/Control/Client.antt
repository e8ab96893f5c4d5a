-- ===== src/Control/Client.antt =====
-- src/bin/occtl.rs: the client of the control socket, its table of users and its watch. The socket, the
-- terminal and the drawing of the table are parameters.
pub mod Laws
use ocserv_rs.Base.{
  ℕ, ◌++◌, Option, none, some, Bool, true, false, Result, ok, err, List, [], ◌∷◌, map,
  if◌then◌else◌,
}
use ocserv_rs.Base.Text.{Text, Bytes, text, decimal}
use ocserv_rs.Control.{UserSessionInfo, Json, show_users, map_option}

abbrev pub or_text : Option Text → Text → Text
or_text none t = t
or_text (some s) t = s

-- A row of the table of occtl.
unfoldable pub row : UserSessionInfo → List Text
row user =
    user.username
    ∷ or_text user.vpn_ip []
    ∷ or_text user.remote_ip (text "-")
    ∷ or_text user.connected_at_rfc3339 (text "-")
    ∷ or_text (map_option (λ secs. decimal secs ++ text "s") user.connected_seconds) (text "-")
    ∷ []

-- What occtl prints: a sentence, or the rows of its table.
pub data Display : Type 0 where
  no_active_users : Display
  table : List (List Text) → Display

unfoldable pub display : List UserSessionInfo → Display
unfolding row
display [] = no_active_users
display (user ∷ users) = table (map row (user ∷ users))

-- The client's end of the socket: whether it connects, writes these bytes and shuts its side down, and
-- the text it then reads to the end, if it is one.
pub record Socket : Type 0 where
  pub connects : Bool
  pub write_all : Bytes → Bool
  pub shutdown : Bool
  pub read_to_string : Bytes → Option Text

pub data ShowError : Type 0 where
  not_serialized connect_failed write_failed shutdown_failed read_failed not_parsed : ShowError

abbrev pub parsed : Option (List UserSessionInfo) → Result ShowError Display
parsed none = err not_parsed
parsed (some users) = ok (display users)

abbrev pub answered : Json → Option Text → Result ShowError Display
answered json none = err read_failed
answered json (some response) = parsed (json.users_from_str response)

unfoldable pub exchange : Json → Socket → Option Text → Result ShowError Display
exchange json socket none = err not_serialized
exchange json socket (some request) =
    if socket.connects
    then (if socket.write_all request
        then (if socket.shutdown
            then answered json (socket.read_to_string request)
            else err shutdown_failed)
        else err write_failed)
    else err connect_failed

-- What is printed, unless the terminal refuses it.
unfoldable pub handle_show_users : Json → Socket → Result ShowError Display
unfolding exchange
handle_show_users json socket = exchange json socket (json.command_to_string show_users)

-- One round of `watch`: whether the screen is cleared and the cursor moved, and the socket of the round.
pub record Round : Type 0 where
  pub clears : Bool
  pub moves : Bool
  pub socket : Socket

-- Whether the loop goes on, and what each round has shown below its heading.
unfoldable pub watch : Json → List Round → Bool × List (Result ShowError Display)
unfolding handle_show_users
watch json [] = (true, [])
watch json (r ∷ rounds) =
    let rest = watch json rounds in
    if r.clears
    then (if r.moves then (rest.0, handle_show_users json r.socket ∷ rest.1) else (false, []))
    else (false, [])
