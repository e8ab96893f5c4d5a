-- ===== src/Control/Server.antt =====
-- src/control/mod.rs: the set-up of the control socket and the loop over its clients. The file system
-- is a parameter.
pub mod Laws
use ocserv_rs.Base.{
  ℕ, Option, none, some, Bool, true, false, Result, ok, err, ◌>>=◌, List, [], ◌∷◌, if◌then◌else◌,
}
use ocserv_rs.Base.Text.{Text, text}
use ocserv_rs.Config.{ControlConfig}
use ocserv_rs.Auth.Session.{Sessions}
use ocserv_rs.Control.{Clock, Json, UnixStream, Served, handle_client}

-- The calls of the file system on a state of type F; `none` is a failure.
pub record FileSystem (F : Type 0) : Type 0 where
  pub exists : Text → F → Bool
  pub parent : Text → Option Text
  pub remove_file : Text → F → Option F
  pub create_dir_all : Text → F → Option F
  pub bind : Text → F → Option F
  pub set_permissions : Text → ℕ → F → Option F

-- `context`, for a call that gives the next state.
abbrev pub context : {F : Type 0} → Text → Option F → Result Text F
context what none = err what
context what (some f) = ok f

abbrev pub with_parent : {F : Type 0} → FileSystem F → Option Text → F → Result Text F
with_parent os none f = ok f
with_parent os (some parent) f =
    context (text "Failed to create socket directory") (os.create_dir_all parent f)

-- An old socket is removed, and the directory made.
unfoldable pub prepare : {F : Type 0} → FileSystem F → Text → F → Result Text F
prepare os path f =
    (if os.exists path f
      then context (text "Failed to remove existing control socket") (os.remove_file path f)
      else ok f)
    >>= with_parent os (os.parent path)

abbrev pub or_as_it_was : {F : Type 0} → F → Option F → F
or_as_it_was f none = f
or_as_it_was f (some g) = g

abbrev pub socket_mode : ℕ
socket_mode = 432

-- `run` up to its loop. A failure to set the mode 0o660 is only logged, and so is a group.
unfoldable pub listen : {F : Type 0} → FileSystem F → ControlConfig → F → Result Text F
unfolding prepare
listen os config f = prepare os config.socket_path f >>= λ g.
    context (text "Failed to bind control socket") (os.bind config.socket_path g) >>= λ h.
    ok (or_as_it_was h (os.set_permissions config.socket_path socket_mode h))

-- What `accept` gives: a client, with the sessions and the time when its task runs, or an error.
pub data Accepted : Type 0 where
  client : UnixStream → Sessions → Clock → Accepted
  refused : Accepted

-- The loop: each client is served by a task of its own, whose error is logged.
unfoldable pub serve : Json → List Accepted → List Served
unfolding handle_client
serve json [] = []
serve json (client stream m clock ∷ rest) = handle_client clock json m stream ∷ serve json rest
serve json (refused ∷ rest) = serve json rest
