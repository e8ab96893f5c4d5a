-- ===== src/Http/State.antt =====
-- src/http/handlers.rs: the parts of `ServerState` that a login changes. A lock is held for one call
-- only, so that each is a function of the state.
use ocserv_rs.Base.{Option}
use ocserv_rs.Base.Text.{Text}
use ocserv_rs.Base.Eq.{bytes_eq}
use ocserv_rs.Base.HashMap.{HashMap, get, insert}
use ocserv_rs.Crypto.Hpke.{HpkeContext}
use ocserv_rs.Auth.Session.{Sessions}

abbrev pub HpkeStore : Type 0
HpkeStore = HashMap Text HpkeContext

pub record LoginState : Type 0 where
  pub sessions : Sessions
  pub hpke_contexts : HpkeStore

unfoldable pub store_hpke_context : Text → HpkeContext → LoginState → LoginState
store_hpke_context session_key ctx s = record s {
  hpke_contexts = insert session_key ctx s.hpke_contexts;
}

unfoldable pub get_hpke_context : Text → LoginState → Option HpkeContext
get_hpke_context session_key s = get session_key s.hpke_contexts
