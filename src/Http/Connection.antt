-- ===== src/Http/Connection.antt =====
-- src/http/server.rs: the requests of one TLS connection, answered in turn.
pub mod Accept
pub mod Laws
mod Tests
use ocserv_rs.Base.{
  ℕ, zero, suc, Option, none, some, Bool, true, false, ◌&&◌, not, Result, ok, err, List, [], ◌∷◌,
  ◌++◌, if◌then◌else◌, nat_beq,
}
use ocserv_rs.Base.Text.{Text, Bytes, text, to_lowercase}
use ocserv_rs.Base.Eq.{◌==◌, bytes_eq}
use ocserv_rs.Config.{Config}
use ocserv_rs.Vpn.IpPool.{IpNetwork}
use ocserv_rs.Http.Request.{HttpRequest, header}
use ocserv_rs.Http.Response.{HttpResponse}
use ocserv_rs.Http.Read
use ocserv_rs.Http.Read.{Stream, ReadError, Status, read_request}
use ocserv_rs.Http.Write.{Wire, Written, sent, panicked, write_failed, flush_failed, write_response}
use ocserv_rs.Http.State.{HpkeStore, LoginState}
use ocserv_rs.Http.Routes.{Site, handle_http_request}
use ocserv_rs.Http.ConnectFlow
use ocserv_rs.Http.ConnectFlow.{Surroundings, ServerState, connect_flow}

unfoldable pub is_tunnel_request : HttpRequest → Bool
unfolding text
is_tunnel_request request =
    request.method == text "CONNECT" && request.path == text "/CSCOSSLC/tunnel"

abbrev or_empty : Option Text → Text
or_empty none = []
or_empty (some t) = t

-- Whether the connection goes on after the answer to a request.
unfoldable pub is_kept_alive : HttpRequest → Bool
unfolding text
is_kept_alive request =
    let connection = to_lowercase (or_empty (header request (text "Connection"))) in
    if nat_beq request.version 0 && not (connection == text "keep-alive")
    then false
    else not (connection == text "close")

module _ (net : IpNetwork) where
  -- The state of the server that requests change.
  pub record Shared : Type 0 where
    pub server : ServerState net
    pub hpke_contexts : HpkeStore

  abbrev pub logins_of : Shared → LoginState
  logins_of s = record { sessions = s.server.sessions; hpke_contexts = s.hpke_contexts }

  abbrev pub with_logins : LoginState → Shared → Shared
  with_logins l s = record {
    server = record s.server { sessions = l.sessions };
    hpke_contexts = l.hpke_contexts;
  }

  -- How a connection ends.
  pub data Ending : Type 0 where
    closed_by_client handler_panicked writer_panicked writing_failed not_kept_alive : Ending
    reading_failed : ReadError → Ending
    tunnelled : ConnectFlow.Outcome net → Ending
    out_of_fuel : Ending

  -- What surrounds the request with a number: the state changed by other connections before it and
  -- while its tunnel runs, what its handler takes from outside, and whether its answer can be written.
  pub record Turn : Type 1 where
    pub others : Shared → Shared
    pub site : Site
    pub flow : Surroundings
    pub run : ServerState net → ServerState net
    pub wire : Wire

  -- The state at the end, the answers that were sent, and the ending.
  abbrev pub Served : Type 0
  Served = Shared × List Bytes × Ending

  module _ (config : Config) (parse : Bytes → Status) (turns : ℕ → Turn) where
    -- `k` goes on with the next request.
    abbrev pub Next : Type 0
    Next = Stream → Shared → List Bytes → Served

    unfoldable pub tunnel_served : ℕ → HttpRequest → Shared → List Bytes → Served
    unfolding connect_flow
    tunnel_served n request s out =
        let (server, outcome) =
          connect_flow net config (turns n).flow (turns n).run request s.server in
        (record s { server = server }, out, tunnelled outcome)

    unfoldable pub after_write :
        Next → HttpRequest → Stream → Shared → List Bytes → Written → Served
    unfolding is_kept_alive
    after_write k request stream s out (sent bytes) =
        if is_kept_alive request
        then k stream s (out ++ bytes ∷ [])
        else (s, out ++ bytes ∷ [], not_kept_alive)
    after_write k request stream s out panicked = (s, out, writer_panicked)
    after_write k request stream s out write_failed = (s, out, writing_failed)
    after_write k request stream s out flush_failed = (s, out, writing_failed)

    unfoldable pub after_handler :
        Next
        → ℕ
        → HttpRequest
        → Stream
        → Shared
        → List Bytes
        → Option (LoginState × HttpResponse)
        → Served
    unfolding after_write
    after_handler k n request stream s out none = (s, out, handler_panicked)
    after_handler k n request stream s out (some (l, response)) =
        after_write k request stream (with_logins l s) out
          (write_response (turns n).wire response request.version)

    unfoldable pub answer_request : Next → ℕ → HttpRequest → Stream → Shared → List Bytes → Served
    unfolding is_tunnel_request tunnel_served after_handler
    answer_request k n request stream s out =
        if is_tunnel_request request
        then tunnel_served n request s out
        else after_handler k n request stream s out
            (handle_http_request (turns n).site request (logins_of s))

    unfoldable pub after_read : Next → ℕ → Shared → List Bytes → Read.Outcome → Served
    unfolding answer_request
    after_read k n s out (stream, err e) = (s, out, reading_failed e)
    after_read k n s out (stream, ok none) = (s, out, closed_by_client)
    after_read k n s out (stream, ok (some request)) =
        answer_request k n request stream ((turns n).others s) out

    -- The loop of a connection, on fuel; `n` is the number of its next request.
    unfoldable pub serve : ℕ → ℕ → Next
    unfolding after_read
    serve zero n stream s out = (s, out, out_of_fuel)
    serve (suc fuel) n stream s out =
        after_read (serve fuel (suc n)) n s out (read_request parse stream)
