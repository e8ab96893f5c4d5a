-- ===== src/Http/Connection/Laws.antt =====
-- The loop of a connection ends, and a request on it is answered.
use ocserv_rs.Base.{
  ℕ, zero, suc, ◌+◌, ◌<◌, ◌≤◌, ◌≡◌, ◌≢◌, refl, ap, sym, ◌∙◌, Option, none, some, Bool, true, false,
  ok, err, List, [], ◌∷◌, ◌++◌, arith, if◌then◌else◌, length,
}
use ocserv_rs.Base.Text.{Bytes}
use ocserv_rs.Config.{Config}
use ocserv_rs.Vpn.IpPool.{IpNetwork}
use ocserv_rs.Http.Request.{HttpRequest}
use ocserv_rs.Http.Response.{HttpResponse, find_header_end}
use ocserv_rs.Http.Read
use ocserv_rs.Http.Read.{
  Stream, ReadError, Parsed, Status, complete, max_headers_size, insert_headers, content_length,
  request_of, read, read_head, take_head, read_request,
}
use ocserv_rs.Http.Read.Consume.{size, Shrinks, read_request-Shrinks}
use ocserv_rs.Http.Read.Arrival.{over}
use ocserv_rs.Http.Read.Pieces.{joined, AreArrivals}
use ocserv_rs.Http.Read.Fragments.{read_request-joined}
use ocserv_rs.Http.Write.{Written, sent, panicked, write_failed, flush_failed, write_response}
use ocserv_rs.Http.State.{LoginState}
use ocserv_rs.Http.Routes.{handle_http_request}
use ocserv_rs.Http.Connection.{
  is_tunnel_request, is_kept_alive, Shared, logins_of, with_logins, Ending, closed_by_client,
  not_kept_alive, out_of_fuel, Turn, Served, Next, tunnel_served, after_write, after_handler,
  answer_request, after_read, serve,
}

module _ (net : IpNetwork) (config : Config) (parse : Bytes → Status) (turns : ℕ → Turn net) where
  abbrev ended : Ending net → Bool
  ended out_of_fuel = false
  ended e = true

  abbrev Ends : Served net → Type 0
  Ends r = ended r.2 ≡ true

  pick : (b : Bool) (x y : Served net) → Ends x → Ends y → Ends (if b then x else y)
  pick true x y h k = h
  pick false x y h k = k

  after_write-Ends :
      (k : Next net config parse turns) (request : HttpRequest) (stream : Stream) (s : Shared net)
      (out : List Bytes) (w : Written)
      → ((s : Shared net) (out : List Bytes) → Ends (k stream s out))
      → Ends (after_write net config parse turns k request stream s out w)
  unfolding after_write
  after_write-Ends k request stream s out (sent bytes) h =
      pick (is_kept_alive request) _ _ (h s (out ++ bytes ∷ [])) refl
  after_write-Ends k request stream s out panicked h = refl
  after_write-Ends k request stream s out write_failed h = refl
  after_write-Ends k request stream s out flush_failed h = refl

  after_handler-Ends :
      (k : Next net config parse turns) (n : ℕ) (request : HttpRequest) (stream : Stream)
      (s : Shared net) (out : List Bytes) (o : Option (LoginState × HttpResponse))
      → ((s : Shared net) (out : List Bytes) → Ends (k stream s out))
      → Ends (after_handler net config parse turns k n request stream s out o)
  unfolding after_handler
  after_handler-Ends k n request stream s out none h = refl
  after_handler-Ends k n request stream s out (some (l, response)) h =
      after_write-Ends k request stream (with_logins net l s) out
        (write_response (turns n).wire response request.version) h

  after_read-Ends :
      (k : Next net config parse turns) (n m : ℕ) (s : Shared net) (out : List Bytes)
      (r : Read.Outcome)
      → Shrinks m r
      → ((stream : Stream) (s : Shared net) (out : List Bytes)
          → size stream < m
          → Ends (k stream s out))
      → Ends (after_read net config parse turns k n s out r)
  unfolding after_read answer_request tunnel_served
  after_read-Ends k n m s out (stream, err e) h g = refl
  after_read-Ends k n m s out (stream, ok none) h g = refl
  after_read-Ends k n m s out (stream, ok (some request)) h g =
      pick (is_tunnel_request request) _ _ refl (
        after_handler-Ends k n request stream ((turns n).others s) out
          (handle_http_request (turns n).site request (logins_of net ((turns n).others s)))
          (λ s out. g stream s out h))

  serve-Ends :
      (fuel n : ℕ) (stream : Stream) (s : Shared net) (out : List Bytes)
      → size stream < fuel
      → Ends (serve net config parse turns fuel n stream s out)
  unfolding serve
  serve-Ends zero n stream s out h = absurd (omega arith)
  serve-Ends (suc fuel) n stream s out h =
      after_read-Ends (serve net config parse turns fuel (suc n)) n (size stream) s out
        (read_request parse stream) (read_request-Shrinks parse stream)
        (λ t s out k. serve-Ends fuel (suc n) t s out (omega arith))

  -- The loop of a connection ends, whatever arrives on it, whatever others do to the state and however
  -- its requests are answered: as many rounds as there are bytes, and one, are enough.
  pub serve_ends :
      (n : ℕ) (stream : Stream) (s : Shared net) (out : List Bytes)
      → (serve net config parse turns (suc (size stream)) n stream s out).2 ≢ out_of_fuel
  serve_ends n stream s out e =
      let h = serve-Ends (suc (size stream)) n stream s out (omega arith) in
      absurd (ground (arith, sym h ∙ ap ended e))

  over-closed : read_request parse over ≡ (over, ok none)
  unfolding read_request read_head take_head read
  over-closed = refl

  closes_next :
      (fuel n : ℕ) (s : Shared net) (out : List Bytes)
      → serve net config parse turns (suc fuel) n over s out ≡ (s, out, closed_by_client)
  unfolding serve after_read
  closes_next fuel n s out = rw over-closed refl

  abbrev ending_of : Bool → Ending net
  ending_of true = closed_by_client
  ending_of false = not_kept_alive

  after_write-over :
      (fuel n : ℕ) (request : HttpRequest) (s : Shared net) (out : List Bytes) (bytes : Bytes)
      (w : Written) (b : Bool)
      → w ≡ sent bytes
      → is_kept_alive request ≡ b
      → after_write net config parse turns
          (serve net config parse turns (suc fuel) n)
          request
          over
          s
          out
          w
        ≡ (s, out ++ bytes ∷ [], ending_of b)
  unfolding after_write
  after_write-over fuel n request s out bytes w true e h =
      rw (e, h) (closes_next fuel n s (out ++ bytes ∷ []))
  after_write-over fuel n request s out bytes w false e h = rw (e, h) refl

  -- The request of a head that httparse has read, and of a body.
  abbrev pub parsed_request : Parsed → Bytes → HttpRequest
  parsed_request p body = request_of p (insert_headers p.headers []) body

  -- A request other than for a tunnel is answered, in however many pieces it arrives, as the last on
  -- its connection: its head, of at most 8192 bytes, is one that httparse accepts, and its body has as
  -- many bytes as Content-Length states. If its handler gives a response and that is written, the
  -- connection has sent it, in the state that the handler left, and ends as the request asks, closed
  -- by the server or kept for the client to close.
  pub request_answered :
      (fuel n : ℕ) (s : Shared net) (out arrivals : List Bytes) (head body : Bytes) (p : Parsed)
      (pos : ℕ) (l : LoginState) (response : HttpResponse) (bytes : Bytes)
      → find_header_end (head ++ body) ≡ some pos
      → pos + 4 ≡ length head
      → parse head ≡ complete p
      → length head ≤ max_headers_size
      → content_length (insert_headers p.headers []) ≡ length body
      → joined arrivals ≡ head ++ body
      → AreArrivals arrivals
      → is_tunnel_request (parsed_request p body) ≡ false
      → handle_http_request
          (turns n).site
          (parsed_request p body)
          (logins_of net ((turns n).others s))
        ≡ some (l, response)
      → write_response (turns n).wire response (parsed_request p body).version ≡ sent bytes
      → serve net config parse turns
          (suc (suc fuel))
          n
          (record { arrivals = arrivals; closes = true })
          s
          out
        ≡ (
          with_logins net l ((turns n).others s),
          out ++ bytes ∷ [],
          ending_of (is_kept_alive (parsed_request p body)),
        )
  unfolding serve after_read answer_request after_handler
  request_answered fuel n s out arrivals head body p pos l response bytes found ends accepted short
        stated whole pieces other handled written =
      rw
        (
          read_request-joined parse head body p pos true found ends accepted short stated arrivals
              whole pieces,
          other,
          handled,
        )
        (after_write-over fuel (suc n) (parsed_request p body)
          (with_logins net l ((turns n).others s)) out bytes
          (write_response (turns n).wire response (parsed_request p body).version)
          (is_kept_alive (parsed_request p body)) written refl)
