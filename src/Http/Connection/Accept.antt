-- ===== src/Http/Connection/Accept.antt =====
-- src/http/server.rs: the loop that accepts TLS connections. Each has a task of its own, whose requests
-- are answered by Http.Connection.
use ocserv_rs.Base.{◌≡◌, refl, Bool, true, false, List, [], ◌∷◌, ◌++◌, ap}
use ocserv_rs.Http.Read.{Stream}

-- What comes in: an error of `accept`, or a client whose TLS handshake fails or gives a stream.
pub data Incoming : Type 0 where
  accept_failed handshake_failed : Incoming
  established : Stream → Incoming

-- The streams that are served, in order, and whether the loop goes on.
unfoldable pub accept_loop : List Incoming → List Stream × Bool
accept_loop [] = ([], true)
accept_loop (accept_failed ∷ incoming) = ([], false)
accept_loop (handshake_failed ∷ incoming) = accept_loop incoming
accept_loop (established stream ∷ incoming) =
    let (streams, goes_on) = accept_loop incoming in (stream ∷ streams, goes_on)

-- An error of `accept` ends the loop, and with it the server: whoever comes after it is not served.
pub accept_loop_ends :
    (before behind : List Incoming)
    → accept_loop (before ++ accept_failed ∷ behind) ≡ ((accept_loop before).0, false)
unfolding accept_loop
accept_loop_ends [] behind = refl
accept_loop_ends (accept_failed ∷ before) behind = refl
accept_loop_ends (handshake_failed ∷ before) behind = accept_loop_ends before behind
accept_loop_ends (established stream ∷ before) behind =
    ap (λ r. (stream ∷ r.0, r.1)) (accept_loop_ends before behind)
