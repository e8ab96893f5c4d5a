-- ===== src/Http/Read/Tests.antt =====
-- The reader of requests on a small parser.
use ocserv_rs.Base.{◌≤◌, ◌≡◌, ◌≢◌, refl, arith, some, ok, err, true, false, [], ◌∷◌, ◌++◌, length}
use ocserv_rs.Base.Text.{Bytes}
use ocserv_rs.Http.Request.{find_header}
use ocserv_rs.Http.Response.{find_header_end}
use ocserv_rs.Http.Read.{
  out_of_fuel, Parsed, Status, complete, insert_headers, content_length, request_of, read_request,
}
use ocserv_rs.Http.Read.Laws.{read_request_ends}
use ocserv_rs.Http.Read.Fragments.{read_request-joined}
use ocserv_rs.Http.Read.Arrival.{arrived, over, body_behind, read_request_arrival}

abbrev get_root : Parsed
get_root = record { method = some (71 ∷ []); path = some (47 ∷ []); version = some 1; headers = [] }

-- Every head is that of one request.
abbrev parse : Bytes → Status
parse head = complete get_root

abbrev head : Bytes
head = 71 ∷ 13 ∷ 10 ∷ 13 ∷ 10 ∷ []

two_requests : find_header_end (head ++ head) ≡ some 1
unfolding find_header_end
two_requests = refl

read_request_ends_example :
    (read_request parse (record { arrivals = head ∷ (7 ∷ []) ∷ []; closes = true })).1
    ≢ err out_of_fuel
read_request_ends_example =
    read_request_ends parse (record { arrivals = head ∷ (7 ∷ []) ∷ []; closes = true })

no_length : content_length (insert_headers get_root.headers []) ≤ length head
unfolding content_length insert_headers find_header
no_length = omega arith

-- The second of two requests that arrive together is lost.
read_request_arrival_example : read_request parse (arrived (head ++ head)) ≡ (
  over,
  ok (some (request_of get_root (insert_headers get_root.headers []) (body_behind get_root head))),
)
read_request_arrival_example =
    read_request_arrival parse head head get_root 1 two_requests refl refl (omega arith) no_length

one_head : find_header_end (head ++ []) ≡ some 1
unfolding find_header_end
one_head = refl

none_stated : content_length (insert_headers get_root.headers []) ≡ 0
unfolding content_length insert_headers find_header
none_stated = refl

-- The head of a request in two pieces.
read_request-joined_example :
    read_request parse
      (record { arrivals = (71 ∷ 13 ∷ []) ∷ (10 ∷ 13 ∷ 10 ∷ []) ∷ []; closes = false })
    ≡ (
      record { arrivals = []; closes = false },
      ok (some (request_of get_root (insert_headers get_root.headers []) [])),
    )
read_request-joined_example =
    read_request-joined parse head [] get_root 1 false one_head refl refl (omega arith) none_stated
      ((71 ∷ 13 ∷ []) ∷ (10 ∷ 13 ∷ 10 ∷ []) ∷ []) refl ((λ e. cc), ((λ e. cc), tt))
