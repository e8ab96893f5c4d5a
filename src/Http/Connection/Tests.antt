-- ===== src/Http/Connection/Tests.antt =====
-- A connection with one request.
use ocserv_rs.Base.{ℕ, zero, suc, ◌↔◌, ◌≡◌, ◌≢◌, refl, arith, some, true, false, [], ◌∷◌, ◌++◌}
use ocserv_rs.Base.Text.{Bytes, text, split, starts_with, ends_with, decimal, to_lowercase}
use ocserv_rs.Base.Utf8.{is_utf8, is_char_boundary}
use ocserv_rs.Base.Eq.{bytes_eq, list_beq}
use ocserv_rs.Config.{default_config}
use ocserv_rs.Http.Request.{HttpRequest, header, find_header}
use ocserv_rs.Http.Response.{
  HttpResponse, new, ok_response, build, find_header_end, status_line, with_body, with_header,
  header_line, length_lines,
}
use ocserv_rs.Http.Read.{Parsed, Status, complete, insert_headers, content_length, request_of}
use ocserv_rs.Http.Write.{sent, panicked, write_response}
use ocserv_rs.Http.Write.Laws.{IsCut, write_response-panicked}
use ocserv_rs.Http.Routes.{handle_http_request, logout_page}
use ocserv_rs.Http.Routes.Sample.{site}
use ocserv_rs.Http.ConnectFlow.Sample.{small, around, server}
use ocserv_rs.Http.Connection.{
  Shared, Turn, out_of_fuel, closed_by_client, is_tunnel_request, is_kept_alive, logins_of, serve,
}
use ocserv_rs.Http.Connection.Laws.{serve_ends, request_answered}

abbrev turn : ℕ → Turn small
turn n = record {
  others = λ s. s;
  site = site;
  flow = around;
  run = λ s. s;
  wire = record { written = true; flushed = true };
}

abbrev shared : Shared small
shared = record { server = server; hpke_contexts = [] }

abbrev logout : Parsed
logout = record {
  method = some (text "GET");
  path = some (text "/logout");
  version = some 1;
  headers = [];
}

abbrev parse : Bytes → Status
parse head = complete logout

abbrev head : Bytes
head = 71 ∷ 13 ∷ 10 ∷ 13 ∷ 10 ∷ []

abbrev request : HttpRequest
request = request_of logout (insert_headers [] []) []

serve_ends_example :
    (serve small default_config parse turn 7 0
      (record { arrivals = head ∷ (7 ∷ []) ∷ []; closes = true })
      shared
      []).2
    ≢ out_of_fuel
serve_ends_example =
    serve_ends small default_config parse turn 0
      (record { arrivals = head ∷ (7 ∷ []) ∷ []; closes = true }) shared []

one_head : find_header_end (head ++ []) ≡ some 1
unfolding find_header_end
one_head = refl

no_length : content_length (insert_headers logout.headers []) ≡ 0
unfolding content_length insert_headers find_header
no_length = refl

no_tunnel : is_tunnel_request request ≡ false
unfolding is_tunnel_request request_of text list_beq
no_tunnel = refl

answered :
    handle_http_request site request (logins_of small shared)
    ≡ some (logins_of small shared, logout_page)
unfolding handle_http_request request_of text list_beq split starts_with ends_with
answered = refl

written : write_response (turn 0).wire logout_page request.version ≡ sent (build 1 logout_page)
unfolding write_response request_of build text is_utf8 is_char_boundary decimal logout_page new
    status_line with_body with_header ok_response header_line length_lines
written = refl

kept : is_kept_alive request ≡ true
unfolding is_kept_alive request_of header insert_headers text list_beq to_lowercase find_header
kept = refl

-- The request arrives in two pieces.
request_answered_example :
    serve small default_config parse turn 2 0
      (record { arrivals = (71 ∷ 13 ∷ []) ∷ (10 ∷ 13 ∷ 10 ∷ []) ∷ []; closes = true })
      shared
      []
    ≡ (shared, build 1 logout_page ∷ [], closed_by_client)
unfolding is_kept_alive request_of header insert_headers text list_beq to_lowercase find_header
request_answered_example =
    request_answered small default_config parse turn 0 0 shared []
      ((71 ∷ 13 ∷ []) ∷ (10 ∷ 13 ∷ 10 ∷ []) ∷ []) head [] logout 1 (logins_of small shared)
      logout_page (build 1 logout_page) one_head refl refl (omega arith) no_length refl
      ((λ e. cc), ((λ e. cc), tt)) no_tunnel answered written

-- A response of ASCII and of "é" over and over, whose byte 500 is the second of a character.
abbrev pairs : ℕ → Bytes
pairs zero = []
pairs (suc n) = 0xC3 ∷ 0xA9 ∷ pairs n

abbrev long : HttpResponse
long = record (new 200 (text "OKK")) { body = pairs 300 }

cut : write_response (turn 0).wire long 1 ≡ panicked
unfolding write_response build text is_utf8 is_char_boundary decimal new status_line header_line
    length_lines
cut = refl

write_response-panicked_example :
    (write_response (turn 0).wire long 1 ≡ panicked) ↔ IsCut (build 1 long)
write_response-panicked_example = write_response-panicked (turn 0).wire long 1
