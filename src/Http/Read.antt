-- ===== src/Http/Read.antt =====
-- src/http/manual_http.rs: the reader of requests. The crate httparse is a parameter.
pub mod Laws
pub mod Arrival
pub mod Consume
pub mod Pieces
pub mod Fragments
mod Tests
use ocserv_rs.Base.{
  ℕ, zero, suc, ◌+◌, ◌-◌, ◌*◌, Option, none, some, Bool, true, false, ◌&&◌, Result, ok, err, List,
  [], ◌∷◌, ◌++◌, length, take, drop, if◌then◌else◌, ltb, leb, nat_beq,
}
use ocserv_rs.Base.Text.{Text, Bytes, text, is_empty}
use ocserv_rs.Base.Utf8.{from_utf8_lossy}
use ocserv_rs.Base.HashMap
use ocserv_rs.Base.HashMap.{HashMap}
use ocserv_rs.Base.Eq.{bytes_eq}
use ocserv_rs.Http.Request.{HttpRequest, find_header}
use ocserv_rs.Http.Response.{find_header_end}

-- A stream by what is still to arrive, none of it empty, and by its end: the peer closes it, or it
-- fails.
pub record Stream : Type 0 where
  pub arrivals : List Bytes
  pub closes : Bool

pub data ReadError : Type 0 where
  io_error headers_too_large unexpected_eof parse_error out_of_fuel : ReadError

abbrev pub keep_rest : Bytes → List Bytes → List Bytes
keep_rest [] arrivals = arrivals
keep_rest (b ∷ rest) arrivals = (b ∷ rest) ∷ arrivals

-- `stream.read` with room for n bytes; no bytes are the end of the stream.
unfoldable pub read : ℕ → Bool → List Bytes → Stream × Result ReadError Bytes
read n true [] = (record { arrivals = []; closes = true }, ok [])
read n false [] = (record { arrivals = []; closes = false }, err io_error)
read n closes (chunk ∷ arrivals) =
    (record { arrivals = keep_rest (drop n chunk) arrivals; closes = closes }, ok (take n chunk))

-- What `httparse::Request::parse` fills in.
pub record Parsed : Type 0 where
  pub method : Option Text
  pub path : Option Text
  pub version : Option ℕ
  pub headers : List (Text × Bytes)

pub data Status : Type 0 where
  complete : Parsed → Status
  partial failed : Status

abbrev pub max_headers_size : ℕ
max_headers_size = 8192

unfoldable pub insert_headers : List (Text × Bytes) → HashMap Text Text → HashMap Text Text
insert_headers [] headers = headers
insert_headers ((name, value) ∷ rest) headers =
    insert_headers rest (HashMap.insert name (from_utf8_lossy value) headers)

abbrev is_digit : ℕ → Bool
is_digit c = leb b'0' c && leb c b'9'

unfoldable pub parse_digits : ℕ → Text → Option ℕ
parse_digits n [] = if ltb n 18_446_744_073_709_551_616 then some n else none
parse_digits n (c ∷ s) =
    let rest = parse_digits (n * 10 + (c - b'0')) s in if is_digit c then rest else none

-- `str::parse` to a `usize` of 64 bits: digits, with a plus sign before them or not.
unfoldable pub parse_usize : Text → Option ℕ
unfolding parse_digits
parse_usize [] = none
parse_usize (c ∷ s) =
    if nat_beq c b'+'
    then (if is_empty s then none else parse_digits 0 s)
    else parse_digits 0 (c ∷ s)

abbrev or_zero : Option ℕ → ℕ
or_zero none = 0
or_zero (some n) = n

abbrev length_of : Option Text → ℕ
length_of none = 0
length_of (some v) = or_zero (parse_usize v)

unfoldable pub content_length : HashMap Text Text → ℕ
unfolding parse_usize
content_length headers = length_of (find_header (text "content-length") headers)

abbrev or_value {ℓ} : {A : Type ℓ} → Option A → A → A
or_value none d = d
or_value (some a) d = a

unfoldable pub request_of : Parsed → HashMap Text Text → Bytes → HttpRequest
request_of p headers body = record {
  method = or_value p.method (text "GET");
  path = or_value p.path (text "/");
  version = or_value p.version 1;
  headers = headers;
  body = body;
}

-- After a read of the body: `k` goes on with what has been read.
unfoldable pub take_body :
    (Bytes → Stream → Stream × Result ReadError Bytes)
    → Bytes
    → Stream × Result ReadError Bytes
    → Stream × Result ReadError Bytes
take_body k body (s, err e) = (s, err e)
take_body k body (s, ok []) = (s, ok body)
take_body k body (s, ok (b ∷ chunk)) = k (body ++ b ∷ chunk) s

-- The loop for the rest of the body, on fuel.
unfoldable pub read_body : ℕ → ℕ → Bytes → Stream → Stream × Result ReadError Bytes
unfolding take_body read
read_body zero n body s = (s, err out_of_fuel)
read_body (suc fuel) n body s = elim (ltb (length body) n) [
  | false ↦ (s, ok body)
  | true ↦ take_body (read_body fuel n) body (read (n - length body) s.closes s.arrivals)
]

-- Bytes behind the head are the start of the body, if the request has one.
unfoldable pub body_of : ℕ → Bytes → Stream → Stream × Result ReadError Bytes
body_of n behind s = if ltb 0 n then read_body (suc n) n behind s else (s, ok [])

abbrev pub Outcome : Type 0
Outcome = Stream × Result ReadError (Option HttpRequest)

unfoldable pub with_body : Parsed → HashMap Text Text → Stream × Result ReadError Bytes → Outcome
with_body p headers (s, err e) = (s, err e)
with_body p headers (s, ok body) = (s, ok (some (request_of p headers body)))

unfoldable pub finish : Parsed → Bytes → Stream → Outcome
finish p behind s =
    let headers = insert_headers p.headers [] in
    with_body p headers (body_of (content_length headers) behind s)

module _ (parse : Bytes → Status) where
  unfoldable pub parsed : (Bytes → Stream → Outcome) → Bytes → ℕ → Status → Stream → Outcome
  unfolding finish
  parsed k buf pos (complete p) s = finish p (drop (pos + 4) buf) s
  parsed k buf pos partial s = k buf s
  parsed k buf pos failed s = (s, err parse_error)

  -- The end of the head has been looked for.
  unfoldable pub look : (Bytes → Stream → Outcome) → Bytes → Option ℕ → Stream → Outcome
  unfolding parsed
  look k buf none s = k buf s
  look k buf (some pos) s = parsed k buf pos (parse (take (pos + 4) buf)) s

  -- After a read of the head: `k` goes on with the buffer.
  unfoldable pub take_head :
      (Bytes → Stream → Outcome) → Bytes → Stream × Result ReadError Bytes → Outcome
  unfolding look
  take_head k buf (s, err e) = (s, err e)
  take_head k [] (s, ok []) = (s, ok none)
  take_head k (b ∷ buf) (s, ok []) = (s, err unexpected_eof)
  take_head k buf (s, ok (b ∷ chunk)) =
      look k (buf ++ b ∷ chunk) (find_header_end (buf ++ b ∷ chunk)) s

  -- The loop for the head, on fuel.
  unfoldable pub read_head : ℕ → Bytes → Stream → Outcome
  unfolding take_head read
  read_head zero buf s = (s, err out_of_fuel)
  read_head (suc fuel) buf s = elim (leb max_headers_size (length buf)) [
    | true ↦ (s, err headers_too_large)
    | false ↦
        take_head (read_head fuel) buf (read (max_headers_size - length buf) s.closes s.arrivals)
  ]

  unfoldable pub read_request : Stream → Outcome
  unfolding read_head
  read_request s = read_head (suc max_headers_size) [] s
