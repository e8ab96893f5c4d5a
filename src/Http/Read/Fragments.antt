-- ===== src/Http/Read/Fragments.antt =====
-- The reader of requests makes the same request of the same bytes, however they arrive.
use ocserv_rs.Base.{
  ℕ, zero, suc, ◌+◌, ◌-◌, ◌≤◌, ◌<◌, ◌≡◌, inl, inr, ap, sym, ◌∙◌, some, Bool, false, ok, List, [],
  ◌∷◌, ◌++◌, length, take, drop, arith, length-append, take-length-append, drop-length-append,
  take-append_le, drop-append_le, leb,
}
use ocserv_rs.Base.Text.{Bytes}
use ocserv_rs.Http.Read.Pieces.{joined, AreArrivals, rest_of, segment, moved, body_of-joined}
use ocserv_rs.Http.Response.{find_header_end}
use ocserv_rs.Http.Response.Prefix.{le-or-lt, find_header_end_here, find_header_end_later}
use ocserv_rs.Http.Read.{
  Stream, Outcome, read, Parsed, Status, complete, max_headers_size, insert_headers, content_length,
  request_of, with_body, finish, parsed, look, take_head, read_head, read_request,
}

-- What stands before and behind the end of the head.
head_taken :
    (head body buf rest : Bytes)
    → buf ++ rest ≡ head ++ body
    → length head ≤ length buf
    → (take (length head) buf ≡ head) × (drop (length head) buf ++ rest ≡ body)
head_taken head body buf rest e h = (
  sym (take-append_le (length head) buf rest h)
      ∙ (ap (take (length head)) e ∙ take-length-append head body),
  sym (drop-append_le (length head) buf rest h)
      ∙ (ap (drop (length head)) e ∙ drop-length-append head body),
)

module _ (parse : Bytes → Status) where
  -- One round of the loop for the head that reads something.
  read_head_more :
      (fuel : ℕ) (buf : Bytes) (s t : Stream) (b : ℕ) (chunk : Bytes)
      → leb max_headers_size (length buf) ≡ false
      → read (max_headers_size - length buf) s.closes s.arrivals ≡ (t, ok (b ∷ chunk))
      → read_head parse (suc fuel) buf s
        ≡ look parse
            (read_head parse fuel)
            (buf ++ b ∷ chunk)
            (find_header_end (buf ++ b ∷ chunk))
            t
  unfolding read_head take_head
  read_head_more fuel buf s t b chunk room gives =
      rw (room, read_head) (ap (take_head parse (read_head parse fuel) buf) gives)

  module _ (head body : Bytes) (p : Parsed) (pos : ℕ) (closes : Bool)
      (found : find_header_end (head ++ body) ≡ some pos) (ends : pos + 4 ≡ length head)
      (accepted : parse head ≡ complete p) (short : length head ≤ max_headers_size)
      (stated : content_length (insert_headers p.headers []) ≡ length body) where
    abbrev answer : Outcome
    answer = (rest_of [] closes, ok (some (request_of p (insert_headers p.headers []) body)))

    finish-joined :
        (behind : Bytes) (arrivals : List Bytes)
        → behind ++ joined arrivals ≡ body
        → AreArrivals arrivals
        → finish p behind (rest_of arrivals closes) ≡ answer
    unfolding finish with_body
    finish-joined behind arrivals e h = rw stated (
        ap (with_body p (insert_headers p.headers []))
          (body_of-joined closes body behind arrivals e h))

    look-whole :
        (k : Bytes → Stream → Outcome) (buf : Bytes) (arrivals : List Bytes)
        → buf ++ joined arrivals ≡ head ++ body
        → AreArrivals arrivals
        → length head ≤ length buf
        → look parse k buf (find_header_end buf) (rest_of arrivals closes) ≡ answer
    unfolding look parsed
    look-whole k buf arrivals e h l =
        let (taken, behind) = head_taken head body buf (joined arrivals) e l in
        let here =
          find_header_end_here buf (joined arrivals) pos (ap find_header_end e ∙ found)
            (omega arith) in
        let s = rest_of arrivals closes in
        rw here (
          ap (λ t. parsed parse k buf pos t s)
            (ap parse (ap (λ n. take n buf) ends ∙ taken) ∙ accepted)
          ∙ (ap (λ n. finish p (drop n buf) s) ends
              ∙ finish-joined (drop (length head) buf) arrivals behind h))

    read_head-joined :
        (fuel : ℕ) (buf : Bytes) (arrivals : List Bytes)
        → buf ++ joined arrivals ≡ head ++ body
        → AreArrivals arrivals
        → length buf < length head
        → length head ≤ length buf + fuel
        → read_head parse fuel buf (rest_of arrivals closes) ≡ answer
    unfolding look
    read_head-joined zero buf arrivals e h l n = absurd (omega arith)
    read_head-joined (suc fuel) buf arrivals e h l n =
        let more = segment (max_headers_size - length buf) closes arrivals (omega arith) h (
          omega
            (arith, ap length e, length-append buf (joined arrivals), length-append head body)) in
        let longer = buf ++ more.b ∷ more.chunk in
        let whole =
          moved buf more.b more.chunk (joined more.left) (joined arrivals) (head ++ body) more.whole
            e in
        let grown = length-append buf (more.b ∷ more.chunk) in
        read_head_more fuel buf (rest_of arrivals closes) (rest_of more.left closes) more.b
          more.chunk (ground arith) more.gives
        ∙ elim (le-or-lt (length head) (length longer)) [
          | inl q ↦ look-whole (read_head parse fuel) longer more.left whole more.pieces q
          | inr q ↦
              rw
                (find_header_end_later longer (joined more.left) pos
                  (ap find_header_end whole ∙ found) (omega arith))
                (read_head-joined fuel longer more.left whole more.pieces q (omega (arith, grown)))
        ]

    -- A request is read as the same one however its bytes arrive, in one piece or in many, none of them
    -- empty: the head that httparse accepts, of at most 8192 bytes, and behind it the body with as many
    -- bytes as Content-Length states, or none. Nothing is left to arrive.
    pub read_request-joined :
        (arrivals : List Bytes)
        → joined arrivals ≡ head ++ body
        → AreArrivals arrivals
        → read_request parse (rest_of arrivals closes) ≡ answer
    unfolding read_request
    read_request-joined arrivals e h =
        read_head-joined (suc max_headers_size) [] arrivals e h (omega arith) (omega arith)
