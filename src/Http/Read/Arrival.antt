-- ===== src/Http/Read/Arrival.antt =====
-- A request that arrives in one piece, with more behind it.
use ocserv_rs.Base.{
  ℕ, zero, suc, ◌+◌, ◌≤◌, ◌≡◌, refl, ap, ◌∙◌, some, true, false, ok, [], ◌∷◌, ◌++◌, length, take,
  drop, arith, drop-length-append, take-length-append, take-all, if◌then◌else◌, ltb,
}
use ocserv_rs.Base.Text.{Bytes}
use ocserv_rs.Http.Response.{find_header_end}
use ocserv_rs.Http.Read.{
  Stream, Outcome, read, Parsed, Status, complete, max_headers_size, insert_headers, content_length,
  request_of, read_body, body_of, with_body, finish, parsed, look, take_head, read_head,
  read_request,
}

drop-all : (n : ℕ) (s : Bytes) → length s ≤ n → drop n s ≡ []
drop-all zero [] h = refl
drop-all zero (c ∷ s) h = absurd (omega arith)
drop-all (suc n) [] h = refl
drop-all (suc n) (c ∷ s) h = drop-all n s (omega arith)

abbrev pub arrived : Bytes → Stream
arrived bytes = record { arrivals = bytes ∷ []; closes = true }

abbrev pub over : Stream
over = record { arrivals = []; closes = true }

read-arrived :
    (n : ℕ) (bytes : Bytes) → length bytes ≤ n → read n true (bytes ∷ []) ≡ (over, ok bytes)
unfolding read
read-arrived n bytes h = rw (drop-all n bytes h, take-all n bytes h) refl

-- The body that the bytes behind the head make.
abbrev pub body_behind : Parsed → Bytes → Bytes
body_behind p behind = if ltb 0 (content_length (insert_headers p.headers [])) then behind else []

body_of-behind :
    (n : ℕ) (behind : Bytes) (s : Stream)
    → n ≤ length behind
    → body_of n behind s ≡ (s, ok (if ltb 0 n then behind else []))
unfolding body_of read_body
body_of-behind zero behind s h = refl
body_of-behind (suc n) behind s h = rw (enough, positive, read_body) refl
  where
    positive : ltb 0 (suc n) ≡ true
    positive = ground arith

    enough : ltb (length behind) (suc n) ≡ false
    enough = ground arith

module _ (parse : Bytes → Status) where
  first_read :
      (bytes : Bytes)
      → read_request parse (arrived bytes)
        ≡ take_head parse (read_head parse 8192) [] (read 8192 true (bytes ∷ []))
  unfolding read_request read_head
  first_read bytes = refl

  finish-behind :
      (p : Parsed) (behind : Bytes)
      → content_length (insert_headers p.headers []) ≤ length behind
      → finish p behind over
        ≡ (over, ok (some (request_of p (insert_headers p.headers []) (body_behind p behind))))
  unfolding finish with_body
  finish-behind p behind n =
      ap (with_body p (insert_headers p.headers []))
        (body_of-behind (content_length (insert_headers p.headers [])) behind over n)

  look-complete :
      (k : Bytes → Stream → Outcome) (head behind : Bytes) (p : Parsed) (pos : ℕ)
      → pos + 4 ≡ length head
      → parse head ≡ complete p
      → look parse k (head ++ behind) (some pos) over ≡ finish p behind over
  unfolding look parsed
  look-complete k head behind p pos l accepted =
      ap (λ t. parsed parse k (head ++ behind) pos (parse t) over)
        (ap (λ n. take n (head ++ behind)) l ∙ take-length-append head behind)
      ∙ (ap (λ st. parsed parse k (head ++ behind) pos st over) accepted
          ∙ ap (λ t. finish p t over)
              (ap (λ n. drop n (head ++ behind)) l ∙ drop-length-append head behind))

  -- One arrival of at most 8192 bytes that starts with a head that httparse accepts, and that has
  -- at least the bytes that Content-Length states behind it, makes one request and leaves nothing
  -- on the stream: all bytes behind the head are its body if it states a length, and are lost if it
  -- states none.
  pub read_request_arrival :
      (head behind : Bytes) (p : Parsed) (pos : ℕ)
      → find_header_end (head ++ behind) ≡ some pos
      → pos + 4 ≡ length head
      → parse head ≡ complete p
      → length (head ++ behind) ≤ max_headers_size
      → content_length (insert_headers p.headers []) ≤ length behind
      → read_request parse (arrived (head ++ behind))
        ≡ (over, ok (some (request_of p (insert_headers p.headers []) (body_behind p behind))))
  unfolding take_head
  read_request_arrival [] behind p pos e l accepted short n = absurd (omega arith)
  read_request_arrival (b ∷ head) behind p pos e l accepted short n =
      first_read (b ∷ (head ++ behind))
      ∙ (ap (take_head parse (read_head parse 8192) [])
            (read-arrived 8192 (b ∷ (head ++ behind)) short)
          ∙ (ap (λ o. look parse (read_head parse 8192) (b ∷ (head ++ behind)) o over) e
              ∙ (look-complete (read_head parse 8192) (b ∷ head) behind p pos l accepted
                  ∙ finish-behind p behind n)))
