-- ===== src/Http/Read/Consume.antt =====
-- A request takes bytes off the stream.
use ocserv_rs.Base.{
  ℕ, zero, suc, ◌+◌, ◌-◌, ◌≤◌, ◌<◌, ◌≡◌, refl, Option, none, some, Bool, true, false, Result, ok,
  err, List, [], ◌∷◌, ◌++◌, length, take, drop, length-drop, arith, inl, inr, Bool-cases,
  if◌then◌else◌, ltb, leb,
}
use ocserv_rs.Base.Text.{Bytes}
use ocserv_rs.Base.HashMap.{HashMap}
use ocserv_rs.Base.Text.{Text}
use ocserv_rs.Http.Response.{find_header_end}
use ocserv_rs.Http.Read.{
  Stream, ReadError, read, keep_rest, Parsed, Status, complete, partial, failed, max_headers_size,
  insert_headers, content_length, take_body, read_body, body_of, Outcome, with_body, finish, parsed,
  look, take_head, read_head, read_request,
}

abbrev total : List Bytes → ℕ
total [] = 0
total (chunk ∷ arrivals) = length chunk + total arrivals

-- The bytes that are still to arrive.
abbrev pub size : Stream → ℕ
size s = total s.arrivals

total-keep_rest :
    (rest : Bytes) (arrivals : List Bytes)
    → total (keep_rest rest arrivals) ≡ length rest + total arrivals
total-keep_rest [] arrivals = omega arith
total-keep_rest (b ∷ rest) arrivals = refl

-- What a read leaves of `m` bytes: fewer, if it gives some.
abbrev Consumes : ℕ → Stream × Result ReadError Bytes → Type 0
Consumes m (s, err e) = size s ≤ m
Consumes m (s, ok []) = size s ≤ m
Consumes m (s, ok (b ∷ chunk)) = size s < m

taken-Consumes :
    (closes : Bool) (n : ℕ) (chunk : Bytes) (arrivals : List Bytes)
    → Consumes (length chunk + total arrivals) (
      record { arrivals = keep_rest (drop n chunk) arrivals; closes = closes },
      ok (take n chunk),
    )
taken-Consumes closes zero chunk arrivals = omega (arith, total-keep_rest chunk arrivals)
taken-Consumes closes (suc n) [] arrivals = omega arith
taken-Consumes closes (suc n) (b ∷ chunk) arrivals =
    omega (arith, total-keep_rest (drop n chunk) arrivals, length-drop n chunk)

read-Consumes :
    (n : ℕ) (closes : Bool) (arrivals : List Bytes)
    → Consumes (total arrivals) (read n closes arrivals)
unfolding read
read-Consumes n true [] = omega arith
read-Consumes n false [] = omega arith
read-Consumes n true (chunk ∷ arrivals) = taken-Consumes true n chunk arrivals
read-Consumes n false (chunk ∷ arrivals) = taken-Consumes false n chunk arrivals

take_body-size :
    (k : Bytes → Stream → Stream × Result ReadError Bytes) (body : Bytes) (m : ℕ)
    (r : Stream × Result ReadError Bytes)
    → Consumes m r
    → ((body : Bytes) (s : Stream) → size s ≤ m → size (k body s).0 ≤ m)
    → size (take_body k body r).0 ≤ m
unfolding take_body
take_body-size k body m (s, err e) h g = h
take_body-size k body m (s, ok []) h g = h
take_body-size k body m (s, ok (b ∷ chunk)) h g = g (body ++ b ∷ chunk) s (omega arith)

read_body-size :
    (fuel n : ℕ) (body : Bytes) (m : ℕ) (s : Stream)
    → size s ≤ m
    → size (read_body fuel n body s).0 ≤ m
unfolding read_body
read_body-size zero n body m s h = h
read_body-size (suc fuel) n body m s h =
    let rest =
      take_body-size (read_body fuel n) body (size s) (read (n - length body) s.closes s.arrivals)
        (read-Consumes (n - length body) s.closes s.arrivals)
        (λ body t k. read_body-size fuel n body (size s) t k) in
    elim (Bool-cases (ltb (length body) n)) [
      | inl t ↦ rw (t, read_body) (omega (arith, rest))
      | inr f ↦ rw (f, read_body) h
    ]

body_of-size : (n : ℕ) (behind : Bytes) (s : Stream) → size (body_of n behind s).0 ≤ size s
unfolding body_of
body_of-size n behind s = go (ltb 0 n)
  where
    go : (b : Bool) → size (if b then read_body (suc n) n behind s else (s, ok [])).0 ≤ size s
    go true = read_body-size (suc n) n behind (size s) s (omega arith)
    go false = omega arith

-- A request leaves fewer bytes.
abbrev pub Shrinks : ℕ → Outcome → Type 0
Shrinks m (s, ok (some request)) = size s < m
Shrinks m (s, ok none) = Unit
Shrinks m (s, err e) = Unit

with_body-Shrinks :
    (p : Parsed) (headers : HashMap Text Text) (m : ℕ) (r : Stream × Result ReadError Bytes)
    → size r.0 < m
    → Shrinks m (with_body p headers r)
unfolding with_body
with_body-Shrinks p headers m (s, err e) h = tt
with_body-Shrinks p headers m (s, ok body) h = h

module _ (parse : Bytes → Status) where
  parsed-Shrinks :
      (k : Bytes → Stream → Outcome) (buf : Bytes) (pos m : ℕ) (status : Status) (s : Stream)
      → size s < m
      → Shrinks m (k buf s)
      → Shrinks m (parsed parse k buf pos status s)
  unfolding parsed finish
  parsed-Shrinks k buf pos m (complete p) s h g =
      with_body-Shrinks p (insert_headers p.headers []) m
        (body_of (content_length (insert_headers p.headers [])) (drop (pos + 4) buf) s)
        (omega (
          arith,
          body_of-size (content_length (insert_headers p.headers [])) (drop (pos + 4) buf) s,
        ))
  parsed-Shrinks k buf pos m partial s h g = g
  parsed-Shrinks k buf pos m failed s h g = tt

  look-Shrinks :
      (k : Bytes → Stream → Outcome) (buf : Bytes) (m : ℕ) (o : Option ℕ) (s : Stream)
      → size s < m
      → Shrinks m (k buf s)
      → Shrinks m (look parse k buf o s)
  unfolding look
  look-Shrinks k buf m none s h g = g
  look-Shrinks k buf m (some pos) s h g =
      parsed-Shrinks k buf pos m (parse (take (pos + 4) buf)) s h g

  take_head-Shrinks :
      (k : Bytes → Stream → Outcome) (buf : Bytes) (m : ℕ) (r : Stream × Result ReadError Bytes)
      → Consumes m r
      → ((buf : Bytes) (s : Stream) → size s < m → Shrinks m (k buf s))
      → Shrinks m (take_head parse k buf r)
  unfolding take_head
  take_head-Shrinks k buf m (s, err e) h g = tt
  take_head-Shrinks k [] m (s, ok []) h g = tt
  take_head-Shrinks k (b ∷ buf) m (s, ok []) h g = tt
  take_head-Shrinks k buf m (s, ok (b ∷ chunk)) h g =
      look-Shrinks k (buf ++ b ∷ chunk) m (find_header_end (buf ++ b ∷ chunk)) s h
        (g (buf ++ b ∷ chunk) s h)

  Shrinks-le : (m n : ℕ) (o : Outcome) → m ≤ n → Shrinks m o → Shrinks n o
  Shrinks-le m n (s, ok (some request)) h g = omega arith
  Shrinks-le m n (s, ok none) h g = tt
  Shrinks-le m n (s, err e) h g = tt

  read_head-Shrinks :
      (fuel : ℕ) (buf : Bytes) (s : Stream) → Shrinks (size s) (read_head parse fuel buf s)
  unfolding read_head
  read_head-Shrinks zero buf s = tt
  read_head-Shrinks (suc fuel) buf s =
      let rest =
        take_head-Shrinks (read_head parse fuel) buf (size s)
          (read (max_headers_size - length buf) s.closes s.arrivals)
          (read-Consumes (max_headers_size - length buf) s.closes s.arrivals)
          (λ buf t h.
            Shrinks-le (size t) (size s) (read_head parse fuel buf t) (omega arith)
              (read_head-Shrinks fuel buf t)) in
      elim (Bool-cases (leb max_headers_size (length buf))) [
        | inl t ↦ rw (t, read_head) tt
        | inr f ↦ rw (f, read_head) rest
      ]

  -- A request that has been read leaves fewer bytes on the stream than there were.
  pub read_request-Shrinks : (s : Stream) → Shrinks (size s) (read_request parse s)
  unfolding read_request
  read_request-Shrinks s = read_head-Shrinks (suc max_headers_size) [] s
