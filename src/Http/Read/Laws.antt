-- ===== src/Http/Read/Laws.antt =====
-- The reader of requests ends, and what it makes of what arrives.
use ocserv_rs.Base.{
  ℕ, zero, suc, ◌+◌, ◌-◌, ◌≤◌, ◌≡◌, ◌≢◌, refl, ap, sym, ◌∙◌, Option, none, some, Bool, true, false,
  Result, ok, err, List, [], ◌∷◌, ◌++◌, length, take, drop, arith, length-append, inl, inr,
  Bool-cases, if◌then◌else◌, ltb, leb,
}
use ocserv_rs.Base.Text.{Text, Bytes}
use ocserv_rs.Base.HashMap.{HashMap}
use ocserv_rs.Http.Response.{find_header_end}
use ocserv_rs.Http.Read.{
  Stream, ReadError, out_of_fuel, read, Parsed, Status, complete, partial, failed, max_headers_size,
  insert_headers, content_length, take_body, read_body, body_of, Outcome, with_body, finish, parsed,
  look, take_head, read_head, read_request,
}

true-false : true ≡ false → ⊥
true-false e = absurd (ground arith)

abbrev ended_error : ReadError → Bool
ended_error out_of_fuel = false
ended_error e = true

abbrev ended {ℓ} : {A : Type ℓ} → Result ReadError A → Bool
ended (ok a) = true
ended (err e) = ended_error e

-- The fuel did not run out.
abbrev Ends {ℓ} : {A : Type ℓ} → Stream × Result ReadError A → Type 0
Ends x = ended x.1 ≡ true

read-Ends : (n : ℕ) (closes : Bool) (arrivals : List Bytes) → Ends (read n closes arrivals)
unfolding read
read-Ends n true [] = refl
read-Ends n false [] = refl
read-Ends n true (chunk ∷ arrivals) = refl
read-Ends n false (chunk ∷ arrivals) = refl

take_body-Ends :
    (k : Bytes → Stream → Stream × Result ReadError Bytes) (body : Bytes)
    (r : Stream × Result ReadError Bytes)
    → Ends r
    → ((b : ℕ) (chunk : Bytes) (s : Stream) → Ends (k (body ++ b ∷ chunk) s))
    → Ends (take_body k body r)
unfolding take_body
take_body-Ends k body (s, err x) h g = h
take_body-Ends k body (s, ok []) h g = refl
take_body-Ends k body (s, ok (b ∷ chunk)) h g = g b chunk s

read_body-Ends :
    (fuel n : ℕ) (body : Bytes) (s : Stream)
    → n ≤ length body + fuel
    → Ends (read_body (suc fuel) n body s)
unfolding read_body
read_body-Ends zero n body s h = elim (Bool-cases (ltb (length body) n)) [
  | inl t ↦ absurd (ground arith)
  | inr f ↦ rw (f, read_body) refl
]
read_body-Ends (suc fuel) n body s h =
    let rest =
      take_body-Ends (read_body (suc fuel) n) body (read (n - length body) s.closes s.arrivals)
        (read-Ends (n - length body) s.closes s.arrivals)
        (λ b chunk t.
          read_body-Ends fuel n (body ++ b ∷ chunk) t
            (omega (arith, length-append body (b ∷ chunk)))) in
    elim (Bool-cases (ltb (length body) n)) [
      | inl t ↦ rw (t, read_body) rest
      | inr f ↦ rw (f, read_body) refl
    ]

with_body-Ends :
    (p : Parsed) (headers : HashMap Text Text) (r : Stream × Result ReadError Bytes)
    → Ends r
    → Ends (with_body p headers r)
unfolding with_body
with_body-Ends p headers (s, err x) h = h
with_body-Ends p headers (s, ok body) h = refl

body_of-Ends : (n : ℕ) (behind : Bytes) (s : Stream) → Ends (body_of n behind s)
unfolding body_of
body_of-Ends n behind s = go (ltb 0 n) (read_body-Ends n n behind s (omega arith))
  where
    go :
        (b : Bool)
        → Ends (read_body (suc n) n behind s)
        → Ends (if b then read_body (suc n) n behind s else (s, ok []))
    go true h = h
    go false h = refl

module _ (parse : Bytes → Status) where
  parsed-Ends :
      (k : Bytes → Stream → Outcome) (buf : Bytes) (pos : ℕ) (status : Status) (s : Stream)
      → Ends (k buf s)
      → Ends (parsed parse k buf pos status s)
  unfolding parsed finish
  parsed-Ends k buf pos (complete p) s h =
      with_body-Ends p _ _
        (body_of-Ends (content_length (insert_headers p.headers [])) (drop (pos + 4) buf) s)
  parsed-Ends k buf pos partial s h = h
  parsed-Ends k buf pos failed s h = refl

  look-Ends :
      (k : Bytes → Stream → Outcome) (buf : Bytes) (o : Option ℕ) (s : Stream)
      → Ends (k buf s)
      → Ends (look parse k buf o s)
  unfolding look
  look-Ends k buf none s h = h
  look-Ends k buf (some pos) s h = parsed-Ends k buf pos (parse (take (pos + 4) buf)) s h

  take_head-Ends :
      (k : Bytes → Stream → Outcome) (buf : Bytes) (r : Stream × Result ReadError Bytes)
      → Ends r
      → ((b : ℕ) (chunk : Bytes) (s : Stream) → Ends (k (buf ++ b ∷ chunk) s))
      → Ends (take_head parse k buf r)
  unfolding take_head
  take_head-Ends k buf (s, err x) h g = h
  take_head-Ends k [] (s, ok []) h g = refl
  take_head-Ends k (b ∷ buf) (s, ok []) h g = refl
  take_head-Ends k buf (s, ok (b ∷ chunk)) h g =
      look-Ends k (buf ++ b ∷ chunk) (find_header_end (buf ++ b ∷ chunk)) s (g b chunk s)

  read_head-Ends :
      (fuel : ℕ) (buf : Bytes) (s : Stream)
      → max_headers_size ≤ length buf + fuel
      → Ends (read_head parse (suc fuel) buf s)
  unfolding read_head
  read_head-Ends zero buf s h = rw (full buf h, read_head) refl
    where
      full :
          (buf : Bytes)
          → max_headers_size ≤ length buf + 0
          → leb max_headers_size (length buf) ≡ true
      full buf h = ground arith
  read_head-Ends (suc fuel) buf s h =
      let rest =
        take_head-Ends (read_head parse (suc fuel)) buf
          (read (max_headers_size - length buf) s.closes s.arrivals)
          (read-Ends (max_headers_size - length buf) s.closes s.arrivals)
          (λ b chunk t.
            read_head-Ends fuel (buf ++ b ∷ chunk) t
              (omega (arith, length-append buf (b ∷ chunk)))) in
      elim (Bool-cases (leb max_headers_size (length buf))) [
        | inl t ↦ rw (t, read_head) refl
        | inr f ↦ rw (f, read_head) rest
      ]

  -- The reader of requests ends on every stream, however it arrives: a buffer of 8192 bytes allows
  -- no more reads than it has fuel for, and neither does a body of a stated length.
  pub read_request_ends : (s : Stream) → (read_request parse s).1 ≢ err out_of_fuel
  unfolding read_request
  read_request_ends s e =
      let h = read_head-Ends max_headers_size [] s (omega arith) in
      absurd (true-false (sym h ∙ ap ended e))
