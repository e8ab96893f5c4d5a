-- ===== src/Vpn/DtlsEngine/Laws.antt =====
-- The memory stream is a queue, and the engine's loops end.
use ocserv_rs.Base.{
  ℕ, zero, suc, ◌<◌, ◌≤◌, ◌≡◌, ◌≢◌, refl, ap, sym, ◌∙◌, Option, none, some, Result, ok, err, List,
  [], ◌∷◌, ◌++◌, length, take, drop, arith, length-append, drop-drop, length-take, length-drop,
  drop-append_le, append-nil,
}
use ocserv_rs.Base.Text.{Bytes, is_empty}
use ocserv_rs.Vpn.DtlsEngine.{
  MemoryStream, read, push_incoming, Ssl, SslError, DtlsEngine, read_loop, feed_encrypted,
  extract_outgoing, take_chunk, after_read, EngineError, out_of_fuel, push_packet,
}

-- The bytes that wait to be read.
abbrev pub unread : MemoryStream → Bytes
unread s = drop s.position s.incoming

abbrev pub IsWithin : MemoryStream → Type 0
IsWithin s = s.position ≤ length s.incoming

drop-length : {A : Type 0} (xs : List A) → drop (length xs) xs ≡ []
drop-length [] = refl
drop-length (x ∷ xs) = drop-length xs

drop-length-take : {A : Type 0} (n : ℕ) (xs : List A) → drop (length (take n xs)) xs ≡ drop n xs
drop-length-take zero xs = refl
drop-length-take (suc n) [] = refl
drop-length-take (suc n) (x ∷ xs) = drop-length-take n xs

-- A packet from the network goes to the end of what is unread, whatever the cursor, and the cursor
-- stays within the buffer; what is to be sent is not touched.
pub push_incoming_queue :
    (s : MemoryStream) (buf : Bytes)
    → IsWithin s
    → (unread (push_incoming s buf) ≡ unread s ++ buf)
      × IsWithin (push_incoming s buf)
      × ((push_incoming s buf).outgoing ≡ s.outgoing)
unfolding push_incoming is_empty
push_incoming_queue s [] h = (sym (append-nil _), h, refl)
push_incoming_queue s (b ∷ buf) h = (
  ground (arith, drop-length s.incoming, drop-append_le s.position s.incoming (b ∷ buf)),
  ground (arith, length-append s.incoming (b ∷ buf)),
  ground arith,
)

drop_of_take : {A : Type 0} (n : ℕ) (xs : List A) → take n xs ≡ [] → drop n xs ≡ xs
drop_of_take zero xs e = refl
drop_of_take (suc n) [] e = refl
drop_of_take (suc n) (x ∷ xs) e = cc

abbrev pub nonempty : Bytes → Option Bytes
nonempty [] = none
nonempty (b ∷ bs) = some (b ∷ bs)

take_chunk_queue :
    (s : MemoryStream) (n : ℕ) (c : Bytes)
    → IsWithin s
    → take n (unread s) ≡ c
    → (unread (take_chunk s c).0 ≡ drop n (unread s))
      × IsWithin (take_chunk s c).0
      × ((take_chunk s c).1 ≡ nonempty c)
unfolding take_chunk
take_chunk_queue s n [] h e = (sym (drop_of_take n (unread s) e), h, refl)
take_chunk_queue s n (b ∷ c) h e = (
  drop-drop s.position (suc (length c)) s.incoming
      ∙ ap (λ k. drop (length k) (unread s)) (sym e)
      ∙ drop-length-take n (unread s),
  omega (arith, ap length e, length-take n (unread s), length-drop s.position s.incoming),
  refl,
)

-- A read takes the oldest unread bytes, as many as there is room for, and fails exactly when that
-- is no byte; the cursor stays within the buffer.
pub read_queue :
    (s : MemoryStream) (n : ℕ)
    → IsWithin s
    → (unread (read s n).0 ≡ drop n (unread s))
      × IsWithin (read s n).0
      × ((read s n).1 ≡ nonempty (take n (unread s)))
unfolding read
read_queue s n h = take_chunk_queue s n (take n (unread s)) h refl

module _ (ssl : Ssl) where
  -- What waits to be sent is handed out once, whole, and exactly when there is something.
  pub extract_outgoing_once :
      (e : DtlsEngine ssl)
      → ((extract_outgoing ssl e).1 ≡ nonempty e.stream.outgoing)
        × ((extract_outgoing ssl (extract_outgoing ssl e).0).1 ≡ none)
        × ((extract_outgoing ssl e).0.stream.incoming ≡ e.stream.incoming)
  unfolding extract_outgoing is_empty
  extract_outgoing_once e = go e e.stream.outgoing refl
    where
      go :
          (e : DtlsEngine ssl) (out : Bytes)
          → e.stream.outgoing ≡ out
          → ((extract_outgoing ssl e).1 ≡ nonempty e.stream.outgoing)
            × ((extract_outgoing ssl (extract_outgoing ssl e).0).1 ≡ none)
            × ((extract_outgoing ssl e).0.stream.incoming ≡ e.stream.incoming)
      go e [] h = ground arith
      go e (b ∷ out) h = ground arith

  after_read_enough :
      (k : DtlsEngine ssl → List Bytes → DtlsEngine ssl × Result EngineError (List Bytes))
      (packets : List Bytes) (x : ssl.Conn × MemoryStream × Result SslError Bytes)
      → ((packet : Bytes)
          → x.2 ≡ ok packet
          → (k (record { conn = x.0; stream = x.1 }) (push_packet ssl packets packet)).1
            ≢ err out_of_fuel)
      → (after_read ssl k packets x).1 ≢ err out_of_fuel
  unfolding after_read
  after_read_enough k packets (c, s, ok packet) h = h packet refl
  after_read_enough k packets (c, s, err code) h = ground arith

  read_loop_enough :
      (n : ℕ) (e : DtlsEngine ssl) (packets : List Bytes)
      → ssl.pending e.conn e.stream < n
      → (read_loop ssl n e packets).1 ≢ err out_of_fuel
  unfolding read_loop
  read_loop_enough zero e packets h = absurd (omega arith)
  read_loop_enough (suc n) e packets h =
      after_read_enough (read_loop ssl n) packets (ssl.ssl_read e.conn e.stream) λ packet r.
        read_loop_enough n (record { conn = c; stream = s }) (push_packet ssl packets packet)
          (omega (arith, ssl.read_pending e.conn c e.stream s packet (λ i. (c, s, r i))))
    where
      c : ssl.Conn
      c = (ssl.ssl_read e.conn e.stream).0

      s : MemoryStream
      s = (ssl.ssl_read e.conn e.stream).1

  -- Feeding a packet ends, given that OpenSSL runs out of records: the fuel is enough, so the result
  -- is the list of decrypted packets or an error of OpenSSL.
  pub feed_encrypted_ends :
      (e : DtlsEngine ssl) (buf : Bytes) → (feed_encrypted ssl e buf).1 ≢ err out_of_fuel
  unfolding feed_encrypted
  feed_encrypted_ends e buf = read_loop_enough _ _ [] (omega arith)
