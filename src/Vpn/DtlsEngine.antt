-- ===== src/Vpn/DtlsEngine.antt =====
-- src/vpn/dtls_engine.rs: an SSL object over a stream in memory. OpenSSL's object is a parameter.
pub mod Laws
pub mod Sample
mod Tests
use ocserv_rs.Base.{
  ℕ, zero, suc, ◌+◌, ◌<◌, ◌≡◌, Option, none, some, Bool, true, false, Result, ok, err, List, [],
  ◌∷◌, ◌++◌, length, take, drop, if◌then◌else◌,
}
use ocserv_rs.Base.Text.{Bytes, is_empty}
use ocserv_rs.Base.Eq.{◌==◌, nat_eq}

-- `incoming` is a cursor: its bytes and its position.
pub record MemoryStream : Type 0 where
  pub incoming : Bytes
  pub position : ℕ
  pub outgoing : Bytes

abbrev pub fresh : MemoryStream
fresh = record { incoming = []; position = 0; outgoing = [] }

unfoldable pub take_chunk : MemoryStream → Bytes → MemoryStream × Option Bytes
take_chunk s [] = (s, none)
take_chunk s (c ∷ chunk) =
    (record s { position = s.position + length (c ∷ chunk) }, some (c ∷ chunk))

-- `Read::read` with room for n bytes; `none` is the error `WouldBlock`.
unfoldable pub read : MemoryStream → ℕ → MemoryStream × Option Bytes
unfolding take_chunk
read s n = take_chunk s (take n (drop s.position s.incoming))

unfoldable pub write : MemoryStream → Bytes → MemoryStream
write s buf = record s { outgoing = s.outgoing ++ buf }

-- The codes of `openssl::ssl::Error` that the engine tells apart. A system error carries whether
-- its I/O error is `WouldBlock`.
pub data SslError : Type 0 where
  want_read want_write zero_return : SslError
  syscall : Bool → SslError
  other_error : SslError

-- OpenSSL: a read into a buffer of 4096 bytes and a write, on the object and its stream. OpenSSL
-- hands out no more records than it has: each read that succeeds lowers `pending`.
pub record Ssl : Type 1 where
  pub Conn : Type 0
  pub ssl_read : Conn → MemoryStream → Conn × MemoryStream × Result SslError Bytes
  pub ssl_write : Conn → MemoryStream → Bytes → Conn × MemoryStream × Bool
  pub pending : Conn → MemoryStream → ℕ
  pub read_pending :
      (c d : Conn) (s t : MemoryStream) (packet : Bytes)
      → ssl_read c s ≡ (d, t, ok packet)
      → pending d t < pending c s

-- Step 1 of `feed_encrypted`: the packet goes behind the unread bytes.
unfoldable pub push_incoming : MemoryStream → Bytes → MemoryStream
push_incoming s buf =
    if is_empty buf
    then s
    else if s.position == length s.incoming
    then record s { incoming = buf; position = 0 }
    else record s { incoming = s.incoming ++ buf }

-- The errors at which the read loop breaks; the others are returned.
unfoldable pub breaks_loop : SslError → Bool
breaks_loop want_read = true
breaks_loop want_write = true
breaks_loop zero_return = true
breaks_loop (syscall would_block) = would_block
breaks_loop other_error = false

pub data EngineError : Type 0 where
  ssl_error : SslError → EngineError
  out_of_fuel : EngineError

pub data DtlsMode : Type 0 where
  server client : DtlsMode

module _ (ssl : Ssl) where
  open ssl use {Conn, ssl_read, ssl_write, pending}

  pub record DtlsEngine : Type 0 where
    pub conn : Conn
    pub stream : MemoryStream

  abbrev with_conn : Option Conn → Option DtlsEngine
  with_conn none = none
  with_conn (some c) = some (record { conn = c; stream = fresh })

  -- `create` is OpenSSL's: an object that is to accept or to connect, on the stream.
  unfoldable pub new : (DtlsMode → Option Conn) → DtlsMode → Option DtlsEngine
  new create mode = with_conn (create mode)

  -- A placeholder in the code.
  unfoldable pub is_init_finished : DtlsEngine → Bool
  is_init_finished e = true

  unfoldable pub push_packet : List Bytes → Bytes → List Bytes
  push_packet packets packet = if is_empty packet then packets else packets ++ packet ∷ []

  -- One round of step 2: the result of `ssl_read`, and the rounds that follow.
  unfoldable pub after_read :
      (DtlsEngine → List Bytes → DtlsEngine × Result EngineError (List Bytes))
      → List Bytes
      → Conn × MemoryStream × Result SslError Bytes
      → DtlsEngine × Result EngineError (List Bytes)
  unfolding breaks_loop push_packet
  after_read k packets (c, s, ok packet) =
      k (record { conn = c; stream = s }) (push_packet packets packet)
  after_read k packets (c, s, err code) = (
    record { conn = c; stream = s },
    if breaks_loop code then ok packets else err (ssl_error code),
  )

  -- Step 2, on fuel.
  unfoldable pub read_loop :
      ℕ → DtlsEngine → List Bytes → DtlsEngine × Result EngineError (List Bytes)
  unfolding after_read
  read_loop zero e packets = (e, err out_of_fuel)
  read_loop (suc n) e packets = after_read (read_loop n) packets (ssl_read e.conn e.stream)

  unfoldable pub feed_encrypted : DtlsEngine → Bytes → DtlsEngine × Result EngineError (List Bytes)
  unfolding push_incoming
  feed_encrypted e buf =
      let s = push_incoming e.stream buf in
      read_loop (suc (pending e.conn s)) (record { conn = e.conn; stream = s }) []

  -- `true` for `Ok`.
  unfoldable pub feed_decrypted : DtlsEngine → Bytes → DtlsEngine × Bool
  feed_decrypted e buf =
      let (c, s, done) = ssl_write e.conn e.stream buf in (record { conn = c; stream = s }, done)

  -- `Ok` always.
  unfoldable pub extract_outgoing : DtlsEngine → DtlsEngine × Option Bytes
  extract_outgoing e = if is_empty e.stream.outgoing then (e, none) else (
    record e {
      stream = record { incoming = e.stream.incoming; position = e.stream.position; outgoing = [] };
    },
    some e.stream.outgoing,
  )
