-- ===== src/Vpn/Cstp/Laws.antt =====
-- The type byte, the header and the two encoders.
use ocserv_rs.Base.{
  ℕ, zero, suc, ◌+◌, ◌*◌, ◌/◌, ◌%◌, ◌<◌, ◌≤◌, ◌≡◌, ◌≢◌, ◌↔◌, refl, ap, sym, ◌∙◌, Result, ok, err,
  List, [], ◌∷◌, ◌++◌, length, take, drop, arith, append-nil, length-append, if◌then◌else◌,
}
use ocserv_rs.Base.Text.{Bytes}
use ocserv_rs.Base.Eq.{nat_eq, bytes_eq, list_beq}
use ocserv_rs.Vpn.Cstp.{
  PacketType, unknown, from_u8, to_u8, CstpPacket, encode_into, encode, write_packet, body_len,
  parse_header, magic,
}

-- The types that a byte stands for: `Unknown` holds no code that has a name.
abbrev pub IsCanonical : PacketType → Type 0
IsCanonical (unknown u) = (u ≢ 0) × (u ≢ 3) × (u ≢ 4) × (u ≢ 5) × (u ≢ 7) × (u ≢ 8) × (u ≢ 9)
IsCanonical _ = Unit

pub to_u8-from_u8 : (b : ℕ) → to_u8 (from_u8 b) ≡ b
unfolding from_u8 to_u8
to_u8-from_u8 b = ground arith

from_u8-to_u8_canonical : (t : PacketType) → IsCanonical t → from_u8 (to_u8 t) ≡ t
unfolding from_u8 to_u8
from_u8-to_u8_canonical (unknown u) h = ground arith
from_u8-to_u8_canonical _ h = refl

from_u8-IsCanonical : (b : ℕ) → IsCanonical (from_u8 b)
unfolding from_u8
from_u8-IsCanonical b = ground arith

-- Every byte is the code of its type, and a type comes back from its code exactly when it is no
-- `Unknown` with a code that has a name.
pub packet_type_roundtrip :
    (b : ℕ) (t : PacketType) → (to_u8 (from_u8 b) ≡ b) × ((from_u8 (to_u8 t) ≡ t) ↔ IsCanonical t)
packet_type_roundtrip b t = (
  to_u8-from_u8 b,
  (
    λ e. ocserv_rs.Base.subst IsCanonical e (from_u8-IsCanonical (to_u8 t)),
    from_u8-to_u8_canonical t,
  ),
)

-- The encoder into a buffer and the one from a slice append the same bytes.
pub write_packet-eq-encode_into :
    (p : CstpPacket) (buf : Bytes)
    → (write_packet p.packet_type p.payload buf ≡ encode_into p buf)
      × (encode_into p buf ≡ buf ++ encode p)
unfolding write_packet encode_into encode
write_packet-eq-encode_into p buf = (refl, refl)

pub length-encode : (p : CstpPacket) → length (encode p) ≡ length p.payload + 8
unfolding encode
length-encode p = omega arith

-- The length field of a payload that fits it.
pub body_len-encode :
    (p : CstpPacket) (rest : Bytes) → body_len (encode p ++ rest) ≡ length p.payload % 65536
unfolding encode body_len
body_len-encode p rest = omega arith

-- The header that `encode` writes parses to the packet's type, as a byte names it, and to the
-- payload's length modulo 65536.
pub parse_header-encode :
    (p : CstpPacket)
    → parse_header (take 8 (encode p))
      ≡ ok (from_u8 (to_u8 p.packet_type), length p.payload % 65536)
unfolding encode parse_header list_beq
parse_header-encode p = ground arith

pub record IsHeader (header : Bytes) (t : PacketType) (n : ℕ) : Type 0 where
  pub hi : ℕ
  pub lo : ℕ
  pub code : ℕ
  pub pad : ℕ
  pub bytes : header ≡ magic ++ (hi ∷ lo ∷ code ∷ pad ∷ [])
  pub named : from_u8 code ≡ t
  pub sized : hi * 256 + lo ≡ n

parse_header_sound :
    (header : Bytes) (t : PacketType) (n : ℕ)
    → parse_header header ≡ ok (t, n)
    → IsHeader header t n
unfolding parse_header list_beq
parse_header_sound (a ∷ b ∷ c ∷ d ∷ hi ∷ lo ∷ code ∷ pad ∷ []) t n e = record {
  hi = hi;
  lo = lo;
  code = code;
  pad = pad;
  bytes = ground arith;
  named = ground arith;
  sized = ground arith;
}
parse_header_sound header t n e = absurd (ground arith)

parse_header_complete :
    (header : Bytes) (t : PacketType) (n : ℕ)
    → IsHeader header t n
    → parse_header header ≡ ok (t, n)
unfolding parse_header list_beq
parse_header_complete header t n h = rw h.bytes (ground arith)

-- A header is accepted exactly when it is the magic, two bytes of length, one of type and one more,
-- and the type and length returned are those of these bytes.
pub parse_header_iff :
    (header : Bytes) (t : PacketType) (n : ℕ)
    → (parse_header header ≡ ok (t, n)) ↔ IsHeader header t n
parse_header_iff header t n = (parse_header_sound header t n, parse_header_complete header t n)
