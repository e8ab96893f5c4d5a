-- ===== src/Vpn/Cstp.antt =====
-- src/vpn/cstp.rs: the framing of packets on the TLS stream.
pub mod Laws
mod Tests
use ocserv_rs.Base.{
  ℕ, zero, suc, ◌+◌, ◌*◌, ◌/◌, ◌%◌, Result, ok, err, List, [], ◌∷◌, ◌++◌, length, take, get_or,
  if◌then◌else◌, not, nat_beq,
}
use ocserv_rs.Base.Text.{Bytes}
use ocserv_rs.Base.Eq.{◌==◌, nat_eq, bytes_eq}

abbrev pub cstp_header_len : ℕ
cstp_header_len = 8

-- "STF\x01"
abbrev pub magic : Bytes
magic = b'S' ∷ b'T' ∷ b'F' ∷ 1 ∷ []

pub data PacketType : Type 0 where
  data_packet dpd_req dpd_resp disconnect keep_alive compressed_data terminate : PacketType
  unknown : ℕ → PacketType

unfoldable pub from_u8 : ℕ → PacketType
from_u8 b =
    if b == 0
    then data_packet
    else if b == 3
    then dpd_req
    else if b == 4
    then dpd_resp
    else if b == 5
    then disconnect
    else if b == 7
    then keep_alive
    else if b == 8
    then compressed_data
    else if b == 9
    then terminate
    else unknown b

unfoldable pub to_u8 : PacketType → ℕ
to_u8 data_packet = 0
to_u8 dpd_req = 3
to_u8 dpd_resp = 4
to_u8 disconnect = 5
to_u8 keep_alive = 7
to_u8 compressed_data = 8
to_u8 terminate = 9
to_u8 (unknown u) = u

pub record CstpPacket : Type 0 where
  pub packet_type : PacketType
  pub payload : Bytes

-- `put_u16(n as u16)`: the two low bytes, the high one first.
unfoldable pub put_u16 : ℕ → Bytes
put_u16 n = (n / 256 % 256) ∷ (n % 256) ∷ []

-- What is appended to the buffer.
unfoldable pub encode_into : CstpPacket → Bytes → Bytes
unfolding put_u16
encode_into p buf =
    buf ++ (magic ++ (put_u16 (length p.payload) ++ (to_u8 p.packet_type ∷ 0 ∷ p.payload)))

unfoldable pub encode : CstpPacket → Bytes
unfolding encode_into
encode p = encode_into p []

unfoldable pub write_packet : PacketType → Bytes → Bytes → Bytes
unfolding put_u16
write_packet t payload buf = buf ++ (magic ++ (put_u16 (length payload) ++ (to_u8 t ∷ 0 ∷ payload)))

pub data HeaderError : Type 0 where
  invalid_header_length : HeaderError
  invalid_magic : Bytes → HeaderError

-- `u16::from_be_bytes` of bytes 4 and 5.
unfoldable pub body_len : Bytes → ℕ
body_len header = get_or header 4 0 * 256 + get_or header 5 0

unfoldable pub parse_header : Bytes → Result HeaderError (PacketType × ℕ)
unfolding body_len
parse_header header =
    if not (length header == cstp_header_len)
    then err invalid_header_length
    else if not (take 4 header == magic)
    then err (invalid_magic (take 4 header))
    else ok (from_u8 (get_or header 6 0), body_len header)
