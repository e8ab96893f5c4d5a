-- ===== src/Vpn/Cstp/Tests.antt =====
-- Runs of the framing, and the theorems at concrete packets.
use ocserv_rs.Base.{◌%◌, ◌≡◌, ◌↔◌, refl, ok, [], ◌∷◌, ◌++◌, length, take}
use ocserv_rs.Base.Text.{Bytes, text}
use ocserv_rs.Base.Eq.{list_beq}
use ocserv_rs.Vpn.Cstp.{
  data_packet, dpd_req, unknown, from_u8, to_u8, CstpPacket, encode_into, encode, write_packet,
  parse_header,
}
use ocserv_rs.Vpn.Cstp.Laws.{
  IsCanonical, IsHeader, packet_type_roundtrip, write_packet-eq-encode_into, parse_header-encode,
  parse_header_iff,
}

abbrev hello : CstpPacket
hello = record { packet_type = data_packet; payload = text "HELLO" }

abbrev hello_header : Bytes
hello_header = 83 ∷ 84 ∷ 70 ∷ 1 ∷ 0 ∷ 5 ∷ 3 ∷ 0 ∷ []

encode-hello : take 8 (encode hello) ≡ 83 ∷ 84 ∷ 70 ∷ 1 ∷ 0 ∷ 5 ∷ 0 ∷ 0 ∷ []
unfolding encode text to_u8
encode-hello = refl

parse_hello : parse_header hello_header ≡ ok (dpd_req, 5)
unfolding parse_header list_beq from_u8
parse_hello = refl

packet_types_read :
    (to_u8 (from_u8 7) ≡ 7) × ((from_u8 (to_u8 (unknown 4)) ≡ unknown 4) ↔ IsCanonical (unknown 4))
packet_types_read = packet_type_roundtrip 7 (unknown 4)

hello_written :
    (write_packet data_packet (text "HELLO") (1 ∷ []) ≡ encode_into hello (1 ∷ []))
    × (encode_into hello (1 ∷ []) ≡ (1 ∷ []) ++ encode hello)
hello_written = write_packet-eq-encode_into hello (1 ∷ [])

parse_header-encode_example :
    parse_header (take 8 (encode hello))
    ≡ ok (from_u8 (to_u8 data_packet), length (text "HELLO") % 65536)
parse_header-encode_example = parse_header-encode hello

parse_header_iff_run :
    (parse_header hello_header ≡ ok (dpd_req, 5)) ↔ IsHeader hello_header dpd_req 5
parse_header_iff_run = parse_header_iff hello_header dpd_req 5
