-- ===== src/Vpn/Dtls/Hello.antt =====
-- src/vpn/dtls.rs: the session id of a DTLS ClientHello. The crate hex is a parameter.
pub mod Laws
use ocserv_rs.Base.{
  ℕ, ◌+◌, Option, none, some, Bool, true, false, ◌&&◌, not, List, [], ◌∷◌, length, take, drop,
  get_or, if◌then◌else◌, ltb, leb,
}
use ocserv_rs.Base.Text.{Text, Bytes}
use ocserv_rs.Base.Eq.{◌==◌, nat_eq}

-- `packet[i]`: the tests before it make sure that i is in range.
abbrev pub byte_at : ℕ → Bytes → ℕ
byte_at i packet = get_or packet i 0

-- From the length of the session id on.
unfoldable pub extract_session_id : (Bytes → Text) → Bytes → ℕ → Option Text
extract_session_id hex packet session_id_len =
    if session_id_len == 0
    then none
    else if ltb (length packet) (60 + session_id_len)
    then none
    else some (hex (take session_id_len (drop 60 packet)))

unfoldable pub extract_session_id_from_client_hello : (Bytes → Text) → Bytes → Option Text
unfolding extract_session_id
extract_session_id_from_client_hello hex packet =
    if ltb (length packet) 60
    then none
    else if not (byte_at 0 packet == 22)
    then none
    else if ltb 13 (length packet) && not (byte_at 13 packet == 1)
    then none
    else if leb (length packet) 59
    then none
    else extract_session_id hex packet (byte_at 59 packet)
