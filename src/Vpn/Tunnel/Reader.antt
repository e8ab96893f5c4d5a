-- ===== src/Vpn/Tunnel/Reader.antt =====
-- src/vpn/tunnel.rs, task 2, TLS branch: the stream is cut into packets, which go to the TUN device
-- or are answered on the control channel.
pub mod Step
pub mod Fragments
pub mod Delivery
mod Tests
use ocserv_rs.Base.{
  ℕ, zero, suc, ◌+◌, Option, none, some, Bool, true, false, ◌||◌, List, [], ◌∷◌, ◌++◌, length, take,
  drop, get_or, if◌then◌else◌, ltb,
}
use ocserv_rs.Base.Text.{Bytes, is_empty}
use ocserv_rs.Vpn.Cstp.{
  PacketType, data_packet, dpd_req, dpd_resp, disconnect, keep_alive, from_u8, body_len, encode,
  cstp_header_len,
}

-- `tls_in_buf`, the payloads handed to `write_all` of the TUN device and the messages sent to task 1, in order.
pub record Reader : Type 0 where
  pub tls_in_buf : Bytes
  pub tun : List Bytes
  pub control : List Bytes

abbrev pub start : Reader
start = record { tls_in_buf = []; tun = []; control = [] }

-- The inner loop breaks for more data, or the task returns.
pub data Exit : Type 0 where
  waiting stopped out_of_fuel : Exit

-- `split_to(total_len)`, if the buffer holds a whole packet.
unfoldable pub split_packet : Bytes → Option (Bytes × Bytes)
split_packet buf =
    if ltb (length buf) cstp_header_len
    then none
    else if ltb (length buf) (cstp_header_len + body_len buf)
    then none
    else some (take (cstp_header_len + body_len buf) buf, drop (cstp_header_len + body_len buf) buf)

-- What `tls_r.read_buf` returns: some bytes, the end of the stream, or an error.
pub data TlsEvent : Type 0 where
  received : Bytes → TlsEvent
  closed failed : TlsEvent

abbrev pub extend : Reader → Bytes → Reader
extend r chunk = record r { tls_in_buf = r.tls_in_buf ++ chunk }

unfoldable pub after : (Reader → Reader × Exit) → Reader × Bool → Reader × Exit
after k (r, true) = k r
after k (r, false) = (r, stopped)

unfoldable pub resume : (Reader → Reader × Exit) → Reader × Exit → Reader × Exit
resume k (r, waiting) = k r
resume k (r, stopped) = (r, stopped)
resume k (r, out_of_fuel) = (r, out_of_fuel)

-- `tun_ok n` says whether the write after `n` successful ones to the TUN device succeeds; the one of no
-- bytes always does.
module _ (tun_ok : ℕ → Bool) where
  -- The match on the packet type; `false` when the task returns.
  unfoldable pub handle : Reader → PacketType → Bytes → Reader × Bool
  handle r data_packet payload =
      if is_empty payload || tun_ok (length r.tun)
      then (record r { tun = r.tun ++ payload ∷ [] }, true)
      else (r, false)
  handle r dpd_req payload = (
    record r {
      control = r.control ++ encode (record { packet_type = dpd_resp; payload = payload }) ∷ [];
    },
    true,
  )
  handle r keep_alive payload = (
    record r {
      control = r.control ++ encode (record { packet_type = keep_alive; payload = payload }) ∷ [];
    },
    true,
  )
  handle r disconnect payload = (r, false)
  handle r _ payload = (r, true)

  unfoldable pub handle_packet : Reader → Bytes → Bytes → Reader × Bool
  handle_packet r packet rest =
      handle (record r { tls_in_buf = rest }) (from_u8 (get_or packet 6 0))
        (drop cstp_header_len packet)

  -- The inner loop, on fuel.
  unfoldable pub process : ℕ → Reader → Reader × Exit
  process zero r = (r, out_of_fuel)
  process (suc n) r = elim (split_packet r.tls_in_buf) [
    | none ↦ (r, waiting)
    | some (packet, rest) ↦ after (process n) (handle_packet r packet rest)
  ]

  -- The inner loop with fuel enough: every round takes a header at least.
  unfoldable pub deframe : Reader → Reader × Exit
  deframe r = process (suc (length r.tls_in_buf)) r

  -- The outer loop over what the stream delivers.
  unfoldable pub run : Reader → List TlsEvent → Reader × Exit
  run r [] = (r, waiting)
  run r (received chunk ∷ events) = resume (λ s. run s events) (deframe (extend r chunk))
  run r (closed ∷ events) = (r, stopped)
  run r (failed ∷ events) = (r, stopped)
