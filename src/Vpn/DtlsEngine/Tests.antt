-- ===== src/Vpn/DtlsEngine/Tests.antt =====
-- The engine's theorems on an object that passes records through.
use ocserv_rs.Base.{◌≡◌, ◌≢◌, refl, none, some, ok, err, [], ◌∷◌, arith}
use ocserv_rs.Base.Text.{is_empty}
use ocserv_rs.Vpn.DtlsEngine.{
  MemoryStream, read, push_incoming, DtlsEngine, read_loop, feed_encrypted, extract_outgoing,
  out_of_fuel,
}
use ocserv_rs.Vpn.DtlsEngine.Sample.{pass_read, pass_through}
use ocserv_rs.Vpn.DtlsEngine.Laws.{
  unread, IsWithin, push_incoming_queue, read_queue, extract_outgoing_once, feed_encrypted_ends,
}

abbrev half_read : MemoryStream
half_read = record { incoming = 1 ∷ 2 ∷ 3 ∷ []; position = 2; outgoing = 9 ∷ [] }

abbrev engine : DtlsEngine pass_through
engine = record { conn = 1; stream = half_read }

feed_and_read : (feed_encrypted pass_through engine (4 ∷ [])).1 ≡ ok ((3 ∷ 4 ∷ []) ∷ [])
unfolding feed_encrypted read_loop pass_read is_empty
feed_and_read = refl

half_read_pushed :
    (unread (push_incoming half_read (4 ∷ 5 ∷ [])) ≡ 3 ∷ 4 ∷ 5 ∷ [])
    × IsWithin (push_incoming half_read (4 ∷ 5 ∷ []))
    × ((push_incoming half_read (4 ∷ 5 ∷ [])).outgoing ≡ 9 ∷ [])
half_read_pushed = push_incoming_queue half_read (4 ∷ 5 ∷ []) (omega arith)

half_read_takes :
    (unread (read half_read 10).0 ≡ [])
    × IsWithin (read half_read 10).0
    × ((read half_read 10).1 ≡ some (3 ∷ []))
half_read_takes = read_queue half_read 10 (omega arith)

engine_sends_once :
    ((extract_outgoing pass_through engine).1 ≡ some (9 ∷ []))
    × ((extract_outgoing pass_through (extract_outgoing pass_through engine).0).1 ≡ none)
    × ((extract_outgoing pass_through engine).0.stream.incoming ≡ 1 ∷ 2 ∷ 3 ∷ [])
engine_sends_once = extract_outgoing_once pass_through engine

feed_encrypted_ends_run : (feed_encrypted pass_through engine (4 ∷ [])).1 ≢ err out_of_fuel
feed_encrypted_ends_run = feed_encrypted_ends pass_through engine (4 ∷ [])
