-- ===== src/Http/Write.antt =====
-- src/http/manual_http.rs: the writer of responses.
pub mod Laws
use ocserv_rs.Base.{ℕ, Bool, true, false, not, ◌&&◌, List, [], ◌∷◌, length, if◌then◌else◌, ltb}
use ocserv_rs.Base.Text.{Bytes}
use ocserv_rs.Base.Utf8.{is_utf8, is_char_boundary}
use ocserv_rs.Http.Response.{HttpResponse, build}

-- Whether the stream takes the bytes and the flush.
pub record Wire : Type 0 where
  pub written : Bool
  pub flushed : Bool

pub data Written : Type 0 where
  sent : Bytes → Written
  panicked write_failed flush_failed : Written

-- The preview of a response that is text is cut at 500 bytes, whether it is logged or not, and there
-- is a panic if a character does not end there.
unfoldable pub preview_panics : Bytes → Bool
unfolding is_utf8 is_char_boundary
preview_panics bytes = is_utf8 bytes && (ltb 500 (length bytes) && not (is_char_boundary bytes 500))

unfoldable pub write_response : Wire → HttpResponse → ℕ → Written
unfolding preview_panics
write_response wire response http_version =
    let bytes = build http_version response in
    if preview_panics bytes
    then panicked
    else if not wire.written
    then write_failed
    else if not wire.flushed
    then flush_failed
    else sent bytes
