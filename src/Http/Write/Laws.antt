-- ===== src/Http/Write/Laws.antt =====
-- When a response is written.
use ocserv_rs.Base.{ℕ, ◌<◌, ◌≤◌, ◌≡◌, ◌↔◌, true, length, get_or, arith}
use ocserv_rs.Base.Text.{Bytes}
use ocserv_rs.Base.Utf8.{is_utf8, is_char_boundary}
use ocserv_rs.Http.Response.{HttpResponse, build}
use ocserv_rs.Http.Write.{Wire, panicked, preview_panics, write_response}

-- What is cut by the preview: a character of text that byte 500 stands in the middle of.
abbrev pub IsCut : Bytes → Type 0
IsCut bytes =
    (is_utf8 bytes ≡ true)
    × (500 < length bytes)
    × (0x80 ≤ get_or bytes 500 0)
    × (get_or bytes 500 0 ≤ 0xBF)

preview_panics-IsCut : (bytes : Bytes) → preview_panics bytes ≡ true → IsCut bytes
unfolding preview_panics is_char_boundary
preview_panics-IsCut bytes h = ground arith

IsCut-preview_panics : (bytes : Bytes) → IsCut bytes → preview_panics bytes ≡ true
unfolding preview_panics is_char_boundary
IsCut-preview_panics bytes h = ground arith

panics :
    (wire : Wire) (r : HttpResponse) (v : ℕ)
    → write_response wire r v ≡ panicked
    → preview_panics (build v r) ≡ true
unfolding write_response
panics wire r v h = ground arith

panics_back :
    (wire : Wire) (r : HttpResponse) (v : ℕ)
    → preview_panics (build v r) ≡ true
    → write_response wire r v ≡ panicked
unfolding write_response
panics_back wire r v h = ground arith

-- The writer panics exactly if its bytes are text of more than 500 bytes with a character that byte
-- 500 stands in the middle of, whatever the stream does.
pub write_response-panicked :
    (wire : Wire) (response : HttpResponse) (http_version : ℕ)
    → (write_response wire response http_version ≡ panicked) ↔ IsCut (build http_version response)
write_response-panicked wire r v = (
  λ e. preview_panics-IsCut (build v r) (panics wire r v e),
  λ c. panics_back wire r v (IsCut-preview_panics (build v r) c),
)
