-- ===== src/Http/Response.antt =====
-- src/http/manual_http.rs: the response builder.
pub mod Framing
pub mod Prefix
mod Tests
use ocserv_rs.Base.{ℕ, suc, Option, none, some, List, [], ◌∷◌, ◌++◌, length, map, if◌then◌else◌}
use ocserv_rs.Base.Text.{Text, Bytes, text, decimal, is_empty, starts_with}
use ocserv_rs.Base.Eq.{◌==◌, nat_eq}

pub record HttpResponse : Type 0 where
  pub status_code : ℕ
  pub status_text : Text
  pub headers : List (Text × Text)
  pub body : Bytes

unfoldable pub new : ℕ → Text → HttpResponse
new status_code status_text = record {
  status_code = status_code;
  status_text = status_text;
  headers = [];
  body = [];
}

unfoldable pub ok_response : HttpResponse
unfolding new
ok_response = new 200 (text "OK")

unfoldable pub not_found : HttpResponse
unfolding new
not_found = new 404 (text "Not Found")

unfoldable pub with_header : Text → Text → HttpResponse → HttpResponse
with_header name value r = record r { headers = r.headers ++ (name, value) ∷ [] }

-- `body` and `body_str`.
unfoldable pub with_body : Bytes → HttpResponse → HttpResponse
with_body body r = record r { body = body }

abbrev pub crlf : Bytes
crlf = 13 ∷ 10 ∷ []

unfoldable pub status_line : ℕ → HttpResponse → Text
status_line http_version r =
    text "HTTP/"
    ++ ((if http_version == 0 then text "1.0" else text "1.1")
        ++ (text " " ++ (decimal r.status_code ++ (text " " ++ r.status_text))))

unfoldable pub header_line : Text × Text → Text
header_line (name, value) = name ++ (text ": " ++ value)

-- The header of the body's length, if there is a body.
unfoldable pub length_lines : Bytes → List Text
length_lines [] = []
length_lines (b ∷ body) = (text "Content-Length: " ++ decimal (length (b ∷ body))) ∷ []

unfoldable pub write_lines : List Text → Bytes
write_lines [] = []
write_lines (line ∷ lines) = line ++ (13 ∷ 10 ∷ write_lines lines)

unfoldable pub build : ℕ → HttpResponse → Bytes
unfolding write_lines
build http_version r =
    write_lines (status_line http_version r ∷ (map header_line r.headers ++ length_lines r.body))
    ++ (13 ∷ 10 ∷ r.body)

abbrev pub shift : Option ℕ → Option ℕ
shift none = none
shift (some p) = some (suc p)

-- The position of "\r\n\r\n".
unfoldable pub find_header_end : Bytes → Option ℕ
unfolding starts_with
find_header_end [] = none
find_header_end (a ∷ buf) =
    if starts_with (13 ∷ 10 ∷ 13 ∷ 10 ∷ []) (a ∷ buf) then some 0 else shift (find_header_end buf)
