-- ===== src/Http/Response/Tests.antt =====
-- The response builder on a small response.
use ocserv_rs.Base.{ℕ, ◌+◌, ◌≡◌, refl, arith, some, [], ◌∷◌, drop}
use ocserv_rs.Base.Text.{text}
use ocserv_rs.Http.Response.{
  HttpResponse, new, ok_response, with_header, with_body, build, find_header_end,
}
use ocserv_rs.Http.Response.Framing.{build_split}

abbrev small : HttpResponse
unfolding text
small = record {
  status_code = 200;
  status_text = 79 ∷ 75 ∷ [];
  headers = (65 ∷ [], 66 ∷ []) ∷ [];
  body = 120 ∷ 13 ∷ 10 ∷ [];
}

small_built : with_body (120 ∷ 13 ∷ 10 ∷ []) (with_header (text "A") (text "B") ok_response) ≡ small
unfolding with_body with_header ok_response new text
small_built = refl

build_split_run :
    (p : ℕ) × (find_header_end (build 1 small) ≡ some p)
    × (drop (p + 4) (build 1 small) ≡ 120 ∷ 13 ∷ 10 ∷ [])
unfolding small
build_split_run =
    build_split 1 small
      ((ground arith, (ground arith, tt)), (((ground arith, tt), (ground arith, tt)), tt))
