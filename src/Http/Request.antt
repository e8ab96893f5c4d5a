-- ===== src/Http/Request.antt =====
-- src/http/manual_http.rs: a parsed request and its two accessors.
use ocserv_rs.Base.{
  ℕ, Option, none, some, List, [], ◌∷◌, find_first, reverse, nat_beq, if◌then◌else◌,
}
use ocserv_rs.Base.Text.{Text, Bytes, split, to_lowercase}
use ocserv_rs.Base.Utf8.{from_utf8_lossy}
use ocserv_rs.Base.Eq.{◌==◌, bytes_eq}
use ocserv_rs.Base.HashMap
use ocserv_rs.Base.HashMap.{HashMap}

pub record HttpRequest : Type 0 where
  pub method : Text
  pub path : Text
  pub version : ℕ
  pub headers : HashMap Text Text
  pub body : Bytes

abbrev pub value_of : Option (Text × Text) → Option Text
value_of none = none
value_of (some (k, v)) = some v

-- The first entry whose name is `name` but for case.
unfoldable pub find_header : Text → HashMap Text Text → Option Text
unfolding find_first
find_header name headers =
    value_of (find_first (λ e. to_lowercase e.0 == to_lowercase name) headers)

unfoldable pub header : HttpRequest → Text → Option Text
unfolding find_header
header req name = find_header name req.headers

-- `splitn(2, '=')`: what stands before the first `=`, and what follows it or nothing.
unfoldable pub split_pair : Text → Text → Text × Text
split_pair key [] = (reverse key, [])
split_pair key (c ∷ s) =
    let longer = split_pair (c ∷ key) s in if nat_beq c b'=' then (reverse key, s) else longer

module _ (decode : Text → Option Text) where
  abbrev insert_decoded : Option Text → Option Text → HashMap Text Text → HashMap Text Text
  insert_decoded none _ m = m
  insert_decoded (some k) none m = m
  insert_decoded (some k) (some v) m = HashMap.insert k v m

  unfoldable pub insert_pair : Text × Text → HashMap Text Text → HashMap Text Text
  insert_pair (k, v) m = insert_decoded (decode k) (decode v) m

  unfoldable pub collect_pairs : List Text → HashMap Text Text → HashMap Text Text
  unfolding split_pair insert_pair
  collect_pairs [] m = m
  collect_pairs (pair ∷ pairs) m = collect_pairs pairs (insert_pair (split_pair [] pair) m)

  -- `decode` is that of the crate urlencoding.
  unfoldable pub parse_form : HttpRequest → HashMap Text Text
  unfolding collect_pairs
  parse_form req = collect_pairs (split b'&' (from_utf8_lossy req.body)) []
