-- ===== src/Http/Cookie.antt =====
-- src/http/handlers/auth.rs: the session token in a cookie. The crate base64 is a parameter.
use ocserv_rs.Base.{Option, none, some, List, [], ◌∷◌}
use ocserv_rs.Base.Text.{Text, Bytes, text, split, strip_prefix, trim}
use ocserv_rs.Base.Utf8.{from_utf8}

abbrev or_else {ℓ} : {A : Type ℓ} → Option A → Option A → Option A
or_else none o = o
or_else (some a) o = some a

unfoldable pub cookie_value : Text → Option Text
unfolding strip_prefix text
cookie_value pair =
    or_else (strip_prefix (text "webvpn=") pair) (strip_prefix (text "acSamlv2Token=") pair)

abbrev or_value : Option Text → Text → Text
or_value none value = value
or_value (some token) value = token

abbrev decoded_or : Option Bytes → Text → Text
decoded_or none value = value
decoded_or (some bytes) value = or_value (from_utf8 bytes) value

module _ (base64_decode : Text → Option Bytes) where
  -- The token that a value stands for: what it encodes if that is text, else the value itself.
  unfoldable pub decode_token : Text → Text
  unfolding from_utf8
  decode_token value = decoded_or (base64_decode value) value

  abbrev first_token : Option Text → Option Text → Option Text
  first_token none rest = rest
  first_token (some value) rest = some (decode_token value)

  unfoldable pub token_in : List Text → Option Text
  unfolding cookie_value decode_token
  token_in [] = none
  token_in (pair ∷ pairs) = first_token (cookie_value (trim pair)) (token_in pairs)

  unfoldable pub extract_webvpn_token : Text → Option Text
  unfolding token_in split trim
  extract_webvpn_token cookie = token_in (split b';' cookie)
