-- ===== src/Crypto/Hpke/Sample.antt =====
-- Crates whose cipher leaves the text as it is, for the tests.
use ocserv_rs.Base.{◌+◌, refl, ok, some, [], ◌∷◌, ◌++◌, length, take, arith}
use ocserv_rs.Base.Text.{Text, Bytes}
use ocserv_rs.Crypto.Hpke.{Crates}
use ocserv_rs.Crypto.Hpke.Laws.{Client, IsSound}

abbrev pub zero_tag : Bytes
zero_tag = 0 ∷ 0 ∷ 0 ∷ 0 ∷ 0 ∷ 0 ∷ 0 ∷ 0 ∷ 0 ∷ 0 ∷ 0 ∷ 0 ∷ 0 ∷ 0 ∷ 0 ∷ 0 ∷ []

abbrev pub crates : Crates
crates = record {
  base64_encode = λ b. b;
  base64_decode = λ t. some t;
  from_public_key_der = λ b. some b;
  to_public_key_der = λ k. ok k;
  public_key = λ s. s;
  diffie_hellman = λ s k. (length s + length k) ∷ [];
  expand = λ s info. ok s;
  encrypt = λ key iv t. ok (t ++ zero_tag);
}

abbrev pub client : Client
client = record { secret = 1 ∷ []; decrypt = λ key iv ciphertext tag. some ciphertext }

abbrev pub iv : Bytes
iv = take 12 zero_tag

abbrev pub token : Text
token = 65 ∷ 66 ∷ []

pub sound : IsSound crates client (2 ∷ []) iv token
sound = record {
  base64 = λ b. refl;
  spki_bytes = 2 ∷ [];
  der = refl;
  der_back = refl;
  der_length = omega arith;
  agree = refl;
  aes_key = 2 ∷ [];
  expands = refl;
  ciphertext = token;
  full_tag = zero_tag;
  encrypts = refl;
  ciphertext_length = refl;
  tag_length = refl;
  iv_length = refl;
  decrypts = refl;
}
