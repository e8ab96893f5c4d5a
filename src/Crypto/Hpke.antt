-- ===== src/Crypto/Hpke.antt =====
-- src/crypto/hpke.rs: the context that encrypts the token of an SSO login for its client. The crates
-- base64, p256, hkdf and aes_gcm are parameters, and so are the secret and the bytes drawn.
pub mod Tlv
pub mod Laws
pub mod Sample
mod Tests
use ocserv_rs.Base.{
  ℕ, ◌-◌, ◌/◌, ◌%◌, ◌^◌, Result, ok, err, Option, none, some, [], ◌∷◌, ◌++◌, length, take, drop,
  ◌>>=◌,
}
use ocserv_rs.Base.Text.{Text, Bytes, text}

-- A `PublicKey` and an `EphemeralSecret`, by the bytes of the point and of the scalar.
abbrev pub PublicKey : Type 0
PublicKey = Bytes

abbrev pub EphemeralSecret : Type 0
EphemeralSecret = Bytes

-- What the context takes from crates: `expand` is HKDF-SHA256 without a salt to 32 bytes, `encrypt`
-- is AES-256-GCM of a key and a nonce.
pub record Crates : Type 0 where
  pub base64_encode : Bytes → Text
  pub base64_decode : Text → Option Bytes
  pub from_public_key_der : Bytes → Option PublicKey
  pub to_public_key_der : PublicKey → Result Text Bytes
  pub public_key : EphemeralSecret → PublicKey
  pub diffie_hellman : EphemeralSecret → PublicKey → Bytes
  pub expand : Bytes → Text → Result Text Bytes
  pub encrypt : Bytes → Bytes → Bytes → Result Text Bytes

pub record HpkeContext : Type 0 where
  pub client_pubkey : Option PublicKey

unfoldable pub new : HpkeContext
new = record { client_pubkey = none }

abbrev keyed : Option PublicKey → HpkeContext → Result Text HpkeContext
keyed none ctx = err (text "Invalid P-256 SPKI public key: ")
keyed (some pubkey) ctx = ok (record ctx { client_pubkey = some pubkey })

abbrev decoded : Crates → Option Bytes → HpkeContext → Result Text HpkeContext
decoded c none ctx = err (text "Base64 decode failed: ")
decoded c (some pubkey_bytes) ctx = keyed (c.from_public_key_der pubkey_bytes) ctx

-- The context changed, or an error, whose text from the crate is left out.
unfoldable pub set_client_dh_pubkey : Crates → Text → HpkeContext → Result Text HpkeContext
set_client_dh_pubkey c base64_pubkey ctx = decoded c (c.base64_decode base64_pubkey) ctx

-- `to_be_bytes` of a `u16`.
abbrev pub be16 : ℕ → Bytes
be16 n = n / 256 % 256 ∷ n % 256 ∷ []

-- `value.len() as u16` keeps the low 16 bits of the length.
unfoldable pub write_tlv : Bytes → ℕ → Bytes → Bytes
write_tlv buf tag value = buf ++ (be16 tag ++ (be16 (length value % 2 ^ 16) ++ value))

abbrev in_context : Text → Result Text Bytes → Result Text Bytes
in_context what (ok b) = ok b
in_context what (err e) = err (what ++ e)

-- The blob of the server's key, the tag, the ciphertext and the nonce.
unfoldable pub tlv_blob : Bytes → Bytes → Bytes → Bytes → Bytes
unfolding write_tlv
tlv_blob spki_bytes tag_12 ciphertext iv_bytes =
    write_tlv
      (write_tlv (write_tlv (write_tlv (0x00 ∷ 0x01 ∷ []) 1 spki_bytes) 2 tag_12) 3 ciphertext) 4
      iv_bytes

abbrev client_key : Option PublicKey → Result Text PublicKey
client_key none = err (text "Client public key not set")
client_key (some pubkey) = ok pubkey

-- The crate's ciphertext ends with a tag of 16 bytes, so that its length less 16 is no underflow.
unfoldable pub encrypt_token :
    Crates → EphemeralSecret → Bytes → HpkeContext → Text → Result Text Text
unfolding tlv_blob
encrypt_token c server_secret iv_bytes ctx plain_token = do
  client_pubkey ← client_key ctx.client_pubkey
  aes_key ←
      in_context (text "HKDF expansion failed: ")
        (c.expand (c.diffie_hellman server_secret client_pubkey) (text "AC_ECIES"))
  ciphertext_with_tag ←
      in_context (text "AES encryption failed: ") (c.encrypt aes_key iv_bytes plain_token)
  let ct_len = length ciphertext_with_tag - 16
  spki_bytes ←
      in_context (text "SPKI encode failed: ") (c.to_public_key_der (c.public_key server_secret))
  ok (
      c.base64_encode (
        tlv_blob spki_bytes (take 12 (drop ct_len ciphertext_with_tag))
          (take ct_len ciphertext_with_tag) iv_bytes))
