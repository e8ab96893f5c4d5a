-- ===== src/Crypto/Hpke/Laws.antt =====
-- The client of an SSO login decrypts the token that is encrypted for it.
use ocserv_rs.Base.{
  ℕ, ◌-◌, ◌^◌, ◌<◌, ◌≡◌, refl, Result, ok, err, Option, none, some, [], ◌∷◌, ◌++◌, length, take,
  drop, nat_beq, if◌then◌else◌, arith, append-nil, append_assoc, take-length-append,
  drop-length-append, length-append, length-take,
}
use ocserv_rs.Base.Text.{Text, Bytes, text, starts_with}
use ocserv_rs.Crypto.Hpke.{
  Crates, EphemeralSecret, HpkeContext, new, set_client_dh_pubkey, write_tlv, tlv_blob,
  encrypt_token,
}
use ocserv_rs.Crypto.Hpke.Tlv.{read_tlv, read_tlv-write_tlv}

-- The public key, the tag, the ciphertext and the nonce of a blob.
pub record Fields : Type 0 where
  pub spki_bytes : Bytes
  pub tag_12 : Bytes
  pub ciphertext : Bytes
  pub iv_bytes : Bytes

-- The value of the field that has this tag.
abbrev expect {ℓ} :
    {A : Type ℓ} → ℕ → (Bytes → Bytes → Option A) → Option (ℕ × (Bytes × Bytes)) → Option A
expect tag k none = none
expect tag k (some (t, (value, rest))) = if nat_beq t tag then k value rest else none

abbrev finish : Bytes → Fields → Option Fields
finish [] f = some f
finish (b ∷ bs) f = none

unfoldable pub read_fields : Bytes → Option Fields
read_fields bytes =
    expect 1
      (λ spki_bytes after_key.
        expect 2
          (λ tag_12 after_tag.
            expect 3
              (λ ciphertext after_text.
                expect 4
                  (λ iv_bytes rest. finish rest (record {
                    spki_bytes = spki_bytes;
                    tag_12 = tag_12;
                    ciphertext = ciphertext;
                    iv_bytes = iv_bytes;
                  }))
                  (read_tlv after_text))
              (read_tlv after_tag))
          (read_tlv after_key))
      (read_tlv bytes)

-- A reader of the blob: behind the bytes 0 and 1, the fields with the tags from 1 to 4 and no more.
unfoldable pub read_blob : Bytes → Option Fields
unfolding read_fields starts_with
read_blob bytes = if starts_with (0x00 ∷ 0x01 ∷ []) bytes then read_fields (drop 2 bytes) else none

abbrev fields_of : Fields → Bytes
fields_of f =
    write_tlv [] 1 f.spki_bytes
    ++ (write_tlv [] 2 f.tag_12
        ++ (write_tlv [] 3 f.ciphertext ++ (write_tlv [] 4 f.iv_bytes ++ [])))

tlv_blob-fields :
    (f : Fields)
    → tlv_blob f.spki_bytes f.tag_12 f.ciphertext f.iv_bytes ≡ 0x00 ∷ 0x01 ∷ fields_of f
unfolding tlv_blob write_tlv
tlv_blob-fields f = simp (append_assoc, append-nil) refl

-- The fields of a blob whose values have fewer than 65536 bytes are read back.
abbrev IsShort : Fields → Type 0
IsShort f =
    (length f.spki_bytes < 2 ^ 16)
    × (length f.tag_12 < 2 ^ 16)
    × (length f.ciphertext < 2 ^ 16)
    × (length f.iv_bytes < 2 ^ 16)

read_fields-fields : (f : Fields) → IsShort f → read_fields (fields_of f) ≡ some f
unfolding read_fields
read_fields-fields f (a, b, c, d) =
    rw
      (
        (read_tlv-write_tlv 1 f.spki_bytes
              (write_tlv [] 2 f.tag_12
                ++ (write_tlv [] 3 f.ciphertext ++ (write_tlv [] 4 f.iv_bytes ++ [])))
              (omega arith)).1
            a,
        (read_tlv-write_tlv 2 f.tag_12
              (write_tlv [] 3 f.ciphertext ++ (write_tlv [] 4 f.iv_bytes ++ [])) (omega arith)).1
            b,
        (read_tlv-write_tlv 3 f.ciphertext (write_tlv [] 4 f.iv_bytes ++ []) (omega arith)).1 c,
        (read_tlv-write_tlv 4 f.iv_bytes [] (omega arith)).1 d,
      )
      refl

pub read_blob-tlv_blob :
    (f : Fields)
    → IsShort f
    → read_blob (tlv_blob f.spki_bytes f.tag_12 f.ciphertext f.iv_bytes) ≡ some f
unfolding read_blob starts_with
read_blob-tlv_blob f h = rw (tlv_blob-fields f) (read_fields-fields f h)

-- What a client knows: its secret, and how the crates decrypt with a tag of 12 bytes.
pub record Client : Type 0 where
  pub secret : EphemeralSecret
  pub decrypt : Bytes → Bytes → Bytes → Bytes → Option Text

abbrev open_with : Client → Fields → Result Text Bytes → Option Text
open_with client f (err e) = none
open_with client f (ok aes_key) = client.decrypt aes_key f.iv_bytes f.ciphertext f.tag_12

abbrev agreed : Crates → Client → Fields → Option Bytes → Option Text
agreed c client f none = none
agreed c client f (some server_key) =
    open_with client f (c.expand (c.diffie_hellman client.secret server_key) (text "AC_ECIES"))

abbrev opened : Crates → Client → Option Fields → Option Text
opened c client none = none
opened c client (some f) = agreed c client f (c.from_public_key_der f.spki_bytes)

abbrev read_bytes : Crates → Client → Option Bytes → Option Text
read_bytes c client none = none
read_bytes c client (some bytes) = opened c client (read_blob bytes)

-- The client's side of `encrypt_token`.
unfoldable pub decrypt_token : Crates → Client → Text → Option Text
unfolding read_blob
decrypt_token c client answer = read_bytes c client (c.base64_decode answer)

-- What the crates document of a secret and a nonce that the server draws: base64 and DER give back
-- what they encode, both sides agree on the secret, a key of 32 bytes can be derived from it, and
-- AES-GCM gives as many bytes as the text has and a tag of 16, whose first 12 are enough to decrypt.
pub record IsSound (c : Crates) (client : Client) (server_secret iv_bytes : Bytes)
    (plain_token : Text) : Type 0 where
  pub base64 : (b : Bytes) → c.base64_decode (c.base64_encode b) ≡ some b
  pub spki_bytes : Bytes
  pub der : c.to_public_key_der (c.public_key server_secret) ≡ ok spki_bytes
  pub der_back : c.from_public_key_der spki_bytes ≡ some (c.public_key server_secret)
  pub der_length : length spki_bytes < 2 ^ 16
  pub agree :
      c.diffie_hellman server_secret (c.public_key client.secret)
      ≡ c.diffie_hellman client.secret (c.public_key server_secret)
  pub aes_key : Bytes
  pub expands :
      c.expand (c.diffie_hellman client.secret (c.public_key server_secret)) (text "AC_ECIES")
      ≡ ok aes_key
  pub ciphertext : Bytes
  pub full_tag : Bytes
  pub encrypts : c.encrypt aes_key iv_bytes plain_token ≡ ok (ciphertext ++ full_tag)
  pub ciphertext_length : length ciphertext ≡ length plain_token
  pub tag_length : length full_tag ≡ 16
  pub iv_length : length iv_bytes ≡ 12
  pub decrypts : client.decrypt aes_key iv_bytes ciphertext (take 12 full_tag) ≡ some plain_token

module _ (c : Crates) (client : Client) (server_secret iv_bytes : Bytes) (plain_token : Text)
    (s : IsSound c client server_secret iv_bytes plain_token) where
  fields_sent : Fields
  fields_sent = record {
    spki_bytes = s.spki_bytes;
    tag_12 = take 12 s.full_tag;
    ciphertext = s.ciphertext;
    iv_bytes = iv_bytes;
  }

  abbrev blob_sent : Bytes
  blob_sent = tlv_blob s.spki_bytes (take 12 s.full_tag) s.ciphertext iv_bytes

  ct_len_lem : length (s.ciphertext ++ s.full_tag) - 16 ≡ length s.ciphertext
  ct_len_lem = omega (arith, length-append s.ciphertext s.full_tag, s.tag_length)

  encrypt_token-blob :
      (ctx : HpkeContext)
      → ctx.client_pubkey ≡ some (c.public_key client.secret)
      → encrypt_token c server_secret iv_bytes ctx plain_token ≡ ok (c.base64_encode blob_sent)
  unfolding encrypt_token
  encrypt_token-blob ctx e =
      rw
        (
          e,
          s.agree,
          s.expands,
          s.encrypts,
          s.der,
          ct_len_lem,
          take-length-append s.ciphertext s.full_tag,
          drop-length-append s.ciphertext s.full_tag,
        )
        refl

  decrypt_token-blob :
      length plain_token < 2 ^ 16
      → decrypt_token c client (c.base64_encode blob_sent) ≡ some plain_token
  unfolding decrypt_token fields_sent
  decrypt_token-blob h =
      let tag = length-take 12 s.full_tag in
      rw
        (
          s.base64 blob_sent,
          read_blob-tlv_blob fields_sent (
            s.der_length,
            omega (arith, tag),
            omega (arith, s.ciphertext_length),
            omega (arith, s.iv_length),
          ),
          s.der_back,
          s.expands,
          s.decrypts,
        )
        refl

  pub keyed_context :
      (client_der : Bytes) (ctx : HpkeContext)
      → c.from_public_key_der client_der ≡ some (c.public_key client.secret)
      → set_client_dh_pubkey c (c.base64_encode client_der) new ≡ ok ctx
      → ctx.client_pubkey ≡ some (c.public_key client.secret)
  unfolding set_client_dh_pubkey new
  keyed_context client_der ctx k e = ground (arith, s.base64 client_der, k, e)

  -- The context made of the public key that a client has sent encrypts a token of fewer than 65536
  -- bytes to an answer that the client decrypts to the token.
  pub token_recovered :
      (client_der : Bytes) (ctx : HpkeContext)
      → c.from_public_key_der client_der ≡ some (c.public_key client.secret)
      → set_client_dh_pubkey c (c.base64_encode client_der) new ≡ ok ctx
      → length plain_token < 2 ^ 16
      → (answer : Text) × (encrypt_token c server_secret iv_bytes ctx plain_token ≡ ok answer)
        × (decrypt_token c client answer ≡ some plain_token)
  token_recovered client_der ctx k e h = (
    c.base64_encode blob_sent,
    encrypt_token-blob ctx (keyed_context client_der ctx k e),
    decrypt_token-blob h,
  )
