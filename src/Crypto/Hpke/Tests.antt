-- ===== src/Crypto/Hpke/Tests.antt =====
-- A token for a client, and a field of three bytes.
use ocserv_rs.Base.{◌<◌, ◌^◌, ◌≡◌, ◌↔◌, refl, ok, some, [], ◌∷◌, ◌++◌, length, arith}
use ocserv_rs.Base.Text.{Text}
use ocserv_rs.Crypto.Hpke.{HpkeContext, new, set_client_dh_pubkey, write_tlv, encrypt_token}
use ocserv_rs.Crypto.Hpke.Tlv.{read_tlv, read_tlv-write_tlv}
use ocserv_rs.Crypto.Hpke.Laws.{decrypt_token, token_recovered}
use ocserv_rs.Crypto.Hpke.Sample.{crates, client, iv, token, sound}

abbrev keyed : HpkeContext
keyed = record { client_pubkey = some (1 ∷ []) }

key_set : set_client_dh_pubkey crates (1 ∷ []) new ≡ ok keyed
unfolding set_client_dh_pubkey new
key_set = refl

token_recovered_example :
    (answer : Text) × (encrypt_token crates (2 ∷ []) iv keyed token ≡ ok answer)
    × (decrypt_token crates client answer ≡ some token)
token_recovered_example =
    token_recovered crates client (2 ∷ []) iv token sound (1 ∷ []) keyed refl key_set (omega arith)

read_tlv-write_tlv_example :
    (read_tlv (write_tlv [] 3 token ++ 9 ∷ []) ≡ some (3, (token, 9 ∷ [])))
    ↔ (length token < 2 ^ 16)
read_tlv-write_tlv_example = read_tlv-write_tlv 3 token (9 ∷ []) (omega arith)
