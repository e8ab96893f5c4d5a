-- ===== src/Utils/Cert/Tests.antt =====
-- Runs of the cipher selection, and its theorem at a client's list.
use ocserv_rs.Base.{◌≡◌, ◌⊎◌, refl, false, List, ◌∷◌, All, find_first}
use ocserv_rs.Base.Text.{Text, text, split, starts_with}
use ocserv_rs.Utils.Cert.{CertKeyType, preferred_prefixes, select_compatible_cipher}
use ocserv_rs.Utils.Cert.Laws.{IsBest, select_compatible_cipher-IsBest}

abbrev offered : Text
offered = text "AES128-SHA:DHE-RSA-AES128-SHA:ECDHE-RSA-AES256-GCM-SHA384"

select_tests :
    (select_compatible_cipher offered CertKeyType.rsa ≡ text "ECDHE-RSA-AES256-GCM-SHA384")
    × (select_compatible_cipher offered CertKeyType.ec ≡ text "AES128-SHA")
    × (select_compatible_cipher (text "") CertKeyType.rsa ≡ text "")
unfolding select_compatible_cipher split text starts_with find_first
select_tests = (refl, refl, refl)

select_compatible_cipher-IsBest_example :
    IsBest
      (preferred_prefixes CertKeyType.rsa)
      (split b':' offered)
      (select_compatible_cipher offered CertKeyType.rsa)
    ⊎ (All
          (λ p. All (λ c. starts_with p c ≡ false) (split b':' offered))
          (preferred_prefixes CertKeyType.rsa)
        × ((cs : List Text) × (split b':' offered
              ≡ select_compatible_cipher offered CertKeyType.rsa ∷ cs)))
select_compatible_cipher-IsBest_example = select_compatible_cipher-IsBest offered CertKeyType.rsa
