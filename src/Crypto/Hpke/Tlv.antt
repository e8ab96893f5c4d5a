-- ===== src/Crypto/Hpke/Tlv.antt =====
-- Reading back what `write_tlv` writes.
use ocserv_rs.Base.{
  ℕ, ◌+◌, ◌*◌, ◌/◌, ◌%◌, ◌^◌, ◌<◌, ◌≤◌, ◌≡◌, ◌≢◌, ◌↔◌, refl, ap, Option, none, some, [], ◌∷◌, ◌++◌,
  length, take, drop, if◌then◌else◌, arith, take-length-append, drop-length-append, length-append,
  length-take, leb,
}
use native.Mathlib.Decide.{dec_lt}
use ocserv_rs.Base.Text.{Bytes}
use ocserv_rs.Crypto.Hpke.{write_tlv}

abbrev field : ℕ → ℕ → Bytes → Option (ℕ × (Bytes × Bytes))
field tag len rest =
    if leb len (length rest) then some (tag, (take len rest, drop len rest)) else none

-- A reader of the format: the first field, with its tag and its value, and what follows it.
unfoldable pub read_tlv : Bytes → Option (ℕ × (Bytes × Bytes))
read_tlv (t ∷ u ∷ l ∷ n ∷ rest) = field (t * 256 + u) (l * 256 + n) rest
read_tlv _ = none

value_of : Option (ℕ × (Bytes × Bytes)) → ℕ
value_of none = 0
value_of (some (tag, (value, rest))) = length value

field-read :
    (t u l n tag : ℕ) (value rest : Bytes)
    → t * 256 + u ≡ tag
    → l * 256 + n ≡ length value
    → field (t * 256 + u) (l * 256 + n) (value ++ rest) ≡ some (tag, (value, rest))
field-read t u l n tag value rest a b =
    rw (a, b, take-length-append value rest, drop-length-append value rest)
      (ground (arith, length-append value rest))

field-short :
    (t u l n : ℕ) (value rest : Bytes)
    → l * 256 + n < length value
    → value_of (field (t * 256 + u) (l * 256 + n) (value ++ rest)) ≢ length value
unfolding value_of
field-short t u l n value rest h =
    ground (arith, length-take (l * 256 + n) (value ++ rest), length-append value rest)

written :
    (tag : ℕ) (value rest : Bytes)
    → write_tlv [] tag value ++ rest
      ≡ tag / 256 % 256
        ∷ tag % 256
        ∷ length value % 2 ^ 16 / 256 % 256
        ∷ length value % 2 ^ 16 % 256
        ∷ (value ++ rest)
unfolding write_tlv
written tag value rest = refl

long-unread :
    (tag : ℕ) (value rest : Bytes)
    → 2 ^ 16 ≤ length value
    → read_tlv (write_tlv [] tag value ++ rest) ≢ some (tag, (value, rest))
unfolding read_tlv value_of
long-unread tag value rest h = rw (written tag value rest) (λ e.
    field-short (tag / 256 % 256) (tag % 256) (length value % 2 ^ 16 / 256 % 256)
      (length value % 2 ^ 16 % 256) value rest (omega arith) (ap value_of e))

-- A field is read back, with its tag and its value and what follows it, exactly if its value has
-- fewer than 65536 bytes: the length that is written has 16 bits.
pub read_tlv-write_tlv :
    (tag : ℕ) (value rest : Bytes)
    → tag < 2 ^ 16
    → (read_tlv (write_tlv [] tag value ++ rest) ≡ some (tag, (value, rest)))
      ↔ (length value < 2 ^ 16)
unfolding read_tlv
read_tlv-write_tlv tag value rest h = (
  λ e. elim (dec_lt (length value) (2 ^ 16)) [
    | yes p ↦ p
    | no n ↦ absurd (long-unread tag value rest (omega (arith, n)) e)
  ],
  λ p. rw (written tag value rest) (field-read _ _ _ _ tag value rest (omega arith) (omega arith)),
)
