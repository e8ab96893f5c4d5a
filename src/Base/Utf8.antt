-- ===== src/Base/Utf8.antt =====
-- `String::from_utf8` and `from_utf8_lossy`: UTF-8 as the standard library checks it.
use Prim.Native.Nat.{ℕ, zero, suc}
use mathlib.Core.Path.{◌≡◌, refl}
use mathlib.Core.Bool.{Bool, true, false, ◌&&◌, ◌||◌, not}
use mathlib.Core.Option.{Option, none, some}
use mathlib.Core.List.{[], ◌∷◌, ◌++◌}
use native.Mathlib.Omega.{arith}
use ocserv_rs.Base.Tests.{leb, ltb, nat_beq, if◌then◌else◌}
use ocserv_rs.Base.Lists.{get_or, length}
use ocserv_rs.Base.Text.{Bytes, Text}

abbrev within : ℕ → ℕ → ℕ → Bool
within lo hi b = leb lo b && leb b hi

abbrev is_continuation : ℕ → Bool
is_continuation = within 0x80 0xBF

-- The second byte that may follow a first byte of three and of four.
abbrev second_of_three : ℕ → ℕ → Bool
second_of_three a b =
    if nat_beq a 0xE0
    then within 0xA0 0xBF b
    else if nat_beq a 0xED
    then within 0x80 0x9F b
    else is_continuation b

abbrev second_of_four : ℕ → ℕ → Bool
second_of_four a b =
    if nat_beq a 0xF0
    then within 0x90 0xBF b
    else if nat_beq a 0xF4
    then within 0x80 0x8F b
    else is_continuation b

-- What stands at the front: a character with so many bytes behind its first, or an invalid
-- sequence with so many.
pub data Front : Type 0 where
  valid invalid : ℕ → Front

unfoldable pub front : ℕ → Bytes → Front
front a rest =
    let b = get_or rest 0 0 in
    let c = get_or rest 1 0 in
    let d = get_or rest 2 0 in
    if leb a 0x7F
    then valid 0
    else if within 0xC2 0xDF a
    then (if is_continuation b then valid 1 else invalid 0)
    else if within 0xE0 0xEF a
    then (if second_of_three a b
        then (if is_continuation c then valid 2 else invalid 1)
        else invalid 0)
    else if within 0xF0 0xF4 a
    then (if second_of_four a b
        then (if is_continuation c
            then (if is_continuation d then valid 3 else invalid 2)
            else invalid 1)
        else invalid 0)
    else invalid 0

-- In a valid character, the bytes left; in an invalid sequence, those left.
pub data Mode : Type 0 where
  copy skip : ℕ → Mode

abbrev pub start : Mode
start = copy zero

abbrev pub mode_of : Front → Mode
mode_of (valid n) = copy n
mode_of (invalid n) = skip n

-- U+FFFD.
abbrev pub replacement : Text
replacement = 0xEF ∷ 0xBF ∷ 0xBD ∷ []

abbrev pub put : Front → ℕ → Text → Text
put (valid n) a rest = a ∷ rest
put (invalid n) a rest = replacement ++ rest

unfoldable pub lossy_from : Mode → Bytes → Text
unfolding front
lossy_from m [] = []
lossy_from (copy zero) (a ∷ bs) = put (front a bs) a (lossy_from (mode_of (front a bs)) bs)
lossy_from (skip zero) (a ∷ bs) = put (front a bs) a (lossy_from (mode_of (front a bs)) bs)
lossy_from (copy (suc n)) (a ∷ bs) = a ∷ lossy_from (copy n) bs
lossy_from (skip (suc n)) (a ∷ bs) = lossy_from (skip n) bs

unfoldable pub from_utf8_lossy : Bytes → Text
unfolding lossy_from
from_utf8_lossy bs = lossy_from start bs

abbrev pub is_valid : Front → Bool
is_valid (valid n) = true
is_valid (invalid n) = false

unfoldable pub utf8_from : Mode → Bytes → Bool
unfolding front
utf8_from m [] = true
utf8_from (copy zero) (a ∷ bs) = is_valid (front a bs) && utf8_from (mode_of (front a bs)) bs
utf8_from (skip n) (a ∷ bs) = false
utf8_from (copy (suc n)) (a ∷ bs) = utf8_from (copy n) bs

unfoldable pub is_utf8 : Bytes → Bool
unfolding utf8_from
is_utf8 bs = utf8_from start bs

unfoldable pub from_utf8 : Bytes → Option Text
unfolding is_utf8
from_utf8 bs = if is_utf8 bs then some bs else none

-- `is_char_boundary`, which tells where a slice of text may end without a panic.
unfoldable pub is_char_boundary : Text → ℕ → Bool
is_char_boundary s n =
    nat_beq n 0
    || (nat_beq n (length s) || (ltb n (length s) && not (is_continuation (get_or s n 0))))

lossy_front :
    (f : Front) (a : ℕ) (bs : Bytes)
    → (is_valid f && utf8_from (mode_of f) bs) ≡ true
    → (utf8_from (mode_of f) bs ≡ true → lossy_from (mode_of f) bs ≡ bs)
    → put f a (lossy_from (mode_of f) bs) ≡ a ∷ bs
lossy_front (valid n) a bs h k = ground (arith, k h)
lossy_front (invalid n) a bs h k = ground arith

lossy_valid : (m : Mode) (bs : Bytes) → utf8_from m bs ≡ true → lossy_from m bs ≡ bs
unfolding lossy_from utf8_from
lossy_valid m [] h = refl
lossy_valid (copy zero) (a ∷ bs) h =
    lossy_front (front a bs) a bs h (lossy_valid (mode_of (front a bs)) bs)
lossy_valid (skip n) (a ∷ bs) h = ground arith
lossy_valid (copy (suc n)) (a ∷ bs) h = ground (arith, lossy_valid (copy n) bs h)

-- Text that is UTF-8 is read as it is.
pub from_utf8_lossy_valid : (bs : Bytes) → is_utf8 bs ≡ true → from_utf8_lossy bs ≡ bs
unfolding is_utf8 from_utf8_lossy
from_utf8_lossy_valid bs h = lossy_valid start bs h
