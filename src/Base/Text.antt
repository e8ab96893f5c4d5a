-- ===== src/Base/Text.antt =====
-- Text as UTF-8 bytes, with the functions on `str` that the program calls.
use Prim.Native.Char.{code}
use Prim.Native.Nat.{ℕ, zero, suc, ◌+◌, ◌/◌, ◌%◌}
use Prim.Native.String.{String}
use mathlib.Core.Bool.{Bool, true, false, ◌&&◌, ◌||◌}
use mathlib.Core.Option.{Option, none, some}
use mathlib.Core.List.{List, [], ◌∷◌, map, reverse}
use ocserv_rs.Base.Tests.{ltb, leb, nat_beq, if◌then◌else◌}

abbrev pub Bytes : Type 0
Bytes = List ℕ

-- A `String` or `str`; every literal of the program is ASCII.
abbrev pub Text : Type 0
Text = List ℕ

unfoldable pub text : String → Text
text String.[] = []
text (String.◌∷◌ c s) = code c ∷ text s

unfoldable pub starts_with : Text → Text → Bool
starts_with [] s = true
starts_with (p ∷ ps) [] = false
starts_with (p ∷ ps) (c ∷ s) = nat_beq p c && starts_with ps s

unfoldable pub strip_prefix : Text → Text → Option Text
strip_prefix [] s = some s
strip_prefix (p ∷ ps) [] = none
strip_prefix (p ∷ ps) (c ∷ s) = if nat_beq p c then strip_prefix ps s else none

unfoldable pub ends_with : Text → Text → Bool
unfolding starts_with
ends_with suffix s = starts_with (reverse suffix) (reverse s)

unfoldable pub contains : Text → Text → Bool
unfolding starts_with
contains p [] = starts_with p []
contains p (c ∷ s) = starts_with p (c ∷ s) || contains p s

-- `split(sep)` at an ASCII character: never the empty list.
unfoldable pub split_from : ℕ → Text → Text → List Text
split_from sep cur [] = reverse cur ∷ []
split_from sep cur (c ∷ s) =
    let closed = split_from sep [] s in
    let longer = split_from sep (c ∷ cur) s in
    if nat_beq c sep then reverse cur ∷ closed else longer

unfoldable pub split : ℕ → Text → List Text
unfolding split_from
split sep s = split_from sep [] s

-- ASCII letters only; `to_lowercase` also maps letters beyond ASCII.
unfoldable pub lower : ℕ → ℕ
lower c = if leb b'A' c && leb c b'Z' then c + 32 else c

unfoldable pub to_lowercase : Text → Text
unfolding lower
to_lowercase s = map lower s

-- ASCII white space: tab, line feed, vertical tab, form feed, carriage return and space.
unfoldable pub is_space : ℕ → Bool
is_space c = (leb 9 c && leb c 13) || nat_beq c 32

unfoldable pub trim_start : Text → Text
unfolding is_space
trim_start [] = []
trim_start (c ∷ s) = if is_space c then trim_start s else c ∷ s

unfoldable pub trim : Text → Text
unfolding trim_start
trim s = reverse (trim_start (reverse (trim_start s)))

-- The decimal digits of a number, as `{}` prints it.
unfoldable pub digits_from : ℕ → ℕ → Text → Text
digits_from zero n acc = acc
digits_from (suc fuel) n acc =
    let rest = digits_from fuel (n / 10) ((b'0' + n % 10) ∷ acc) in
    if ltb n 10 then (b'0' + n) ∷ acc else rest

unfoldable pub decimal : ℕ → Text
unfolding digits_from
decimal n = digits_from (suc n) n []

unfoldable pub is_empty {ℓ} : {A : Type ℓ} → List A → Bool
is_empty [] = true
is_empty (x ∷ xs) = false

-- `split_whitespace`: the words between white space.
unfoldable pub words_from : Text → Text → List Text
unfolding is_empty is_space
words_from cur [] = if is_empty cur then [] else reverse cur ∷ []
words_from cur (c ∷ s) =
    let closed = words_from [] s in
    let longer = words_from (c ∷ cur) s in
    if is_space c then (if is_empty cur then closed else reverse cur ∷ closed) else longer

unfoldable pub split_whitespace : Text → List Text
unfolding words_from
split_whitespace s = words_from [] s

-- What starts where `find` finds `p`.
unfoldable pub find_from : Text → Text → Option Text
unfolding starts_with
find_from p [] = if starts_with p [] then some [] else none
find_from p (c ∷ s) = if starts_with p (c ∷ s) then some (c ∷ s) else find_from p s
