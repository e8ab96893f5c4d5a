-- ===== src/Http/RawConnect/Client.antt =====
-- A client's reader of the response to CONNECT, to state what the response tells it.
use ocserv_rs.Base.{
  ℕ, ◌≡◌, refl, ap, ◌∙◌, Option, none, some, Bool, true, false, List, [], ◌∷◌, ◌++◌, map, All,
  arith, append_assoc, if◌then◌else◌,
}
use ocserv_rs.Base.Text.{Text, Bytes, strip_prefix}
use ocserv_rs.Base.Eq.{◌==◌, nat_eq}
use ocserv_rs.Http.Response.{write_lines}
use ocserv_rs.Http.Response.Framing.{IsPlain}

abbrev put : ℕ → List Text → List Text
put c [] = []
put c (line ∷ lines) = (c ∷ line) ∷ lines

-- A client's reader: lines end with a carriage return, and the byte behind it is skipped. What
-- follows the last one is no line.
unfoldable pub lines_of : Bool → Bytes → List Text
lines_of skip [] = []
lines_of true (c ∷ s) = lines_of false s
lines_of false (c ∷ s) =
    let next = lines_of true s in
    let longer = lines_of false s in if c == 13 then [] ∷ next else put c longer

lines_of-line :
    (line s : Text)
    → IsPlain line
    → lines_of false (line ++ (13 ∷ 10 ∷ s)) ≡ line ∷ lines_of false s
unfolding lines_of
lines_of-line [] s h = refl
lines_of-line (c ∷ line) s (h, hs) = ground (arith, lines_of-line line s hs)

pub lines_of-write_lines :
    (lines : List Text) (s : Bytes)
    → All IsPlain lines
    → lines_of false (write_lines lines ++ s) ≡ lines ++ lines_of false s
unfolding write_lines
lines_of-write_lines [] s h = refl
lines_of-write_lines (line ∷ lines) s (h, hs) =
    rw (append_assoc line (13 ∷ 10 ∷ write_lines lines) s) (
      lines_of-line line (write_lines lines ++ s) h
      ∙ ap (◌∷◌ line) (lines_of-write_lines lines s hs))

-- The values of the lines that start with `name`, in their order.
abbrev keep : Option Text → List Text → List Text
keep none values = values
keep (some value) values = value ∷ values

unfoldable pub values_of : Text → List Text → List Text
unfolding strip_prefix
values_of name [] = []
values_of name (line ∷ lines) = keep (strip_prefix name line) (values_of name lines)

-- What a client takes from a response for a header, its name written with the colon.
unfoldable pub setting : Text → Bytes → List Text
unfolding lines_of values_of
setting name response = values_of name (lines_of false response)

strip_prefix-append : (name s : Text) → strip_prefix name (name ++ s) ≡ some s
unfolding strip_prefix
strip_prefix-append [] s = refl
strip_prefix-append (c ∷ name) s = ground (arith, strip_prefix-append name s)

keep-append :
    (o : Option Text) (values rest ys : List Text)
    → values ≡ rest ++ ys
    → keep o values ≡ keep o rest ++ ys
keep-append none values rest ys e = e
keep-append (some v) values rest ys e = ap (◌∷◌ v) e

pub values_of-append :
    (name : Text) (xs ys : List Text)
    → values_of name (xs ++ ys) ≡ values_of name xs ++ values_of name ys
unfolding values_of
values_of-append name [] ys = refl
values_of-append name (x ∷ xs) ys =
    keep-append (strip_prefix name x) (values_of name (xs ++ ys)) (values_of name xs)
      (values_of name ys) (values_of-append name xs ys)

-- The lines under a name give back the values.
pub values_own : (name : Text) (ss : List Text) → values_of name (map (λ s. name ++ s) ss) ≡ ss
unfolding values_of
values_own name [] = refl
values_own name (s ∷ ss) = rw (strip_prefix-append name s) (ap (◌∷◌ s) (values_own name ss))

-- Lines under another name give nothing.
pub values_other :
    (name label : Text) (ss : List Text)
    → ((s : Text) → strip_prefix name (label ++ s) ≡ none)
    → values_of name (map (λ s. label ++ s) ss) ≡ []
unfolding values_of
values_other name label [] h = refl
values_other name label (s ∷ ss) h = rw (h s) (values_other name label ss h)
