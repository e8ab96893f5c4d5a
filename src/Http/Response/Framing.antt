-- ===== src/Http/Response/Framing.antt =====
-- Where the head of a built response ends.
use ocserv_rs.Base.{
  ℕ, zero, suc, ◌+◌, ◌≡◌, ◌≢◌, refl, ap, ◌∙◌, Option, none, some, Bool, true, false, List, [], ◌∷◌,
  ◌++◌, length, map, All, arith, append_assoc, drop, drop-drop, drop-length-append, length-append,
  if◌then◌else◌, ltb, ◌/◌, ◌%◌, not, ◌&&◌,
}
use ocserv_rs.Base.Eq.{◌==◌, nat_eq}
use ocserv_rs.Base.Text.{Text, Bytes, text, decimal, digits_from, starts_with}
use ocserv_rs.Http.Response.{
  HttpResponse, status_line, header_line, length_lines, write_lines, build, find_header_end,
}

-- No carriage return.
abbrev pub IsPlain : Bytes → Type 0
IsPlain = All (λ c. c ≢ 13)

pub IsPlain-append : (s t : Bytes) → IsPlain s → IsPlain t → IsPlain (s ++ t)
IsPlain-append [] t h k = k
IsPlain-append (c ∷ s) t (h, hs) k = (h, IsPlain-append s t hs k)

digits_from-IsPlain : (fuel n : ℕ) (acc : Text) → IsPlain acc → IsPlain (digits_from fuel n acc)
unfolding digits_from
digits_from-IsPlain zero n acc h = h
digits_from-IsPlain (suc fuel) n acc h =
    let rest = digits_from-IsPlain fuel (n / 10) ((b'0' + n % 10) ∷ acc) ((omega arith), h) in
    go (ltb n 10) rest
  where
    go :
        (b : Bool)
        → IsPlain (digits_from fuel (n / 10) ((b'0' + n % 10) ∷ acc))
        → IsPlain
            (if b then (b'0' + n) ∷ acc else digits_from fuel (n / 10) ((b'0' + n % 10) ∷ acc))
    go true k = ((omega arith), h)
    go false k = k

pub decimal-IsPlain : (n : ℕ) → IsPlain (decimal n)
unfolding decimal
decimal-IsPlain n = digits_from-IsPlain (suc n) n [] tt

abbrev shift_by : ℕ → Option ℕ → Option ℕ
shift_by n none = none
shift_by n (some p) = some (n + p)

find_plain :
    (line s : Bytes) (p : ℕ)
    → IsPlain line
    → find_header_end s ≡ some p
    → find_header_end (line ++ s) ≡ some (length line + p)
unfolding find_header_end
find_plain [] s p h e = ground arith
find_plain (c ∷ line) s p (h, hs) e = ground (arith, find_plain line s p hs e)

find_line_end :
    (c : ℕ) (s : Bytes) (p : ℕ)
    → c ≢ 13
    → find_header_end (c ∷ s) ≡ some p
    → find_header_end (13 ∷ 10 ∷ c ∷ s) ≡ some (2 + p)
unfolding find_header_end
find_line_end c s p h e = ground arith

find_at_end : (body : Bytes) → find_header_end (13 ∷ 10 ∷ 13 ∷ 10 ∷ body) ≡ some 0
unfolding find_header_end starts_with
find_at_end body = refl

-- A line that `write_lines` can write.
abbrev pub IsLine : Text → Type 0
IsLine line = IsPlain line × (line ≢ [])

find_lines :
    (line : Text) (lines : List Text) (body : Bytes)
    → IsPlain line
    → All IsLine lines
    → (p : ℕ) × (find_header_end (write_lines (line ∷ lines) ++ (13 ∷ 10 ∷ body)) ≡ some p)
      × (p + 2 ≡ length (write_lines (line ∷ lines)))
unfolding write_lines
find_lines line [] body h hs = (
  length line,
  rw (append_assoc line (13 ∷ 10 ∷ []) (13 ∷ 10 ∷ body))
      (find_plain line (13 ∷ 10 ∷ 13 ∷ 10 ∷ body) 0 h (find_at_end body) ∙ ap some (omega arith)),
  omega (arith, length-append line (13 ∷ 10 ∷ [])),
)
find_lines line ([] ∷ lines) body h ((k, n), hs) = absurd (n refl)
find_lines line ((c ∷ next) ∷ lines) body h (((k, ks), n), hs) =
    let (p, e, l) = find_lines (c ∷ next) lines body (k, ks) hs in
    (
      length line + (2 + p),
      rw (append_assoc line (13 ∷ 10 ∷ write_lines ((c ∷ next) ∷ lines)) (13 ∷ 10 ∷ body))
          (find_plain line _ (2 + p) h (find_line_end c _ p k e)),
      omega (arith, length-append line (13 ∷ 10 ∷ write_lines ((c ∷ next) ∷ lines))),
    )

IsLine-append : (a b : Text) → IsPlain a → IsPlain b → b ≢ [] → IsLine (a ++ b)
IsLine-append [] b h k n = (k, n)
IsLine-append (c ∷ a) b h k n = (IsPlain-append (c ∷ a) b h k, (λ e. cc))

-- The parts that the response takes from its caller have no carriage return.
abbrev pub HasPlainParts : HttpResponse → Type 0
HasPlainParts r = IsPlain r.status_text × All (λ h. IsPlain (h.0) × IsPlain (h.1)) r.headers

unfoldable pub is_plain : Bytes → Bool
is_plain [] = true
is_plain (c ∷ s) = not (c == 13) && is_plain s

pub IsPlain-of : (s : Bytes) → is_plain s ≡ true → IsPlain s
unfolding is_plain
IsPlain-of [] e = tt
IsPlain-of (c ∷ s) e = (ground arith, IsPlain-of s (ground arith))

literals_plain :
    (is_plain (text "HTTP/") ≡ true)
    × (is_plain (text "1.0") ≡ true)
    × (is_plain (text "1.1") ≡ true)
    × (is_plain (text " ") ≡ true)
    × (is_plain (text ": ") ≡ true)
    × (is_plain (text "Content-Length: ") ≡ true)
unfolding is_plain text
literals_plain = (refl, refl, refl, refl, refl, refl)

colon_nonempty : (s : Text) → text ": " ++ s ≢ []
unfolding text
colon_nonempty s e = cc

append-nonempty : (a b : Text) → b ≢ [] → a ++ b ≢ []
append-nonempty [] b n = n
append-nonempty (c ∷ a) b n = (λ e. cc)

length_nonempty : (n : Text) → text "Content-Length: " ++ n ≢ []
unfolding text
length_nonempty s e = cc

header_lines-IsLine :
    (headers : List (Text × Text)) (body : Bytes)
    → All (λ h. IsPlain (h.0) × IsPlain (h.1)) headers
    → All IsLine (map header_line headers ++ length_lines body)
unfolding header_line length_lines
header_lines-IsLine [] [] h = tt
header_lines-IsLine [] (b ∷ body) h =
    let (_, _, _, _, _, k) = literals_plain in
    (
      (
        IsPlain-append (text "Content-Length: ") (decimal (length (b ∷ body)))
            (IsPlain-of (text "Content-Length: ") k) (decimal-IsPlain (length (b ∷ body))),
        length_nonempty (decimal (length (b ∷ body))),
      ),
      tt,
    )
header_lines-IsLine ((name, value) ∷ headers) body ((n, v), h) =
    let (_, _, _, _, k, _) = literals_plain in
    (
      (
        IsPlain-append name (text ": " ++ value) n
            (IsPlain-append (text ": ") value (IsPlain-of (text ": ") k) v),
        append-nonempty name (text ": " ++ value) (colon_nonempty value),
      ),
      header_lines-IsLine headers body h,
    )

version-IsPlain : (b : Bool) → IsPlain (if b then text "1.0" else text "1.1")
version-IsPlain true = let (_, k, _, _, _, _) = literals_plain in IsPlain-of (text "1.0") k
version-IsPlain false = let (_, _, k, _, _, _) = literals_plain in IsPlain-of (text "1.1") k

status_line-IsPlain : (v : ℕ) (r : HttpResponse) → IsPlain r.status_text → IsPlain (status_line v r)
unfolding status_line
status_line-IsPlain v r h =
    let (p, _, _, s, _, _) = literals_plain in
    let space = IsPlain-of (text " ") s in
    IsPlain-append (text "HTTP/") _ (IsPlain-of (text "HTTP/") p) (
      IsPlain-append _ _ (version-IsPlain (v == 0)) (
        IsPlain-append (text " ") _ space (
          IsPlain-append (decimal r.status_code) _ (decimal-IsPlain r.status_code)
            (IsPlain-append (text " ") r.status_text space h))))

drop-after : (s body : Bytes) (n : ℕ) → n ≡ length s + 2 → drop n (s ++ (13 ∷ 10 ∷ body)) ≡ body
drop-after s body n e =
    rw (e, drop-drop (length s) 2 (s ++ (13 ∷ 10 ∷ body)), drop-length-append s (13 ∷ 10 ∷ body))
      refl

-- What `build` writes has its first empty line where the head ends, if the status text and the
-- headers have no carriage return: `find_header_end` finds it, and the body follows it.
pub build_split :
    (v : ℕ) (r : HttpResponse)
    → HasPlainParts r
    → (p : ℕ) × (find_header_end (build v r) ≡ some p) × (drop (p + 4) (build v r) ≡ r.body)
unfolding build
build_split v r (h, hs) =
    let lines = map header_line r.headers ++ length_lines r.body in
    let (p, e, l) =
      find_lines (status_line v r) lines r.body (status_line-IsPlain v r h)
        (header_lines-IsLine r.headers r.body hs) in
    (p, e, drop-after (write_lines (status_line v r ∷ lines)) r.body (p + 4) (omega arith))
