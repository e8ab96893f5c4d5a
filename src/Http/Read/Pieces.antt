-- ===== src/Http/Read/Pieces.antt =====
-- A body as the pieces that it arrives in.
use ocserv_rs.Base.{
  ℕ, zero, suc, ◌+◌, ◌-◌, ◌≤◌, ◌<◌, ◌≡◌, ◌≢◌, inl, inr, refl, ap, sym, ◌∙◌, Bool, true, false, ok,
  List, [], ◌∷◌, ◌++◌, length, take, drop, All, arith, append_assoc, append-nil, length-append,
  length-take, take-append-drop, Bool-cases, ltb,
}
use ocserv_rs.Base.Text.{Bytes}
use ocserv_rs.Http.Read.{Stream, read, keep_rest, take_body, read_body, body_of}

-- All that is still to arrive.
abbrev pub joined : List Bytes → Bytes
joined [] = []
joined (chunk ∷ arrivals) = chunk ++ joined arrivals

-- No arrival is empty.
abbrev pub AreArrivals : List Bytes → Type 0
AreArrivals arrivals = All (λ chunk. chunk ≢ []) arrivals

abbrev pub rest_of : List Bytes → Bool → Stream
rest_of arrivals closes = record { arrivals = arrivals; closes = closes }

joined-keep_rest :
    (rest : Bytes) (arrivals : List Bytes)
    → joined (keep_rest rest arrivals) ≡ rest ++ joined arrivals
joined-keep_rest [] arrivals = refl
joined-keep_rest (b ∷ rest) arrivals = refl

keep_rest-AreArrivals :
    (rest : Bytes) (arrivals : List Bytes)
    → AreArrivals arrivals
    → AreArrivals (keep_rest rest arrivals)
keep_rest-AreArrivals [] arrivals h = h
keep_rest-AreArrivals (b ∷ rest) arrivals h = ((λ e. cc), h)

-- What a read with some room gives: a piece that is not empty, and what is left behind it.
pub record IsPiece (n : ℕ) (closes : Bool) (arrivals : List Bytes) : Type 0 where
  pub b : ℕ
  pub chunk : Bytes
  pub left : List Bytes
  pub gives : read n closes arrivals ≡ (rest_of left closes, ok (b ∷ chunk))
  pub whole : b ∷ (chunk ++ joined left) ≡ joined arrivals
  pub fits : length (b ∷ chunk) ≤ n
  pub pieces : AreArrivals left

read-chunk :
    (m : ℕ) (closes : Bool) (b : ℕ) (chunk : Bytes) (arrivals : List Bytes)
    → read (suc m) closes ((b ∷ chunk) ∷ arrivals)
      ≡ (rest_of (keep_rest (drop m chunk) arrivals) closes, ok (b ∷ take m chunk))
unfolding read
read-chunk m true b chunk arrivals = refl
read-chunk m false b chunk arrivals = refl

pub segment :
    (n : ℕ) (closes : Bool) (arrivals : List Bytes)
    → 0 < n
    → AreArrivals arrivals
    → 0 < length (joined arrivals)
    → IsPiece n closes arrivals
segment zero closes arrivals p h l = absurd (omega arith)
segment (suc m) closes [] p h l = absurd (omega arith)
segment (suc m) closes ([] ∷ arrivals) p h l = absurd (h.0 refl)
segment (suc m) closes ((b ∷ chunk) ∷ arrivals) p h l = record {
  b = b;
  chunk = take m chunk;
  left = keep_rest (drop m chunk) arrivals;
  gives = read-chunk m closes b chunk arrivals;
  whole = ap (◌∷◌ b) (
      ap (λ t. take m chunk ++ t) (joined-keep_rest (drop m chunk) arrivals)
      ∙ (sym (append_assoc (take m chunk) (drop m chunk) (joined arrivals))
          ∙ ap (λ t. t ++ joined arrivals) (take-append-drop m chunk)));
  fits = omega (arith, length-take m chunk);
  pieces = keep_rest-AreArrivals (drop m chunk) arrivals h.1;
}

nothing_left : (arrivals : List Bytes) → AreArrivals arrivals → joined arrivals ≡ [] → arrivals ≡ []
nothing_left [] h e = refl
nothing_left ([] ∷ arrivals) h e = absurd (h.0 refl)
nothing_left ((b ∷ chunk) ∷ arrivals) h e = absurd (ground arith)

length-zero : (s : Bytes) → length s ≡ 0 → s ≡ []
length-zero [] h = refl
length-zero (b ∷ s) h = absurd (omega arith)

pub moved :
    (acc : Bytes) (b : ℕ) (chunk rest whole body : Bytes)
    → b ∷ (chunk ++ rest) ≡ whole
    → acc ++ whole ≡ body
    → (acc ++ b ∷ chunk) ++ rest ≡ body
moved acc b chunk rest whole body e h =
    append_assoc acc (b ∷ chunk) rest ∙ (ap (λ t. acc ++ t) e ∙ h)

-- One round of the loop for the body that reads something.
read_body_more :
    (fuel n : ℕ) (acc : Bytes) (s t : Stream) (b : ℕ) (chunk : Bytes)
    → ltb (length acc) n ≡ true
    → read (n - length acc) s.closes s.arrivals ≡ (t, ok (b ∷ chunk))
    → read_body (suc fuel) n acc s ≡ read_body fuel n (acc ++ b ∷ chunk) t
unfolding read_body take_body
read_body_more fuel n acc s t b chunk more gives =
    rw (more, read_body) (ap (take_body (read_body fuel n) acc) gives)

module _ (closes : Bool) (body : Bytes) where
  all_read :
      (acc : Bytes) (arrivals : List Bytes)
      → acc ++ joined arrivals ≡ body
      → AreArrivals arrivals
      → length body ≤ length acc
      → (arrivals ≡ []) × (acc ≡ body)
  all_read acc arrivals e h l =
      let none_left =
        length-zero (joined arrivals)
          (omega (arith, ap length e, length-append acc (joined arrivals))) in
      (
        nothing_left arrivals h none_left,
        sym (append-nil acc) ∙ (ap (λ t. acc ++ t) (sym none_left) ∙ e),
      )

  joined_more :
      (acc : Bytes) (arrivals : List Bytes)
      → acc ++ joined arrivals ≡ body
      → length acc < length body
      → 0 < length (joined arrivals)
  joined_more acc arrivals e h = omega (arith, ap length e, length-append acc (joined arrivals))

  read_body-joined :
      (fuel : ℕ) (acc : Bytes) (arrivals : List Bytes)
      → acc ++ joined arrivals ≡ body
      → AreArrivals arrivals
      → length body ≤ length acc + fuel
      → read_body (suc fuel) (length body) acc (rest_of arrivals closes)
        ≡ (rest_of [] closes, ok body)
  unfolding read_body
  read_body-joined zero acc arrivals e h l =
      let (a, k) = all_read acc arrivals e h (omega arith) in
      let done : ltb (length acc) (length body) ≡ false = ground arith in
      rw (done, read_body, a, k) refl
  read_body-joined (suc fuel) acc arrivals e h l =
      elim (Bool-cases (ltb (length acc) (length body))) [
        | inr f ↦
            let (a, k) = all_read acc arrivals e h (ground arith) in rw (f, read_body, a, k) refl
        | inl t ↦
            let more =
              segment (length body - length acc) closes arrivals (ground arith) h
                (joined_more acc arrivals e (ground arith)) in
            let rest =
              read_body-joined fuel (acc ++ more.b ∷ more.chunk) more.left
                (moved acc more.b more.chunk (joined more.left) (joined arrivals) body more.whole e)
                more.pieces (omega (arith, length-append acc (more.b ∷ more.chunk))) in
            read_body_more (suc fuel) (length body) acc (rest_of arrivals closes)
              (rest_of more.left closes) more.b more.chunk t more.gives
            ∙ rest
      ]

  pub body_of-joined :
      (behind : Bytes) (arrivals : List Bytes)
      → behind ++ joined arrivals ≡ body
      → AreArrivals arrivals
      → body_of (length body) behind (rest_of arrivals closes) ≡ (rest_of [] closes, ok body)
  unfolding body_of
  body_of-joined behind arrivals e h = elim (Bool-cases (ltb 0 (length body))) [
    | inl t ↦ rw t (read_body-joined (length body) behind arrivals e h (omega arith))
    | inr f ↦
        let empty = length-zero body (ground arith) in
        let (a, k) = all_read behind arrivals e h (ground arith) in rw f (rw (a, empty) refl)
  ]
