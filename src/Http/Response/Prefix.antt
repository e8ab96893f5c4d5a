-- ===== src/Http/Response/Prefix.antt =====
-- The end of a head is found in what has arrived as soon as it is there, and not before.
use ocserv_rs.Base.{
  ℕ, suc, ◌+◌, ◌≤◌, ◌<◌, ◌≡◌, refl, ap, sym, ◌∙◌, ◌⊎◌, inl, inr, Option, none, some, Bool, true,
  false, ◌&&◌, [], ◌∷◌, ◌++◌, length, arith, if◌then◌else◌, nat_beq,
}
use native.Mathlib.Decide.{dec_lt}
use ocserv_rs.Base.Text.{Bytes, starts_with}
use ocserv_rs.Http.Response.{find_header_end, shift}

-- A prefix is decided by as many bytes as it has.
starts_with-append :
    (p a b : Bytes) → length p ≤ length a → starts_with p (a ++ b) ≡ starts_with p a
unfolding starts_with
starts_with-append [] a b h = refl
starts_with-append (c ∷ p) [] b h = absurd (omega arith)
starts_with-append (c ∷ p) (d ∷ a) b h =
    ap (λ t. nat_beq c d && t) (starts_with-append p a b (omega arith))

starts_with_short : (p a : Bytes) → length a < length p → starts_with p a ≡ false
unfolding starts_with
starts_with_short [] a h = absurd (omega arith)
starts_with_short (c ∷ p) [] h = refl
starts_with_short (c ∷ p) (d ∷ a) h = ground (arith, starts_with_short p a (omega arith))

pub le-or-lt : (m n : ℕ) → (m ≤ n) ⊎ (n < m)
le-or-lt m n = elim (dec_lt n m) [ yes h ↦ inr h | no h ↦ inl (omega (arith, h)) ]

abbrev mark : Bytes
mark = 13 ∷ 10 ∷ 13 ∷ 10 ∷ []

find-none : (a : Bytes) → length a < 4 → find_header_end a ≡ none
unfolding find_header_end
find-none [] h = refl
find-none (c ∷ a) h = rw (starts_with_short mark (c ∷ a) h, find-none a (omega arith)) refl

abbrev found : Bool → Option ℕ → Option ℕ
found t o = if t then some 0 else shift o

find-found :
    (c : ℕ) (a : Bytes)
    → find_header_end (c ∷ a) ≡ found (starts_with mark (c ∷ a)) (find_header_end a)
unfolding find_header_end
find-found c a = refl

found_here :
    (t : Bool) (o p : Option ℕ) (pos : ℕ)
    → found t o ≡ some pos
    → ((q : ℕ) → o ≡ some q → suc q ≡ pos → p ≡ some q)
    → found t p ≡ some pos
found_here true o p pos e k = e
found_here false none p pos e k = absurd (ground arith)
found_here false (some q) p pos e k = rw (k q refl (ground arith)) e

-- Once the end of the head has arrived, it is found, whatever may follow.
pub find_header_end_here :
    (a b : Bytes) (pos : ℕ)
    → find_header_end (a ++ b) ≡ some pos
    → pos + 4 ≤ length a
    → find_header_end a ≡ some pos
find_header_end_here [] b pos e h = absurd (omega arith)
find_header_end_here (c ∷ a) b pos e h =
    rw (find-found c a, ← starts_with-append mark (c ∷ a) b (omega arith))
      (found_here (starts_with mark (c ∷ (a ++ b))) (find_header_end (a ++ b)) (find_header_end a)
        pos (sym (find-found c (a ++ b)) ∙ e) (λ q k l. find_header_end_here a b q k (omega arith)))

found_later :
    (t u : Bool) (o p : Option ℕ) (pos : ℕ)
    → found t o ≡ some pos
    → (t ≡ true → pos ≡ 0 → (u ≡ false) × (p ≡ none))
    → (t ≡ false → u ≡ false)
    → ((q : ℕ) → o ≡ some q → suc q ≡ pos → p ≡ none)
    → found u p ≡ none
found_later true u o p pos e f g k = ground (arith, f refl)
found_later false u none p pos e f g k = absurd (ground arith)
found_later false u (some q) p pos e f g k = rw (g refl, k q refl (ground arith)) refl

starts_later : (a b : Bytes) → starts_with mark (a ++ b) ≡ false → starts_with mark a ≡ false
starts_later a b e = elim (le-or-lt 4 (length a)) [
  | inl h ↦ sym (starts_with-append mark a b h) ∙ e
  | inr h ↦ starts_with_short mark a h
]

-- Before the end of the head has arrived, none is found.
pub find_header_end_later :
    (a b : Bytes) (pos : ℕ)
    → find_header_end (a ++ b) ≡ some pos
    → length a < pos + 4
    → find_header_end a ≡ none
find_header_end_later [] b pos e h = find-none [] (omega arith)
find_header_end_later (c ∷ a) b pos e h = rw (find-found c a) (
    found_later (starts_with mark (c ∷ (a ++ b))) (starts_with mark (c ∷ a))
      (find_header_end (a ++ b)) (find_header_end a) pos (sym (find-found c (a ++ b)) ∙ e)
      (λ t z. (starts_with_short mark (c ∷ a) (omega arith), find-none a (omega arith)))
      (starts_later (c ∷ a) b) (λ q k l. find_header_end_later a b q k (omega arith)))
