-- ===== src/Base/Split.antt =====
-- What `split` gives where the separator stands once or not at all.
use Prim.Native.Nat.{ℕ}
use mathlib.Core.Path.{◌≡◌, sym, ap, ◌∙◌}
use mathlib.Core.Logic.{◌≢◌}
use mathlib.Core.Bool.{Bool, true, not, ◌&&◌}
use mathlib.Core.List.{[], ◌∷◌, ◌++◌, reverse, append-nil, append_assoc, reverse-cons}
use native.Mathlib.Omega.{arith}
use ocserv_rs.Base.Lists.{All}
use ocserv_rs.Base.Tests.{nat_beq}
use ocserv_rs.Base.Text.{Text, split, split_from}

pub reverse-onto : (cur : Text) (c : ℕ) (s : Text) → reverse (c ∷ cur) ++ s ≡ reverse cur ++ c ∷ s
reverse-onto cur c s =
    ap (λ (l : Text). l ++ s) (reverse-cons c cur) ∙ append_assoc (reverse cur) (c ∷ []) s

module _ (sep : ℕ) where
  -- The text has no separator.
  abbrev pub Lacks : Text → Type 0
  Lacks s = All (λ c. c ≢ sep) s

  -- The same as a test.
  abbrev lacks : Text → Bool
  lacks [] = true
  lacks (c ∷ s) = not (nat_beq c sep) && lacks s

  pub lacks-Lacks : (s : Text) → lacks s ≡ true → Lacks s
  lacks-Lacks [] h = tt
  lacks-Lacks (c ∷ s) h = (ground arith, lacks-Lacks s (ground arith))

  pub split_from-one : (cur s : Text) → Lacks s → split_from sep cur s ≡ (reverse cur ++ s) ∷ []
  unfolding split_from
  split_from-one cur [] h = ap (λ l. l ∷ []) (sym (append-nil (reverse cur)))
  split_from-one cur (c ∷ s) (n, h) =
      ground (arith, split_from-one (c ∷ cur) s h) ∙ ap (λ l. l ∷ []) (reverse-onto cur c s)

  pub split_from-two :
      (cur s t : Text)
      → Lacks s
      → Lacks t
      → split_from sep cur (s ++ sep ∷ t) ≡ (reverse cur ++ s) ∷ t ∷ []
  unfolding split_from
  split_from-two cur [] t h k = ground (arith, split_from-one [] t k, append-nil (reverse cur))
  split_from-two cur (c ∷ s) t (n, h) k =
      ground (arith, split_from-two (c ∷ cur) s t h k) ∙ ap (λ l. l ∷ t ∷ []) (reverse-onto cur c s)

  pub split-one : (s : Text) → Lacks s → split sep s ≡ s ∷ []
  unfolding split
  split-one s h = split_from-one [] s h

  pub split-two : (s t : Text) → Lacks s → Lacks t → split sep (s ++ sep ∷ t) ≡ s ∷ t ∷ []
  unfolding split
  split-two s t h k = split_from-two [] s t h k
