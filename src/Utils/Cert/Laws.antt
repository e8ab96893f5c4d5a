-- ===== src/Utils/Cert/Laws.antt =====
-- Which of the client's ciphers is selected.
use ocserv_rs.Base.{
  ℕ, ◌≡◌, ◌≢◌, ◌⊎◌, inl, inr, refl, ap, sym, ◌∙◌, Option, none, some, Bool, true, false, List, [],
  ◌∷◌, ◌++◌, find_first, All, arith, Option-cases, Bool-cases, if◌then◌else◌,
}
use ocserv_rs.Base.Text.{Text, split, split_from, starts_with}
use mathlib.Core.List.{reverse}
use ocserv_rs.Utils.Cert.{
  CertKeyType, preferred_prefixes, first_match, selected, select_compatible_cipher,
}

-- A cipher of the list that has the prefix, with none before it that has.
pub record IsFirstWith (prefix : Text) (ciphers : List Text) (cipher : Text) : Type 0 where
  pub before : List Text
  pub behind : List Text
  pub cut : ciphers ≡ before ++ cipher ∷ behind
  pub others : All (λ c. starts_with prefix c ≡ false) before
  pub fits : starts_with prefix cipher ≡ true

find_first-IsFirstWith :
    (prefix : Text) (ciphers : List Text) (cipher : Text)
    → find_first (starts_with prefix) ciphers ≡ some cipher
    → IsFirstWith prefix ciphers cipher
unfolding find_first
find_first-IsFirstWith prefix [] cipher e = cc
find_first-IsFirstWith prefix (c ∷ cs) cipher e = elim (Bool-cases (starts_with prefix c)) [
  | inl t ↦ record {
    before = [];
    behind = cs;
    cut = ground arith;
    others = tt;
    fits = ground arith;
  }
  | inr f ↦
      let r = find_first-IsFirstWith prefix cs cipher (ground arith) in
      record {
        before = c ∷ r.before;
        behind = r.behind;
        cut = ap (◌∷◌ c) r.cut;
        others = (f, r.others);
        fits = r.fits;
      }
]

find_first-none :
    (prefix : Text) (ciphers : List Text)
    → find_first (starts_with prefix) ciphers ≡ none
    → All (λ c. starts_with prefix c ≡ false) ciphers
unfolding find_first
find_first-none prefix [] e = tt
find_first-none prefix (c ∷ cs) e = ground (arith, find_first-none prefix cs)

-- The best choice by the order of the prefixes, then by the client's order.
pub record IsBest (prefixes ciphers : List Text) (cipher : Text) : Type 0 where
  pub better : List Text
  pub prefix : Text
  pub worse : List Text
  pub ranked : prefixes ≡ better ++ prefix ∷ worse
  pub unused : All (λ p. All (λ c. starts_with p c ≡ false) ciphers) better
  pub first : IsFirstWith prefix ciphers cipher

first_match-IsBest :
    (prefixes ciphers : List Text) (cipher : Text)
    → first_match prefixes ciphers ≡ some cipher
    → IsBest prefixes ciphers cipher
unfolding first_match
first_match-IsBest [] ciphers cipher e = cc
first_match-IsBest (p ∷ ps) ciphers cipher e =
    elim (Option-cases (find_first (starts_with p) ciphers)) [
      | inl n ↦
          let r = first_match-IsBest ps ciphers cipher (ground arith) in
          record {
            better = p ∷ r.better;
            prefix = r.prefix;
            worse = r.worse;
            ranked = ap (◌∷◌ p) r.ranked;
            unused = (find_first-none p ciphers n, r.unused);
            first = r.first;
          }
      | inr (c, s) ↦ record {
        better = [];
        prefix = p;
        worse = ps;
        ranked = refl;
        unused = tt;
        first = find_first-IsFirstWith p ciphers cipher (ground arith);
      }
    ]

first_match-none :
    (prefixes ciphers : List Text)
    → first_match prefixes ciphers ≡ none
    → All (λ p. All (λ c. starts_with p c ≡ false) ciphers) prefixes
unfolding first_match
first_match-none [] ciphers e = tt
first_match-none (p ∷ ps) ciphers e = elim (Option-cases (find_first (starts_with p) ciphers)) [
  | inl n ↦ (find_first-none p ciphers n, first_match-none ps ciphers (ground arith))
  | inr (c, s) ↦ absurd (ground arith)
]

split_cons :
    (sep : ℕ) (cur s : Text) → (c : Text) × (cs : List Text) × (split_from sep cur s ≡ c ∷ cs)
unfolding split_from
split_cons sep cur [] = (reverse cur, [], refl)
split_cons sep cur (c ∷ s) = elim (Bool-cases (ocserv_rs.Base.nat_beq c sep)) [
  | inl t ↦ (reverse cur, split_from sep [] s, rw t)
  | inr f ↦ let (d, ds, e) = split_cons sep (c ∷ cur) s in (d, ds, rw f e)
]

-- The selected cipher is the best one of the client's list by the certificate's prefixes, and where
-- no cipher has any of them it is the first of the list; so it always is one that the client named.
pub select_compatible_cipher-IsBest :
    (client_ciphers : Text) (t : CertKeyType)
    → IsBest
        (preferred_prefixes t)
        (split b':' client_ciphers)
        (select_compatible_cipher client_ciphers t)
      ⊎ (All
            (λ p. All (λ c. starts_with p c ≡ false) (split b':' client_ciphers))
            (preferred_prefixes t)
          × ((cs : List Text) × (split b':' client_ciphers
                ≡ select_compatible_cipher client_ciphers t ∷ cs)))
unfolding select_compatible_cipher split
select_compatible_cipher-IsBest s t = go (first_match (preferred_prefixes t) (split b':' s)) refl
  where
    go :
        (o : Option Text)
        → first_match (preferred_prefixes t) (split b':' s) ≡ o
        → IsBest (preferred_prefixes t) (split b':' s) (selected o (split b':' s))
          ⊎ (All (λ p. All (λ c. starts_with p c ≡ false) (split b':' s)) (preferred_prefixes t)
              × ((cs : List Text) × (split b':' s ≡ selected o (split b':' s) ∷ cs)))
    go (some c) e = inl (first_match-IsBest _ _ c e)
    go none e =
        inr (first_match-none _ _ e, let (c, cs, cut) = split_cons b':' [] s in (cs, rw cut))
