-- ===== src/Vpn/IpPool/Laws.antt =====
-- The pool against the set of addresses that clients hold.
use ocserv_rs.Base.{
  ℕ, ◌≡◌, ◌≢◌, refl, sym, ap, ◌∙◌, ◌⊎◌, inl, inr, Result, ok, err, Option, none, some, Bool, true,
  false, ◌||◌, List, [], ◌∷◌, ◌++◌, if◌then◌else◌, arith, All, Option-cases, subst, nat_beq_iff,
}
use ocserv_rs.Base.Text.{Text}
use ocserv_rs.Base.Eq.{nat_eq}
use ocserv_rs.Base.HashSet
use ocserv_rs.Base.HashSet.{contains, contains-insert, contains-remove, IsDistinct}
use ocserv_rs.Vpn.IpPool.{
  IpNetwork, no_available_ips, IpPool, first_free, reserve, new, take_free, allocate, is_reserved,
  release,
}

-- The first address of the list that is not assigned: all before it are.
pub record IsFirstFree (ips assigned : List ℕ) (ip : ℕ) : Type 0 where
  pub before : List ℕ
  pub behind : List ℕ
  pub split : ips ≡ before ++ ip ∷ behind
  pub taken : All (λ a. contains a assigned ≡ true) before
  pub free : contains ip assigned ≡ false

first_free-some :
    (ips assigned : List ℕ) (ip : ℕ)
    → first_free ips assigned ≡ some ip
    → IsFirstFree ips assigned ip
unfolding first_free
first_free-some [] assigned ip e = cc
first_free-some (x ∷ ips) assigned ip e = elim (ocserv_rs.Base.Bool-cases (contains x assigned)) [
  | inl t ↦
      let r = first_free-some ips assigned ip (ground arith) in
      record {
        before = x ∷ r.before;
        behind = r.behind;
        split = ap (◌∷◌ x) r.split;
        taken = (t, r.taken);
        free = r.free;
      }
  | inr f ↦ record {
    before = [];
    behind = ips;
    split = ground arith;
    taken = tt;
    free = ground arith;
  }
]

first_free-none :
    (ips assigned : List ℕ)
    → first_free ips assigned ≡ none
    → All (λ a. contains a assigned ≡ true) ips
unfolding first_free
first_free-none [] assigned e = tt
first_free-none (x ∷ ips) assigned e = ground (arith, first_free-none ips assigned)

first_free-remove :
    (ip : ℕ) (assigned ips : List ℕ)
    → All (λ a. contains a assigned ≡ true) ips
    → contains ip ips ≡ true
    → first_free ips (HashSet.remove ip assigned) ≡ some ip
unfolding first_free contains
first_free-remove ip assigned [] full listed = cc
first_free-remove ip assigned (x ∷ ips) full listed = ground (
  arith,
  contains-remove ip x assigned,
  nat_beq_iff ip x,
  nat_beq_iff x ip,
  first_free-remove ip assigned ips full.1,
)

module _ (net : IpNetwork) where
  -- The abstract view: `held` are the addresses that clients hold, and what the pool has assigned
  -- are these and the three reserved ones.
  abbrev pub Represents : IpPool net → List ℕ → Type 0
  Represents p held = (a : ℕ) → contains a p.assigned_ips ≡ (is_reserved net p a || contains a held)

  reserve-Represents : (n : net.Ipv4Network) (gateway : ℕ) → Represents (reserve net n gateway) []
  unfolding is_reserved contains
  reserve-Represents n gateway a = ground (
    arith,
    contains-insert gateway a
        (HashSet.insert (net.broadcast n) (HashSet.insert (net.network n) [])),
    contains-insert (net.broadcast n) a (HashSet.insert (net.network n) []),
    contains-insert (net.network n) a [],
  )

  new_ok :
      (cidr : Text) (p : IpPool net)
      → new net cidr ≡ ok p
      → (n : net.Ipv4Network) × (g : ℕ) × (net.parse cidr ≡ some n)
        × (net.nth n 1 ≡ some g)
        × (reserve net n g ≡ p)
  unfolding new
  new_ok cidr p e = elim (Option-cases (net.parse cidr)) [
    | inl h ↦ absurd (ground arith)
    | inr (n, h) ↦ elim (Option-cases (net.nth n 1)) [
      | inl k ↦ absurd (ground arith)
      | inr (g, k) ↦ (n, g, h, k, ground arith)
    ]
  ]

  -- A new pool has the network's first, last and second address assigned and no other.
  pub new-Represents : (cidr : Text) (p : IpPool net) → new net cidr ≡ ok p → Represents p []
  new-Represents cidr p e =
      let (n, g, _, _, q) = new_ok cidr p e in
      subst (λ r. Represents r []) q (reserve-Represents n g)

  -- What a call of `allocate` may come to on a pool whose clients hold the addresses `held`: the
  -- first address of the network that is neither reserved nor held, or none if there is none such.
  abbrev pub IsFree : IpPool net → List ℕ → ℕ → Type 0
  IsFree p held a = (is_reserved net p a ≡ false) × (contains a held ≡ false)

  pub record IsAllocated (p : IpPool net) (held : List ℕ) (ip : ℕ) : Type 0 where
    pub before : List ℕ
    pub behind : List ℕ
    pub split : net.iter p.network ≡ before ++ ip ∷ behind
    pub skipped : All (λ a. (is_reserved net p a || contains a held) ≡ true) before
    pub free : IsFree p held ip

  Represents-All :
      (p : IpPool net) (held ips : List ℕ)
      → Represents p held
      → All (λ a. contains a p.assigned_ips ≡ true) ips
      → All (λ a. (is_reserved net p a || contains a held) ≡ true) ips
  Represents-All p held [] r h = tt
  Represents-All p held (a ∷ ips) r h = (sym (r a) ∙ h.0, Represents-All p held ips r h.1)

  first_free-IsAllocated :
      (p : IpPool net) (held : List ℕ) (ip : ℕ)
      → Represents p held
      → IsFirstFree (net.iter p.network) p.assigned_ips ip
      → IsAllocated p held ip
  first_free-IsAllocated p held ip r f = record {
    before = f.before;
    behind = f.behind;
    split = f.split;
    skipped = Represents-All p held f.before r f.taken;
    free = (ground (arith, r ip, f.free), ground (arith, r ip, f.free));
  }

  insert-Represents :
      (p : IpPool net) (held : List ℕ) (ip : ℕ)
      → Represents p held
      → Represents (record p { assigned_ips = HashSet.insert ip p.assigned_ips }) (ip ∷ held)
  unfolding contains is_reserved
  insert-Represents p held ip r a = ground (arith, contains-insert ip a p.assigned_ips, r a)

  -- Every call of `allocate` either hands out the first address that is neither reserved nor held,
  -- which is held from then on, or fails because there is none, and changes nothing.
  pub allocate-Represents :
      (p : IpPool net) (held : List ℕ)
      → Represents p held
      → ((ip : ℕ) × ((allocate net p).1 ≡ ok ip)
          × IsAllocated p held ip
          × Represents (allocate net p).0 (ip ∷ held))
        ⊎ (((allocate net p) ≡ (p, err no_available_ips))
            × All (λ a. (is_reserved net p a || contains a held) ≡ true) (net.iter p.network))
  unfolding allocate take_free
  allocate-Represents p held r =
      elim (Option-cases (first_free (net.iter p.network) p.assigned_ips)) [
        | inl e ↦ inr (
          ap (take_free net p) e,
          Represents-All p held (net.iter p.network) r (first_free-none _ _ e),
        )
        | inr (ip, e) ↦ inl (
          ip,
          ap (λ o. (take_free net p o).1) e,
          first_free-IsAllocated p held ip r (first_free-some _ _ ip e),
          rw e (insert-Represents p held ip r),
        )
      ]

  remove-Represents :
      (p : IpPool net) (held : List ℕ) (ip : ℕ)
      → is_reserved net p ip ≡ false
      → Represents p held
      → Represents
          (record p { assigned_ips = HashSet.remove ip p.assigned_ips })
          (HashSet.remove ip held)
  unfolding is_reserved
  remove-Represents p held ip f r a =
      ground (arith, contains-remove ip a p.assigned_ips, contains-remove ip a held, r a)

  keep-Represents :
      (p : IpPool net) (held : List ℕ) (ip : ℕ)
      → is_reserved net p ip ≡ true
      → Represents p held
      → Represents p (HashSet.remove ip held)
  keep-Represents p held ip t r a = ground (arith, contains-remove ip a held, r a)

  -- Whatever address is released, the pool then stands for the held ones without it: the reserved
  -- ones stay assigned, and no other address changes.
  pub release-Represents :
      (p : IpPool net) (held : List ℕ) (ip : ℕ)
      → Represents p held
      → Represents (release net p ip) (HashSet.remove ip held)
  unfolding release
  release-Represents p held ip r = elim (ocserv_rs.Base.Bool-cases (is_reserved net p ip)) [
    | inl t ↦ rw t (keep-Represents p held ip t r)
    | inr f ↦ rw f (remove-Represents p held ip f r)
  ]

  -- In a pool with no free address, a released address is the next one to be handed out, if it is
  -- an address of the network that is not reserved.
  pub release-allocate :
      (p : IpPool net) (ip : ℕ)
      → All (λ a. contains a p.assigned_ips ≡ true) (net.iter p.network)
      → contains ip (net.iter p.network) ≡ true
      → is_reserved net p ip ≡ false
      → (allocate net (release net p ip)).1 ≡ ok ip
  unfolding release allocate
  release-allocate p ip full listed f = rw f (
      ap (λ o. (take_free net (record p { assigned_ips = HashSet.remove ip p.assigned_ips }) o).1)
        (first_free-remove ip p.assigned_ips (net.iter p.network) full listed))
