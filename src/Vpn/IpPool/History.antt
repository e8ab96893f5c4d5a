-- ===== src/Vpn/IpPool/History.antt =====
-- Any sequence of calls on a new pool.
use ocserv_rs.Base.{
  ℕ, ◌≡◌, sym, ◌∙◌, ◌⊎◌, inl, inr, Result, ok, err, Bool, false, List, [], ◌∷◌, arith, All, subst,
}
use ocserv_rs.Base.Text.{Text}
use ocserv_rs.Base.Eq.{nat_eq, nat_eq}
use ocserv_rs.Base.HashSet
use ocserv_rs.Base.HashSet.{contains, IsDistinct, remove-IsDistinct}
use ocserv_rs.Vpn.IpPool.{
  IpNetwork, PoolError, IpPool, new, take_free, allocate, is_reserved, release,
}
use ocserv_rs.Vpn.IpPool.Laws.{
  Represents, IsFree, new-Represents, allocate-Represents, release-Represents,
}

-- A call of the pool by some connection.
pub data Call : Type 0 where
  allocates : Call
  releases : ℕ → Call

module _ (net : IpNetwork) where
  -- The pool, and the addresses that were handed out and not released since.
  pub record Leased : Type 0 where
    pub pool : IpPool net
    pub held : List ℕ

  -- The address that a call handed out is held.
  unfoldable pub hold : IpPool net × Result PoolError ℕ → List ℕ → Leased
  hold (p, ok ip) held = record { pool = p; held = ip ∷ held }
  hold (p, err _) held = record { pool = p; held = held }

  unfoldable pub step : Leased → Call → Leased
  unfolding hold
  step l allocates = hold (allocate net l.pool) l.held
  step l (releases ip) = record { pool = release net l.pool ip; held = HashSet.remove ip l.held }

  unfoldable pub run : Leased → List Call → Leased
  unfolding step
  run l [] = l
  run l (c ∷ cs) = run (step l c) cs

  -- What is assigned is what is held and the reserved addresses; no address is held twice, and no
  -- reserved one is held.
  pub record IsSound (l : Leased) : Type 0 where
    pub represents : Represents net l.pool l.held
    pub distinct : IsDistinct l.held
    pub unreserved : All (λ a. is_reserved net l.pool a ≡ false) l.held

  allocate-is_reserved :
      (p : IpPool net) (a : ℕ) → is_reserved net (allocate net p).0 a ≡ is_reserved net p a
  unfolding allocate take_free is_reserved
  allocate-is_reserved p a = ground arith

  release-is_reserved :
      (p : IpPool net) (ip a : ℕ) → is_reserved net (release net p ip) a ≡ is_reserved net p a
  unfolding release is_reserved
  release-is_reserved p ip a = ground arith

  All-transport :
      (f g : ℕ → Bool) (held : List ℕ)
      → ((a : ℕ) → g a ≡ f a)
      → All (λ a. f a ≡ false) held
      → All (λ a. g a ≡ false) held
  All-transport f g [] h k = tt
  All-transport f g (a ∷ held) h (k, ks) = (h a ∙ k, All-transport f g held h ks)

  All-remove :
      (f : ℕ → Bool) (ip : ℕ) (held : List ℕ)
      → All (λ a. f a ≡ false) held
      → All (λ a. f a ≡ false) (HashSet.remove ip held)
  unfolding HashSet.remove
  All-remove f ip [] h = tt
  All-remove f ip (a ∷ held) h = ground (arith, All-remove f ip held h.1)

  hold-IsSound :
      (p : IpPool net) (held : List ℕ) (x : IpPool net × Result PoolError ℕ)
      → IsSound (record { pool = p; held = held })
      → ((a : ℕ) → is_reserved net x.0 a ≡ is_reserved net p a)
      → ((ip : ℕ) × (x.1 ≡ ok ip) × IsFree net p held ip × Represents net x.0 (ip ∷ held))
        ⊎ ((e : PoolError) × (x ≡ (p, err e)))
      → IsSound (hold x held)
  unfolding hold
  hold-IsSound p held (q, r) s same (inl (ip, e, (unreserved, fresh), rep)) =
      subst (λ o. IsSound (hold (q, o) held)) (sym e)
        (record {
          represents = rep;
          distinct = (fresh, s.distinct);
          unreserved = (
            same ip ∙ unreserved,
            All-transport (is_reserved net p) (is_reserved net q) held same s.unreserved,
          );
        })
  hold-IsSound p held x s same (inr (e, eq)) = subst (λ o. IsSound (hold o held)) (sym eq) s

  step-IsSound : (l : Leased) (c : Call) → IsSound l → IsSound (step l c)
  unfolding step
  step-IsSound l allocates s =
      hold-IsSound l.pool l.held (allocate net l.pool) s (allocate-is_reserved l.pool)
        (elim (allocate-Represents net l.pool l.held s.represents) [
          | inl (ip, e, a, rep) ↦ inl (ip, e, a.free, rep)
          | inr (e, _) ↦ inr (ocserv_rs.Vpn.IpPool.no_available_ips, e)
        ])
  step-IsSound l (releases ip) s = record {
    represents = release-Represents net l.pool l.held ip s.represents;
    distinct = remove-IsDistinct ip l.held s.distinct;
    unreserved =
        All-transport (is_reserved net l.pool) (is_reserved net (release net l.pool ip)) _
          (release-is_reserved l.pool ip)
          (All-remove (is_reserved net l.pool) ip l.held s.unreserved);
  }

  run-IsSound : (cs : List Call) (l : Leased) → IsSound l → IsSound (run l cs)
  unfolding run
  run-IsSound [] l s = s
  run-IsSound (c ∷ cs) l s = run-IsSound cs (step l c) (step-IsSound l c s)

  -- After any calls on a new pool, in any order and with any addresses released: no two clients
  -- hold the same address, no client holds a reserved one, and the pool has assigned exactly the
  -- held and the reserved ones.
  pub run-new-IsSound :
      (cidr : Text) (p : IpPool net) (cs : List Call)
      → new net cidr ≡ ok p
      → IsSound (run (record { pool = p; held = [] }) cs)
  run-new-IsSound cidr p cs e =
      run-IsSound cs _
        (record { represents = new-Represents net cidr p e; distinct = tt; unreserved = tt })
