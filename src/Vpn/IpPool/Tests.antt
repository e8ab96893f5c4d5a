-- ===== src/Vpn/IpPool/Tests.antt =====
-- The pool of a network of eight addresses, and its theorems there.
use ocserv_rs.Base.{ℕ, ◌+◌, ◌≡◌, ◌⊎◌, refl, ok, err, some, true, ◌||◌, [], ◌∷◌, All}
use ocserv_rs.Base.Text.{text}
use ocserv_rs.Base.HashSet
use ocserv_rs.Base.HashSet.{contains}
use ocserv_rs.Base.Eq.{nat_eq}
use ocserv_rs.Vpn.IpPool.{
  IpNetwork, IpPool, no_available_ips, reserve, new, allocate, is_reserved, release,
}
use ocserv_rs.Vpn.IpPool.Laws.{
  Represents, IsAllocated, new-Represents, allocate-Represents, release-Represents,
  release-allocate,
}
use ocserv_rs.Vpn.IpPool.History.{allocates, releases, run, IsSound, run-new-IsSound}

-- A network is its first address; all have the mask of four addresses.
abbrev small : IpNetwork
small = record {
  Ipv4Network = ℕ;
  parse = λ cidr. some 40;
  network = λ n. n;
  broadcast = λ n. n + 3;
  nth = λ n i. some (n + i);
  iter = λ n. n ∷ (n + 1) ∷ (n + 2) ∷ (n + 3) ∷ [];
}

abbrev pool : IpPool small
pool = reserve small 40 41

pool_tests : Unit {0}
unfolding new allocate release is_reserved contains HashSet.insert HashSet.remove run
pool_tests = tt

allocate_twice :
    ((allocate small pool).1 ≡ ok 42)
    × ((allocate small (allocate small pool).0).1 ≡ err no_available_ips)
unfolding pool_tests
allocate_twice = (refl, refl)

pool_represents : Represents small pool []
unfolding new
pool_represents = new-Represents small (text "10.0.0.40/30") pool refl

allocate-Represents_example :
    ((ip : ℕ) × ((allocate small pool).1 ≡ ok ip)
      × IsAllocated small pool [] ip
      × Represents small (allocate small pool).0 (ip ∷ []))
    ⊎ (((allocate small pool) ≡ (pool, err no_available_ips))
        × All (λ a. (is_reserved small pool a || contains a []) ≡ true) (small.iter pool.network))
allocate-Represents_example = allocate-Represents small pool [] pool_represents

release-Represents_run : Represents small (release small pool 42) (HashSet.remove 42 [])
release-Represents_run = release-Represents small pool [] 42 pool_represents

released_again : (allocate small (release small (allocate small pool).0 42)).1 ≡ ok 42
unfolding pool_tests
released_again =
    release-allocate small (allocate small pool).0 42 (refl, (refl, (refl, (refl, tt)))) refl refl

run-new-IsSound_example :
    IsSound small
      (run small (record { pool = pool; held = [] }) (allocates ∷ releases 40 ∷ allocates ∷ []))
unfolding new
run-new-IsSound_example =
    run-new-IsSound small (text "10.0.0.40/30") pool (allocates ∷ releases 40 ∷ allocates ∷ []) refl
