-- ===== src/Vpn/IpPool.antt =====
-- src/vpn/ip_pool.rs: the pool of client addresses. The mutex of `SharedIpPool` makes each call one
-- step; an address is its 32-bit number.
pub mod Laws
pub mod History
mod Tests
use ocserv_rs.Base.{
  ℕ, Result, ok, err, ◌>>=◌, Option, none, some, Bool, true, false, ◌||◌, List, [], ◌∷◌,
  if◌then◌else◌,
}
use ocserv_rs.Base.Text.{Text}
use ocserv_rs.Base.Eq.{◌==◌, nat_eq}
use ocserv_rs.Base.HashSet

-- The crate `ipnetwork`: the parser of CIDR texts, and of a network its first and last address, its
-- n-th address and all of them in order.
pub record IpNetwork : Type 1 where
  pub Ipv4Network : Type 0
  pub parse : Text → Option Ipv4Network
  pub network : Ipv4Network → ℕ
  pub broadcast : Ipv4Network → ℕ
  pub nth : Ipv4Network → ℕ → Option ℕ
  pub iter : Ipv4Network → List ℕ

pub data PoolError : Type 0 where
  invalid_cidr network_too_small no_available_ips : PoolError

abbrev or_fail {ℓ} : {A : Type ℓ} → Option A → PoolError → Result PoolError A
or_fail none e = err e
or_fail (some a) e = ok a

-- The loop of `allocate`.
unfoldable pub first_free : List ℕ → List ℕ → Option ℕ
first_free [] assigned = none
first_free (ip ∷ ips) assigned =
    if HashSet.contains ip assigned then first_free ips assigned else some ip

module _ (net : IpNetwork) where
  open net use {Ipv4Network, parse, network, broadcast, nth, iter}

  pub record IpPool : Type 0 where
    pub network : Ipv4Network
    pub assigned_ips : List ℕ
    pub gateway_ip : ℕ

  abbrev pub reserve : Ipv4Network → ℕ → IpPool
  reserve n gateway = record {
    network = n;
    assigned_ips =
        HashSet.insert gateway (HashSet.insert (broadcast n) (HashSet.insert (network n) []));
    gateway_ip = gateway;
  }

  unfoldable pub new : Text → Result PoolError IpPool
  new cidr = do
    n ← or_fail (parse cidr) invalid_cidr
    gateway ← or_fail (nth n 1) network_too_small
    ok (reserve n gateway)

  unfoldable pub take_free : IpPool → Option ℕ → IpPool × Result PoolError ℕ
  take_free p none = (p, err no_available_ips)
  take_free p (some ip) = (record p { assigned_ips = HashSet.insert ip p.assigned_ips }, ok ip)

  unfoldable pub allocate : IpPool → IpPool × Result PoolError ℕ
  unfolding take_free first_free
  allocate p = take_free p (first_free (iter p.network) p.assigned_ips)

  unfoldable pub is_reserved : IpPool → ℕ → Bool
  is_reserved p ip = ip == p.gateway_ip || (ip == network p.network || ip == broadcast p.network)

  unfoldable pub release : IpPool → ℕ → IpPool
  unfolding is_reserved
  release p ip =
      if is_reserved p ip then p else record p { assigned_ips = HashSet.remove ip p.assigned_ips }

  unfoldable pub gateway : IpPool → ℕ
  gateway p = p.gateway_ip
