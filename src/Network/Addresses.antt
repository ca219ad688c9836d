-- ===== src/Network/Addresses.antt =====
-- minion/network/ip.go: the allocation of addresses. An address is the number that its four bytes make,
-- and the printing of one (`net.IP.String`) is an argument, as are the parser and the subnets of the hosts.
use mathlib.Core.List.{dec_mem}
use quilt.Prelude.{
  ℕ, zero, suc, ◌+◌, ◌*◌, ◌%◌, ◌^◌, Bool, true, false, not, ◌&&◌, Option, none, some, String, List,
  [], ◌∷◌, ◌++◌, if◌then◌else◌, ◌==◌, ◌!=◌, string_eq, nat_eq, test, string_discrete, length,
}
use quilt.Maps.{Order}
use quilt.Db.Table.{View, select, commit}
use quilt.Db.MinionRows.{Container, container_row, LoadBalancer, load_balancer_row}

-- A subnet, by the number of its host bits and its prefix: the address of its first host is
-- `prefix * 2 ^ bits`. The mask of the source has its low `bits` bits clear.
pub record Subnet : Type 0 where
  pub bits : ℕ
  pub prefix : ℕ

-- ((start + offset) & ^mask) | (prefix & mask), on 32 bits.
unfoldable pub host : Subnet → ℕ → ℕ → ℕ
host s start offset = s.prefix * 2 ^ s.bits + ((start + offset) % 2 ^ 32) % 2 ^ s.bits

abbrev pub quilt_subnet : Subnet
quilt_subnet = record { bits = 24; prefix = 10 }

-- The loop of allocateIP over `tries` offsets, from `offset`.
unfoldable pub try_hosts : (ℕ → String) → List String → Subnet → ℕ → ℕ → ℕ → Option ℕ
unfolding host
try_hosts print reserved s start offset zero = none
try_hosts print reserved s start offset (suc n) =
    let rest = try_hosts print reserved s start (suc offset) n in
    if test (dec_mem string_discrete (print (host s start offset)) reserved)
    then rest
    else some (host s start offset)

-- allocateIP, with the random number as an argument: the address and the reserved set with it, `none` where
-- the pool is exhausted.
unfoldable pub allocate_ip : (ℕ → String) → ℕ → List String → Subnet → Option (String × List String)
unfolding try_hosts
allocate_ip print random reserved s =
    elim (try_hosts print reserved s (random % 2 ^ s.bits) 0 (2 ^ s.bits)) [
      | none ↦ none
      | some ip ↦ some (print ip, print ip ∷ reserved)
    ]

-- ipContext, one kind of entity at a time: the addresses that are taken, and the rows without one.
pub record IpContext : Type 0 where
  pub reserved : List String
  pub unassigned_containers : List Container
  pub unassigned_load_balancers : List LoadBalancer

abbrev pub reserve : String → IpContext → IpContext
reserve ip ctx = record ctx { reserved = ip ∷ ctx.reserved }

-- The loops of makeIPContext. `blacklisted` is ipBlacklisted over the subnets of the workers' routes.
unfoldable pub scan_containers : (String → Bool) → List Container → IpContext → IpContext
scan_containers blacklisted [] ctx = ctx
scan_containers blacklisted (dbc ∷ dbcs) ctx = scan_containers blacklisted dbcs (
    if dbc.ip != "" && not (blacklisted dbc.ip) then reserve dbc.ip ctx else record ctx {
      unassigned_containers = ctx.unassigned_containers ++ record dbc { ip = "" } ∷ [];
    })

unfoldable pub scan_load_balancers : (String → Bool) → List LoadBalancer → IpContext → IpContext
scan_load_balancers blacklisted [] ctx = ctx
scan_load_balancers blacklisted (dbl ∷ dbls) ctx = scan_load_balancers blacklisted dbls (
    if dbl.ip != "" && not (blacklisted dbl.ip) then reserve dbl.ip ctx else record ctx {
      unassigned_load_balancers = ctx.unassigned_load_balancers ++ record dbl { ip = "" } ∷ [];
    })

unfoldable pub make_ip_context :
    Order → (String → Bool) → View Container → View LoadBalancer → IpContext
unfolding scan_containers scan_load_balancers
make_ip_context o blacklisted containers lbs =
    scan_load_balancers blacklisted (select load_balancer_row o (λ _. true) lbs) (
      scan_containers blacklisted (select container_row o (λ _. true) containers) (record {
        reserved = "10.0.0.1" ∷ "10.0.0.2" ∷ "10.0.0.0" ∷ [];
        unassigned_containers = [];
        unassigned_load_balancers = [];
      }))

-- What an allocation loop leaves: the table, the reserved addresses, the number of the next random
-- number, and whether there was no error.
pub record Allocation (R : Type 0) : Type 0 where
  pub view : View R
  pub reserved : List String
  pub next : ℕ
  pub ok : Bool

module _ (print : ℕ → String) (random : ℕ → ℕ) where
  -- allocateContainerIPs; `none` is a panic of the commit.
  unfoldable pub allocate_container_ips :
      ℕ → List String → List Container → View Container → Option (Allocation Container)
  allocate_container_ips k reserved [] v =
      some (record { view = v; reserved = reserved; next = k; ok = true })
  allocate_container_ips k reserved (dbc ∷ dbcs) v =
      elim (allocate_ip print (random k) reserved quilt_subnet) [
        | none ↦ some (record { view = v; reserved = reserved; next = suc k; ok = false })
        | some (ip, set) ↦ elim (commit container_row (record dbc { ip = ip }) v) [
          | none ↦ none
          | some w ↦ allocate_container_ips (suc k) set dbcs w
        ]
      ]

  -- allocateLoadBalancerIPs
  unfoldable pub allocate_load_balancer_ips :
      ℕ → List String → List LoadBalancer → View LoadBalancer → Option (Allocation LoadBalancer)
  allocate_load_balancer_ips k reserved [] v =
      some (record { view = v; reserved = reserved; next = k; ok = true })
  allocate_load_balancer_ips k reserved (lb ∷ lbs) v =
      elim (allocate_ip print (random k) reserved quilt_subnet) [
        | none ↦ some (record { view = v; reserved = reserved; next = suc k; ok = false })
        | some (ip, set) ↦ elim (commit load_balancer_row (record lb { ip = ip }) v) [
          | none ↦ none
          | some w ↦ allocate_load_balancer_ips (suc k) set lbs w
        ]
      ]

  -- The body of the loop of updateIPsOnce: the tables, the next random number, and whether there was no
  -- error.
  unfoldable pub allocate_once :
      ℕ
      → IpContext
      → View Container
      → View LoadBalancer
      → Option (View Container × View LoadBalancer × ℕ × Bool)
  unfolding allocate_container_ips allocate_load_balancer_ips
  allocate_once k ctx containers lbs =
      elim (allocate_container_ips k ctx.reserved ctx.unassigned_containers containers) [
        | none ↦ none
        | some a ↦
            if not a.ok
            then some (a.view, lbs, a.next, false)
            else elim (allocate_load_balancer_ips a.next a.reserved ctx.unassigned_load_balancers
                lbs) [ none ↦ none | some b ↦ some (a.view, b.view, b.next, b.ok) ]
      ]

  abbrev pub nothing_unassigned : IpContext → Bool
  nothing_unassigned ctx =
      length ctx.unassigned_containers == 0 && length ctx.unassigned_load_balancers == 0

  -- The loop of updateIPsOnce over `n` tries, from the error of the last one.
  unfoldable pub tries :
      Order
      → (String → Bool)
      → ℕ
      → ℕ
      → Bool
      → View Container
      → View LoadBalancer
      → Option (View Container × View LoadBalancer × Bool)
  unfolding make_ip_context allocate_once
  tries o blacklisted k zero ok containers lbs = some (containers, lbs, ok)
  tries o blacklisted k (suc n) ok containers lbs =
      let ctx = make_ip_context o blacklisted containers lbs in
      elim (nothing_unassigned ctx) [
        | true ↦ some (containers, lbs, true)
        | false ↦ elim (allocate_once k ctx containers lbs) [
          | none ↦ none
          | some (cs, ls, k', ok') ↦ tries o blacklisted k' n ok' cs ls
        ]
      ]

  -- updateIPsOnce, with the blacklist made.
  unfoldable pub update_ips_once :
      Order
      → (String → Bool)
      → View Container
      → View LoadBalancer
      → Option (View Container × View LoadBalancer × Bool)
  unfolding tries
  update_ips_once o blacklisted containers lbs = tries o blacklisted 0 3 true containers lbs
