-- ===== src/Network/Hostnames.antt =====
-- minion/network/dns.go: the names that containers and load balancers should have, the table of names, and
-- the answers of the DNS server. The parsing of addresses and the lookup of external names are arguments.
use Prim.Native.String.{◌++◌ as append}
use quilt.Prelude.{
  ℕ, ◌≡◌, refl, Bool, true, not, ◌&&◌, ◌||◌, Option, none, some, String, List, [], ◌∷◌, ◌++◌, map,
  filter, ◌!=◌, string_eq, string_discrete, if◌then◌else◌,
}
use quilt.Maps.{Map, Order, get, put}
use quilt.Join.Hash.{hash_join}
use quilt.Join.LastOfKey.{EachOnce}
use quilt.Db.Table.{View, IsValid, select}
use quilt.Db.Refresh.{refresh, refresh-EachOnce}
use quilt.Db.EtcdRows.{Hostname, Hostname-discrete, hostname_row}
use quilt.Db.MinionRows.{Container, container_row, LoadBalancer, load_balancer_row}

abbrev pub name_of : String → String → Hostname
name_of hostname ip = record { id = 0; hostname = hostname; ip = ip }

-- The two loops that make `target`.
unfoldable pub target_hostnames : Order → View LoadBalancer → View Container → List Hostname
target_hostnames o lbs containers =
    map (λ (lb : LoadBalancer). name_of lb.name lb.ip)
      (filter (λ (lb : LoadBalancer). lb.ip != "") (select load_balancer_row o (λ _. true) lbs))
    ++ map (λ (c : Container). name_of c.hostname c.ip)
        (filter (λ (c : Container). (c.hostname != "") && (c.ip != ""))
          (select container_row o (λ _. true) containers))

abbrev pub nameless : Hostname → Hostname
nameless h = record h { id = 0 }

abbrev pub take_id : Hostname → Hostname → Hostname
take_id tgt db_hostname = record tgt { id = db_hostname.id }

-- joinHostnames
unfoldable pub sync_hostnames :
    Order → View LoadBalancer → View Container → View Hostname → Option (View Hostname)
unfolding target_hostnames
sync_hostnames o lbs containers v =
    let j =
      hash_join Hostname-discrete nameless nameless o (target_hostnames o lbs containers)
        (select hostname_row o (λ _. true) v) in
    refresh hostname_row take_id j.lonely_lefts j.lonely_rights v

-- On any valid table joinHostnames succeeds, and leaves a valid table that has each name and address of the
-- load balancers and containers that have them exactly once, ids aside.
pub sync_hostnames-EachOnce :
    (o : Order) (lbs : View LoadBalancer) (containers : View Container) (v : View Hostname)
    → IsValid hostname_row v
    → (w : View Hostname) × (sync_hostnames o lbs containers v ≡ some w)
      × IsValid hostname_row w
      × EachOnce (map nameless w.rows) (map nameless (target_hostnames o lbs containers))
unfolding sync_hostnames
sync_hostnames-EachOnce o lbs containers v h =
    refresh-EachOnce hostname_row Hostname-discrete nameless nameless take_id (λ l r. refl)
      (λ l r. refl) o (target_hostnames o lbs containers) v h

-- net.IP, as the number that its bytes make.
abbrev pub Ip : Type 0
Ip = ℕ

abbrev pub dns_name : String → String
dns_name hostname = append hostname ".q."

module _ (parse_ip : String → Option Ip) where
  -- The loop of hostnamesToDNS.
  unfoldable pub add_records : Map String Ip → List Hostname → Map String Ip
  add_records records [] = records
  add_records records (hn ∷ hns) =
      add_records
        (elim (parse_ip hn.ip) [
          | some ip ↦ put string_discrete records (dns_name hn.hostname) ip
          | none ↦ records
        ])
        hns

  unfoldable pub hostnames_to_dns : List Hostname → Map String Ip
  unfolding add_records
  hostnames_to_dns hostnames = add_records [] hostnames

  -- The loop over what `lookupHost` finds; `is_ip4` is the test of `To4`.
  unfoldable pub external_ips : (Ip → Bool) → List String → List Ip
  external_ips is_ip4 [] = []
  external_ips is_ip4 (s ∷ ss) =
      let rest = external_ips is_ip4 ss in
      elim (parse_ip s) [ none ↦ rest | some ip ↦ if is_ip4 ip then ip ∷ rest else rest ]

  -- dnsTable.lookupA. `in_q` tells whether a name ends in ".q."; `lookup_host` is net.LookupHost on the name
  -- without the dots at its end, `none` where it fails.
  unfoldable pub lookup_a :
      (String → Bool)
      → (Ip → Bool)
      → (String → Option (List String))
      → Map String Ip
      → String
      → List Ip
  unfolding external_ips
  lookup_a in_q is_ip4 lookup_host records name =
      if in_q name
      then (elim (get string_discrete records name) [ none ↦ [] | some ip ↦ ip ∷ [] ])
      else (elim (lookup_host name) [ none ↦ [] | some ss ↦ external_ips is_ip4 ss ])

-- dns.Question: the name, and whether class and type are those of IPv4 addresses.
pub record Question : Type 0 where
  pub name : String
  pub is_inet : Bool
  pub is_a : Bool

-- What genResponse returns: nil, a refusal, or an answer with addresses.
pub data Response : Type 0 where
  no_response not_implemented : Response
  reply : String → List Ip → Response

-- dnsTable.genResponse, with the lookup as an argument.
unfoldable pub gen_response : (String → List Ip) → List Question → Response
gen_response lookup [] = Response.not_implemented
gen_response lookup (q ∷ r ∷ qs) = Response.not_implemented
gen_response lookup (q ∷ []) =
    if not (q.is_inet) || not (q.is_a) then Response.not_implemented else elim (lookup q.name) [
      | [] ↦ Response.no_response
      | ip ∷ ips ↦ Response.reply q.name (ip ∷ ips)
    ]
