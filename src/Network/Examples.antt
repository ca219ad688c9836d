-- ===== src/Network/Examples.antt =====
-- minion/network/: addresses of a small subnet, and the rules of a few connections.
use mathlib.Core.List.{mem-cons, mem-cons_self, not-mem-nil, Nodup-nil, Nodup-cons}
use mathlib.Core.Logic.Or
use mathlib.Core.List.Perm
use mathlib.Core.HLevel.{⊥_prop, hedberg}
use mathlib.Core.Option
use quilt.Prelude.{
  ℕ, zero, suc, Nodup, All, ◌+◌, ◌*◌, ◌^◌, ◌≡◌, ◌<◌, none, some, String, List, [], ◌∷◌, ◌++◌, map,
  Mem, Perm, arith, refl, ap, true, false, Option, filter, ℕ_discrete, if◌then◌else◌, ◌==◌,
  string_eq,
}
use quilt.Maps.{in_order}
use quilt.Db.Rows.{StringMap}
use quilt.Db.MinionRows.{Connection, Container, blank_container, LoadBalancer}
use quilt.Db.Table.{View, IsValid, empty_view, select}
use quilt.Db.EtcdRows.{Hostname, hostname_row}
use quilt.Network.Hostnames.{
  name_of, target_hostnames, nameless, sync_hostnames, Ip, dns_name, lookup_a, hostnames_to_dns,
}
use quilt.Network.Resolve.{IsOnly, hostname_resolves}
use quilt.Network.Switch.{SwitchPort, OvsdbLoadBalancer}
use quilt.Network.Addresses.{Subnet, allocate_ip, Allocation, allocate_container_ips}
use quilt.Network.Distinct.{ips, IsFreshIp, allocate_container_ips-distinct}
use quilt.Network.Allocate.{InSubnet, allocate_ip-finds}
use quilt.Network.Acls.{AclCore}

-- The addresses 20, 21, 22 and 23.
abbrev subnet : Subnet
subnet = record { bits = 2; prefix = 5 }

abbrev print : ℕ → String
print n = elim n [ zero ↦ "0" | suc m ↦ "more" ]

none_free : ¬ Mem (print (subnet.prefix * 2 ^ subnet.bits + 3)) ("0" ∷ [])
none_free m = Or.elim ⊥_prop (mem-cons.0 m) (λ e. cc e) not-mem-nil

allocate_ip-finds_example :
    (ip : ℕ) × InSubnet subnet ip
    × ¬ Mem (print ip) ("0" ∷ [])
    × (allocate_ip print 7 ("0" ∷ []) subnet ≡ some (print ip, print ip ∷ "0" ∷ []))
allocate_ip-finds_example =
    allocate_ip-finds print 7 ("0" ∷ []) subnet 3 (omega arith) (omega arith) none_free

abbrev one_name : ℕ → String
one_name n = "host"

all_taken :
    (i : ℕ)
    → i < 2 ^ subnet.bits
    → Mem (one_name (subnet.prefix * 2 ^ subnet.bits + i)) ("host" ∷ [])
all_taken i h = mem-cons_self

abbrev match_string : String → String → ℕ → ℕ → String
match_string src dst min_port max_port = src

abbrev hosts : StringMap
hosts = ("a", "10.0.0.7") ∷ ("b", "10.0.0.8") ∷ []

abbrev connection : String → String → Connection
connection source target = record {
  id = 1;
  source = source;
  target = target;
  min_port = 80;
  max_port = 80;
}

abbrev connections : List Connection
connections = connection "a" "b" ∷ connection "public" "b" ∷ connection "a" "c" ∷ []

abbrev current : List (ℕ × AclCore)
current =
    (1, record { priority = 0; direction = "to-lport"; match = "ip"; action = "drop" })
    ∷ (2, record { priority = 1; direction = "to-lport"; match = "old"; action = "allow" })
    ∷ []

abbrev containers : List Container
containers =
    record (blank_container 1) { ip = "10.0.0.7" }
    ∷ record (blank_container 2) { ip = "10.0.0.8" }
    ∷ []

abbrev ports : List SwitchPort
ports =
    record { name = "10.0.0.7"; port_type = ""; addresses = []; options = [] }
    ∷ record { name = "10.0.0.9"; port_type = ""; addresses = []; options = [] }
    ∷ []

abbrev mac_and_ip : String → String
mac_and_ip ip = ip

abbrev unsorted : List String → List String
unsorted xs = xs

abbrev first : List String → String
first xs = elim xs [ [] ↦ "" | ◌∷◌ x rest ↦ x ]

abbrev balancers : List LoadBalancer
balancers = record { id = 1; name = "front"; ip = "10.0.0.20"; hostnames = "a" ∷ "c" ∷ [] } ∷ []

abbrev there : List OvsdbLoadBalancer
there = record { name = "back"; vips = [] } ∷ []

abbrev web : Container
web = record (blank_container 1) { hostname = "web"; ip = "10.0.0.9" }

abbrev web_view : View Container
web_view = record { cur_id = 1; rows = web ∷ []; should_alert = false }

abbrev parse : String → Option Ip
parse s = if s == "10.0.0.9" then some 9 else none

names_IsValid : IsValid hostname_row empty_view
names_IsValid = record { distinct = Nodup-nil; allocated = tt }

web_listed :
    Mem (name_of "web" "10.0.0.9") (map nameless (target_hostnames in_order empty_view web_view))
unfolding target_hostnames select filter
web_listed = mem-cons_self

web-IsOnly :
    IsOnly parse (dns_name "web") 9 (map nameless (target_hostnames in_order empty_view web_view))
unfolding target_hostnames select filter
web-IsOnly g m e =
    Or.elim (hedberg (Option.discrete ℕ_discrete) _ _) (mem-cons.0 m)
      (λ q. ap (λ (x : Hostname). parse x.ip) q) (λ n. absurd (not-mem-nil n))

hostname_resolves_example :
    (w : View Hostname) × (sync_hostnames in_order empty_view web_view empty_view ≡ some w)
    × (lookup_a parse
          (λ s. true)
          (λ i. true)
          (λ s. none)
          (hostnames_to_dns parse (select hostname_row in_order (λ _. true) w))
          (dns_name "web")
        ≡ 9 ∷ [])
hostname_resolves_example =
    hostname_resolves parse in_order in_order empty_view web_view empty_view (λ s. true) (λ i. true)
      (λ s. none) "web" "10.0.0.9" 9 names_IsValid refl web_listed web-IsOnly

abbrev fresh_row : Container
fresh_row = record (blank_container 2) { hostname = "db" }

abbrev both_rows : View Container
both_rows = record { cur_id = 2; rows = fresh_row ∷ web ∷ []; should_alert = false }

rows_differ : Nodup (map (λ (c : Container). c.id) both_rows.rows)
unfolding blank_container
rows_differ = Nodup-cons.1 (
  λ m. Or.elim ⊥_prop (mem-cons.0 m) (λ e. omega (arith, e)) not-mem-nil,
  Nodup-cons.1 (not-mem-nil, Nodup-nil),
)

allocate_container_ips-distinct_example :
    (a : Allocation Container) × (allocate_container_ips print
        (λ k. 7)
        0
        ("10.0.0.9" ∷ [])
        (fresh_row ∷ [])
        both_rows
      ≡ some a)
    × (a.ok ≡ true
        → Nodup (ips a.view.rows)
          × ((new : List Container) × Perm a.view.rows (new ++ web ∷ [])
              × (map (λ (c : Container). c.id) new ≡ map (λ (c : Container). c.id) (fresh_row ∷ []))
              × All (IsFreshIp print (λ k. 7) ("10.0.0.9" ∷ [])) new))
allocate_container_ips-distinct_example =
    allocate_container_ips-distinct print (λ k. 7) (fresh_row ∷ []) (fresh_row ∷ []) (web ∷ []) 0
      ("10.0.0.9" ∷ []) both_rows refl rows_differ (Perm.refl _)
      (Nodup-cons.1 (not-mem-nil, Nodup-nil)) (λ ip m. m)
