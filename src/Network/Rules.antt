-- ===== src/Network/Rules.antt =====
-- minion/network/: the changes to the rules, ports and load balancers of the switch.
use quilt.Prelude.{ℕ, ◌≡◌, refl, ap, String, List, [], ◌∷◌, ◌++◌, map, Perm}
use quilt.Maps.{Order}
use quilt.Join.Converge.{hash_join-converges}
use quilt.Join.LastOfKey.{EachOnce}
use quilt.Db.Rows.{StringMap}
use quilt.Db.MinionRows.{Connection, Container, LoadBalancer}
use quilt.Prelude.{string_discrete}
use quilt.Network.Switch.{
  SwitchPort, port_name, expected_ports, port_changes, OvsdbLoadBalancer, LoadBalancerKey-discrete,
  load_balancer_id, target_load_balancers, load_balancer_changes,
}
use quilt.Network.Acls.{AclCore, AclCore-discrete, expected_acls, acl_changes}

map-same : {A : Type 0} (xs : List A) → map (λ x. x) xs ≡ xs
map-same [] = refl
map-same (x ∷ xs) = ap (◌∷◌ x) (map-same xs)

-- Where the switch does what updateACLs asks of it, it has each expected rule exactly once after that: the rules
-- that it keeps are those that are not deleted, whatever rules it had.
acl_changes-EachOnce :
    {A : Type 0} (core : A → AclCore) (match_string : String → String → ℕ → ℕ → String) (o : Order)
    (hostname_to_ip : StringMap) (conns : List Connection) (current : List A)
    → (kept : List A) × Perm
        (kept ++ (acl_changes match_string core o hostname_to_ip conns current).lonely_rights)
        current
      × EachOnce
          (map core kept
            ++ (acl_changes match_string core o hostname_to_ip conns current).lonely_lefts)
          (expected_acls match_string hostname_to_ip conns)
unfolding acl_changes
acl_changes-EachOnce core match_string o hostname_to_ip conns current =
    let (kept, p, e) =
      hash_join-converges AclCore-discrete (λ c. c) core o
        (expected_acls match_string hostname_to_ip conns) current in
    (
      kept,
      p,
      rw
          (
            map-same (acl_changes match_string core o hostname_to_ip conns current).lonely_lefts,
            map-same (expected_acls match_string hostname_to_ip conns),
          )
          at e,
    )

-- Where the switch does what updateLogicalSwitch asks of it, it has after that exactly one port for each name
-- that is expected: the router's, and each container's address.
port_changes-EachOnce :
    (address_of : String → String) (o : Order) (containers : List Container)
    (lports : List SwitchPort)
    → (kept : List SwitchPort) × Perm
        (kept ++ (port_changes address_of o containers lports).lonely_rights)
        lports
      × EachOnce
          (map port_name kept
            ++ map port_name (port_changes address_of o containers lports).lonely_lefts)
          (map port_name (expected_ports address_of containers))
unfolding port_changes
port_changes-EachOnce address_of o containers lports =
    hash_join-converges string_discrete port_name port_name o (expected_ports address_of containers)
      lports

-- Where the switch does what updateLoadBalancerIPs asks of it, it has each load balancer with the known
-- addresses behind it exactly once after that.
load_balancer_changes-EachOnce :
    (sort_strings : List String → List String) (join_commas sprint : List String → String)
    (o : Order) (hostname_to_ip : StringMap) (lbs : List LoadBalancer)
    (current : List OvsdbLoadBalancer)
    → (kept : List OvsdbLoadBalancer) × Perm
        (kept
          ++ (load_balancer_changes sort_strings join_commas sprint o hostname_to_ip lbs
              current).lonely_rights)
        current
      × EachOnce
          (map (load_balancer_id sort_strings join_commas sprint) kept
            ++ map
                (load_balancer_id sort_strings join_commas sprint)
                (load_balancer_changes sort_strings join_commas sprint o hostname_to_ip lbs
                  current).lonely_lefts)
          (map
            (load_balancer_id sort_strings join_commas sprint)
            (target_load_balancers sort_strings join_commas sprint hostname_to_ip lbs))
unfolding load_balancer_changes
load_balancer_changes-EachOnce sort_strings join_commas sprint o hostname_to_ip lbs current =
    hash_join-converges LoadBalancerKey-discrete (load_balancer_id sort_strings join_commas sprint)
      (load_balancer_id sort_strings join_commas sprint) o
      (target_load_balancers sort_strings join_commas sprint hostname_to_ip lbs) current
