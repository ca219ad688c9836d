-- ===== src/Network/Switch.antt =====
-- minion/network/network.go and load_balancer.go: what the logical switch, the router and the load
-- balancers should have, and the changes that make them so. The printing and the sorting of addresses are
-- arguments, as are the lists that the switch reports.
use Prim.Native.String.{◌++◌ as append}
use quilt.Prelude.{String, List, [], ◌∷◌, map, filter, ◌!=◌, string_eq, string_discrete}
use quilt.Maps.{Order}
use quilt.Join.Score.{Joined}
use quilt.Join.Hash.{hash_join}
use quilt.Db.Rows.{StringMap}
use quilt.Db.MinionRows.{Container, LoadBalancer}
use quilt.Scheduler.Worker.{lookup}

-- ovsdb.SwitchPort, less its uuid.
pub record SwitchPort : Type 0 where
  pub name : String
  pub port_type : String
  pub addresses : List String
  pub options : StringMap

-- ovsdb.RouterPort, less its uuid.
pub record RouterPort : Type 0 where
  pub name : String
  pub mac : String
  pub networks : List String

-- ovsdb.LoadBalancer, less its uuid.
pub record OvsdbLoadBalancer : Type 0 where
  pub name : String
  pub vips : StringMap

-- The key of a load balancer, and what identifies one in the switch.
pub record LoadBalancerKey : Type 0 where
  pub name : String
  pub vips : String

unfoldable pub LoadBalancerKey-discrete : Discrete LoadBalancerKey
LoadBalancerKey-discrete = hlevel string_discrete

abbrev pub port_name : SwitchPort → String
port_name p = p.name

abbrev pub router_port_name : RouterPort → String
router_port_name p = p.name

module _ (address_of : String → String) where
  -- The port of a container; `address_of` is `IPStrToMac(ip) + " " + ip`.
  unfoldable pub container_port : Container → SwitchPort
  container_port dbc = record {
    name = dbc.ip;
    port_type = "";
    addresses = address_of dbc.ip ∷ [];
    options = [];
  }

  -- expPorts of updateLogicalSwitch.
  unfoldable pub expected_ports : List Container → List SwitchPort
  unfolding container_port
  expected_ports containers =
      record {
        name = "loadBalancerSwitchPort";
        port_type = "router";
        addresses = [];
        options = ("router-port", "loadBalancerRouterPort") ∷ [];
      }
      ∷ map container_port containers

  -- The join of updateLogicalSwitch.
  unfoldable pub port_changes :
      Order → List Container → List SwitchPort → Joined SwitchPort SwitchPort
  unfolding expected_ports
  port_changes o containers lports =
      hash_join string_discrete port_name port_name o (expected_ports containers) lports

-- The join of updateLoadBalancerRouter.
unfoldable pub router_changes :
    String → String → Order → List RouterPort → Joined RouterPort RouterPort
router_changes mac subnet o lports =
    hash_join string_discrete router_port_name router_port_name o
      (record { name = "loadBalancerRouterPort"; mac = mac; networks = subnet ∷ [] } ∷ []) lports

module _ (sort_strings : List String → List String)
    (join_commas sprint : List String → String) where
  -- util.MapAsString; `sprint` is Sprintf("%v", …) of a slice.
  unfoldable pub map_as_string : StringMap → String
  map_as_string m = sprint (sort_strings (map (λ e. append e.0 (append "=" e.1)) m))

  unfoldable pub load_balancer_id : OvsdbLoadBalancer → LoadBalancerKey
  unfolding map_as_string
  load_balancer_id lb = record { name = lb.name; vips = map_as_string lb.vips }

  -- The loop over the hostnames of a load balancer: the addresses that are known.
  unfoldable pub known_ips : StringMap → List String → List String
  known_ips hostname_to_ip hostnames =
      filter (λ ip. ip != "") (map (lookup hostname_to_ip) hostnames)

  unfoldable pub target_load_balancers : StringMap → List LoadBalancer → List OvsdbLoadBalancer
  unfolding known_ips
  target_load_balancers hostname_to_ip [] = []
  target_load_balancers hostname_to_ip (lb ∷ lbs) =
      record {
        name = lb.name;
        vips = (lb.ip, join_commas (sort_strings (known_ips hostname_to_ip lb.hostnames))) ∷ [];
      }
      ∷ target_load_balancers hostname_to_ip lbs

  -- The join of updateLoadBalancerIPs.
  unfoldable pub load_balancer_changes :
      Order
      → StringMap
      → List LoadBalancer
      → List OvsdbLoadBalancer
      → Joined OvsdbLoadBalancer OvsdbLoadBalancer
  unfolding load_balancer_id target_load_balancers
  load_balancer_changes o hostname_to_ip lbs current =
      hash_join LoadBalancerKey-discrete load_balancer_id load_balancer_id o
        (target_load_balancers hostname_to_ip lbs) current
