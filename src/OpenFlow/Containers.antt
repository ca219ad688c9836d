-- ===== src/OpenFlow/Containers.antt =====
-- minion/scheduler/worker.go, `openflowContainers` and `updateOpenflow`; minion/ipdef/ipdef.go; and ReplaceFlows and
-- AddFlows of minion/network/openflow/openflow.go. The parsing of an address (net.ParseIP) into its four
-- bytes, printing, and what ovs-vsctl and ovs-ofctl answer are arguments.
use Prim.Native.String.{◌++◌ as append, len, slice}
use quilt.Prelude.{
  ℕ, ◌-◌, Bool, true, false, not, ◌&&◌, Option, none, some, String, List, [], ◌∷◌, ◌++◌, map, ◌==◌,
  ◌!=◌, nat_eq, string_eq, string_discrete, ltb, if◌then◌else◌,
}
use quilt.Maps.{Map, Order, put}
use quilt.Db.Table.{View, select}
use quilt.Db.MinionRows.{Connection, connection_row, container_row}
use quilt.Db.MinionRows as Rows
use quilt.Inspect.Graph.{public_internet_label}
use quilt.Network.Nat.{add_port, ports_of, concat}
use quilt.OpenFlow.Flows.{Container, Flow, resolve_containers, all_flows, all_container_flows}

-- IFName, with ifNameSize as an argument.
unfoldable pub if_name : ℕ → String → String
if_name if_name_size name =
    let size = if_name_size - 1 in if ltb (len name) size then name else slice name 0 size

-- PatchPorts
abbrev pub patch_ports : ℕ → String → String × String
patch_ports n id = (if_name n (append "br_" id), if_name n (append "q_" id))

-- The four bytes of an address.
pub record Bytes : Type 0 where
  pub b0 : ℕ
  pub b1 : ℕ
  pub b2 : ℕ
  pub b3 : ℕ

-- IPToMac; `hex2` prints a byte with two digits.
abbrev pub ip_to_mac : (ℕ → String) → Bytes → String
ip_to_mac hex2 ip =
    concat ("02:00:" ∷ hex2 ip.b0 ∷ ":" ∷ hex2 ip.b1 ∷ ":" ∷ hex2 ip.b2 ∷ ":" ∷ hex2 ip.b3 ∷ [])

-- IPStrToMac, of addresses that are not of IPv6.
abbrev pub ip_str_to_mac : (String → Option Bytes) → (ℕ → String) → String → String
ip_str_to_mac parse_ip hex2 ip_str = elim (parse_ip ip_str) [
  | none ↦ ""
  | some ip ↦ ip_to_mac hex2 ip
]

-- ports[host] = append(ports[host], port)
abbrev pub append_port : Map String (List ℕ) → String → ℕ → Map String (List ℕ)
append_port m host p = put string_discrete m host (ports_of m host ++ p ∷ [])

-- The body of the first loop of openflowContainers on one of its two maps.
abbrev pub note_port :
    (Connection → String)
    → (Connection → String)
    → Connection
    → Map String (List ℕ)
    → Map String (List ℕ)
note_port public_end host_end conn m =
    if not (conn.source == public_internet_label) && not (conn.target == public_internet_label)
    then m
    else if conn.min_port != conn.max_port
    then m
    else if public_end conn == public_internet_label
    then append_port m (host_end conn) conn.min_port
    else m

unfoldable pub note_ports :
    (Connection → String)
    → (Connection → String)
    → Map String (List ℕ)
    → List Connection
    → Map String (List ℕ)
note_ports public_end host_end m [] = m
note_ports public_end host_end m (conn ∷ conns) =
    note_ports public_end host_end (note_port public_end host_end conn m) conns

-- for _, p := range ports { set[p] = struct{}{} }
unfoldable pub add_ports : List ℕ → List ℕ → List ℕ
add_ports [] set = set
add_ports (p ∷ ps) set = add_ports ps (add_port p set)

module _ (if_name_size : ℕ) (parse_ip : String → Option Bytes) (hex2 : ℕ → String) where
  abbrev pub openflow_container :
      Map String (List ℕ) → Map String (List ℕ) → Rows.Container → Container
  openflow_container to_pub_ports from_pub_ports dbc = record {
    veth = if_name if_name_size dbc.endpoint_id;
    patch = (patch_ports if_name_size dbc.endpoint_id).1;
    mac = ip_str_to_mac parse_ip hex2 dbc.ip;
    ip = dbc.ip;
    to_pub = add_ports (ports_of to_pub_ports dbc.hostname) [];
    from_pub = add_ports (ports_of from_pub_ports dbc.hostname) [];
  }

  -- openflowContainers
  unfoldable pub openflow_containers : List Rows.Container → List Connection → List Container
  unfolding note_ports add_ports if_name
  openflow_containers dbcs conns =
      let from_pub_ports = note_ports (λ c. c.source) (λ c. c.target) [] conns in
      let to_pub_ports = note_ports (λ c. c.target) (λ c. c.source) [] conns in
      map (openflow_container to_pub_ports from_pub_ports) dbcs

-- What ovs-ofctl does with the flows that are installed; `none` is an error.
pub record Ofctl : Type 0 where
  pub diff : List String → List String → Bool
  pub replace : List String → List String → Option (List String)
  pub add : List String → List String → Option (List String)

-- The installed flows, and whether there was no error.
abbrev pub installed : List String → Option (List String) → List String × Bool
installed old none = (old, false)
installed old (some new) = (new, true)

module _ (ofctl : Ofctl) (print : Flow → String) (o : Order) where
  -- ReplaceFlows; `ofports` are the answer to OpenFlowPorts. `diff` is true if there is no difference.
  unfoldable pub replace_flows :
      Option (Map String ℕ) → List Container → List String → List String × Bool
  unfolding all_flows resolve_containers
  replace_flows none containers old = (old, false)
  replace_flows (some ofports) containers old =
      let flows = map print (all_flows o (resolve_containers ofports containers)) in
      if ofctl.diff flows old then (old, true) else installed old (ofctl.replace flows old)

  -- AddFlows
  unfoldable pub add_flows :
      Option (Map String ℕ) → List Container → List String → List String × Bool
  unfolding all_container_flows resolve_containers
  add_flows none containers old = (old, false)
  add_flows (some ofports) containers old =
      let flows = map print (all_container_flows o (resolve_containers ofports containers)) in
      installed old (ofctl.add flows old)

  -- updateOpenflow
  unfoldable pub update_openflow :
      ℕ
      → (String → Option Bytes)
      → (ℕ → String)
      → String
      → Option (Map String ℕ)
      → View Connection
      → View Rows.Container
      → List String
      → List String × Bool
  unfolding openflow_containers replace_flows
  update_openflow if_name_size parse_ip hex2 my_ip ofports conns dbcs = replace_flows ofports (
      openflow_containers if_name_size parse_ip hex2
        (select container_row o
          (λ dbc. dbc.endpoint_id != "" && (dbc.ip != "" && dbc.minion == my_ip)) dbcs)
        (select connection_row o (λ c. true) conns))
