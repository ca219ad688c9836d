-- ===== src/OpenFlow/Flows.antt =====
-- minion/network/openflow/openflow.go: the flows. A flow is kept in parts, and `flow_text` writes the line that
-- the source formats. The printing of numbers is an argument, in decimal and in hexadecimal.
use Prim.Native.String.{◌++◌ as append}
use quilt.Prelude.{
  strings_join, ℕ, Option, none, some, String, List, [], ◌∷◌, ◌++◌, map, flat_map, string_discrete,
}
use quilt.Maps.{Map, Order, get}
use quilt.Network.Nat.{concat}

-- What a flow asks of a packet. `ip_src` and `ip_dst` are other names of `nw_src` and `nw_dst`.
pub data Match : Type 0 where
  in_port : ℕ → Match
  from_local : Match
  arp ip tcp udp : Match
  dl_src dl_dst nw_src nw_dst ip_src ip_dst : String → Match
  tp_src tp_dst : ℕ → Match

pub data Action : Type 0 where
  load_reg0 : ℕ → Action
  resubmit : ℕ → Action
  output : ℕ → Action
  output_local output_reg0 : Action

-- `keyword` is how the line spells "actions".
pub record Flow : Type 0 where
  pub table : ℕ
  pub priority : Option ℕ
  pub matches : List Match
  pub keyword : String
  pub actions : List Action

-- ipdef.GatewayMac and ipdef.GatewayIP
abbrev pub gateway_mac : String
gateway_mac = "02:00:0a:00:00:01"

abbrev pub gateway_ip : String
gateway_ip = "10.0.0.1"

abbrev pub broadcast : String
broadcast = "ff:ff:ff:ff:ff:ff"

module _ (print hex : ℕ → String) where
  abbrev pub match_text : Match → String
  match_text (in_port n) = append "in_port=" (print n)
  match_text from_local = "in_port=LOCAL"
  match_text arp = "arp"
  match_text ip = "ip"
  match_text tcp = "tcp"
  match_text udp = "udp"
  match_text (dl_src s) = append "dl_src=" s
  match_text (dl_dst s) = append "dl_dst=" s
  match_text (nw_src s) = append "nw_src=" s
  match_text (nw_dst s) = append "nw_dst=" s
  match_text (ip_src s) = append "ip_src=" s
  match_text (ip_dst s) = append "ip_dst=" s
  match_text (tp_src n) = append "tp_src=" (print n)
  match_text (tp_dst n) = append "tp_dst=" (print n)

  abbrev pub action_text : Action → String
  action_text (load_reg0 n) = concat ("load:0x" ∷ hex n ∷ "->NXM_NX_REG0[]" ∷ [])
  action_text (resubmit n) = concat ("resubmit(," ∷ print n ∷ ")" ∷ [])
  action_text (output n) = append "output:" (print n)
  action_text output_local = "output:LOCAL"
  action_text output_reg0 = "output:NXM_NX_REG0[]"

  abbrev pub priority_text : Option ℕ → List String
  priority_text none = []
  priority_text (some n) = append "priority=" (print n) ∷ []

  unfoldable pub flow_text : Flow → String
  flow_text f = strings_join "," (
      append "table=" (print f.table) ∷ priority_text f.priority
      ++ map match_text f.matches
      ++ concat (f.keyword ∷ "=" ∷ strings_join "," (map action_text f.actions) ∷ []) ∷ [])

-- A flow of the usual form.
abbrev pub flow : ℕ → ℕ → List Match → List Action → Flow
flow t n ms as' = record {
  table = t;
  priority = some n;
  matches = ms;
  keyword = "actions";
  actions = as';
}

-- openflow.Container; the sets of ports are lists.
pub record Container : Type 0 where
  pub veth : String
  pub patch : String
  pub mac : String
  pub ip : String
  pub to_pub : List ℕ
  pub from_pub : List ℕ

-- container
pub record Resolved : Type 0 where
  pub base : Container
  pub veth_port : ℕ
  pub patch_port : ℕ

-- staticFlows
abbrev pub static_flows : List Flow
static_flows =
    flow 0 1000 (from_local ∷ []) (resubmit 2 ∷ [])
    ∷ flow 1 1000 (arp ∷ dl_dst broadcast ∷ []) (output_local ∷ output_reg0 ∷ [])
    ∷ flow 1 900 (dl_dst gateway_mac ∷ []) (resubmit 3 ∷ [])
    ∷ flow 1 800 [] (output_reg0 ∷ [])
    ∷ flow 3 1000 (ip ∷ nw_dst gateway_ip ∷ []) (output_local ∷ [])
    ∷ flow 3 900 (arp ∷ []) (output_local ∷ [])
    ∷ []

module _ (c : Resolved) where
  -- The flows before the loops of containerFlows.
  abbrev pub base_flows : List Flow
  base_flows =
      record {
        table = 0;
        priority = none;
        matches = in_port c.veth_port ∷ dl_src c.base.mac ∷ [];
        keyword = "actions";
        actions = load_reg0 c.patch_port ∷ resubmit 1 ∷ [];
      }
      ∷ record {
        table = 0;
        priority = none;
        matches = in_port c.patch_port ∷ [];
        keyword = "actions";
        actions = output c.veth_port ∷ [];
      }
      ∷ record {
        table = 2;
        priority = some 900;
        matches = arp ∷ dl_dst c.base.mac ∷ [];
        keyword = "action";
        actions = output c.veth_port ∷ [];
      }
      ∷ record {
        table = 2;
        priority = some 800;
        matches = ip ∷ dl_dst c.base.mac ∷ nw_src gateway_ip ∷ [];
        keyword = "action";
        actions = output c.veth_port ∷ [];
      }
      ∷ []

  -- The formats `table2` and `table3`, for a protocol and a field of the port.
  abbrev pub inward : Match → Match → Flow
  inward protocol port =
      flow 2 500 (protocol ∷ dl_dst c.base.mac ∷ ip_dst c.base.ip ∷ port ∷ [])
        (output c.veth_port ∷ [])

  abbrev pub outward : Match → Match → Flow
  outward protocol port =
      flow 3 500 (protocol ∷ dl_src c.base.mac ∷ ip_src c.base.ip ∷ port ∷ []) (output_local ∷ [])

  -- The bodies of the loops of containerFlows.
  abbrev pub to_flows : ℕ → List Flow
  to_flows to =
      inward tcp (tp_src to)
      ∷ inward udp (tp_src to)
      ∷ outward tcp (tp_dst to)
      ∷ outward udp (tp_dst to)
      ∷ []

  abbrev pub from_flows : ℕ → List Flow
  from_flows from =
      inward tcp (tp_dst from)
      ∷ inward udp (tp_dst from)
      ∷ outward tcp (tp_src from)
      ∷ outward udp (tp_src from)
      ∷ []

-- containerFlows
unfoldable pub container_flows : Order → Resolved → List Flow
container_flows o c =
    base_flows c
    ++ flat_map (to_flows c) (o.range ℕ c.base.to_pub)
    ++ flat_map (from_flows c) (o.range ℕ c.base.from_pub)

-- allContainerFlows
unfoldable pub all_container_flows : Order → List Resolved → List Flow
unfolding container_flows
all_container_flows o containers = flat_map (container_flows o) containers

-- The flow that allFlows adds: the broadcasts of the gateway.
abbrev pub broadcast_flow : List Resolved → Flow
broadcast_flow containers =
    flow 2 1000 (dl_dst broadcast ∷ []) (map (λ (c : Resolved). output c.veth_port) containers)

-- allFlows
unfoldable pub all_flows : Order → List Resolved → List Flow
unfolding all_container_flows
all_flows o containers =
    static_flows ++ all_container_flows o containers ++ broadcast_flow containers ∷ []

-- resolveContainers
unfoldable pub resolve_containers : Map String ℕ → List Container → List Resolved
resolve_containers port_map [] = []
resolve_containers port_map (c ∷ cs) =
    let rest = resolve_containers port_map cs in
    elim (get string_discrete port_map c.veth) [
      | none ↦ rest
      | some veth ↦ elim (get string_discrete port_map c.patch) [
        | none ↦ rest
        | some patch ↦ record { base = c; veth_port = veth; patch_port = patch } ∷ rest
      ]
    ]
