-- ===== src/Network/Nat.antt =====
-- minion/network/nat.go: the rules of address translation, and the change of a chain of iptables to what it
-- should be. The printing of ports, the key of a rule (`ruleKey`, `none` where it fails to parse) and the
-- answers of iptables are arguments.
use Prim.Native.String.{◌++◌ as append}
use mathlib.Core.List.{dec_mem}
use mathlib.Core.Option
use quilt.Prelude.{
  ℕ, Bool, true, false, Option, none, some, String, List, [], ◌∷◌, flat_map, ◌==◌, string_eq,
  string_discrete, ℕ_discrete, test, if◌then◌else◌,
}
use quilt.Maps.{Map, Order, get, put}
use quilt.Join.Hash.{hash_join}
use quilt.Db.MinionRows.{Container, Connection}
use quilt.Inspect.Graph.{public_internet_label}

-- map[int]struct{}, as the list of its keys.
abbrev pub add_port : ℕ → List ℕ → List ℕ
add_port p ports = if test (dec_mem ℕ_discrete p ports) then ports else p ∷ ports

-- A key that is not there gives the nil map.
abbrev pub or_nil : Option (List ℕ) → List ℕ
or_nil none = []
or_nil (some ports) = ports

abbrev pub ports_of : Map String (List ℕ) → String → List ℕ
ports_of m host = or_nil (get string_discrete m host)

-- The first loop of preroutingRules and of postroutingRules: `public_end` is the end of a connection that is
-- compared with the public internet, and `host_end` is the other one.
unfoldable pub collect_ports :
    (Connection → String)
    → (Connection → String)
    → Map String (List ℕ)
    → List Connection
    → Map String (List ℕ)
collect_ports public_end host_end m [] = m
collect_ports public_end host_end m (conn ∷ conns) =
    collect_ports public_end host_end
      (if public_end conn == public_internet_label
        then put string_discrete m (host_end conn)
            (add_port conn.min_port (ports_of m (host_end conn)))
        else m)
      conns

abbrev pub concat : List String → String
concat [] = ""
concat (s ∷ ss) = append s (concat ss)

module _ (print : ℕ → String) (public_interface : String) where
  abbrev pub dnat : Container → ℕ → String → String
  dnat dbc port protocol = concat (
      "-i "
      ∷ public_interface
      ∷ " -p "
      ∷ protocol
      ∷ " -m "
      ∷ protocol
      ∷ " --dport "
      ∷ print port
      ∷ " -j DNAT --to-destination "
      ∷ dbc.ip
      ∷ ":"
      ∷ print port
      ∷ [])

  abbrev pub masquerade : Container → ℕ → String → String
  masquerade dbc port protocol = concat (
      "-s "
      ∷ dbc.ip
      ∷ "/32 -p "
      ∷ protocol
      ∷ " -m "
      ∷ protocol
      ∷ " --dport "
      ∷ print port
      ∷ " -o "
      ∷ public_interface
      ∷ " -j MASQUERADE"
      ∷ [])

-- The second loop, for the rule that `text` writes.
unfoldable pub port_rules :
    Order → (Container → ℕ → String → String) → Map String (List ℕ) → List Container → List String
port_rules o text ports containers =
    flat_map
      (λ (dbc : Container).
        flat_map (λ port. text dbc port "tcp" ∷ text dbc port "udp" ∷ [])
          (o.range ℕ (ports_of ports dbc.hostname)))
      containers

-- preroutingRules
unfoldable pub prerouting_rules :
    Order → (ℕ → String) → String → List Container → List Connection → List String
unfolding collect_ports port_rules
prerouting_rules o print public_interface containers connections =
    port_rules o (dnat print public_interface)
      (collect_ports (λ (c : Connection). c.source) (λ (c : Connection). c.target) [] connections)
      containers

-- postroutingRules
unfoldable pub postrouting_rules :
    Order → (ℕ → String) → String → List Container → List Connection → List String
unfolding collect_ports port_rules
postrouting_rules o print public_interface containers connections =
    port_rules o (masquerade print public_interface)
      (collect_ports (λ (c : Connection). c.target) (λ (c : Connection). c.source) [] connections)
      containers

-- ipt.Delete and ipt.Append on the rules of one chain; `none` is an error.
pub record IpTables : Type 0 where
  pub delete_rule : String → List String → Option (List String)
  pub append_rule : String → List String → Option (List String)

-- The loops of syncChain, which stop at the first failure: the chain, and whether there was no error.
unfoldable pub delete_rules : IpTables → List String → List String → List String × Bool
delete_rules ipt [] chain = (chain, true)
delete_rules ipt (r ∷ rs) chain = elim (ipt.delete_rule r chain) [
  | none ↦ (chain, false)
  | some rest ↦ delete_rules ipt rs rest
]

unfoldable pub append_rules : IpTables → List String → List String → List String × Bool
append_rules ipt [] chain = (chain, true)
append_rules ipt (r ∷ rs) chain = elim (ipt.append_rule r chain) [
  | none ↦ (chain, false)
  | some longer ↦ append_rules ipt rs longer
]

-- syncChain, after getRules has listed the chain.
unfoldable pub sync_chain :
    Order → (String → Option String) → IpTables → List String → List String → List String × Bool
unfolding delete_rules append_rules
sync_chain o rule_key ipt target curr =
    let j = hash_join (Option.discrete string_discrete) rule_key rule_key o curr target in
    let (chain, ok) = delete_rules ipt j.lonely_lefts curr in
    if ok then append_rules ipt j.lonely_rights chain else (chain, false)
