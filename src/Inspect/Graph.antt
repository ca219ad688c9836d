-- ===== src/Inspect/Graph.antt =====
-- cli/command/inspect/graph.go: the communication graph of a blueprint. The copies of a node in the maps of
-- other nodes share its map, and only their name is read, so such a copy is kept as the name.
use quilt.Prelude.{Option, none, some, String, List, [], ◌∷◌, ◌++◌, map, flat_map, string_discrete}
use quilt.Maps.{Map, Order, get, put, values}
use quilt.Minion.Blueprint.{
  Blueprint, BlueprintContainer, BlueprintLoadBalancer, BlueprintConnection,
}

-- Node
pub record Node : Type 0 where
  pub name : String
  pub connections : Map String String

-- Edge
pub record Edge : Type 0 where
  pub from : String
  pub to : String

-- Graph
pub record CommunicationGraph : Type 0 where
  pub nodes : Map String Node

abbrev pub public_internet_label : String
public_internet_label = "public"

-- addNode
unfoldable pub add_node : String → CommunicationGraph → CommunicationGraph
add_node hostname g = record {
  nodes = put string_discrete g.nodes hostname (record { name = hostname; connections = [] });
}

unfoldable pub add_nodes : List String → CommunicationGraph → CommunicationGraph
unfolding add_node
add_nodes [] g = g
add_nodes (h ∷ hs) g = add_nodes hs (add_node h g)

-- addConnection; `none` is the error "no node".
unfoldable pub add_connection : String → String → CommunicationGraph → Option CommunicationGraph
add_connection from to g = elim (get string_discrete g.nodes from) [
  | none ↦ none
  | some from_node ↦ elim (get string_discrete g.nodes to) [
    | none ↦ none
    | some to_node ↦ some (record {
      nodes = put string_discrete g.nodes from (record from_node {
        connections = put string_discrete from_node.connections to to_node.name;
      });
    })
  ]
]

unfoldable pub add_connections :
    List BlueprintConnection → CommunicationGraph → Option CommunicationGraph
add_connections [] g = some g
add_connections (c ∷ cs) g = elim (add_connection c.source c.target g) [
  | none ↦ none
  | some h ↦ add_connections cs h
]

-- The names of the nodes, in the order in which New adds them.
abbrev pub node_names : Blueprint → List String
node_names bp =
    map (λ (c : BlueprintContainer). c.hostname) bp.containers
    ++ (map (λ (lb : BlueprintLoadBalancer). lb.name) bp.load_balancers
        ++ public_internet_label ∷ [])

-- New
unfoldable pub new_graph : Blueprint → Option CommunicationGraph
unfolding add_nodes add_connections
new_graph bp = add_connections bp.connections (add_nodes (node_names bp) (record { nodes = [] }))

-- The inner loop of GetConnections, for one node.
abbrev pub node_edges : Order → Node → List Edge
node_edges o n =
    map (λ to. record { from = n.name; to = to }) (o.range String (values n.connections))

-- GetConnections
unfoldable pub get_connections : Order → CommunicationGraph → List Edge
get_connections o g = flat_map (node_edges o) (o.range Node (values g.nodes))
