-- ===== src/Inspect/Listing.antt =====
-- cli/command/inspect/graph.go: `GetConnections` and the edges of the graph.
use mathlib.Core.HLevel.{hedberg}
use mathlib.Core.List.{Nodup-nil, mem-map_of_mem, exists_of_mem-map}
use mathlib.Core.List.Perm
use mathlib.Core.Logic.{∥∥₁_elim}
use mathlib.Core.Option
use quilt.Prelude.{
  ◌≡◌, ◌↔◌, ◌∙◌, refl, sym, ap, subst, inl, inr, Option, none, some, Option-cases, String, List, [],
  ◌∷◌, Mem, Nodup, string_discrete, mem-flat_map, test_yes, test_no,
}
use quilt.Maps.{Order, get, put, get-put, keys, values, put-Nodup, mem-get-some, get-some-mem}
use quilt.Minion.Blueprint.{Blueprint, BlueprintConnection}
use quilt.Inspect.Graph.{
  Node, Edge, CommunicationGraph, add_node, add_nodes, add_connection, add_connections, node_names,
  new_graph, node_edges, get_connections,
}
use quilt.Inspect.Edges.{AreNamed, edge, edge_from}
use quilt.Inspect.Connections.{IsAsked, new_graph-edges}

-- No map of the graph has a key twice.
abbrev pub AreKeyed : CommunicationGraph → Type 0
AreKeyed g =
    Nodup (keys g.nodes)
    × ((k : String) (n : Node)
        → get string_discrete g.nodes k ≡ some n
        → Nodup (keys n.connections))

put-AreKeyed :
    (g : CommunicationGraph) (f : String) (n : Node)
    → Nodup (keys n.connections)
    → AreKeyed g
    → AreKeyed (record { nodes = put string_discrete g.nodes f n })
put-AreKeyed g f n d (e, h) = (
  put-Nodup string_discrete g.nodes f n e,
  λ k m q. elim (string_discrete f k) [
    | yes p ↦
        subst (λ (x : Node). Nodup (keys x.connections))
          (Option.some-injective n m (
            sym (get-put string_discrete g.nodes f k n ∙ rw (test_yes (string_discrete f k) p) refl)
            ∙ q))
          d
    | no c ↦ h k m (
        sym (get-put string_discrete g.nodes f k n ∙ rw (test_no (string_discrete f k) c) refl) ∙ q)
  ],
)

add_nodes-AreKeyed :
    (hs : List String) (g : CommunicationGraph) → AreKeyed g → AreKeyed (add_nodes hs g)
unfolding add_nodes add_node
add_nodes-AreKeyed [] g h = h
add_nodes-AreKeyed (x ∷ hs) g h =
    add_nodes-AreKeyed hs (add_node x g)
      (put-AreKeyed g x (record { name = x; connections = [] }) Nodup-nil h)

add_connection-AreKeyed :
    (f t : String) (g h : CommunicationGraph)
    → add_connection f t g ≡ some h
    → AreKeyed g
    → AreKeyed h
unfolding add_connection
add_connection-AreKeyed f t g h e keyed = elim (Option-cases (get string_discrete g.nodes f)) [
  | inl p ↦ absurd (cc (rw (add_connection, p) at e))
  | inr (u, p) ↦ elim (Option-cases (get string_discrete g.nodes t)) [
    | inl q ↦ absurd (cc (rw (add_connection, p, q) at e))
    | inr (v, q) ↦ subst AreKeyed (Option.some-injective _ h (rw (add_connection, p, q) at e)) (
        put-AreKeyed g f (record u { connections = put string_discrete u.connections t v.name })
          (put-Nodup string_discrete u.connections t v.name (keyed.1 f u p)) keyed)
  ]
]

add_connections-AreKeyed :
    (cs : List BlueprintConnection) (g h : CommunicationGraph)
    → add_connections cs g ≡ some h
    → AreKeyed g
    → AreKeyed h
unfolding add_connections
add_connections-AreKeyed [] g h e keyed = subst AreKeyed (Option.some-injective g h e) keyed
add_connections-AreKeyed (c ∷ cs) g h e keyed =
    elim (Option-cases (add_connection c.source c.target g)) [
      | inl p ↦ absurd (cc (rw (add_connections, p) at e))
      | inr (k, p) ↦
          add_connections-AreKeyed cs k h (rw (add_connections, p) at e)
            (add_connection-AreKeyed c.source c.target g k p keyed)
    ]

Node-discrete : Discrete Node
Node-discrete = hlevel string_discrete

module _ (o : Order) (g : CommunicationGraph) (keyed : AreKeyed g) (named : AreNamed g) where
  listed-edge :
      (a b : String)
      → Mem {A = Edge} (record { from = a; to = b }) (get_connections o g)
      → edge g a b ≡ some b
  unfolding get_connections
  listed-edge a b m =
      ∥∥₁_elim ((mem-flat_map (node_edges o) (o.range Node (values g.nodes)) _).0 m)
        (string_set _ _)
        λ w.
          let (n, c, x) = w in
          ∥∥₁_elim (exists_of_mem-map ((Perm.mem_iff (o.range-perm Node (values g.nodes))).0 c))
            (string_set _ _)
            λ y.
              let (e, i, p) = y in
              ∥∥₁_elim (exists_of_mem-map x) (string_set _ _) λ z.
                let (to, j, q) = z in
                ∥∥₁_elim
                  (exists_of_mem-map
                    ((Perm.mem_iff (o.range-perm String (values n.connections))).0 j))
                  (string_set _ _) λ v. let (d, k, r) = v in found e n p i to (sym q) d r k
    where
      string_set : IsSet (Option String)
      string_set = hedberg (Option.discrete string_discrete)

      found :
          (e : String × Node) (n : Node)
          → e.1 ≡ n
          → Mem e g.nodes
          → (to : String)
          → ◌≡◌ {A = Edge} (record { from = a; to = b }) (record { from = n.name; to = to })
          → (d : String × String) → d.1 ≡ to
          → Mem d n.connections
          → edge g a b ≡ some b
      found e n p i to q d r k =
          let at_k : get string_discrete g.nodes (e.0) ≡ some n =
            mem-get-some string_discrete (hedberg (Option.discrete Node-discrete)) g.nodes (e.0) n
              keyed.0 (subst (λ x. Mem {A = String × Node} (e.0, x) g.nodes) p i) in
          let (name, all) = named (e.0) n at_k in
          let conn : get string_discrete n.connections (d.0) ≡ some (d.1) =
            mem-get-some string_discrete string_set n.connections (d.0) (d.1) (keyed.1 (e.0) n at_k)
              k in
          let is_b : d.1 ≡ b = r ∙ sym (ap (λ (x : Edge). x.to) q) in
          let is_a : a ≡ e.0 = ap (λ (x : Edge). x.from) q ∙ name in
          ap (λ x. edge g x b) is_a
          ∙ (ap (λ x. edge_from x b) at_k
              ∙ (ap (get string_discrete n.connections) (sym is_b ∙ all (d.0) (d.1) conn)
                  ∙ (conn ∙ ap some is_b)))

  edge-listed :
      (a b : String)
      → edge g a b ≡ some b
      → Mem {A = Edge} (record { from = a; to = b }) (get_connections o g)
  unfolding get_connections
  edge-listed a b e = elim (Option-cases (get string_discrete g.nodes a)) [
    | inl p ↦ absurd (cc (rw p at e))
    | inr (n, p) ↦ (mem-flat_map (node_edges o) (o.range Node (values g.nodes)) _).1 ∣ (
      n,
      (Perm.mem_iff (o.range-perm Node (values g.nodes))).1 (
          mem-map_of_mem (λ (x : String × Node). x.1) (get-some-mem string_discrete g.nodes a n p)),
      subst (λ x. Mem {A = Edge} (record { from = x; to = b }) (node_edges o n)) (named a n p).0
          (mem-map_of_mem (λ to. record { from = n.name; to = to })
            ((Perm.mem_iff (o.range-perm String (values n.connections))).1 (
              mem-map_of_mem (λ (x : String × String). x.1)
                (get-some-mem string_discrete n.connections b b (rw p at e))))),
    ) ∣₁
  ]

-- If every connection of a blueprint is between names of its containers, of its load balancers and "public",
-- then New makes a graph, and GetConnections lists exactly the pairs that some connection joins.
pub get_connections-IsAsked :
    (o : Order) (bp : Blueprint)
    → ((c : BlueprintConnection)
        → Mem c bp.connections
        → Mem c.source (node_names bp) × Mem c.target (node_names bp))
    → (g : CommunicationGraph) × (new_graph bp ≡ some g)
      × ((a b : String)
          → Mem {A = Edge} (record { from = a; to = b }) (get_connections o g)
            ↔ IsAsked bp.connections a b)
unfolding new_graph
get_connections-IsAsked o bp known =
    let (g, e, named, all) = new_graph-edges bp known in
    let keyed = add_connections-AreKeyed bp.connections _ g e (
      add_nodes-AreKeyed (node_names bp) (record { nodes = [] })
        (Nodup-nil, λ k n q. absurd (cc (sym (empty k) ∙ q)))) in
    (
      g,
      e,
      λ a b. (
        λ m. (all a b).0 (listed-edge o g keyed named a b m),
        λ x. edge-listed o g keyed named a b ((all a b).1 x),
      ),
    )
  where
    empty : (k : String) → get {V = Node} string_discrete [] k ≡ none
    empty k = unfold get in refl
