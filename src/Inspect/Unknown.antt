-- ===== src/Inspect/Unknown.antt =====
-- cli/command/inspect/graph.go: `New` on connections that name an unknown node.
use mathlib.Core.List.{mem-cons, mem-cons_of_mem, not-mem-nil}
use mathlib.Core.Logic.Or
use quilt.Prelude.{
  ◌≡◌, ◌∙◌, refl, sym, subst, ◌⊎◌, inl, inr, none, Option-cases, String, List, [], ◌∷◌, Mem,
  string_discrete,
}
use quilt.Maps.{get}
use quilt.Minion.Blueprint.{Blueprint, BlueprintConnection}
use quilt.Inspect.Graph.{
  Node, CommunicationGraph, add_node, add_nodes, add_connection, add_connections, node_names,
  new_graph,
}
use quilt.Inspect.Edges.{AreNamed, IsNode, add_connection_lem}
use quilt.Inspect.Bare.{added_other, bare-AreNamed}
use quilt.Inspect.Connections.{graph_set, initial-AreBare}

add_nodes-others :
    (hs : List String) (g : CommunicationGraph) (k : String)
    → ¬ Mem k hs
    → get string_discrete (add_nodes hs g).nodes k ≡ get string_discrete g.nodes k
unfolding add_nodes
add_nodes-others [] g k n = refl
add_nodes-others (x ∷ hs) g k n =
    add_nodes-others hs (add_node x g) k (λ m. n (mem-cons_of_mem x m))
    ∙ added_other x k g (λ e. n (mem-cons.1 (Or.inl (sym e))))

-- An end of the connection is unknown.
abbrev IsLoose : CommunicationGraph → BlueprintConnection → Type 0
IsLoose g c = ¬ IsNode g c.source ⊎ ¬ IsNode g c.target

loose-none :
    (g : CommunicationGraph) (c : BlueprintConnection)
    → IsLoose g c
    → add_connection c.source c.target g ≡ none
unfolding add_connection
loose-none g c h = elim (Option-cases (get string_discrete g.nodes c.source)) [
  | inl e ↦ rw (add_connection, e) refl
  | inr (u, e) ↦ elim (Option-cases (get string_discrete g.nodes c.target)) [
    | inl d ↦ rw (add_connection, e, d) refl
    | inr (v, d) ↦ elim h [ inl n ↦ absurd (n (u, e)) | inr n ↦ absurd (n (v, d)) ]
  ]
]

add_connections-none :
    (cs : List BlueprintConnection) (g : CommunicationGraph) (c : BlueprintConnection)
    → AreNamed g
    → IsLoose g c
    → Mem c cs
    → add_connections cs g ≡ none
unfolding add_connections
add_connections-none [] g c named h m = absurd (not-mem-nil m)
add_connections-none (x ∷ cs) g c named h m = elim (add_connection_lem x.source x.target g named) [
  | inl (e, bad) ↦ rw (add_connections, e) refl
  | inr (k, e, named', same, step) ↦
      let moved : IsLoose k c = elim h [
        | inl n ↦ inl (λ i. n ((same c.source).0 i))
        | inr n ↦ inr (λ i. n ((same c.target).0 i))
      ] in
      Or.elim (graph_set _ _) (mem-cons.0 m)
        (λ p. absurd (
          cc (
            sym (subst (λ y. add_connection y.source y.target g ≡ none) p (loose-none g c h)) ∙ e)))
        (λ n. rw (add_connections, e) (add_connections-none cs k c named' moved n))
]

-- If some connection of a blueprint has an end that is the name of no container, of no load balancer and not
-- "public", then New reports an error.
pub new_graph-none :
    (bp : Blueprint) (c : BlueprintConnection)
    → Mem c bp.connections
    → (¬ Mem c.source (node_names bp)) ⊎ (¬ Mem c.target (node_names bp))
    → new_graph bp ≡ none
unfolding new_graph
new_graph-none bp c m h =
    add_connections-none bp.connections (add_nodes (node_names bp) (record { nodes = [] })) c
      (bare-AreNamed _ (initial-AreBare bp))
      (elim h [ inl n ↦ inl (lost c.source n) | inr n ↦ inr (lost c.target n) ]) m
  where
    empty : (k : String) → get {V = Node} string_discrete [] k ≡ none
    empty k = unfold get in refl

    lost :
        (k : String)
        → ¬ Mem k (node_names bp)
        → ¬ IsNode (add_nodes (node_names bp) (record { nodes = [] })) k
    lost k n (u, e) =
        absurd
          (cc (sym (add_nodes-others (node_names bp) (record { nodes = [] }) k n ∙ empty k) ∙ e))
