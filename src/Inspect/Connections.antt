-- ===== src/Inspect/Connections.antt =====
-- cli/command/inspect/graph.go: `New` and `GetConnections` as a whole.
use mathlib.Core.HLevel.{hedberg}
use mathlib.Core.List.{mem-cons, mem-cons_self, mem-cons_of_mem, not-mem-nil}
use mathlib.Core.Logic.{∥∥₁_elim, ∥∥₁_prop}
use mathlib.Core.Logic.Or
use mathlib.Core.Option
use quilt.Prelude.{
  ◌≡◌, ◌↔◌, ◌∙◌, refl, sym, ap, ◌⊎◌, inl, inr, Option, none, some, String, List, [], ◌∷◌, Mem,
  string_discrete,
}
use quilt.Maps.{get}
use quilt.Minion.Blueprint.{Blueprint, BlueprintConnection}
use quilt.Inspect.Graph.{
  Node, CommunicationGraph, add_nodes, add_connections, node_names, new_graph,
}
use quilt.Inspect.Edges.{AreNamed, IsNode, edge, add_connection_lem}
use quilt.Inspect.Bare.{
  add_nodes-AreBare, bare-AreNamed, bare-edge, add_nodes-mem, IsNode-of_known, AreBare,
}

-- A connection asks for the edge.
abbrev pub IsAsked : List BlueprintConnection → String → String → Type 0
IsAsked cs a b = ∥ ((c : BlueprintConnection) × Mem c cs × ((a ≡ c.source) × (b ≡ c.target))) ∥₁

graph_discrete : Discrete CommunicationGraph
graph_discrete = hlevel string_discrete

pub graph_set : IsSet (Option CommunicationGraph)
graph_set = hedberg (Option.discrete graph_discrete)

edge-prop : (g : CommunicationGraph) (a b : String) → IsProp (edge g a b ≡ some b)
edge-prop g a b = hedberg (Option.discrete string_discrete) _ _

IsAsked-cons :
    (c : BlueprintConnection) (cs : List BlueprintConnection) (a b : String)
    → IsAsked cs a b
    → IsAsked (c ∷ cs) a b
IsAsked-cons c cs a b h = ∥∥₁_elim h ∥∥₁_prop (λ w. ∣ (w.0, mem-cons_of_mem c w.1, w.2) ∣₁)

-- Either some connection names a node that is not there, or the graph gets the edges that are asked for.
add_connections_lem :
    (cs : List BlueprintConnection) (g : CommunicationGraph)
    → AreNamed g
    → ((c : BlueprintConnection) × Mem c cs × (¬ IsNode g c.source ⊎ ¬ IsNode g c.target))
      ⊎ ((h : CommunicationGraph) × (add_connections cs g ≡ some h)
          × AreNamed h
          × ((a b : String)
              → (edge h a b ≡ some b) ↔ ∥ ((edge g a b ≡ some b) ⊎ IsAsked cs a b) ∥₁))
unfolding add_connections
add_connections_lem [] g named = inr (
  g,
  refl,
  named,
  λ a b. (
    λ e. ∣ inl e ∣₁,
    λ h. ∥∥₁_elim h (edge-prop g a b) λ w. elim w [
      | inl e ↦ e
      | inr x ↦ ∥∥₁_elim x (edge-prop g a b) (λ y. absurd (not-mem-nil y.1))
    ],
  ),
)
add_connections_lem (c ∷ cs) g named = elim (add_connection_lem c.source c.target g named) [
  | inl (e, bad) ↦ inl (c, mem-cons_self, bad)
  | inr (h, e, named', same, step) ↦ elim (add_connections_lem cs h named') [
    | inl (x, m, bad) ↦ inl (
      x,
      mem-cons_of_mem c m,
      elim bad [
        | inl n ↦ inl (λ i. n ((same x.source).1 i))
        | inr n ↦ inr (λ i. n ((same x.target).1 i))
      ],
    )
    | inr (k, f, named'', all) ↦ inr (
      k,
      rw (add_connections, e) f,
      named'',
      λ a b. (
        λ q. ∥∥₁_elim ((all a b).0 q) ∥∥₁_prop λ w. elim w [
          | inl r ↦ elim ((step a b).0 r) [
            | inl old ↦ ∣ inl old ∣₁
            | inr (x, y) ↦ ∣ inr ∣ (c, mem-cons_self, (x, y)) ∣₁ ∣₁
          ]
          | inr asked ↦ ∣ inr (IsAsked-cons c cs a b asked) ∣₁
        ],
        λ q. ∥∥₁_elim q (edge-prop k a b) λ w. elim w [
          | inl r ↦ (all a b).1 ∣ inl ((step a b).1 (inl r)) ∣₁
          | inr asked ↦ ∥∥₁_elim asked (edge-prop k a b) λ z.
              let (x, m, y) = z in
              Or.elim (edge-prop k a b) (mem-cons.0 m)
                (λ p.
                  (all a b).1
                    ∣ inl (
                      (step a b).1 (
                        inr (
                          y.0 ∙ ap (λ (v : BlueprintConnection). v.source) p,
                          y.1 ∙ ap (λ (v : BlueprintConnection). v.target) p,
                        ))) ∣₁)
                (λ n. (all a b).1 ∣ inr ∣ (x, n, y) ∣₁ ∣₁)
        ],
      ),
    )
  ]
]

module _ (bp : Blueprint) where
  abbrev initial : CommunicationGraph
  initial = add_nodes (node_names bp) (record { nodes = [] })

  pub initial-AreBare : AreBare initial
  initial-AreBare =
      add_nodes-AreBare (node_names bp) (record { nodes = [] })
        (λ k n e. absurd (cc (sym (empty k) ∙ e)))
    where
      empty : (t : String) → get {V = Node} string_discrete [] t ≡ none
      empty t = unfold get in refl

  -- If every connection is between names of containers, of load balancers and "public", then there is a graph,
  -- and the edges that it has are those of the connections.
  pub new_graph-edges :
      ((c : BlueprintConnection)
        → Mem c bp.connections
        → Mem c.source (node_names bp) × Mem c.target (node_names bp))
      → (g : CommunicationGraph) × (new_graph bp ≡ some g)
        × AreNamed g
        × ((a b : String) → (edge g a b ≡ some b) ↔ IsAsked bp.connections a b)
  unfolding new_graph
  new_graph-edges known =
      elim (add_connections_lem bp.connections initial (bare-AreNamed initial initial-AreBare)) [
        | inl (c, m, bad) ↦ elim bad [
          | inl n ↦ absurd (
              n (
                IsNode-of_known initial c.source
                  (add_nodes-mem (node_names bp) _ c.source (known c m).0)))
          | inr n ↦ absurd (
              n (
                IsNode-of_known initial c.target
                  (add_nodes-mem (node_names bp) _ c.target (known c m).1)))
        ]
        | inr (g, e, named, all) ↦ (
          g,
          e,
          named,
          λ a b. (
            λ q. ∥∥₁_elim ((all a b).0 q) ∥∥₁_prop λ w. elim w [
              | inl r ↦ absurd (bare-edge initial initial-AreBare a b r)
              | inr x ↦ x
            ],
            λ x. (all a b).1 ∣ inr x ∣₁,
          ),
        )
      ]
