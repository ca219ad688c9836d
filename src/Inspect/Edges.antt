-- ===== src/Inspect/Edges.antt =====
-- cli/command/inspect/graph.go: which edges the graph has, and when there is none.
use mathlib.Core.Option
use quilt.Prelude.{
  ◌≡◌, ◌≢◌, ◌↔◌, ◌∙◌, refl, sym, ap, subst, ◌⊎◌, inl, inr, Option, none, some, Option-cases, String,
  string_discrete, test_yes, test_no,
}
use quilt.Maps.{get, put, get-put}
use quilt.Inspect.Graph.{Node, CommunicationGraph, add_connection}

-- The nodes' names are their keys, and so are those of their neighbours.
abbrev pub AreNamed : CommunicationGraph → Type 0
AreNamed g =
    (k : String) (n : Node)
    → get string_discrete g.nodes k ≡ some n
    → (n.name ≡ k) × ((t x : String) → get string_discrete n.connections t ≡ some x → x ≡ t)

abbrev pub edge_from : Option Node → String → Option String
edge_from none t = none
edge_from (some n) t = get string_discrete n.connections t

-- The edge from `f` to `t`, if there is one.
abbrev pub edge : CommunicationGraph → String → String → Option String
edge g f t = edge_from (get string_discrete g.nodes f) t

abbrev pub IsNode : CommunicationGraph → String → Type 0
IsNode g k = (n : Node) × (get string_discrete g.nodes k ≡ some n)

pub absent-IsNode :
    (g : CommunicationGraph) (k : String) → get string_discrete g.nodes k ≡ none → ¬ IsNode g k
absent-IsNode g k e (n, f) = absurd (cc (sym e ∙ f))

some-inj : {A : Type 0} {a b : A} → some a ≡ some b → a ≡ b
some-inj {A} {a} {b} e = Option.some-injective a b e

-- The graph after a connection between two nodes that it has.
module _ (f t : String) (g : CommunicationGraph) (u v : Node)
    (e : get string_discrete g.nodes f ≡ some u) (d : get string_discrete g.nodes t ≡ some v)
    (named : AreNamed g) where
  abbrev linked : Node
  linked = record u { connections = put string_discrete u.connections t v.name }

  abbrev grown : CommunicationGraph
  grown = record { nodes = put string_discrete g.nodes f linked }

  grown_same : (k : String) → f ≡ k → get string_discrete grown.nodes k ≡ some linked
  grown_same k p =
      get-put string_discrete g.nodes f k linked ∙ rw (test_yes (string_discrete f k) p)

  grown_other :
      (k : String) → f ≢ k → get string_discrete grown.nodes k ≡ get string_discrete g.nodes k
  grown_other k p =
      get-put string_discrete g.nodes f k linked ∙ rw (test_no (string_discrete f k) p)

  linked_same : (x : String) → t ≡ x → get string_discrete linked.connections x ≡ some v.name
  linked_same x p =
      get-put string_discrete u.connections t x v.name ∙ rw (test_yes (string_discrete t x) p)

  linked_other :
      (x : String)
      → t ≢ x
      → get string_discrete linked.connections x ≡ get string_discrete u.connections x
  linked_other x p =
      get-put string_discrete u.connections t x v.name ∙ rw (test_no (string_discrete t x) p)

  linked_named : (a x : String) → get string_discrete linked.connections a ≡ some x → x ≡ a
  linked_named a x q = elim (string_discrete t a) [
    | yes p ↦ some-inj (sym q ∙ linked_same a p) ∙ ((named t v d).0 ∙ p)
    | no n ↦ (named f u e).1 a x (sym (linked_other a n) ∙ q)
  ]

  grown-AreNamed : AreNamed grown
  grown-AreNamed k n q = elim (string_discrete f k) [
    | yes p ↦
        subst
          (λ (m : Node).
            (m.name ≡ k) × ((a x : String) → get string_discrete m.connections a ≡ some x → x ≡ a))
          (some-inj (sym (grown_same k p) ∙ q)) ((named f u e).0 ∙ p, linked_named)
    | no c ↦ named k n (sym (grown_other k c) ∙ q)
  ]

  grown-IsNode : (k : String) → IsNode grown k ↔ IsNode g k
  grown-IsNode k = elim (string_discrete f k) [
    | yes p ↦ (λ h. (u, rw (← p) e), λ h. (linked, grown_same k p))
    | no c ↦ (λ h. (h.0, sym (grown_other k c) ∙ h.1), λ h. (h.0, grown_other k c ∙ h.1))
  ]

  grown-edge :
      (a b : String) → (edge grown a b ≡ some b) ↔ ((edge g a b ≡ some b) ⊎ ((a ≡ f) × (b ≡ t)))
  grown-edge a b = elim (string_discrete f a) [
    | no c ↦ (
      λ q. inl (ap (λ m. edge_from m b) (sym (grown_other a c)) ∙ q),
      λ h. elim h [
        | inl q ↦ ap (λ m. edge_from m b) (grown_other a c) ∙ q
        | inr (x, y) ↦ absurd (c (sym x))
      ],
    )
    | yes p ↦ elim (string_discrete t b) [
      | yes r ↦ (
        λ q. inr (sym p, sym r),
        λ h.
            ap (λ m. edge_from m b) (grown_same a p)
            ∙ (linked_same b r ∙ ap some ((named t v d).0 ∙ r)),
      )
      | no n ↦ (
        λ q. inl (
            at_f p b
            ∙ (sym (linked_other b n) ∙ (ap (λ m. edge_from m b) (sym (grown_same a p)) ∙ q))),
        λ h. elim h [
          | inl q ↦
              ap (λ m. edge_from m b) (grown_same a p) ∙ (linked_other b n ∙ (sym (at_f p b) ∙ q))
          | inr (x, y) ↦ absurd (n (sym y))
        ],
      )
    ]
  ]
    where
      at_f : f ≡ a → (x : String) → edge g a x ≡ get string_discrete u.connections x
      at_f p x = ap (λ m. edge_from m x) (ap (get string_discrete g.nodes) (sym p) ∙ e)

-- Both outcomes of addConnection.
pub add_connection_lem :
    (f t : String) (g : CommunicationGraph)
    → AreNamed g
    → ((add_connection f t g ≡ none) × (¬ IsNode g f ⊎ ¬ IsNode g t))
      ⊎ ((h : CommunicationGraph) × (add_connection f t g ≡ some h)
          × AreNamed h
          × ((k : String) → IsNode h k ↔ IsNode g k)
          × ((a b : String)
              → (edge h a b ≡ some b) ↔ ((edge g a b ≡ some b) ⊎ ((a ≡ f) × (b ≡ t)))))
unfolding add_connection
add_connection_lem f t g named = elim (Option-cases (get string_discrete g.nodes f)) [
  | inl e ↦ inl (rw (add_connection, e) refl, inl (absent-IsNode g f e))
  | inr (u, e) ↦ elim (Option-cases (get string_discrete g.nodes t)) [
    | inl d ↦ inl (rw (add_connection, e, d) refl, inr (absent-IsNode g t d))
    | inr (v, d) ↦ inr (
      grown f t g u v e d named,
      rw (add_connection, e, d) refl,
      grown-AreNamed f t g u v e d named,
      grown-IsNode f t g u v e d named,
      grown-edge f t g u v e d named,
    )
  ]
]
