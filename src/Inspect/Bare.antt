-- ===== src/Inspect/Bare.antt =====
-- cli/command/inspect/graph.go: the graph before it has connections.
use mathlib.Core.HLevel.{¬_prop}
use mathlib.Core.List.{mem-cons, not-mem-nil}
use mathlib.Core.Logic.Or
use mathlib.Core.Option
use quilt.Prelude.{
  ◌≡◌, ◌≢◌, ◌∙◌, refl, sym, ap, subst, inl, inr, none, some, Option-cases, String, List, [], ◌∷◌,
  Mem, string_discrete, test_yes, test_no,
}
use quilt.Maps.{get, get-put}
use quilt.Inspect.Graph.{Node, CommunicationGraph, add_node, add_nodes}
use quilt.Inspect.Edges.{AreNamed, IsNode, edge}

-- Every node is as it was made.
abbrev pub AreBare : CommunicationGraph → Type 0
AreBare g =
    (k : String) (n : Node)
    → get string_discrete g.nodes k ≡ some n
    → record { name = k; connections = [] } ≡ n

pub added_same :
    (x k : String) (g : CommunicationGraph)
    → x ≡ k
    → get string_discrete (add_node x g).nodes k ≡ some (record { name = x; connections = [] })
unfolding add_node
added_same x k g p = get-put string_discrete g.nodes x k _ ∙ rw (test_yes (string_discrete x k) p)

pub added_other :
    (x k : String) (g : CommunicationGraph)
    → x ≢ k
    → get string_discrete (add_node x g).nodes k ≡ get string_discrete g.nodes k
unfolding add_node
added_other x k g c = get-put string_discrete g.nodes x k _ ∙ rw (test_no (string_discrete x k) c)

add_node-AreBare : (h : String) (g : CommunicationGraph) → AreBare g → AreBare (add_node h g)
add_node-AreBare h g bare k n e = elim (string_discrete h k) [
  | yes p ↦ Option.some-injective _ _ (
      ap (λ y. some (record { name = y; connections = [] })) (sym p)
      ∙ (sym (added_same h k g p) ∙ e))
  | no c ↦ bare k n (sym (added_other h k g c) ∙ e)
]

pub add_nodes-AreBare :
    (hs : List String) (g : CommunicationGraph) → AreBare g → AreBare (add_nodes hs g)
unfolding add_nodes
add_nodes-AreBare [] g bare = bare
add_nodes-AreBare (h ∷ hs) g bare = add_nodes-AreBare hs (add_node h g) (add_node-AreBare h g bare)

pub get_empty : (t : String) → get {V = String} string_discrete [] t ≡ none
unfolding get
get_empty t = refl

pub bare-AreNamed : (g : CommunicationGraph) → AreBare g → AreNamed g
bare-AreNamed g bare k n e =
    subst
      (λ (m : Node).
        (m.name ≡ k) × ((t x : String) → get string_discrete m.connections t ≡ some x → x ≡ t))
      (bare k n e) (refl, λ t x q. absurd (cc (sym (get_empty t) ∙ q)))

pub bare-edge : (g : CommunicationGraph) → AreBare g → (a b : String) → edge g a b ≢ some b
bare-edge g bare a b q = elim (Option-cases (get string_discrete g.nodes a)) [
  | inl e ↦ absurd (cc (rw e at q))
  | inr (n, e) ↦ absurd (
      cc (
        sym (get_empty b)
        ∙ (ap (λ (m : Node). get string_discrete m.connections b) (bare a n e) ∙ (rw e at q))))
]

-- A node that is there stays, and a name that is added is there.
add_nodes-known :
    (hs : List String) (g : CommunicationGraph) (k : String)
    → get string_discrete g.nodes k ≢ none
    → get string_discrete (add_nodes hs g).nodes k ≢ none
unfolding add_nodes
add_nodes-known [] g k h = h
add_nodes-known (x ∷ hs) g k h = add_nodes-known hs (add_node x g) k (λ e.
    elim (string_discrete x k) [
      | yes p ↦ cc (sym (added_same x k g p) ∙ e)
      | no c ↦ h (sym (added_other x k g c) ∙ e)
    ])

pub add_nodes-mem :
    (hs : List String) (g : CommunicationGraph) (k : String)
    → Mem k hs
    → get string_discrete (add_nodes hs g).nodes k ≢ none
unfolding add_nodes
add_nodes-mem [] g k m = absurd (not-mem-nil m)
add_nodes-mem (x ∷ hs) g k m =
    Or.elim ¬_prop (mem-cons.0 m)
      (λ p. add_nodes-known hs (add_node x g) k (λ e. cc (sym (added_same x k g (sym p)) ∙ e)))
      (add_nodes-mem hs (add_node x g) k)

pub IsNode-of_known :
    (g : CommunicationGraph) (k : String) → get string_discrete g.nodes k ≢ none → IsNode g k
IsNode-of_known g k h = elim (Option-cases (get string_discrete g.nodes k)) [
  | inl e ↦ absurd (h e)
  | inr n ↦ n
]
