-- ===== src/Inspect/Examples.antt =====
-- cli/command/inspect/graph.go: a web server that the public reaches.
use mathlib.Core.HLevel.{⊥_prop, ×_prop}
use mathlib.Core.List.{mem-cons, mem-cons_self, mem-cons_of_mem, not-mem-nil, Mem-prop}
use mathlib.Core.Logic.Or
use quilt.Prelude.{◌≡◌, ◌↔◌, sym, subst, inr, none, some, String, List, [], ◌∷◌, Mem}
use quilt.Maps.{in_order}
use quilt.Minion.Blueprint.{Blueprint, BlueprintConnection}
use quilt.Inspect.Graph.{Edge, CommunicationGraph, node_names, new_graph, get_connections}
use quilt.Inspect.Connections.{IsAsked}
use quilt.Inspect.Listing.{get_connections-IsAsked}
use quilt.Inspect.Unknown.{new_graph-none}

abbrev link : String → BlueprintConnection
link target = record { source = "public"; target = target; min_port = 80; max_port = 80 }

abbrev with_links : List BlueprintConnection → Blueprint
with_links cs = record {
  containers = [];
  load_balancers = record { name = "web"; hostnames = [] } ∷ [];
  connections = cs;
  placements = [];
}

known :
    (c : BlueprintConnection)
    → Mem c (link "web" ∷ [])
    → Mem c.source (node_names (with_links (link "web" ∷ [])))
      × Mem c.target (node_names (with_links (link "web" ∷ [])))
known c m =
    Or.elim (×_prop Mem-prop Mem-prop) (mem-cons.0 m)
      (λ e.
        subst
          (λ (x : BlueprintConnection).
            Mem x.source ("web" ∷ "public" ∷ []) × Mem x.target ("web" ∷ "public" ∷ []))
          (sym e) (mem-cons_of_mem _ mem-cons_self, mem-cons_self))
      (λ n. absurd (not-mem-nil n))

get_connections-IsAsked_example :
    (g : CommunicationGraph) × (new_graph (with_links (link "web" ∷ [])) ≡ some g)
    × ((a b : String)
        → Mem {A = Edge} (record { from = a; to = b }) (get_connections in_order g)
          ↔ IsAsked (link "web" ∷ []) a b)
get_connections-IsAsked_example =
    get_connections-IsAsked in_order (with_links (link "web" ∷ [])) known

unknown : ¬ Mem {A = String} "db" ("web" ∷ "public" ∷ [])
unknown m =
    Or.elim ⊥_prop (mem-cons.0 m) (λ e. cc e)
      (λ n. Or.elim ⊥_prop (mem-cons.0 n) (λ e. cc e) not-mem-nil)

new_graph-none_example : new_graph (with_links (link "db" ∷ [])) ≡ none
new_graph-none_example =
    new_graph-none (with_links (link "db" ∷ [])) (link "db") mem-cons_self (inr unknown)
