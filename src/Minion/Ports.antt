-- ===== src/Minion/Ports.antt =====
-- minion/engine.go: the placement rules that are wanted: those of the blueprint, and for each public port
-- those that keep its containers apart (`portPlacements`).
use quilt.Prelude.{
  ℕ, true, false, none, some, String, List, [], ◌∷◌, ◌++◌, map, ◌==◌, string_eq, string_discrete,
  ℕ_discrete,
}
use quilt.Maps.{Order, Map, get, put, values}
use quilt.Db.Table.{View, select}
use quilt.Db.MinionRows.{
  Container, container_row, Connection, connection_row, Placement, blank_placement,
}
use quilt.Minion.Blueprint.{BlueprintPlacement, Blueprint}

-- The first loop of portPlacements: hostnameToContainer.
unfoldable pub by_hostname : Map String Container → List Container → Map String Container
by_hostname m [] = m
by_hostname m (c ∷ cs) = by_hostname (put string_discrete m c.hostname c) cs

-- The second: the blueprint ids of the containers that listen on a public port.
unfoldable pub listeners :
    Map String Container → Map ℕ (List String) → List Connection → Map ℕ (List String)
listeners hosts ports [] = ports
listeners hosts ports (conn ∷ conns) = elim (conn.source == "public") [
  | false ↦ listeners hosts ports conns
  | true ↦ elim (get string_discrete hosts conn.target) [
    | none ↦ listeners hosts ports conns
    | some c ↦
        listeners hosts
          (put ℕ_discrete ports conn.min_port (
            (elim (get ℕ_discrete ports conn.min_port) [ none ↦ [] | some cids ↦ cids ])
            ++ c.blueprint_id ∷ []))
          conns
  ]
]

abbrev pub exclusion : String → String → Placement
exclusion tgt other = record (blank_placement 0) {
  exclusive = true;
  target_container = tgt;
  other_container = other;
}

-- The loops over one port's containers: each with those behind it.
unfoldable pub exclusions : List String → List Placement
exclusions [] = []
exclusions (tgt ∷ cids) = map (exclusion tgt) cids ++ exclusions cids

unfoldable pub all_exclusions : List (List String) → List Placement
unfolding exclusions
all_exclusions [] = []
all_exclusions (cids ∷ rest) = exclusions cids ++ all_exclusions rest

unfoldable pub port_placements : Order → List Connection → List Container → List Placement
unfolding by_hostname listeners all_exclusions
port_placements o conns containers =
    all_exclusions (o.range (List String) (values (listeners (by_hostname [] containers) [] conns)))

unfoldable pub from_blueprint : BlueprintPlacement → Placement
from_blueprint sp = record (blank_placement 0) {
  target_container = sp.target_container_id;
  exclusive = sp.exclusive;
  provider = sp.provider;
  size = sp.size;
  region = sp.region;
  floating_ip = sp.floating_ip;
  disk_size = sp.disk_size;
}

-- The key of a placement is the placement without its id.
abbrev pub placement_key : Placement → Placement
placement_key p = record p { id = 0 }

-- toAdd.ID = id
abbrev pub with_id : Placement → Placement → Placement
with_id p r = record p { id = r.id }

-- The placements that are wanted.
unfoldable pub wanted_placements :
    Order → Blueprint → View Connection → View Container → List Placement
unfolding port_placements
wanted_placements o bp conns containers =
    port_placements o (select connection_row o (λ _. true) conns)
      (select container_row o (λ _. true) containers)
    ++ map from_blueprint bp.placements
