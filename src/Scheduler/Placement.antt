-- ===== src/Scheduler/Placement.antt =====
-- minion/scheduler/master.go: `validPlacement` and `canBeColocated`.
use quilt.Prelude.{
  Bool, true, false, not, ◌&&◌, ◌||◌, String, List, [], ◌∷◌, if◌then◌else◌, ◌==◌, ◌!=◌, string_eq,
  nat_eq, bool_eq,
}
use quilt.Db.MinionRows.{Container, Placement, Minion}

-- The test of the loop over the peers.
unfoldable pub clashes : Placement → Container → Container → Bool
clashes constraint to_place p =
    to_place.blueprint_id == constraint.target_container
      && p.blueprint_id == constraint.other_container
    || p.blueprint_id == constraint.target_container
      && to_place.blueprint_id == constraint.other_container

unfoldable pub no_clash : Placement → Container → List Container → Bool
unfolding clashes
no_clash constraint to_place [] = true
no_clash constraint to_place (p ∷ peers) =
    let rest = no_clash constraint to_place peers in
    if clashes constraint to_place p then false else rest

unfoldable pub can_be_colocated : Placement → Container → List Container → Bool
unfolding no_clash
can_be_colocated constraint to_place peers =
    if not constraint.exclusive then true else no_clash constraint to_place peers

-- if constraint.X != "" { on := constraint.X == m.X; if constraint.Exclusive == on { return false } }
abbrev pub violates : Bool → String → String → Bool
violates exclusive wanted has = wanted != "" && exclusive == (wanted == has)

-- What the body of the loop in validPlacement says of the machine, for the target of the constraint.
unfoldable pub machine_allowed : Placement → Minion → Bool
machine_allowed c m =
    if violates c.exclusive c.provider m.provider
    then false
    else if violates c.exclusive c.region m.region
    then false
    else if violates c.exclusive c.size m.size
    then false
    else if violates c.exclusive c.floating_ip m.floating_ip
    then false
    else if c.disk_size != 0 && c.exclusive == (c.disk_size == m.disk_size)
    then false
    else true

unfoldable pub valid_placement : List Placement → Minion → List Container → Container → Bool
unfolding can_be_colocated machine_allowed
valid_placement [] m peers dbc = true
valid_placement (c ∷ cs) m peers dbc =
    let rest = valid_placement cs m peers dbc in
    if c.other_container != "" && not (can_be_colocated c dbc peers)
    then false
    else if dbc.blueprint_id != c.target_container
    then rest
    else if machine_allowed c m
    then rest
    else false
