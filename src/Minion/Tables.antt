-- ===== src/Minion/Tables.antt =====
-- minion/engine.go: the tables after each of the updates.
use quilt.Prelude.{
  ◌≡◌, ◌↔◌, refl, ap, subst, Option, none, some, List, [], ◌∷◌, map, Mem, Nodup, string_discrete,
}
use quilt.Maps.{Order}
use quilt.Join.Hash.{identity}
use quilt.Join.LastOfKey.{EachOnce}
use quilt.Db.Table.{View, IsValid}
use quilt.Db.Reconcile.{sync-EachOnce, replace-EachOnce}
use quilt.Db.MinionRows.{
  Container, container_row, Connection, connection_row, LoadBalancer, load_balancer_row, Placement,
  Placement-discrete, placement_row, Image, image_row,
}
use quilt.Minion.Blueprint.{
  BlueprintImage, BlueprintImage-discrete, BlueprintConnection, BlueprintConnection-discrete,
  Blueprint,
}
use quilt.Minion.Ports.{wanted_placements, placement_key, with_id}
use quilt.Minion.Wanted.{IsWanted, mem-wanted_connections}
use quilt.Minion.Updates.{
  update_placements, to_load_balancer, load_balancer_key, merge_load_balancer,
  update_load_balancers, wanted_connections, dbc_key, merge_connection, update_connections,
  query_containers, container_key, merge_container, update_containers, query_images, db_image_key,
  fill_image, update_images, Tables, update_policy,
}

map-identity : {A : Type 0} (xs : List A) → map identity xs ≡ xs
map-identity [] = refl
map-identity (x ∷ xs) = ap (◌∷◌ x) (map-identity xs)

connections-EachOnce :
    (o : Order) (bp : Blueprint) (v : View Connection)
    → IsValid connection_row v
    → (w : View Connection) × (update_connections o bp v ≡ some w)
      × IsValid connection_row w
      × EachOnce (map dbc_key w.rows) (wanted_connections bp)
unfolding update_connections merge_connection dbc_key
connections-EachOnce o bp v h =
    let (w, e, valid, t) =
      sync-EachOnce connection_row BlueprintConnection-discrete identity dbc_key merge_connection
        keeps sets o (wanted_connections bp) v h in
    (
      w,
      e,
      valid,
      subst (λ ks. EachOnce (map dbc_key w.rows) ks) (map-identity (wanted_connections bp)) t,
    )
  where
    keeps : (l : BlueprintConnection) (r : Connection) → (merge_connection l r).id ≡ r.id
    keeps l r = refl

    sets : (l : BlueprintConnection) (r : Connection) → dbc_key (merge_connection l r) ≡ l
    sets l r = refl

-- On any valid table updateConnections succeeds, and leaves a valid table that has no connection twice, and
-- exactly these: the connections of the blueprint, and, for each of them whose target is the name of a load
-- balancer, one to each hostname of it with the same source and ports. Of load balancers with one name the last
-- counts.
pub update_connections-EachOnce :
    (o : Order) (bp : Blueprint) (v : View Connection)
    → IsValid connection_row v
    → (w : View Connection) × (update_connections o bp v ≡ some w)
      × IsValid connection_row w
      × Nodup (map dbc_key w.rows)
      × ((c : BlueprintConnection) → Mem c (map dbc_key w.rows) ↔ IsWanted bp c)
update_connections-EachOnce o bp v h =
    let (w, e, valid, (once, same)) = connections-EachOnce o bp v h in
    (
      w,
      e,
      valid,
      once,
      λ c.
          let (a, b) = same c in
          let (d, f) = mem-wanted_connections bp c in (λ m. d (a m), λ m. b (f m)),
    )

-- On any valid table updateContainers succeeds, and leaves a valid table that has exactly one container for
-- each blueprint id that queryContainers finds.
pub update_containers-EachOnce :
    (o : Order) (bp : Blueprint) (v : View Container)
    → IsValid container_row v
    → (w : View Container) × (update_containers o bp v ≡ some w)
      × IsValid container_row w
      × EachOnce (map container_key w.rows) (map container_key (query_containers o bp))
unfolding update_containers merge_container
update_containers-EachOnce o bp v h =
    sync-EachOnce container_row string_discrete container_key container_key merge_container keeps
      sets o (query_containers o bp) v h
  where
    keeps : (l r : Container) → (merge_container l r).id ≡ r.id
    keeps l r = refl

    sets : (l r : Container) → container_key (merge_container l r) ≡ container_key l
    sets l r = refl

-- On any valid table updateLoadBalancers succeeds, and leaves a valid table that has exactly one load
-- balancer for each name in the blueprint.
update_load_balancers-EachOnce :
    (o : Order) (bp : Blueprint) (v : View LoadBalancer)
    → IsValid load_balancer_row v
    → (w : View LoadBalancer) × (update_load_balancers o bp v ≡ some w)
      × IsValid load_balancer_row w
      × EachOnce
          (map load_balancer_key w.rows)
          (map load_balancer_key (map to_load_balancer bp.load_balancers))
unfolding update_load_balancers merge_load_balancer
update_load_balancers-EachOnce o bp v h =
    sync-EachOnce load_balancer_row string_discrete load_balancer_key load_balancer_key
      merge_load_balancer keeps sets o (map to_load_balancer bp.load_balancers) v h
  where
    keeps : (l r : LoadBalancer) → (merge_load_balancer l r).id ≡ r.id
    keeps l r = refl

    sets : (l r : LoadBalancer) → load_balancer_key (merge_load_balancer l r) ≡ load_balancer_key l
    sets l r = refl

-- On any valid table updatePlacements succeeds, and leaves a valid table that has, ids aside, each placement
-- rule of the blueprint and each rule that keeps two containers on one public port apart exactly once.
update_placements-EachOnce :
    (o : Order) (bp : Blueprint) (conns : View Connection) (containers : View Container)
    (v : View Placement)
    → IsValid placement_row v
    → (w : View Placement) × (update_placements o bp conns containers v ≡ some w)
      × IsValid placement_row w
      × EachOnce
          (map placement_key w.rows)
          (map placement_key (wanted_placements o bp conns containers))
unfolding update_placements
update_placements-EachOnce o bp conns containers v h =
    replace-EachOnce placement_row Placement-discrete placement_key placement_key with_id
      (λ l r. refl) (λ l r. refl) o (wanted_placements o bp conns containers) v h

-- On any valid table updateImages succeeds, and leaves a valid table that has each image that the
-- blueprint's containers build from a Dockerfile exactly once.
update_images-EachOnce :
    (o : Order) (bp : Blueprint) (v : View Image)
    → IsValid image_row v
    → (w : View Image) × (update_images o bp v ≡ some w)
      × IsValid image_row w
      × EachOnce (map db_image_key w.rows) (query_images bp)
unfolding update_images fill_image db_image_key
update_images-EachOnce o bp v h =
    let (w, e, valid, t) =
      replace-EachOnce image_row BlueprintImage-discrete identity db_image_key fill_image keeps sets
        o (query_images bp) v h in
    (
      w,
      e,
      valid,
      subst (λ ks. EachOnce (map db_image_key w.rows) ks) (map-identity (query_images bp)) t,
    )
  where
    keeps : (l : BlueprintImage) (r : Image) → (fill_image l r).id ≡ r.id
    keeps l r = refl

    sets : (l : BlueprintImage) (r : Image) → db_image_key (fill_image l r) ≡ l
    sets l r = refl

-- The tables are valid, each of them.
pub record AllValid (t : Tables) : Type 0 where
  pub images : IsValid image_row t.images
  pub containers : IsValid container_row t.containers
  pub load_balancers : IsValid load_balancer_row t.load_balancers
  pub connections : IsValid connection_row t.connections
  pub placements : IsValid placement_row t.placements

-- The policy engine never panics on valid tables, whatever the blueprint and whether or not it parses, and
-- leaves valid tables; so it can run again and again.
pub update_policy-AllValid :
    (o : Order) (bp : Option Blueprint) (t : Tables)
    → AllValid t
    → (u : Tables) × (update_policy o bp t ≡ some u) × AllValid u
unfolding update_policy
update_policy-AllValid o none t h = (t, refl, h)
update_policy-AllValid o (some bp) t h =
    let (images, e1, v1, _) = update_images-EachOnce o bp t.images h.images in
    let (containers, e2, v2, _) = update_containers-EachOnce o bp t.containers h.containers in
    let (load_balancers, e3, v3, _) =
      update_load_balancers-EachOnce o bp t.load_balancers h.load_balancers in
    let (connections, e4, v4, _) = connections-EachOnce o bp t.connections h.connections in
    let (placements, e5, v5, _) =
      update_placements-EachOnce o bp connections containers t.placements h.placements in
    (
      record {
        images = images;
        containers = containers;
        load_balancers = load_balancers;
        connections = connections;
        placements = placements;
      },
      rw (e1, e2, e3, e4, e5) refl,
      record {
        images = v1;
        containers = v2;
        load_balancers = v3;
        connections = v4;
        placements = v5;
      },
    )
