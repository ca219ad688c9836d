-- ===== src/Minion/Updates.antt =====
-- minion/engine.go: the updates of the tables from a compiled blueprint. `none` is a panic.
use quilt.Prelude.{
  true, false, ◌||◌, Option, none, some, String, List, [], ◌∷◌, ◌++◌, map, ◌==◌, string_eq, test,
  string_discrete,
}
use mathlib.Core.List.{dec_mem}
use quilt.Maps.{Order, Map, get, put, values}
use quilt.Join.Hash.{hash_join, identity}
use quilt.Db.Table.{View, select}
use quilt.Db.MinionRows.{
  Container, container_row, Connection, connection_row, LoadBalancer, load_balancer_row, Placement,
  Placement-discrete, placement_row, Image, image_row, blank_container, blank_load_balancer,
}
use quilt.Db.Sync.{sync}
use quilt.Db.Replace.{replace}
use quilt.Minion.Blueprint.{
  BlueprintImage, BlueprintImage-discrete, BlueprintContainer, BlueprintLoadBalancer,
  BlueprintConnection, BlueprintConnection-discrete, Blueprint,
}
use quilt.Minion.Ports.{wanted_placements, placement_key, with_id}

infixl 5 ◌>>=◌
abbrev pub ◌>>=◌ : {A B : Type 0} → Option A → (A → Option B) → Option B
none >>= f = none
some a >>= f = f a

unfoldable pub update_placements :
    Order → Blueprint → View Connection → View Container → View Placement → Option (View Placement)
unfolding wanted_placements
update_placements o bp conns containers v =
    let j =
      hash_join Placement-discrete placement_key placement_key o
        (wanted_placements o bp conns containers) (select placement_row o (λ _. true) v) in
    replace placement_row with_id j.lonely_lefts j.lonely_rights v

abbrev pub to_load_balancer : BlueprintLoadBalancer → LoadBalancer
to_load_balancer lb = record (blank_load_balancer 0) { name = lb.name; hostnames = lb.hostnames }

abbrev pub load_balancer_key : LoadBalancer → String
load_balancer_key lb = lb.name

-- The IP of the row stays.
unfoldable pub merge_load_balancer : LoadBalancer → LoadBalancer → LoadBalancer
merge_load_balancer bp db = record db { name = bp.name; hostnames = bp.hostnames }

unfoldable pub update_load_balancers :
    Order → Blueprint → View LoadBalancer → Option (View LoadBalancer)
update_load_balancers o bp v =
    let j =
      hash_join string_discrete load_balancer_key load_balancer_key o
        (map to_load_balancer bp.load_balancers) (select load_balancer_row o (λ _. true) v) in
    sync load_balancer_row merge_load_balancer j.pairs j.lonely_lefts j.lonely_rights v

-- The map loadBalancers of updateConnections.
unfoldable pub by_name :
    Map String BlueprintLoadBalancer → List BlueprintLoadBalancer → Map String BlueprintLoadBalancer
by_name m [] = m
by_name m (lb ∷ lbs) = by_name (put string_discrete m lb.name lb) lbs

-- The connections to what is behind a load balancer.
unfoldable pub behind :
    Map String BlueprintLoadBalancer → List BlueprintConnection → List BlueprintConnection
behind lbs [] = []
behind lbs (c ∷ cs) = elim (get string_discrete lbs c.target) [
  | none ↦ behind lbs cs
  | some lb ↦ map (λ hostname. record c { target = hostname }) lb.hostnames ++ behind lbs cs
]

-- The loop goes over the connections that were there before it.
unfoldable pub wanted_connections : Blueprint → List BlueprintConnection
unfolding by_name behind
wanted_connections bp = bp.connections ++ behind (by_name [] bp.load_balancers) bp.connections

unfoldable pub dbc_key : Connection → BlueprintConnection
dbc_key c = record {
  source = c.source;
  target = c.target;
  min_port = c.min_port;
  max_port = c.max_port;
}

unfoldable pub merge_connection : BlueprintConnection → Connection → Connection
merge_connection bp dbc = record dbc {
  source = bp.source;
  target = bp.target;
  min_port = bp.min_port;
  max_port = bp.max_port;
}

unfoldable pub update_connections : Order → Blueprint → View Connection → Option (View Connection)
unfolding wanted_connections dbc_key
update_connections o bp v =
    let j =
      hash_join BlueprintConnection-discrete identity dbc_key o (wanted_connections bp)
        (select connection_row o (λ _. true) v) in
    sync connection_row merge_connection j.pairs j.lonely_lefts j.lonely_rights v

abbrev pub to_container : BlueprintContainer → Container
to_container c = record (blank_container 0) {
  blueprint_id = c.id;
  command = c.command;
  env = c.env;
  filepath_to_content = c.filepath_to_content;
  image = c.image.name;
  dockerfile = c.image.dockerfile;
  hostname = c.hostname;
}

-- The map of queryContainers, from hostnames.
unfoldable pub fill_containers :
    Map String Container → List BlueprintContainer → Map String Container
fill_containers m [] = m
fill_containers m (c ∷ cs) = fill_containers (put string_discrete m c.hostname (to_container c)) cs

unfoldable pub query_containers : Order → Blueprint → List Container
unfolding fill_containers
query_containers o bp = o.range Container (values (fill_containers [] bp.containers))

abbrev pub container_key : Container → String
container_key c = c.blueprint_id

unfoldable pub merge_container : Container → Container → Container
merge_container new dbc = record dbc {
  command = new.command;
  image = new.image;
  dockerfile = new.dockerfile;
  env = new.env;
  filepath_to_content = new.filepath_to_content;
  blueprint_id = new.blueprint_id;
  hostname = new.hostname;
}

unfoldable pub update_containers : Order → Blueprint → View Container → Option (View Container)
unfolding query_containers
update_containers o bp v =
    let j =
      hash_join string_discrete container_key container_key o (query_containers o bp)
        (select container_row o (λ _. true) v) in
    sync container_row merge_container j.pairs j.lonely_lefts j.lonely_rights v

-- The loop of queryImages, with the images that are there already.
unfoldable pub collect_images : List BlueprintImage → List BlueprintContainer → List BlueprintImage
collect_images added [] = []
collect_images added (c ∷ cs) =
    elim (c.image.dockerfile == "" || test (dec_mem BlueprintImage-discrete c.image added)) [
      | true ↦ collect_images added cs
      | false ↦ c.image ∷ collect_images (c.image ∷ added) cs
    ]

unfoldable pub query_images : Blueprint → List BlueprintImage
unfolding collect_images
query_images bp = collect_images [] bp.containers

unfoldable pub db_image_key : Image → BlueprintImage
db_image_key im = record { name = im.name; dockerfile = im.dockerfile }

unfoldable pub fill_image : BlueprintImage → Image → Image
fill_image bp im = record im { name = bp.name; dockerfile = bp.dockerfile }

unfoldable pub update_images : Order → Blueprint → View Image → Option (View Image)
unfolding query_images db_image_key
update_images o bp v =
    let j =
      hash_join BlueprintImage-discrete identity db_image_key o (query_images bp)
        (select image_row o (λ _. true) v) in
    replace image_row fill_image j.lonely_lefts j.lonely_rights v

-- The tables that a minion's policy engine writes.
pub record Tables : Type 0 where
  pub images : View Image
  pub containers : View Container
  pub load_balancers : View LoadBalancer
  pub connections : View Connection
  pub placements : View Placement

-- updatePolicy, behind the parse of the blueprint: `none` for one that does not parse, which changes
-- nothing.
unfoldable pub update_policy : Order → Option Blueprint → Tables → Option Tables
update_policy o none t = some t
update_policy o (some bp) t = do
  images ← update_images o bp t.images
  containers ← update_containers o bp t.containers
  load_balancers ← update_load_balancers o bp t.load_balancers
  connections ← update_connections o bp t.connections
  placements ← update_placements o bp connections containers t.placements
  some (record {
    images = images;
    containers = containers;
    load_balancers = load_balancers;
    connections = connections;
    placements = placements;
  })
