-- ===== src/Minion/Examples.antt =====
-- minion/engine.go: the updates for a small blueprint.
use mathlib.Core.List.{Nodup-cons, Nodup-nil, not-mem-nil}
use quilt.Prelude.{◌≡◌, ◌↔◌, Mem, Nodup, false, some, String, [], ◌∷◌, map, arith}
use quilt.Maps.{in_order}
use quilt.Db.Table.{View, IsValid}
use quilt.Db.MinionRows.{
  Container, blank_container, container_row, Connection, connection_row, LoadBalancer,
  load_balancer_row, Placement, placement_row, Image, image_row,
}
use quilt.Minion.Blueprint.{Blueprint, BlueprintContainer, BlueprintConnection}
use quilt.Minion.Wanted.{IsWanted}
use quilt.Minion.Updates.{dbc_key, update_connections, Tables, update_policy}
use quilt.Minion.Tables.{update_connections-EachOnce, AllValid, update_policy-AllValid}

abbrev web : String → BlueprintContainer
web id = record {
  id = id;
  image = record { name = "web"; dockerfile = "FROM nginx" };
  command = [];
  env = [];
  filepath_to_content = [];
  hostname = id;
}

abbrev connection : String → String → BlueprintConnection
connection source target = record { source = source; target = target; min_port = 80; max_port = 80 }

abbrev blueprint : Blueprint
blueprint = record {
  containers = web "w1" ∷ web "w2" ∷ [];
  load_balancers = record { name = "front"; hostnames = "w1" ∷ "w2" ∷ [] } ∷ [];
  connections = connection "public" "w1" ∷ connection "public" "w2" ∷ connection "w1" "front" ∷ [];
  placements =
      record {
        target_container_id = "w1";
        exclusive = false;
        provider = "";
        size = "";
        region = "us-west-1";
        floating_ip = "";
        disk_size = 0;
      }
      ∷ [];
}

abbrev connections : View Connection
connections = record {
  cur_id = 5;
  rows = record { id = 5; source = "w1"; target = "w2"; min_port = 80; max_port = 80 } ∷ [];
  should_alert = false;
}

connections-IsValid : IsValid connection_row connections
connections-IsValid = record {
  distinct = Nodup-cons.1 (not-mem-nil, Nodup-nil);
  allocated = (omega arith, tt);
}

abbrev containers : View Container
containers = record {
  cur_id = 5;
  rows = record (blank_container 3) { blueprint_id = "w2" } ∷ [];
  should_alert = false;
}

containers-IsValid : IsValid container_row containers
unfolding blank_container
containers-IsValid = record {
  distinct = Nodup-cons.1 (not-mem-nil, Nodup-nil);
  allocated = (omega arith, tt);
}

abbrev load_balancers : View LoadBalancer
load_balancers = record {
  cur_id = 5;
  rows = record { id = 1; name = "back"; ip = "10.0.0.9"; hostnames = [] } ∷ [];
  should_alert = false;
}

load_balancers-IsValid : IsValid load_balancer_row load_balancers
load_balancers-IsValid = record {
  distinct = Nodup-cons.1 (not-mem-nil, Nodup-nil);
  allocated = (omega arith, tt);
}

abbrev images : View Image
images = record {
  cur_id = 5;
  rows =
      record { id = 2; name = "web"; dockerfile = "FROM nginx"; docker_id = "d"; status = "built" }
      ∷ [];
  should_alert = false;
}

images-IsValid : IsValid image_row images
images-IsValid = record {
  distinct = Nodup-cons.1 (not-mem-nil, Nodup-nil);
  allocated = (omega arith, tt);
}

abbrev placements : View Placement
placements = record { cur_id = 5; rows = []; should_alert = false }

placements-IsValid : IsValid placement_row placements
placements-IsValid = record { distinct = Nodup-nil; allocated = tt }

update_connections-EachOnce_example :
    (w : View Connection) × (update_connections in_order blueprint connections ≡ some w)
    × IsValid connection_row w
    × Nodup (map dbc_key w.rows)
    × ((c : BlueprintConnection) → Mem c (map dbc_key w.rows) ↔ IsWanted blueprint c)
update_connections-EachOnce_example =
    update_connections-EachOnce in_order blueprint connections connections-IsValid

abbrev tables : Tables
tables = record {
  images = images;
  containers = containers;
  load_balancers = load_balancers;
  connections = connections;
  placements = placements;
}

tables-AllValid : AllValid tables
tables-AllValid = record {
  images = images-IsValid;
  containers = containers-IsValid;
  load_balancers = load_balancers-IsValid;
  connections = connections-IsValid;
  placements = placements-IsValid;
}

update_policy-AllValid_example :
    (u : Tables) × (update_policy in_order (some blueprint) tables ≡ some u) × AllValid u
update_policy-AllValid_example =
    update_policy-AllValid in_order (some blueprint) tables tables-AllValid
