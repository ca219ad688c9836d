-- ===== src/Cloud/CycleExamples.antt =====
-- cloud/cloud.go: a round on a provider whose machines are a list.
use quilt.Prelude.{◌≡◌, some, List, [], ◌∷◌, ◌++◌}
use quilt.Maps.{in_order}
use quilt.Db.Table.{View}
use quilt.Db.Rows.{Role, Machine}
use quilt.Cloud.Cycle.{Provider, finished, run_once}
use quilt.Cloud.Cycles.{Keeps, run_once-Keeps}
use quilt.Cloud.Examples.{table, table-IsValid, blueprint, running}

abbrev machines : Provider
machines = record {
  World = List Machine;
  list = λ world. some world;
  boot = λ ms world. world ++ ms;
  stop = λ ms world. [];
  update_floating_ips = λ ms world. world;
  set_acls = λ acls world. world;
}

run_once-Keeps_example :
    (world : List Machine) × (w : View Machine) × (run_once machines in_order
        (λ ip. Role.unassigned)
        (some "1.1.1.1")
        "ns"
        "Amazon"
        "us-west-1"
        (some blueprint)
        (running ∷ [])
        table
      ≡ finished world w)
    × Keeps table w
run_once-Keeps_example =
    run_once-Keeps machines in_order (λ ip. Role.unassigned) (some "1.1.1.1") "ns" "Amazon"
      "us-west-1" (some blueprint) (running ∷ []) table table-IsValid
