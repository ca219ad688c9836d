-- ===== src/Engine/Examples.antt =====
-- engine/engine.go: the policy engine on a small blueprint.
use mathlib.Core.List.{Nodup-cons, Nodup-nil, not-mem-nil}
use quilt.Prelude.{
  ℕ, ◌≡◌, false, some, String, List, [], ◌∷◌, map, Perm, All, arith, leb, ltb, nat_eq, ◌==◌,
}
use quilt.Maps.{in_order}
use quilt.Db.Table.{View, IsValid}
use quilt.Db.Rows.{Role, Machine, blank_machine, machine_row}
use quilt.Cloud.Size.{Float, Range, Catalogue}
use quilt.Engine.Machines.{BlueprintMachine, to_db_machine, machine_txn}
use quilt.Engine.Policy.{config, IsWanted, to_db_machine-IsWanted, machine_txn-config}

abbrev whole : Float
whole = record { Value = ℕ; zero = 0; leb = leb; ltb = ltb; eqb = λ a b. a == b }

abbrev any : Range whole
any = record { min = 0; max = 0 }

abbrev small : Catalogue whole
small = record {
  amazon =
      record { size = "m4.large"; price = 10; ram = 8; cpu = 2; disk = ""; region = "" }
      ∷ record { size = "t2.small"; price = 2; ram = 2; cpu = 1; disk = ""; region = "" }
      ∷ [];
  digital_ocean = [];
  google = [];
  vagrant_size = λ ram cpu. "1,1";
}

abbrev machine : String → String → BlueprintMachine whole small
machine id role = record {
  id = id;
  provider = "Amazon";
  role = role;
  size = "";
  cpu = any;
  ram = any;
  disk_size = 0;
  region = "";
  ssh_keys = [];
  floating_ip = "";
  preemptible = false;
}

abbrev machines : List (BlueprintMachine whole small)
machines = machine "a" "Master" ∷ machine "b" "Worker" ∷ machine "c" "Boss" ∷ []

abbrev booted : Machine
booted = record (blank_machine 4) {
  blueprint_id = "a";
  role = Role.master;
  provider = "Amazon";
  region = "us-west-1";
  size = "t2.small";
  disk_size = 32;
  public_ip = "1.2.3.4";
  private_ip = "5.6.7.8";
}

abbrev table : View Machine
table = record { cur_id = 7; rows = booted ∷ []; should_alert = false }

table-IsValid : IsValid machine_row table
unfolding blank_machine
table-IsValid = record {
  distinct = Nodup-cons.1 (not-mem-nil, Nodup-nil);
  allocated = (omega arith, tt);
}

to_db_machine-IsWanted_example :
    (ms : List Machine) × (to_db_machine whole small machines 5 "key" ≡ some ms)
    × All (IsWanted whole small 5 "key") ms
to_db_machine-IsWanted_example = to_db_machine-IsWanted whole small 5 "key" machines

machine_txn-config_example :
    (wanted : List Machine) × (w : View Machine) × (to_db_machine whole small machines 5 "key"
      ≡ some wanted)
    × (machine_txn whole small in_order machines 5 "key" table ≡ some w)
    × IsValid machine_row w
    × Perm (map config w.rows) (map config wanted)
machine_txn-config_example =
    machine_txn-config whole small 5 "key" in_order machines table table-IsValid
