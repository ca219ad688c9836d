-- ===== src/Cloud/Examples.antt =====
-- cloud/cloud.go and db/machine.go: a cloud with a few machines.
use mathlib.Core.HLevel.{⊥_prop}
use mathlib.Core.Logic.Or
use mathlib.Core.List.{Nodup-cons, Nodup-nil, mem-cons, not-mem-nil, mem-cons_self}
use quilt.Prelude.{
  true, List, Mem, ◌⊎◌, ℕ, ◌≡◌, refl, false, some, String, [], ◌∷◌, ◌++◌, map, Perm, arith, leb,
  ltb, nat_eq, ◌==◌,
}
use quilt.Maps.{in_order}
use quilt.Db.Table.{View, IsValid}
use quilt.Db.Rows.{Machine, blank_machine, machine_row}
use quilt.Cloud.Status.{connected, reconnecting, update_machine_statuses_once}
use quilt.Cloud.Statuses.{update_machine_statuses_once-refreshed}
use quilt.Cloud.Size.{
  Float, Range, Catalogue, Description, choose_best_size, cheapest, pick_cheaper, accepts,
}
use quilt.Cloud.Cheapest.{IsOrdered, IsCheapest, suits, affordable, choose_best_size-IsCheapest}
use quilt.Cloud.Sync.{CloudBlueprint, sync_db}
use quilt.Cloud.Reconcile.{fits, sync_db-partition, sync_db-boot-stop}
use quilt.Join.Score.{join, pick, best_index}
use quilt.Cloud.Sync.{same_machine, similar_machine}

abbrev large : Machine
large = record (blank_machine 1) { provider = "Amazon"; region = "us-west-1"; size = "m4.large" }

abbrev small : Machine
small = record (blank_machine 2) { provider = "Amazon"; region = "us-west-1"; size = "t2.small" }

abbrev pub running : Machine
running = record (blank_machine 0) {
  provider = "Amazon";
  region = "us-west-1";
  size = "m4.large";
  cloud_id = "i-7";
  public_ip = "1.2.3.4";
}

abbrev odd : Machine
odd = record (blank_machine 0) {
  provider = "Amazon";
  region = "us-west-1";
  size = "c3.huge";
  cloud_id = "i-8";
}

sync_db-partition_example :
    Perm
      (map (λ p. p.0) (sync_db (running ∷ odd ∷ []) (large ∷ small ∷ [])).pairs
        ++ (sync_db (running ∷ odd ∷ []) (large ∷ small ∷ [])).boot)
      (large ∷ small ∷ [])
    × Perm
        (map (λ p. p.1) (sync_db (running ∷ odd ∷ []) (large ∷ small ∷ [])).pairs
          ++ (sync_db (running ∷ odd ∷ []) (large ∷ small ∷ [])).stop)
        (running ∷ odd ∷ [])
sync_db-partition_example = sync_db-partition (running ∷ odd ∷ []) (large ∷ small ∷ [])

sync_db-boot-stop_example : fits small odd ≡ false
unfolding sync_db join pick best_index same_machine similar_machine blank_machine
sync_db-boot-stop_example =
    sync_db-boot-stop (odd ∷ []) (small ∷ []) small odd mem-cons_self mem-cons_self

abbrev pub table : View Machine
table = record { cur_id = 2; rows = large ∷ []; should_alert = false }

pub table-IsValid : IsValid machine_row table
unfolding blank_machine
table-IsValid = record {
  distinct = Nodup-cons.1 (not-mem-nil, Nodup-nil);
  allocated = (omega arith, tt);
}

abbrev pub blueprint : CloudBlueprint
blueprint = record {
  namespace = "ns";
  admin_acl = "9.9.9.9/32" ∷ [];
  connections = ("public", 80, 80) ∷ [];
}

abbrev whole : Float
whole = record { Value = ℕ; zero = 0; leb = leb; ltb = ltb; eqb = λ a b. a == b }

abbrev any : Range whole
any = record { min = 0; max = 0 }

abbrev sizes : Catalogue whole
sizes = record { amazon = []; digital_ocean = []; google = []; vagrant_size = λ ram cpu. "1,1" }

abbrev amazon : String
amazon = "Amazon"

abbrev pair_table : View Machine
pair_table = record {
  cur_id = 2;
  rows = large ∷ record running { id = 2; status = connected } ∷ [];
  should_alert = false;
}

pair_table-IsValid : IsValid machine_row pair_table
unfolding blank_machine
pair_table-IsValid = record {
  distinct = Nodup-cons.1 (
    λ m. Or.elim ⊥_prop (mem-cons.0 m) (λ e. omega (arith, e)) not-mem-nil,
    Nodup-cons.1 (not-mem-nil, Nodup-nil),
  );
  allocated = (omega arith, (omega arith, tt));
}

update_machine_statuses_once_example :
    (w : View Machine) × (update_machine_statuses_once (λ ip. false) in_order pair_table ≡ some w)
    × IsValid machine_row w
    × Perm w.rows (large ∷ record running { id = 2; status = reconnecting } ∷ [])
unfolding blank_machine
update_machine_statuses_once_example =
    update_machine_statuses_once-refreshed (λ ip. false) in_order pair_table pair_table-IsValid

whole-IsOrdered : IsOrdered whole
whole-IsOrdered = record {
  irrefl = λ x. ground arith;
  asym = λ x y h. ground arith;
  not_lt-trans = λ x y z h k. ground arith;
  not_lt-leb = λ x y h. ground arith;
  leb-trans = λ x y z h k. ground arith;
}

abbrev described : String → ℕ → ℕ → Description whole
described size price ram = record {
  size = size;
  price = price;
  ram = ram;
  cpu = 2;
  disk = "";
  region = "";
}

abbrev offers : List (Description whole)
offers = described "small" 1 2 ∷ described "large" 5 8 ∷ described "medium" 3 8 ∷ []

choose_best_size-IsCheapest_example :
    IsCheapest whole whole-IsOrdered (record { min = 4; max = 0 }) any 4 offers "medium"
    ⊎ ((choose_best_size whole offers (record { min = 4; max = 0 }) any 4 ≡ "")
        × ((x : Description whole)
            → Mem x offers
            → suits whole whole-IsOrdered (record { min = 4; max = 0 }) any x ≡ true
            → affordable whole whole-IsOrdered (record { min = 4; max = 0 }) any 4 x ≡ false))
unfolding choose_best_size cheapest pick_cheaper accepts
choose_best_size-IsCheapest_example =
    choose_best_size-IsCheapest whole whole-IsOrdered (record { min = 4; max = 0 }) any 4 offers
      (refl, (refl, (refl, tt)))
