-- ===== src/Db/Rows.antt =====
-- db/: the row types, with the `Row` of each. A Go map in a row is kept as its entries in increasing
-- order of their keys, so that equal maps are equal values; a float is not kept.
use quilt.Prelude.{ℕ, ◌≡◌, refl, Bool, false, String, List, [], ℕ_discrete, string_discrete}
use quilt.Db.Table.{Row}

abbrev pub StringMap : Type 0
StringMap = List (String × String)

-- db.Role: the strings "", "Worker" and "Master".
pub data Role : Type 0 where
  unassigned worker master : Role

pub Role-discrete : Discrete Role
Role-discrete = hlevel

-- db/machine.go
pub record Machine : Type 0 where
  pub id : ℕ
  pub blueprint_id : String
  pub role : Role
  pub provider : String
  pub region : String
  pub size : String
  pub disk_size : ℕ
  pub ssh_keys : List String
  pub floating_ip : String
  pub preemptible : Bool
  pub cloud_id : String
  pub public_ip : String
  pub private_ip : String
  pub status : String

unfoldable pub Machine-discrete : Discrete Machine
Machine-discrete = hlevel (ℕ_discrete, string_discrete)

unfoldable pub blank_machine : ℕ → Machine
blank_machine n = record {
  id = n;
  blueprint_id = "";
  role = Role.unassigned;
  provider = "";
  region = "";
  size = "";
  disk_size = 0;
  ssh_keys = [];
  floating_ip = "";
  preemptible = false;
  cloud_id = "";
  public_ip = "";
  private_ip = "";
  status = "";
}

pub blank_machine-id : (n : ℕ) → (blank_machine n).id ≡ n
unfolding blank_machine
blank_machine-id n = refl

abbrev pub machine_row : Row Machine
machine_row = record {
  get_id = λ m. m.id;
  blank = blank_machine;
  blank-id = blank_machine-id;
  deep_equal = Machine-discrete;
}
