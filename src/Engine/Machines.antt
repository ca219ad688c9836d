-- ===== src/Engine/Machines.antt =====
-- engine/engine.go: `toDBMachine` and `machineTxn`. The sizes of the providers are an argument.
use quilt.Prelude.{
  ℕ, Bool, true, false, not, ◌&&◌, ◌||◌, Option, none, some, String, List, [], ◌∷◌, ◌++◌,
  if◌then◌else◌, ◌==◌, ◌!=◌, string_eq, nat_eq, bool_eq, test, ℤ, pos, negsuc,
}
use mathlib.Core.Option
use quilt.Maps.{Order}
use quilt.Join.Score.{join}
use quilt.Db.Table.{View, select}
use quilt.Db.Rows.{Role, Role-discrete, Machine, blank_machine, machine_row}
use quilt.Db.Sync.{sync}
use quilt.Cloud.Size.{Float, Range, Catalogue}
use quilt.Cloud.Providers.{parse_role, parse_provider, choose_size, default_region}

-- var defaultDiskSize
abbrev pub default_disk_size : ℕ
default_disk_size = 32

-- What the body of the loop does with one machine.
pub data Outcome : Type 0 where
  panicked skipped : Outcome
  added : Machine → Outcome

abbrev pub or_panic : Option Machine → Outcome
or_panic none = panicked
or_panic (some m) = added m

-- The cases of `scoreFun`, in order: the left is from the blueprint, the right from the database.
unfoldable pub machine_score : Machine → Machine → ℤ
machine_score bpm dbm =
    if dbm.blueprint_id != "" && dbm.blueprint_id != bpm.blueprint_id
    then negsuc 0
    else if dbm.provider != bpm.provider
    then negsuc 0
    else if dbm.region != bpm.region
    then negsuc 0
    else if dbm.preemptible != bpm.preemptible
    then negsuc 0
    else if dbm.size != "" && bpm.size != dbm.size
    then negsuc 0
    else if dbm.floating_ip != "" && dbm.floating_ip != bpm.floating_ip
    then negsuc 0
    else if not (test (Role-discrete dbm.role Role.unassigned))
        && not (test (Role-discrete dbm.role bpm.role))
    then negsuc 0
    else if dbm.disk_size != bpm.disk_size
    then negsuc 0
    else if dbm.private_ip == ""
    then pos 2
    else if dbm.public_ip == ""
    then pos 1
    else pos 0

-- The body of the last loop of machineTxn.
unfoldable pub merge_machine : Machine → Machine → Machine
merge_machine bpm dbm = record dbm {
  blueprint_id = bpm.blueprint_id;
  role = bpm.role;
  size = bpm.size;
  disk_size = bpm.disk_size;
  provider = bpm.provider;
  region = bpm.region;
  ssh_keys = bpm.ssh_keys;
  floating_ip = bpm.floating_ip;
  preemptible = bpm.preemptible;
}

-- The transaction, behind the conversion of the blueprint's machines.
unfoldable pub sync_machines : Order → List Machine → View Machine → Option (View Machine)
sync_machines o wanted v =
    let j = join machine_score wanted (select machine_row o (λ _. true) v) in
    sync machine_row merge_machine j.pairs j.lonely_lefts j.lonely_rights v

module _ (f : Float) (sizes : Catalogue f) where
  -- blueprint.Machine
  pub record BlueprintMachine : Type 0 where
    pub id : String
    pub provider : String
    pub role : String
    pub size : String
    pub cpu : Range f
    pub ram : Range f
    pub disk_size : ℕ
    pub region : String
    pub ssh_keys : List String
    pub floating_ip : String
    pub preemptible : Bool

  -- The end of the loop's body, with the provider, the role and the size known.
  unfoldable pub fill : String → BlueprintMachine → Role → String → String → Outcome
  fill admin_key b role provider size =
      if size == ""
      then skipped
      else or_panic (
          default_region (record (blank_machine 0) {
            blueprint_id = b.id;
            role = role;
            provider = provider;
            region = b.region;
            size = size;
            disk_size = if b.disk_size == 0 then default_disk_size else b.disk_size;
            ssh_keys = if admin_key != "" then b.ssh_keys ++ admin_key ∷ [] else b.ssh_keys;
            floating_ip = b.floating_ip;
            preemptible = b.preemptible;
          }))

  -- The body of the loop behind the parse of the role.
  unfoldable pub convert : f.Value → String → BlueprintMachine → Role → Outcome
  convert max_price admin_key b role = elim (parse_provider b.provider) [
    | none ↦ skipped
    | some p ↦
        if b.size == ""
        then (elim (choose_size f sizes p b.ram b.cpu max_price) [
          | none ↦ panicked
          | some size ↦ fill admin_key b role p size
        ])
        else fill admin_key b role p b.size
  ]

  abbrev pub cons_machine : Machine → List Machine × Bool × Bool → List Machine × Bool × Bool
  cons_machine m (ms, has_master, has_worker) = (m ∷ ms, has_master, has_worker)

  -- The loop: the machines, `hasMaster` and `hasWorker`; `none` is a panic.
  unfoldable pub convert_all :
      f.Value → String → List BlueprintMachine → Bool → Bool → Option (List Machine × Bool × Bool)
  convert_all max_price admin_key [] has_master has_worker = some ([], has_master, has_worker)
  convert_all max_price admin_key (b ∷ bs) has_master has_worker = elim (parse_role b.role) [
    | none ↦ convert_all max_price admin_key bs has_master has_worker
    | some role ↦
        let rest =
          convert_all max_price admin_key bs (has_master || test (Role-discrete role Role.master))
            (has_worker || test (Role-discrete role Role.worker)) in
        elim (convert max_price admin_key b role) [
          | panicked ↦ none
          | skipped ↦ rest
          | added m ↦ Option.map (cons_machine m) rest
        ]
  ]

  -- No machine at all is wanted where there is a master and no worker, or a worker and no master.
  abbrev pub check_roles : List Machine × Bool × Bool → List Machine
  check_roles (ms, has_master, has_worker) =
      if has_master && not has_worker then [] else if has_worker && not has_master then [] else ms

  unfoldable pub to_db_machine : List BlueprintMachine → f.Value → String → Option (List Machine)
  unfolding convert_all
  to_db_machine machines max_price admin_key =
      Option.map check_roles (convert_all max_price admin_key machines false false)

  unfoldable pub machine_txn :
      Order → List BlueprintMachine → f.Value → String → View Machine → Option (View Machine)
  unfolding to_db_machine sync_machines
  machine_txn o machines max_price admin_key v = elim (to_db_machine machines max_price admin_key) [
    | none ↦ none
    | some wanted ↦ sync_machines o wanted v
  ]
