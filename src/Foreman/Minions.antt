-- ===== src/Foreman/Minions.antt =====
-- cloud/foreman/foreman.go: the map of the minions, its update by mark and sweep, and what is read from it.
-- A client is a value of an unknown type. Whether `newClient` succeeds is an argument, which may answer
-- each call in another way.
use quilt.Prelude.{
  ℕ, suc, Bool, true, false, Option, none, some, String, List, [], ◌∷◌, ◌++◌, string_discrete,
  if◌then◌else◌,
}
use quilt.Maps.{Map, Order, get, put, delete}
use quilt.Db.Rows.{Machine, Role, blank_machine}

-- pb.MinionConfig_Role
pub data PbRole : Type 0 where
  none_role worker_role master_role : PbRole

-- db.PBToRole
abbrev pub pb_to_role : PbRole → Role
pb_to_role PbRole.none_role = Role.unassigned
pb_to_role PbRole.worker_role = Role.worker
pb_to_role PbRole.master_role = Role.master

-- db.RoleToPB
abbrev pub role_to_pb : Role → PbRole
role_to_pb Role.unassigned = PbRole.none_role
role_to_pb Role.worker = PbRole.worker_role
role_to_pb Role.master = PbRole.master_role

-- pb.MinionConfig
pub record MinionConfig : Type 0 where
  pub id : String
  pub role : PbRole
  pub private_ip : String
  pub blueprint : String
  pub provider : String
  pub size : String
  pub region : String
  pub floating_ip : String
  pub etcd_members : List String
  pub authorized_keys : List String
  pub disk_size : ℕ

-- pb.MinionConfig{}
abbrev pub zero_config : MinionConfig
zero_config = record {
  id = "";
  role = PbRole.none_role;
  private_ip = "";
  blueprint = "";
  provider = "";
  size = "";
  region = "";
  floating_ip = "";
  etcd_members = [];
  authorized_keys = [];
  disk_size = 0;
}

module _ (Client : Type 0) where
  -- minion
  pub record Minion : Type 0 where
    pub client : Client
    pub connected : Bool
    pub machine : Machine
    pub config : MinionConfig
    pub mark : Bool

  -- The map `minions`, how often `newClient` was called, and the clients that were closed.
  pub record World : Type 0 where
    pub minions : Map String Minion
    pub calls : ℕ
    pub closed : List Client

module _ {Client : Type 0} where
  -- &minion{client: client}
  abbrev pub new_minion : Client → Minion Client
  new_minion c = record {
    client = c;
    connected = false;
    machine = blank_machine 0;
    config = zero_config;
    mark = false;
  }

  -- min.machine = m; min.mark = true
  abbrev pub touch : Machine → Minion Client → Minion Client
  touch m min = record min { machine = m; mark = true }

  abbrev pub unmark : Minion Client → Minion Client
  unmark min = record min { mark = false }

  module _ (new_client : ℕ → String → Option Client) where
    -- The body of the first loop of `updateMinionMap`.
    unfoldable pub mark_one : Machine → World Client → World Client
    mark_one m w = elim (get string_discrete (w.minions) (m.public_ip)) [
      | some min ↦ record w {
        minions = put string_discrete (w.minions) (m.public_ip) (touch m min);
      }
      | none ↦ elim (new_client (w.calls) (m.public_ip)) [
        | none ↦ record w { calls = suc (w.calls) }
        | some c ↦ record w {
          minions = put string_discrete (w.minions) (m.public_ip) (touch m (new_minion c));
          calls = suc (w.calls);
        }
      ]
    ]

    unfoldable pub mark_each : List Machine → World Client → World Client
    mark_each [] w = w
    mark_each (m ∷ ms) w = mark_each ms (mark_one m w)

    -- The body of the second loop.
    unfoldable pub sweep_one : String → Minion Client → World Client → World Client
    sweep_one k min w =
        if min.mark
        then record w { minions = put string_discrete (w.minions) k (unmark min) }
        else record w {
          minions = delete string_discrete (w.minions) k;
          closed = w.closed ++ min.client ∷ [];
        }

    unfoldable pub sweep_each : Map String (Minion Client) → World Client → World Client
    sweep_each [] w = w
    sweep_each ((k, min) ∷ es) w = sweep_each es (sweep_one k min w)

    -- updateMinionMap
    unfoldable pub update_minion_map : Order → List Machine → World Client → World Client
    update_minion_map o machines w =
        let marked = mark_each machines w in
        sweep_each (o.range (String × Minion Client) (marked.minions)) marked

  -- GetMachineRole
  unfoldable pub get_machine_role : World Client → String → Role
  get_machine_role w ip = elim (get string_discrete (w.minions) ip) [
    | some min ↦ pb_to_role (min.config.role)
    | none ↦ Role.unassigned
  ]

  -- IsConnected
  unfoldable pub is_connected : World Client → String → Bool
  is_connected w ip = elim (get string_discrete (w.minions) ip) [
    | some min ↦ min.connected
    | none ↦ false
  ]
