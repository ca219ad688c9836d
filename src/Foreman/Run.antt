-- ===== src/Foreman/Run.antt =====
-- cloud/foreman/foreman.go: `updateConfig`, `RunOnce` and `Init`. What a minion answers is an argument. The
-- goroutines of `forEachMinion` each work on their own minion, so their order is left open.
use quilt.Prelude.{
  ℕ, ◌%◌, ◌^◌, Bool, true, false, not, ◌&&◌, Option, none, some, String, List, [], ◌∷◌, ◌++◌, map,
  filter, string_discrete, test, if◌then◌else◌, ◌==◌, ◌!=◌, string_eq, bool_eq, ℕ_discrete,
}
use quilt.Maps.{Map, Order, values}
use quilt.Db.Rows.{Machine}
use quilt.Foreman.Minions.{PbRole, MinionConfig, zero_config, Minion, World, update_minion_map}

unfoldable pub PbRole-discrete : Discrete PbRole
PbRole-discrete = hlevel

-- reflect.DeepEqual
unfoldable pub MinionConfig-discrete : Discrete MinionConfig
MinionConfig-discrete = hlevel (PbRole-discrete, ℕ_discrete, string_discrete)

abbrev pub role_is_master : PbRole → Bool
role_is_master r = test (PbRole-discrete r PbRole.master_role)

-- The machines that `RunOnce` selects.
abbrev pub has_ips : Machine → Bool
has_ips m = (m.public_ip != "") && (m.private_ip != "")

-- The machines that `Init` selects.
abbrev pub has_ips_and_id : Machine → Bool
has_ips_and_id m = (m.public_ip != "") && ((m.private_ip != "") && (m.cloud_id != ""))

module _ {Client : Type 0} where
  module _ (get_minion : Client → Option MinionConfig) where
    -- The config and the error that getMinion returns.
    abbrev pub answer : Client → MinionConfig
    answer c = elim (get_minion c) [ some cfg ↦ cfg | none ↦ zero_config ]

    abbrev pub answers : Client → Bool
    answers c = elim (get_minion c) [ some cfg ↦ true | none ↦ false ]

    -- updateConfig, and whether it calls `notifyConnectionChange`.
    unfoldable pub update_config : Minion Client → Minion Client × Bool
    update_config m =
        let asked : Minion Client = record m { config = answer (m.client) } in
        if answers (m.client) == m.connected
        then (asked, false)
        else (record asked { connected = answers (m.client) }, true)

    -- forEachMinion(updateConfig)
    unfoldable pub update_configs : Map String (Minion Client) → Map String (Minion Client)
    update_configs [] = []
    update_configs ((k, m) ∷ es) = (k, (update_config m).0) ∷ update_configs es

  -- The loop that collects `etcdIPs`.
  unfoldable pub etcd_ips : List (Minion Client) → List String
  etcd_ips [] = []
  etcd_ips (m ∷ ms) =
      let rest = etcd_ips ms in
      if role_is_master (m.config.role) && (m.machine.private_ip != "")
      then m.machine.private_ip ∷ rest
      else rest

  -- newConfig
  unfoldable pub new_config : String → List String → Minion Client → MinionConfig
  new_config blueprint ips m = record zero_config {
    floating_ip = m.machine.floating_ip;
    private_ip = m.machine.private_ip;
    blueprint = blueprint;
    provider = m.machine.provider;
    size = m.machine.size;
    region = m.machine.region;
    etcd_members = ips;
    authorized_keys = m.machine.ssh_keys;
    disk_size = m.machine.disk_size % 2 ^ 32;
  }

  -- The closure that assigns a config: what it sends by `setMinion`, whose error is only logged.
  unfoldable pub assign : String → List String → Minion Client → List (Client × MinionConfig)
  assign blueprint ips m =
      if not (m.connected)
      then []
      else if test (MinionConfig-discrete (new_config blueprint ips m) (m.config))
      then []
      else (m.client, new_config blueprint ips m) ∷ []

  unfoldable pub assign_each :
      String → List String → List (Minion Client) → List (Client × MinionConfig)
  assign_each blueprint ips [] = []
  assign_each blueprint ips (m ∷ ms) = assign blueprint ips m ++ assign_each blueprint ips ms

  -- RunOnce: the new state of the foreman and the configs that it sends.
  unfoldable pub run_once :
      (ℕ → String → Option Client)
      → (Client → Option MinionConfig)
      → Order
      → List Machine
      → String
      → World Client
      → World Client × List (Client × MinionConfig)
  run_once new_client get_minion o machines blueprint w =
      let swept = update_minion_map new_client o (filter has_ips machines) w in
      let ms = update_configs get_minion (swept.minions) in
      let ips = etcd_ips (o.range (Minion Client) (values ms)) in
      (
        record swept { minions = ms },
        assign_each blueprint ips (o.range (Minion Client) (values ms)),
      )

  unfoldable pub init :
      (ℕ → String → Option Client)
      → (Client → Option MinionConfig)
      → Order
      → List Machine
      → World Client
      → World Client
  init new_client get_minion o machines w =
      let closed : World Client = record w {
        minions = [];
        closed =
            w.closed
            ++ map (λ (m : Minion Client). m.client) (o.range (Minion Client) (values (w.minions)));
      } in
      let swept = update_minion_map new_client o (filter has_ips_and_id machines) closed in
      record swept { minions = update_configs get_minion (swept.minions) }
