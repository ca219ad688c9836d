-- ===== src/Cloud/Cycle.antt =====
-- cloud/cloud.go: `runOnce` and what it calls. A provider is a service, whose machines are a state; what its
-- methods answer is an argument, and so is the address of the controller. Other threads leave the tables alone.
use Prim.Native.String.{◌++◌ as append}
use quilt.Prelude.{
  ℕ, zero, suc, ◌&&◌, Option, none, some, String, List, [], ◌∷◌, if◌then◌else◌, ◌==◌, string_eq,
}
use quilt.Maps.{Order}
use quilt.Db.Table.{View}
use quilt.Db.Rows.{Role, Machine, blank_machine}
use quilt.Cloud.Status.{booting, set_statuses}
use quilt.Cloud.Sync.{
  Acl, CloudBlueprint, JoinResult, JoinOutcome, joined, list_failed, no_blueprint,
  namespace_changed, panicked, is_empty, cloud_join,
}

-- The provider; an error of the last four is only logged, so that their states say what they did.
pub record Provider : Type 1 where
  pub World : Type 0
  pub list : World → Option (List Machine)
  pub boot : List Machine → World → World
  pub stop : List Machine → World → World
  pub update_floating_ips : List Machine → World → World
  pub set_acls : List Acl → World → World

-- What boot asks for.
abbrev pub boot_requests : List Machine → List Machine
boot_requests [] = []
boot_requests (m ∷ ms) =
    record (blank_machine 0) {
      size = m.size;
      disk_size = m.disk_size;
      preemptible = m.preemptible;
      ssh_keys = m.ssh_keys;
      role = m.role;
      provider = m.provider;
      region = m.region;
    }
    ∷ boot_requests ms

-- updateCloud
abbrev pub update_cloud : {W : Type 0} → List Machine → (List Machine → W → W) → W → W
update_cloud [] action world = world
update_cloud (m ∷ ms) action world = action (m ∷ ms) world

-- The loop of syncACLs; `none` is an error of myIP.
unfoldable pub resolve_acls : Option String → List Acl → Option (List Acl)
resolve_acls my_ip [] = some []
resolve_acls my_ip (a ∷ acls) = elim (resolve_acls my_ip acls) [
  | none ↦ none
  | some rest ↦
      if a.cidr_ip == "local"
      then elim my_ip [
        | none ↦ none
        | some ip ↦ some (record a { cidr_ip = append ip "/32" } ∷ rest)
      ]
      else some (a ∷ rest)
]

-- What a turn of the loop of runOnce leads to.
pub data Turn (W : Type 0) : Type 0 where
  crashed : Turn W
  finished again : W → View Machine → Turn W

module _ (p : Provider) (o : Order) (role_of : String → Role) (my_ip : Option String)
    (namespace provider region : String) (bp : Option CloudBlueprint) where
  -- syncACLs
  unfoldable pub sync_acls : List Acl → p.World → p.World
  unfolding resolve_acls
  sync_acls acls world = elim (resolve_acls my_ip acls) [
    | none ↦ world
    | some resolved ↦ p.set_acls resolved world
  ]

  -- cloud.boot, with the deferred call; `none` is a panic.
  unfoldable pub boot : List Machine → p.World → View Machine → Option (p.World × View Machine)
  unfolding set_statuses
  boot machines world v = elim (set_statuses o machines booting v) [
    | none ↦ none
    | some w ↦ elim (set_statuses o machines "" w) [
      | none ↦ none
      | some x ↦ some (update_cloud (boot_requests machines) p.boot world, x)
    ]
  ]

  -- A turn that has joined.
  unfoldable pub act : JoinResult → p.World → View Machine → Turn p.World
  unfolding sync_acls boot
  act jr world v =
      if is_empty jr.boot && is_empty jr.terminate && is_empty jr.update_ips
      then finished (sync_acls jr.acls world) v
      else elim (boot jr.boot world v) [
        | none ↦ crashed
        | some (booted, w) ↦
            again
              (update_cloud jr.update_ips p.update_floating_ips
                (update_cloud jr.terminate p.stop booted))
              w
      ]

  unfoldable pub act_on : JoinOutcome → p.World → View Machine → Turn p.World
  unfolding act
  act_on panicked world v = crashed
  act_on (joined jr w) world v = act jr world w
  act_on list_failed world v = finished world v
  act_on no_blueprint world v = finished world v
  act_on namespace_changed world v = finished world v

  unfoldable pub turn : p.World → View Machine → Turn p.World
  unfolding act_on cloud_join
  turn world v = act_on (cloud_join o role_of namespace provider region (p.list world) bp v) world v

  -- The loop of runOnce.
  unfoldable pub turns : ℕ → p.World → View Machine → Turn p.World
  unfolding turn
  turns zero world v = finished world v
  turns (suc n) world v = elim (turn world v) [
    | crashed ↦ crashed
    | finished world' w ↦ finished world' w
    | again world' w ↦ turns n world' w
  ]

  abbrev pub run_once : p.World → View Machine → Turn p.World
  run_once = turns 2
