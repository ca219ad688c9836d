-- ===== src/Cloud/Sync.antt =====
-- cloud/cloud.go: `syncDB`, `getACLs`, `getMachineRoles` and `join` of one region of a provider. The
-- provider's answer and the roles that the foreman knows are arguments.
use quilt.Prelude.{
  ℕ, ◌-◌, Bool, true, false, not, ◌&&◌, ◌||◌, Option, none, some, String, List, [], ◌∷◌, ◌++◌, map,
  filter, if◌then◌else◌, ◌==◌, ◌!=◌, string_eq, nat_eq, bool_eq, test, ℤ, pos, negsuc, ℕ_discrete,
  string_discrete,
}
use quilt.Maps.{Order, Map, put, keys}
use quilt.Join.Score.{join}
use quilt.Db.Table.{View, select, commit_each}
use quilt.Db.Rows.{Role, Role-discrete, Machine, machine_row}

-- acl.ACL
pub record Acl : Type 0 where
  pub cidr_ip : String
  pub min_port : ℕ
  pub max_port : ℕ

unfoldable pub Acl-discrete : Discrete Acl
Acl-discrete = hlevel (ℕ_discrete, string_discrete)

-- The fields of a blueprint that a cloud reads, a connection with its source and its ports.
pub record CloudBlueprint : Type 0 where
  pub namespace : String
  pub admin_acl : List String
  pub connections : List (String × ℕ × ℕ)

-- m.Role == db.None || dbm.Role == m.Role
abbrev pub role_fits : Machine → Machine → Bool
role_fits dbm m =
    test (Role-discrete m.role Role.unassigned) || test (Role-discrete dbm.role m.role)

-- The score of the first join of `syncDB`.
unfoldable pub same_machine : Machine → Machine → ℤ
same_machine dbm m =
    if dbm.cloud_id == m.cloud_id
      && (dbm.provider == m.provider
          && (dbm.preemptible == m.preemptible
              && (dbm.region == m.region
                  && (dbm.size == m.size
                      && ((m.disk_size == 0 || dbm.disk_size == m.disk_size) && role_fits dbm m)))))
    then pos 0
    else negsuc 0

-- The score of its second join.
unfoldable pub similar_machine : Machine → Machine → ℤ
similar_machine dbm m =
    if dbm.provider != m.provider
      || (dbm.region != m.region
          || (dbm.size != m.size
              || (dbm.preemptible != m.preemptible
                  || (m.disk_size != 0 && dbm.disk_size != m.disk_size || not (role_fits dbm m)))))
    then negsuc 0
    else let s =
        10
        - (if not (test (Role-discrete dbm.role Role.unassigned))
              && (not (test (Role-discrete m.role Role.unassigned))
                  && test (Role-discrete dbm.role m.role))
            then 4
            else 0) in
      let t =
        s - (if dbm.public_ip == m.public_ip && dbm.private_ip == m.private_ip then 2 else 0) in
      pos (t - (if dbm.floating_ip == m.floating_ip then 1 else 0))

pub record SyncResult : Type 0 where
  pub pairs : List (Machine × Machine)
  pub boot : List Machine
  pub stop : List Machine
  pub update_ips : List Machine

-- The machines of the pairs whose floating IP must change, with the new one.
unfoldable pub update_ips_of : List (Machine × Machine) → List Machine
update_ips_of [] = []
update_ips_of ((dbm, m) ∷ pairs) =
    let rest = update_ips_of pairs in
    if dbm.cloud_id == m.cloud_id && dbm.floating_ip != m.floating_ip
    then (record m { floating_ip = dbm.floating_ip }) ∷ rest
    else rest

-- syncDB
unfoldable pub sync_db : List Machine → List Machine → SyncResult
unfolding update_ips_of
sync_db cms dbms =
    let first = join same_machine dbms cms in
    let second = join similar_machine first.lonely_lefts first.lonely_rights in
    record {
      pairs = first.pairs ++ second.pairs;
      boot = second.lonely_lefts;
      stop = second.lonely_rights;
      update_ips = update_ips_of (first.pairs ++ second.pairs);
    }

-- get: the listed machines, with the provider and the region of the cloud.
unfoldable pub localize : String → String → List Machine → List Machine
localize provider region [] = []
localize provider region (m ∷ ms) =
    record m { provider = provider; region = region } ∷ localize provider region ms

-- getMachineRoles
unfoldable pub machine_roles : (String → Role) → List Machine → List Machine
machine_roles role_of [] = []
machine_roles role_of (m ∷ ms) = record m { role = role_of m.public_ip } ∷ machine_roles role_of ms

-- The body of the loop over the pairs.
unfoldable pub associate : Machine → Machine → Machine
associate m dbm = record dbm {
  cloud_id =
      if not (test (Role-discrete m.role Role.unassigned)) && test (Role-discrete m.role dbm.role)
      then m.cloud_id
      else dbm.cloud_id;
  status = if dbm.public_ip != m.public_ip then "" else dbm.status;
  public_ip = m.public_ip;
  private_ip = m.private_ip;
}

unfoldable pub admin_acls : List String → Map Acl Unit → Map Acl Unit
admin_acls [] set = set
admin_acls (cidr ∷ cidrs) set =
    admin_acls cidrs
      (put Acl-discrete set (record { cidr_ip = cidr; min_port = 1; max_port = 65535 }) tt)

unfoldable pub public_acls : List (String × ℕ × ℕ) → Map Acl Unit → Map Acl Unit
public_acls [] set = set
public_acls ((source, min_port, max_port) ∷ conns) set = public_acls conns (
    if source == "public"
    then put Acl-discrete set
        (record { cidr_ip = "0.0.0.0/0"; min_port = min_port; max_port = max_port }) tt
    else set)

-- getACLs
unfoldable pub get_acls : CloudBlueprint → Map Acl Unit
unfolding admin_acls public_acls
get_acls bp = public_acls bp.connections (admin_acls (bp.admin_acl ++ "local" ∷ []) [])

pub record JoinResult : Type 0 where
  pub acls : List Acl
  pub boot : List Machine
  pub terminate : List Machine
  pub update_ips : List Machine

pub data JoinOutcome : Type 0 where
  list_failed no_blueprint namespace_changed panicked : JoinOutcome
  joined : JoinResult → View Machine → JoinOutcome

abbrev pub in_region : String → String → Machine → Bool
in_region provider region m = m.provider == provider && m.region == region

abbrev pub swap_pair : Machine × Machine → Machine × Machine
swap_pair (l, r) = (r, l)

abbrev pub is_empty : List Machine → Bool
is_empty [] = true
is_empty (m ∷ ms) = false

-- cloud.join
unfoldable pub cloud_join :
    Order
    → (String → Role)
    → String
    → String
    → String
    → Option (List Machine)
    → Option CloudBlueprint
    → View Machine
    → JoinOutcome
unfolding localize machine_roles get_acls
cloud_join o role_of namespace provider region none bp v = list_failed
cloud_join o role_of namespace provider region (some listed) none v = no_blueprint
cloud_join o role_of namespace provider region (some listed) (some bp) v =
    let machines = filter (in_region provider region) (select machine_row o (λ _. true) v) in
    let result = sync_db (machine_roles role_of (localize provider region listed)) machines in
    if namespace != bp.namespace
    then namespace_changed
    else elim (commit_each machine_row associate (map swap_pair result.pairs) v) [
      | none ↦ panicked
      | some w ↦
          joined
            (record {
              acls = if is_empty machines then [] else o.range Acl (keys (get_acls bp));
              boot = result.boot;
              terminate = result.stop;
              update_ips = result.update_ips;
            })
            w
    ]
