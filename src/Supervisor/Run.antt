-- ===== src/Supervisor/Run.antt =====
-- minion/supervisor/supervisor.go: `run` and `Remove`, on the client of docker, whose containers are a state.
use Prim.Native.String.{◌++◌ as append}
use quilt.Prelude.{
  Bool, true, false, Option, none, some, String, List, [], ◌∷◌, map, if◌then◌else◌, ◌==◌, string_eq,
  strings_join,
}
use quilt.Db.Rows.{StringMap}
use quilt.Scheduler.Worker.{lookup}

-- minion/supervisor/images
abbrev pub etcd : String
etcd = "etcd"

abbrev pub ovncontroller : String
ovncontroller = "ovn-controller"

abbrev pub ovnnorthd : String
ovnnorthd = "ovn-northd"

abbrev pub ovsdb : String
ovsdb = "ovsdb-server"

abbrev pub ovsvswitchd : String
ovsvswitchd = "ovs-vswitchd"

abbrev pub registry : String
registry = "registry"

abbrev pub monitor : String
monitor = "cadvisor"

abbrev pub ovs_image : String
ovs_image = "quilt/ovs"

abbrev pub image_map : StringMap
image_map =
    (etcd, "quay.io/coreos/etcd:v3.0.2")
    ∷ (ovncontroller, ovs_image)
    ∷ (ovnnorthd, ovs_image)
    ∷ (ovsdb, ovs_image)
    ∷ (ovsvswitchd, ovs_image)
    ∷ (registry, "registry:2")
    ∷ (monitor, "google/cadvisor:v0.24.1")
    ∷ []

-- The fields of docker.RunOptions that this part sets.
pub record RunOptions : Type 0 where
  pub name : String
  pub image : String
  pub args : List String
  pub network_mode : String
  pub privileged : Bool
  pub volumes_from : List String
  pub binds : List String
  pub external_port : String
  pub host_ip : String
  pub host_port : String
  pub publish_all_ports : Bool

-- The methods of docker.Client that this part calls; `is_running` may fail. The errors of the others are only
-- logged, so that their states say what they did.
pub record Docker : Type 1 where
  pub Containers : Type 0
  pub is_running : Containers → String → Option Bool
  pub start : Containers → RunOptions → Containers
  pub remove : Containers → String → Containers

abbrev pub base_options : String → List String → RunOptions
base_options name args = record {
  name = name;
  image = lookup image_map name;
  args = args;
  network_mode = "host";
  privileged = true;
  volumes_from = "minion" ∷ [];
  binds = [];
  external_port = "";
  host_ip = "";
  host_port = "";
  publish_all_ports = false;
}

-- The options that `run` makes. All three assignments to Privileged say true, and the last is always made.
abbrev pub options : String → List String → RunOptions
options name args =
    if name == monitor
    then record (base_options name args) {
      binds =
          "/:/rootfs:ro" ∷ "/var/run:/var/run:rw" ∷ "/sys:/sys:ro"
          ∷ "/var/lib/docker/:/var/lib/docker:ro" ∷ [];
      external_port = "50000/tcp";
      host_port = "50000";
      host_ip = "0.0.0.0";
      publish_all_ports = true;
    }
    else base_options name args

module _ (dk : Docker) where
  unfoldable pub run : String → List String → dk.Containers → dk.Containers
  run name args s = elim (dk.is_running s name) [
    | none ↦ s
    | some true ↦ s
    | some false ↦ dk.start s (options name args)
  ]

abbrev pub node_name : String → String
node_name ip = append "master-" ip

abbrev pub member : String → String
member ip = append (node_name ip) (append "=http://" (append ip ":2380"))

abbrev pub initial_cluster_string : List String → String
initial_cluster_string etcd_ips = strings_join "," (map member etcd_ips)
