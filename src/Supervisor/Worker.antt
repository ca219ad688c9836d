-- ===== src/Supervisor/Worker.antt =====
-- minion/supervisor/worker.go: the rounds of a worker. Whether a command of ovs-vsctl succeeds is an argument.
use Prim.Native.String.{◌++◌ as append}
use quilt.Prelude.{
  Bool, ◌||◌, not, Option, none, some, String, List, [], ◌∷◌, if◌then◌else◌, ◌==◌, string_eq,
}
use quilt.Maps.{Order}
use quilt.Db.Table.{View}
use quilt.Db.MinionRows.{Minion}
use quilt.Db.EtcdRows.{Etcd}
use quilt.Minion.Server.{minion_self}
use quilt.Scheduler.Make.{same_strings}
use quilt.Supervisor.Run.{
  Docker, run, initial_cluster_string, etcd, ovsdb, ovsvswitchd, monitor, ovncontroller,
}
use quilt.Supervisor.Master.{Supervisor, read_etcd, heartbeat_interval, election_timeout}

abbrev pub worker_args : List String → List String
worker_args etcd_ips =
    append "--initial-cluster=" (initial_cluster_string etcd_ips)
    ∷ heartbeat_interval
    ∷ election_timeout
    ∷ "--proxy=on"
    ∷ []

abbrev pub monitor_args : List String
monitor_args =
    "--storage_duration=5m0s" ∷ "--allow_dynamic_housekeeping=true"
    ∷ "--global_housekeeping_interval=3m0s" ∷ "--housekeeping_interval=1s" ∷ []

abbrev pub tunneling_protocol : String
tunneling_protocol = "stt"

-- The arguments of ovs-vsctl, for the address of the leader and that of the minion.
abbrev pub ovs_args : String → String → List String
ovs_args leader_ip ip =
    "set"
    ∷ "Open_vSwitch"
    ∷ "."
    ∷ append "external_ids:ovn-remote=\"tcp:" (append leader_ip ":6640\"")
    ∷ append "external_ids:ovn-encap-ip=" ip
    ∷ append "external_ids:ovn-encap-type=\"" (append tunneling_protocol "\"")
    ∷ append "external_ids:api_server=\"http://" (append leader_ip ":9000\"")
    ∷ append "external_ids:system-id=\"" (append ip "\"")
    ∷ []

module _ (dk : Docker) (exec_run : String → List String → Bool) where
  unfoldable pub reset_worker : List String → Supervisor dk → dk.Containers
  reset_worker etcd_ips s =
      if not (same_strings s.old_etcd_ips etcd_ips)
      then dk.remove s.containers etcd
      else s.containers

  unfoldable pub boot_worker : dk.Containers → dk.Containers
  boot_worker s =
      run dk ovsvswitchd ("ovs-vswitchd" ∷ [])
        (run dk ovsdb ("ovsdb-server" ∷ []) (run dk monitor monitor_args s))

  -- The end of the round, from the test of the addresses.
  unfoldable pub control : String → String → dk.Containers → dk.Containers
  control leader_ip ip s =
      if leader_ip == "" || ip == ""
      then s
      else if exec_run "ovs-vsctl" (ovs_args leader_ip ip)
      then run dk ovncontroller ("ovn-controller" ∷ []) s
      else s

  abbrev pub worker_round : String → Etcd → Supervisor dk → Supervisor dk
  worker_round ip row s = record s {
    old_etcd_ips = row.etcd_ips;
    containers =
        control row.leader_ip ip
          (boot_worker (run dk etcd (worker_args row.etcd_ips) (reset_worker row.etcd_ips s)));
  }

  -- runWorkerOnce; `none` is a panic of MinionSelf.
  unfoldable pub run_worker_once :
      Order → View Minion → View Etcd → Supervisor dk → Option (Supervisor dk)
  unfolding minion_self read_etcd reset_worker boot_worker control
  run_worker_once o minions etcds s = elim (minion_self o minions) [
    | none ↦ none
    | some m ↦ some (worker_round m.private_ip (read_etcd o etcds) s)
  ]
