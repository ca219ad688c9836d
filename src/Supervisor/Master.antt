-- ===== src/Supervisor/Master.antt =====
-- minion/supervisor/master.go: the rounds of a master.
use Prim.Native.String.{◌++◌ as append}
use quilt.Prelude.{
  Bool, true, false, ◌||◌, not, Option, none, some, String, List, [], ◌∷◌, if◌then◌else◌, ◌==◌,
  ◌!=◌, string_eq,
}
use quilt.Maps.{Order}
use quilt.Db.Table.{View, select}
use quilt.Db.MinionRows.{Minion}
use quilt.Db.EtcdRows.{Etcd, blank_etcd, etcd_row}
use quilt.Minion.Server.{minion_self}
use quilt.Scheduler.Make.{same_strings}
use quilt.Scheduler.Worker.{is_nil}
use quilt.Supervisor.Run.{Docker, run, initial_cluster_string, etcd, ovsdb, registry, ovnnorthd}

-- var etcdRow db.Etcd; …
abbrev pub only_row : List Etcd → Etcd
only_row [] = blank_etcd 0
only_row (e ∷ []) = e
only_row (e ∷ e' ∷ es) = blank_etcd 0

unfoldable pub read_etcd : Order → View Etcd → Etcd
read_etcd o v = only_row (select etcd_row o (λ _. true) v)

abbrev pub heartbeat_interval : String
heartbeat_interval = "--heartbeat-interval=500"

abbrev pub election_timeout : String
election_timeout = "--election-timeout=5000"

abbrev pub master_args : String → List String → List String
master_args ip etcd_ips =
    append "--name=master-" ip
    ∷ append "--initial-cluster=" (initial_cluster_string etcd_ips)
    ∷ append "--advertise-client-urls=http://" (append ip ":2379")
    ∷ append "--listen-peer-urls=http://" (append ip ":2380")
    ∷ append "--initial-advertise-peer-urls=http://" (append ip ":2380")
    ∷ "--listen-client-urls=http://0.0.0.0:2379"
    ∷ heartbeat_interval
    ∷ "--initial-cluster-state=new"
    ∷ election_timeout
    ∷ []

module _ (dk : Docker) where
  -- The variables of the package, and the containers of the machine.
  pub record Supervisor : Type 0 where
    pub old_etcd_ips : List String
    pub old_ip : String
    pub containers : dk.Containers

  abbrev pub boot_master : dk.Containers → dk.Containers
  boot_master s = run dk registry [] (run dk ovsdb ("ovsdb-server" ∷ []) s)

  abbrev pub lead : Bool → dk.Containers → dk.Containers
  lead true s = run dk ovnnorthd ("ovn-northd" ∷ []) s
  lead false s = dk.remove s ovnnorthd

  -- The first test, and the removal.
  unfoldable pub reset_master : String → List String → Supervisor → dk.Containers
  reset_master ip etcd_ips s =
      if s.old_ip != ip || not (same_strings s.old_etcd_ips etcd_ips)
      then dk.remove s.containers etcd
      else s.containers

  -- The containers after the rest of the round.
  unfoldable pub start_master : String → Etcd → dk.Containers → dk.Containers
  start_master ip row s =
      if ip == "" || is_nil row.etcd_ips
      then s
      else lead row.leader (boot_master (run dk etcd (master_args ip row.etcd_ips) s))

  abbrev pub master_round : String → Etcd → Supervisor → Supervisor
  master_round ip row s = record {
    old_etcd_ips = row.etcd_ips;
    old_ip = ip;
    containers = start_master ip row (reset_master ip row.etcd_ips s);
  }

  -- runMasterOnce; `none` is a panic of MinionSelf.
  unfoldable pub run_master_once : Order → View Minion → View Etcd → Supervisor → Option Supervisor
  unfolding minion_self read_etcd reset_master start_master
  run_master_once o minions etcds s = elim (minion_self o minions) [
    | none ↦ none
    | some m ↦ some (master_round m.private_ip (read_etcd o etcds) s)
  ]
