-- ===== src/Supervisor/Proxy.antt =====
-- minion/supervisor/worker.go: any number of rounds of a worker, and what its containers are.
use quilt.Prelude.{Bool, ◌≡◌, Option, some, String, List, [], string_eq}
use quilt.Maps.{Order}
use quilt.Db.Table.{View}
use quilt.Db.MinionRows.{Minion}
use quilt.Db.EtcdRows.{Etcd}
use quilt.Supervisor.Run.{Docker, options, etcd}
use quilt.Supervisor.Obeys.{Obeys, IsWanted}
use quilt.Supervisor.Master.{Supervisor}
use quilt.Supervisor.Worker.{worker_args, run_worker_once}

module _ (dk : Docker) (b : Obeys dk) where
  open b use {running, stopped}

  abbrev IsCurrent : List String → dk.Containers → Type 0
  IsCurrent etcd_ips = IsWanted dk b (etcd_ips ≡ []) (options etcd (worker_args etcd_ips))

  -- A round of a worker on whatever rows there are, whatever ovs-vsctl does.
  pub data WorkerRound (s t : Supervisor dk) : Type 1 where
    round :
        (exec_run : String → List String → Bool) (o : Order) (minions : View Minion)
        (etcds : View Etcd)
        → run_worker_once dk exec_run o minions etcds s ≡ some t
        → WorkerRound s t
