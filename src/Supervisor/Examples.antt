-- ===== src/Supervisor/Examples.antt =====
-- minion/supervisor/: a docker that keeps its containers in a function, and rounds on it.
use quilt.Prelude.{
  Bool, filter, ◌≡◌, refl, sym, true, false, Option, none, some, String, [], ◌∷◌, if◌then◌else◌,
  ◌==◌, string_eq,
}
use quilt.Maps.{in_order}
use quilt.Db.Table.{View, select}
use quilt.Db.MinionRows.{Minion}
use quilt.Db.EtcdRows.{Etcd}
use quilt.Etcd.Minions.{blank_minion}
use quilt.Minion.Server.{minion_self}
use quilt.Supervisor.Run.{Docker, RunOptions, run, options, etcd, ovsdb}
use quilt.Supervisor.Master.{
  Supervisor, read_etcd, master_round, run_master_once, reset_master, start_master,
}
use quilt.Supervisor.Worker.{worker_round}
use quilt.Supervisor.Obeys.{Obeys, is_some}
use quilt.Supervisor.Stale.{rounds_on, rounds_on-stale}

-- What runs under each name, and under which names something is stopped.
abbrev Shelf : Type 0
Shelf = (String → Option RunOptions) × (String → Bool)

abbrev start_on : Shelf → RunOptions → Shelf
start_on (up, down) ro =
    (λ n. if n == ro.name then (if down ro.name then up n else some ro) else up n, down)

abbrev shelf : Docker
shelf = record {
  Containers = Shelf;
  is_running = λ s n. some (is_some (s.0 n));
  start = start_on;
  remove = λ s m. (λ n. if n == m then none else s.0 n, λ n. if n == m then false else s.1 n);
}

start_free :
    (s : Shelf) (ro : RunOptions) (n : String)
    → s.1 ro.name ≡ false
    → (start_on s ro).0 n ≡ (if n == ro.name then some ro else s.0 n)
start_free s ro n f = rw (f) refl

keep : {A : Type 0} (t : Bool) (x : A) → x ≡ (if t then x else x)
keep true x = refl
keep false x = refl

start_refused :
    (s : Shelf) (ro : RunOptions) (n : String) → s.1 ro.name ≡ true → (start_on s ro).0 n ≡ s.0 n
start_refused s ro n f = rw (f) (sym (keep (n == ro.name) (s.0 n)))

shelf-Obeys : Obeys shelf
shelf-Obeys = record {
  running = λ s n. s.0 n;
  stopped = λ s n. s.1 n;
  is_running-lem = λ s n. refl;
  running-start = λ s ro n h f. start_free s ro n f;
  start_taken = λ s ro n f. start_refused s ro n f;
  stopped-start = λ s ro n. refl;
  removes = λ s m. true;
  running-remove = λ s m n. refl;
  stopped-remove = λ s m n. refl;
}

-- A machine on which an etcd of an earlier process runs.
abbrev old_etcd : RunOptions
old_etcd = options etcd ("--name=master-9.9.9.9" ∷ [])

abbrev restarted : Supervisor shelf
restarted = record {
  old_etcd_ips = [];
  old_ip = "";
  containers = (λ n. if n == etcd then some old_etcd else none, λ n. false);
}

abbrev self_row : Minion
self_row = record (blank_minion 1) { self = true; private_ip = "10.0.0.1" }

abbrev minions : View Minion
minions = record { cur_id = 1; rows = self_row ∷ []; should_alert = false }

abbrev row : Etcd
row = record { id = 1; etcd_ips = "10.0.0.1" ∷ []; leader = true; leader_ip = "10.0.0.1" }

abbrev etcds : View Etcd
etcds = record { cur_id = 1; rows = row ∷ []; should_alert = false }

abbrev after : Supervisor shelf
after = master_round shelf "10.0.0.1" row restarted

is_self : minion_self in_order minions ≡ some self_row
unfolding minion_self blank_minion select filter
is_self = refl

abbrev after_worker : Supervisor shelf
after_worker = worker_round shelf (λ name args. true) "10.0.0.1" row restarted

-- A docker whose removals fail.
abbrev stuck : Docker
stuck = record shelf { remove = λ s m. s }

stuck-Obeys : Obeys stuck
stuck-Obeys = record {
  running = λ s n. s.0 n;
  stopped = λ s n. s.1 n;
  is_running-lem = λ s n. refl;
  running-start = λ s ro n h f. start_free s ro n f;
  start_taken = λ s ro n f. start_refused s ro n f;
  stopped-start = λ s ro n. refl;
  removes = λ s m. false;
  running-remove = λ s m n. keep (n == m) (s.0 n);
  stopped-remove = λ s m n. keep (n == m) (s.1 n);
}

abbrev stuck_restarted : Supervisor stuck
stuck_restarted = record {
  old_etcd_ips = [];
  old_ip = "";
  containers = (λ n. if n == etcd then some old_etcd else none, λ n. false);
}

abbrev stuck_after : Supervisor stuck
stuck_after = master_round stuck "10.0.0.1" row stuck_restarted

stuck_round : run_master_once stuck in_order minions etcds stuck_restarted ≡ some stuck_after
unfolding run_master_once blank_minion select filter
stuck_round = refl

rounds_on-stale_example :
    (rounds_on stuck 5 "10.0.0.1" row stuck_after).containers.0 etcd ≡ some old_etcd
unfolding read_etcd blank_minion stuck-Obeys select filter
rounds_on-stale_example =
    rounds_on-stale stuck stuck-Obeys in_order minions etcds stuck_restarted stuck_after self_row
      old_etcd stuck_round is_self refl refl 5

-- On a machine whose ovsdb is stopped, a round does not bring it back.
abbrev crashed : Supervisor shelf
crashed = record restarted { containers = (λ n. none, λ n. n == ovsdb) }

crashed_stays : (master_round shelf "10.0.0.1" row crashed).containers.0 ovsdb ≡ none
unfolding reset_master start_master run
crashed_stays = refl
