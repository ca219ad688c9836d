-- ===== src/Etcd/Examples.antt =====
-- minion/etcd/: a round of the leader and one of a worker.
use mathlib.Core.List.{Nodup-cons, Nodup-nil, not-mem-nil}
use mathlib.Core.List.Perm
use quilt.Prelude.{
  ◌==◌, string_eq, List, Nodup, ◌++◌, not, map, false, ◌≡◌, String, Perm, refl, true, some, none,
  [], ◌∷◌, arith, filter,
}
use quilt.Maps.{in_order}
use quilt.Db.Table.{View, IsValid, select}
use quilt.Db.EtcdRows.{Hostname, hostname_row}
use quilt.Db.MinionRows.{Minion, Container, blank_container, container_row}
use quilt.Etcd.Containers.{carried, join_containers, join_containers-carried}
use quilt.Etcd.Store.{Codec, hostname_key, run_hostname_once}
use quilt.Etcd.Minions.{blank_minion, minion_row, minion_key, read_minion, read_minion-keys}
use quilt.Etcd.Replicate.{IsReplicated, hostnames-IsReplicated}

abbrev host : Hostname
host = record { id = 4; hostname = "web"; ip = "10.0.0.9" }

abbrev old_host : Hostname
old_host = record { id = 1; hostname = "web"; ip = "10.0.0.3" }

-- A coding that knows two texts.
abbrev hostname_codec : Codec Hostname
hostname_codec = record {
  sort = λ rs. rs;
  sort-perm = Perm.refl;
  marshal = λ rs. some "[web]";
  unmarshal = λ s. record host { id = 0 } ∷ [];
}

abbrev leader_hosts : View Hostname
leader_hosts = record { cur_id = 4; rows = host ∷ []; should_alert = true }

abbrev worker_hosts : View Hostname
worker_hosts = record { cur_id = 1; rows = old_host ∷ []; should_alert = true }

worker_hosts-IsValid : IsValid hostname_row worker_hosts
worker_hosts-IsValid = record {
  distinct = Nodup-cons.1 (not-mem-nil, Nodup-nil);
  allocated = (omega arith, tt);
}

hostnames-IsReplicated_example :
    IsReplicated hostname_row hostname_key
      (run_hostname_once in_order hostname_codec)
      none
      leader_hosts
      worker_hosts
unfolding select filter
hostnames-IsReplicated_example =
    hostnames-IsReplicated in_order hostname_codec none leader_hosts worker_hosts "[web]"
      worker_hosts-IsValid (Nodup-cons.1 (not-mem-nil, Nodup-nil)) refl refl

abbrev web : String → Container
web minion = record (blank_container 3) { hostname = "web"; ip = "10.0.0.9"; minion = minion }

abbrev table : View Container
table = record { cur_id = 3; rows = web "m1" ∷ []; should_alert = false }

table-IsValid : IsValid container_row table
unfolding blank_container
table-IsValid = record {
  distinct = Nodup-cons.1 (not-mem-nil, Nodup-nil);
  allocated = (omega arith, tt);
}

join_containers-carried_example :
    (w : View Container) × (join_containers in_order (λ s. "") (λ m. "") (web "m2" ∷ []) table
      ≡ some w)
    × IsValid container_row w
    × Perm (map carried w.rows) (map carried (web "m2" ∷ []))
join_containers-carried_example =
    join_containers-carried in_order (λ s. "") (λ m. "") (web "m2" ∷ []) table table-IsValid
      (Nodup-cons.1 (not-mem-nil, Nodup-nil))

abbrev self_row : Minion
self_row = record (blank_minion 1) { self = true; private_ip = "10.1.0.1" }

abbrev minion_table : View Minion
minion_table = record { cur_id = 1; rows = self_row ∷ []; should_alert = false }

minion_table-IsValid : IsValid minion_row minion_table
unfolding blank_minion
minion_table-IsValid = record {
  distinct = Nodup-cons.1 (not-mem-nil, Nodup-nil);
  allocated = (omega arith, tt);
}

no_others : Nodup (
    map
      (minion_key in_order (λ s. ""))
      (filter (λ (m : Minion). not m.self) (select minion_row in_order (λ _. true) minion_table)))
unfolding filter select
no_others = Nodup-nil

-- The store has the minion itself and another one.
abbrev stored : List Minion
stored = record (blank_minion 0) { private_ip = "10.1.0.1" } ∷ blank_minion 0 ∷ []

one_self :
    filter (λ (m : Minion). m.self) (select minion_row in_order (λ _. true) minion_table)
    ≡ self_row ∷ []
unfolding filter select blank_minion
one_self = refl

read_minion-keys_example :
    (w : View Minion) × (read_minion in_order (λ s. "") stored minion_table ≡ some w)
    × IsValid minion_row w
    × ((others : List Minion) × Perm w.rows (others ++ self_row ∷ [])
        × Perm (map (minion_key in_order (λ s. "")) others) (
            map
              (minion_key in_order (λ s. ""))
              (filter (λ (m : Minion). not (self_row.private_ip == m.private_ip)) stored)))
read_minion-keys_example =
    read_minion-keys in_order (λ s. "") stored minion_table self_row minion_table-IsValid one_self
      no_others
