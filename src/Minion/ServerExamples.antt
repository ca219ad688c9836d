-- ===== src/Minion/ServerExamples.antt =====
-- minion/server.go: a configuration of a minion without a row of etcd.
use mathlib.Core.List.Perm
use mathlib.Core.List.{Nodup-cons, Nodup-nil, not-mem-nil}
use quilt.Prelude.{◌≡◌, refl, true, some, String, List, [], ◌∷◌, arith, strings_join}
use quilt.Maps.{in_order}
use quilt.Db.Table.{View, IsValid, empty_view}
use quilt.Db.MinionRows.{Minion}
use quilt.Db.EtcdRows.{Etcd, etcd_row}
use quilt.Etcd.Minions.{minion_row, blank_minion}
use quilt.Foreman.Minions.{MinionConfig, zero_config, role_to_pb}
use quilt.Minion.Lines.{split_lines}
use quilt.Minion.Server.{set_minion_config, get_minion_config}
use quilt.Minion.RoundTrip.{config_round_trip}

abbrev self_row : Minion
self_row = record (blank_minion 1) { self = true }

abbrev minions : View Minion
minions = record { cur_id = 1; rows = self_row ∷ []; should_alert = true }

abbrev etcds : View Etcd
etcds = empty_view

minions-IsValid : IsValid minion_row minions
unfolding blank_minion
minions-IsValid = record {
  distinct = Nodup-cons.1 (not-mem-nil, Nodup-nil);
  allocated = (omega arith, tt);
}

etcds-IsValid : IsValid etcd_row etcds
etcds-IsValid = record { distinct = Nodup-nil; allocated = tt }

abbrev config : MinionConfig
config = record zero_config {
  private_ip = "10.0.0.4";
  disk_size = 32;
  etcd_members = "10.0.0.5" ∷ [];
  authorized_keys = "a" ∷ "b" ∷ [];
}

abbrev sort : List String → List String
sort xs = xs

-- No keys come back as one empty key.
no_keys : split_lines (strings_join "\n" []) ≡ "" ∷ []
unfolding split_lines
no_keys = refl

config_round_trip_example :
    (w : View Minion × View Etcd) × (set_minion_config sort in_order config minions etcds ≡ some w)
    × (get_minion_config in_order w.0 w.1
        ≡ some (record config {
          id = "";
          role = role_to_pb self_row.role;
          floating_ip = "";
          etcd_members = sort config.etcd_members;
        }))
config_round_trip_example =
    config_round_trip sort in_order config "a" ("b" ∷ []) minions self_row [] etcds minions-IsValid
      (Perm.refl (self_row ∷ []), refl, tt) etcds-IsValid (omega arith) (omega arith) refl
      ((refl, tt), ((refl, tt), tt))
