-- ===== src/Minion/Server.antt =====
-- minion/server.go: the configuration that a minion is sent, and the one that it answers. sort.Strings is an
-- argument; an `int32` is its bit pattern.
use mathlib.Core.Option
use quilt.Prelude.{ℕ, ◌%◌, ◌^◌, true, Option, none, some, String, List, [], ◌∷◌, strings_join}
use quilt.Maps.{Order}
use quilt.Db.Table.{View, select, commit, insert_row}
use quilt.Db.MinionRows.{Minion}
use quilt.Db.EtcdRows.{Etcd, etcd_row}
use quilt.Etcd.Minions.{minion_row}
use quilt.Foreman.Minions.{MinionConfig, zero_config, role_to_pb}
use quilt.Minion.Lines.{split_lines}

-- Database.MinionSelf on the rows of the minion itself; `none` is a panic.
abbrev pub only_one : {R : Type 0} → List R → Option R
only_one [] = none
only_one (r ∷ []) = some r
only_one (r ∷ r' ∷ rs) = none

unfoldable pub minion_self : Order → View Minion → Option Minion
minion_self o v = only_one (select minion_row o (λ (m : Minion). m.self) v)

-- What Database.GetEtcd gives: a row, an error, or a panic.
pub data GotEtcd : Type 0 where
  row : Etcd → GotEtcd
  no_row panics : GotEtcd

abbrev pub got : List Etcd → GotEtcd
got [] = no_row
got (r ∷ []) = row r
got (r ∷ r' ∷ rs) = panics

unfoldable pub get_etcd : Order → View Etcd → GotEtcd
get_etcd o v = got (select etcd_row o (λ _. true) v)

abbrev pub int32 : ℕ → ℕ
int32 n = n % 2 ^ 32

-- The fields of the answer that come from the row of the minion.
abbrev pub config_of : Minion → MinionConfig
config_of m = record zero_config {
  role = role_to_pb m.role;
  private_ip = m.private_ip;
  blueprint = m.blueprint;
  provider = m.provider;
  size = m.size;
  region = m.region;
  disk_size = int32 m.disk_size;
  authorized_keys = split_lines m.authorized_keys;
}

-- GetMinionConfig; `none` is a panic.
unfoldable pub get_minion_config : Order → View Minion → View Etcd → Option MinionConfig
unfolding minion_self get_etcd
get_minion_config o minions etcds = elim (minion_self o minions) [
  | none ↦ none
  | some m ↦ elim (get_etcd o etcds) [
    | row e ↦ some (record (config_of m) { etcd_members = e.etcd_ips })
    | no_row ↦ some (config_of m)
    | panics ↦ none
  ]
]

abbrev pub with_config : MinionConfig → Minion → Minion
with_config msg m = record m {
  private_ip = msg.private_ip;
  blueprint = msg.blueprint;
  provider = msg.provider;
  size = msg.size;
  region = msg.region;
  floating_ip = msg.floating_ip;
  disk_size = msg.disk_size;
  authorized_keys = strings_join "\n" msg.authorized_keys;
  self = true;
}

module _ (sort : List String → List String) where
  abbrev pub with_members : MinionConfig → Etcd → Etcd
  with_members msg e = record e { etcd_ips = sort msg.etcd_members }

  -- The change of the row of etcd.
  unfoldable pub set_etcd : Order → MinionConfig → View Etcd → Option (View Etcd)
  unfolding get_etcd
  set_etcd o msg v = elim (get_etcd o v) [
    | row e ↦ commit etcd_row (with_members msg e) v
    | no_row ↦ let (e, w) = insert_row etcd_row v in commit etcd_row (with_members msg e) w
    | panics ↦ none
  ]

  -- The transaction of SetMinionConfig; `none` is a panic.
  unfoldable pub set_minion_config :
      Order → MinionConfig → View Minion → View Etcd → Option (View Minion × View Etcd)
  unfolding minion_self set_etcd
  set_minion_config o msg minions etcds = elim (minion_self o minions) [
    | none ↦ none
    | some m ↦ elim (commit minion_row (with_config msg m) minions) [
      | none ↦ none
      | some v ↦ Option.map (λ w. (v, w)) (set_etcd o msg etcds)
    ]
  ]
