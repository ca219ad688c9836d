-- ===== src/Etcd/Store.antt =====
-- minion/etcd/util.go, hostname.go and connection.go: the rounds that carry a table from the leader to the
-- other minions. The store is the content of one path, if it has any. Whether a call of the store fails is
-- an argument, as are the sorting of rows and their coding as JSON.
use mathlib.Core.Option
use quilt.Prelude.{
  Bool, true, false, Option, none, some, String, List, Perm, ◌!=◌, string_eq, if◌then◌else◌,
}
use quilt.Maps.{Order}
use quilt.Join.Hash.{hash_join}
use quilt.Db.Table.{View, select}
use quilt.Db.Refresh.{refresh}
use quilt.Db.EtcdRows.{Hostname, Hostname-discrete, hostname_row}
use quilt.Db.MinionRows.{Connection, Connection-discrete, connection_row}

-- What store.Get answers.
pub data Got : Type 0 where
  found : String → Got
  key_not_found get_failed : Got

-- readEtcdNode
unfoldable pub read_etcd_node : Got → Option String
read_etcd_node (found s) = some s
read_etcd_node key_not_found = some ""
read_etcd_node get_failed = none

-- What a store without failures answers.
abbrev pub working : Option String → Got
working none = key_not_found
working (some s) = found s

-- sort.Sort, jsonMarshal and json.Unmarshal on the rows of a table.
pub record Codec (R : Type 0) : Type 0 where
  pub sort : List R → List R
  pub sort-perm : (rs : List R) → Perm (sort rs) rs
  pub marshal : List R → Option String
  pub unmarshal : String → List R

-- What a round leaves: the content of the path, the table, and whether there was no error.
pub record Round (R : Type 0) : Type 0 where
  pub node : Option String
  pub view : View R
  pub ok : Bool

module _ {R : Type 0} (codec : Codec R) where
  -- writeEtcdSlice; `accepts` tells whether store.Set succeeds.
  unfoldable pub write_etcd_slice : Bool → String → List R → Option String → Option String × Bool
  write_etcd_slice accepts old new node = elim (codec.marshal (codec.sort new)) [
    | none ↦ (node, false)
    | some new_str ↦
        if new_str != old
        then (if accepts then (some new_str, true) else (node, false))
        else (node, true)
  ]

  -- The shape of runHostnameOnce and runConnectionOnce; `none` is a panic of the database.
  unfoldable pub run_round :
      (List R → View R → Option (View R))
      → (View R → List R)
      → Bool
      → Got
      → Bool
      → Option String
      → View R
      → Option (Round R)
  unfolding read_etcd_node write_etcd_slice
  run_round join rows leader got accepts node v = elim (read_etcd_node got) [
    | none ↦ some (record { node = node; view = v; ok = false })
    | some etcd_str ↦
        if leader
        then (let (n, ok) = write_etcd_slice accepts etcd_str (rows v) node in
            some (record { node = n; view = v; ok = ok }))
        else Option.map (λ w. record { node = node; view = w; ok = true })
            (join (codec.unmarshal etcd_str) v)
  ]

abbrev pub hostname_key : Hostname → Hostname
hostname_key h = record h { id = 0 }

abbrev pub with_hostname_id : Hostname → Hostname → Hostname
with_hostname_id etcd_hostname db_hostname = record etcd_hostname { id = db_hostname.id }

-- joinHostnames of hostname.go
unfoldable pub join_hostnames : Order → List Hostname → View Hostname → Option (View Hostname)
join_hostnames o etcd_hostnames v =
    let j =
      hash_join Hostname-discrete hostname_key hostname_key o (select hostname_row o (λ _. true) v)
        etcd_hostnames in
    refresh hostname_row with_hostname_id j.lonely_rights j.lonely_lefts v

unfoldable pub run_hostname_once :
    Order
    → Codec Hostname
    → Bool
    → Got
    → Bool
    → Option String
    → View Hostname
    → Option (Round Hostname)
unfolding run_round join_hostnames
run_hostname_once o codec = run_round codec (join_hostnames o) (select hostname_row o (λ _. true))

abbrev pub connection_id_key : Connection → Connection
connection_id_key c = record c { id = 0 }

abbrev pub with_connection_id : Connection → Connection → Connection
with_connection_id etcd_conn conn = record etcd_conn { id = conn.id }

-- joinConnections
unfoldable pub join_connections :
    Order → List Connection → View Connection → Option (View Connection)
join_connections o etcd_conns v =
    let j =
      hash_join Connection-discrete connection_id_key connection_id_key o
        (select connection_row o (λ _. true) v) etcd_conns in
    refresh connection_row with_connection_id j.lonely_rights j.lonely_lefts v

unfoldable pub run_connection_once :
    Order
    → Codec Connection
    → Bool
    → Got
    → Bool
    → Option String
    → View Connection
    → Option (Round Connection)
unfolding run_round join_connections
run_connection_once o codec =
    run_round codec (join_connections o) (select connection_row o (λ _. true))
