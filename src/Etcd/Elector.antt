-- ===== src/Etcd/Elector.antt =====
-- minion/etcd/elector.go: the campaign for the key of the leader, and what is noted of the outcome. What the store
-- answers is an argument; waiting is left out.
use quilt.Prelude.{
  Bool, true, false, Option, none, some, String, List, [], ◌∷◌, ◌==◌, string_eq, if◌then◌else◌,
}
use quilt.Maps.{Order}
use quilt.Db.Table.{View, commit, select}
use quilt.Db.Rows.{Role}
use quilt.Db.EtcdRows.{Etcd, etcd_row}

-- A call of the store on the key, with the address.
pub data Call : Type 0 where
  create_key refresh_key : String → Call

-- The error of a call: none, ErrorCodeNodeExist, or another.
pub data Answer : Type 0 where
  success node_exist failure : Answer

abbrev pub is_master : Role → Bool
is_master Role.master = true
is_master _ = false

-- The call for the rows of the table, which must be one.
abbrev pub call_for : String → List Etcd → Option Call
call_for ip [] = none
call_for ip (row ∷ []) = some (if row.leader then refresh_key ip else create_key ip)
call_for ip (row ∷ row' ∷ rows) = none

-- A round of campaign up to the call; `none` is `continue`.
unfoldable pub campaign_call : Role → String → List Etcd → Option Call
campaign_call role ip rows =
    if is_master role then (if ip == "" then none else call_for ip rows) else none

-- etcdRows[0].Leader = leader; if len(ip) == 1 { etcdRows[0].LeaderIP = ip[0] }
abbrev pub lead : Bool → Option String → Etcd → Etcd
lead leader none row = record row { leader = leader }
lead leader (some ip) row = record row { leader = leader; leader_ip = ip }

-- A commit of the only row, if there is one.
abbrev pub commit_only : (Etcd → Etcd) → List Etcd → View Etcd → Option (View Etcd)
commit_only change [] v = some v
commit_only change (row ∷ []) v = commit etcd_row (change row) v
commit_only change (row ∷ row' ∷ rows) v = some v

-- commitLeader
unfoldable pub commit_leader : Order → Bool → Option String → View Etcd → Option (View Etcd)
commit_leader o leader ip v = commit_only (lead leader ip) (select etcd_row o (λ _. true) v) v

-- The end of a round of campaign.
unfoldable pub campaign_end : Order → Answer → String → View Etcd → Option (View Etcd)
unfolding commit_leader
campaign_end o success ip v = commit_leader o true (some ip) v
campaign_end o node_exist ip v = commit_leader o false none v
campaign_end o failure ip v = commit_leader o false (some "") v

abbrev pub note_leader : String → Etcd → Etcd
note_leader leader row = record row { leader_ip = leader }

-- The body of watchLeader's loop; `leader` is "" if store.Get fails.
unfoldable pub watch_leader : Order → String → View Etcd → Option (View Etcd)
watch_leader o leader v = commit_only (note_leader leader) (select etcd_row o (λ _. true) v) v
