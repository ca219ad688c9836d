-- ===== src/Etcd/Election.antt =====
-- minion/etcd/elector.go: any number of minions that campaign for one key, as steps between states. The key runs
-- out when nobody refreshes it in time; a call may be carried out although its answer is lost.
use quilt.Prelude.{
  ℕ, suc, ◌≡◌, ◌⊎◌, true, Option, none, some, String, ◌==◌, nat_eq, string_eq, if◌then◌else◌,
}
use quilt.Maps.{Order}
use quilt.Db.Table.{View, empty_view, select}
use quilt.Db.Rows.{Role}
use quilt.Db.EtcdRows.{Etcd, etcd_row, only_leads}
use quilt.Etcd.Elector.{
  Call, create_key, refresh_key, Answer, success, node_exist, failure, campaign_call, campaign_end,
  watch_leader,
}

-- What etcd documents: Create wants that there is no such key, Refresh that it has the value already.
abbrev pub serve : Call → Option String → Answer × Option String
serve (create_key ip) none = (success, some ip)
serve (create_key ip) (some holder) = (node_exist, some holder)
serve (refresh_key ip) none = (failure, none)
serve (refresh_key ip) (some holder) =
    if holder == ip then (success, some holder) else (failure, some holder)

-- Where the loop of campaign is: before a call, or after one that was answered in some lease of the key.
pub data Phase : Type 0 where
  waiting : Phase
  answered : Answer → ℕ → Phase

-- The key, the number of leases that have run out, and of each minion the rows of the table, the phase, and the
-- lease in which the last outcome that it has noted was answered, whichever it was.
pub record State : Type 0 where
  pub key : Option String
  pub leases : ℕ
  pub table : ℕ → View Etcd
  pub phase : ℕ → Phase
  pub noted : ℕ → ℕ

abbrev pub start : State
start = record {
  key = none;
  leases = 0;
  table = λ i. empty_view;
  phase = λ i. waiting;
  noted = λ i. 0;
}

abbrev pub set_at : {A : Type 0} → (ℕ → A) → ℕ → A → ℕ → A
set_at f i a j = if j == i then a else f j

-- `ip i` is the private address of the minion `i`.
module _ (o : Order) (ip : ℕ → String) where
  pub data Step (s t : State) : Type 0 where
    -- The loop of campaign up to the answer of the store.
    campaign :
        (i : ℕ) (role : Role) (c : Call)
        → s.phase i ≡ waiting
        → campaign_call role (ip i) (select etcd_row o (λ _. true) (s.table i)) ≡ some c
        → t ≡ record s {
          key = (serve c s.key).1;
          phase = set_at s.phase i (answered (serve c s.key).0 s.leases);
        }
        → Step s t
    -- The answer is lost, whether or not the call was carried out.
    lose :
        (i : ℕ) (role : Role) (c : Call) (key' : Option String)
        → s.phase i ≡ waiting
        → campaign_call role (ip i) (select etcd_row o (λ _. true) (s.table i)) ≡ some c
        → (key' ≡ s.key) ⊎ (key' ≡ (serve c s.key).1)
        → t ≡ record s { key = key'; phase = set_at s.phase i (answered failure s.leases) }
        → Step s t
    -- The outcome is noted.
    finish :
        (i : ℕ) (a : Answer) (lease : ℕ) (v : View Etcd)
        → s.phase i ≡ answered a lease
        → campaign_end o a (ip i) (s.table i) ≡ some v
        → t ≡ record s {
          table = set_at s.table i v;
          phase = set_at s.phase i waiting;
          noted = set_at s.noted i lease;
        }
        → Step s t
    -- watchLeader notes what it read.
    watch :
        (i : ℕ) (leader : String) (v : View Etcd)
        → watch_leader o leader (s.table i) ≡ some v
        → t ≡ record s { table = set_at s.table i v }
        → Step s t
    -- Another transaction changes the table, and does not make the minion the leader.
    configure :
        (i : ℕ) (v : View Etcd)
        → (only_leads v.rows ≡ true → only_leads (s.table i).rows ≡ true)
        → t ≡ record s { table = set_at s.table i v }
        → Step s t
    -- The lease runs out.
    expire : t ≡ record s { key = none; leases = suc s.leases } → Step s t

  pub data Reach : State → Type 0 where
    here : Reach start
    next : {s t : State} → Reach s → Step s t → Reach t
