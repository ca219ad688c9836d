-- ===== src/Db/Locks.antt =====
-- db/db.go: `Txn`, `lockTables`, `unlockTables` and `Run`, as steps of concurrent transactions. A thread
-- is a number; a mutex is free or has an owner. What the closure of a transaction does to the tables is
-- its own business here.
use mathlib.Core.List.{List}
use quilt.Prelude.{
  ℕ, ◌≡◌, Option, none, some, [], ◌∷◌, Nodup, Perm, All, test, if◌then◌else◌, ◌==◌, nat_eq, false,
}
use quilt.Db.Tables.{TableType, TableType-discrete, table_less}

-- Of a sorted slice no element is before an earlier one.
abbrev pub IsSorted : List TableType → Type 0
IsSorted [] = Unit
IsSorted (t ∷ ts) = All (λ u. table_less u t ≡ false) ts × IsSorted ts

-- sort.Sort over a tableSlice.
pub record SortTables : Type 0 where
  pub sort : List TableType → List TableType
  pub sort-perm : (ts : List TableType) → Perm (sort ts) ts
  pub sort-IsSorted : (ts : List TableType) → IsSorted (sort ts)

-- Where a thread is: outside a transaction, in the loop of `lockTables` with the locks that it has and
-- those that it still takes, or in `unlockTables` with those that it still has.
pub data Phase : Type 0 where
  idle : Phase
  locking : List TableType → List TableType → Phase
  unlocking : List TableType → Phase

abbrev pub held : Phase → List TableType
held idle = []
held (locking has todo) = has
held (unlocking has) = has

pub record State : Type 0 where
  pub owner : TableType → Option ℕ
  pub phase : ℕ → Phase

abbrev pub start : State
start = record { owner = λ t. none; phase = λ i. idle }

abbrev pub set_owner : State → TableType → Option ℕ → TableType → Option ℕ
set_owner s t o u = if test (TableType-discrete u t) then o else s.owner u

abbrev pub set_phase : State → ℕ → Phase → ℕ → Phase
set_phase s i p j = if j == i then p else s.phase j

-- A step of a thread inside a transaction.
pub data Move (s : State) (t : State) : Type 0 where
  -- tr.db.tables[tt].Lock(), which waits while the mutex has an owner.
  lock :
      (i : ℕ) (u : TableType) (has todo : List TableType)
      → s.phase i ≡ locking has (u ∷ todo)
      → s.owner u ≡ none
      → t
        ≡ record { owner = set_owner s u (some i); phase = set_phase s i (locking (u ∷ has) todo) }
      → Move s t
  -- The closure runs, and `unlockTables` goes over the tables in some order.
  run :
      (i : ℕ) (has order : List TableType)
      → s.phase i ≡ locking has []
      → Perm order has
      → t ≡ record s { phase = set_phase s i (unlocking order) }
      → Move s t
  -- t.Unlock()
  unlock :
      (i : ℕ) (u : TableType) (has : List TableType)
      → s.phase i ≡ unlocking (u ∷ has)
      → t ≡ record { owner = set_owner s u none; phase = set_phase s i (unlocking has) }
      → Move s t
  end : (i : ℕ) → s.phase i ≡ unlocking [] → t ≡ record s { phase = set_phase s i idle } → Move s t

module _ (lib : SortTables) where
  pub data Step (s : State) (t : State) : Type 0 where
    -- Txn(tables...).Run(do): the tables are the keys of a map, so they are distinct.
    begin :
        (i : ℕ) (tables : List TableType)
        → Nodup tables
        → s.phase i ≡ idle
        → t ≡ record s { phase = set_phase s i (locking [] (lib.sort tables)) }
        → Step s t
    move : Move s t → Step s t

  pub data Reach : State → Type 0 where
    here : Reach start
    next : {s t : State} → Reach s → Step s t → Reach t
