-- ===== src/Db/Table.antt =====
-- db/db.go, db/table.go: the operations of a transaction on one table. A Go map from ids to rows is
-- kept as its rows, since every write stores a row under the row's own id.
use quilt.Prelude.{
  ℕ, suc, ◌≡◌, ◌≤◌, Bool, true, false, not, ◌||◌, Option, none, some, List, [], ◌∷◌, map, filter,
  if◌then◌else◌, ◌==◌, test, Nodup, All, nat_eq,
}
use quilt.Maps.{Order}

-- What the database asks of a row type: `getID`, the row with an id and nothing else, and equality
-- of all fields (reflect.DeepEqual).
pub record Row (R : Type 0) : Type 0 where
  pub get_id : R → ℕ
  pub blank : ℕ → R
  pub blank-id : (n : ℕ) → get_id (blank n) ≡ n
  pub deep_equal : Discrete R

-- A transaction's view of the table of one row type, with the id counter.
pub record View (R : Type 0) : Type 0 where
  pub cur_id : ℕ
  pub rows : List R
  pub should_alert : Bool

abbrev pub empty_view : {R : Type 0} → View R
empty_view = record { cur_id = 0; rows = []; should_alert = false }

module _ {R : Type 0} (row : Row R) where
  -- table.rows[id]
  unfoldable pub find : List R → ℕ → Option R
  find [] i = none
  find (x ∷ xs) i = if row.get_id x == i then some x else find xs i

  -- table.rows[r.getID()] = r
  unfoldable pub store : R → List R → List R
  store r [] = r ∷ []
  store r (x ∷ xs) = if row.get_id x == row.get_id r then r ∷ xs else x ∷ store r xs

  -- delete(table.rows, id)
  unfoldable pub delete_row : ℕ → List R → List R
  delete_row i [] = []
  delete_row i (x ∷ xs) = let rest = delete_row i xs in if row.get_id x == i then rest else x ∷ rest

  -- Database.nextID
  unfoldable pub next_id : View R → ℕ × View R
  next_id v = (suc v.cur_id, record v { cur_id = suc v.cur_id })

  -- Database.insert
  unfoldable pub insert : R → View R → View R
  insert r v = record v { rows = store r v.rows; should_alert = true }

  -- Database.InsertMachine, InsertContainer and the like: a row with a new id and no other field.
  unfoldable pub insert_row : View R → R × View R
  unfolding next_id insert
  insert_row v = let (id, w) = next_id v in let result = row.blank id in (result, insert result w)

  -- Database.Commit. `none` is the panic "Type Error", which a row that is not in the table causes,
  -- since its type differs from that of nil.
  unfoldable pub commit : R → View R → Option (View R)
  commit r v = elim (find v.rows (row.get_id r)) [
    | none ↦ none
    | some old ↦ some (
        if v.should_alert || not (test (row.deep_equal r old))
        then record v { rows = store r v.rows; should_alert = true }
        else v)
  ]

  -- Database.Remove
  unfoldable pub remove : R → View R → View R
  remove r v = record v { rows = delete_row (row.get_id r) v.rows; should_alert = true }

  -- Database.SelectFromMachine, SelectFromContainer and the like.
  unfoldable pub select : Order → (R → Bool) → View R → List R
  select o check v = filter check (o.range R v.rows)

  -- for _, r := range gone { view.Remove(r) }
  unfoldable pub remove_all : List R → View R → View R
  remove_all [] v = v
  remove_all (r ∷ rs) v = remove_all rs (remove r v)

  -- for _, l := range new { pairs = append(pairs, join.Pair{L: l, R: view.Insert…()}) }
  unfoldable pub insert_each : {L : Type 0} → List L → View R → List (L × R) × View R
  insert_each [] v = ([], v)
  insert_each (l ∷ ls) v =
      let (r, w) = insert_row v in let (rest, u) = insert_each ls w in ((l, r) ∷ rest, u)

  -- for _, pair := range pairs { …; view.Commit(r) }, where `merge` is the body's update of r.
  unfoldable pub commit_each : {L : Type 0} → (L → R → R) → List (L × R) → View R → Option (View R)
  commit_each merge [] v = some v
  commit_each merge ((l, r) ∷ pairs) v = elim (commit (merge l r) v) [
    | none ↦ none
    | some w ↦ commit_each merge pairs w
  ]

  -- The rows have distinct ids, and no id is beyond the counter.
  pub record IsValid (v : View R) : Type 0 where
    pub distinct : Nodup (map row.get_id v.rows)
    pub allocated : All (λ r. row.get_id r ≤ v.cur_id) v.rows
