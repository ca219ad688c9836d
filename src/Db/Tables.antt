-- ===== src/Db/Tables.antt =====
-- db/table.go and db/db.go: the names of the tables, their order, and the order in which a
-- transaction locks them. `sort.Sort` is an argument.
use quilt.Prelude.{ℕ, Bool, String, List, [], ◌∷◌, lt_text}

pub data TableType : Type 0 where
  blueprint machine container minion connection load_balancer etcd placement image hostname :
      TableType

unfoldable pub TableType-discrete : Discrete TableType
TableType-discrete = hlevel

-- The string of a table's type, which reflect gives.
abbrev pub type_name : TableType → String
type_name blueprint = "db.Blueprint"
type_name machine = "db.Machine"
type_name container = "db.Container"
type_name minion = "db.Minion"
type_name connection = "db.Connection"
type_name load_balancer = "db.LoadBalancer"
type_name etcd = "db.Etcd"
type_name placement = "db.Placement"
type_name image = "db.Image"
type_name hostname = "db.Hostname"

-- AllTables
abbrev pub all_tables : List TableType
all_tables =
    blueprint ∷ machine ∷ container ∷ minion ∷ connection ∷ load_balancer ∷ etcd ∷ placement ∷ image
    ∷ hostname ∷ []

-- tableSlice.Less
unfoldable pub table_less : TableType → TableType → Bool
table_less a b = lt_text (type_name a) (type_name b)

-- The place of a table in the order of the names.
abbrev pub rank : TableType → ℕ
rank blueprint = 0
rank connection = 1
rank container = 2
rank etcd = 3
rank hostname = 4
rank image = 5
rank load_balancer = 6
rank machine = 7
rank minion = 8
rank placement = 9
