-- ===== src/Db/Ranks.antt =====
-- db/db.go: the order of the table names, and the ranks.
use mathlib.Core.Bool.{Bool-set}
use mathlib.Core.List.{mem-cons_self, mem-cons_of_mem}
use quilt.Prelude.{
  ℕ, zero, suc, ◌≡◌, ◌<◌, ◌≢◌, refl, sym, ap, ◌∙◌, false, Mem, All, mem-All, ltb, arith, ℕ_discrete,
}
use quilt.Db.Tables.{
  TableType, blueprint, machine, container, minion, connection, load_balancer, etcd, placement,
  image, hostname, all_tables, table_less, rank,
}

listed : (t : TableType) → Mem t all_tables
listed blueprint = mem-cons_self
listed machine = mem-cons_of_mem _ (mem-cons_self)
listed container = mem-cons_of_mem _ (mem-cons_of_mem _ (mem-cons_self))
listed minion = mem-cons_of_mem _ (mem-cons_of_mem _ (mem-cons_of_mem _ (mem-cons_self)))
listed connection =
    mem-cons_of_mem _ (mem-cons_of_mem _ (mem-cons_of_mem _ (mem-cons_of_mem _ (mem-cons_self))))
listed load_balancer =
    mem-cons_of_mem _ (
      mem-cons_of_mem _ (mem-cons_of_mem _ (mem-cons_of_mem _ (mem-cons_of_mem _ (mem-cons_self)))))
listed etcd = mem-cons_of_mem _ (
    mem-cons_of_mem _ (
      mem-cons_of_mem _
        (mem-cons_of_mem _ (mem-cons_of_mem _ (mem-cons_of_mem _ (mem-cons_self))))))
listed placement = mem-cons_of_mem _ (
    mem-cons_of_mem _ (
      mem-cons_of_mem _ (
        mem-cons_of_mem _
          (mem-cons_of_mem _ (mem-cons_of_mem _ (mem-cons_of_mem _ (mem-cons_self)))))))
listed image = mem-cons_of_mem _ (
    mem-cons_of_mem _ (
      mem-cons_of_mem _ (
        mem-cons_of_mem _ (
          mem-cons_of_mem _
            (mem-cons_of_mem _ (mem-cons_of_mem _ (mem-cons_of_mem _ (mem-cons_self))))))))
listed hostname = mem-cons_of_mem _ (
    mem-cons_of_mem _ (
      mem-cons_of_mem _ (
        mem-cons_of_mem _ (
          mem-cons_of_mem _ (
            mem-cons_of_mem _
              (mem-cons_of_mem _ (mem-cons_of_mem _ (mem-cons_of_mem _ (mem-cons_self)))))))))

row_blueprint : All (λ b. table_less blueprint b ≡ ltb (rank blueprint) (rank b)) all_tables
unfolding table_less
row_blueprint = (refl, (refl, (refl, (refl, (refl, (refl, (refl, (refl, (refl, (refl, tt))))))))))

row_machine : All (λ b. table_less machine b ≡ ltb (rank machine) (rank b)) all_tables
unfolding table_less
row_machine = (refl, (refl, (refl, (refl, (refl, (refl, (refl, (refl, (refl, (refl, tt))))))))))

row_container : All (λ b. table_less container b ≡ ltb (rank container) (rank b)) all_tables
unfolding table_less
row_container = (refl, (refl, (refl, (refl, (refl, (refl, (refl, (refl, (refl, (refl, tt))))))))))

row_minion : All (λ b. table_less minion b ≡ ltb (rank minion) (rank b)) all_tables
unfolding table_less
row_minion = (refl, (refl, (refl, (refl, (refl, (refl, (refl, (refl, (refl, (refl, tt))))))))))

row_connection : All (λ b. table_less connection b ≡ ltb (rank connection) (rank b)) all_tables
unfolding table_less
row_connection = (refl, (refl, (refl, (refl, (refl, (refl, (refl, (refl, (refl, (refl, tt))))))))))

row_load_balancer :
    All (λ b. table_less load_balancer b ≡ ltb (rank load_balancer) (rank b)) all_tables
unfolding table_less
row_load_balancer =
    (refl, (refl, (refl, (refl, (refl, (refl, (refl, (refl, (refl, (refl, tt))))))))))

row_etcd : All (λ b. table_less etcd b ≡ ltb (rank etcd) (rank b)) all_tables
unfolding table_less
row_etcd = (refl, (refl, (refl, (refl, (refl, (refl, (refl, (refl, (refl, (refl, tt))))))))))

row_placement : All (λ b. table_less placement b ≡ ltb (rank placement) (rank b)) all_tables
unfolding table_less
row_placement = (refl, (refl, (refl, (refl, (refl, (refl, (refl, (refl, (refl, (refl, tt))))))))))

row_image : All (λ b. table_less image b ≡ ltb (rank image) (rank b)) all_tables
unfolding table_less
row_image = (refl, (refl, (refl, (refl, (refl, (refl, (refl, (refl, (refl, (refl, tt))))))))))

row_hostname : All (λ b. table_less hostname b ≡ ltb (rank hostname) (rank b)) all_tables
unfolding table_less
row_hostname = (refl, (refl, (refl, (refl, (refl, (refl, (refl, (refl, (refl, (refl, tt))))))))))

agrees : All (λ a. All (λ b. table_less a b ≡ ltb (rank a) (rank b)) all_tables) all_tables
agrees = (
  row_blueprint,
  (
    row_machine,
    (
      row_container,
      (
        row_minion,
        (
          row_connection,
          (row_load_balancer, (row_etcd, (row_placement, (row_image, (row_hostname, tt))))),
        ),
      ),
    ),
  ),
)

pub table_less-rank : (a b : TableType) → table_less a b ≡ ltb (rank a) (rank b)
table_less-rank a b =
    mem-All (λ y. table_less a y ≡ ltb (rank a) (rank y)) (λ y. Bool-set _ _) all_tables
      (mem-All (λ x. All (λ y. table_less x y ≡ ltb (rank x) (rank y)) all_tables) All-prop
        all_tables agrees a (listed a))
      b (listed b)
  where
    All-prop :
        (x : TableType) → IsProp (All (λ y. table_less x y ≡ ltb (rank x) (rank y)) all_tables)
    All-prop x = hlevel

-- The table with a rank.
abbrev with_rank : ℕ → TableType
with_rank zero = blueprint
with_rank (suc zero) = connection
with_rank (suc (suc zero)) = container
with_rank (suc (suc (suc zero))) = etcd
with_rank (suc (suc (suc (suc zero)))) = hostname
with_rank (suc (suc (suc (suc (suc zero))))) = image
with_rank (suc (suc (suc (suc (suc (suc zero)))))) = load_balancer
with_rank (suc (suc (suc (suc (suc (suc (suc zero))))))) = machine
with_rank (suc (suc (suc (suc (suc (suc (suc (suc zero)))))))) = minion
with_rank (suc (suc (suc (suc (suc (suc (suc (suc (suc n))))))))) = placement

with_rank-rank : (t : TableType) → with_rank (rank t) ≡ t
with_rank-rank blueprint = refl
with_rank-rank machine = refl
with_rank-rank container = refl
with_rank-rank minion = refl
with_rank-rank connection = refl
with_rank-rank load_balancer = refl
with_rank-rank etcd = refl
with_rank-rank placement = refl
with_rank-rank image = refl
with_rank-rank hostname = refl

-- Of two tables, if the second is not before the first and is another, the first is before it.
pub rank-lt : (a b : TableType) → table_less b a ≡ false → a ≢ b → rank a < rank b
rank-lt a b h n = elim (ℕ_discrete (rank a) (rank b)) [
  | yes e ↦ absurd (n (sym (with_rank-rank a) ∙ ap with_rank e ∙ with_rank-rank b))
  | no p ↦ below (rank a) (rank b) p (sym (table_less-rank b a) ∙ h)
]
  where
    below : (m n : ℕ) → m ≢ n → ltb n m ≡ false → m < n
    below m n p h = ground arith

pub rank-bound : (t : TableType) → rank t < 10
rank-bound blueprint = omega arith
rank-bound machine = omega arith
rank-bound container = omega arith
rank-bound minion = omega arith
rank-bound connection = omega arith
rank-bound load_balancer = omega arith
rank-bound etcd = omega arith
rank-bound placement = omega arith
rank-bound image = omega arith
rank-bound hostname = omega arith
