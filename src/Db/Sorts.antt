-- ===== src/Db/Sorts.antt =====
-- db/db.go: a sort of table names by insertion, for the runs of the examples.
use mathlib.Core.List.{List}
use mathlib.Core.List.Perm
use quilt.Prelude.{
  ◌≡◌, true, false, Bool-cases, inl, inr, [], ◌∷◌, Perm, All, if◌then◌else◌, ltb, arith, ◌∙◌, sym,
  ℕ,
}
use quilt.Prelude.Elements.{All-perm}
use quilt.Db.Tables.{TableType, table_less, rank}
use quilt.Db.Ranks.{table_less-rank}
use quilt.Db.Locks.{IsSorted, SortTables}

unfoldable pub insert : TableType → List TableType → List TableType
insert t [] = t ∷ []
insert t (u ∷ us) = let rest = insert t us in if table_less u t then u ∷ rest else t ∷ u ∷ us

unfoldable pub sort : List TableType → List TableType
sort [] = []
sort (t ∷ ts) = insert t (sort ts)

insert-perm : (t : TableType) (ts : List TableType) → Perm (insert t ts) (t ∷ ts)
unfolding insert
insert-perm t [] = Perm.refl _
insert-perm t (u ∷ us) = elim (Bool-cases (table_less u t)) [
  | inl e ↦ rw e (Perm.trans (Perm.cons u (insert-perm t us)) (Perm.swap t u us))
  | inr f ↦ rw f (Perm.refl _)
]

pub sort-perm : (ts : List TableType) → Perm (sort ts) ts
unfolding sort
sort-perm [] = Perm.refl _
sort-perm (t ∷ ts) = Perm.trans (insert-perm t (sort ts)) (Perm.cons t (sort-perm ts))

-- The order of the names, as one of the ranks.
pub table_less_asym : (a b : TableType) → table_less a b ≡ true → table_less b a ≡ false
table_less_asym a b h =
    rw (table_less-rank b a) (flip (rank a) (rank b) (sym (table_less-rank a b) ∙ h))
  where
    flip : (m n : ℕ) → ltb m n ≡ true → ltb n m ≡ false
    flip m n h = ground arith

table_less_trans :
    (a b c : TableType) → table_less b a ≡ false → table_less c b ≡ false → table_less c a ≡ false
table_less_trans a b c h k = rw (table_less-rank c a) (
    chain (rank a) (rank b) (rank c) (sym (table_less-rank b a) ∙ h)
      (sym (table_less-rank c b) ∙ k))
  where
    chain : (m n o : ℕ) → ltb n m ≡ false → ltb o n ≡ false → ltb o m ≡ false
    chain m n o h k = ground arith

after :
    (t u : TableType) (us : List TableType)
    → table_less u t ≡ false
    → All (λ v. table_less v u ≡ false) us
    → All (λ v. table_less v t ≡ false) us
after t u [] h k = tt
after t u (v ∷ us) h k = (table_less_trans t u v h k.0, after t u us h k.1)

insert-IsSorted : (t : TableType) (ts : List TableType) → IsSorted ts → IsSorted (insert t ts)
unfolding insert
insert-IsSorted t [] h = (tt, tt)
insert-IsSorted t (u ∷ us) h = elim (Bool-cases (table_less u t)) [
  | inl e ↦ rw e (
    All-perm (λ v. table_less v u ≡ false) (λ v. hlevel) (t ∷ us) (insert t us)
        (Perm.symm (insert-perm t us)) (table_less_asym u t e, h.0),
    insert-IsSorted t us h.1,
  )
  | inr f ↦ rw f ((f, after t u us f h.0), h)
]

pub sort-IsSorted : (ts : List TableType) → IsSorted (sort ts)
unfolding sort
sort-IsSorted [] = tt
sort-IsSorted (t ∷ ts) = insert-IsSorted t (sort ts) (sort-IsSorted ts)

unfoldable pub insertion : SortTables
insertion = record { sort = sort; sort-perm = sort-perm; sort-IsSorted = sort-IsSorted }
