-- ===== src/Db/Selects.antt =====
-- db/: selecting every row of a table, in whatever order.
use quilt.Prelude.{◌≡◌, refl, ap, sym, subst, true, List, [], ◌∷◌, filter, Perm}
use quilt.Maps.{Order}
use quilt.Db.Table.{Row, View, select}

pub filter_all : {A : Type 0} (xs : List A) → filter (λ _. true) xs ≡ xs
unfolding filter
filter_all [] = refl
filter_all (x ∷ xs) = ap (◌∷◌ x) (filter_all xs)

module _ {R : Type 0} (row : Row R) where
  pub select_all-perm : (o : Order) (v : View R) → Perm (select row o (λ _. true) v) v.rows
  unfolding select
  select_all-perm o v =
      subst (λ xs. Perm xs v.rows) (sym (filter_all (o.range R v.rows))) (o.range-perm R v.rows)
