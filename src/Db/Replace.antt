-- ===== src/Db/Replace.antt =====
-- The shape of `updatePlacements` and `updateImages` of minion/engine.go: insert and commit a row for
-- each new element, then remove the rows that nothing matches.
use mathlib.Core.Option
use mathlib.Core.List.Perm
use mathlib.Core.List.{mem-cons_self, append_assoc, perm_middle, perm_append_comm}
use quilt.Prelude.{
  ℕ, ◌≡◌, refl, ap, subst, Option, none, some, List, [], ◌∷◌, ◌++◌, map, Perm, arith,
}
use quilt.Db.Table.{Row, View, IsValid, insert_row, commit, remove_all}
use quilt.Db.Changes.{ids, commit_lem}
use quilt.Db.Loops.{remove_all-perm, insert_row-lem, IsValid-ids, IsValid-part}

module _ {R L : Type 0} (row : Row R) (fill : L → R → R) where
  unfoldable pub add_each : List L → View R → Option (View R)
  add_each [] v = some v
  add_each (l ∷ ls) v =
      let (r, w) = insert_row row v in
      elim (commit row (fill l r) w) [ none ↦ none | some u ↦ add_each ls u ]

  unfoldable pub replace : List L → List R → View R → Option (View R)
  replace new gone v = Option.map (remove_all row gone) (add_each new v)

  module _ (keeps : (l : L) (r : R) → row.get_id (fill l r) ≡ row.get_id r) where
    pub add_each-lem :
        (ls : List L) (v : View R)
        → IsValid row v
        → (u : View R) × (add_each ls v ≡ some u)
          × IsValid row u
          × ((fresh : List (L × R)) × (map (λ p. p.0) fresh ≡ ls)
              × Perm u.rows (map (λ p. fill p.0 p.1) fresh ++ v.rows))
    unfolding add_each
    add_each-lem [] v h = (v, refl, h, ([], refl, Perm.refl v.rows))
    add_each-lem (l ∷ ls) v h =
        let r = (insert_row row v).0 in
        let w = (insert_row row v).1 in
        let (valid, p) = insert_row-lem row v h in
        let (u, e, n, q) =
          commit_lem row w r (fill l r) ((Perm.mem_iff p).1 mem-cons_self) valid.distinct
            (keeps l r) in
        let placed : Perm u.rows (fill l r ∷ v.rows) =
          Perm.cons_inv
            (Perm.trans q (Perm.trans (Perm.cons (fill l r) p) (Perm.swap r (fill l r) v.rows))) in
        let ids_kept : Perm (ids row u.rows) (ids row w.rows) = Perm.cons_inv (
          subst (λ (i : ℕ). Perm (row.get_id r ∷ ids row u.rows) (i ∷ ids row w.rows)) (keeps l r)
            (Perm.map row.get_id q)) in
        let (x, e', valid', (fresh, new, t)) =
          add_each-lem ls u (IsValid-ids row w u valid (Perm.symm ids_kept) (omega (arith, n))) in
        (
          x,
          rw (e, add_each) e',
          valid',
          (
            (l, r) ∷ fresh,
            ap (◌∷◌ l) new,
            Perm.trans t (
                Perm.trans (Perm.append_left (map (λ p. fill p.0 p.1) fresh) placed)
                  (perm_middle _ _)),
          ),
        )

    -- The replacement does not panic on a valid table, and leaves a valid one: the rows that are kept and a
    -- row for each new element.
    pub replace-lem :
        (new : List L) (kept gone : List R) (v : View R)
        → IsValid row v
        → Perm (kept ++ gone) v.rows
        → (w : View R) × (replace new gone v ≡ some w)
          × IsValid row w
          × ((fresh : List (L × R)) × (map (λ p. p.0) fresh ≡ new)
              × Perm w.rows (map (λ p. fill p.0 p.1) fresh ++ kept))
    unfolding replace
    replace-lem new kept gone v h p =
        let (u, e, valid, (fresh, n, t)) = add_each-lem new v h in
        let added = map (λ (p : L × R). fill p.0 p.1) fresh in
        let rows : Perm u.rows (gone ++ (added ++ kept)) = Perm.trans t (
          Perm.trans (Perm.append_left added (Perm.symm p)) (
            subst (λ xs. Perm xs (gone ++ (added ++ kept))) (append_assoc added kept gone)
              (perm_append_comm (added ++ kept) gone))) in
        let (left, c) = remove_all-perm row u gone (added ++ kept) valid.distinct rows in
        (
          remove_all row gone u,
          rw e refl,
          IsValid-part row u (remove_all row gone u) gone valid
              (Perm.trans rows (Perm.append_left gone (Perm.symm left))) (omega (arith, c)),
          (fresh, n, left),
        )
