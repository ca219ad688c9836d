-- ===== src/Db/Loops.antt =====
-- db/db.go: loops over the changes of a transaction.
use mathlib.Core.HLevel.{⊥_prop}
use mathlib.Core.List.Perm
use mathlib.Core.List.{
  Nodup-cons, mem-cons, mem-cons_self, not-mem-nil, perm_append_comm, perm_middle,
}
use mathlib.Core.Logic.Or
use native.Mathlib.Bridge.{le_prop}
use quilt.Prelude.{
  ℕ, suc, ◌≡◌, ◌≤◌, refl, sym, ap, ◌∙◌, subst, some, List, [], ◌∷◌, ◌++◌, map, Mem, Nodup, Perm,
  All, All-perm, arith,
}
use quilt.Prelude.Perms.{perm-cons_middle}
use quilt.Db.Table.{
  Row, View, IsValid, store, delete_row, remove, insert_row, remove_all, insert_each, commit_each,
}
use quilt.Db.Changes.{ids, commit_lem, delete_row-perm, store_new}

module _ {R : Type 0} (row : Row R) where
  perm-ids : (xs ys : List R) → Perm xs ys → Nodup (ids row xs) → Nodup (ids row ys)
  perm-ids xs ys p = Perm.nodup (Perm.map row.get_id p)

  tail-ids : (x : R) (xs : List R) → Nodup (ids row (x ∷ xs)) → Nodup (ids row xs)
  tail-ids x xs d = (Nodup-cons.0 d).1

  -- Removing the rows `gone` leaves the others, and the counter.
  pub remove_all-perm :
      (v : View R) (gone keep : List R)
      → Nodup (ids row v.rows)
      → Perm v.rows (gone ++ keep)
      → Perm (remove_all row gone v).rows keep × ((remove_all row gone v).cur_id ≡ v.cur_id)
  unfolding remove_all remove
  remove_all-perm v [] keep d p = (p, refl)
  remove_all-perm v (r ∷ gone) keep d p =
      let q = delete_row-perm row v.rows r ((Perm.mem_iff p).1 mem-cons_self) d in
      remove_all-perm (remove row r v) gone keep
        (tail-ids r _ (perm-ids v.rows (r ∷ delete_row row (row.get_id r) v.rows) (Perm.symm q) d))
        (Perm.cons_inv (Perm.trans q p))

  fresh-absent : (n : ℕ) (xs : List R) → All (λ r. row.get_id r ≤ n) xs → ¬ Mem (suc n) (ids row xs)
  fresh-absent n [] a m = not-mem-nil m
  fresh-absent n (x ∷ xs) a m =
      Or.elim ⊥_prop (mem-cons.0 m) (λ p. omega (arith, a.0, p)) (fresh-absent n xs a.1)

  All-le :
      (n m : ℕ) (xs : List R)
      → n ≤ m
      → All (λ r. row.get_id r ≤ n) xs
      → All (λ r. row.get_id r ≤ m) xs
  All-le n m [] h a = tt
  All-le n m (x ∷ xs) h a = (omega (arith, a.0), All-le n m xs h a.1)

  to-ids : (n : ℕ) (xs : List R) → All (λ r. row.get_id r ≤ n) xs → All (λ i. i ≤ n) (ids row xs)
  to-ids n [] a = tt
  to-ids n (x ∷ xs) a = (a.0, to-ids n xs a.1)

  from-ids : (n : ℕ) (xs : List R) → All (λ i. i ≤ n) (ids row xs) → All (λ r. row.get_id r ≤ n) xs
  from-ids n [] a = tt
  from-ids n (x ∷ xs) a = (a.0, from-ids n xs a.1)

  -- A table is valid by its ids alone.
  pub IsValid-ids :
      (v w : View R)
      → IsValid row v
      → Perm (ids row v.rows) (ids row w.rows)
      → v.cur_id ≤ w.cur_id
      → IsValid row w
  IsValid-ids v w h p n = record {
    distinct = Perm.nodup p h.distinct;
    allocated = from-ids w.cur_id w.rows (
        All-perm (λ i. i ≤ w.cur_id) (λ i. le_prop) (ids row v.rows) (ids row w.rows) p
          (to-ids w.cur_id v.rows (All-le v.cur_id w.cur_id v.rows n h.allocated)));
  }

  later :
      (xs ys : List R) (n : ℕ)
      → Nodup (ids row (xs ++ ys)) × All (λ r. row.get_id r ≤ n) (xs ++ ys)
      → Nodup (ids row ys) × All (λ r. row.get_id r ≤ n) ys
  later [] ys n h = h
  later (x ∷ xs) ys n h = later xs ys n ((Nodup-cons.0 h.0).1, h.1.1)

  -- So is a table that has some of the rows.
  pub IsValid-part :
      (v w : View R) (gone : List R)
      → IsValid row v
      → Perm v.rows (gone ++ w.rows)
      → v.cur_id ≤ w.cur_id
      → IsValid row w
  IsValid-part v w gone h p n =
      let whole : IsValid row (record w { rows = gone ++ w.rows }) =
        IsValid-ids v (record w { rows = gone ++ w.rows }) h (Perm.map row.get_id p) n in
      let (d, a) = later gone w.rows w.cur_id (whole.distinct, whole.allocated) in
      record { distinct = d; allocated = a }

  -- An inserted row has an id that no row has.
  pub insert_row-lem :
      (v : View R)
      → IsValid row v
      → IsValid row (insert_row row v).1
        × Perm (insert_row row v).1.rows ((insert_row row v).0 ∷ v.rows)
  unfolding insert_row
  insert_row-lem v h = (
    record {
      distinct =
          perm-ids (b ∷ v.rows) (store row b v.rows) (Perm.symm placed)
            (Nodup-cons.1 (absent, h.distinct));
      allocated =
          All-perm (λ r. row.get_id r ≤ suc v.cur_id) (λ r. le_prop) (b ∷ v.rows)
            (store row b v.rows) (Perm.symm placed)
            (
              omega (arith, row.blank-id (suc v.cur_id)),
              All-le v.cur_id (suc v.cur_id) v.rows (omega arith) h.allocated,
            );
    },
    placed,
  )
    where
      b : R
      b = row.blank (suc v.cur_id)

      absent : ¬ Mem (row.get_id b) (ids row v.rows)
      absent =
          subst (λ (i : ℕ). ¬ Mem i (ids row v.rows)) (sym (row.blank-id (suc v.cur_id)))
            (fresh-absent v.cur_id v.rows h.allocated)

      placed : Perm (store row b v.rows) (b ∷ v.rows)
      placed =
          subst (λ xs. Perm xs (b ∷ v.rows)) (sym (store_new row v.rows b absent))
            (perm_append_comm v.rows (b ∷ []))

  -- The loop of insertions adds a row for each element, in order, and keeps the table valid.
  pub insert_each-lem :
      {L : Type 0} (ls : List L) (v : View R)
      → IsValid row v
      → IsValid row (insert_each row ls v).1
        × Perm (insert_each row ls v).1.rows (map (λ p. p.1) (insert_each row ls v).0 ++ v.rows)
        × (map (λ p. p.0) (insert_each row ls v).0 ≡ ls)
  unfolding insert_each
  insert_each-lem [] v h = (h, Perm.refl v.rows, refl)
  insert_each-lem (l ∷ ls) v h =
      let (valid, p) = insert_row-lem v h in
      let (valid', q, e) = insert_each-lem ls (insert_row row v).1 valid in
      (
        valid',
        Perm.trans q (
            Perm.trans
              (Perm.append_left (map (λ p. p.1) (insert_each row ls (insert_row row v).1).0) p)
              (perm_middle _ _)),
        ap (◌∷◌ l) e,
      )

  -- The loop of commits does not panic if each row of the pairs is in the table, and puts the merged
  -- rows in their places.
  pub commit_each-lem :
      {L : Type 0} (merge : L → R → R)
      → ((l : L) (r : R) → row.get_id (merge l r) ≡ row.get_id r)
      → (pairs : List (L × R)) (v : View R) (done : List R) → Nodup (ids row v.rows)
      → Perm v.rows (map (λ p. p.1) pairs ++ done)
      → (w : View R) × (commit_each row merge pairs v ≡ some w)
        × (w.cur_id ≡ v.cur_id)
        × Perm w.rows (map (λ p. merge p.0 p.1) pairs ++ done)
  unfolding commit_each
  commit_each-lem merge keeps [] v done d p = (v, refl, refl, p)
  commit_each-lem merge keeps ((l, r) ∷ pairs) v done d p =
      let (w, e, n, q) =
        commit_lem row v r (merge l r) ((Perm.mem_iff p).1 mem-cons_self) d (keeps l r) in
      let placed : Perm w.rows (merge l r ∷ (map (λ p. p.1) pairs ++ done)) =
        Perm.cons_inv
          (Perm.trans q (Perm.trans (Perm.cons (merge l r) p) (Perm.swap r (merge l r) _))) in
      let (u, e', n', q') =
        commit_each-lem merge keeps pairs w (merge l r ∷ done)
          (Perm.nodup
            (Perm.symm (
              Perm.cons_inv (
                subst (λ (i : ℕ). Perm (row.get_id r ∷ ids row w.rows) (i ∷ ids row v.rows))
                  (keeps l r) (Perm.map row.get_id q))))
            d)
          (Perm.trans placed
            (perm-cons_middle (merge l r) done (map (λ p. p.1) pairs) (Perm.refl _))) in
      (u, rw (e, commit_each) e', n' ∙ n, Perm.trans q' (perm_middle _ _))
