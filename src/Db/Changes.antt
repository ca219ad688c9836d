-- ===== src/Db/Changes.antt =====
-- db/db.go: what a commit, an insertion and a removal do to the rows of a table.
use mathlib.Core.HLevel.{hedberg}
use mathlib.Core.Logic.Or
use mathlib.Core.List.Perm
use mathlib.Core.List.{Nodup-cons, mem-cons, mem-cons_of_mem, not-mem-nil, Mem-prop, mem-map_of_mem}
use quilt.Prelude.{
  ℕ, ◌≡◌, ◌≢◌, refl, sym, ap, ◌∙◌, subst, Bool, true, false, not, ◌||◌, some, List, [], ◌∷◌, ◌++◌,
  map, Mem, Nodup, Perm, ◌==◌, test, test→holds, nat_eq, nat_beq_iff, Bool-cases, inl, inr, arith,
}
use quilt.Db.Table.{Row, View, find, store, delete_row, commit}

module _ {R : Type 0} (row : Row R) where
  abbrev pub ids : List R → List ℕ
  ids = map row.get_id

  eq_true : (i j : ℕ) → i ≡ j → (i == j) ≡ true
  eq_true i j = (nat_beq_iff i j).1

  ne_of_false : (i j : ℕ) → (i == j) ≡ false → i ≢ j
  ne_of_false i j h e = ground arith

  -- Rows with distinct ids are equal if their ids are.
  same_row :
      (x o : R) (xs : List R)
      → Nodup (ids (x ∷ xs))
      → Mem o (x ∷ xs)
      → row.get_id x ≡ row.get_id o
      → o ≡ x
  same_row x o xs d m e =
      Or.elim (hedberg row.deep_equal o x) (mem-cons.0 m) (λ p. p)
        (λ p.
          absurd (
            (Nodup-cons.0 d).0 (subst (λ i. Mem i (ids xs)) (sym e) (mem-map_of_mem row.get_id p))))

  mem_rest : (x o : R) (xs : List R) → Mem o (x ∷ xs) → row.get_id x ≢ row.get_id o → Mem o xs
  mem_rest x o xs m n =
      Or.elim Mem-prop (mem-cons.0 m) (λ p. absurd (n (sym (ap row.get_id p)))) (λ p. p)

  pub store-perm :
      (xs : List R) (o r : R)
      → Mem o xs
      → Nodup (ids xs)
      → row.get_id r ≡ row.get_id o
      → Perm (o ∷ store row r xs) (r ∷ xs)
  unfolding store
  store-perm [] o r m d e = absurd (not-mem-nil m)
  store-perm (x ∷ xs) o r m d e = elim (Bool-cases (row.get_id x == row.get_id r)) [
    | inl h ↦ rw h (
        subst (λ y. Perm (o ∷ r ∷ xs) (r ∷ y ∷ xs))
          (same_row x o xs d m ((nat_beq_iff (row.get_id x) (row.get_id r)).0 h ∙ e))
          (Perm.swap r o xs))
    | inr h ↦ rw h (
        Perm.trans (Perm.swap x o _) (
          Perm.trans
            (Perm.cons x (
              store-perm xs o r (mem_rest x o xs m (λ p. ne_of_false _ _ h (p ∙ sym e)))
                (Nodup-cons.0 d).1 e))
            (Perm.swap r x xs)))
  ]

  pub find-mem :
      (xs : List R) (o : R) → Mem o xs → Nodup (ids xs) → find row xs (row.get_id o) ≡ some o
  unfolding find
  find-mem [] o m d = absurd (not-mem-nil m)
  find-mem (x ∷ xs) o m d = elim (Bool-cases (row.get_id x == row.get_id o)) [
    | inl h ↦
        rw h (ap some (sym (same_row x o xs d m ((nat_beq_iff (row.get_id x) (row.get_id o)).0 h))))
    | inr h ↦ rw h (find-mem xs o (mem_rest x o xs m (ne_of_false _ _ h)) (Nodup-cons.0 d).1)
  ]

  delete_row_absent : (xs : List R) (i : ℕ) → ¬ Mem i (ids xs) → delete_row row i xs ≡ xs
  unfolding delete_row
  delete_row_absent [] i n = refl
  delete_row_absent (x ∷ xs) i n = elim (Bool-cases (row.get_id x == i)) [
    | inl h ↦ absurd (n (mem-cons.1 (Or.inl (sym ((nat_beq_iff (row.get_id x) i).0 h)))))
    | inr h ↦ rw h (ap (◌∷◌ x) (delete_row_absent xs i (λ m. n (mem-cons_of_mem _ m))))
  ]

  pub delete_row-perm :
      (xs : List R) (o : R)
      → Mem o xs
      → Nodup (ids xs)
      → Perm (o ∷ delete_row row (row.get_id o) xs) xs
  unfolding delete_row
  delete_row-perm [] o m d = absurd (not-mem-nil m)
  delete_row-perm (x ∷ xs) o m d = elim (Bool-cases (row.get_id x == row.get_id o)) [
    | inl h ↦
        let e = (nat_beq_iff (row.get_id x) (row.get_id o)).0 h in
        rw h (
          rw
            (delete_row_absent xs (row.get_id o)
              (λ c. (Nodup-cons.0 d).0 (subst (λ i. Mem i (ids xs)) (sym e) c)))
            (Perm.cons' (same_row x o xs d m e) (Perm.refl xs)))
    | inr h ↦ rw h (
        Perm.trans (Perm.swap x o _) (
          Perm.cons x
            (delete_row-perm xs o (mem_rest x o xs m (ne_of_false _ _ h)) (Nodup-cons.0 d).1)))
  ]

  pub store_new :
      (xs : List R) (r : R) → ¬ Mem (row.get_id r) (ids xs) → store row r xs ≡ xs ++ r ∷ []
  unfolding store
  store_new [] r n = refl
  store_new (x ∷ xs) r n = elim (Bool-cases (row.get_id x == row.get_id r)) [
    | inl h ↦
        absurd (n (mem-cons.1 (Or.inl (sym ((nat_beq_iff (row.get_id x) (row.get_id r)).0 h)))))
    | inr h ↦ rw h (ap (◌∷◌ x) (store_new xs r (λ m. n (mem-cons_of_mem _ m))))
  ]

  -- A commit of a row whose id is in the table does not panic, and puts the row in the place of the
  -- one with its id; the counter stays.
  pub commit_lem :
      (v : View R) (o r : R)
      → Mem o v.rows
      → Nodup (ids v.rows)
      → row.get_id r ≡ row.get_id o
      → (w : View R) × (commit row r v ≡ some w)
        × (w.cur_id ≡ v.cur_id)
        × Perm (o ∷ w.rows) (r ∷ v.rows)
  unfolding commit
  commit_lem v o r m d e = elim (Bool-cases (v.should_alert || not (test (row.deep_equal r o)))) [
    | inl h ↦ (
      record v { rows = store row r v.rows; should_alert = true },
      rw (found, commit) (rw h),
      refl,
      store-perm v.rows o r m d e,
    )
    | inr h ↦ (
      v,
      rw (found, commit) (rw h),
      refl,
      Perm.cons'
          (sym
            (test→holds (row.deep_equal r o) (same (v.should_alert) (test (row.deep_equal r o)) h)))
          (Perm.refl v.rows),
    )
  ]
    where
      found : find row v.rows (row.get_id r) ≡ some o
      found = ap (find row v.rows) e ∙ find-mem v.rows o m d

      same : (a b : Bool) → (a || not b) ≡ false → b ≡ true
      same a b h = ground arith
