-- ===== src/Scheduler/Commits.antt =====
-- minion/scheduler/master.go: the table after the commits of `placeContainers`.
use mathlib.Core.HLevel.{⊥_prop}
use mathlib.Core.List.{
  List, not-mem-nil, append_of_mem, perm_middle, mem-cons_self, mem-cons, mem-cons_of_mem,
  mem-map_of_mem, Nodup-cons,
}
use mathlib.Core.List.Perm
use mathlib.Core.Logic.{∥∥₁_elim, ∥∥₁_prop}
use mathlib.Core.Logic.Or
use quilt.Prelude.{
  ℕ, ◌≡◌, ◌≢◌, refl, sym, ◌∙◌, subst, some, String, [], ◌∷◌, ◌++◌, map, Mem, Nodup, Perm, ◌==◌,
  nat_eq, nat_beq_iff, Bool-cases, inl, inr, if◌then◌else◌,
}
use quilt.Db.Table.{View}
use quilt.Db.Changes.{commit_lem}
use quilt.Db.MinionRows.{Container, container_row}
use quilt.Scheduler.Context.{Sorting, Memory}
use quilt.Scheduler.Make.{commit_changed}

abbrev pub ids_at : Memory → List ℕ → List ℕ
ids_at mem ps = map (λ (c : Container). c.id) (map mem ps)

ids-same :
    (f g : Memory) → ((j : ℕ) → (f j).id ≡ (g j).id) → (ps : List ℕ) → ids_at f ps ≡ ids_at g ps
ids-same f g h [] = refl
ids-same f g h (p ∷ ps) = cc (h p, ids-same f g h ps)

map-same : (f g : Memory) (ps : List ℕ) → ((j : ℕ) → Mem j ps → f j ≡ g j) → map f ps ≡ map g ps
map-same f g [] h = refl
map-same f g (p ∷ ps) h = cc (h p mem-cons_self, map-same f g ps (λ j m. h j (mem-cons_of_mem p m)))

-- The memory, with the row behind one pointer as another memory has it.
abbrev written : Memory → Memory → ℕ → Memory
written cur mem i j = if j == i then mem j else cur j

written_other : (cur mem : Memory) (i j : ℕ) → j ≢ i → written cur mem i j ≡ cur j
written_other cur mem i j n = elim (Bool-cases (j == i)) [
  | inl e ↦ absurd (n ((nat_beq_iff j i).0 e))
  | inr e ↦ rw e refl
]

written_here : (cur mem : Memory) (i : ℕ) → written cur mem i i ≡ mem i
written_here cur mem i = rw ((nat_beq_iff i i).1 refl) refl

split_at : (ps : List ℕ) (i : ℕ) → Mem i ps → ∥ ((rest : List ℕ) × Perm ps (i ∷ rest)) ∥₁
split_at ps i m = ∥∥₁_elim (append_of_mem m) ∥∥₁_prop (λ (xs, ys, e).
    ∣ (xs ++ ys, subst (λ l. Perm l (i ∷ (xs ++ ys))) (sym e) (perm_middle xs ys)) ∣₁)

-- The row behind a pointer is replaced.
replaced :
    (cur mem : Memory) (ps : List ℕ) (i : ℕ) (xs ws : List Container)
    → Nodup ps
    → Mem i ps
    → Perm xs (map cur ps)
    → Perm (cur i ∷ ws) (mem i ∷ xs)
    → Perm ws (map (written cur mem i) ps)
replaced cur mem ps i xs ws d m p q = ∥∥₁_elim (split_at ps i m) ∥∥₁_prop (λ (rest, s).
    let (absent, _) = Nodup-cons.0 (Perm.nodup s d) in
    let same : map (written cur mem i) (i ∷ rest) ≡ (mem i ∷ map cur rest) = cc (
      written_here cur mem i,
      map-same (written cur mem i) cur rest
          (λ j n. written_other cur mem i j (λ e. absent (subst (λ k. Mem k rest) e n))),
    ) in
    Perm.trans
      (Perm.cons_inv (
        Perm.trans q (
          Perm.trans (Perm.cons (mem i) (Perm.trans p (Perm.map cur s)))
            (Perm.swap (cur i) (mem i) (map cur rest)))))
      (subst (λ l. Perm l (map (written cur mem i) ps)) same
        (Perm.map (written cur mem i) (Perm.symm s))))

module _ (lib : Sorting) (sprint : List String → String) where
  -- The commits of all the pointers whose rows have changed leave the rows of the memory.
  pub commit_changed-lem :
      (mem : Memory) (ps is : List ℕ) (cur : Memory) (v : View Container)
      → Nodup ps
      → Nodup (map (λ (c : Container). c.id) v.rows)
      → Perm v.rows (map cur ps)
      → ((j : ℕ) → (mem j).id ≡ (cur j).id)
      → ((i : ℕ) → Mem i is → Mem i ps)
      → ((j : ℕ) → ¬ Mem j is → mem j ≡ cur j)
      → (w : View Container) × (commit_changed lib sprint mem is v ≡ some w)
        × (w.cur_id ≡ v.cur_id)
        × Perm w.rows (map mem ps)
  unfolding commit_changed
  commit_changed-lem mem ps [] cur v dp d p ids inside same = (
    v,
    refl,
    refl,
    subst (Perm v.rows) (sym (map-same mem cur ps (λ j m. same j (λ n. absurd (not-mem-nil n))))) p,
  )
  commit_changed-lem mem ps (i ∷ is) cur v dp d p ids inside same =
      let here = inside i mem-cons_self in
      let (u, e, n, q) =
        commit_lem container_row v (cur i) (mem i) ((Perm.mem_iff p).1 (mem-map_of_mem cur here)) d
          (ids i) in
      let next = written cur mem i in
      let r = replaced cur mem ps i v.rows u.rows dp here p q in
      let ids' : (j : ℕ) → (mem j).id ≡ (next j).id =
        λ j. elim (Bool-cases (j == i)) [ inl t ↦ rw (t) refl | inr t ↦ rw (t) (ids j) ] in
      let (w, e', n', s) =
        commit_changed-lem mem ps is next u dp
          (Perm.nodup (Perm.symm (Perm.map (λ (c : Container). c.id) r)) (
            subst Nodup (ids-same cur next (λ j. sym (ids j) ∙ ids' j) ps)
              (Perm.nodup (Perm.map (λ (c : Container). c.id) p) d)))
          r ids' (λ j m. inside j (mem-cons_of_mem i m))
          (λ j m. elim (Bool-cases (j == i)) [
            | inl t ↦ rw (t) refl
            | inr t ↦ rw (t) (
                same j (λ x.
                  Or.elim ⊥_prop (mem-cons.0 x) (λ z. absurd (cc (sym t ∙ (nat_beq_iff j i).1 z)))
                    m))
          ]) in
      (w, rw (e, commit_changed) e', n' ∙ n, s)
