-- ===== src/Scheduler/Tied.antt =====
-- minion/scheduler/master.go: the lists of the context and the minion that each container's row names.
use mathlib.Core.HLevel.{hedberg}
use mathlib.Core.List.{
  List, mem-cons, mem-cons_self, mem-cons_of_mem, mem-append, mem-append_left, mem-append_right,
  not-mem-nil, append_assoc, perm_middle, perm_append_comm, Nodup-cons, Nodup-append,
}
use mathlib.Core.List.Perm
use mathlib.Core.Logic.Or
use quilt.Prelude.{
  ℕ, ◌≡◌, refl, sym, ap, ◌∙◌, subst, some, String, [], ◌∷◌, ◌++◌, map, Mem, Nodup, Perm, nat_eq,
  Bool-cases, Option-cases, inl, inr, string_discrete,
}
use quilt.Db.MinionRows.{Placement, Minion}
use quilt.Scheduler.Placement.{valid_placement}
use quilt.Scheduler.Context.{
  Sorting, Memory, assign, MinionState, fewer, keep_valid, cleanup_all, place_on, place_all,
}
use quilt.Scheduler.Held.{
  Tied, Tied-cons, Tied-same, assign_here, assign_other, held, held-perm, not_it,
}

module _ (cs : List Placement) where
  pub place_on-Tied :
      (mem : Memory) (i : ℕ) (ss ms : List MinionState) (k : ℕ) (ip : String)
      → ¬ Mem i (held ss)
      → Tied mem ss
      → place_on cs mem i ss ≡ some (ms, k, ip)
      → Tied (assign mem i ip) ms × Perm (held ms) (i ∷ held ss)
  unfolding place_on held
  place_on-Tied mem i [] ms k ip n t e = absurd (cc e)
  place_on-Tied mem i (s ∷ ss) ms k ip n t e =
      elim (Bool-cases (valid_placement cs s.minion (map mem s.containers) (mem i))) [
        | inl v ↦
            let taken : (record s { containers = s.containers ++ i ∷ [] } ∷ ss) ≡ ms =
              cc (rw v at e) in
            let named : s.minion.private_ip ≡ ip = cc (rw v at e) in
            subst (λ xs. Tied (assign mem i ip) xs × Perm (held xs) (i ∷ held (s ∷ ss))) taken
              (subst
                (λ a.
                  Tied (assign mem i a) (record s { containers = s.containers ++ i ∷ [] } ∷ ss)
                  × Perm ((s.containers ++ i ∷ []) ++ held ss) (i ∷ held (s ∷ ss)))
                named
                (
                  Tied-cons (assign mem i s.minion.private_ip)
                      (record s { containers = s.containers ++ i ∷ [] }) ss
                      (λ j m.
                        Or.elim (hedberg string_discrete _ _) (mem-append.0 m)
                          (λ m'.
                            ap (λ c. c.minion)
                              (assign_other mem i s.minion.private_ip j
                                (not_it s.containers (λ x. n (mem-append_left (held ss) x)) m'))
                            ∙ t s mem-cons_self j m')
                          (λ m'.
                            Or.elim (hedberg string_discrete _ _) (mem-cons.0 m')
                              (λ q.
                                ap (λ x. (assign mem i s.minion.private_ip x).minion) q
                                ∙ assign_here mem i s.minion.private_ip)
                              (λ x. absurd (not-mem-nil x))))
                      (Tied-same mem (assign mem i s.minion.private_ip) ss
                        (λ j m.
                          assign_other mem i s.minion.private_ip j
                            (not_it (held ss) (λ x. n (mem-append_right s.containers x)) m))
                        (λ s' m. t s' (mem-cons_of_mem s m))),
                  subst (λ xs. Perm xs (i ∷ (s.containers ++ held ss)))
                      (sym (append_assoc s.containers (i ∷ []) (held ss)))
                      (perm_middle s.containers (held ss)),
                ))
        | inr v ↦ elim (Option-cases (place_on cs mem i ss)) [
          | inl x ↦ absurd (cc (rw (v, x) at e))
          | inr ((ms', k', ip'), x) ↦
              let passed : (s ∷ ms') ≡ ms = cc (rw (v, x) at e) in
              let named : ip' ≡ ip = cc (rw (v, x) at e) in
              let (t', p) =
                place_on-Tied mem i ss ms' k' ip' (λ y. n (mem-append_right s.containers y))
                  (λ s' m. t s' (mem-cons_of_mem s m)) x in
              subst (λ xs. Tied (assign mem i ip) xs × Perm (held xs) (i ∷ held (s ∷ ss))) passed
                (subst
                  (λ a.
                    Tied (assign mem i a) (s ∷ ms')
                    × Perm (s.containers ++ held ms') (i ∷ held (s ∷ ss)))
                  named
                  (
                    Tied-cons (assign mem i ip') s ms'
                        (λ j m.
                          ap (λ c. c.minion)
                            (assign_other mem i ip' j
                              (not_it s.containers (λ y. n (mem-append_left (held ss) y)) m))
                          ∙ t s mem-cons_self j m)
                        t',
                    Perm.trans (Perm.append_left s.containers p)
                        (perm_middle s.containers (held ss)),
                  ))
        ]
      ]

  -- The inner loop of cleanupPlacements: what stays on the minion keeps its row, what goes has no minion, and
  -- nothing else changes.
  pub keep_valid-Sits :
      (m : Minion) (mem : Memory) (valid is : List ℕ)
      → Nodup (valid ++ is)
      → ((i : ℕ) → Mem i (valid ++ is) → (mem i).minion ≡ m.private_ip)
      → let r = keep_valid cs m mem valid is in
        ((i : ℕ) → Mem i r.0 → (r.1 i).minion ≡ m.private_ip)
        × ((j : ℕ) → ¬ Mem j r.2 → r.1 j ≡ mem j)
        × Perm (r.0 ++ r.2) (valid ++ is)
  unfolding keep_valid
  keep_valid-Sits m mem valid [] d h =
      (λ i n. h i (mem-append_left [] n), λ j n. refl, Perm.refl (valid ++ []))
  keep_valid-Sits m mem valid (i ∷ is) d h =
      elim (Bool-cases (valid_placement cs m (map mem valid) (mem i))) [
        | inl v ↦
            let again = append_assoc valid (i ∷ []) is in
            let (a, b, p) =
              keep_valid-Sits m mem (valid ++ i ∷ []) is (subst Nodup (sym again) d)
                (λ j n. h j (subst (λ xs. Mem j xs) again n)) in
            rw (v, keep_valid)
              (
                a,
                b,
                Perm.trans p (
                    subst (λ xs. Perm xs (valid ++ i ∷ is)) (sym again)
                      (Perm.refl (valid ++ i ∷ is))),
              )
        | inr v ↦
            let mid = perm_middle {a = i} valid is in
            let (absent, d') = Nodup-cons.0 (Perm.nodup mid d) in
            let (a, b, p) = keep_valid-Sits m (assign mem i "") valid is d' (λ j n.
              ap (λ c. c.minion) (assign_other mem i "" j (not_it (valid ++ is) absent n))
              ∙ h j ((Perm.mem_iff mid).1 (mem-cons_of_mem i n))) in
            let (kept, mem', gone) = keep_valid cs m (assign mem i "") valid is in
            rw (v, keep_valid)
              (
                a,
                λ j n.
                    b j (λ x. n (mem-cons_of_mem i x))
                    ∙ assign_other mem i "" j (λ e. n (mem-cons.1 (Or.inl e))),
                Perm.trans (perm_middle kept gone) (Perm.trans (Perm.cons i p) (Perm.symm mid)),
              )
      ]

  -- cleanupPlacements.
  pub cleanup_all-Tied :
      (mem : Memory) (ss : List MinionState)
      → Nodup (held ss)
      → Tied mem ss
      → let r = cleanup_all cs mem ss in
        Tied r.1 r.0 × ((j : ℕ) → ¬ Mem j r.2 → r.1 j ≡ mem j) × Perm (held r.0 ++ r.2) (held ss)
  unfolding cleanup_all held
  cleanup_all-Tied mem [] d t = (λ s m. absurd (not-mem-nil m), λ j n. refl, Perm.refl [])
  cleanup_all-Tied mem (s ∷ ss) d t =
      let (d1, d2, apart) = Nodup-append.0 d in
      let (a, b, p) =
        keep_valid-Sits s.minion mem [] s.containers d1 (λ i n. t s mem-cons_self i n) in
      let (kept, mem', gone) = keep_valid cs s.minion mem [] s.containers in
      let inside : (j : ℕ) → Mem j (kept ++ gone) → Mem j s.containers =
        λ j n. (Perm.mem_iff p).0 n in
      let (a', b', p') = cleanup_all-Tied mem' ss d2 (
        Tied-same mem mem' ss (λ j m. b j (λ x. apart j (inside j (mem-append_right kept x)) m))
          (λ s' m. t s' (mem-cons_of_mem s m))) in
      let (rest, mem'', more) = cleanup_all cs mem' ss in
      (
        Tied-cons mem'' (record s { containers = kept }) rest
            (λ j m.
              ap (λ c. c.minion)
                (b' j (λ x.
                  apart j (inside j (mem-append_left gone m))
                    ((Perm.mem_iff p').0 (mem-append_right (held rest) x))))
              ∙ a j m)
            a',
        λ j n. b' j (λ x. n (mem-append_right gone x)) ∙ b j (λ x. n (mem-append_left more x)),
        Perm.trans (regroup kept (held rest) gone more) (Perm.append p p'),
      )
    where
      regroup : (ws xs ys zs : List ℕ) → Perm ((ws ++ xs) ++ (ys ++ zs)) ((ws ++ ys) ++ (xs ++ zs))
      regroup ws xs ys zs =
          subst (λ l. Perm l ((ws ++ ys) ++ (xs ++ zs))) (sym (append_assoc ws xs (ys ++ zs)))
            (subst (Perm (ws ++ (xs ++ (ys ++ zs)))) (sym (append_assoc ws ys (xs ++ zs))) (
              Perm.append_left ws (
                subst (λ l. Perm l (ys ++ (xs ++ zs))) (append_assoc xs ys zs)
                  (subst (Perm ((xs ++ ys) ++ zs)) (append_assoc ys xs zs)
                    (Perm.append_right zs (perm_append_comm xs ys))))))

  pub Tied-perm : (mem : Memory) (xs ys : List MinionState) → Perm xs ys → Tied mem ys → Tied mem xs
  Tied-perm mem xs ys p t s m = t s ((Perm.mem_iff p).0 m)

  -- placeUnassigned: a container that is placed is told the address of the minion that it is placed on, and no
  -- other one changes.
  pub place_all-Tied :
      (lib : Sorting) (mem : Memory) (ms : List MinionState) (is : List ℕ)
      → Nodup (held ms ++ is)
      → Tied mem ms
      → let r = place_all lib cs mem ms is in Tied r.1 r.0 × ((j : ℕ) → ¬ Mem j r.2 → r.1 j ≡ mem j)
  unfolding place_all
  place_all-Tied lib mem ms [] d t = (t, λ j n. refl)
  place_all-Tied lib mem ms (i ∷ is) d t =
      let mid = perm_middle {a = i} (held ms) is in
      let (absent, d') = Nodup-cons.0 (Perm.nodup mid d) in
      elim (Option-cases (place_on cs mem i ms)) [
        | inl e ↦ rw (e, place_all) (place_all-Tied lib mem ms is d' t)
        | inr ((ms', k, ip), e) ↦
            let (t', p) =
              place_on-Tied mem i ms ms' k ip (λ x. absent (mem-append_left is x)) t e in
            let heap = lib.heap_fix MinionState fewer ms' k in
            let q = lib.heap_fix-perm MinionState fewer ms' k in
            let (a, b) =
              place_all-Tied lib (assign mem i ip) heap is
                (Perm.nodup (Perm.symm (Perm.append_right is (Perm.trans (held-perm heap ms' q) p)))
                  (Perm.nodup mid d))
                (Tied-perm (assign mem i ip) heap ms' q t') in
            rw (e, place_all)
              (
                a,
                λ j n.
                    b j (λ x. n (mem-cons_of_mem i x))
                    ∙ assign_other mem i ip j (λ z. n (mem-cons.1 (Or.inl z))),
              )
      ]
