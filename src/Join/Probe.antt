-- ===== src/Join/Probe.antt =====
-- join/join.go: the loop of `HashJoin` over the rights.
use mathlib.Core.HLevel.{⊥_prop, ×_prop, ¬_prop}
use mathlib.Core.List.Perm
use mathlib.Core.List.{Nodup-cons, mem-cons, mem-cons_of_mem, not-mem-nil, mem-map_of_mem, Mem-prop}
use mathlib.Core.Logic.Or
use quilt.Prelude.{
  ◌≡◌, sym, ◌∙◌, ◌≢◌, subst, none, some, List, [], ◌∷◌, ◌++◌, map, Mem, Nodup, Perm, arith, test,
  test_yes, test_no, Bool-cases, inl, inr, All, Option-cases,
}
use quilt.Prelude.Perms.{perm-cons_middle}
use quilt.Maps.{
  Map, get, delete, keys, values, delete-Nodup, delete-perm, get-none-mem, mem-delete,
  delete-cons_eq, delete-cons_ne,
}
use quilt.Join.Score.{Joined}
use quilt.Join.Hash.{probe}

module _ {K L R : Type 0} (dec : Discrete K) (l_key : L → K) (r_key : R → K) where
  -- Every entry of a join table stands under the key of its value.
  abbrev pub Keyed : Map K L → Type 0
  Keyed m = All (λ e. e.0 ≡ l_key e.1) m

  pub delete-Keyed : (m : Map K L) (k : K) → Keyed m → Keyed (delete dec m k)
  unfolding delete
  delete-Keyed [] k h = h
  delete-Keyed ((i, v) ∷ m) k h = elim (Bool-cases (test (dec i k))) [
    | inl e ↦ rw e (delete-Keyed m k h.1)
    | inr e ↦ rw e (h.0, delete-Keyed m k h.1)
  ]

  get-Keyed : (m : Map K L) (k : K) (l : L) → Keyed m → get dec m k ≡ some l → l_key l ≡ k
  unfolding get
  get-Keyed [] k l h e = absurd (cc)
  get-Keyed ((i, v) ∷ m) k l h e = elim (dec i k) [
    | yes p ↦ ground (arith, test_yes (dec i k) p)
    | no p ↦ get-Keyed m k l h.1 (ground (arith, test_no (dec i k) p))
  ]

  abbrev pub probed : Map K L → List R → Joined L R
  probed m rs = (probe dec l_key r_key m rs).0

  abbrev pub left_over : Map K L → List R → Map K L
  left_over m rs = (probe dec l_key r_key m rs).1

  -- A property of a probe, by induction on the rights: at the end, at a hit and at a miss.
  probe_induction :
      (P : Map K L → List R → Joined L R × Map K L → Type 0)
      → ((m : Map K L) → P m [] (record { pairs = []; lonely_lefts = []; lonely_rights = [] }, m))
      → ((m : Map K L) (r : R) (rs : List R) (l : L) (j : Joined L R × Map K L)
          → get dec m (r_key r) ≡ some l
          → P (delete dec m (r_key r)) rs j
          → P m (r ∷ rs) (
            record {
              pairs = (l, r) ∷ j.0.pairs;
              lonely_lefts = j.0.lonely_lefts;
              lonely_rights = j.0.lonely_rights;
            },
            j.1,
          ))
      → ((m : Map K L) (r : R) (rs : List R) (j : Joined L R × Map K L)
          → get dec m (r_key r) ≡ none
          → P m rs j
          → P m (r ∷ rs) (
            record {
              pairs = j.0.pairs;
              lonely_lefts = j.0.lonely_lefts;
              lonely_rights = r ∷ j.0.lonely_rights;
            },
            j.1,
          ))
      → (m : Map K L) (rs : List R) → P m rs (probe dec l_key r_key m rs)
  unfolding probe
  probe_induction P end hit miss m [] = end m
  probe_induction P end hit miss m (r ∷ rs) = elim (Option-cases (get dec m (r_key r))) [
    | inl e ↦
        rw (e, probe)
          (miss m r rs (probe dec l_key r_key m rs) e (probe_induction P end hit miss m rs))
    | inr (l, e) ↦
        rw (e, probe)
          (hit m r rs l (probe dec l_key r_key (delete dec m (r_key r)) rs) e
            (probe_induction P end hit miss (delete dec m (r_key r)) rs))
  ]

  pub probe-rights :
      (m : Map K L) (rs : List R)
      → Perm (map (λ p. p.1) (probed m rs).pairs ++ (probed m rs).lonely_rights) rs
  probe-rights =
      probe_induction (λ m rs j. Perm (map (λ p. p.1) j.0.pairs ++ j.0.lonely_rights) rs)
        (λ m. Perm.refl []) (λ m r rs l j e p. Perm.cons r p)
        (λ m r rs j e p.
          Perm.trans (Perm.symm (perm-cons_middle r _ (map (λ p. p.1) j.0.pairs) (Perm.refl _)))
            (Perm.cons r p))

  pub probe-lefts :
      (m : Map K L) (rs : List R)
      → Nodup (keys m)
      → Perm (map (λ p. p.0) (probed m rs).pairs ++ values (left_over m rs)) (values m)
  probe-lefts =
      probe_induction
        (λ m rs j. Nodup (keys m) → Perm (map (λ p. p.0) j.0.pairs ++ values j.1) (values m))
        (λ m d. Perm.refl (values m))
        (λ m r rs l j e p d.
          Perm.trans (Perm.cons l (p (delete-Nodup dec m (r_key r) d)))
            (Perm.map (λ e. e.1) (delete-perm dec m (r_key r) l d e)))
        (λ m r rs j e p d. p d)

  pub probe-pairs :
      (m : Map K L) (rs : List R) → Keyed m → All (λ p. l_key p.0 ≡ r_key p.1) (probed m rs).pairs
  probe-pairs =
      probe_induction (λ m rs j. Keyed m → All (λ p. l_key p.0 ≡ r_key p.1) j.0.pairs) (λ m h. tt)
        (λ m r rs l j e p h. (get-Keyed m (r_key r) l h e, p (delete-Keyed m (r_key r) h)))
        (λ m r rs j e p h. p h)

  -- What stays in the table was there, under a key that no right has.
  pub left_over-mem :
      (m : Map K L) (rs : List R) (e : K × L)
      → Mem e (left_over m rs)
      → Mem e m × ¬ Mem e.0 (map r_key rs)
  left_over-mem =
      probe_induction (λ m rs j. (e : K × L) → Mem e j.1 → Mem e m × ¬ Mem e.0 (map r_key rs))
        (λ m e h. (h, λ c. not-mem-nil c))
        (λ m r rs l j e p x h.
          let (n, q) = p x h in
          let (n', s) = mem-delete dec m (r_key r) x n in
          (n', λ c. Or.elim ⊥_prop (mem-cons.0 c) s q))
        (λ m r rs j e p x h.
          let (n, q) = p x h in
          (
            n,
            λ c.
                Or.elim ⊥_prop (mem-cons.0 c)
                  (λ s.
                    get-none-mem dec m (r_key r) e
                      (subst (λ k. Mem k (keys m)) s (mem-map_of_mem (λ (x : K × L). x.0) n)))
                  q,
          ))

  pub keys-delete-mem :
      (m : Map K L) (k j : K) → Mem j (keys m) → j ≢ k → Mem j (keys (delete dec m k))
  keys-delete-mem [] k j h n = absurd (not-mem-nil h)
  keys-delete-mem ((i, v) ∷ m) k j h n = elim (dec i k) [
    | yes p ↦
        subst (λ x. Mem j (keys x)) (sym (delete-cons_eq dec m i k v p))
          (Or.elim Mem-prop (mem-cons.0 h) (λ q. absurd (n (q ∙ p)))
            (λ q. keys-delete-mem m k j q n))
    | no p ↦
        subst (λ x. Mem j (keys x)) (sym (delete-cons_ne dec m i k v p))
          (Or.elim Mem-prop (mem-cons.0 h) (λ q. mem-cons.1 (Or.inl q))
            (λ q. mem-cons_of_mem i (keys-delete-mem m k j q n)))
  ]

  -- With distinct right keys a lonely right has a key that the table never had.
  pub probe-lonely_rights :
      (m : Map K L) (rs : List R)
      → Nodup (map r_key rs)
      → (x : R) → Mem x (probed m rs).lonely_rights
      → Mem x rs × ¬ Mem (r_key x) (keys m)
  probe-lonely_rights =
      probe_induction
        (λ m rs j.
          Nodup (map r_key rs)
          → (x : R) → Mem x j.0.lonely_rights
          → Mem x rs × ¬ Mem (r_key x) (keys m))
        (λ m d x h. absurd (not-mem-nil h))
        (λ m r rs l j e p d x h.
          let (n, d') = Nodup-cons.0 d in
          let (q, s) = p d' x h in
          (
            mem-cons_of_mem r q,
            λ c. s (
                keys-delete-mem m (r_key r) (r_key x) c
                  (λ t. n (subst (λ k. Mem k (map r_key rs)) t (mem-map_of_mem r_key q)))),
          ))
        (λ m r rs j e p d x h.
          let (n, d') = Nodup-cons.0 d in
          Or.elim (×_prop Mem-prop ¬_prop) (mem-cons.0 h)
            (λ t. (
              mem-cons.1 (Or.inl t),
              subst (λ y. ¬ Mem (r_key y) (keys m)) (sym t) (get-none-mem dec m (r_key r) e),
            ))
            (λ t. let (q, s) = p d' x t in (mem-cons_of_mem r q, s)))
