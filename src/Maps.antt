-- ===== src/Maps.antt =====
-- Go's maps, as association lists over keys with a decidable equality. A `range` over a map visits
-- its entries in an order that the language leaves open: it is a parameter, of which only is known
-- that it visits each entry once.
use mathlib.Core.List.Perm
use mathlib.Core.List.{
  Nodup-cons, mem-cons, mem-cons_of_mem, not-mem-nil, Mem-prop, exists_of_mem-map, mem-map_of_mem,
}
use mathlib.Core.HLevel.{⊥_prop, ×_prop, ¬_prop}
use mathlib.Core.Logic.{∥∥₁_elim}
use mathlib.Core.Logic.Or
use quilt.Prelude.{
  ◌≡◌, refl, sym, ap, ◌∙◌, ◌≢◌, subst, Option, none, some, List, [], ◌∷◌, map, Mem, Nodup, Perm,
  arith, if◌then◌else◌, test, test_yes, test_no, Option-cases, inl, inr,
}

-- The order in which a `range` statement visits what it ranges over.
pub record Order : Type 1 where
  pub range : (A : Type 0) → List A → List A
  pub range-perm : (A : Type 0) (xs : List A) → Perm (range A xs) xs

-- The order of insertion is one such order.
abbrev pub in_order : Order
in_order = record { range = λ A xs. xs; range-perm = λ A xs. Perm.refl xs }

abbrev pub Map : Type 0 → Type 0 → Type 0
Map K V = List (K × V)

module _ {K V : Type 0} where
  abbrev pub keys : Map K V → List K
  keys = map (λ e. e.0)

  abbrev pub values : Map K V → List V
  values = map (λ e. e.1)

module _ {K V : Type 0} (dec : Discrete K) where
  -- v, ok := m[k]
  unfoldable pub get : Map K V → K → Option V
  get [] k = none
  get ((j, v) ∷ m) k = if test (dec j k) then some v else get m k

  -- delete(m, k)
  unfoldable pub delete : Map K V → K → Map K V
  delete [] k = []
  delete ((j, v) ∷ m) k = let rest = delete m k in if test (dec j k) then rest else (j, v) ∷ rest

  -- m[k] = v
  unfoldable pub put : Map K V → K → V → Map K V
  put m k v = (k, v) ∷ delete m k

  pub get-delete :
      (m : Map K V) (k j : K) → get (delete m k) j ≡ (if test (dec k j) then none else get m j)
  unfolding get delete
  get-delete [] k j = ground arith
  get-delete ((i, v) ∷ m) k j = ground (arith, get-delete m k j)

  pub get-put :
      (m : Map K V) (k j : K) (v : V)
      → get (put m k v) j ≡ (if test (dec k j) then some v else get m j)
  unfolding get put
  get-put m k j v = ground (arith, get-delete m k j)

  pub delete-cons_eq : (m : Map K V) (i k : K) (v : V) → i ≡ k → delete ((i, v) ∷ m) k ≡ delete m k
  unfolding delete
  delete-cons_eq m i k v p = rw (test_yes (dec i k) p)

  pub delete-cons_ne :
      (m : Map K V) (i k : K) (v : V) → i ≢ k → delete ((i, v) ∷ m) k ≡ (i, v) ∷ delete m k
  unfolding delete
  delete-cons_ne m i k v p = rw (test_no (dec i k) p)

  -- What is left after a delete: the entries with another key.
  pub mem-delete : (m : Map K V) (k : K) (e : K × V) → Mem e (delete m k) → Mem e m × (e.0 ≢ k)
  unfolding delete
  mem-delete [] k e h = absurd (not-mem-nil h)
  mem-delete ((i, v) ∷ m) k e h = elim (dec i k) [
    | yes p ↦
        let (n, q) = mem-delete m k e (subst (Mem e) (delete-cons_eq m i k v p) h) in
        (mem-cons_of_mem (i, v) n, q)
    | no p ↦
        Or.elim (×_prop Mem-prop ¬_prop) (mem-cons.0 (subst (Mem e) (delete-cons_ne m i k v p) h))
          (λ q. (mem-cons.1 (Or.inl q), λ r. p (sym (ap (λ (x : K × V). x.0) q) ∙ r)))
          (λ n. let (n', q) = mem-delete m k e n in (mem-cons_of_mem (i, v) n', q))
  ]

  mem-keys-delete : (m : Map K V) (k j : K) → Mem j (keys (delete m k)) → Mem j (keys m) × (j ≢ k)
  mem-keys-delete m k j h = ∥∥₁_elim (exists_of_mem-map h) (×_prop Mem-prop ¬_prop) λ w.
      let (e, n, q) = w in
      let (n', r) = mem-delete m k e n in
      (subst (λ x. Mem x (keys m)) q (mem-map_of_mem (λ (x : K × V). x.0) n'), λ s. r (q ∙ s))

  pub delete-Nodup : (m : Map K V) (k : K) → Nodup (keys m) → Nodup (keys (delete m k))
  unfolding delete
  delete-Nodup [] k h = h
  delete-Nodup ((i, v) ∷ m) k h =
      let (n, d) = Nodup-cons.0 h in
      elim (dec i k) [
        | yes p ↦ subst (λ x. Nodup (keys x)) (sym (delete-cons_eq m i k v p)) (delete-Nodup m k d)
        | no p ↦
            subst (λ x. Nodup (keys x)) (sym (delete-cons_ne m i k v p))
              (Nodup-cons.1 (λ c. n (mem-keys-delete m k i c).0, delete-Nodup m k d))
      ]

  pub put-Nodup : (m : Map K V) (k : K) (v : V) → Nodup (keys m) → Nodup (keys (put m k v))
  unfolding put
  put-Nodup m k v h = Nodup-cons.1 (λ c. (mem-keys-delete m k k c).1 refl, delete-Nodup m k h)

  pub delete_absent : (m : Map K V) (k : K) → ¬ Mem k (keys m) → delete m k ≡ m
  delete_absent [] k h = unfold delete in refl
  delete_absent ((i, v) ∷ m) k h =
      delete-cons_ne m i k v (λ p. h (mem-cons.1 (Or.inl (sym p))))
      ∙ ap (◌∷◌ (i, v)) (delete_absent m k (λ n. h (mem-cons_of_mem i n)))

  -- A key that is found comes with its value, and a key that is not found is not there.
  pub get-some-mem : (m : Map K V) (k : K) (v : V) → get m k ≡ some v → Mem (k, v) m
  unfolding get
  get-some-mem [] k v h = absurd (cc)
  get-some-mem ((i, w) ∷ m) k v h = elim (dec i k) [
    | yes p ↦ mem-cons.1 (Or.inl (ground (arith, test_yes (dec i k) p)))
    | no p ↦ mem-cons_of_mem (i, w) (get-some-mem m k v (ground (arith, test_no (dec i k) p)))
  ]

  pub get-none-mem : (m : Map K V) (k : K) → get m k ≡ none → ¬ Mem k (keys m)
  unfolding get
  get-none-mem [] k h c = not-mem-nil c
  get-none-mem ((i, w) ∷ m) k h c =
      Or.elim ⊥_prop (mem-cons.0 c) (λ p. ground (arith, test_yes (dec i k) (sym p)))
        (get-none-mem m k (ground arith))

  pub get_absent : (m : Map K V) (k : K) → ¬ Mem k (keys m) → get m k ≡ none
  get_absent m k h = elim (Option-cases (get m k)) [
    | inl e ↦ e
    | inr (v, e) ↦ absurd (h (mem-map_of_mem (λ (x : K × V). x.0) (get-some-mem m k v e)))
  ]

  -- Taking out a key that is found takes out its entry alone.
  pub delete-perm :
      (m : Map K V) (k : K) (v : V)
      → Nodup (keys m)
      → get m k ≡ some v
      → Perm ((k, v) ∷ delete m k) m
  unfolding get
  delete-perm [] k v d h = absurd (cc)
  delete-perm ((i, w) ∷ m) k v d h =
      let (n, d') = Nodup-cons.0 d in
      elim (dec i k) [
        | yes p ↦
            subst (λ x. Perm ((k, v) ∷ x) ((i, w) ∷ m))
              (sym (
                delete-cons_eq m i k w p
                ∙ delete_absent m k (λ c. n (subst (λ x. Mem x (keys m)) (sym p) c))))
              (Perm.cons' (ground (arith, test_yes (dec i k) p)) (Perm.refl m))
        | no p ↦
            subst (λ x. Perm ((k, v) ∷ x) ((i, w) ∷ m)) (sym (delete-cons_ne m i k w p))
              (Perm.trans (Perm.swap (i, w) (k, v) _)
                (Perm.cons (i, w) (delete-perm m k v d' (ground (arith, test_no (dec i k) p)))))
      ]

  some-snd : (i k : K) (w v : V) → ◌≡◌ {A = K × V} (k, v) (i, w) → some w ≡ some v
  some-snd i k w v e = sym (ap (λ (x : K × V). some (x.1)) e)

  -- An entry of a map with distinct keys is found.
  pub mem-get-some :
      IsSet (Option V)
      → (m : Map K V) (k : K) (v : V) → Nodup (keys m)
      → Mem (k, v) m
      → get m k ≡ some v
  unfolding get
  mem-get-some set [] k v d h = absurd (not-mem-nil h)
  mem-get-some set ((i, w) ∷ m) k v d h =
      let (n, d') = Nodup-cons.0 d in
      elim (dec i k) [
        | yes p ↦ rw (test_yes (dec i k) p) (
            Or.elim (set (some w) (some v)) (mem-cons.0 h) (some-snd i k w v) (λ c.
              absurd
                (n (subst (λ x. Mem x (keys m)) (sym p) (mem-map_of_mem (λ (x : K × V). x.0) c)))))
        | no p ↦ rw (test_no (dec i k) p) (
            Or.elim (set (get m k) (some v)) (mem-cons.0 h)
              (λ e. absurd (p (sym (ap (λ (x : K × V). x.0) e)))) (mem-get-some set m k v d'))
      ]

  -- A lookup does not depend on the order of the entries.
  pub get-perm :
      IsSet (Option V)
      → (m n : Map K V) (k : K) → Nodup (keys m)
      → Nodup (keys n)
      → Perm m n
      → get m k ≡ get n k
  get-perm set m n k d e p = elim (Option-cases (get n k)) [
    | inr (v, f) ↦ mem-get-some set m k v d ((Perm.mem_iff p).1 (get-some-mem n k v f)) ∙ sym f
    | inl f ↦ elim (Option-cases (get m k)) [
      | inl g ↦ g ∙ sym f
      | inr (v, g) ↦ absurd (
          get-none-mem n k f
            (mem-map_of_mem (λ (x : K × V). x.0) ((Perm.mem_iff p).0 (get-some-mem m k v g))))
    ]
  ]
