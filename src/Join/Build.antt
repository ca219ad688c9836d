-- ===== src/Join/Build.antt =====
-- join/join.go: the loop of `HashJoin` that fills the join table.
use mathlib.Core.HLevel.{⊥_prop}
use mathlib.Core.List.Perm
use mathlib.Core.List.{
  Nodup-cons, Nodup-nil, mem-cons, mem-cons_of_mem, not-mem-nil, Mem-prop, append-nil, dec_mem,
  perm_middle,
}
use mathlib.Core.Logic.{◌∨₁◌, ∨₁_prop}
use mathlib.Core.Logic.Or
use quilt.Prelude.{
  ◌≡◌, refl, sym, ap, ◌∙◌, ◌≢◌, subst, Bool, List, [], ◌∷◌, ◌++◌, map, Mem, Nodup, Perm, arith,
  if◌then◌else◌, test, test_yes, test_no, Bool-cases, inl, inr, ◌≤◌, ◌<◌, length,
}
use quilt.Maps.{Map, delete, put, keys, values, put-Nodup, delete-cons_eq, delete-cons_ne}
use quilt.Join.Hash.{build}
use quilt.Join.Probe.{Keyed, delete-Keyed, keys-delete-mem}

module _ {K L : Type 0} (dec : Discrete K) (l_key : L → K) where
  -- Of the lefts with one key, the last.
  unfoldable pub last_of_key : List L → List L
  last_of_key [] = []
  last_of_key (l ∷ ls) =
      let rest = last_of_key ls in
      if test (dec_mem dec (l_key l) (map l_key ls)) then rest else l ∷ rest

  -- With distinct keys that is every left.
  pub last_of_key_distinct : (ls : List L) → Nodup (map l_key ls) → last_of_key ls ≡ ls
  unfolding last_of_key
  last_of_key_distinct [] d = refl
  last_of_key_distinct (l ∷ ls) d =
      let (n, d') = Nodup-cons.0 d in
      rw (test_no (dec_mem dec (l_key l) (map l_key ls)) n)
        (ap (◌∷◌ l) (last_of_key_distinct ls d'))

  last_of_key-le : (ls : List L) → length (last_of_key ls) ≤ length ls
  unfolding last_of_key
  last_of_key-le [] = omega arith
  last_of_key-le (l ∷ ls) = ground (arith, last_of_key-le ls)

  -- With a repeated key it is fewer.
  pub last_of_key_repeated :
      (ls : List L) → ¬ Nodup (map l_key ls) → length (last_of_key ls) < length ls
  unfolding last_of_key
  last_of_key_repeated [] d = absurd (d Nodup-nil)
  last_of_key_repeated (l ∷ ls) d = elim (dec_mem dec (l_key l) (map l_key ls)) [
    | yes p ↦
        rw (test_yes (dec_mem dec (l_key l) (map l_key ls)) p) (omega (arith, last_of_key-le ls))
    | no p ↦
        rw (test_no (dec_mem dec (l_key l) (map l_key ls)) p)
          (omega (arith, last_of_key_repeated ls (λ n. d (Nodup-cons.1 (p, n)))))
  ]

module _ {K L R : Type 0} (dec : Discrete K) (l_key : L → K) (r_key : R → K) where
  pub build-Keyed :
      (m : Map K L) (ls : List L)
      → Keyed dec l_key r_key m
      → Keyed dec l_key r_key (build dec l_key r_key m ls)
  unfolding build put
  build-Keyed m [] h = h
  build-Keyed m (l ∷ ls) h =
      build-Keyed (put dec m (l_key l) l) ls (refl, delete-Keyed dec l_key r_key m (l_key l) h)

  pub build-Nodup :
      (m : Map K L) (ls : List L) → Nodup (keys m) → Nodup (keys (build dec l_key r_key m ls))
  unfolding build
  build-Nodup m [] h = h
  build-Nodup m (l ∷ ls) h = build-Nodup (put dec m (l_key l) l) ls (put-Nodup dec m (l_key l) l h)

  pub build-keys :
      (m : Map K L) (ls : List L) (k : K)
      → (Mem k (keys m)) ∨₁ (Mem k (map l_key ls))
      → Mem k (keys (build dec l_key r_key m ls))
  unfolding build put
  build-keys m [] k h = Or.elim Mem-prop h (λ p. p) (λ p. absurd (not-mem-nil p))
  build-keys m (l ∷ ls) k h = build-keys (put dec m (l_key l) l) ls k (
      Or.elim (∨₁_prop) h
        (λ p. elim (dec k (l_key l)) [
          | yes q ↦ Or.inl (mem-cons.1 (Or.inl q))
          | no q ↦
              Or.inl (mem-cons_of_mem (l_key l) (keys-delete-mem dec l_key r_key m (l_key l) k p q))
        ])
        (λ p.
          Or.elim (∨₁_prop) (mem-cons.0 p) (λ q. Or.inl (mem-cons.1 (Or.inl q))) (λ q. Or.inr q)))

  without : Map K L → List K → Map K L
  without m [] = m
  without m (k ∷ ks) = without (delete dec m k) ks

  without-nil : (ks : List K) → without [] ks ≡ []
  unfolding without delete
  without-nil [] = refl
  without-nil (k ∷ ks) = without-nil ks

  without-cons :
      (k : K) (l : L) (m : Map K L) (ks : List K)
      → without ((k, l) ∷ m) ks
        ≡ (if test (dec_mem dec k ks) then without m ks else (k, l) ∷ without m ks)
  unfolding without
  without-cons k l m [] = refl
  without-cons k l m (j ∷ ks) = elim (dec k j) [
    | yes p ↦
        rw (test_yes (dec_mem dec k (j ∷ ks)) (mem-cons.1 (Or.inl p)))
          (ap (λ x. without x ks) (delete-cons_eq dec m k j l p))
    | no p ↦
        ap (λ x. without x ks) (delete-cons_ne dec m k j l p)
        ∙ without-cons k l (delete dec m j) ks
        ∙ ap
            (λ (b : Bool).
              if b then without (delete dec m j) ks else (k, l) ∷ without (delete dec m j) ks)
            (same p)
  ]
    where
      same : k ≢ j → test (dec_mem dec k ks) ≡ test (dec_mem dec k (j ∷ ks))
      same p = elim (dec_mem dec k ks) [
        | yes q ↦
            test_yes (dec_mem dec k ks) q
            ∙ sym (test_yes (dec_mem dec k (j ∷ ks)) (mem-cons_of_mem j q))
        | no q ↦
            test_no (dec_mem dec k ks) q
            ∙ sym (test_no (dec_mem dec k (j ∷ ks)) (λ c. Or.elim ⊥_prop (mem-cons.0 c) p q))
      ]

  build-values :
      (m : Map K L) (ls : List L)
      → Perm
          (values (build dec l_key r_key m ls))
          (last_of_key dec l_key ls ++ values (without m (map l_key ls)))
  unfolding build put without last_of_key
  build-values m [] = Perm.refl (values m)
  build-values m (l ∷ ls) =
      Perm.trans (build-values (put dec m (l_key l) l) ls)
        (elim (Bool-cases (test (dec_mem dec (l_key l) (map l_key ls)))) [
          | inl e ↦
              rw (without-cons (l_key l) l (delete dec m (l_key l)) (map l_key ls), e) (Perm.refl _)
          | inr e ↦
              rw (without-cons (l_key l) l (delete dec m (l_key l)) (map l_key ls), e)
                (perm_middle (last_of_key dec l_key ls)
                  (values (without (delete dec m (l_key l)) (map l_key ls))))
        ])

  -- The table holds the last left of each key.
  pub table-values :
      (ls : List L) → Perm (values (build dec l_key r_key [] ls)) (last_of_key dec l_key ls)
  table-values ls =
      subst (λ x. Perm (values (build dec l_key r_key [] ls)) x)
        (ap (λ (m : Map K L). last_of_key dec l_key ls ++ values m) (without-nil (map l_key ls))
          ∙ append-nil _)
        (build-values [] ls)
