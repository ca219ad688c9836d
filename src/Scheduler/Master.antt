-- ===== src/Scheduler/Master.antt =====
-- minion/scheduler/master.go: lemmas on `cleanupPlacements` and on the inner loop of `placeUnassigned`.
use mathlib.Core.List.{List}
use quilt.Prelude.{
  ℕ, ◌≡◌, refl, sym, ap, ◌∙◌, subst, Bool, true, false, ◌&&◌, none, some, String, [], ◌∷◌, ◌++◌,
  map, ◌==◌, nat_eq, arith, Bool-cases, Option-cases, inl, inr, All,
}
use quilt.Db.MinionRows.{Placement, Minion}
use quilt.Scheduler.Placement.{valid_placement}
use quilt.Scheduler.Context.{Memory, assign, MinionState, keep_valid, cleanup_all, place_on}
use quilt.Scheduler.Rules.{
  all, pairwise, allowed, apart, bids, valid_placement-rules, apart-sym, pairwise_snoc, all_add,
}

-- The containers of a minion obey the constraints: the minion is allowed for each, and no two are parted.
abbrev pub obeys : List Placement → Minion → List String → Bool
obeys cs m xs = all (allowed cs m) xs && pairwise (apart cs) xs

abbrev pub ids_of : Memory → List ℕ → List String
ids_of mem is = bids (map mem is)

abbrev pub Obeys : List Placement → Memory → MinionState → Type 0
Obeys cs mem s = obeys cs s.minion (ids_of mem s.containers) ≡ true

-- No minion can take the container.
abbrev pub NoRoom : List Placement → Memory → ℕ → MinionState → Type 0
NoRoom cs mem i s = valid_placement cs s.minion (map mem s.containers) (mem i) ≡ false

ids_snoc :
    (mem : Memory) (is : List ℕ) (i : ℕ)
    → ids_of mem (is ++ i ∷ []) ≡ ids_of mem is ++ (mem i).blueprint_id ∷ []
ids_snoc mem [] i = refl
ids_snoc mem (j ∷ is) i = ap (◌∷◌ (mem j).blueprint_id) (ids_snoc mem is i)

obeys-snoc :
    (cs : List Placement) (m : Minion) (xs : List String) (a : String)
    → obeys cs m (xs ++ a ∷ []) ≡ (obeys cs m xs && (allowed cs m a && all (apart cs a) xs))
obeys-snoc cs m xs a =
    regroup _ _ (all (allowed cs m) xs) (allowed cs m a) (pairwise (apart cs) xs)
      (all (apart cs a) xs) (all_add (allowed cs m) xs a)
      (pairwise_snoc (apart cs) (apart-sym cs) xs a)
  where
    regroup : (x y p q r s : Bool) → x ≡ (p && q) → y ≡ (r && s) → (x && y) ≡ ((p && r) && (q && s))
    regroup x y p q r s h h' = ground arith

module _ (cs : List Placement) where
  pub same_id :
      (mem : Memory) (i : ℕ) (ip : String) (j : ℕ)
      → (assign mem i ip j).blueprint_id ≡ (mem j).blueprint_id
  unfolding assign
  same_id mem i ip j = elim (Bool-cases (j == i)) [ inl e ↦ rw e refl | inr e ↦ rw e refl ]

  ids-same :
      (mem mem' : Memory)
      → ((j : ℕ) → (mem' j).blueprint_id ≡ (mem j).blueprint_id)
      → (is : List ℕ) → ids_of mem' is ≡ ids_of mem is
  ids-same mem mem' h [] = refl
  ids-same mem mem' h (i ∷ is) = cc (h i, ids-same mem mem' h is)

  pub valid-same :
      (mem mem' : Memory)
      → ((j : ℕ) → (mem' j).blueprint_id ≡ (mem j).blueprint_id)
      → (m : Minion) (is : List ℕ) (i : ℕ)
      → valid_placement cs m (map mem' is) (mem' i) ≡ valid_placement cs m (map mem is) (mem i)
  valid-same mem mem' h m is i =
      valid_placement-rules cs m (map mem' is) (mem' i)
      ∙ cc (h i, ids-same mem mem' h is)
      ∙ sym (valid_placement-rules cs m (map mem is) (mem i))

  Obeys-same :
      (mem mem' : Memory)
      → ((j : ℕ) → (mem' j).blueprint_id ≡ (mem j).blueprint_id)
      → (s : MinionState) → Obeys cs mem s
      → Obeys cs mem' s
  Obeys-same mem mem' h s o = ap (obeys cs s.minion) (ids-same mem mem' h s.containers) ∙ o

  pub All-same :
      (mem mem' : Memory)
      → ((j : ℕ) → (mem' j).blueprint_id ≡ (mem j).blueprint_id)
      → (ss : List MinionState) → All (Obeys cs mem) ss
      → All (Obeys cs mem') ss
  All-same mem mem' h [] a = tt
  All-same mem mem' h (s ∷ ss) a = (Obeys-same mem mem' h s a.0, All-same mem mem' h ss a.1)

  -- A container that is valid on a minion can join it.
  obeys-add :
      (mem : Memory) (m : Minion) (is : List ℕ) (i : ℕ)
      → obeys cs m (ids_of mem is) ≡ true
      → valid_placement cs m (map mem is) (mem i) ≡ true
      → obeys cs m (ids_of mem (is ++ i ∷ [])) ≡ true
  obeys-add mem m is i o v =
      ap (obeys cs m) (ids_snoc mem is i)
      ∙ obeys-snoc cs m (ids_of mem is) (mem i).blueprint_id
      ∙ both _ _ o (sym (valid_placement-rules cs m (map mem is) (mem i)) ∙ v)
    where
      both : (x y : Bool) → x ≡ true → y ≡ true → (x && y) ≡ true
      both x y h h' = ground arith

  -- Where there is no room for a container, there is none after another one joins.
  NoRoom-add :
      (mem : Memory) (m : Minion) (is : List ℕ) (i j : ℕ)
      → valid_placement cs m (map mem is) (mem i) ≡ false
      → valid_placement cs m (map mem (is ++ j ∷ [])) (mem i) ≡ false
  NoRoom-add mem m is i j v =
      valid_placement-rules cs m (map mem (is ++ j ∷ [])) (mem i)
      ∙ ap (λ xs. allowed cs m (mem i).blueprint_id && all (apart cs (mem i).blueprint_id) xs)
          (ids_snoc mem is j)
      ∙ more _ _ _ _ (all_add (apart cs (mem i).blueprint_id) (ids_of mem is) (mem j).blueprint_id)
          (sym (valid_placement-rules cs m (map mem is) (mem i)) ∙ v)
    where
      more : (a b c d : Bool) → b ≡ (c && d) → (a && c) ≡ false → (a && b) ≡ false
      more a b c d h h' = ground arith

  keep_valid-lem :
      (m : Minion) (mem : Memory) (valid is : List ℕ)
      → obeys cs m (ids_of mem valid) ≡ true
      → ((j : ℕ) → ((keep_valid cs m mem valid is).1 j).blueprint_id ≡ (mem j).blueprint_id)
        × (obeys cs m (ids_of (keep_valid cs m mem valid is).1 (keep_valid cs m mem valid is).0)
            ≡ true)
  unfolding keep_valid
  keep_valid-lem m mem valid [] o = (λ j. refl, o)
  keep_valid-lem m mem valid (i ∷ is) o =
      elim (Bool-cases (valid_placement cs m (map mem valid) (mem i))) [
        | inl e ↦
            rw (e, keep_valid)
              (keep_valid-lem m mem (valid ++ i ∷ []) is (obeys-add mem m valid i o e))
        | inr e ↦
            let (h, o') =
              keep_valid-lem m (assign mem i "") valid is
                (ap (obeys cs m) (ids-same mem (assign mem i "") (same_id mem i "") valid) ∙ o) in
            rw (e, keep_valid) (λ j. h j ∙ same_id mem i "" j, o')
      ]

  pub cleanup_all-lem :
      (mem : Memory) (ss : List MinionState)
      → ((j : ℕ) → ((cleanup_all cs mem ss).1 j).blueprint_id ≡ (mem j).blueprint_id)
        × All (Obeys cs (cleanup_all cs mem ss).1) (cleanup_all cs mem ss).0
  unfolding cleanup_all
  cleanup_all-lem mem [] = (λ j. refl, tt)
  cleanup_all-lem mem (s ∷ ss) =
      let (h, o) = keep_valid-lem s.minion mem [] s.containers refl in
      let mem' = (keep_valid cs s.minion mem [] s.containers).1 in
      let (h', os) = cleanup_all-lem mem' ss in
      (
        λ j. h' j ∙ h j,
        (
          Obeys-same mem' (cleanup_all cs mem' ss).1 h'
              (record s { containers = (keep_valid cs s.minion mem [] s.containers).0 }) o,
          os,
        ),
      )

  pub place_on-lem :
      (mem : Memory) (i : ℕ) (ss : List MinionState) (ms : List MinionState) (k : ℕ) (ip : String)
      → All (Obeys cs mem) ss
      → place_on cs mem i ss ≡ some (ms, k, ip)
      → All (Obeys cs mem) ms × ((n : ℕ) → All (NoRoom cs mem n) ss → All (NoRoom cs mem n) ms)
  unfolding place_on
  place_on-lem mem i [] ms k ip a e = absurd (cc e)
  place_on-lem mem i (s ∷ ss) ms k ip a e =
      elim (Bool-cases (valid_placement cs s.minion (map mem s.containers) (mem i))) [
        | inl v ↦ subst Good (taken v) (
          (obeys-add mem s.minion s.containers i a.0 v, a.1),
          λ n r. (NoRoom-add mem s.minion s.containers n i r.0, r.1),
        )
        | inr v ↦ elim (Option-cases (place_on cs mem i ss)) [
          | inl x ↦ absurd (lost v x)
          | inr ((ms', k', ip'), x) ↦
              let (b, f) = place_on-lem mem i ss ms' k' ip' a.1 x in
              subst Good (passed v ms' k' ip' x) ((a.0, b), λ n r. (r.0, f n r.1))
        ]
      ]
    where
      Good : List MinionState → Type 0
      Good xs =
          All (Obeys cs mem) xs
          × ((n : ℕ) → All (NoRoom cs mem n) (s ∷ ss) → All (NoRoom cs mem n) xs)

      taken :
          valid_placement cs s.minion (map mem s.containers) (mem i) ≡ true
          → (record s { containers = s.containers ++ i ∷ [] } ∷ ss) ≡ ms
      taken v = cc (rw v at e)

      lost :
          valid_placement cs s.minion (map mem s.containers) (mem i) ≡ false
          → place_on cs mem i ss ≡ none
          → ⊥
      lost v x = cc (rw (v, x) at e)

      passed :
          valid_placement cs s.minion (map mem s.containers) (mem i) ≡ false
          → (ms' : List MinionState) (k' : ℕ) (ip' : String)
          → place_on cs mem i ss ≡ some (ms', k', ip')
          → (s ∷ ms') ≡ ms
      passed v ms' k' ip' x = cc (rw (v, x) at e)

  pub place_on-none :
      (mem : Memory) (i : ℕ) (ss : List MinionState)
      → place_on cs mem i ss ≡ none
      → All (NoRoom cs mem i) ss
  unfolding place_on
  place_on-none mem i [] e = tt
  place_on-none mem i (s ∷ ss) e =
      elim (Bool-cases (valid_placement cs s.minion (map mem s.containers) (mem i))) [
        | inl v ↦ absurd (cc (rw v at e))
        | inr v ↦ elim (Option-cases (place_on cs mem i ss)) [
          | inl x ↦ (v, place_on-none mem i ss x)
          | inr (r, x) ↦ absurd (cc (rw (v, x) at e))
        ]
      ]
