-- ===== src/Join/Matching.antt =====
-- join/join.go: what follows from a greedy matching for the users of `Join`.
use mathlib.Core.Bool.{Bool-set}
use mathlib.Core.Logic.Or
use mathlib.Core.List.Perm
use mathlib.Core.List.{mem-cons, not-mem-nil, mem-cons_of_mem}
use quilt.Prelude.{
  ◌≡◌, sym, true, false, List, [], ◌++◌, map, Mem, Perm, ℤ, is_neg, All, mem-All, arith, subst,
}
use quilt.Prelude.Perms.{perm-cons_middle}
use quilt.Join.Score.{Joined, join}
use quilt.Join.Greedy.{Greedy, done, lonely, matched, join-Greedy}

module _ {L R : Type 0} (score : L → R → ℤ) where
  lefts-perm :
      {ls : List L} {rights : List R} {j : Joined L R}
      → Greedy score ls rights j
      → Perm (map (λ p. p.0) j.pairs ++ j.lonely_lefts) ls
  lefts-perm (done rights) = Perm.refl []
  lefts-perm (lonely l ls rights j a g) =
      Perm.trans (Perm.symm (perm-cons_middle l _ (map (λ p. p.0) j.pairs) (Perm.refl _)))
        (Perm.cons l (lefts-perm g))
  lefts-perm (matched l r s ls rights left j e p a g) = Perm.cons l (lefts-perm g)

  rights-perm :
      {ls : List L} {rights : List R} {j : Joined L R}
      → Greedy score ls rights j
      → Perm (map (λ p. p.1) j.pairs ++ j.lonely_rights) rights
  rights-perm (done rights) = Perm.refl rights
  rights-perm (lonely l ls rights j a g) = rights-perm g
  rights-perm (matched l r s ls rights left j e p a g) = Perm.trans (Perm.cons r (rights-perm g)) p

  pairs-score :
      {ls : List L} {rights : List R} {j : Joined L R}
      → Greedy score ls rights j
      → All (λ p. is_neg (score p.0 p.1) ≡ false) j.pairs
  pairs-score (done rights) = tt
  pairs-score (lonely l ls rights j a g) = pairs-score g
  pairs-score (matched l r s ls rights left j e p a g) = (ground arith, pairs-score g)

  Bad : L → R → Type 0
  Bad l x = is_neg (score l x) ≡ true

  rights-mem :
      {ls : List L} {rights : List R} {j : Joined L R}
      → Greedy score ls rights j
      → (x : R) → Mem x j.lonely_rights
      → Mem x rights
  rights-mem (done rights) x m = m
  rights-mem (lonely l ls rights j a g) x m = rights-mem g x m
  rights-mem (matched l r s ls rights left j e p a g) x m =
      (Perm.mem_iff p).0 (mem-cons_of_mem r (rights-mem g x m))

  lonely-neg :
      {ls : List L} {rights : List R} {j : Joined L R}
      → Greedy score ls rights j
      → (l : L) (x : R) → Mem l j.lonely_lefts
      → Mem x j.lonely_rights
      → is_neg (score l x) ≡ true
  lonely-neg (done rights) l x m n = absurd (not-mem-nil m)
  lonely-neg (lonely l' ls rights j a g) l x m n =
      Or.elim (Bool-set _ _) (mem-cons.0 m)
        (λ e.
          subst (λ y. is_neg (score y x) ≡ true) (sym e)
            (mem-All (λ y. is_neg (score l' y) ≡ true) (λ y. Bool-set _ _) rights a x
              (rights-mem g x n)))
        (λ m'. lonely-neg g l x m' n)
  lonely-neg (matched l' r s ls rights left j e p a g) l x m n = lonely-neg g l x m n

  -- Join loses and invents nothing: the matched and the lonely lefts are together the left slice, up
  -- to order, and likewise on the right.
  pub join-partition :
      (ls : List L) (rs : List R)
      → Perm (map (λ p. p.0) (join score ls rs).pairs ++ (join score ls rs).lonely_lefts) ls
        × Perm (map (λ p. p.1) (join score ls rs).pairs ++ (join score ls rs).lonely_rights) rs
  join-partition ls rs =
      (lefts-perm (join-Greedy score ls rs), rights-perm (join-Greedy score ls rs))

  -- No pair of a join has a negative score.
  pub join-pairs-score :
      (ls : List L) (rs : List R)
      → All (λ p. is_neg (score p.0 p.1) ≡ false) (join score ls rs).pairs
  join-pairs-score ls rs = pairs-score (join-Greedy score ls rs)

  -- The matching of a join is maximal: a left and a right that both stay lonely have a negative score.
  pub join-maximal :
      (ls : List L) (rs : List R) (l : L) (r : R)
      → Mem l (join score ls rs).lonely_lefts
      → Mem r (join score ls rs).lonely_rights
      → is_neg (score l r) ≡ true
  join-maximal ls rs l r m n = lonely-neg (join-Greedy score ls rs) l r m n
