-- ===== src/Join/Greedy.antt =====
-- join/join.go: what `Join` promises, as a relation that its loops refine.
use quilt.Prelude.{ℕ, ◌≡◌, refl, true, none, some, Option, List, [], ◌∷◌, Perm, ℤ, pos, is_neg, All}
use quilt.Join.Score.{Joined, pick, join}
use quilt.Join.Pick.{NoBetter, IsBestPick, pick-IsBestPick}

module _ {L R : Type 0} (score : L → R → ℤ) where
  -- Each left in turn takes one of the best of the rights that the earlier lefts have left, and is
  -- lonely only if it can be matched with none of them.
  pub data Greedy : List L → List R → Joined L R → Type 0 where
    done :
        (rights : List R)
        → Greedy [] rights (record { pairs = []; lonely_lefts = []; lonely_rights = rights })
    lonely :
        (l : L) (ls : List L) (rights : List R) (j : Joined L R)
        → All (λ x. is_neg (score l x) ≡ true) rights
        → Greedy ls rights j
        → Greedy (l ∷ ls) rights (record j { lonely_lefts = l ∷ j.lonely_lefts })
    matched :
        (l : L) (r : R) (s : ℕ) (ls : List L) (rights left : List R) (j : Joined L R)
        → score l r ≡ pos s
        → Perm (r ∷ left) rights
        → All (λ x. NoBetter s (score l x)) rights
        → Greedy ls left j
        → Greedy (l ∷ ls) rights (record j { pairs = (l, r) ∷ j.pairs })

  -- For any score and any two slices, `Join` matches greedily: it refines the relation.
  pub join-Greedy : (ls : List L) (rights : List R) → Greedy ls rights (join score ls rights)
  unfolding join
  join-Greedy [] rights = done rights
  join-Greedy (l ∷ ls) rights =
      step (pick score l rights) refl (pick-IsBestPick score l rights) (join-Greedy ls)
    where
      step :
          (o : Option (R × List R))
          → pick score l rights ≡ o
          → IsBestPick score l rights o
          → ((left : List R) → Greedy ls left (join score ls left))
          → Greedy (l ∷ ls) rights (join score (l ∷ ls) rights)
      step none h a ih = rw (h, join) (lonely l ls rights _ a (ih rights))
      step (some (r, left)) h (s, e, p, a) ih =
          rw (h, join) (matched l r s ls rights left _ e p a (ih left))
