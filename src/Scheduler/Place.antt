-- ===== src/Scheduler/Place.antt =====
-- minion/scheduler/master.go: a whole round of the scheduler.
use mathlib.Core.Bool.{Bool-set}
use mathlib.Core.List.Perm
use mathlib.Core.List.{List}
use mathlib.Core.Logic.{◌∨₁◌}
use mathlib.Core.Logic.Or
use quilt.Prelude.{
  ℕ, ◌≡◌, refl, sym, ◌∙◌, subst, [], ◌∷◌, Option-cases, inl, inr, All, All-perm, Perm,
}
use quilt.Db.MinionRows.{Placement}
use quilt.Scheduler.Context.{
  Sorting, Memory, assign, MinionState, Context, fewer, cleanup_placements, place_on, place_all,
  place_unassigned,
}
use quilt.Scheduler.OnMinion.{On, On-perm, place_on-On}
use quilt.Scheduler.Master.{
  Obeys, NoRoom, same_id, valid-same, All-same, cleanup_all-lem, place_on-lem, place_on-none,
}

module _ (lib : Sorting) (cs : List Placement) where
  NoRoom-same :
      (mem mem' : Memory)
      → ((j : ℕ) → (mem' j).blueprint_id ≡ (mem j).blueprint_id)
      → (n : ℕ) (ss : List MinionState) → All (NoRoom cs mem n) ss
      → All (NoRoom cs mem' n) ss
  NoRoom-same mem mem' h n [] a = tt
  NoRoom-same mem mem' h n (s ∷ ss) a =
      (valid-same cs mem mem' h s.minion s.containers n ∙ a.0, NoRoom-same mem mem' h n ss a.1)

  Obeys-perm :
      (mem : Memory) (xs ys : List MinionState)
      → Perm xs ys
      → All (Obeys cs mem) ys
      → All (Obeys cs mem) xs
  Obeys-perm mem xs ys p = All-perm (Obeys cs mem) (λ s. Bool-set _ _) ys xs (Perm.symm p)

  NoRoom-perm :
      (mem : Memory) (n : ℕ) (xs ys : List MinionState)
      → Perm xs ys
      → All (NoRoom cs mem n) ys
      → All (NoRoom cs mem n) xs
  NoRoom-perm mem n xs ys p = All-perm (NoRoom cs mem n) (λ s. Bool-set _ _) ys xs (Perm.symm p)

  -- What the outer loop makes of minions that obey the constraints.
  abbrev Round : Memory → List MinionState → List ℕ → List MinionState × Memory × List ℕ → Type 0
  Round mem ms is (ms', mem', placed) =
      ((j : ℕ) → (mem' j).blueprint_id ≡ (mem j).blueprint_id)
      × All (Obeys cs mem') ms'
      × ((n : ℕ) → All (NoRoom cs mem n) ms → All (NoRoom cs mem' n) ms')
      × ((n : ℕ) → On n ms → On n ms')
      × All (λ i. On i ms' ∨₁ All (NoRoom cs mem' i) ms') is

  place_all-lem :
      (mem : Memory) (ms : List MinionState) (is : List ℕ)
      → All (Obeys cs mem) ms
      → Round mem ms is (place_all lib cs mem ms is)
  unfolding place_all
  place_all-lem mem ms [] a = (λ j. refl, a, λ n r. r, λ n r. r, tt)
  place_all-lem mem ms (i ∷ is) a = elim (Option-cases (place_on cs mem i ms)) [
    | inl e ↦
        let (h, o, f, u, c) = place_all-lem mem ms is a in
        let same : place_all lib cs mem ms (i ∷ is) ≡ place_all lib cs mem ms is =
          rw (e, place_all) refl in
        subst (Round mem ms (i ∷ is)) (sym same)
          (h, o, f, u, (Or.inr (f i (place_on-none cs mem i ms e)), c))
    | inr ((ms', k, ip), e) ↦
        let (b, g) = place_on-lem cs mem i ms ms' k ip a e in
        let (on, still) = place_on-On cs mem i ms ms' k ip e in
        let mem' = assign mem i ip in
        let heap = lib.heap_fix MinionState fewer ms' k in
        let p = lib.heap_fix-perm MinionState fewer ms' k in
        let (h, o, f, u, c) =
          place_all-lem mem' heap is
            (All-same cs mem mem' (same_id cs mem i ip) heap (Obeys-perm mem heap ms' p b)) in
        let (rest, mem'', placed) = place_all lib cs mem' heap is in
        let same : place_all lib cs mem ms (i ∷ is) ≡ (rest, mem'', i ∷ placed) =
          rw (e, place_all) refl in
        subst (Round mem ms (i ∷ is)) (sym same) (
          λ j. h j ∙ same_id cs mem i ip j,
          o,
          λ n r. f n (
              NoRoom-same mem mem' (same_id cs mem i ip) n heap
                (NoRoom-perm mem n heap ms' p (g n r))),
          λ n r. u n (On-perm n ms' heap (Perm.symm p) (still n r)),
          (Or.inl (u i (On-perm i ms' heap (Perm.symm p) on)), c),
        )
  ]

-- placeContainers, behind makeContext and before the commits.
unfoldable pub schedule : Sorting → Context → Context
unfolding cleanup_placements place_unassigned
schedule lib ctx = place_unassigned lib (cleanup_placements ctx)

-- After a round of the scheduler, whatever was placed before it, every minion obeys all constraints: it is
-- allowed for each of its containers, and no rule keeps two of them apart. No blueprint id changes.
pub schedule-Obeys :
    (lib : Sorting) (ctx : Context)
    → All (Obeys ctx.constraints (schedule lib ctx).memory) (schedule lib ctx).minions
      × ((j : ℕ) → ((schedule lib ctx).memory j).blueprint_id ≡ (ctx.memory j).blueprint_id)
unfolding schedule place_unassigned cleanup_placements
schedule-Obeys lib ctx =
    let (h, o) = cleanup_all-lem ctx.constraints ctx.memory ctx.minions in
    let clean = cleanup_placements ctx in
    let (h', o', f, u, c) =
      place_all-lem lib ctx.constraints clean.memory (lib.heap_init MinionState fewer clean.minions)
        clean.unassigned
        (Obeys-perm lib ctx.constraints clean.memory _ _
          (lib.heap_init-perm MinionState fewer clean.minions) o) in
    (o', λ j. h' j ∙ h j)

-- Every container that waits for a minion, or that the round takes off its own, is on some minion after the
-- round, unless no minion could take it even then.
pub schedule_complete :
    (lib : Sorting) (ctx : Context)
    → All
        (λ i.
          On i (schedule lib ctx).minions
          ∨₁ All (NoRoom ctx.constraints (schedule lib ctx).memory i) (schedule lib ctx).minions)
        (cleanup_placements ctx).unassigned
unfolding schedule place_unassigned cleanup_placements
schedule_complete lib ctx =
    let (h, o) = cleanup_all-lem ctx.constraints ctx.memory ctx.minions in
    let clean = cleanup_placements ctx in
    let p = lib.heap_init-perm MinionState fewer clean.minions in
    let (h', o', f, u, c) =
      place_all-lem lib ctx.constraints clean.memory (lib.heap_init MinionState fewer clean.minions)
        clean.unassigned (Obeys-perm lib ctx.constraints clean.memory _ _ p o) in
    c
