-- ===== src/Db/Examples.antt =====
-- db/db.go: runs of two transactions on the same tables.
use mathlib.Core.List.{List, Nodup-nil, Nodup-cons, mem-cons, mem-cons_self, not-mem-nil}
use mathlib.Core.HLevel.{⊥_prop}
use mathlib.Core.Logic.Or
use quilt.Prelude.{zero, ◌≡◌, ◌≢◌, ◌∙◌, refl, arith, some, [], ◌∷◌, Nodup, ◌+◌, nat_eq}
use quilt.Db.Tables.{TableType, machine, container, table_less}
use quilt.Db.Locks.{
  locking, State, start, set_owner, set_phase, Move, lock, begin, move, Reach, here, next,
}
use quilt.Db.Owners.{mutual_exclusion, set_phase_other}
use quilt.Db.Progress.{CanMove, progress}
use quilt.Db.Drain.{total, Below, none_yet, then, Moves-total}
use quilt.Db.Sorts.{insertion, insert, sort}

abbrev both : List TableType
both = machine ∷ container ∷ []

distinct : machine ≢ container
distinct e = cc

both-Nodup : Nodup both
both-Nodup =
    Nodup-cons.1 (
      λ m. Or.elim ⊥_prop (mem-cons.0 m) distinct not-mem-nil,
      Nodup-cons.1 (not-mem-nil, Nodup-nil),
    )

-- Both transactions have begun, and the first has the mutex of the containers.
abbrev one_begun : State
one_begun = record start { phase = set_phase start 0 (locking [] (container ∷ machine ∷ [])) }

abbrev two_begun : State
two_begun = record one_begun {
  phase = set_phase one_begun 1 (locking [] (container ∷ machine ∷ []));
}

abbrev one_locked : State
one_locked = record {
  owner = set_owner two_begun container (some 0);
  phase = set_phase two_begun 0 (locking (container ∷ []) (machine ∷ []));
}

sorted : insertion.sort both ≡ container ∷ machine ∷ []
unfolding insertion sort insert table_less
sorted = refl

locked : Move two_begun one_locked
locked = lock 0 container [] (machine ∷ []) refl refl refl

one_locked-Reach : Reach insertion one_locked
one_locked-Reach =
    next
      (next {s = one_begun} (next {s = start} here (begin 0 both both-Nodup refl (rw sorted)))
        (begin 1 both both-Nodup refl (rw sorted)))
      (move locked)

one_locked-Below : Below 2 one_locked
one_locked-Below i h =
    set_phase_other two_begun 0 i _ (λ e. absurd (omega arith))
    ∙ set_phase_other one_begun 1 i _ (λ e. absurd (omega arith))
    ∙ set_phase_other start 0 i _ (λ e. absurd (omega arith))

mutual_exclusion_example : zero ≡ zero
mutual_exclusion_example =
    mutual_exclusion insertion one_locked container 0 0 one_locked-Reach mem-cons_self mem-cons_self

-- The second waits for the first, and the first can go on.
progress_example : CanMove one_locked
progress_example = progress insertion one_locked 1 one_locked-Reach (λ e. cc)

two_begun-Below : Below 2 two_begun
two_begun-Below i h =
    set_phase_other one_begun 1 i _ (λ e. absurd (omega arith))
    ∙ set_phase_other start 0 i _ (λ e. absurd (omega arith))

Moves-total_example :
    (1 + total 2 (one_locked.phase) ≡ total 2 (two_begun.phase)) × Below 2 one_locked
Moves-total_example = Moves-total 2 two_begun 1 one_locked two_begun-Below (then none_yet locked)

work_left : total 2 (one_locked.phase) ≡ 11
work_left = refl
