-- ===== src/Scheduler/Committed.antt =====
-- minion/scheduler/master.go: what the rows say after `placeContainers`.
use mathlib.Core.List.{List}
use mathlib.Core.List.Perm
use mathlib.Core.Logic.{◌∨₁◌}
use mathlib.Core.Logic.Or
use quilt.Prelude.{Bool, ◌&&◌, ◌==◌, string_eq, ℕ, ◌≡◌, true, Option, String, Mem, Perm, All}
use quilt.Maps.{Order}
use quilt.Db.Table.{View, select}
use quilt.Db.MinionRows.{
  Container, container_row, Placement, placement_row, Minion, Image, image_row,
}
use quilt.Scheduler.Context.{Sorting, MinionState, Context}
use quilt.Scheduler.Make.{pointed, make_context}
use quilt.Scheduler.Master.{NoRoom}

module _ (lib : Sorting) (sprint : List String → String) where
  module _ (o : Order) (constraints : View Placement) (minions : List Minion) (images : View Image)
      (v : View Container) where
    abbrev pub rules_of : List Placement
    rules_of = select placement_row o (λ _. true) constraints

    abbrev pub rows_of : List Container
    rows_of = select container_row o (λ _. true) v

    abbrev pub context_of : Option Context
    context_of =
        make_context lib sprint minions rules_of rows_of (select image_row o (λ _. true) images)

    -- The row of the container names one of the minions.
    abbrev pub Placed : Context → List Container → ℕ → Type 0
    Placed done rows i = ∥ (
        (s : MinionState) × Mem s done.minions
        × Mem i s.containers
        × Mem (done.memory i) rows
        × ((done.memory i).minion ≡ s.minion.private_ip)) ∥₁

    -- The container is on a minion, with a row in the table that names the minion, or no minion can take it.
    abbrev pub Settled : Context → List Container → ℕ → Type 0
    Settled done rows i = Placed done rows i ∨₁ All (NoRoom rules_of done.memory i) done.minions

    -- The container names no minion, and its image is not one that Quilt builds.
    abbrev pub waits : ℕ → Bool
    waits j = (pointed rows_of j).minion == "" && (pointed rows_of j).dockerfile == ""
