-- ===== src/Scheduler/Context.antt =====
-- minion/scheduler/master.go: the scheduler's context, with its loops. The containers are shared by
-- pointers: a pointer is a number, and the memory gives the container behind it. The heap and the sort of
-- Go's library are arguments.
use mathlib.Core.Option
use mathlib.Core.List.{List, Perm}
use quilt.Prelude.{
  ℕ, suc, Bool, true, false, Option, none, some, String, [], ◌∷◌, ◌++◌, map, length, ltb,
  if◌then◌else◌, ◌==◌, string_eq, nat_eq,
}
use quilt.Db.MinionRows.{Container, Placement, Minion}
use quilt.Scheduler.Placement.{valid_placement}

-- container/heap and sort: each moves elements about, and keeps them all.
pub record Sorting : Type 1 where
  pub heap_init : (A : Type 0) → (A → A → Bool) → List A → List A
  pub heap_fix : (A : Type 0) → (A → A → Bool) → List A → ℕ → List A
  pub sort : (A : Type 0) → (A → A → Bool) → List A → List A
  pub heap_init-perm :
      (A : Type 0) (less : A → A → Bool) (xs : List A) → Perm (heap_init A less xs) xs
  pub heap_fix-perm :
      (A : Type 0) (less : A → A → Bool) (xs : List A) (i : ℕ) → Perm (heap_fix A less xs i) xs
  pub sort-perm : (A : Type 0) (less : A → A → Bool) (xs : List A) → Perm (sort A less xs) xs

abbrev pub Memory : Type 0
Memory = ℕ → Container

-- dbc.Minion = ip
unfoldable pub assign : Memory → ℕ → String → Memory
assign mem i ip j = if j == i then record (mem j) { minion = ip } else mem j

-- dbc.ImageID = id
unfoldable pub set_image : Memory → ℕ → String → Memory
set_image mem i image j = if j == i then record (mem j) { image_id = image } else mem j

-- The type `minion`.
pub record MinionState : Type 0 where
  pub minion : Minion
  pub containers : List ℕ

-- The type `context`, with the memory.
pub record Context : Type 0 where
  pub minions : List MinionState
  pub constraints : List Placement
  pub unassigned : List ℕ
  pub changed : List ℕ
  pub memory : Memory

-- minionHeap.Less
abbrev pub fewer : MinionState → MinionState → Bool
fewer a b = ltb (length a.containers) (length b.containers)

-- The inner loop of cleanupPlacements: the valid containers, the memory, and the containers that must go.
unfoldable pub keep_valid :
    List Placement → Minion → Memory → List ℕ → List ℕ → List ℕ × Memory × List ℕ
keep_valid cs m mem valid [] = (valid, mem, [])
keep_valid cs m mem valid (i ∷ is) = elim (valid_placement cs m (map mem valid) (mem i)) [
  | true ↦ keep_valid cs m mem (valid ++ i ∷ []) is
  | false ↦
      let (kept, mem', gone) = keep_valid cs m (assign mem i "") valid is in (kept, mem', i ∷ gone)
]

unfoldable pub cleanup_all :
    List Placement → Memory → List MinionState → List MinionState × Memory × List ℕ
unfolding keep_valid
cleanup_all cs mem [] = ([], mem, [])
cleanup_all cs mem (s ∷ ss) =
    let (kept, mem', gone) = keep_valid cs s.minion mem [] s.containers in
    let (rest, mem'', more) = cleanup_all cs mem' ss in
    (record s { containers = kept } ∷ rest, mem'', gone ++ more)

unfoldable pub cleanup_placements : Context → Context
unfolding cleanup_all
cleanup_placements ctx =
    let (ms, mem, gone) = cleanup_all ctx.constraints ctx.memory ctx.minions in
    record ctx {
      minions = ms;
      memory = mem;
      unassigned = ctx.unassigned ++ gone;
      changed = ctx.changed ++ gone;
    }

abbrev pub behind_one : MinionState → List MinionState × ℕ × String → List MinionState × ℕ × String
behind_one s (ss, k, ip) = (s ∷ ss, suc k, ip)

-- The inner loop of placeUnassigned: the minions with the container on the first where it may be, that
-- minion's index and its address.
unfoldable pub place_on :
    List Placement → Memory → ℕ → List MinionState → Option (List MinionState × ℕ × String)
place_on cs mem i [] = none
place_on cs mem i (s ∷ ss) =
    let rest = place_on cs mem i ss in
    if valid_placement cs s.minion (map mem s.containers) (mem i)
    then some (record s { containers = s.containers ++ i ∷ [] } ∷ ss, 0, s.minion.private_ip)
    else Option.map (behind_one s) rest

module _ (lib : Sorting) where
  -- Its outer loop: the minions, the memory and the containers that were placed.
  unfoldable pub place_all :
      List Placement → Memory → List MinionState → List ℕ → List MinionState × Memory × List ℕ
  place_all cs mem ms [] = (ms, mem, [])
  place_all cs mem ms (i ∷ is) = elim (place_on cs mem i ms) [
    | none ↦ place_all cs mem ms is
    | some (ms', k, ip) ↦
        let (rest, mem', placed) =
          place_all cs (assign mem i ip) (lib.heap_fix MinionState fewer ms' k) is in
        (rest, mem', i ∷ placed)
  ]

  unfoldable pub place_unassigned : Context → Context
  unfolding place_on place_all
  place_unassigned ctx =
      let (ms, mem, placed) =
        place_all ctx.constraints ctx.memory (lib.heap_init MinionState fewer ctx.minions)
          ctx.unassigned in
      record ctx { minions = ms; memory = mem; changed = ctx.changed ++ placed }
