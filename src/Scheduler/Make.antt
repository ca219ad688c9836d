-- ===== src/Scheduler/Make.antt =====
-- minion/scheduler/master.go: `makeContext`, `dbcSlice.Less` and `placeContainers`.
use mathlib.Core.Option
use mathlib.Core.List.{List}
use quilt.Prelude.{
  ℕ, zero, suc, Bool, true, false, not, ◌&&◌, ◌||◌, Option, none, some, String, [], ◌∷◌, ◌++◌,
  length, if◌then◌else◌, ◌==◌, ◌!=◌, string_eq, nat_eq, test, string_discrete, lt_text,
}
use quilt.Maps.{Order, Map, get, put}
use quilt.Db.Table.{View, select, commit}
use quilt.Db.Rows.{Role, Role-discrete}
use quilt.Db.MinionRows.{
  Container, blank_container, container_row, Placement, placement_row, Minion, Image, image_row,
}
use quilt.Scheduler.Context.{
  Sorting, Memory, assign, set_image, MinionState, Context, cleanup_placements, place_unassigned,
}
use quilt.Minion.Blueprint.{BlueprintImage, BlueprintImage-discrete}

-- The loop over the minions: those that take containers, and the index of each by its address.
unfoldable pub workers :
    ℕ → List Minion → List MinionState × Map String ℕ → List MinionState × Map String ℕ
workers k [] (ms, by_ip) = (ms, by_ip)
workers k (m ∷ rest) (ms, by_ip) =
    elim (not (test (Role-discrete m.role Role.worker)) || m.private_ip == "") [
      | true ↦ workers k rest (ms, by_ip)
      | false ↦ workers (suc k) rest (
        ms ++ record { minion = m; containers = [] } ∷ [],
        put string_discrete by_ip m.private_ip k,
      )
    ]

-- builtImages, by name and Dockerfile.
unfoldable pub built_images : List Image → Map BlueprintImage Image → Map BlueprintImage Image
built_images [] built = built
built_images (img ∷ imgs) built = built_images imgs (
    if img.status == "built"
    then put BlueprintImage-discrete built (record { name = img.name; dockerfile = img.dockerfile })
        img
    else built)

-- minion.containers = append(minion.containers, dbc)
unfoldable pub append_to : ℕ → ℕ → List MinionState → List MinionState
append_to k i [] = []
append_to zero i (s ∷ ss) = record s { containers = s.containers ++ i ∷ [] } ∷ ss
append_to (suc k) i (s ∷ ss) = s ∷ append_to k i ss

-- The last part of the loop's body. `none` is the use of a nil minion.
unfoldable pub put_container : Option ℕ → ℕ → Context → Option Context
unfolding append_to
put_container found i ctx =
    if (ctx.memory i).minion == ""
    then some (record ctx { unassigned = ctx.unassigned ++ i ∷ [] })
    else elim found [
      | none ↦ none
      | some k ↦ some (record ctx { minions = append_to k i ctx.minions })
    ]

-- if minion == nil && dbc.Minion != "" { … }
unfoldable pub forget_minion : Option ℕ → ℕ → Context → Context
forget_minion (some k) i ctx = ctx
forget_minion none i ctx =
    if (ctx.memory i).minion != ""
    then record ctx { memory = assign ctx.memory i ""; changed = ctx.changed ++ i ∷ [] }
    else ctx

-- if dbc.ImageID != img.DockerID { … }
unfoldable pub use_image : Image → ℕ → Context → Context
use_image img i ctx =
    if (ctx.memory i).image_id != img.docker_id
    then record ctx {
      memory = set_image ctx.memory i img.docker_id;
      changed = ctx.changed ++ i ∷ [];
    }
    else ctx

-- The body of the loop over the containers.
unfoldable pub take_in : Map String ℕ → Map BlueprintImage Image → ℕ → Context → Option Context
unfolding put_container forget_minion use_image
take_in by_ip built i ctx =
    let found = get string_discrete by_ip (ctx.memory i).minion in
    let c = forget_minion found i ctx in
    if (c.memory i).dockerfile == ""
    then put_container found i c
    else elim (get BlueprintImage-discrete built
        (record { name = (c.memory i).image; dockerfile = (c.memory i).dockerfile })) [
          | none ↦ some c
          | some img ↦ put_container found i (use_image img i c)
        ]

-- The loop, over `n` containers from the pointer `i`.
unfoldable pub take_in_all :
    Map String ℕ → Map BlueprintImage Image → ℕ → ℕ → Context → Option Context
unfolding take_in
take_in_all by_ip built i zero ctx = some ctx
take_in_all by_ip built i (suc n) ctx = elim (take_in by_ip built i ctx) [
  | none ↦ none
  | some c ↦ take_in_all by_ip built (suc i) n c
]

-- The containers of a slice, by their pointers.
unfoldable pub pointed : List Container → Memory
pointed [] i = blank_container 0
pointed (c ∷ cs) zero = c
pointed (c ∷ cs) (suc i) = pointed cs i

abbrev pub same_strings : List String → List String → Bool
same_strings [] [] = true
same_strings [] (y ∷ ys) = false
same_strings (x ∷ xs) [] = false
same_strings (x ∷ xs) (y ∷ ys) = x == y && same_strings xs ys

module _ (lib : Sorting) (sprint : List String → String) where
  -- dbcSlice.Less; `sprint` is Sprintf("%s", …) of a slice.
  unfoldable pub less : Memory → ℕ → ℕ → Bool
  less mem i j =
      if (mem i).image != (mem j).image
      then lt_text (mem i).image (mem j).image
      else if not (same_strings (mem i).command (mem j).command)
      then lt_text (sprint (mem i).command) (sprint (mem j).command)
      else lt_text (mem i).blueprint_id (mem j).blueprint_id

  abbrev pub sorted : Context → Context
  sorted ctx = record ctx { unassigned = lib.sort ℕ (less ctx.memory) ctx.unassigned }

  unfoldable pub make_context :
      List Minion → List Placement → List Container → List Image → Option Context
  unfolding workers built_images take_in_all pointed less
  make_context minions constraints containers images =
      let (ms, by_ip) = workers 0 minions ([], []) in
      Option.map sorted (
        take_in_all by_ip (built_images images []) 0 (length containers) (record {
          minions = ms;
          constraints = constraints;
          unassigned = [];
          changed = [];
          memory = pointed containers;
        }))

  -- The commits of the changed containers.
  unfoldable pub commit_changed : Memory → List ℕ → View Container → Option (View Container)
  commit_changed mem [] v = some v
  commit_changed mem (i ∷ is) v = elim (commit container_row (mem i) v) [
    | none ↦ none
    | some w ↦ commit_changed mem is w
  ]

  unfoldable pub place_containers :
      Order → View Placement → List Minion → View Image → View Container → Option (View Container)
  unfolding make_context commit_changed
  place_containers o constraints minions images v =
      elim (make_context minions (select placement_row o (λ _. true) constraints)
        (select container_row o (λ _. true) v) (select image_row o (λ _. true) images)) [
          | none ↦ none
          | some ctx ↦
              let done = place_unassigned lib (cleanup_placements ctx) in
              commit_changed done.memory done.changed v
        ]
