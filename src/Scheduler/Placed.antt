-- ===== src/Scheduler/Placed.antt =====
-- minion/scheduler/master.go: the table after `placeContainers`.
use native.Mathlib.Bridge.{le_prop}
use mathlib.Core.List.{
  List, mem-append, mem-append_left, mem-append_right, mem-cons, mem-cons_of_mem, Mem-prop,
  Nodup-append, append_assoc, perm_append_comm,
}
use mathlib.Core.List.Perm
use mathlib.Core.Logic.Or
use quilt.Prelude.{
  ℕ, ◌<◌, ◌≡◌, refl, ◌∙◌, subst, Option-cases, Bool-cases, inl, inr, String, [], ◌∷◌, ◌++◌, map,
  Mem, Nodup, Perm, ◌==◌, nat_eq,
}
use quilt.Db.MinionRows.{Placement, Minion}
use quilt.Scheduler.Placement.{valid_placement}
use quilt.Scheduler.Context.{
  Sorting, Memory, assign, MinionState, Context, fewer, keep_valid, cleanup_all, cleanup_placements,
  place_on, place_all, place_unassigned,
}
use quilt.Scheduler.Place.{schedule}
use quilt.Scheduler.Held.{held, Tied, held-perm}
use quilt.Scheduler.Tied.{Tied-perm, cleanup_all-Tied, place_all-Tied}
use quilt.Scheduler.Gather.{Sound}

assign-id : (mem : Memory) (i : ℕ) (ip : String) (j : ℕ) → (assign mem i ip j).id ≡ (mem j).id
unfolding assign
assign-id mem i ip j = elim (Bool-cases (j == i)) [ inl e ↦ rw (e) refl | inr e ↦ rw (e) refl ]

module _ (cs : List Placement) where
  keep_valid-id :
      (m : Minion) (mem : Memory) (valid is : List ℕ) (j : ℕ)
      → ((keep_valid cs m mem valid is).1 j).id ≡ (mem j).id
  unfolding keep_valid
  keep_valid-id m mem valid [] j = refl
  keep_valid-id m mem valid (i ∷ is) j =
      elim (Bool-cases (valid_placement cs m (map mem valid) (mem i))) [
        | inl v ↦ rw (v, keep_valid) (keep_valid-id m mem (valid ++ i ∷ []) is j)
        | inr v ↦
            rw (v, keep_valid) (keep_valid-id m (assign mem i "") valid is j ∙ assign-id mem i "" j)
      ]

  cleanup_all-id :
      (mem : Memory) (ss : List MinionState) (j : ℕ) → ((cleanup_all cs mem ss).1 j).id ≡ (mem j).id
  unfolding cleanup_all
  cleanup_all-id mem [] j = refl
  cleanup_all-id mem (s ∷ ss) j =
      cleanup_all-id (keep_valid cs s.minion mem [] s.containers).1 ss j
      ∙ keep_valid-id s.minion mem [] s.containers j

  place_all-id :
      (lib : Sorting) (mem : Memory) (ms : List MinionState) (is : List ℕ) (j : ℕ)
      → (((place_all lib cs mem ms is).1 j).id ≡ (mem j).id)
        × (Mem j (place_all lib cs mem ms is).2 → Mem j is)
  unfolding place_all
  place_all-id lib mem ms [] j = (refl, λ m. m)
  place_all-id lib mem ms (i ∷ is) j = elim (Option-cases (place_on cs mem i ms)) [
    | inl e ↦
        let (a, b) = place_all-id lib mem ms is j in
        rw (e, place_all) (a, λ m. mem-cons_of_mem i (b m))
    | inr ((ms', k, ip), e) ↦
        let (a, b) =
          place_all-id lib (assign mem i ip) (lib.heap_fix MinionState fewer ms' k) is j in
        rw (e, place_all)
          (
            a ∙ assign-id mem i ip j,
            λ m.
                Or.elim Mem-prop (mem-cons.0 m) (λ q. mem-cons.1 (Or.inl q))
                  (λ m'. mem-cons_of_mem i (b m')),
          )
  ]

-- A round on a context that makeContext makes.
module _ (lib : Sorting) (cs : List Placement) (mem0 : Memory) (n : ℕ) (ctx : Context)
    (h : Sound cs mem0 n n ctx) where
  within :
      (j : ℕ)
      → Mem j (ctx.unassigned ++ (cleanup_all ctx.constraints ctx.memory ctx.minions).2)
      → j < n
  within j m =
      let (_, _, p) =
        cleanup_all-Tied ctx.constraints ctx.memory ctx.minions (Nodup-append.0 h.once).0 h.tied in
      Or.elim le_prop (mem-append.0 m) (λ x. h.below j (mem-append_right (held ctx.minions) x))
        (λ x.
          h.below j
            (mem-append_left ctx.unassigned ((Perm.mem_iff p).0 (mem-append_right (held _) x))))

  pub schedule-Tied :
      Tied (schedule lib ctx).memory (schedule lib ctx).minions
      × ((j : ℕ) → ¬ Mem j (schedule lib ctx).changed → (schedule lib ctx).memory j ≡ mem0 j)
      × ((j : ℕ) → ((schedule lib ctx).memory j).id ≡ (mem0 j).id)
      × ((j : ℕ) → Mem j (schedule lib ctx).changed → j < n)
      × ((j : ℕ) → Mem j (cleanup_placements ctx).unassigned → j < n)
  unfolding schedule place_unassigned cleanup_placements
  schedule-Tied =
      let rules = ctx.constraints in
      let (a, b, p) =
        cleanup_all-Tied rules ctx.memory ctx.minions (Nodup-append.0 h.once).0 h.tied in
      let (ms, mem, gone) = cleanup_all rules ctx.memory ctx.minions in
      let is = ctx.unassigned ++ gone in
      let heap = lib.heap_init MinionState fewer ms in
      let q = lib.heap_init-perm MinionState fewer ms in
      let once : Nodup (held heap ++ is) =
        Perm.nodup
          (Perm.symm (
            Perm.trans (Perm.append_right is (held-perm heap ms q)) (
              Perm.trans (Perm.append_left (held ms) (perm_append_comm ctx.unassigned gone)) (
                subst (λ l. Perm l (held ctx.minions ++ ctx.unassigned))
                  (append_assoc (held ms) gone ctx.unassigned)
                  (Perm.append_right ctx.unassigned p)))))
          h.once in
      let (c, d) = place_all-Tied rules lib mem heap is once (Tied-perm rules mem heap ms q a) in
      let (ms', mem', placed) = place_all lib rules mem heap is in
      (
        c,
        λ j m.
            d j (λ x. m (mem-append_right (ctx.changed ++ gone) x))
            ∙ (b j (λ x. m (mem-append_left placed (mem-append_right ctx.changed x)))
                ∙ h.noted j (λ x. m (mem-append_left placed (mem-append_left gone x)))),
        λ j.
            (place_all-id rules lib mem heap is j).0
            ∙ (cleanup_all-id rules ctx.memory ctx.minions j ∙ h.ids j),
        λ j m.
            Or.elim le_prop (mem-append.0 m)
              (λ x.
                Or.elim le_prop (mem-append.0 x) (h.near j)
                  (λ y. within j (mem-append_right ctx.unassigned y)))
              (λ x. within j ((place_all-id rules lib mem heap is j).1 x)),
        within,
      )
