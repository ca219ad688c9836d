-- ===== src/OpenFlow/Tables.antt =====
-- The flows of each table among all flows, up to their order.
use mathlib.Core.List.{perm_append_comm, append-nil}
use mathlib.Core.List.Perm
use quilt.Prelude.{ℕ, zero, suc, ◌≡◌, refl, List, [], ◌∷◌, ◌++◌, flat_map, filter, Perm, arith}
use quilt.Prelude.Filters.{
  filter-append, filter-flat_map, filter_none, flat_map_nil, nothing, Within, append-Within,
  flat_map-Within,
}
use quilt.Maps.{Order}
use quilt.OpenFlow.Flows.{
  Flow, Resolved, static_flows, container_flows, all_container_flows, broadcast_flow, all_flows,
}
use quilt.OpenFlow.Blocks.{
  at, block_0, block_2, block_3, flows_0, flows_1, flows_2, flows_3, filter_0, filter_1, filter_2,
  filter_3, filter_beyond, block_2-Within, block_3-Within,
}

abbrev pub as_is : List ℕ → List ℕ
as_is xs = xs

-- The flows of a table, in the order of the pseudocode.
abbrev pub flows_at : List Resolved → ℕ → List Flow
flows_at cs zero = flows_0 as_is cs
flows_at cs (suc zero) = flows_1
flows_at cs (suc (suc zero)) = flows_2 as_is cs
flows_at cs (suc (suc (suc zero))) = flows_3 as_is cs
flows_at cs (suc (suc (suc (suc n)))) = []

-- Two lists with the same elements.
abbrev pub Same : List Flow → List Flow → Type 0
Same xs ys = Within xs ys × Within ys xs

Same-perm : (xs ys : List Flow) → Perm xs ys → Same xs ys
Same-perm xs ys p = (λ y. (Perm.mem_iff p).0, λ y. (Perm.mem_iff p).1)

Same-trans : (xs ys zs : List Flow) → Same xs ys → Same ys zs → Same xs zs
Same-trans xs ys zs h k = (λ y m. k.0 y (h.0 y m), λ y m. h.1 y (k.1 y m))

Same-append : (xs ys zs ws : List Flow) → Same xs ys → Same zs ws → Same (xs ++ zs) (ys ++ ws)
Same-append xs ys zs ws h k = (append-Within xs zs ys ws h.0 k.0, append-Within ys ws xs zs h.1 k.1)

Same-refl : (xs : List Flow) → Same xs xs
Same-refl xs = (λ y m. m, λ y m. m)

module _ (o : Order) (cs : List Resolved) where
  to_list : (xs : List ℕ) → Within (o.range ℕ xs) (as_is xs)
  to_list xs y = (Perm.mem_iff (o.range-perm ℕ xs)).0

  to_range : (xs : List ℕ) → Within (as_is xs) (o.range ℕ xs)
  to_range xs y = (Perm.mem_iff (o.range-perm ℕ xs)).1

  filter-all :
      (t : ℕ) (block : Resolved → List Flow)
      → ((c : Resolved) → filter (at t) (container_flows o c) ≡ block c)
      → filter (at t) (all_flows o cs)
        ≡ filter (at t) static_flows ++ flat_map block cs ++ filter (at t) (broadcast_flow cs ∷ [])
  unfolding all_flows all_container_flows
  filter-all t block h =
      rw
        (
          filter-append (at t) (static_flows ++ flat_map (container_flows o) cs)
              (broadcast_flow cs ∷ []),
          filter-append (at t) static_flows (flat_map (container_flows o) cs),
          filter-flat_map (at t) (container_flows o) block h cs,
        )
        refl

  Same-0 : Same (filter (at 0) (all_flows o cs)) (flows_0 as_is cs)
  unfolding filter
  Same-0 = rw (filter-all 0 (block_0 (o.range ℕ)) (filter_0 o)) (
      rw (append-nil) (
        Same-perm _ _
          (perm_append_comm (filter (at 0) static_flows) (flat_map (block_0 (o.range ℕ)) cs))))

  Same-1 : Same (filter (at 1) (all_flows o cs)) flows_1
  unfolding filter
  Same-1 =
      rw (filter-all 1 nothing (filter_1 o))
        (rw (flat_map_nil {A = Resolved} {B = Flow} cs) (λ y m. m, λ y m. m))

  Same-blocks :
      (block : (List ℕ → List ℕ) → Resolved → List Flow)
      → ((r s : List ℕ → List ℕ)
          → ((xs : List ℕ) → Within (r xs) (s xs))
          → (c : Resolved) → Within (block r c) (block s c))
      → Same (flat_map (block (o.range ℕ)) cs) (flat_map (block as_is) cs)
  Same-blocks block h = (
    flat_map-Within _ _ cs cs (h (o.range ℕ) as_is to_list) (λ y m. m),
    flat_map-Within _ _ cs cs (h as_is (o.range ℕ) to_range) (λ y m. m),
  )

  Same-2 : Same (filter (at 2) (all_flows o cs)) (flows_2 as_is cs)
  unfolding filter
  Same-2 = rw (filter-all 2 (block_2 (o.range ℕ)) (filter_2 o)) (
      Same-trans _ _ _
        (Same-append _ _ _ _ (Same-blocks block_2 block_2-Within)
          (Same-refl (broadcast_flow cs ∷ [])))
        (Same-perm _ _ (perm_append_comm (flat_map (block_2 as_is) cs) (broadcast_flow cs ∷ []))))

  Same-3 : Same (filter (at 3) (all_flows o cs)) (flows_3 as_is cs)
  unfolding filter
  Same-3 =
      rw (filter-all 3 (block_3 (o.range ℕ)) (filter_3 o), append-nil)
        (Same-append (_ ∷ _ ∷ []) (_ ∷ _ ∷ []) _ _ (Same-refl _)
          (Same-blocks block_3 block_3-Within))

  Same-beyond : (n : ℕ) → Same (filter (at (suc (suc (suc (suc n))))) (all_flows o cs)) []
  Same-beyond n =
      rw
        (
          filter-all (suc (suc (suc (suc n)))) nothing (filter_beyond n o),
          flat_map_nil {A = Resolved} {B = Flow} cs,
          filter_none (at (suc (suc (suc (suc n))))) static_flows (ground arith),
          filter_none (at (suc (suc (suc (suc n))))) (broadcast_flow cs ∷ []) (ground arith),
        )
        (Same-refl [])

  -- Whatever the order of the loops, each table has the flows of the statements.
  pub Same-flows_at : (t : ℕ) → Same (filter (at t) (all_flows o cs)) (flows_at cs t)
  Same-flows_at zero = Same-0
  Same-flows_at (suc zero) = Same-1
  Same-flows_at (suc (suc zero)) = Same-2
  Same-flows_at (suc (suc (suc zero))) = Same-3
  Same-flows_at (suc (suc (suc (suc n)))) = Same-beyond n
