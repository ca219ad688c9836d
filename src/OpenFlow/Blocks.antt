-- ===== src/OpenFlow/Blocks.antt =====
-- The flows of each table, in the order of the statements of the pseudocode.
use quilt.Prelude.{
  ℕ, suc, arith, ◌≡◌, refl, ◌∙◌, Bool, List, [], ◌∷◌, ◌++◌, flat_map, filter, ◌==◌, nat_eq, none,
  some,
}
use quilt.Prelude.Filters.{
  filter-append, filter-flat_map, filter_none, flat_map_nil, nothing, Within, append-Within,
  flat_map-Within,
}
use quilt.Maps.{Order}
use quilt.OpenFlow.Flows.{
  Match, in_port, from_local, arp, ip, tcp, udp, dl_src, dl_dst, nw_src, nw_dst, tp_src, tp_dst,
  load_reg0, resubmit, output, output_local, output_reg0, Flow, flow, Resolved, base_flows, inward,
  outward, to_flows, from_flows, container_flows, broadcast_flow, gateway_mac, gateway_ip,
  broadcast,
}

abbrev pub at : ℕ → Flow → Bool
at t f = f.table == t

-- Both protocols.
abbrev pub both : (Match → Match → Flow) → Match → List Flow
both f port = f tcp port ∷ f udp port ∷ []

module _ (r : List ℕ → List ℕ) (c : Resolved) where
  abbrev pub block_0 : List Flow
  block_0 =
      record {
        table = 0;
        priority = none;
        matches = in_port c.veth_port ∷ dl_src c.base.mac ∷ [];
        keyword = "actions";
        actions = load_reg0 c.patch_port ∷ resubmit 1 ∷ [];
      }
      ∷ record {
        table = 0;
        priority = none;
        matches = in_port c.patch_port ∷ [];
        keyword = "actions";
        actions = output c.veth_port ∷ [];
      }
      ∷ []

  abbrev pub ports_2 : List Flow
  ports_2 =
      flat_map (λ to. both (inward c) (tp_src to)) (r c.base.to_pub)
      ++ flat_map (λ from. both (inward c) (tp_dst from)) (r c.base.from_pub)

  abbrev pub block_2 : List Flow
  block_2 =
      record {
        table = 2;
        priority = some 900;
        matches = arp ∷ dl_dst c.base.mac ∷ [];
        keyword = "action";
        actions = output c.veth_port ∷ [];
      }
      ∷ record {
        table = 2;
        priority = some 800;
        matches = ip ∷ dl_dst c.base.mac ∷ nw_src gateway_ip ∷ [];
        keyword = "action";
        actions = output c.veth_port ∷ [];
      }
      ∷ ports_2

  abbrev pub block_3 : List Flow
  block_3 =
      flat_map (λ to. both (outward c) (tp_dst to)) (r c.base.to_pub)
      ++ flat_map (λ from. both (outward c) (tp_src from)) (r c.base.from_pub)

module _ (r : List ℕ → List ℕ) (cs : List Resolved) where
  abbrev pub flows_0 : List Flow
  flows_0 = flat_map (block_0 r) cs ++ flow 0 1000 (from_local ∷ []) (resubmit 2 ∷ []) ∷ []

  abbrev pub flows_2 : List Flow
  flows_2 = broadcast_flow cs ∷ flat_map (block_2 r) cs

  abbrev pub flows_3 : List Flow
  flows_3 =
      flow 3 1000 (ip ∷ nw_dst gateway_ip ∷ []) (output_local ∷ [])
      ∷ flow 3 900 (arp ∷ []) (output_local ∷ [])
      ∷ flat_map (block_3 r) cs

abbrev pub flows_1 : List Flow
flows_1 =
    flow 1 1000 (arp ∷ dl_dst broadcast ∷ []) (output_local ∷ output_reg0 ∷ [])
    ∷ flow 1 900 (dl_dst gateway_mac ∷ []) (resubmit 3 ∷ [])
    ∷ flow 1 800 [] (output_reg0 ∷ [])
    ∷ []

-- The flows of a table among those of a container are three parts.
module _ (t : ℕ) (r : List ℕ → List ℕ) (c : Resolved) (to from : ℕ → List Flow)
    (to_eq : (n : ℕ) → filter (at t) (to_flows c n) ≡ to n)
    (from_eq : (n : ℕ) → filter (at t) (from_flows c n) ≡ from n) where
  filter-parts :
      filter (at t) (
        base_flows c
        ++ flat_map (to_flows c) (r c.base.to_pub)
        ++ flat_map (from_flows c) (r c.base.from_pub))
      ≡ filter (at t) (base_flows c)
        ++ flat_map to (r c.base.to_pub)
        ++ flat_map from (r c.base.from_pub)
  filter-parts =
      rw
        (
          filter-append (at t) (base_flows c ++ flat_map (to_flows c) (r c.base.to_pub))
              (flat_map (from_flows c) (r c.base.from_pub)),
          filter-append (at t) (base_flows c) (flat_map (to_flows c) (r c.base.to_pub)),
          filter-flat_map (at t) (to_flows c) to to_eq (r c.base.to_pub),
          filter-flat_map (at t) (from_flows c) from from_eq (r c.base.from_pub),
        )
        refl

module _ (o : Order) (c : Resolved) where
  pub filter_0 : filter (at 0) (container_flows o c) ≡ block_0 (o.range ℕ) c
  unfolding container_flows filter
  filter_0 =
      filter-parts 0 (o.range ℕ) c nothing nothing (λ n. refl) (λ n. refl)
      ∙ rw
          (
            flat_map_nil {A = ℕ} {B = Flow} (o.range ℕ c.base.to_pub),
            flat_map_nil {A = ℕ} {B = Flow} (o.range ℕ c.base.from_pub),
          )
          refl

  pub filter_1 : filter (at 1) (container_flows o c) ≡ []
  unfolding container_flows filter
  filter_1 =
      filter-parts 1 (o.range ℕ) c nothing nothing (λ n. refl) (λ n. refl)
      ∙ rw
          (
            flat_map_nil {A = ℕ} {B = Flow} (o.range ℕ c.base.to_pub),
            flat_map_nil {A = ℕ} {B = Flow} (o.range ℕ c.base.from_pub),
          )
          refl

  pub filter_2 : filter (at 2) (container_flows o c) ≡ block_2 (o.range ℕ) c
  unfolding container_flows filter
  filter_2 =
      filter-parts 2 (o.range ℕ) c (λ n. both (inward c) (tp_src n))
        (λ n. both (inward c) (tp_dst n)) (λ n. refl) (λ n. refl)

  pub filter_3 : filter (at 3) (container_flows o c) ≡ block_3 (o.range ℕ) c
  unfolding container_flows filter
  filter_3 =
      filter-parts 3 (o.range ℕ) c (λ n. both (outward c) (tp_dst n))
        (λ n. both (outward c) (tp_src n)) (λ n. refl) (λ n. refl)

pub filter_beyond :
    (n : ℕ) (o : Order) (c : Resolved)
    → filter (at (suc (suc (suc (suc n))))) (container_flows o c) ≡ []
unfolding container_flows
filter_beyond n o c =
    filter-parts (suc (suc (suc (suc n)))) (o.range ℕ) c nothing nothing
      (λ k. filter_none (at (suc (suc (suc (suc n))))) (to_flows c k) (ground arith))
      (λ k. filter_none (at (suc (suc (suc (suc n))))) (from_flows c k) (ground arith))
    ∙ rw
        (
          filter_none (at (suc (suc (suc (suc n))))) (base_flows c) (ground arith),
          flat_map_nil {A = ℕ} {B = Flow} (o.range ℕ c.base.to_pub),
          flat_map_nil {A = ℕ} {B = Flow} (o.range ℕ c.base.from_pub),
        )
        refl

-- The order of the ports does not change what is in a block.
module _ (r s : List ℕ → List ℕ) (within : (xs : List ℕ) → Within (r xs) (s xs))
    (c : Resolved) where
  ports-Within :
      (f g : ℕ → List Flow)
      → Within
          (flat_map f (r c.base.to_pub) ++ flat_map g (r c.base.from_pub))
          (flat_map f (s c.base.to_pub) ++ flat_map g (s c.base.from_pub))
  ports-Within f g =
      append-Within _ _ _ _ (flat_map-Within f f _ _ (λ n y m. m) (within c.base.to_pub))
        (flat_map-Within g g _ _ (λ n y m. m) (within c.base.from_pub))

  pub block_2-Within : Within (block_2 r c) (block_2 s c)
  block_2-Within =
      append-Within (_ ∷ _ ∷ []) (ports_2 r c) (_ ∷ _ ∷ []) (ports_2 s c) (λ y m. m)
        (ports-Within (λ to. both (inward c) (tp_src to)) (λ from. both (inward c) (tp_dst from)))

  pub block_3-Within : Within (block_3 r c) (block_3 s c)
  block_3-Within =
      ports-Within (λ to. both (outward c) (tp_dst to)) (λ from. both (outward c) (tp_src from))
