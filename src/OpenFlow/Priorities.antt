-- ===== src/OpenFlow/Priorities.antt =====
-- The flows of each table are in the order of their priorities, as far as it matters.
use quilt.Prelude.{
  ℕ, zero, suc, ◌≡◌, ◌≢◌, ◌<◌, ◌⊎◌, inl, inr, refl, sym, ap, ◌∙◌, true, String, List, [], ◌∷◌,
  flat_map, All, All-append, ◌==◌, ◌&&◌, string_eq, nat_eq, eq_iff, arith,
}
use quilt.Prelude.Filters.{All-map, All-flat_map}
use quilt.OpenFlow.Flows.{
  dl_src, ip_dst, broadcast_flow, Match, flow, from_local, resubmit, ip, nw_src, gateway_ip, arp,
  tcp, udp, tp_src, tp_dst, Action, output, output_local, Flow, Resolved, inward, outward,
}
use quilt.OpenFlow.Switch.{Packet, Ingress, port, local, at_port, all_hold, holds, rank}
use quilt.OpenFlow.Ordered.{Before, Matches, Ordered, Ordered-append}
use quilt.OpenFlow.Blocks.{both, block_0, block_2, block_3, flows_0, flows_1, flows_2, flows_3}
use quilt.OpenFlow.Tables.{as_is, flows_at}

-- No two ports are the same, and no two containers have the same MAC.
abbrev pub Apart : Resolved → Resolved → Type 0
Apart c d =
    (c.veth_port ≢ d.veth_port)
    × (c.veth_port ≢ d.patch_port)
    × (c.patch_port ≢ d.veth_port)
    × (c.patch_port ≢ d.patch_port)
    × (c.base.mac ≢ d.base.mac)

abbrev pub IsApart : List Resolved → Type 0
IsApart [] = Unit
IsApart (c ∷ cs) = (c.veth_port ≢ c.patch_port) × All (Apart c) cs × IsApart cs

units : {A : Type 0} (xs : List A) → All (λ x. Unit {0}) xs
units [] = tt
units (x ∷ xs) = (tt, units xs)

abbrev number : Ingress → ℕ
number (port n) = n
number local = 0

module _ (p : Packet) where
  -- Flows that do the same are ordered.
  Ordered-same : (as' : List Action) (fs : List Flow) → All (λ f. f.actions ≡ as') fs → Ordered p fs
  Ordered-same as' [] h = tt
  Ordered-same as' (f ∷ fs) h = (
    All-map (λ (g : Flow). g.actions ≡ as') (Before p f) (λ g e x y. inr (h.0 ∙ sym e)) fs h.1,
    Ordered-same as' fs h.1,
  )

  -- The blocks of the containers, if flows of two containers do not match the same packet.
  module _ (block : Resolved → List Flow) (Fact : Resolved → Flow → Type 0)
      (facts : (c : Resolved) → All (Fact c) (block c))
      (own : (c : Resolved) → c.veth_port ≢ c.patch_port → Ordered p (block c))
      (apart : (c d : Resolved) (f g : Flow) → Apart c d → Fact c f → Fact d g → Before p f g) where
    Ordered-flat_map : (cs : List Resolved) → IsApart cs → Ordered p (flat_map block cs)
    unfolding flat_map
    Ordered-flat_map [] h = tt
    Ordered-flat_map (c ∷ cs) h =
        Ordered-append p (block c) (flat_map block cs) (own c h.0) (Ordered-flat_map cs h.2) (
          All-map (Fact c) _
            (λ f x.
              All-flat_map (Before p f) (Apart c) block
                (λ d a.
                  All-map (Fact d) (Before p f) (λ g y. apart c d f g a x y) (block d) (facts d))
                cs h.1)
            (block c) (facts c))

  abbrev Fact0 : Resolved → Flow → Type 0
  Fact0 c f = Matches p f → (p.ingress ≡ port c.veth_port) ⊎ (p.ingress ≡ port c.patch_port)

  at_port-eq :
      (i : Ingress) (n : ℕ) (ms : List Match) → at_port i n && all_hold p ms ≡ true → i ≡ port n
  at_port-eq (port k) n ms h = ground (arith)
  at_port-eq local n ms h = cc

  facts_0 : (c : Resolved) → All (Fact0 c) (block_0 as_is c)
  facts_0 c = (
    λ h. inl (at_port-eq p.ingress c.veth_port (dl_src c.base.mac ∷ []) h),
    (λ h. inr (at_port-eq p.ingress c.patch_port [] h), tt),
  )

  Apart-0 : (c d : Resolved) (f g : Flow) → Apart c d → Fact0 c f → Fact0 d g → Before p f g
  Apart-0 c d f g a hf hg x y = elim (hf x) [
    | inl i ↦ elim (hg y) [ inl j ↦ ground arith | inr j ↦ ground arith ]
    | inr i ↦ elim (hg y) [ inl j ↦ ground arith | inr j ↦ ground arith ]
  ]

  own_0 : (c : Resolved) → c.veth_port ≢ c.patch_port → Ordered p (block_0 as_is c)
  own_0 c n = (
    (
      λ x y. absurd (
          n (
            ap number (
              sym (at_port-eq p.ingress c.veth_port (dl_src c.base.mac ∷ []) x)
              ∙ at_port-eq p.ingress c.patch_port [] y))),
      tt,
    ),
    (tt, tt),
  )

  Ordered-0 : (cs : List Resolved) → IsApart cs → Ordered p (flows_0 as_is cs)
  Ordered-0 cs h =
      Ordered-append p (flat_map (block_0 as_is) cs) (_ ∷ [])
        (Ordered-flat_map (block_0 as_is) Fact0 facts_0 own_0 Apart-0 cs h) (tt, tt)
        (All-flat_map (λ f. All (Before p f) (flow 0 1000 (from_local ∷ []) (resubmit 2 ∷ []) ∷ []))
          (λ c. Unit {0}) (block_0 as_is)
          (λ c u. ((λ x y. inl (omega arith), tt), ((λ x y. inl (omega arith), tt), tt))) cs
          (units cs))

  Ordered-1 : Ordered p flows_1
  Ordered-1 = (
    (λ x y. inl (omega arith), (λ x y. inl (omega arith), tt)),
    ((λ x y. inl (omega arith), tt), (tt, tt)),
  )

  -- What all flows of a container have in common in table 2.
  abbrev Fact2 : Resolved → Flow → Type 0
  Fact2 c f =
      (f.actions ≡ output c.veth_port ∷ [])
      × (rank f.priority < 1000)
      × (Matches p f → p.mac_dst ≡ c.base.mac)

  mac_dst-eq :
      (m : Match) (s : String) (ms : List Match)
      → holds p m && (p.mac_dst == s && all_hold p ms) ≡ true
      → p.mac_dst ≡ s
  mac_dst-eq m s ms h = ground (arith, eq_iff p.mac_dst s)

  both_facts :
      (c : Resolved) (m : ℕ → Match) (n : ℕ) → Unit {0} → All (Fact2 c) (both (inward c) (m n))
  both_facts c m n u = (
    (refl, omega arith, mac_dst-eq tcp c.base.mac (ip_dst c.base.ip ∷ m n ∷ [])),
    ((refl, omega arith, mac_dst-eq udp c.base.mac (ip_dst c.base.ip ∷ m n ∷ [])), tt),
  )

  facts_2 : (c : Resolved) → All (Fact2 c) (block_2 as_is c)
  facts_2 c = (
    (refl, omega arith, mac_dst-eq arp c.base.mac []),
    (
      (refl, omega arith, mac_dst-eq ip c.base.mac (nw_src gateway_ip ∷ [])),
      All-append (Fact2 c) (flat_map (λ to. both (inward c) (tp_src to)) c.base.to_pub)
          (flat_map (λ from. both (inward c) (tp_dst from)) c.base.from_pub)
          (All-flat_map (Fact2 c) (λ n. Unit {0}) (λ to. both (inward c) (tp_src to))
            (both_facts c tp_src) c.base.to_pub (units c.base.to_pub))
          (All-flat_map (Fact2 c) (λ n. Unit {0}) (λ from. both (inward c) (tp_dst from))
            (both_facts c tp_dst) c.base.from_pub (units c.base.from_pub)),
    ),
  )

  Ordered-2 : (cs : List Resolved) → IsApart cs → Ordered p (flows_2 as_is cs)
  Ordered-2 cs h = (
    All-flat_map (Before p (broadcast_flow cs)) (λ c. Unit {0}) (block_2 as_is)
        (λ c u.
          All-map (Fact2 c) (Before p (broadcast_flow cs)) (λ g y a b. inl y.1) (block_2 as_is c)
            (facts_2 c))
        cs (units cs),
    Ordered-flat_map (block_2 as_is) Fact2 facts_2
        (λ c n. Ordered-same (output c.veth_port ∷ []) (block_2 as_is c) (
          All-map (Fact2 c) (λ f. f.actions ≡ output c.veth_port ∷ []) (λ f x. x.0)
            (block_2 as_is c) (facts_2 c)))
        (λ c d f g a x y s t. absurd (a.4 (sym (x.2 s) ∙ y.2 t))) cs h,
  )

  abbrev Fact3 : Flow → Type 0
  Fact3 f = f.actions ≡ output_local ∷ []

  Ordered-3 : (cs : List Resolved) → Ordered p (flows_3 as_is cs)
  Ordered-3 cs = Ordered-same (output_local ∷ []) (flows_3 as_is cs) (
    refl,
    (
      refl,
      All-flat_map Fact3 (λ c. Unit {0}) (block_3 as_is)
          (λ c u.
            All-append Fact3 (flat_map (λ to. both (outward c) (tp_dst to)) c.base.to_pub)
              (flat_map (λ from. both (outward c) (tp_src from)) c.base.from_pub)
              (All-flat_map Fact3 (λ n. Unit {0}) (λ to. both (outward c) (tp_dst to))
                (λ n v. (refl, (refl, tt))) c.base.to_pub (units c.base.to_pub))
              (All-flat_map Fact3 (λ n. Unit {0}) (λ from. both (outward c) (tp_src from))
                (λ n v. (refl, (refl, tt))) c.base.from_pub (units c.base.from_pub)))
          cs (units cs),
    ),
  )

  pub Ordered-at : (cs : List Resolved) (t : ℕ) → IsApart cs → Ordered p (flows_at cs t)
  Ordered-at cs zero h = Ordered-0 cs h
  Ordered-at cs (suc zero) h = Ordered-1
  Ordered-at cs (suc (suc zero)) h = Ordered-2 cs h
  Ordered-at cs (suc (suc (suc zero))) h = Ordered-3 cs
  Ordered-at cs (suc (suc (suc (suc n)))) h = tt
