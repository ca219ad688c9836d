-- ===== src/OpenFlow/Guard.antt =====
-- Which packets of the containers reach the gateway.
use mathlib.Core.List.{not-mem-nil, mem-cons, append-nil}
use mathlib.Core.Logic.Or
use quilt.Prelude.{
  ℕ, suc, Bool, ◌≡◌, sym, subst, ◌⊎◌, inl, inr, Bool-cases, and-true, refl, true, List, [], ◌∷◌,
  ◌++◌, Mem, All, All-of_mem, All-append, flat_map, ◌&&◌, nat_eq, string_eq, eq_iff, arith,
}
use quilt.Prelude.Filters.{All-flat_map, All-map}
use quilt.Prelude.Text.{nat_beq_iff}
use quilt.OpenFlow.Flows.{
  Action, Resolved, load_reg0, resubmit, output, in_port, dl_src, tcp, udp, tp_src, tp_dst,
  gateway_ip, all_flows,
}
use quilt.OpenFlow.Switch.{
  Chooser, send, Packet, port, Protocol, is_arp, is_tcp, is_udp, is_ip, arps, tcps, udps, at_local,
  all_hold, Sent, to_port, to_local, execute, pipeline,
}
use quilt.Maps.{Order}
use quilt.OpenFlow.Priorities.{IsApart}
use quilt.OpenFlow.Refines.{send-described}
use quilt.OpenFlow.Pseudocode.{
  Statement, first, table_0, table_1, table_3, table_at, tcp_or_udp, to_gateway, described,
}

tcps-eq : (q : Protocol) → tcps q ≡ true → q ≡ is_tcp
tcps-eq is_tcp h = refl
tcps-eq q h = cc

udps-eq : (q : Protocol) → udps q ≡ true → q ≡ is_udp
udps-eq is_udp h = refl
udps-eq q h = cc

arps-eq : (q : Protocol) → arps q ≡ true → q ≡ is_arp
arps-eq is_arp h = refl
arps-eq q h = cc

-- The tests of a flow that lets a container use a port.
four :
    (a b c d : Bool)
    → a && (b && (c && (d && true))) ≡ true
    → (a ≡ true) × (b ≡ true) × (c ≡ true) × (d ≡ true)
four a b c d h = ground arith

module _ (p : Packet) where
  -- Whatever the first statement that matches does, if it is so for each that matches and for none.
  first-All :
      (Q : List Action → Type 0) (ss : List Statement)
      → Q []
      → All (λ s. all_hold p s.0 ≡ true → Q s.1) ss
      → Q (first p ss)
  unfolding first
  first-All Q [] q h = q
  first-All Q ((ms, as') ∷ ss) q h = elim (Bool-cases (all_hold p ms)) [
    | inl e ↦ rw (e, first) (h.0 e)
    | inr e ↦ rw (e, first) (first-All Q ss q h.1)
  ]

  -- The packet is one of the container, and a port lets it through.
  abbrev pub Opens : Resolved → Type 0
  Opens c =
      ((p.protocol ≡ is_tcp) ⊎ (p.protocol ≡ is_udp))
      × (p.mac_src ≡ c.base.mac)
      × (p.addr_src ≡ c.base.ip)
      × (Mem p.port_dst c.base.to_pub ⊎ Mem p.port_src c.base.from_pub)

  abbrev pub IsPermitted : List Resolved → Type 0
  IsPermitted cs = ∥ (
      (p.protocol ≡ is_arp)
      ⊎ (((is_ip p.protocol ≡ true) × (p.addr_dst ≡ gateway_ip))
          ⊎ ((c : Resolved) × Mem c cs × Opens c))) ∥₁

  module _ (cs : List Resolved) where
    abbrev Permits : Statement → Type 0
    Permits s = all_hold p s.0 ≡ true → IsPermitted cs

    permits : (c : Resolved) → Mem c cs → Opens c → IsPermitted cs
    permits c m x = ∣ inr (inr (c, m, x)) ∣₁

    module _ (c : Resolved) (m : Mem c cs) (n : ℕ) where
      to_tcp : Mem n c.base.to_pub → Permits (to_gateway c (tp_dst n) tcp)
      to_tcp k h =
          let (a, b, d, e) = four _ _ _ _ h in
          permits c m (
            inl (tcps-eq p.protocol a),
            (eq_iff _ _).0 b,
            (eq_iff _ _).0 d,
            inl (subst (λ x. Mem x c.base.to_pub) (sym ((nat_beq_iff p.port_dst n).0 e)) k),
          )

      to_udp : Mem n c.base.to_pub → Permits (to_gateway c (tp_dst n) udp)
      to_udp k h =
          let (a, b, d, e) = four _ _ _ _ h in
          permits c m (
            inr (udps-eq p.protocol a),
            (eq_iff _ _).0 b,
            (eq_iff _ _).0 d,
            inl (subst (λ x. Mem x c.base.to_pub) (sym ((nat_beq_iff p.port_dst n).0 e)) k),
          )

      from_tcp : Mem n c.base.from_pub → Permits (to_gateway c (tp_src n) tcp)
      from_tcp k h =
          let (a, b, d, e) = four _ _ _ _ h in
          permits c m (
            inl (tcps-eq p.protocol a),
            (eq_iff _ _).0 b,
            (eq_iff _ _).0 d,
            inr (subst (λ x. Mem x c.base.from_pub) (sym ((nat_beq_iff p.port_src n).0 e)) k),
          )

      from_udp : Mem n c.base.from_pub → Permits (to_gateway c (tp_src n) udp)
      from_udp k h =
          let (a, b, d, e) = four _ _ _ _ h in
          permits c m (
            inr (udps-eq p.protocol a),
            (eq_iff _ _).0 b,
            (eq_iff _ _).0 d,
            inr (subst (λ x. Mem x c.base.from_pub) (sym ((nat_beq_iff p.port_src n).0 e)) k),
          )

    members : {A : Type 0} (xs : List A) → All (λ x. Mem x xs) xs
    members xs = All-of_mem (λ x. Mem x xs) xs (λ x m. m)

    of_container :
        (c : Resolved)
        → Mem c cs
        → All Permits (
            flat_map (λ to. tcp_or_udp (to_gateway c (tp_dst to))) c.base.to_pub
            ++ flat_map (λ from. tcp_or_udp (to_gateway c (tp_src from))) c.base.from_pub)
    of_container c m =
        All-append Permits (flat_map (λ to. tcp_or_udp (to_gateway c (tp_dst to))) c.base.to_pub)
          (flat_map (λ from. tcp_or_udp (to_gateway c (tp_src from))) c.base.from_pub)
          (All-flat_map Permits (λ n. Mem n c.base.to_pub)
            (λ to. tcp_or_udp (to_gateway c (tp_dst to)))
            (λ n k. (to_tcp c m n k, (to_udp c m n k, tt))) c.base.to_pub (members c.base.to_pub))
          (All-flat_map Permits (λ n. Mem n c.base.from_pub)
            (λ from. tcp_or_udp (to_gateway c (tp_src from)))
            (λ n k. (from_tcp c m n k, (from_udp c m n k, tt))) c.base.from_pub
            (members c.base.from_pub))

    table_3-Permits : All Permits (table_3 cs)
    table_3-Permits = (
      λ h. let (a, b) = and-true _ _ h in ∣ inr (inl (a, (eq_iff _ _).0 (and-true _ _ b).0)) ∣₁,
      (
        λ h. ∣ inl (arps-eq p.protocol (and-true _ _ h).0) ∣₁,
        All-flat_map Permits (λ c. Mem c cs)
            (λ c.
              flat_map (λ to. tcp_or_udp (to_gateway c (tp_dst to))) c.base.to_pub
              ++ flat_map (λ from. tcp_or_udp (to_gateway c (tp_src from))) c.base.from_pub)
            of_container cs (members cs),
      ),
    )

    -- What may be executed: whatever of it reaches the gateway is permitted.
    abbrev Guards : (ℕ → ℕ → List Sent) → ℕ → List Action → Type 0
    Guards resume reg as' = Mem to_local (execute resume reg as') → IsPermitted cs

    abbrev run : ℕ → ℕ → ℕ → List Sent
    run levels t reg = pipeline (λ u. first p (table_at cs u)) levels t reg

    not-local : (n : ℕ) → ¬ Mem to_local (to_port n ∷ [])
    not-local n m = Or.elim (hlevel) (mem-cons.0 m) (λ q. cc) (λ k. not-mem-nil k)

    nothing_sent : (levels reg : ℕ) → Guards (run levels) reg []
    unfolding execute
    nothing_sent levels reg m = absurd (not-mem-nil m)

    at_3 : (levels reg : ℕ) → Mem to_local (run (suc levels) 3 reg) → IsPermitted cs
    unfolding pipeline
    at_3 levels reg = first-All (Guards (run levels) reg) (table_3 cs) (nothing_sent levels reg) (
        All-map Permits (λ s. all_hold p s.0 ≡ true → Guards (run levels) reg s.1) (λ s x h m. x h)
          (table_3 cs) table_3-Permits)

    at_1 : (levels reg : ℕ) → Mem to_local (run (suc (suc levels)) 1 reg) → IsPermitted cs
    unfolding pipeline
    at_1 levels reg =
        first-All (Guards (run (suc levels)) reg) table_1 (nothing_sent (suc levels) reg) (
          λ h m. ∣ inl (arps-eq p.protocol (and-true _ _ h).0) ∣₁,
          (
            λ h m.
                at_3 levels reg (
                  unfold execute in (subst (Mem to_local) (append-nil (run (suc levels) 3 reg)) m)),
            (λ h m. unfold execute in absurd (not-local reg m), tt),
          ),
        )

    module _ (n : ℕ) (enters : p.ingress ≡ port n) where
      at_0 : (levels : ℕ) → Mem to_local (run (suc (suc (suc levels))) 0 0) → IsPermitted cs
      unfolding pipeline
      at_0 levels = first-All (Guards resume 0) (table_0 cs) (nothing_sent (suc (suc levels)) 0) (
          All-append Guarded (flat_map of_veth cs) (_ ∷ [])
            (All-flat_map Guarded (λ c. Mem c cs) of_veth
              (λ c i. (
                λ h m. at_1 levels c.patch_port (
                    unfold execute in
                    (subst (Mem to_local) (append-nil (resume 1 c.patch_port)) m)),
                (λ h m. unfold execute in absurd (not-local c.veth_port m), tt),
              ))
              cs (members cs))
            (λ h m. cc (subst (λ i. at_local i && true ≡ true) enters h), tt))
        where
          resume : ℕ → ℕ → List Sent
          resume = run (suc (suc levels))

          Guarded : Statement → Type 0
          Guarded s = all_hold p s.0 ≡ true → Guards resume 0 s.1

          of_veth : Resolved → List Statement
          of_veth c =
              (
                in_port c.veth_port ∷ dl_src c.base.mac ∷ [],
                load_reg0 c.patch_port ∷ resubmit 1 ∷ [],
              )
              ∷ (in_port c.patch_port ∷ [], output c.veth_port ∷ [])
              ∷ []

-- Whatever flows of the highest priority the switch executes, a packet that comes in at a port is handed to
-- the gateway only if it is an ARP packet, is sent to the gateway's address, or is a TCP or UDP packet with the
-- MAC and the address of a container and a port that is open for it. No two ports are the same, and no two
-- containers have the same MAC.
pub send-IsPermitted :
    (chooser : Chooser) (o : Order) (cs : List Resolved) (p : Packet) (n : ℕ)
    → IsApart cs
    → p.ingress ≡ port n
    → Mem to_local (send chooser (all_flows o cs) p)
    → IsPermitted p cs
unfolding described
send-IsPermitted chooser o cs p n apart enters m =
    at_0 p cs n enters 61 (subst (Mem to_local) (send-described chooser o cs p apart) m)
