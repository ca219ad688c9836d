-- ===== src/OpenFlow/Pseudocode.antt =====
-- The pseudocode in the comment at the top of minion/network/openflow/openflow.go: each table is a series of if
-- statements of which the first that matches is executed. A set of ports is a list, in any order.
use quilt.Prelude.{ℕ, zero, suc, true, false, List, [], ◌∷◌, ◌++◌, map, flat_map}
use quilt.OpenFlow.Flows.{
  Match, in_port, from_local, arp, ip, tcp, udp, dl_src, dl_dst, nw_src, nw_dst, ip_src, ip_dst,
  tp_src, tp_dst, Action, load_reg0, resubmit, output, output_local, output_reg0, Resolved,
  gateway_mac, gateway_ip, broadcast,
}
use quilt.OpenFlow.Switch.{Packet, all_hold, Sent, pipeline}

abbrev pub Statement : Type 0
Statement = List Match × List Action

-- The first statement that matches; if none does, the packet is dropped.
unfoldable pub first : Packet → List Statement → List Action
first p [] = []
first p ((ms, as') ∷ rest) = elim (all_hold p ms) [ true ↦ as' | false ↦ first p rest ]

abbrev pub table_0 : List Resolved → List Statement
table_0 containers =
    flat_map
      (λ (c : Resolved).
        (in_port c.veth_port ∷ dl_src c.base.mac ∷ [], load_reg0 c.patch_port ∷ resubmit 1 ∷ [])
        ∷ (in_port c.patch_port ∷ [], output c.veth_port ∷ [])
        ∷ [])
      containers
    ++ (from_local ∷ [], resubmit 2 ∷ []) ∷ []

abbrev pub table_1 : List Statement
table_1 =
    (arp ∷ dl_dst broadcast ∷ [], output_local ∷ output_reg0 ∷ [])
    ∷ (dl_dst gateway_mac ∷ [], resubmit 3 ∷ [])
    ∷ ([], output_reg0 ∷ [])
    ∷ []

-- [tcp|udp]
abbrev pub tcp_or_udp : (Match → Statement) → List Statement
tcp_or_udp f = f tcp ∷ f udp ∷ []

abbrev pub to_container : Resolved → Match → Match → Statement
to_container c port protocol =
    (protocol ∷ dl_dst c.base.mac ∷ ip_dst c.base.ip ∷ port ∷ [], output c.veth_port ∷ [])

abbrev pub to_gateway : Resolved → Match → Match → Statement
to_gateway c port protocol =
    (protocol ∷ dl_src c.base.mac ∷ ip_src c.base.ip ∷ port ∷ [], output_local ∷ [])

abbrev pub table_2 : List Resolved → List Statement
table_2 containers =
    (dl_dst broadcast ∷ [], map (λ (c : Resolved). output c.veth_port) containers)
    ∷ flat_map
        (λ (c : Resolved).
          (arp ∷ dl_dst c.base.mac ∷ [], output c.veth_port ∷ [])
            ∷ (ip ∷ dl_dst c.base.mac ∷ nw_src gateway_ip ∷ [], output c.veth_port ∷ [])
            ∷ flat_map (λ to. tcp_or_udp (to_container c (tp_src to))) c.base.to_pub
          ++ flat_map (λ from. tcp_or_udp (to_container c (tp_dst from))) c.base.from_pub)
        containers

abbrev pub table_3 : List Resolved → List Statement
table_3 containers =
    (ip ∷ nw_dst gateway_ip ∷ [], output_local ∷ [])
    ∷ (arp ∷ [], output_local ∷ [])
    ∷ flat_map
        (λ (c : Resolved).
          flat_map (λ to. tcp_or_udp (to_gateway c (tp_dst to))) c.base.to_pub
          ++ flat_map (λ from. tcp_or_udp (to_gateway c (tp_src from))) c.base.from_pub)
        containers

abbrev pub table_at : List Resolved → ℕ → List Statement
table_at cs zero = table_0 cs
table_at cs (suc zero) = table_1
table_at cs (suc (suc zero)) = table_2 cs
table_at cs (suc (suc (suc zero))) = table_3 cs
table_at cs (suc (suc (suc (suc n)))) = []

-- What the pseudocode says of a packet.
unfoldable pub described : List Resolved → Packet → List Sent
unfolding first pipeline
described containers p = pipeline (λ t. first p (table_at containers t)) 64 0 0
