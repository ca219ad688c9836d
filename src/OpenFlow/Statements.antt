-- ===== src/OpenFlow/Statements.antt =====
-- The flows of each table say what the statements of the pseudocode say.
use mathlib.Core.List.{map-append}
use quilt.Prelude.{
  ℕ, zero, suc, ◌≡◌, refl, ◌∙◌, List, [], ◌∷◌, ◌++◌, map, flat_map, string_eq, nat_eq,
}
use quilt.Prelude.Filters.{map-flat_map}
use quilt.OpenFlow.Flows.{
  flow, from_local, resubmit, ip, nw_src, gateway_ip, arp, dl_dst, tp_src, tp_dst, output, Resolved,
  inward, outward,
}
use quilt.OpenFlow.Pseudocode.{table_at, tcp_or_udp, to_container, to_gateway}
use quilt.OpenFlow.Ordered.{statement}
use quilt.OpenFlow.Blocks.{both, block_0, block_2, ports_2, block_3}
use quilt.OpenFlow.Tables.{as_is, flows_at}

statements_2 :
    (c : Resolved)
    → map statement (ports_2 as_is c)
      ≡ flat_map (λ to. tcp_or_udp (to_container c (tp_src to))) c.base.to_pub
        ++ flat_map (λ from. tcp_or_udp (to_container c (tp_dst from))) c.base.from_pub
statements_2 c =
    map-append statement (flat_map (λ to. both (inward c) (tp_src to)) c.base.to_pub)
      (flat_map (λ from. both (inward c) (tp_dst from)) c.base.from_pub)
    ∙ rw
        (
          map-flat_map statement (λ to. both (inward c) (tp_src to))
              (λ to. tcp_or_udp (to_container c (tp_src to))) (λ n. refl) c.base.to_pub,
          map-flat_map statement (λ from. both (inward c) (tp_dst from))
              (λ from. tcp_or_udp (to_container c (tp_dst from))) (λ n. refl) c.base.from_pub,
        )
        refl

statements_3 :
    (c : Resolved)
    → map statement (block_3 as_is c)
      ≡ flat_map (λ to. tcp_or_udp (to_gateway c (tp_dst to))) c.base.to_pub
        ++ flat_map (λ from. tcp_or_udp (to_gateway c (tp_src from))) c.base.from_pub
statements_3 c =
    map-append statement (flat_map (λ to. both (outward c) (tp_dst to)) c.base.to_pub)
      (flat_map (λ from. both (outward c) (tp_src from)) c.base.from_pub)
    ∙ rw
        (
          map-flat_map statement (λ to. both (outward c) (tp_dst to))
              (λ to. tcp_or_udp (to_gateway c (tp_dst to))) (λ n. refl) c.base.to_pub,
          map-flat_map statement (λ from. both (outward c) (tp_src from))
              (λ from. tcp_or_udp (to_gateway c (tp_src from))) (λ n. refl) c.base.from_pub,
        )
        refl

block_2-statements :
    (c : Resolved)
    → map statement (block_2 as_is c)
      ≡ (arp ∷ dl_dst c.base.mac ∷ [], output c.veth_port ∷ [])
          ∷ (ip ∷ dl_dst c.base.mac ∷ nw_src gateway_ip ∷ [], output c.veth_port ∷ [])
          ∷ flat_map (λ to. tcp_or_udp (to_container c (tp_src to))) c.base.to_pub
        ++ flat_map (λ from. tcp_or_udp (to_container c (tp_dst from))) c.base.from_pub
block_2-statements c = rw (statements_2 c) refl

-- The flows of a table say what its statements say.
pub statements_at : (cs : List Resolved) (t : ℕ) → map statement (flows_at cs t) ≡ table_at cs t
statements_at cs zero =
    map-append statement (flat_map (block_0 as_is) cs)
      (flow 0 1000 (from_local ∷ []) (resubmit 2 ∷ []) ∷ [])
    ∙ rw
        (map-flat_map statement (block_0 as_is) (λ c. map statement (block_0 as_is c)) (λ c. refl)
          cs)
        refl
statements_at cs (suc zero) = refl
statements_at cs (suc (suc zero)) =
    rw (map-flat_map statement (block_2 as_is) _ block_2-statements cs) refl
statements_at cs (suc (suc (suc zero))) =
    rw (map-flat_map statement (block_3 as_is) _ statements_3 cs) refl
statements_at cs (suc (suc (suc (suc n)))) = refl
