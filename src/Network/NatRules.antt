-- ===== src/Network/NatRules.antt =====
-- minion/network/nat.go: which rules of address translation there are.
use mathlib.Core.List.{not-mem-nil}
use mathlib.Core.List.Perm
use mathlib.Core.Logic.{∥∥₁_elim, ∥∥₁_prop}
use quilt.Prelude.{
  ℕ, ◌≡◌, ◌↔◌, refl, inl, inr, String, List, [], ◌∷◌, Mem, string_eq, flat_map, mem-flat_map,
}
use quilt.Maps.{Order, get}
use quilt.Db.MinionRows.{Container, Connection}
use quilt.Network.Nat.{
  ports_of, collect_ports, dnat, masquerade, port_rules, prerouting_rules, postrouting_rules,
}
use quilt.Network.NatPorts.{IsOpen, mem-collect_ports}

-- The rule is one of the two that are written for a container and a port that is open for its host.
abbrev pub IsRule :
    (Connection → String)
    → (Connection → String)
    → (Container → ℕ → String → String)
    → List Container
    → List Connection
    → String
    → Type 0
IsRule public_end host_end text containers conns r = ∥ (
    (dbc : Container) × Mem dbc containers
    × ((port : ℕ) × IsOpen public_end host_end conns dbc.hostname port
        × Mem r (text dbc port "tcp" ∷ text dbc port "udp" ∷ []))) ∥₁

mem-port_rules :
    (o : Order) (public_end host_end : Connection → String) (text : Container → ℕ → String → String)
    (containers : List Container) (conns : List Connection) (r : String)
    → Mem r (port_rules o text (collect_ports public_end host_end [] conns) containers)
      ↔ IsRule public_end host_end text containers conns r
unfolding port_rules
mem-port_rules o public_end host_end text containers conns r = (
  λ m. ∥∥₁_elim ((mem-flat_map rules containers r).0 m) ∥∥₁_prop λ w.
      let (dbc, c, n) = w in
      ∥∥₁_elim ((mem-flat_map (both dbc) (o.range ℕ (ports dbc)) r).0 n) ∥∥₁_prop λ x.
        let (port, d, y) = x in
        ∣ (dbc, c, (port, opened dbc port ((Perm.mem_iff (o.range-perm ℕ (ports dbc))).0 d), y)) ∣₁,
  λ h. (mem-flat_map rules containers r).1 (
      ∥∥₁_elim h ∥∥₁_prop λ w.
        let (dbc, c, (port, d, y)) = w in
        ∣ (
          dbc,
          c,
          (mem-flat_map (both dbc) (o.range ℕ (ports dbc)) r).1 ∣ (
            port,
            (Perm.mem_iff (o.range-perm ℕ (ports dbc))).1
                ((mem-collect_ports public_end host_end conns [] dbc.hostname port).1 ∣ inr d ∣₁),
            y,
          ) ∣₁,
        ) ∣₁),
)
  where
    ports : Container → List ℕ
    ports dbc = ports_of (collect_ports public_end host_end [] conns) dbc.hostname

    both : Container → ℕ → List String
    both dbc port = text dbc port "tcp" ∷ text dbc port "udp" ∷ []

    rules : Container → List String
    rules dbc = flat_map (both dbc) (o.range ℕ (ports dbc))

    empty : (k : String) → ports_of [] k ≡ []
    empty k = unfold get in refl

    opened :
        (dbc : Container) (port : ℕ)
        → Mem port (ports dbc)
        → IsOpen public_end host_end conns dbc.hostname port
    opened dbc port m =
        ∥∥₁_elim ((mem-collect_ports public_end host_end conns [] dbc.hostname port).0 m) ∥∥₁_prop
          λ w. elim w [ inl c ↦ absurd (not-mem-nil (rw (empty dbc.hostname) at c)) | inr x ↦ x ]

-- The rules for the chain PREROUTING are these: for each container, each port that a connection from the public
-- internet to its hostname opens, and each of the two protocols, the rule that sends the packets to the
-- container.
pub prerouting_rules-IsRule :
    (o : Order) (print : ℕ → String) (public_interface : String) (containers : List Container)
    (conns : List Connection) (r : String)
    → Mem r (prerouting_rules o print public_interface containers conns)
      ↔ IsRule (λ c. c.source) (λ c. c.target) (dnat print public_interface) containers conns r
unfolding prerouting_rules
prerouting_rules-IsRule o print public_interface =
    mem-port_rules o (λ c. c.source) (λ c. c.target) (dnat print public_interface)

-- The same for the chain POSTROUTING, with the connections to the public internet.
postrouting_rules-IsRule :
    (o : Order) (print : ℕ → String) (public_interface : String) (containers : List Container)
    (conns : List Connection) (r : String)
    → Mem r (postrouting_rules o print public_interface containers conns)
      ↔ IsRule
          (λ c. c.target)
          (λ c. c.source)
          (masquerade print public_interface)
          containers
          conns
          r
unfolding postrouting_rules
postrouting_rules-IsRule o print public_interface =
    mem-port_rules o (λ c. c.target) (λ c. c.source) (masquerade print public_interface)
