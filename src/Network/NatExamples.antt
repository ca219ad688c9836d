-- ===== src/Network/NatExamples.antt =====
-- minion/network/nat.go: the rules of a public web server, and a chain that gets them.
use mathlib.Core.List.{Nodup-cons, Nodup-nil, not-mem-nil, mem-cons, Mem-prop}
use mathlib.Core.List.Perm
use mathlib.Core.Logic.Or
use quilt.Prelude.{
  ℕ, ◌≡◌, ◌↔◌, refl, true, some, String, List, [], ◌∷◌, ◌++◌, map, flat_map, Mem, Perm,
  string_discrete, test, test_yes, test_no, if◌then◌else◌,
}
use quilt.Maps.{in_order, get, put, delete}
use quilt.Db.MinionRows.{Container, blank_container, Connection}
use quilt.Network.Nat.{dnat, collect_ports, port_rules, prerouting_rules, IpTables, sync_chain}
use quilt.Network.Chain.{sync_chain-keys}
use quilt.Network.NatRules.{IsRule, prerouting_rules-IsRule}

abbrev web : Container
web = record (blank_container 1) { hostname = "web"; ip = "10.0.0.9" }

abbrev public : Connection
public = record { id = 1; source = "public"; target = "web"; min_port = 80; max_port = 80 }

abbrev show : ℕ → String
show n = "80"

both_protocols :
    prerouting_rules in_order show "eth0" (web ∷ []) (public ∷ [])
    ≡ "-i eth0 -p tcp -m tcp --dport 80 -j DNAT --to-destination 10.0.0.9:80"
      ∷ "-i eth0 -p udp -m udp --dport 80 -j DNAT --to-destination 10.0.0.9:80" ∷ []
unfolding prerouting_rules collect_ports port_rules flat_map get put delete string_discrete
both_protocols = refl

prerouting_rules-IsRule_example :
    Mem "-j ACCEPT" (prerouting_rules in_order show "eth0" (web ∷ []) (public ∷ []))
    ↔ IsRule (λ c. c.source) (λ c. c.target) (dnat show "eth0") (web ∷ []) (public ∷ []) "-j ACCEPT"
prerouting_rules-IsRule_example =
    prerouting_rules-IsRule in_order show "eth0" (web ∷ []) (public ∷ []) "-j ACCEPT"

take_out : String → List String → List String
take_out r [] = []
take_out r (x ∷ xs) =
    let rest = take_out r xs in if test (string_discrete r x) then xs else x ∷ rest

take_out-perm : (r : String) (xs : List String) → Mem r xs → Perm (r ∷ take_out r xs) xs
unfolding take_out
take_out-perm r [] m = absurd (not-mem-nil m)
take_out-perm r (x ∷ xs) m = elim (string_discrete r x) [
  | yes p ↦ rw (test_yes (string_discrete r x) p) (Perm.cons' p (Perm.refl xs))
  | no n ↦ rw (test_no (string_discrete r x) n) (
      Perm.trans (Perm.swap x r (take_out r xs)) (
        Perm.cons x
          (take_out-perm r xs (Or.elim Mem-prop (mem-cons.0 m) (λ e. absurd (n e)) (λ c. c)))))
]

-- A table of rules that takes out the first rule that is the given one, and never fails.
abbrev in_memory : IpTables
in_memory = record {
  delete_rule = λ r chain. some (take_out r chain);
  append_rule = λ r chain. some (chain ++ r ∷ []);
}

sync_chain-keys_example :
    (chain : List String) × (sync_chain in_order some in_memory ("new" ∷ []) ("old" ∷ [])
      ≡ (chain, true))
    × Perm (map some chain) (map some ("new" ∷ []))
sync_chain-keys_example =
    sync_chain-keys in_order some in_memory ("new" ∷ []) ("old" ∷ [])
      (λ r chain m. (take_out r chain, refl, take_out-perm r chain m)) (λ r chain. refl)
      (Nodup-cons.1 (not-mem-nil, Nodup-nil))
