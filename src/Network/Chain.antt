-- ===== src/Network/Chain.antt =====
-- minion/network/nat.go: what `syncChain` leaves of a chain of iptables.
use mathlib.Core.List.{mem-cons_self, map-append, append-nil, append_assoc, perm_append_comm}
use mathlib.Core.List.Perm
use mathlib.Core.Option
use quilt.Prelude.{
  ◌≡◌, ◌∙◌, refl, sym, ap, subst, true, Option, some, String, List, [], ◌∷◌, ◌++◌, map, Mem, Nodup,
  Perm, string_discrete,
}
use quilt.Maps.{Order}
use quilt.Join.Hash.{hash_join}
use quilt.Join.Converge.{hash_join-mirrors}
use quilt.Network.Nat.{IpTables, delete_rules, append_rules, sync_chain}

-- Taking a rule out of a chain that has it leaves the other rules.
abbrev pub Deletes : IpTables → Type 0
Deletes ipt =
    (r : String) (chain : List String)
    → Mem r chain
    → (rest : List String) × (ipt.delete_rule r chain ≡ some rest) × Perm (r ∷ rest) chain

-- An appended rule stands at the end.
abbrev pub Appends : IpTables → Type 0
Appends ipt = (r : String) (chain : List String) → ipt.append_rule r chain ≡ some (chain ++ r ∷ [])

delete_rules-perm :
    (ipt : IpTables) (gone kept chain : List String)
    → Deletes ipt
    → Perm chain (gone ++ kept)
    → (left : List String) × (delete_rules ipt gone chain ≡ (left, true)) × Perm left kept
unfolding delete_rules
delete_rules-perm ipt [] kept chain h p = (chain, refl, p)
delete_rules-perm ipt (r ∷ gone) kept chain h p =
    let (rest, d, t) = h r chain ((Perm.mem_iff p).1 mem-cons_self) in
    let (left, e, q) = delete_rules-perm ipt gone kept rest h (Perm.cons_inv (Perm.trans t p)) in
    (left, rw (delete_rules, d) e, q)

append_rules_lem :
    (ipt : IpTables) (rs chain : List String)
    → Appends ipt
    → append_rules ipt rs chain ≡ (chain ++ rs, true)
unfolding append_rules
append_rules_lem ipt [] chain h = ap (λ x. (x, true)) (sym (append-nil chain))
append_rules_lem ipt (r ∷ rs) chain h =
    rw (append_rules, h r chain)
      (append_rules_lem ipt rs (chain ++ r ∷ []) h
        ∙ ap (λ x. (x, true)) (append_assoc chain (r ∷ []) rs))

-- If iptables takes out and appends rules without failing, and no two rules of the chain have the same key,
-- then after syncChain the chain has the keys of the target, each as often as the target has it, and no other.
pub sync_chain-keys :
    (o : Order) (rule_key : String → Option String) (ipt : IpTables) (target curr : List String)
    → Deletes ipt
    → Appends ipt
    → Nodup (map rule_key curr)
    → (chain : List String) × (sync_chain o rule_key ipt target curr ≡ (chain, true))
      × Perm (map rule_key chain) (map rule_key target)
unfolding sync_chain
sync_chain-keys o rule_key ipt target curr d a n =
    let j = hash_join (Option.discrete string_discrete) rule_key rule_key o curr target in
    let (kept, p, q) =
      hash_join-mirrors (Option.discrete string_discrete) rule_key rule_key o curr target n in
    let (left, e, r) =
      delete_rules-perm ipt j.lonely_lefts kept curr d
        (Perm.trans (Perm.symm p) (perm_append_comm kept j.lonely_lefts)) in
    (
      left ++ j.lonely_rights,
      rw (sync_chain, e) (append_rules_lem ipt j.lonely_rights left a),
      Perm.trans
          (subst (λ ks. Perm ks (map rule_key kept ++ map rule_key j.lonely_rights))
            (sym (map-append rule_key left j.lonely_rights))
            (Perm.append (Perm.map rule_key r) (Perm.refl _)))
          q,
    )
