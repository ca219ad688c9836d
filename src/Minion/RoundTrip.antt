-- ===== src/Minion/RoundTrip.antt =====
-- minion/server.go: a configuration that is set is answered.
use mathlib.Core.HLevel.{hedberg}
use mathlib.Core.List.Perm
use mathlib.Core.List.{mem-cons_self}
use quilt.Prelude.{
  Bool, ◌≡◌, ◌≤◌, ◌<◌, ◌^◌, refl, sym, ap, ◌∙◌, subst, true, false, some, String, List, [], ◌∷◌,
  All, Perm, filter, strings_join, length, arith,
}
use quilt.Prelude.Perms.{kept, filter-perm, perm-one}
use quilt.Prelude.Filters.{filter_none}
use quilt.Maps.{Order}
use quilt.Db.Table.{View, IsValid, select, commit, insert_row}
use quilt.Db.Changes.{commit_lem}
use quilt.Db.Loops.{insert_row-lem}
use quilt.Db.Selects.{select_all-perm}
use quilt.Db.MinionRows.{Minion}
use quilt.Db.EtcdRows.{Etcd, Etcd-discrete, etcd_row}
use quilt.Etcd.Minions.{minion_row, Minion-discrete}
use quilt.Foreman.Minions.{MinionConfig, role_to_pb}
use quilt.Minion.Lines.{IsLine, split_lines, split-join}
use quilt.Minion.Server.{
  minion_self, only_one, got, row, no_row, get_etcd, set_etcd, set_minion_config, get_minion_config,
  with_config, with_members, int32,
}

-- The row is the only one of the minion itself.
abbrev pub IsSelf : View Minion → Minion → List Minion → Type 0
IsSelf v m others =
    Perm v.rows (m ∷ others) × (m.self ≡ true) × All (λ (x : Minion). x.self ≡ false) others

minion_self-IsSelf :
    (o : Order) (v : View Minion) (m : Minion) (others : List Minion)
    → IsSelf v m others
    → minion_self o v ≡ some m
unfolding minion_self select
minion_self-IsSelf o v m others (p, s, h) = ap only_one (
    perm-one (hedberg Minion-discrete) m _ (
      subst (Perm (filter self (o.range Minion v.rows))) alone
        (filter-perm self (Perm.trans (o.range-perm Minion v.rows) p))))
  where
    self : Minion → Bool
    self x = x.self

    alone : filter self (m ∷ others) ≡ m ∷ []
    alone = kept self m others s ∙ ap (◌∷◌ m) (filter_none self others h)

-- A commit of the row keeps the others.
commit-IsSelf :
    (v : View Minion) (m m' : Minion) (others : List Minion)
    → IsValid minion_row v
    → IsSelf v m others
    → m'.id ≡ m.id
    → m'.self ≡ true
    → (w : View Minion) × (commit minion_row m' v ≡ some w) × IsSelf w m' others
commit-IsSelf v m m' others valid (p, s, h) e t =
    let (w, c, _, q) =
      commit_lem minion_row v m m' ((Perm.mem_iff p).1 mem-cons_self) valid.distinct e in
    (
      w,
      c,
      (Perm.cons_inv (Perm.trans q (Perm.trans (Perm.cons m' p) (Perm.swap m m' others))), t, h),
    )

-- A table of one row of etcd.
get_etcd-one : (o : Order) (v : View Etcd) (e : Etcd) → Perm v.rows (e ∷ []) → get_etcd o v ≡ row e
unfolding get_etcd
get_etcd-one o v e p =
    ap got (perm-one (hedberg Etcd-discrete) e _ (Perm.trans (select_all-perm etcd_row o v) p))

commit-one :
    (v : View Etcd) (e e' : Etcd)
    → IsValid etcd_row v
    → Perm v.rows (e ∷ [])
    → e'.id ≡ e.id
    → (w : View Etcd) × (commit etcd_row e' v ≡ some w) × Perm w.rows (e' ∷ [])
commit-one v e e' valid p q =
    let (w, c, _, r) =
      commit_lem etcd_row v e e' ((Perm.mem_iff p).1 mem-cons_self) valid.distinct q in
    (w, c, Perm.cons_inv (Perm.trans r (Perm.trans (Perm.cons e' p) (Perm.swap e e' []))))

empty : (o : Order) (v : View Etcd) → Perm v.rows [] → get_etcd o v ≡ no_row
unfolding get_etcd
empty o v p = ap got (Perm.eq-nil (Perm.trans (select_all-perm etcd_row o v) p))

-- After set_etcd the table has one row, with the members.
set_etcd-members :
    (sort : List String → List String) (o : Order) (msg : MinionConfig) (v : View Etcd)
    → IsValid etcd_row v
    → (rs : List Etcd) → Perm v.rows rs
    → length rs ≤ 1
    → (w : View Etcd) × (set_etcd sort o msg v ≡ some w)
      × ((e : Etcd) × (e.etcd_ips ≡ sort msg.etcd_members) × Perm w.rows (e ∷ []))
unfolding set_etcd
set_etcd-members sort o msg v valid [] p h =
    let (valid', q) = insert_row-lem etcd_row v valid in
    let e = (insert_row etcd_row v).0 in
    let (w, c, r) =
      commit-one (insert_row etcd_row v).1 e (with_members sort msg e) valid'
        (Perm.trans q (Perm.cons e p)) refl in
    (w, rw (empty o v p, set_etcd) c, (with_members sort msg e, refl, r))
set_etcd-members sort o msg v valid (e ∷ []) p h =
    let (w, c, r) = commit-one v e (with_members sort msg e) valid p refl in
    (w, rw (get_etcd-one o v e p, set_etcd) c, (with_members sort msg e, refl, r))
set_etcd-members sort o msg v valid (e ∷ e' ∷ rs) p h = absurd (omega arith)

-- Every configuration that is set is answered but for the id, the role, which is the row's, and the floating
-- address, with the members sorted: on valid tables, one row of the minion itself, at most one of etcd, a
-- disk size of 32 bits, and at least one key, none of which has a line break.
pub config_round_trip :
    (sort : List String → List String) (o : Order) (msg : MinionConfig) (l : String)
    (ls : List String) (minions : View Minion) (m : Minion) (others : List Minion)
    (etcds : View Etcd)
    → IsValid minion_row minions
    → IsSelf minions m others
    → IsValid etcd_row etcds
    → length etcds.rows ≤ 1
    → msg.disk_size < 2 ^ 32
    → msg.authorized_keys ≡ l ∷ ls
    → All IsLine (l ∷ ls)
    → (w : View Minion × View Etcd) × (set_minion_config sort o msg minions etcds ≡ some w)
      × (get_minion_config o w.0 w.1
          ≡ some (record msg {
            id = "";
            role = role_to_pb m.role;
            floating_ip = "";
            etcd_members = sort msg.etcd_members;
          }))
unfolding set_minion_config get_minion_config
config_round_trip sort o msg l ls minions m others etcds valid self valid' short disk e lines =
    let (v, c, self') = commit-IsSelf minions m (with_config msg m) others valid self refl refl in
    let (w, d, (r, q, p)) =
      set_etcd-members sort o msg etcds valid' etcds.rows (Perm.refl etcds.rows) short in
    (
      (v, w),
      rw (minion_self-IsSelf o minions m others self, set_minion_config)
          (rw (c, set_minion_config) (rw d refl)),
      rw (minion_self-IsSelf o v (with_config msg m) others self', get_minion_config)
          (rw (get_etcd-one o w r p, get_minion_config)
            (λ i. some (record msg {
              id = "";
              role = role_to_pb m.role;
              floating_ip = "";
              etcd_members = q i;
              authorized_keys = keys i;
              disk_size = size i;
            }))),
    )
  where
    keys : split_lines (strings_join "\n" msg.authorized_keys) ≡ msg.authorized_keys
    keys = ap (λ x. split_lines (strings_join "\n" x)) e ∙ split-join l ls lines ∙ sym e

    size : int32 msg.disk_size ≡ msg.disk_size
    size = omega arith
