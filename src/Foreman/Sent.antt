-- ===== src/Foreman/Sent.antt =====
-- cloud/foreman/foreman.go: which configs `RunOnce` sends, and to whom.
use mathlib.Core.List.Perm
use mathlib.Core.Logic.{∥∥₁_elim, ∥∥₁_prop}
use quilt.Prelude.{
  ℕ, ◌≡◌, ◌≢◌, ◌↔◌, ◌∙◌, refl, sym, ap, Bool, true, false, Option, none, some, String, List, Mem,
  Perm, string_eq, bool_eq, filter, mem-flat_map,
}
use quilt.Maps.{Map, Order, values}
use quilt.Db.Rows.{Machine}
use quilt.Foreman.Minions.{PbRole, MinionConfig, zero_config, Minion, World, update_minion_map}
use quilt.Foreman.Run.{answer, update_configs, etcd_ips, new_config, assign, run_once, has_ips}
use quilt.Foreman.Due.{
  update_configs-IsAsked, IsMember, mem-etcd_ips, assign_each-flat_map, IsDue, mem-assign,
  new_config-Tells,
}

module _ {Client : Type 0} where
  -- What the foreman knows after a round, and the etcd members that it tells the minions.
  abbrev pub after_round :
      (new_client : ℕ → String → Option Client) (get_minion : Client → Option MinionConfig)
      (o : Order)
      → List Machine
      → World Client
      → Map String (Minion Client)
  after_round new_client get_minion o machines w =
      update_configs get_minion (update_minion_map new_client o (filter has_ips machines) w).minions

  module _ (new_client : ℕ → String → Option Client) (get_minion : Client → Option MinionConfig)
      (o : Order) (machines : List Machine) (blueprint : String) (w : World Client) where
    -- RunOnce sends exactly this: to each minion of its map that answered, the config that has its machine's
    -- private and floating address, provider, size, region, keys and disk size (in 32 bits), the blueprint and
    -- the members of etcd, and neither an id nor a role, unless the minion answered just this config. The
    -- members are the private addresses of the minions that answered that they are masters.
    pub run_once-sends :
        (ips : List String) × ((ip : String)
          → Mem ip ips
            ↔ ∥ (
                (m : Minion Client) × Mem m
                  (values (after_round new_client get_minion o machines w))
                × IsMember ip m) ∥₁)
        × ((c : Client) (cfg : MinionConfig)
            → Mem {A = Client × MinionConfig}
                (c, cfg)
                (run_once new_client get_minion o machines blueprint w).1
              ↔ ∥ (
                  (m : Minion Client) × Mem m
                    (values (after_round new_client get_minion o machines w))
                  × IsDue blueprint ips c cfg m) ∥₁)
    unfolding run_once
    run_once-sends = (
      ips,
      λ ip. (
        λ c.
            ∥∥₁_elim ((mem-etcd_ips ordered ip).0 c) ∥∥₁_prop
              (λ x. ∣ (x.0, (Perm.mem_iff ranged).0 x.1, x.2) ∣₁),
        λ h.
            (mem-etcd_ips ordered ip).1
              (∥∥₁_elim h ∥∥₁_prop (λ x. ∣ (x.0, (Perm.mem_iff ranged).1 x.1, x.2) ∣₁)),
      ),
      λ c cfg. rw (assign_each-flat_map blueprint ips ordered) (
        λ d. ∥∥₁_elim ((mem-flat_map (assign blueprint ips) ordered (c, cfg)).0 d) ∥∥₁_prop λ x.
            ∣ (x.0, (Perm.mem_iff ranged).0 x.1, (mem-assign blueprint ips x.0 c cfg).0 x.2) ∣₁,
        λ h. (mem-flat_map (assign blueprint ips) ordered (c, cfg)).1 (
            ∥∥₁_elim h ∥∥₁_prop λ x.
              ∣ (x.0, (Perm.mem_iff ranged).1 x.1, (mem-assign blueprint ips x.0 c cfg).1 x.2) ∣₁),
      ),
    )
      where
        ordered : List (Minion Client)
        ordered = o.range (Minion Client) (values (after_round new_client get_minion o machines w))

        ranged : Perm ordered (values (after_round new_client get_minion o machines w))
        ranged =
            o.range-perm (Minion Client) (values (after_round new_client get_minion o machines w))

        ips : List String
        ips = etcd_ips ordered

    -- A minion of the map that answers with a role is sent a config in every round, even if it was sent the
    -- same one in the round before: the configs that are compared differ in the role.
    pub run_once-resends :
        (m : Minion Client) (own : MinionConfig)
        → Mem m (values (after_round new_client get_minion o machines w))
        → get_minion m.client ≡ some own
        → own.role ≢ PbRole.none_role
        → ∥ (
            (cfg : MinionConfig) × Mem {A = Client × MinionConfig}
              (m.client, cfg)
              (run_once new_client get_minion o machines blueprint w).1) ∥₁
    unfolding new_config
    run_once-resends m own c e n =
        let (asked_connected, asked_config) = update_configs-IsAsked get_minion _ m c in
        let (ips, _, sent) = run_once-sends in
        ∣ (
          new_config blueprint ips m,
          (sent m.client (new_config blueprint ips m)).1 ∣ (
            m,
            c,
            (
              ∣ refl ∣₁,
              (
                asked_connected ∙ ap answered e,
                (
                  λ q. n (role_of ips (ap reply e) (q ∙ asked_config)),
                  new_config-Tells blueprint ips m,
                ),
              ),
            ),
          ) ∣₁,
        ) ∣₁
      where
        answered : Option MinionConfig → Bool
        answered x = elim x [ some cfg ↦ true | none ↦ false ]

        reply : Option MinionConfig → MinionConfig
        reply x = elim x [ some cfg ↦ cfg | none ↦ zero_config ]

        role_of :
            (ips : List String)
            → answer get_minion m.client ≡ own
            → new_config blueprint ips m ≡ answer get_minion m.client
            → own.role ≡ PbRole.none_role
        role_of ips f q = ap (λ (x : MinionConfig). x.role) (sym f ∙ sym q)
