-- ===== src/Foreman/Due.antt =====
-- cloud/foreman/foreman.go: what `updateConfig` learns, who is a member of etcd, and who is due for a config.
use mathlib.Core.Bool.{Bool-set}
use mathlib.Core.HLevel.{×_prop, ¬_prop, hedberg}
use mathlib.Core.List.{mem-cons, not-mem-nil, Mem-prop}
use mathlib.Core.Logic.{∥∥₁_elim, ∥∥₁_prop}
use mathlib.Core.Logic.Or
use quilt.Prelude.{
  ◌%◌, ◌^◌, ◌≡◌, ◌≢◌, ◌↔◌, ◌∙◌, refl, sym, ap, subst, inl, inr, true, not, ◌&&◌, Bool-cases, Option,
  String, List, [], ◌∷◌, ◌++◌, Mem, ◌==◌, ◌!=◌, string_eq, bool_eq, bool_beq_iff, eq_iff, test_yes,
  test_no, if◌then◌else◌, true≢false, string_discrete, flat_map, mem-flat_map,
}
use quilt.Maps.{Map, values}
use quilt.Db.Rows.{Machine}
use quilt.Foreman.Minions.{PbRole, MinionConfig, Minion}
use quilt.Foreman.Run.{
  PbRole-discrete, MinionConfig-discrete, role_is_master, answer, answers, update_config,
  update_configs, etcd_ips, new_config, assign, assign_each,
}

-- The config tells the minion of its machine, the blueprint and the members of etcd, and nothing else. The
-- disk size is sent in 32 bits.
pub record Tells (blueprint : String) (ips : List String) (machine : Machine) (cfg : MinionConfig)
    : Type 0 where
  pub addresses : (cfg.private_ip ≡ machine.private_ip) × (cfg.floating_ip ≡ machine.floating_ip)
  pub place :
      (cfg.provider ≡ machine.provider)
      × ((cfg.size ≡ machine.size) × (cfg.region ≡ machine.region))
  pub disk : cfg.disk_size ≡ machine.disk_size % 2 ^ 32
  pub keys : cfg.authorized_keys ≡ machine.ssh_keys
  pub policy : (cfg.blueprint ≡ blueprint) × (cfg.etcd_members ≡ ips)
  pub unset : (cfg.id ≡ "") × (cfg.role ≡ PbRole.none_role)

module _ {Client : Type 0} where
  module _ (get_minion : Client → Option MinionConfig) where
    -- The foreman knows of the minion what it last answered.
    abbrev pub IsAsked : Minion Client → Type 0
    IsAsked m =
        (m.connected ≡ answers get_minion m.client) × (m.config ≡ answer get_minion m.client)

    update_config-IsAsked : (m : Minion Client) → IsAsked (update_config get_minion m).0
    unfolding update_config
    update_config-IsAsked m = elim (Bool-cases (answers get_minion m.client == m.connected)) [
      | inl e ↦ rw e (sym ((bool_beq_iff _ _).0 e), refl)
      | inr e ↦ rw e (refl, refl)
    ]

    IsAsked-prop : (m : Minion Client) → IsProp (IsAsked m)
    IsAsked-prop m = ×_prop (Bool-set _ _) (hedberg MinionConfig-discrete _ _)

    pub update_configs-IsAsked :
        (es : Map String (Minion Client)) (m : Minion Client)
        → Mem m (values (update_configs get_minion es))
        → IsAsked m
    unfolding update_configs
    update_configs-IsAsked [] m c = absurd (not-mem-nil c)
    update_configs-IsAsked ((k, v) ∷ es) m c =
        Or.elim (IsAsked-prop m) (mem-cons.0 c)
          (λ e. subst IsAsked (sym e) (update_config-IsAsked v)) (update_configs-IsAsked es m)

    -- updateConfig notifies exactly when the connection of the minion has changed.
    update_config-notifies :
        (m : Minion Client)
        → (update_config get_minion m).1
          ≡ not ((update_config get_minion m).0.connected == m.connected)
    unfolding update_config
    update_config-notifies m = elim (Bool-cases (answers get_minion m.client == m.connected)) [
      | inl e ↦ rw (update_config, e, (bool_beq_iff m.connected m.connected).1 refl) refl
      | inr e ↦ rw (update_config, e) (sym (ap not e))
    ]

  -- A master with an address.
  abbrev pub IsMember : String → Minion Client → Type 0
  IsMember ip m = (m.config.role ≡ PbRole.master_role) × ((m.machine.private_ip ≡ ip) × (ip ≢ ""))

  member : Minion Client → List String
  member m =
      if role_is_master m.config.role && (m.machine.private_ip != "")
      then m.machine.private_ip ∷ []
      else []

  etcd_ips-flat_map : (ms : List (Minion Client)) → etcd_ips ms ≡ flat_map member ms
  unfolding etcd_ips flat_map member
  etcd_ips-flat_map [] = refl
  etcd_ips-flat_map (m ∷ ms) =
      elim (Bool-cases (role_is_master m.config.role && (m.machine.private_ip != ""))) [
        | inl e ↦ rw e (ap (◌∷◌ m.machine.private_ip) (etcd_ips-flat_map ms))
        | inr e ↦ rw e (etcd_ips-flat_map ms)
      ]

  mem-member : (m : Minion Client) (ip : String) → Mem ip (member m) ↔ IsMember ip m
  unfolding member
  mem-member m ip = elim (PbRole-discrete m.config.role PbRole.master_role) [
    | yes p ↦ elim (Bool-cases (m.machine.private_ip == "")) [
      | inl e ↦
          rw (test_yes (PbRole-discrete m.config.role PbRole.master_role) p, e)
            (λ c. absurd (not-mem-nil c), λ h. absurd (h.1.1 (sym h.1.0 ∙ (eq_iff _ _).0 e)))
      | inr e ↦
          rw (test_yes (PbRole-discrete m.config.role PbRole.master_role) p, e)
            (
              λ c.
                  Or.elim member-prop (mem-cons.0 c)
                    (λ q. (p, (sym q, λ f. true≢false (sym ((eq_iff _ _).1 (sym q ∙ f)) ∙ e))))
                    (λ d. absurd (not-mem-nil d)),
              λ h. mem-cons.1 (Or.inl (sym h.1.0)),
            )
    ]
    | no n ↦
        rw (test_no (PbRole-discrete m.config.role PbRole.master_role) n)
          (λ c. absurd (not-mem-nil c), λ h. absurd (n h.0))
  ]
    where
      member-prop : IsProp (IsMember ip m)
      member-prop =
          ×_prop (hedberg PbRole-discrete _ _) (×_prop (hedberg string_discrete _ _) ¬_prop)

  -- etcdIPs has the addresses of the minions that answered that they are masters.
  pub mem-etcd_ips :
      (ms : List (Minion Client)) (ip : String)
      → Mem ip (etcd_ips ms) ↔ ∥ ((m : Minion Client) × Mem m ms × IsMember ip m) ∥₁
  mem-etcd_ips ms ip = rw (etcd_ips-flat_map ms) (
    λ c.
        ∥∥₁_elim ((mem-flat_map member ms ip).0 c) ∥∥₁_prop
          (λ w. ∣ (w.0, w.1, (mem-member w.0 ip).0 w.2) ∣₁),
    λ h.
        (mem-flat_map member ms ip).1
          (∥∥₁_elim h ∥∥₁_prop (λ w. ∣ (w.0, w.1, (mem-member w.0 ip).1 w.2) ∣₁)),
  )

  pub assign_each-flat_map :
      (blueprint : String) (ips : List String) (ms : List (Minion Client))
      → assign_each blueprint ips ms ≡ flat_map (assign blueprint ips) ms
  unfolding assign_each flat_map
  assign_each-flat_map blueprint ips [] = refl
  assign_each-flat_map blueprint ips (m ∷ ms) =
      ap (◌++◌ (assign blueprint ips m)) (assign_each-flat_map blueprint ips ms)

  pub new_config-Tells :
      (blueprint : String) (ips : List String) (m : Minion Client)
      → Tells blueprint ips m.machine (new_config blueprint ips m)
  unfolding new_config
  new_config-Tells blueprint ips m = record {
    addresses = (refl, refl);
    place = (refl, (refl, refl));
    disk = refl;
    keys = refl;
    policy = (refl, refl);
    unset = (refl, refl);
  }

  Tells-new_config :
      (blueprint : String) (ips : List String) (m : Minion Client) (cfg : MinionConfig)
      → Tells blueprint ips m.machine cfg
      → cfg ≡ new_config blueprint ips m
  unfolding new_config
  Tells-new_config blueprint ips m cfg t =
      let (a, b) = t.addresses in
      let (c, (d, e)) = t.place in
      let f = t.disk in let g = t.keys in let (h, k) = t.policy in let (l, n) = t.unset in cc

  -- The minion answered, with another config than the one that tells it of these, which is `cfg`.
  abbrev pub IsDue : String → List String → Client → MinionConfig → Minion Client → Type 0
  IsDue blueprint ips c cfg m =
      ∥ c ≡ m.client ∥₁
      × ((m.connected ≡ true) × ((cfg ≢ m.config) × Tells blueprint ips m.machine cfg))

  -- The same, by the config that newConfig makes.
  abbrev IsMade : String → List String → Client → MinionConfig → Minion Client → Type 0
  IsMade blueprint ips c cfg m =
      ∥ ◌≡◌ {A = Client × MinionConfig} (c, cfg) (m.client, new_config blueprint ips m) ∥₁
      × ((m.connected ≡ true) × (new_config blueprint ips m ≢ m.config))

  made :
      (blueprint : String) (ips : List String) (m : Minion Client) (c : Client) (cfg : MinionConfig)
      → IsMade blueprint ips c cfg m
      → cfg ≡ new_config blueprint ips m
  made blueprint ips m c cfg h =
      ∥∥₁_elim h.0 (hedberg MinionConfig-discrete _ _)
        (λ q. ap (λ (x : Client × MinionConfig). x.1) q)

  IsMade-IsDue :
      (blueprint : String) (ips : List String) (m : Minion Client) (c : Client) (cfg : MinionConfig)
      → IsMade blueprint ips c cfg m ↔ IsDue blueprint ips c cfg m
  IsMade-IsDue blueprint ips m c cfg = (
    λ h.
        let e = made blueprint ips m c cfg h in
        (
          ∥∥₁_elim h.0 ∥∥₁_prop (λ q. ∣ ap (λ (x : Client × MinionConfig). x.0) q ∣₁),
          (
            h.1.0,
            (
              λ k. h.1.1 (sym e ∙ k),
              subst (Tells blueprint ips m.machine) (sym e) (new_config-Tells blueprint ips m),
            ),
          ),
        ),
    λ h.
        let e = Tells-new_config blueprint ips m cfg h.1.1.1 in
        (∥∥₁_elim h.0 ∥∥₁_prop (λ p. ∣ (λ i. (p i, e i)) ∣₁), (h.1.0, λ k. h.1.1.0 (e ∙ k))),
  )

  mem-assign-IsMade :
      (blueprint : String) (ips : List String) (m : Minion Client) (c : Client) (cfg : MinionConfig)
      → Mem {A = Client × MinionConfig} (c, cfg) (assign blueprint ips m)
        ↔ IsMade blueprint ips c cfg m
  unfolding assign MinionConfig-discrete new_config
  mem-assign-IsMade blueprint ips m c cfg = elim (Bool-cases m.connected) [
    | inr e ↦ rw (assign, e) (λ d. absurd (not-mem-nil d), λ h. absurd (true≢false (sym h.1.0)))
    | inl e ↦ elim (MinionConfig-discrete (new_config blueprint ips m) m.config) [
      | yes p ↦
          rw (assign, e, test_yes (MinionConfig-discrete (new_config blueprint ips m) m.config) p)
            (λ d. absurd (not-mem-nil d), λ h. absurd (h.1.1 p))
      | no n ↦
          rw (assign, e, test_no (MinionConfig-discrete (new_config blueprint ips m) m.config) n)
            (
              λ d.
                  Or.elim (×_prop ∥∥₁_prop stale-prop) (mem-cons.0 d) (λ q. (∣ q ∣₁, (refl, n)))
                    (λ x. absurd (not-mem-nil x)),
              λ h. ∥∥₁_elim h.0 Mem-prop (λ q. mem-cons.1 (Or.inl q)),
            )
    ]
  ]
    where
      stale-prop : IsProp ((true ≡ true) × (new_config blueprint ips m ≢ m.config))
      stale-prop = ×_prop (Bool-set _ _) ¬_prop

  -- What `assign` sends to a minion.
  pub mem-assign :
      (blueprint : String) (ips : List String) (m : Minion Client) (c : Client) (cfg : MinionConfig)
      → Mem {A = Client × MinionConfig} (c, cfg) (assign blueprint ips m)
        ↔ IsDue blueprint ips c cfg m
  mem-assign blueprint ips m c cfg =
      let (a, b) = mem-assign-IsMade blueprint ips m c cfg in
      let (d, e) = IsMade-IsDue blueprint ips m c cfg in (λ x. d (a x), λ x. b (e x))
