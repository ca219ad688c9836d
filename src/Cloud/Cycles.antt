-- ===== src/Cloud/Cycles.antt =====
-- cloud/cloud.after_turn: what `runOnce` leaves of the machine table.
use mathlib.Core.List.Perm
use mathlib.Core.List.{mem-cons_self}
use quilt.Prelude.{
  ℕ, zero, suc, Bool-cases, inl, inr, ◌≡◌, refl, sym, subst, Option, none, some, String, List, [],
  ◌∷◌, ◌&&◌, map, Mem, Perm, ◌==◌, string_eq, eq_iff, arith,
}
use quilt.Prelude.Filters.{mem-filter}
use quilt.Maps.{Order}
use quilt.Db.Table.{View, IsValid, select}
use quilt.Db.Changes.{commit_lem}
use quilt.Db.Loops.{IsValid-ids}
use quilt.Db.Rows.{Role, Machine, machine_row}
use quilt.Cloud.Status.{booting, with_status, set_only, set_status, set_statuses}
use quilt.Cloud.Sync.{
  CloudBlueprint, joined, list_failed, no_blueprint, namespace_changed, panicked, is_empty,
  cloud_join, JoinOutcome,
}
use quilt.Cloud.Reconcile.{decided, ids_of, cloud_join-decided}
use quilt.Cloud.Cycle.{
  Provider, Turn, crashed, finished, again, boot, act, act_on, turn, turns, run_once, update_cloud,
  boot_requests,
}

-- The table is valid and has the same machines, in all fields but those that the provider tells.
abbrev pub Keeps : View Machine → View Machine → Type 0
Keeps v w = IsValid machine_row w × Perm (map decided w.rows) (map decided v.rows)

Keeps-trans : (u v w : View Machine) → Keeps u v → Keeps v w → Keeps u w
Keeps-trans u v w (_, p) (h, q) = (h, Perm.trans q p)

set_only-Keeps :
    (status : String) (ms : List Machine) (v : View Machine)
    → IsValid machine_row v
    → ((m : Machine) → Mem m ms → Mem m v.rows)
    → (w : View Machine) × (set_only status ms v ≡ some w) × Keeps v w
set_only-Keeps status [] v h i = (v, refl, (h, Perm.refl _))
set_only-Keeps status (m ∷ []) v h i =
    let (w, e, n, p) =
      commit_lem machine_row v m (with_status status m) (i m mem-cons_self) h.distinct refl in
    let same : Perm (map decided w.rows) (map decided v.rows) =
      Perm.cons_inv (Perm.map decided p) in
    (
      w,
      e,
      (
        IsValid-ids machine_row v w h (Perm.symm (ids_of w.rows v.rows same)) (omega (arith, n)),
        same,
      ),
    )
set_only-Keeps status (m ∷ m' ∷ ms) v h i = (v, refl, (h, Perm.refl _))

set_status-Keeps :
    (o : Order) (id status : String) (v : View Machine)
    → IsValid machine_row v
    → (w : View Machine) × (set_status o id status v ≡ some w) × Keeps v w
unfolding set_status select
set_status-Keeps o id status v h =
    set_only-Keeps status _ v h
      (λ m i. (Perm.mem_iff (o.range-perm Machine v.rows)).0 (((mem-filter _ _ m).0 i).0))

set_statuses-Keeps :
    (o : Order) (ms : List Machine) (status : String) (v : View Machine)
    → IsValid machine_row v
    → (w : View Machine) × (set_statuses o ms status v ≡ some w) × Keeps v w
unfolding set_statuses
set_statuses-Keeps o [] status v h = (v, refl, (h, Perm.refl _))
set_statuses-Keeps o (m ∷ ms) status v h =
    let (w, e, k) = set_status-Keeps o m.blueprint_id status v h in
    let (x, e', k') = set_statuses-Keeps o ms status w k.0 in
    (x, rw (e, set_statuses) e', Keeps-trans v w x k k')

abbrev JoinKeeps : View Machine → JoinOutcome → Type 0
JoinKeeps v panicked = ⊥
JoinKeeps v (joined jr w) = Keeps v w
JoinKeeps v list_failed = Unit
JoinKeeps v no_blueprint = Unit
JoinKeeps v namespace_changed = Unit

cloud_join-JoinKeeps :
    (o : Order) (role_of : String → Role) (namespace provider region : String)
    (listed : Option (List Machine)) (bp : Option CloudBlueprint) (v : View Machine)
    → IsValid machine_row v
    → JoinKeeps v (cloud_join o role_of namespace provider region listed bp v)
unfolding cloud_join
cloud_join-JoinKeeps o role_of namespace provider region none bp v h = tt
cloud_join-JoinKeeps o role_of namespace provider region (some listed) none v h = tt
cloud_join-JoinKeeps o role_of namespace provider region (some listed) (some bp) v h =
    elim (Bool-cases (namespace == bp.namespace)) [
      | inl e ↦
          let (jr, w, q, valid, same) =
            cloud_join-decided o role_of namespace provider region listed bp v h
              ((eq_iff namespace bp.namespace).0 e) in
          subst (JoinKeeps v) (sym q) (valid, same)
      | inr e ↦ rw (e) tt
    ]

module _ (p : Provider) (o : Order) (role_of : String → Role) (my_ip : Option String)
    (namespace provider region : String) (bp : Option CloudBlueprint) where
  abbrev TurnKeeps : View Machine → Turn p.World → Type 0
  TurnKeeps v crashed = ⊥
  TurnKeeps v (finished world w) = Keeps v w
  TurnKeeps v (again world w) = Keeps v w

  TurnKeeps-trans :
      (u v : View Machine) (t : Turn p.World) → Keeps u v → TurnKeeps v t → TurnKeeps u t
  TurnKeeps-trans u v crashed k l = absurd l
  TurnKeeps-trans u v (finished world w) k l = Keeps-trans u v w k l
  TurnKeeps-trans u v (again world w) k l = Keeps-trans u v w k l

  boot-Keeps :
      (ms : List Machine) (world : p.World) (v : View Machine)
      → IsValid machine_row v
      → (world' : p.World) × (w : View Machine) × (boot p o role_of my_ip namespace provider region
            bp ms world v
          ≡ some (world', w))
        × Keeps v w
  unfolding boot
  boot-Keeps ms world v h =
      let (w, e, k) = set_statuses-Keeps o ms booting v h in
      let (x, e', k') = set_statuses-Keeps o ms "" w k.0 in
      (
        update_cloud (boot_requests ms) p.boot world,
        x,
        rw (e, boot, e') refl,
        Keeps-trans v w x k k',
      )

  act_on-TurnKeeps :
      (j : JoinOutcome) (world : p.World) (v : View Machine)
      → IsValid machine_row v
      → JoinKeeps v j
      → TurnKeeps v (act_on p o role_of my_ip namespace provider region bp j world v)
  unfolding act_on act
  act_on-TurnKeeps panicked world v h k = absurd k
  act_on-TurnKeeps (joined jr w) world v h k =
      elim (Bool-cases (is_empty jr.boot && is_empty jr.terminate && is_empty jr.update_ips)) [
        | inl e ↦ rw (e) k
        | inr e ↦
            let (world', x, e', k') = boot-Keeps jr.boot world w k.0 in
            rw (e, e') (Keeps-trans v w x k k')
      ]
  act_on-TurnKeeps list_failed world v h k = (h, Perm.refl _)
  act_on-TurnKeeps no_blueprint world v h k = (h, Perm.refl _)
  act_on-TurnKeeps namespace_changed world v h k = (h, Perm.refl _)

  turn-TurnKeeps :
      (world : p.World) (v : View Machine)
      → IsValid machine_row v
      → TurnKeeps v (turn p o role_of my_ip namespace provider region bp world v)
  unfolding turn
  turn-TurnKeeps world v h =
      act_on-TurnKeeps _ world v h
        (cloud_join-JoinKeeps o role_of namespace provider region (p.list world) bp v h)

  Finishes : View Machine → Turn p.World → Type 0
  Finishes v t = (world : p.World) × (w : View Machine) × (t ≡ finished world w) × Keeps v w

  turns-Keeps :
      (n : ℕ) (world : p.World) (v : View Machine)
      → IsValid machine_row v
      → Finishes v (turns p o role_of my_ip namespace provider region bp n world v)
  unfolding turns Finishes
  turns-Keeps zero world v h = (world, v, refl, (h, Perm.refl _))
  turns-Keeps (suc n) world v h =
      let t = turn p o role_of my_ip namespace provider region bp world v in
      after_turn t refl (turn-TurnKeeps world v h) (λ world' w. turns-Keeps n world' w)
    where
      after_turn :
          (t : Turn p.World)
          → turn p o role_of my_ip namespace provider region bp world v ≡ t
          → TurnKeeps v t
          → ((world' : p.World) (w : View Machine)
              → IsValid machine_row w
              → Finishes w (turns p o role_of my_ip namespace provider region bp n world' w))
          → Finishes v (turns p o role_of my_ip namespace provider region bp (suc n) world v)
      after_turn crashed e k rest = absurd k
      after_turn (finished world' w) e k rest = (world', w, rw (e, turns) refl, k)
      after_turn (again world' w) e k rest =
          let (x, y, e', k') = rest world' w k.0 in (x, y, rw (e, turns) e', Keeps-trans v w y k k')

  -- On a valid machine table runOnce does not panic, whatever the provider answers to its two turns at most,
  -- and leaves a valid table with the same machines, in all fields but those that the provider tells.
  pub run_once-Keeps :
      (world : p.World) (v : View Machine)
      → IsValid machine_row v
      → (world' : p.World) × (w : View Machine) × (run_once p o role_of my_ip namespace provider
            region bp world v
          ≡ finished world' w)
        × Keeps v w
  unfolding Finishes
  run_once-Keeps world v h = turns-Keeps 2 world v h
