-- ===== src/Engine/Policy.antt =====
-- engine/engine.go: the outcome of a run of the engine, in the fields that the policy decides.
use mathlib.Core.List.{map-append}
use mathlib.Core.List.Perm
use quilt.Prelude.{
  ℕ, ◌≡◌, ◌≢◌, refl, sym, ap, ◌∙◌, subst, Bool, true, false, ◌||◌, Bool-cases, Option-cases, inl,
  inr, none, some, String, List, [], ◌∷◌, ◌++◌, map, Perm, ◌==◌, string_eq, nat_eq, test, arith,
  All, eq_iff, if◌then◌else◌,
}
use quilt.Maps.{Order}
use quilt.Join.Score.{join}
use quilt.Join.Matching.{join-partition}
use quilt.Db.Table.{View, IsValid, select}
use quilt.Db.Rows.{Role, Role-discrete, Machine, machine_row}
use quilt.Db.Selects.{select_all-perm}
use quilt.Db.Sync.{sync-lem}
use quilt.Cloud.Size.{Float, Catalogue}
use quilt.Cloud.Providers.{
  parse_role, parse_provider, choose_size, default_region, default_region-known,
  parse_provider-IsProvider, choose_size-known, IsProvider,
}
use quilt.Engine.Machines.{
  Outcome, panicked, skipped, added, or_panic, machine_score, merge_machine, BlueprintMachine, fill,
  convert, convert_all, check_roles, to_db_machine, sync_machines, machine_txn, default_disk_size,
}

-- What the policy engine decides of a machine: all but the id, and what the cloud provider and the
-- cluster fill in.
abbrev pub config : Machine → Machine
config m = record m { id = 0; cloud_id = ""; public_ip = ""; private_ip = ""; status = "" }

config-merge : (l r : Machine) → config (merge_machine l r) ≡ config l
unfolding merge_machine
config-merge l r = refl

merge-id : (l r : Machine) → (merge_machine l r).id ≡ r.id
unfolding merge_machine
merge-id l r = refl

map-config-merge :
    (ps : List (Machine × Machine))
    → map config (map (λ p. merge_machine p.0 p.1) ps) ≡ map config (map (λ p. p.0) ps)
unfolding merge_machine
map-config-merge [] = refl
map-config-merge (p ∷ ps) = ap (◌∷◌ (config p.0)) (map-config-merge ps)

-- The synchronisation never panics on a valid table, and leaves a valid table whose rows are, in
-- what the policy decides, exactly the machines that are wanted, up to order.
sync_machines-config :
    (o : Order) (wanted : List Machine) (v : View Machine)
    → IsValid machine_row v
    → (w : View Machine) × (sync_machines o wanted v ≡ some w)
      × IsValid machine_row w
      × Perm (map config w.rows) (map config wanted)
unfolding sync_machines
sync_machines-config o wanted v h =
    let j = join machine_score wanted (select machine_row o (λ _. true) v) in
    let (lefts, rights) =
      join-partition machine_score wanted (select machine_row o (λ _. true) v) in
    let (w, e, valid, (fresh, new, rows)) =
      sync-lem machine_row merge_machine merge-id j.pairs j.lonely_lefts j.lonely_rights v h
        (Perm.trans rights (select_all-perm machine_row o v)) in
    (
      w,
      e,
      valid,
      Perm.trans (Perm.map config rows) (
          subst (λ ys. Perm ys (map config wanted))
            (sym (
              map-config-merge (j.pairs ++ fresh)
              ∙ ap (map config) (
                  map-append (λ (p : Machine × Machine). p.0) j.pairs fresh
                  ∙ ap (λ ys. map (λ (p : Machine × Machine). p.0) j.pairs ++ ys) new)))
            (Perm.map config lefts)),
    )

module _ (f : Float) (sizes : Catalogue f) (max_price : f.Value) (admin_key : String) where
  -- What the engine asks of a machine that it wants.
  pub record IsWanted (m : Machine) : Type 0 where
    pub provider : IsProvider m.provider
    pub size : m.size ≢ ""
    pub disk_size : m.disk_size ≢ 0

  abbrev Converted : Outcome → Type 0
  Converted panicked = ⊥
  Converted skipped = Unit
  Converted (added m) = IsWanted m

  default_region-keeps :
      (m d : Machine)
      → default_region m ≡ some d
      → (d.provider ≡ m.provider) × (d.size ≡ m.size) × (d.disk_size ≡ m.disk_size)
  unfolding default_region
  default_region-keeps m d h = ground arith

  region-IsWanted : (m d : Machine) → IsWanted m → default_region m ≡ some d → IsWanted d
  region-IsWanted m d w h =
      let (p, s, n) = default_region-keeps m d h in
      record {
        provider = subst IsProvider (sym p) w.provider;
        size = λ e. w.size (sym s ∙ e);
        disk_size = λ e. w.disk_size (sym n ∙ e);
      }

  located : (m : Machine) → IsWanted m → Converted (or_panic (default_region m))
  located m w = let (d, e) = default_region-known m w.provider in rw e (region-IsWanted m d w e)

  disk_default : (n : ℕ) → (if n == 0 then default_disk_size else n) ≢ 0
  disk_default n = ground arith

  not_empty : (s : String) → (s == "") ≡ false → s ≢ ""
  not_empty s h e = ground (arith, eq_iff s "")

  fill-Converted :
      (b : BlueprintMachine f sizes) (role : Role) (p size : String)
      → IsProvider p
      → Converted (fill f sizes admin_key b role p size)
  unfolding fill
  fill-Converted b role p size k = elim (Bool-cases (size == "")) [
    | inl e ↦ rw e tt
    | inr e ↦ rw e (
        located _
          (record { provider = k; size = not_empty size e; disk_size = disk_default b.disk_size }))
  ]

  convert-Converted :
      (b : BlueprintMachine f sizes) (role : Role)
      → Converted (convert f sizes max_price admin_key b role)
  unfolding convert
  convert-Converted b role = elim (Option-cases (parse_provider b.provider)) [
    | inl e ↦ rw (e, convert) tt
    | inr (p, e) ↦ rw (e, convert) (sized p (parse_provider-IsProvider b.provider p e).1)
  ]
    where
      sized :
          (p : String)
          → IsProvider p
          → Converted (
              if b.size == ""
              then (elim (choose_size f sizes p b.ram b.cpu max_price) [
                | none ↦ panicked
                | some size ↦ fill f sizes admin_key b role p size
              ])
              else fill f sizes admin_key b role p b.size)
      sized p k = elim (Bool-cases (b.size == "")) [
        | inl h ↦
            let (s, e) = choose_size-known f sizes p b.ram b.cpu max_price k in
            rw (h, e) (fill-Converted b role p s k)
        | inr h ↦ rw h (fill-Converted b role p b.size k)
      ]

  convert_all-IsWanted :
      (bs : List (BlueprintMachine f sizes)) (has_master has_worker : Bool)
      → (ms : List Machine) × (hm : Bool) × (hw : Bool) × (convert_all f sizes max_price admin_key
            bs has_master has_worker
          ≡ some (ms, hm, hw))
        × All IsWanted ms
  unfolding convert_all
  convert_all-IsWanted [] has_master has_worker = ([], has_master, has_worker, refl, tt)
  convert_all-IsWanted (b ∷ bs) has_master has_worker = elim (Option-cases (parse_role b.role)) [
    | inl e ↦
        let (ms, hm, hw, r, a) = convert_all-IsWanted bs has_master has_worker in
        (ms, hm, hw, rw (e, convert_all) r, a)
    | inr (role, e) ↦
        step role e (convert f sizes max_price admin_key b role) refl (convert-Converted b role) (
          convert_all-IsWanted bs (has_master || test (Role-discrete role Role.master))
            (has_worker || test (Role-discrete role Role.worker)))
  ]
    where
      step :
          (role : Role)
          → parse_role b.role ≡ some role
          → (c : Outcome) → convert f sizes max_price admin_key b role ≡ c
          → Converted c
          → (ms : List Machine) × (hm : Bool) × (hw : Bool) × (convert_all f sizes max_price
                admin_key bs
                (has_master || test (Role-discrete role Role.master))
                (has_worker || test (Role-discrete role Role.worker))
              ≡ some (ms, hm, hw))
            × All IsWanted ms
          → (ms : List Machine) × (hm : Bool) × (hw : Bool) × (convert_all f sizes max_price
                admin_key
                (b ∷ bs)
                has_master
                has_worker
              ≡ some (ms, hm, hw))
            × All IsWanted ms
      step role e panicked h w r = absurd w
      step role e skipped h w (ms, hm, hw, r, a) = (ms, hm, hw, rw (e, convert_all, h) r, a)
      step role e (added m) h w (ms, hm, hw, r, a) =
          (m ∷ ms, hm, hw, rw (e, convert_all, h, r) refl, (w, a))

  -- The conversion of the blueprint's machines never panics, whatever the blueprint: each machine that
  -- it wants has a known provider, a size and a disk size.
  pub to_db_machine-IsWanted :
      (bs : List (BlueprintMachine f sizes))
      → (ms : List Machine) × (to_db_machine f sizes bs max_price admin_key ≡ some ms)
        × All IsWanted ms
  unfolding to_db_machine
  to_db_machine-IsWanted bs =
      let (ms, hm, hw, e, a) = convert_all-IsWanted bs false false in
      (check_roles f sizes (ms, hm, hw), rw e, checked ms hm hw a)
    where
      checked :
          (ms : List Machine) (hm hw : Bool)
          → All IsWanted ms
          → All IsWanted (check_roles f sizes (ms, hm, hw))
      checked ms true true a = a
      checked ms true false a = tt
      checked ms false true a = tt
      checked ms false false a = a

  -- For any blueprint and any valid machine table the engine's transaction succeeds, and leaves a valid
  -- table with exactly the machines that the blueprint's conversion asks for, up to order and in the fields
  -- that the policy decides.
  pub machine_txn-config :
      (o : Order) (bs : List (BlueprintMachine f sizes)) (v : View Machine)
      → IsValid machine_row v
      → (wanted : List Machine) × (w : View Machine) × (to_db_machine f sizes bs max_price admin_key
          ≡ some wanted)
        × (machine_txn f sizes o bs max_price admin_key v ≡ some w)
        × IsValid machine_row w
        × Perm (map config w.rows) (map config wanted)
  unfolding machine_txn
  machine_txn-config o bs v h =
      let (wanted, e, a) = to_db_machine-IsWanted bs in
      let (w, r, valid, p) = sync_machines-config o wanted v h in
      (wanted, w, e, rw (e, machine_txn) r, valid, p)
