-- ===== src/Cloud/Statuses.antt =====
-- cloud/status.go: what a round of statuses leaves.
use mathlib.Core.List.{mem-cons_self, append-nil, perm_middle}
use mathlib.Core.List.Perm
use quilt.Prelude.{
  ◌≡◌, refl, sym, ap, ◌∙◌, subst, Bool, true, ◌&&◌, ◌||◌, Bool-cases, inl, inr, some, String, List,
  [], ◌∷◌, ◌++◌, map, Mem, Nodup, Perm, if◌then◌else◌, ◌==◌, ◌!=◌, string_eq, eq_iff, arith,
}
use quilt.Prelude.Perms.{perm-cons_middle}
use quilt.Maps.{Order}
use quilt.Db.Table.{View, IsValid, select, commit}
use quilt.Db.Changes.{ids, commit_lem}
use quilt.Db.Loops.{IsValid-ids}
use quilt.Db.Selects.{select_all-perm}
use quilt.Db.Rows.{Machine, machine_row}
use quilt.Cloud.Status.{
  booting, connecting, reconnecting, connected, with_status, status, update_status, update_statuses,
  update_machine_statuses_once,
}

-- Committing a status only if it is another one puts the row with the status in the place of the row.
write-lem :
    (new : String) (m : Machine) (v : View Machine)
    → Mem m v.rows
    → Nodup (ids machine_row v.rows)
    → (w : View Machine) × ((if new != m.status
          then commit machine_row (with_status new m) v
          else some v)
        ≡ some w)
      × (w.cur_id ≡ v.cur_id)
      × Perm (m ∷ w.rows) (with_status new m ∷ v.rows)
write-lem new m v i d = elim (Bool-cases (new == m.status)) [
  | inl same ↦ (
    v,
    rw (same) refl,
    refl,
    subst (λ s. Perm (m ∷ v.rows) (with_status s m ∷ v.rows)) (sym ((eq_iff new m.status).0 same))
        (Perm.refl _),
  )
  | inr other ↦
      let (w, e, n, p) = commit_lem machine_row v m (with_status new m) i d refl in
      (w, rw (other) e, n, p)
]

module _ (is_connected : String → Bool) where
  -- A machine that boots keeps its status; another one is connected, or was and is reconnecting, or has an
  -- address and is connecting, or keeps its status.
  abbrev pub next_status : Machine → String
  next_status m =
      if m.status == booting
      then m.status
      else if m.public_ip != "" && is_connected m.public_ip
      then connected
      else if m.status == connected || m.status == reconnecting
      then reconnecting
      else if m.public_ip != ""
      then connecting
      else m.status

  abbrev pub refreshed : Machine → Machine
  refreshed m = with_status (next_status m) m

  -- One round of the loop puts the refreshed row in the place of the row.
  update_status-lem :
      (m : Machine) (v : View Machine)
      → Mem m v.rows
      → Nodup (ids machine_row v.rows)
      → (w : View Machine) × (update_status is_connected m v ≡ some w)
        × (w.cur_id ≡ v.cur_id)
        × Perm (m ∷ w.rows) (refreshed m ∷ v.rows)
  unfolding update_status status
  update_status-lem m v i d = elim (Bool-cases (m.status == booting)) [
    | inl b ↦ rw (b) (v, refl, refl, Perm.refl _)
    | inr b ↦ elim (Bool-cases (m.public_ip != "" && is_connected m.public_ip)) [
      | inl c ↦ rw (b, c) (write-lem connected m v i d)
      | inr c ↦ elim (Bool-cases (m.status == connected || m.status == reconnecting)) [
        | inl r ↦ rw (b, c, r) (write-lem reconnecting m v i d)
        | inr r ↦ elim (Bool-cases (m.public_ip != "")) [
          | inl a ↦ rw (b, c, r, a) (write-lem connecting m v i d)
          | inr a ↦ rw (b, c, r, a) (v, refl, refl, Perm.refl _)
        ]
      ]
    ]
  ]

  -- The loop puts each row of `ms`, which are in the table, refreshed in its place.
  update_statuses-lem :
      (ms : List Machine) (v : View Machine) (done : List Machine)
      → Nodup (ids machine_row v.rows)
      → Perm v.rows (ms ++ done)
      → (w : View Machine) × (update_statuses is_connected ms v ≡ some w)
        × (w.cur_id ≡ v.cur_id)
        × Perm w.rows (map refreshed ms ++ done)
  unfolding update_statuses
  update_statuses-lem [] v done d p = (v, refl, refl, p)
  update_statuses-lem (m ∷ ms) v done d p =
      let (w, e, n, q) = update_status-lem m v ((Perm.mem_iff p).1 mem-cons_self) d in
      let placed : Perm w.rows (refreshed m ∷ (ms ++ done)) =
        Perm.cons_inv
          (Perm.trans q (Perm.trans (Perm.cons (refreshed m) p) (Perm.swap m (refreshed m) _))) in
      let (u, e', n', q') =
        update_statuses-lem ms w (refreshed m ∷ done)
          (Perm.nodup (Perm.symm (Perm.cons_inv (Perm.map machine_row.get_id q))) d)
          (Perm.trans placed (perm-cons_middle (refreshed m) done ms (Perm.refl _))) in
      (u, rw (e, update_statuses) e', n' ∙ n, Perm.trans q' (perm_middle _ _))

  map-ids : (ms : List Machine) → ids machine_row (map refreshed ms) ≡ ids machine_row ms
  map-ids [] = refl
  map-ids (m ∷ ms) = ap (◌∷◌ m.id) (map-ids ms)

  -- On a valid table updateMachineStatusesOnce does not panic and leaves a valid table with the same
  -- machines, each with its next status, whatever the order in which it reads them: one that boots keeps its
  -- status, and of the others one that the foreman is connected to is connected, one that was connected is
  -- reconnecting, one with an address is connecting, and one without keeps its status.
  pub update_machine_statuses_once-refreshed :
      (o : Order) (v : View Machine)
      → IsValid machine_row v
      → (w : View Machine) × (update_machine_statuses_once is_connected o v ≡ some w)
        × IsValid machine_row w
        × Perm w.rows (map refreshed v.rows)
  unfolding update_machine_statuses_once
  update_machine_statuses_once-refreshed o v h =
      let all = select_all-perm machine_row o v in
      let (w, e, n, p) =
        update_statuses-lem (select machine_row o (λ _. true) v) v [] h.distinct
          (subst (Perm v.rows) (sym (append-nil _)) (Perm.symm all)) in
      let q : Perm w.rows (map refreshed v.rows) =
        Perm.trans (subst (Perm w.rows) (append-nil _) p) (Perm.map refreshed all) in
      (
        w,
        e,
        IsValid-ids machine_row v w h
            (Perm.symm (
              subst (Perm (ids machine_row w.rows)) (map-ids v.rows)
                (Perm.map machine_row.get_id q)))
            (omega (arith, n)),
        q,
      )
