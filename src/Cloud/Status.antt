-- ===== src/Cloud/Status.antt =====
-- cloud/status.go: the status of each machine. Whether the foreman is connected to an address is an argument.
use quilt.Prelude.{
  Bool, true, ◌&&◌, ◌||◌, Option, none, some, String, List, [], ◌∷◌, if◌then◌else◌, ◌==◌, ◌!=◌,
  string_eq,
}
use quilt.Maps.{Order}
use quilt.Db.Table.{View, select, commit}
use quilt.Db.Rows.{Machine, machine_row}

abbrev pub booting : String
booting = "booting"

abbrev pub connecting : String
connecting = "connecting"

abbrev pub reconnecting : String
reconnecting = "reconnecting"

abbrev pub connected : String
connected = "connected"

abbrev pub with_status : String → Machine → Machine
with_status status m = record m { status = status }

module _ (is_connected : String → Bool) where
  -- status; `none` is a second result that is false.
  unfoldable pub status : Machine → Option String
  status m =
      if m.public_ip != "" && is_connected m.public_ip
      then some connected
      else if m.status == connected || m.status == reconnecting
      then some reconnecting
      else if m.public_ip != ""
      then some connecting
      else none

  -- The body of the loop of updateMachineStatusesOnce.
  unfoldable pub update_status : Machine → View Machine → Option (View Machine)
  unfolding status
  update_status dbm v = if dbm.status == booting then some v else elim (status dbm) [
    | none ↦ some v
    | some new_status ↦
        if new_status != dbm.status
        then commit machine_row (with_status new_status dbm) v
        else some v
  ]

  unfoldable pub update_statuses : List Machine → View Machine → Option (View Machine)
  unfolding update_status
  update_statuses [] v = some v
  update_statuses (dbm ∷ dbms) v = elim (update_status dbm v) [
    | none ↦ none
    | some w ↦ update_statuses dbms w
  ]

  -- updateMachineStatusesOnce; `none` is a panic.
  unfoldable pub update_machine_statuses_once : Order → View Machine → Option (View Machine)
  unfolding update_statuses
  update_machine_statuses_once o v = update_statuses (select machine_row o (λ _. true) v) v

-- The switch of setStatus; an error leaves the table, and `none` is a panic.
abbrev pub set_only : String → List Machine → View Machine → Option (View Machine)
set_only status [] v = some v
set_only status (m ∷ []) v = commit machine_row (with_status status m) v
set_only status (m ∷ m' ∷ ms) v = some v

unfoldable pub set_status : Order → String → String → View Machine → Option (View Machine)
set_status o id status v =
    set_only status (select machine_row o (λ (m : Machine). m.blueprint_id == id) v) v

-- setStatuses; errors are only logged.
unfoldable pub set_statuses : Order → List Machine → String → View Machine → Option (View Machine)
unfolding set_status
set_statuses o [] status v = some v
set_statuses o (m ∷ ms) status v = elim (set_status o m.blueprint_id status v) [
  | none ↦ none
  | some w ↦ set_statuses o ms status w
]
