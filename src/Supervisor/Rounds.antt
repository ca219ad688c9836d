-- ===== src/Supervisor/Rounds.antt =====
-- minion/supervisor/master.go: any number of rounds of a master, and what its containers are.
use mathlib.Core.Option.{some-injective}
use quilt.Prelude.{
  Bool, Bool-cases, inl, inr, ◌≡◌, ◌≢◌, refl, sym, ap, ◌∙◌, true, false, Option, none, some, String,
  List, [], ◌∷◌, ◌==◌, string_eq, eq_iff, and-true,
}
use quilt.Maps.{Order}
use quilt.Db.Table.{View}
use quilt.Db.MinionRows.{Minion}
use quilt.Db.EtcdRows.{Etcd}
use quilt.Minion.Server.{minion_self}
use quilt.Scheduler.Make.{same_strings}
use quilt.Scheduler.Worker.{is_nil}
use quilt.Supervisor.Run.{Docker, run, options, etcd, ovsdb, registry, ovnnorthd}
use quilt.Supervisor.Obeys.{
  Obeys, is_some, once_run, running-run, Free, Free-run, running-run_untaken, IsWanted,
}
use quilt.Supervisor.Master.{
  Supervisor, read_etcd, master_args, start_master, master_round, run_master_once, lead,
  boot_master,
}

pub same_strings-eq : (xs ys : List String) → same_strings xs ys ≡ true → xs ≡ ys
same_strings-eq [] [] h = refl
same_strings-eq [] (y ∷ ys) h = cc
same_strings-eq (x ∷ xs) [] h = cc
same_strings-eq (x ∷ xs) (y ∷ ys) h =
    let (p, q) = and-true (x == y) (same_strings xs ys) h in
    ap (λ z. z ∷ xs) ((eq_iff x y).0 p) ∙ ap (◌∷◌ y) (same_strings-eq xs ys q)

pub not_blank_test : (s : String) → s ≢ "" → (s == "") ≡ false
not_blank_test s h = elim (Bool-cases (s == "")) [
  | inl e ↦ absurd (h ((eq_iff s "").0 e))
  | inr e ↦ e
]

pub is_nil-false : (xs : List String) → xs ≢ [] → is_nil xs ≡ false
is_nil-false [] h = absurd (h refl)
is_nil-false (x ∷ xs) h = refl

module _ (dk : Docker) (b : Obeys dk) where
  open b use {running, stopped, removes, running-remove}

  -- A round of a master on whatever rows there are.
  pub data MasterRound (s t : Supervisor dk) : Type 1 where
    round :
        (o : Order) (minions : View Minion) (etcds : View Etcd)
        → run_master_once dk o minions etcds s ≡ some t
        → MasterRound s t

  -- The etcd that runs, if one does, has the arguments for the address and the members.
  abbrev IsCurrent : String → List String → dk.Containers → Type 0
  IsCurrent ip etcd_ips =
      IsWanted dk b ((ip ≡ "") × (etcd_ips ≡ [])) (options etcd (master_args ip etcd_ips))

  -- `lead` leaves the other containers.
  pub lead-other :
      (l : Bool) (c : dk.Containers) (k : String)
      → (k == ovnnorthd) ≡ false
      → running (lead dk l c) k ≡ running c k
  lead-other true c k h = running-run dk b ovnnorthd ("ovn-northd" ∷ []) c k ∙ rw (h) refl
  lead-other false c k h = running-remove c ovnnorthd k ∙ rw (h) refl

  pub lead-leads :
      (l : Bool) (c : dk.Containers)
      → Free dk b c
      → removes c ovnnorthd ≡ true
      → is_some (running (lead dk l c) ovnnorthd) ≡ l
  lead-leads true c f h =
      ap is_some (running-run_untaken dk b ovnnorthd ("ovn-northd" ∷ []) c f ovnnorthd)
  lead-leads false c f h = rw (running-remove c ovnnorthd ovnnorthd, h) refl

  booted-etcd : (c : dk.Containers) → running (boot_master dk c) etcd ≡ running c etcd
  booted-etcd c =
      running-run dk b registry [] (run dk ovsdb ("ovsdb-server" ∷ []) c) etcd
      ∙ running-run dk b ovsdb ("ovsdb-server" ∷ []) c etcd

  booted :
      (c : dk.Containers)
      → Free dk b c
      → (is_some (running (boot_master dk c) ovsdb) ≡ true)
        × (is_some (running (boot_master dk c) registry) ≡ true)
  booted c f =
      let c' = run dk ovsdb ("ovsdb-server" ∷ []) c in
      let second =
        running-run_untaken dk b registry [] c' (Free-run dk b ovsdb ("ovsdb-server" ∷ []) c f) in
      (
        ap is_some (second ovsdb ∙ running-run_untaken dk b ovsdb ("ovsdb-server" ∷ []) c f ovsdb),
        ap is_some (second registry),
      )

  -- The etcd that a round leaves if there is an address and a member.
  pub start_master-etcd :
      (ip : String) (row : Etcd) (c : dk.Containers)
      → (ip == "") ≡ false
      → is_nil row.etcd_ips ≡ false
      → running (start_master dk ip row c) etcd
        ≡ once_run (running c etcd) (stopped c etcd) (options etcd (master_args ip row.etcd_ips))
  unfolding start_master
  start_master-etcd ip row c h n =
      let c' = run dk etcd (master_args ip row.etcd_ips) c in
      rw (h, n)
        (lead-other row.leader (boot_master dk c') etcd refl
          ∙ (booted-etcd c' ∙ running-run dk b etcd (master_args ip row.etcd_ips) c etcd))

  -- The others, if no stopped container is in the way.
  pub start_master-running :
      (ip : String) (row : Etcd) (c : dk.Containers)
      → (ip == "") ≡ false
      → is_nil row.etcd_ips ≡ false
      → Free dk b c
      → (is_some (running (start_master dk ip row c) ovsdb) ≡ true)
        × (is_some (running (start_master dk ip row c) registry) ≡ true)
  unfolding start_master
  start_master-running ip row c h n f =
      let c' = run dk etcd (master_args ip row.etcd_ips) c in
      let boot = booted c' (Free-run dk b etcd (master_args ip row.etcd_ips) c f) in
      let other = lead-other row.leader (boot_master dk c') in
      rw (h, n) (ap is_some (other ovsdb refl) ∙ boot.0, ap is_some (other registry refl) ∙ boot.1)

  run_master_once-some :
      (x : Option Minion) (row : Etcd) (s t : Supervisor dk)
      → elim x [ none ↦ none | some m ↦ some (master_round dk m.private_ip row s) ] ≡ some t
      → (m : Minion) × (x ≡ some m) × (t ≡ master_round dk m.private_ip row s)
  run_master_once-some none row s t h = cc
  run_master_once-some (some m) row s t h = (m, refl, sym (some-injective _ _ h))

  pub round-is :
      (o : Order) (minions : View Minion) (etcds : View Etcd) (s t : Supervisor dk) (m : Minion)
      → run_master_once dk o minions etcds s ≡ some t
      → minion_self o minions ≡ some m
      → t ≡ master_round dk m.private_ip (read_etcd o etcds) s
  unfolding run_master_once
  round-is o minions etcds s t m e self =
      let row = read_etcd o etcds in
      let (m', e', q) = run_master_once-some (minion_self o minions) row s t e in
      q
      ∙ ap (λ (x : Minion). master_round dk x.private_ip row s) (some-injective _ _ (sym e' ∙ self))
