-- ===== src/Supervisor/Stale.antt =====
-- minion/supervisor/master.go: rounds after a removal that failed.
use quilt.Prelude.{
  ℕ, zero, suc, Bool-cases, inl, inr, ◌≡◌, refl, ap, ◌∙◌, true, false, not, ◌||◌, some, String,
  List, [], ◌∷◌, ◌==◌, ◌!=◌, string_eq, eq_iff, true-and, arith,
}
use quilt.Maps.{Order}
use quilt.Db.Table.{View}
use quilt.Db.MinionRows.{Minion}
use quilt.Db.EtcdRows.{Etcd}
use quilt.Minion.Server.{minion_self}
use quilt.Scheduler.Make.{same_strings}
use quilt.Scheduler.Worker.{is_nil}
use quilt.Supervisor.Run.{Docker, RunOptions, etcd}
use quilt.Supervisor.Obeys.{Obeys}
use quilt.Supervisor.Master.{
  Supervisor, read_etcd, reset_master, start_master, master_round, run_master_once,
}
use quilt.Supervisor.Rounds.{start_master-etcd, round-is}

same_strings_self : (xs : List String) → same_strings xs xs ≡ true
same_strings_self [] = refl
same_strings_self (x ∷ xs) =
    true-and (x == x) (same_strings xs xs) ((eq_iff x x).1 refl) (same_strings_self xs)

-- So many rounds on the same rows.
abbrev pub rounds_on : (dk : Docker) → ℕ → String → Etcd → Supervisor dk → Supervisor dk
rounds_on dk zero ip row s = s
rounds_on dk (suc n) ip row s = rounds_on dk n ip row (master_round dk ip row s)

module _ (dk : Docker) (b : Obeys dk) where
  open b use {running, removes, running-remove}

  start_master-keeps :
      (ip : String) (row : Etcd) (c : dk.Containers) (old : RunOptions)
      → running c etcd ≡ some old
      → running (start_master dk ip row c) etcd ≡ some old
  unfolding start_master
  start_master-keeps ip row c old h = elim (Bool-cases (ip == "" || is_nil row.etcd_ips)) [
    | inl e ↦ rw (e) h
    | inr e ↦
        let (k, n) : ((ip == "") ≡ false) × (is_nil row.etcd_ips ≡ false) = ground arith in
        start_master-etcd dk b ip row c k n ∙ rw (h) refl
  ]

  reset_master-same :
      (ip : String) (etcd_ips : List String) (s : Supervisor dk)
      → s.old_ip ≡ ip
      → s.old_etcd_ips ≡ etcd_ips
      → reset_master dk ip etcd_ips s ≡ s.containers
  unfolding reset_master
  reset_master-same ip etcd_ips s p q =
      rw (p, q, (eq_iff ip ip).1 refl, same_strings_self etcd_ips) refl

  reset_master-stuck :
      (ip : String) (etcd_ips : List String) (s : Supervisor dk) (old : RunOptions)
      → running s.containers etcd ≡ some old
      → removes s.containers etcd ≡ false
      → running (reset_master dk ip etcd_ips s) etcd ≡ some old
  unfolding reset_master
  reset_master-stuck ip etcd_ips s old h k =
      elim (Bool-cases (s.old_ip != ip || not (same_strings s.old_etcd_ips etcd_ips))) [
        | inl e ↦ rw (e, running-remove s.containers etcd etcd, k) h
        | inr e ↦ rw (e) h
      ]

  rounds_on-keeps :
      (n : ℕ) (ip : String) (row : Etcd) (s : Supervisor dk) (old : RunOptions)
      → s.old_ip ≡ ip
      → s.old_etcd_ips ≡ row.etcd_ips
      → running s.containers etcd ≡ some old
      → running (rounds_on dk n ip row s).containers etcd ≡ some old
  rounds_on-keeps zero ip row s old p q h = h
  rounds_on-keeps (suc n) ip row s old p q h =
      rounds_on-keeps n ip row (master_round dk ip row s) old refl refl (
        start_master-keeps ip row _ old
          (ap (λ c. running c etcd) (reset_master-same ip row.etcd_ips s p q) ∙ h))

  -- If an etcd runs and docker fails to remove it, then after a round, and after any number of further ones on
  -- the same rows, it still runs with its old options, whether or not docker could remove it by then.
  pub rounds_on-stale :
      (o : Order) (minions : View Minion) (etcds : View Etcd) (s t : Supervisor dk) (m : Minion)
      (old : RunOptions)
      → run_master_once dk o minions etcds s ≡ some t
      → minion_self o minions ≡ some m
      → running s.containers etcd ≡ some old
      → removes s.containers etcd ≡ false
      → (n : ℕ)
      → running (rounds_on dk n m.private_ip (read_etcd o etcds) t).containers etcd ≡ some old
  rounds_on-stale o minions etcds s t m old e self h k n =
      let row = read_etcd o etcds in
      rw (round-is dk b o minions etcds s t m e self) (
        rounds_on-keeps n m.private_ip row (master_round dk m.private_ip row s) old refl refl (
          start_master-keeps m.private_ip row _ old
            (reset_master-stuck m.private_ip row.etcd_ips s old h k)))
