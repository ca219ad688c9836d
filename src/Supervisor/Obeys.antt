-- ===== src/Supervisor/Obeys.antt =====
-- minion/supervisor/supervisor.go: what the containers do under `run`, if docker does what it is asked.
use mathlib.Core.Option.{some-injective}
use quilt.Prelude.{
  Bool, Bool-cases, inl, inr, ◌≡◌, refl, sym, ap, ◌∙◌, subst, true, false, Option, Option-cases,
  none, some, String, List, [], ◌⊎◌, if◌then◌else◌, ◌==◌, string_eq, eq_iff, arith,
}
use quilt.Supervisor.Run.{Docker, RunOptions, etcd, options, run}
use quilt.Supervisor.Master.{Supervisor}

abbrev pub is_some : Option RunOptions → Bool
is_some none = false
is_some (some r) = true

abbrev pub or_options : Option RunOptions → RunOptions → RunOptions
or_options none r = r
or_options (some old) r = old

-- `running` is the container of each name that runs, and `stopped` says of which names there is one that does not
-- run. Starting a container works if there is none of its name; docker refuses to make a second one of a name, so
-- that one that is stopped stays so. Removing one, stopped or not, works if `removes`.
pub record Obeys (dk : Docker) : Type 1 where
  pub running : dk.Containers → String → Option RunOptions
  pub stopped : dk.Containers → String → Bool
  pub is_running-lem :
      (s : dk.Containers) (n : String) → dk.is_running s n ≡ some (is_some (running s n))
  pub running-start :
      (s : dk.Containers) (ro : RunOptions) (n : String)
      → running s ro.name ≡ none
      → stopped s ro.name ≡ false
      → running (dk.start s ro) n ≡ (if n == ro.name then some ro else running s n)
  pub start_taken :
      (s : dk.Containers) (ro : RunOptions) (n : String)
      → stopped s ro.name ≡ true
      → running (dk.start s ro) n ≡ running s n
  pub stopped-start :
      (s : dk.Containers) (ro : RunOptions) (n : String) → stopped (dk.start s ro) n ≡ stopped s n
  pub removes : dk.Containers → String → Bool
  pub running-remove :
      (s : dk.Containers) (m n : String)
      → running (dk.remove s m) n
        ≡ (if n == m then (if removes s m then none else running s n) else running s n)
  pub stopped-remove :
      (s : dk.Containers) (m n : String)
      → stopped (dk.remove s m) n
        ≡ (if n == m then (if removes s m then false else stopped s n) else stopped s n)

-- What is under a name after `run`, from what ran there and whether something is stopped there.
abbrev pub once_run : Option RunOptions → Bool → RunOptions → Option RunOptions
once_run (some old) t r = some old
once_run none true r = none
once_run none false r = some r

pub once_run_untaken :
    (x : Option RunOptions) (t : Bool) (r : RunOptions)
    → t ≡ false
    → once_run x t r ≡ some (or_options x r)
once_run_untaken none true r h = cc
once_run_untaken none false r h = refl
once_run_untaken (some old) t r h = refl

pub once_run-wanted :
    (x : Option RunOptions) (t : Bool) (wanted r : RunOptions)
    → ((o : RunOptions) → x ≡ some o → o ≡ wanted)
    → once_run x t wanted ≡ some r
    → r ≡ wanted
once_run-wanted none true wanted r f h = absurd (cc h)
once_run-wanted none false wanted r f h = sym (some-injective _ _ h)
once_run-wanted (some old) t wanted r f h = f r h

options-name : (name : String) (args : List String) → (options name args).name ≡ name
options-name name args = ground arith

module _ (dk : Docker) (b : Obeys dk) where
  open b use {
    running, stopped, is_running-lem, running-start, start_taken, stopped-start, removes,
    running-remove, stopped-remove,
  }

  -- A container that runs is left, one that is stopped stays so, and one that there is not is started.
  pub running-run :
      (n : String) (args : List String) (s : dk.Containers) (k : String)
      → running (run dk n args s) k
        ≡ (if k == n then once_run (running s n) (stopped s n) (options n args) else running s k)
  unfolding run
  running-run n args s k = elim (Option-cases (running s n)) [
    | inl e ↦ elim (Bool-cases (stopped s n)) [
      | inr f ↦
          rw (is_running-lem s n, run, e, f)
            (subst
              (λ m.
                running (dk.start s (options n args)) k
                ≡ (if k == m then some (options n args) else running s k))
              (options-name n args)
              (running-start s (options n args) k (ap (running s) (options-name n args) ∙ e)
                (ap (stopped s) (options-name n args) ∙ f)))
      | inl f ↦
          rw (is_running-lem s n, run, e, f)
            (start_taken s (options n args) k (ap (stopped s) (options-name n args) ∙ f)
              ∙ same_or (k == n) (running s k) none (λ p. ap (running s) ((eq_iff k n).0 p) ∙ e))
    ]
    | inr (r, e) ↦
        rw (is_running-lem s n, run, e)
          (same_or (k == n) (running s k) (some r) (λ p. ap (running s) ((eq_iff k n).0 p) ∙ e))
  ]
    where
      same_or : (t : Bool) (x y : Option RunOptions) → (t ≡ true → x ≡ y) → x ≡ (if t then y else x)
      same_or true x y h = h refl
      same_or false x y h = refl

  -- `run` neither stops a container nor takes away one that is stopped.
  pub stopped-run :
      (n : String) (args : List String) (s : dk.Containers) (k : String)
      → stopped (run dk n args s) k ≡ stopped s k
  unfolding run
  stopped-run n args s k = elim (Option-cases (running s n)) [
    | inl e ↦ rw (is_running-lem s n, run, e) (stopped-start s (options n args) k)
    | inr (r, e) ↦ rw (is_running-lem s n, run, e) refl
  ]

  -- No name is taken by a container that does not run.
  abbrev pub Free : dk.Containers → Type 0
  Free c = (n : String) → stopped c n ≡ false

  pub Free-run :
      (n : String) (args : List String) (c : dk.Containers) → Free c → Free (run dk n args c)
  Free-run n args c f k = stopped-run n args c k ∙ f k

  pub Free-remove : (m : String) (c : dk.Containers) → Free c → Free (dk.remove c m)
  Free-remove m c f k = stopped-remove c m k ∙ ground (arith, f k)

  pub running-run_untaken :
      (n : String) (args : List String) (s : dk.Containers)
      → Free s
      → (k : String)
      → running (run dk n args s) k
        ≡ (if k == n then some (or_options (running s n) (options n args)) else running s k)
  running-run_untaken n args s f k =
      running-run n args s k
      ∙ ap (λ x. if k == n then x else running s k)
          (once_run_untaken (running s n) (stopped s n) (options n args) (f n))

  -- A process starts with whatever containers there are, makes rounds, and in between containers stop, or
  -- are taken away.
  pub data Reach (Round : Supervisor dk → Supervisor dk → Type 1) : Supervisor dk → Type 1 where
    starts : (s : Supervisor dk) → s.old_ip ≡ "" → s.old_etcd_ips ≡ [] → Reach Round s
    rounds : {s t : Supervisor dk} → Reach Round s → Round s t → Reach Round t
    stops :
        {s : Supervisor dk} (c : dk.Containers)
        → Reach Round s
        → ((n : String) → (running c n ≡ none) ⊎ (running c n ≡ running s.containers n))
        → Reach Round (record s { containers = c })

  -- The etcd that runs, if one does, is the wanted one, unless `P`.
  abbrev pub IsWanted : Type 0 → RunOptions → dk.Containers → Type 0
  IsWanted P wanted c = P ⊎ ((r : RunOptions) → running c etcd ≡ some r → r ≡ wanted)

  pub removed-IsWanted :
      (P : Type 0) (wanted : RunOptions) (c : dk.Containers)
      → removes c etcd ≡ true
      → IsWanted P wanted (dk.remove c etcd)
  removed-IsWanted P wanted c works = inr (λ r p. cc (running-remove c etcd etcd, works))

  pub stopped-IsWanted :
      (P : Type 0) (wanted : RunOptions) (c c' : dk.Containers)
      → (running c' etcd ≡ none) ⊎ (running c' etcd ≡ running c etcd)
      → IsWanted P wanted c
      → IsWanted P wanted c'
  stopped-IsWanted P wanted c c' gone (inl p) = inl p
  stopped-IsWanted P wanted c c' (inl e) (inr f) = inr (λ r p. cc (sym e ∙ p))
  stopped-IsWanted P wanted c c' (inr e) (inr f) = inr (λ r p. f r (sym e ∙ p))

  pub or_options-wanted :
      (wanted : RunOptions) (c : dk.Containers)
      → ((r : RunOptions) → running c etcd ≡ some r → r ≡ wanted)
      → or_options (running c etcd) wanted ≡ wanted
  or_options-wanted wanted c f = elim (Option-cases (running c etcd)) [
    | inl e ↦ rw (e) refl
    | inr (r, e) ↦ rw (e) (f r e)
  ]

  pub or_options-IsWanted :
      (P : Type 0) (wanted : RunOptions) (c : dk.Containers)
      → ¬ P
      → IsWanted P wanted c
      → or_options (running c etcd) wanted ≡ wanted
  or_options-IsWanted P wanted c h (inl p) = absurd (h p)
  or_options-IsWanted P wanted c h (inr f) = or_options-wanted wanted c f
