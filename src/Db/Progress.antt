-- ===== src/Db/Progress.antt =====
-- db/db.go: a thread that waits for a table, and the thread that has it.
use mathlib.Core.List.{List, not-mem-nil}
use quilt.Prelude.{
  ℕ, zero, suc, ◌+◌, ◌≡◌, ◌≢◌, ◌<◌, ◌≤◌, refl, subst, Option-cases, [], ◌∷◌, Mem, All, mem-All, inl,
  inr, arith,
}
use mathlib.Core.List.Perm
use native.Mathlib.Bridge.{le_prop}
use quilt.Db.Tables.{TableType, rank}
use quilt.Db.Ranks.{rank-bound}
use quilt.Db.Locks.{
  SortTables, Phase, idle, locking, unlocking, held, State, Move, lock, run, unlock, end, Reach,
}
use quilt.Db.Owners.{Inv, Shape, Reach-Inv}

-- The rank of the table that a thread waits for; 10 where it waits for none.
wanted : Phase → ℕ
wanted idle = 10
wanted (locking has []) = 10
wanted (locking has (u ∷ todo)) = rank u
wanted (unlocking has) = 10

-- The owner of a table that another thread waits for wants only later tables.
wanted-lt : (p : Phase) (u : TableType) → Shape p → Mem u (held p) → rank u < wanted p
unfolding wanted
wanted-lt idle u h m = absurd (not-mem-nil m)
wanted-lt (unlocking has) u h m = rank-bound u
wanted-lt (locking has []) u h m = rank-bound u
wanted-lt (locking has (v ∷ todo)) u h m =
    (mem-All (λ a. rank a < rank v) (λ a. le_prop) has (heads has h.1.0) u m)
  where
    heads :
        (bs : List TableType)
        → All (λ a. All (λ b. rank a < rank b) (v ∷ todo)) bs
        → All (λ a. rank a < rank v) bs
    heads [] h = tt
    heads (b ∷ bs) h = (h.0.0, heads bs h.1)

abbrev pub CanMove : State → Type 0
CanMove s = (t : State) × Move s t

advance :
    (s : State) (n i : ℕ) (p : Phase)
    → Inv s
    → s.phase i ≡ p
    → p ≢ idle
    → 10 ≤ n + wanted p
    → CanMove s
unfolding wanted
advance s n i idle inv e h k = absurd (h refl)
advance s n i (unlocking []) inv e h k = (_, end i e refl)
advance s n i (unlocking (u ∷ has)) inv e h k = (_, unlock i u has e refl)
advance s n i (locking has []) inv e h k = (_, run i has has e (Perm.refl has) refl)
advance s zero i (locking has (u ∷ todo)) inv e h k = absurd (omega (arith, rank-bound u))
advance s (suc n) i (locking has (u ∷ todo)) inv e h k = elim (Option-cases (s.owner u)) [
  | inl free ↦ (_, lock i u has todo e free refl)
  | inr (j, o) ↦
      let m = ((inv j).0 u).1 o in
      advance s n j (s.phase j) inv refl (λ q. not-mem-nil (subst (λ p. Mem u (held p)) q m))
        (omega (arith, wanted-lt (s.phase j) u (inv j).1 m))
]

module _ (lib : SortTables) where
  -- While some thread is in a transaction, some thread can go on with its own: there is no deadlock.
  pub progress : (s : State) (i : ℕ) → Reach lib s → s.phase i ≢ idle → CanMove s
  progress s i r h = advance s 10 i (s.phase i) (Reach-Inv lib s r) refl h (omega arith)
