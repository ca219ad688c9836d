-- ===== src/Db/Owners.antt =====
-- db/db.go: what a thread holds in every reachable state of the transactions.
use mathlib.Core.List.{
  List, Nodup-nil, Nodup-cons, mem-cons, mem-cons_self, mem-cons_of_mem, not-mem-nil, Mem-prop,
}
use mathlib.Core.List.Perm
use mathlib.Core.Logic.Or
use quilt.Prelude.{
  ℕ, ◌≡◌, ◌≢◌, ◌∙◌, ◌<◌, ◌↔◌, refl, sym, subst, Option, none, some, [], ◌∷◌, Mem, Nodup, All,
  mem-All, All-of_mem, test_yes, test_no, ◌==◌, nat_eq, nat_beq_iff, false, Bool-cases, inl, inr,
  arith, ℕ_discrete,
}
use quilt.Db.Tables.{TableType, TableType-discrete, table_less, rank}
use quilt.Db.Ranks.{rank-lt}
use quilt.Db.Locks.{
  IsSorted, SortTables, Phase, idle, locking, unlocking, held, State, set_owner, set_phase, Move,
  lock, run, unlock, end, Step, begin, move, Reach, here, next,
}

-- The tables ascend.
abbrev pub Ascends : List TableType → Type 0
Ascends [] = Unit
Ascends (t ∷ ts) = All (λ u. rank t < rank u) ts × Ascends ts

abbrev pub Shape : Phase → Type 0
Shape idle = Unit
Shape (locking has todo) =
    Nodup has × (All (λ u. All (λ v. rank u < rank v) todo) has × Ascends todo)
Shape (unlocking has) = Nodup has

-- The thread is the owner of the mutexes that it holds and of no other.
abbrev pub Owns : (TableType → Option ℕ) → ℕ → Phase → Type 0
Owns own i p = (t : TableType) → Mem t (held p) ↔ (own t ≡ some i)

abbrev pub Inv : State → Type 0
Inv s = (i : ℕ) → Owns (s.owner) i (s.phase i) × Shape (s.phase i)

none≢some : {A : Type 0} {a : A} → none ≢ some a
none≢some h = cc

-- A distinct slice that is sorted ascends.
pub sorted-Ascends : (ts : List TableType) → Nodup ts → IsSorted ts → Ascends ts
sorted-Ascends [] d h = tt
sorted-Ascends (t ∷ ts) d h = (
  All-of_mem (λ u. rank t < rank u) ts
      (λ u m.
        rank-lt t u (mem-All (λ v. table_less v t ≡ false) (λ v. hlevel) ts h.0 u m)
          (λ e. (Nodup-cons.0 d).0 (subst (λ v. Mem v ts) (sym e) m))),
  sorted-Ascends ts (Nodup-cons.0 d).1 h.1,
)

module _ (s : State) where
  pub set_phase_same : (i : ℕ) (p : Phase) → set_phase s i p i ≡ p
  set_phase_same i p = rw ((nat_beq_iff i i).1 refl)

  pub set_phase_other : (i j : ℕ) (p : Phase) → j ≢ i → set_phase s i p j ≡ s.phase j
  set_phase_other i j p n = elim (Bool-cases (j == i)) [
    | inl e ↦ absurd (n ((nat_beq_iff j i).0 e))
    | inr f ↦ rw f
  ]

  pub set_owner_same : (t : TableType) (o : Option ℕ) → set_owner s t o t ≡ o
  set_owner_same t o = rw (test_yes (TableType-discrete t t) refl)

  pub set_owner_other : (t u : TableType) (o : Option ℕ) → u ≢ t → set_owner s t o u ≡ s.owner u
  set_owner_other t u o n = rw (test_no (TableType-discrete u t) n)

-- A table that passes between the free state and another thread.
Owns-other :
    (s : State) (j : ℕ) (p : Phase) (u : TableType) (o : Option ℕ)
    → s.owner u ≢ some j
    → o ≢ some j
    → Owns (s.owner) j p
    → Owns (set_owner s u o) j p
Owns-other s j p u o h k w t = elim (TableType-discrete t u) [
  | yes e ↦ rw (e, set_owner_same s u o) (λ m. absurd (h ((w u).0 m)), λ q. absurd (k q))
  | no n ↦ rw (set_owner_other s u t o n) (w t)
]

-- One thread changes its phase, and the owner of at most one table changes.
step-Inv :
    (s : State) (own : TableType → Option ℕ) (i : ℕ) (p : Phase)
    → Inv s
    → Owns own i p
    → Shape p
    → ((j : ℕ) → j ≢ i → Owns own j (s.phase j))
    → Inv (record { owner = own; phase = set_phase s i p })
step-Inv s own i p inv w h rest j = elim (ℕ_discrete j i) [
  | yes e ↦ rw (e, set_phase_same s i p) (w, h)
  | no n ↦ rw (set_phase_other s i j p n) (rest j n, (inv j).1)
]

some-inj : {i j : ℕ} → some i ≡ some j → i ≡ j
some-inj h = cc

lock-Owns :
    (s : State) (i : ℕ) (u : TableType) (has : List TableType)
    → ((t : TableType) → Mem t has ↔ (s.owner t ≡ some i))
    → (t : TableType) → Mem t (u ∷ has) ↔ (set_owner s u (some i) t ≡ some i)
lock-Owns s i u has w t = elim (TableType-discrete t u) [
  | yes e ↦ rw (e, set_owner_same s u (some i)) (λ m. refl, λ q. mem-cons_self)
  | no n ↦ rw (set_owner_other s u t (some i) n) (
    λ m. Or.elim (hlevel) (mem-cons.0 m) (λ e. absurd (n e)) (w t).0,
    λ q. mem-cons_of_mem u ((w t).1 q),
  )
]

unlock-Owns :
    (s : State) (i : ℕ) (u : TableType) (has : List TableType)
    → Nodup (u ∷ has)
    → ((t : TableType) → Mem t (u ∷ has) ↔ (s.owner t ≡ some i))
    → (t : TableType) → Mem t has ↔ (set_owner s u none t ≡ some i)
unlock-Owns s i u has d w t = elim (TableType-discrete t u) [
  | yes e ↦
      rw (e, set_owner_same s u none)
        (λ m. absurd ((Nodup-cons.0 d).0 m), λ q. absurd (none≢some q))
  | no n ↦ rw (set_owner_other s u t none n) (
    λ m. (w t).0 (mem-cons_of_mem u m),
    λ q. Or.elim Mem-prop (mem-cons.0 ((w t).1 q)) (λ e. absurd (n e)) (λ m. m),
  )
]

-- The tables that a thread takes next come after all that it holds.
lock-All :
    (u : TableType) (has todo : List TableType)
    → All (λ a. All (λ b. rank a < rank b) (u ∷ todo)) has
    → All (λ b. rank u < rank b) todo
    → All (λ a. All (λ b. rank a < rank b) todo) (u ∷ has)
lock-All u has todo h k = (k, tails has h)
  where
    tails :
        (bs : List TableType)
        → All (λ a. All (λ b. rank a < rank b) (u ∷ todo)) bs
        → All (λ a. All (λ b. rank a < rank b) todo) bs
    tails [] h = tt
    tails (a ∷ bs) h = (h.0.1, tails bs h.1)

lock-Shape :
    (u : TableType) (has todo : List TableType)
    → Shape (locking has (u ∷ todo))
    → Shape (locking (u ∷ has) todo)
lock-Shape u has todo (d, (h, k)) =
    (Nodup-cons.1 (λ m. first has h m, d), (lock-All u has todo h k.0, k.1))
  where
    first : (bs : List TableType) → All (λ a. All (λ b. rank a < rank b) (u ∷ todo)) bs → ¬ Mem u bs
    first [] h m = not-mem-nil m
    first (a ∷ bs) h m =
        Or.elim (hlevel) (mem-cons.0 m) (λ e. omega (arith, (rw (← e) at h.0.0))) (first bs h.1)

pub Move-Inv : (s t : State) → Move s t → Inv s → Inv t
Move-Inv s t (lock i u has todo at_lock free e) inv =
    let (w, h) = (subst (λ p. Owns (s.owner) i p × Shape p) at_lock (inv i)) in
    rw e (
      step-Inv s (set_owner s u (some i)) i (locking (u ∷ has) todo) inv (lock-Owns s i u has w)
        (lock-Shape u has todo h)
        (λ j n.
          Owns-other s j (s.phase j) u (some i) (λ q. none≢some (sym free ∙ q))
            (λ q. n (sym (some-inj q))) (inv j).0))
Move-Inv s t (run i has order at_run p e) inv =
    let (w, h) = (subst (λ p. Owns (s.owner) i p × Shape p) at_run (inv i)) in
    rw e (
      step-Inv s (s.owner) i (unlocking order) inv
        (λ t. (λ m. (w t).0 ((Perm.mem_iff p).0 m), λ q. (Perm.mem_iff p).1 ((w t).1 q)))
        (Perm.nodup (Perm.symm p) h.0) (λ j n. (inv j).0))
Move-Inv s t (unlock i u has at_unlock e) inv =
    let (w, h) = (subst (λ p. Owns (s.owner) i p × Shape p) at_unlock (inv i)) in
    rw e (
      step-Inv s (set_owner s u none) i (unlocking has) inv (unlock-Owns s i u has h w)
        (Nodup-cons.0 h).1
        (λ j n.
          Owns-other s j (s.phase j) u none (λ q. n (some-inj (sym q ∙ (w u).0 mem-cons_self)))
            none≢some (inv j).0))
Move-Inv s t (end i at_end e) inv = rw e (
    step-Inv s (s.owner) i idle inv (subst (Owns (s.owner) i) at_end (inv i).0) tt
      (λ j n. (inv j).0))

module _ (lib : SortTables) where
  pub Step-Inv : (s t : State) → Step lib s t → Inv s → Inv t
  Step-Inv s t (move m) inv = Move-Inv s t m inv
  Step-Inv s t (begin i tables d at_begin e) inv = rw e (
      step-Inv s (s.owner) i (locking [] (lib.sort tables)) inv
        (subst (Owns (s.owner) i) at_begin (inv i).0)
        (
          Nodup-nil,
          (
            tt,
            sorted-Ascends (lib.sort tables) (Perm.nodup (Perm.symm (lib.sort-perm tables)) d)
                (lib.sort-IsSorted tables),
          ),
        )
        (λ j n. (inv j).0))

  pub Reach-Inv : (s : State) → Reach lib s → Inv s
  Reach-Inv _ here = λ i. (λ t. (λ m. absurd (not-mem-nil m), λ q. absurd (none≢some q)), tt)
  Reach-Inv t (next {s} r h) = Step-Inv s t h (Reach-Inv s r)

  -- Two threads never hold the same table: transactions on intersecting sets of tables do not run at once.
  pub mutual_exclusion :
      (s : State) (t : TableType) (i j : ℕ)
      → Reach lib s
      → Mem t (held (s.phase i))
      → Mem t (held (s.phase j))
      → i ≡ j
  mutual_exclusion s t i j r m n =
      some-inj (sym (((Reach-Inv s r i).0 t).0 m) ∙ ((Reach-Inv s r j).0 t).0 n)
