-- ===== src/Db/Drain.antt =====
-- db/db.go: the steps that are left to the transactions that have begun.
use quilt.Prelude.{
  ℕ, zero, suc, ◌+◌, ◌≡◌, ◌≢◌, ◌∙◌, ◌<◌, ◌≤◌, refl, ap, subst, ◌∷◌, arith, length, ℕ_discrete,
  dec_lt,
}
use quilt.Prelude.Perms.{perm-length}
use quilt.Db.Tables.{TableType}
use quilt.Db.Locks.{
  SortTables, Phase, idle, locking, unlocking, State, set_owner, set_phase, Move, lock, run, unlock,
  end, Reach, next, move,
}
use quilt.Db.Owners.{set_phase_same, set_phase_other}
use quilt.Db.Progress.{progress}

-- The steps that a thread has left in its transaction: each table is locked and unlocked, and the closure
-- and the end are a step each.
abbrev pub work : Phase → ℕ
work idle = 0
work (locking has todo) = length has + (length todo + (length todo + 2))
work (unlocking has) = suc (length has)

-- The steps that the threads below `n` have left.
abbrev pub total : ℕ → (ℕ → Phase) → ℕ
total zero p = 0
total (suc n) p = work (p n) + total n p

work-zero : (p : Phase) → work p ≡ 0 → p ≡ idle
work-zero idle h = refl
work-zero (locking has todo) h = absurd (omega arith)
work-zero (unlocking has) h = absurd (omega arith)

total-zero : (n : ℕ) (p : ℕ → Phase) → total n p ≡ 0 → (i : ℕ) → i < n → p i ≡ idle
total-zero zero p h i l = absurd (omega arith)
total-zero (suc n) p h i l = elim (ℕ_discrete i n) [
  | yes e ↦ rw e (work-zero (p n) (omega arith))
  | no k ↦ total-zero n p (omega arith) i (omega arith)
]

total-same : (n : ℕ) (p q : ℕ → Phase) → ((j : ℕ) → j < n → q j ≡ p j) → total n q ≡ total n p
total-same zero p q h = refl
total-same (suc n) p q h = rw (h n (omega arith), total-same n p q (λ j l. h j (omega arith)))

total-one :
    (n i : ℕ) (p q : ℕ → Phase)
    → i < n
    → suc (work (q i)) ≡ work (p i)
    → ((j : ℕ) → j ≢ i → q j ≡ p j)
    → suc (total n q) ≡ total n p
total-one zero i p q l w h = omega arith
total-one (suc n) i p q l w h = elim (ℕ_discrete n i) [
  | yes e ↦ omega (
    arith,
    total-same n p q (λ j k. h j (λ f. absurd (omega arith))),
    ap (λ j. work (q j)) e,
    ap (λ j. work (p j)) e,
  )
  | no k ↦ omega (arith, total-one n i p q (omega arith) w h, ap work (h n k))
]

-- Exactly one thread has a step less, and the others are where they were.
OneLess : State → State → Type 0
OneLess s t =
    (i : ℕ) × ((suc (work (t.phase i)) ≡ work (s.phase i))
      × ((j : ℕ) → j ≢ i → t.phase j ≡ s.phase j))

one_less :
    (s t : State) (own : TableType → _) (i : ℕ) (p : Phase)
    → t ≡ record { owner = own; phase = set_phase s i p }
    → suc (work p) ≡ work (s.phase i)
    → OneLess s t
unfolding OneLess
one_less s t own i p e w = rw e (i, (rw (set_phase_same s i p) w, λ j n. set_phase_other s i j p n))

Move-OneLess : (s t : State) → Move s t → OneLess s t
Move-OneLess s t (lock i u has todo h free e) =
    one_less s t (set_owner s u _) i (locking (u ∷ has) todo) e (rw h (omega arith))
Move-OneLess s t (run i has order h p e) =
    one_less s t s.owner i (unlocking order) e (rw h (omega (arith, perm-length p)))
Move-OneLess s t (unlock i u has h e) = one_less s t (set_owner s u _) i (unlocking has) e (rw h)
Move-OneLess s t (end i h e) = one_less s t s.owner i idle e (rw h)

-- The threads from `n` on are in no transaction.
abbrev pub Below : ℕ → State → Type 0
Below n s = (i : ℕ) → n ≤ i → s.phase i ≡ idle

Move-total :
    (n : ℕ) (s t : State)
    → Below n s
    → Move s t
    → (suc (total n t.phase) ≡ total n s.phase) × Below n t
unfolding OneLess
Move-total n s t b m =
    let (i, (w, h)) = Move-OneLess s t m in
    let below = at_most i w in
    (total-one n i s.phase t.phase below w h, λ j l. h j (λ e. absurd (omega arith)) ∙ b j l)
  where
    at_most : (i : ℕ) → suc (work (t.phase i)) ≡ work (s.phase i) → i < n
    at_most i w = elim (dec_lt i n) [
      | yes l ↦ l
      | no k ↦ absurd (omega (arith, ap work (b i (omega arith))))
    ]

-- A number of steps inside transactions.
pub data Moves (s : State) : ℕ → State → Type 0 where
  none_yet : Moves s 0 s
  then : {k : ℕ} {t u : State} → Moves s k t → Move t u → Moves s (suc k) u

-- However the threads take turns, each step is one of those that were left: no schedule goes on for ever
-- without a new transaction.
pub Moves-total :
    (n : ℕ) (s : State) (k : ℕ) (t : State)
    → Below n s
    → Moves s k t
    → (k + total n t.phase ≡ total n s.phase) × Below n t
Moves-total n s _ _ b none_yet = (omega arith, b)
Moves-total n s _ u b (then {k} {t} ms m) =
    let (e, c) = Moves-total n s k t b ms in let (f, d) = Move-total n t u c m in (omega arith, d)

busy : (n : ℕ) (p : ℕ → Phase) → 0 < total n p → (i : ℕ) × (p i ≢ idle)
busy zero p h = absurd (omega arith)
busy (suc n) p h = elim (ℕ_discrete (work (p n)) 0) [
  | yes e ↦ busy n p (omega arith)
  | no k ↦ (n, λ e. k (ap work e))
]

reaches :
    (lib : SortTables) (n m k j : ℕ) (s t : State)
    → Reach lib t
    → Below n t
    → Moves s k t
    → total n t.phase ≡ m
    → m + k ≡ j
    → (u : State) × (Moves s j u × ((i : ℕ) → u.phase i ≡ idle))
reaches lib n zero k j s t r b ms e sum = (t, (subst (λ a. Moves s a t) (omega arith) ms, all_idle))
  where
    all_idle : (i : ℕ) → t.phase i ≡ idle
    all_idle i = elim (dec_lt i n) [ yes l ↦ total-zero n t.phase e i l | no g ↦ b i (omega arith) ]
reaches lib n (suc m) k j s t r b ms e sum =
    let (i, h) = busy n t.phase (omega arith) in
    let (u, mv) = progress lib t i r h in
    let (f, c) = Move-total n t u b mv in
    reaches lib n m (suc k) j s u (next r (move mv)) c (then ms mv) (omega arith) (omega arith)

-- In a reachable state where the threads from `n` on are in no transaction, some schedule of the others
-- takes exactly the steps that they have left, and after it no thread is in a transaction.
pub transactions_end :
    (lib : SortTables) (n : ℕ) (s : State)
    → Reach lib s
    → Below n s
    → (t : State) × (Moves s (total n s.phase) t × ((i : ℕ) → t.phase i ≡ idle))
transactions_end lib n s r b =
    reaches lib n (total n s.phase) 0 (total n s.phase) s s r b none_yet refl (omega arith)
