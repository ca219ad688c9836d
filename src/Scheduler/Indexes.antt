-- ===== src/Scheduler/Indexes.antt =====
-- minion/scheduler/master.go: the minions of `makeContext` by their addresses.
use mathlib.Core.HLevel.{hedberg}
use mathlib.Core.List.{
  List, mem-cons, mem-cons_self, mem-cons_of_mem, mem-append, mem-append_right, not-mem-nil,
  append_assoc, perm_middle,
}
use mathlib.Core.List.Perm
use mathlib.Core.Logic.Or
use mathlib.Core.Option.{some-injective}
use quilt.Prelude.{
  ℕ, zero, suc, ◌≡◌, refl, sym, ap, ◌∙◌, subst, not, ◌||◌, some, String, [], ◌∷◌, ◌++◌, length, Mem,
  Perm, ◌==◌, nat_eq, string_eq, Bool-cases, inl, inr, string_discrete, test, test_yes, test_no,
}
use quilt.Maps.{Map, get, put, get-put}
use quilt.Db.Rows.{Role, Role-discrete}
use quilt.Db.MinionRows.{Minion}
use quilt.Scheduler.Context.{Memory, MinionState}
use quilt.Scheduler.Make.{workers, append_to}
use quilt.Scheduler.Held.{held, Tied, Tied-cons}

-- The minion with that index has that address.
abbrev pub At : ℕ → String → List MinionState → Type 0
At k ip [] = ⊥
At zero ip (s ∷ ss) = s.minion.private_ip ≡ ip
At (suc k) ip (s ∷ ss) = At k ip ss

abbrev pub Indexed : Map String ℕ → List MinionState → Type 0
Indexed by_ip ms = (ip : String) (k : ℕ) → get string_discrete by_ip ip ≡ some k → At k ip ms

pub Indexed-nil : Indexed [] []
unfolding get
Indexed-nil ip k g = absurd (cc g)

At-append :
    (k : ℕ) (ip : String) (ms : List MinionState) (s : MinionState)
    → At k ip ms
    → At k ip (ms ++ s ∷ [])
At-append k ip [] s a = absurd a
At-append zero ip (x ∷ ms) s a = a
At-append (suc k) ip (x ∷ ms) s a = At-append k ip ms s a

At-last :
    (ms : List MinionState) (s : MinionState) → At (length ms) s.minion.private_ip (ms ++ s ∷ [])
At-last [] s = refl
At-last (x ∷ ms) s = At-last ms s

pub At-append_to :
    (k j i : ℕ) (ip : String) (ms : List MinionState) → At j ip ms → At j ip (append_to k i ms)
unfolding append_to
At-append_to k j i ip [] a = absurd a
At-append_to zero zero i ip (s ∷ ms) a = a
At-append_to zero (suc j) i ip (s ∷ ms) a = a
At-append_to (suc k) zero i ip (s ∷ ms) a = a
At-append_to (suc k) (suc j) i ip (s ∷ ms) a = At-append_to k j i ip ms a

length-snoc : (ms : List MinionState) (s : MinionState) → length (ms ++ s ∷ []) ≡ suc (length ms)
length-snoc [] s = refl
length-snoc (x ∷ ms) s = ap suc (length-snoc ms s)

held-append : (xs ys : List MinionState) → held (xs ++ ys) ≡ held xs ++ held ys
unfolding held
held-append [] ys = refl
held-append (x ∷ xs) ys =
    ap (◌++◌ x.containers) (held-append xs ys) ∙ sym (append_assoc x.containers (held xs) (held ys))

held-snoc :
    (ms : List MinionState) (m : Minion)
    → held ms ≡ []
    → held (ms ++ record { minion = m; containers = [] } ∷ []) ≡ []
unfolding held
held-snoc ms m h =
    held-append ms (record { minion = m; containers = [] } ∷ [])
    ∙ ap (λ l. l ++ held (record { minion = m; containers = [] } ∷ [])) h

pub workers-Indexed :
    (k : ℕ) (rest : List Minion) (ms : List MinionState) (by_ip : Map String ℕ)
    → length ms ≡ k
    → held ms ≡ []
    → Indexed by_ip ms
    → let r = workers k rest (ms, by_ip) in (held r.0 ≡ []) × Indexed r.1 r.0
unfolding workers
workers-Indexed k [] ms by_ip l h x = (h, x)
workers-Indexed k (m ∷ rest) ms by_ip l h x =
    elim (Bool-cases (not (test (Role-discrete m.role Role.worker)) || m.private_ip == "")) [
      | inl e ↦ rw (e, workers) (workers-Indexed k rest ms by_ip l h x)
      | inr e ↦
          let s : MinionState = record { minion = m; containers = [] } in
          rw (e, workers)
            (workers-Indexed (suc k) rest (ms ++ s ∷ []) (put string_discrete by_ip m.private_ip k)
              (length-snoc ms s ∙ ap suc l) (held-snoc ms m h)
              (λ ip j g. elim (string_discrete m.private_ip ip) [
                | yes p ↦
                    let q : k ≡ j = some-injective _ _ (
                      sym (
                        get-put string_discrete by_ip m.private_ip ip k
                        ∙ rw (test_yes (string_discrete m.private_ip ip) p) refl)
                      ∙ g) in
                    subst (λ t. At t ip (ms ++ s ∷ [])) (l ∙ q)
                      (subst (λ a. At (length ms) a (ms ++ s ∷ [])) p (At-last ms s))
                | no n ↦ At-append j ip ms s (
                    x ip j (
                      sym (
                        get-put string_discrete by_ip m.private_ip ip k
                        ∙ rw (test_no (string_discrete m.private_ip ip) n) refl)
                      ∙ g))
              ]))
    ]

pub append_to-Tied :
    (mem : Memory) (k i : ℕ) (ms : List MinionState)
    → ¬ Mem i (held ms)
    → Tied mem ms
    → At k (mem i).minion ms
    → Tied mem (append_to k i ms) × Perm (held (append_to k i ms)) (i ∷ held ms)
unfolding append_to held
append_to-Tied mem k i [] n t a = absurd a
append_to-Tied mem zero i (s ∷ ms) n t a = (
  Tied-cons mem (record s { containers = s.containers ++ i ∷ [] }) ms
      (λ j m. Or.elim (hedberg string_discrete _ _) (mem-append.0 m) (t s mem-cons_self j) (λ m'.
        Or.elim (hedberg string_discrete _ _) (mem-cons.0 m')
          (λ e. ap (λ x. (mem x).minion) e ∙ sym a) (λ x. absurd (not-mem-nil x))))
      (λ s' m. t s' (mem-cons_of_mem s m)),
  subst (λ xs. Perm xs (i ∷ (s.containers ++ held ms)))
      (sym (append_assoc s.containers (i ∷ []) (held ms))) (perm_middle s.containers (held ms)),
)
append_to-Tied mem (suc k) i (s ∷ ms) n t a =
    let (t', p) =
      append_to-Tied mem k i ms (λ y. n (mem-append_right s.containers y))
        (λ s' m. t s' (mem-cons_of_mem s m)) a in
    (
      Tied-cons mem s (append_to k i ms) (t s mem-cons_self) t',
      Perm.trans (Perm.append_left s.containers p) (perm_middle s.containers (held ms)),
    )
