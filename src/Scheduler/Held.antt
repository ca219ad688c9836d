-- ===== src/Scheduler/Held.antt =====
-- minion/scheduler/master.go: what the minions hold, and the rows that name them.
use mathlib.Core.HLevel.{hedberg}
use mathlib.Core.List.{
  List, mem-cons, mem-append_left, mem-append_right, not-mem-nil, append_assoc, perm_append_comm,
  Mem-prop,
}
use mathlib.Core.List.Perm
use mathlib.Core.Logic.{∥∥₁_elim, ∥∥₁_prop}
use mathlib.Core.List.{Permᴰ}
use mathlib.Core.Logic.Or
use quilt.Prelude.{
  ℕ, ◌≡◌, ◌≢◌, refl, sym, ap, ◌∙◌, subst, String, [], ◌∷◌, ◌++◌, Mem, Perm, ◌==◌, nat_eq,
  nat_beq_iff, Bool-cases, inl, inr, string_discrete,
}
use quilt.Scheduler.Context.{Memory, assign, MinionState}

-- The containers on the minions.
unfoldable pub held : List MinionState → List ℕ
held [] = []
held (s ∷ ss) = s.containers ++ held ss

-- The row of each container on the minion names it, by its address.
abbrev pub Sits : Memory → MinionState → Type 0
Sits mem s = (i : ℕ) → Mem i s.containers → (mem i).minion ≡ s.minion.private_ip

abbrev pub Tied : Memory → List MinionState → Type 0
Tied mem ms = (s : MinionState) → Mem s ms → Sits mem s

pub Tied-cons :
    (mem : Memory) (s : MinionState) (ss : List MinionState)
    → Sits mem s
    → Tied mem ss
    → Tied mem (s ∷ ss)
Tied-cons mem s ss a t s' m i n =
    Or.elim (hedberg string_discrete _ _) (mem-cons.0 m)
      (λ e. subst (λ x. Sits mem x) (sym e) a i n) (λ m'. t s' m' i n)

pub mem-held :
    (ss : List MinionState) (s : MinionState) (i : ℕ)
    → Mem s ss
    → Mem i s.containers
    → Mem i (held ss)
unfolding held
mem-held [] s i m n = absurd (not-mem-nil m)
mem-held (x ∷ ss) s i m n =
    Or.elim Mem-prop (mem-cons.0 m)
      (λ e. mem-append_left (held ss) (subst (λ (y : MinionState). Mem i y.containers) e n))
      (λ m'. mem-append_right x.containers (mem-held ss s i m' n))

-- Another memory that agrees on what is held.
pub Tied-same :
    (mem mem' : Memory) (ss : List MinionState)
    → ((i : ℕ) → Mem i (held ss) → mem' i ≡ mem i)
    → Tied mem ss
    → Tied mem' ss
Tied-same mem mem' ss h t s m i n = ap (λ c. c.minion) (h i (mem-held ss s i m n)) ∙ t s m i n

pub assign_other : (mem : Memory) (i : ℕ) (ip : String) (j : ℕ) → j ≢ i → assign mem i ip j ≡ mem j
unfolding assign
assign_other mem i ip j n = elim (Bool-cases (j == i)) [
  | inl e ↦ absurd (n ((nat_beq_iff j i).0 e))
  | inr e ↦ rw e refl
]

pub assign_here : (mem : Memory) (i : ℕ) (ip : String) → (assign mem i ip i).minion ≡ ip
unfolding assign
assign_here mem i ip = rw ((nat_beq_iff i i).1 refl) refl

pub not_it : {i j : ℕ} (xs : List ℕ) → ¬ Mem i xs → Mem j xs → j ≢ i
not_it xs n m e = n (subst (λ k. Mem k xs) e m)

held-permᴰ : {xs ys : List MinionState} → Permᴰ xs ys → Perm (held xs) (held ys)
unfolding held
held-permᴰ Permᴰ.nil = Perm.refl []
held-permᴰ (Permᴰ.cons {a} {b} {l₁} {l₂} e d) =
    subst (λ (y : MinionState). Perm (a.containers ++ held l₁) (y.containers ++ held l₂)) e
      (Perm.append_left a.containers (held-permᴰ d))
held-permᴰ (Permᴰ.swap {a} {b} {a'} {b'} {l} e f) =
    subst
      (λ (y : MinionState).
        Perm (a.containers ++ (b.containers ++ held l)) (a'.containers ++ (y.containers ++ held l)))
      e
      (subst
        (λ (y : MinionState).
          Perm (a.containers ++ (b.containers ++ held l))
            (y.containers ++ (a.containers ++ held l)))
        f (exchange a.containers b.containers (held l)))
  where
    exchange : (ws xs ys : List ℕ) → Perm (ws ++ (xs ++ ys)) (xs ++ (ws ++ ys))
    exchange ws xs ys =
        subst (λ l. Perm l (xs ++ (ws ++ ys))) (append_assoc ws xs ys)
          (subst (Perm ((ws ++ xs) ++ ys)) (append_assoc xs ws ys)
            (Perm.append_right ys (perm_append_comm ws xs)))
held-permᴰ (Permᴰ.trans d e) = Perm.trans (held-permᴰ d) (held-permᴰ e)

pub held-perm : (xs ys : List MinionState) → Perm xs ys → Perm (held xs) (held ys)
held-perm xs ys p = ∥∥₁_elim p ∥∥₁_prop held-permᴰ
