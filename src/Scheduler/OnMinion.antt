-- ===== src/Scheduler/OnMinion.antt =====
-- minion/scheduler/master.go: which containers are on a minion.
use mathlib.Core.List.{
  List, mem-cons, mem-cons_self, mem-cons_of_mem, mem-append_left, mem-append_right,
}
use mathlib.Core.List.Perm
use mathlib.Core.Logic.{∥∥₁_elim, ∥∥₁_prop}
use mathlib.Core.Logic.Or
use quilt.Prelude.{
  ℕ, ◌≡◌, subst, some, String, [], ◌∷◌, ◌++◌, map, Mem, Perm, Bool-cases, Option-cases, inl, inr,
}
use quilt.Db.MinionRows.{Placement}
use quilt.Scheduler.Placement.{valid_placement}
use quilt.Scheduler.Context.{Memory, MinionState, place_on}

-- The container is on one of the minions.
abbrev pub On : ℕ → List MinionState → Type 0
On i ss = ∥ ((s : MinionState) × Mem s ss × Mem i s.containers) ∥₁

pub On-perm : (i : ℕ) (xs ys : List MinionState) → Perm xs ys → On i xs → On i ys
On-perm i xs ys p h =
    ∥∥₁_elim h ∥∥₁_prop λ w. let (s, m, n) = w in ∣ (s, (Perm.mem_iff p).0 m, n) ∣₁

On-cons : (i : ℕ) (s : MinionState) (xs : List MinionState) → On i xs → On i (s ∷ xs)
On-cons i s xs h = ∥∥₁_elim h ∥∥₁_prop λ w. let (t, m, n) = w in ∣ (t, mem-cons_of_mem s m, n) ∣₁

-- Another first minion, and others behind it, with at least the containers that were there.
On-replace :
    (i : ℕ) (s t : MinionState) (xs ys : List MinionState)
    → (Mem i s.containers → Mem i t.containers)
    → (On i xs → On i ys)
    → On i (s ∷ xs)
    → On i (t ∷ ys)
On-replace i s t xs ys f g h = ∥∥₁_elim h ∥∥₁_prop λ w.
    let (u, m, n) = w in
    Or.elim ∥∥₁_prop (mem-cons.0 m)
      (λ e. ∣ (t, mem-cons_self, f (subst (λ (x : MinionState). Mem i x.containers) e n)) ∣₁)
      (λ m'. On-cons i t ys (g ∣ (u, m', n) ∣₁))

module _ (cs : List Placement) where
  pub place_on-On :
      (mem : Memory) (i : ℕ) (ss ms : List MinionState) (k : ℕ) (ip : String)
      → place_on cs mem i ss ≡ some (ms, k, ip)
      → On i ms × ((n : ℕ) → On n ss → On n ms)
  unfolding place_on
  place_on-On mem i [] ms k ip e = absurd (cc e)
  place_on-On mem i (s ∷ ss) ms k ip e =
      elim (Bool-cases (valid_placement cs s.minion (map mem s.containers) (mem i))) [
        | inl v ↦
            let taken : (record s { containers = s.containers ++ i ∷ [] } ∷ ss) ≡ ms =
              cc (rw v at e) in
            subst Good taken (
              ∣ (
                record s { containers = s.containers ++ i ∷ [] },
                mem-cons_self,
                mem-append_right s.containers mem-cons_self,
              ) ∣₁,
              λ n r. On-replace n s _ ss ss (λ m. mem-append_left (i ∷ []) m) (λ o. o) r,
            )
        | inr v ↦ elim (Option-cases (place_on cs mem i ss)) [
          | inl x ↦ absurd (cc (rw (v, x) at e))
          | inr ((ms', k', ip'), x) ↦
              let (on, still) = place_on-On mem i ss ms' k' ip' x in
              let passed : (s ∷ ms') ≡ ms = cc (rw (v, x) at e) in
              subst Good passed
                (On-cons i s ms' on, λ n r. On-replace n s s ss ms' (λ m. m) (still n) r)
        ]
      ]
    where
      Good : List MinionState → Type 0
      Good xs = On i xs × ((n : ℕ) → On n (s ∷ ss) → On n xs)
