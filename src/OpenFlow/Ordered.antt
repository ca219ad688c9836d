-- ===== src/OpenFlow/Ordered.antt =====
-- Lists of flows in which, for the flows that a packet matches, the earlier one has the higher priority or does
-- the same: executing a flow of the highest priority is executing the first.
use mathlib.Core.List.{mem-cons, mem-cons_of_mem, mem-cons_self, not-mem-nil}
use mathlib.Core.Logic.Or
use mathlib.Core.Bool.{false≢true}
use quilt.Prelude.{
  ◌≡◌, ◌≤◌, ◌<◌, ◌⊎◌, inl, inr, refl, sym, ap, subst, ◌∙◌, true, Bool-cases, List, [], ◌∷◌, ◌++◌,
  map, Mem, All, All-append, ℕ_discrete, arith,
}
use quilt.OpenFlow.Flows.{Action, Flow}
use quilt.OpenFlow.Switch.{Packet, all_hold, rank}
use quilt.OpenFlow.Pseudocode.{Statement, first}

pub Actions-set : IsSet (List Action)
Actions-set = hlevel ℕ_discrete

abbrev pub statement : Flow → Statement
statement f = (f.matches, f.actions)

module _ (p : Packet) where
  abbrev pub Matches : Flow → Type 0
  Matches f = all_hold p f.matches ≡ true

  -- The earlier flow wins, or it does not matter which does.
  abbrev pub Before : Flow → Flow → Type 0
  Before f g = Matches f → Matches g → (rank g.priority < rank f.priority) ⊎ (f.actions ≡ g.actions)

  abbrev pub Ordered : List Flow → Type 0
  Ordered [] = Unit
  Ordered (f ∷ fs) = All (Before f) fs × Ordered fs

  pub Ordered-append :
      (fs gs : List Flow)
      → Ordered fs
      → Ordered gs
      → All (λ f. All (Before f) gs) fs
      → Ordered (fs ++ gs)
  Ordered-append [] gs hf hg h = hg
  Ordered-append (f ∷ fs) gs hf hg h =
      (All-append (Before f) fs gs hf.0 h.0, Ordered-append fs gs hf.1 hg h.1)

  before :
      (f g : Flow) (fs : List Flow)
      → All (Before f) fs
      → Mem g fs
      → Matches f
      → Matches g
      → rank f.priority ≤ rank g.priority
      → f.actions ≡ g.actions
  before f g [] h m x y le = absurd (not-mem-nil m)
  before f g (e ∷ fs) h m x y le =
      Or.elim (Actions-set _ _) (mem-cons.0 m)
        (λ q.
          settle (h.0 x (subst Matches q y)) (subst (λ z. rank f.priority ≤ rank z.priority) q le)
          ∙ ap (λ (z : Flow). z.actions) (sym q))
        (λ n. before f g fs h.1 n x y le)
    where
      settle :
          (rank e.priority < rank f.priority) ⊎ (f.actions ≡ e.actions)
          → rank f.priority ≤ rank e.priority
          → f.actions ≡ e.actions
      settle (inl lt) l = absurd (omega arith)
      settle (inr q) l = q

  -- A flow of the highest priority has the actions of the first statement.
  pub first-highest :
      (fs : List Flow) (f : Flow)
      → Ordered fs
      → Mem f fs
      → Matches f
      → ((g : Flow) → Mem g fs → Matches g → rank g.priority ≤ rank f.priority)
      → first p (map statement fs) ≡ f.actions
  unfolding first
  first-highest [] f o m x top = absurd (not-mem-nil m)
  first-highest (e ∷ fs) f o m x top = elim (Bool-cases (all_hold p e.matches)) [
    | inl y ↦ rw y (
        Or.elim (Actions-set _ _) (mem-cons.0 m) (λ q. ap (λ (z : Flow). z.actions) (sym q))
          (λ n. before e f fs o.0 n y x (top e mem-cons_self y)))
    | inr y ↦ rw y (
        Or.elim (Actions-set _ _) (mem-cons.0 m)
          (λ q. absurd (false≢true (sym y ∙ subst Matches q x)))
          (λ n. first-highest fs f o.1 n x (λ g i. top g (mem-cons_of_mem e i))))
  ]

  -- If no flow matches, no statement does.
  pub first_none :
      (fs : List Flow) → ((g : Flow) → Mem g fs → ¬ Matches g) → first p (map statement fs) ≡ []
  unfolding first
  first_none [] h = refl
  first_none (e ∷ fs) h = elim (Bool-cases (all_hold p e.matches)) [
    | inl y ↦ absurd (h e mem-cons_self y)
    | inr y ↦ rw y (first_none fs (λ g i. h g (mem-cons_of_mem e i)))
  ]
