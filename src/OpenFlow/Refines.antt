-- ===== src/OpenFlow/Refines.antt =====
-- The flows do to a packet what the pseudocode says.
use mathlib.Core.List.{not-mem-nil}
use quilt.Prelude.{
  ℕ, ◌≡◌, sym, ap, ◌∙◌, subst, inl, inr, Option-cases, and-true, true-and, List, Mem, filter,
}
use mathlib.Core.Path.{fun_ext}
use quilt.Prelude.Filters.{mem-filter}
use quilt.Maps.{Order}
use quilt.OpenFlow.Flows.{Action, Flow, Resolved, all_flows}
use quilt.OpenFlow.Switch.{Packet, all_hold, candidate, Chooser, actions_of, pipeline, send}
use quilt.OpenFlow.Pseudocode.{first, table_at, described}
use quilt.OpenFlow.Ordered.{Matches, first-highest, first_none}
use quilt.OpenFlow.Blocks.{at}
use quilt.OpenFlow.Tables.{flows_at, Same-flows_at}
use quilt.OpenFlow.Statements.{statements_at}
use quilt.OpenFlow.Priorities.{IsApart, Ordered-at}

module _ (chooser : Chooser) (o : Order) (cs : List Resolved) (p : Packet)
    (apart : IsApart cs) where
  abbrev candidates : ℕ → List Flow
  candidates t = filter (candidate t p) (all_flows o cs)

  candidate-flows_at :
      (t : ℕ) (f : Flow) → Mem f (candidates t) → Mem f (flows_at cs t) × Matches p f
  candidate-flows_at t f m =
      let (n, h) = (mem-filter (candidate t p) (all_flows o cs) f).0 m in
      let (x, y) = and-true (at t f) (all_hold p f.matches) h in
      ((Same-flows_at o cs t).0 f ((mem-filter (at t) (all_flows o cs) f).1 (n, x)), y)

  flows_at-candidate :
      (t : ℕ) (f : Flow) → Mem f (flows_at cs t) → Matches p f → Mem f (candidates t)
  flows_at-candidate t f m y =
      let (n, x) = (mem-filter (at t) (all_flows o cs) f).0 ((Same-flows_at o cs t).1 f m) in
      (mem-filter (candidate t p) (all_flows o cs) f).1
        (n, true-and (at t f) (all_hold p f.matches) x y)

  chosen-first : (t : ℕ) → actions_of (chooser.choose (candidates t)) ≡ first p (table_at cs t)
  chosen-first t = elim (Option-cases (chooser.choose (candidates t))) [
    | inl e ↦
        ap actions_of e
        ∙ sym (
            first_none p (flows_at cs t) (λ g m y.
              not-mem-nil (
                subst (Mem g) (chooser.choose-none (candidates t) e) (flows_at-candidate t g m y))))
        ∙ ap (first p) (statements_at cs t)
    | inr (f, e) ↦
        let (m, y) = candidate-flows_at t f (chooser.choose-mem (candidates t) f e) in
        ap actions_of e
        ∙ sym (
            first-highest p (flows_at cs t) f (Ordered-at p cs t apart) m y
              (λ g n x. chooser.choose-max (candidates t) f g e (flows_at-candidate t g n x)))
        ∙ ap (first p) (statements_at cs t)
  ]

-- If no two of the ports are the same and no two containers have the same MAC, then whichever flow of the
-- highest priority the switch executes, and in whatever order the flows were written, every packet goes exactly
-- where the pseudocode sends it.
pub send-described :
    (chooser : Chooser) (o : Order) (cs : List Resolved) (p : Packet)
    → IsApart cs
    → send chooser (all_flows o cs) p ≡ described cs p
unfolding send described
send-described chooser o cs p apart =
    ap (λ (chosen : ℕ → List Action). pipeline chosen 64 0 0)
      (fun_ext (chosen-first chooser o cs p apart))
