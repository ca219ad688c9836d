-- ===== src/Etcd/Believed.antt =====
-- minion/etcd/elector.go: what the transactions of the election do to the flag of the leader.
use mathlib.Core.List.{mem-cons, mem-cons_self, not-mem-nil}
use mathlib.Core.List.Perm
use mathlib.Core.Logic.Or
use mathlib.Core.Bool.{Bool-set}
use mathlib.Core.Option.{some-injective}
use quilt.Prelude.{
  ℕ, ◌≡◌, ◌∙◌, refl, sym, ap, subst, Bool, true, Bool-cases, String, inl, inr, Option, none, some,
  List, [], ◌∷◌, ◌==◌, nat_eq, Perm, length, test_yes, test_no, arith, true≢false,
}
use quilt.Prelude.Perms.{perm-length}
use quilt.Maps.{Order}
use quilt.Db.Table.{View, find, store, commit, select}
use quilt.Db.Selects.{select_all-perm}
use quilt.Db.EtcdRows.{Etcd, Etcd-discrete, etcd_row, only_leads}
use quilt.Etcd.Elector.{commit_only, commit_leader, watch_leader, lead, note_leader}

only_leads-length : (rs : List Etcd) → only_leads rs ≡ true → length rs ≡ 1
only_leads-length [] h = absurd (true≢false (sym h))
only_leads-length (r ∷ []) h = refl
only_leads-length (r ∷ r' ∷ rs) h = absurd (true≢false (sym h))

unchanged :
    (v w : View Etcd) → some v ≡ some w → only_leads w.rows ≡ true → only_leads v.rows ≡ true
unchanged v w h k =
    subst (λ (x : View Etcd). only_leads x.rows ≡ true) (sym (some-injective _ _ h)) k

lead-leader : (leader : Bool) (ip : Option String) (r : Etcd) → (lead leader ip r).leader ≡ leader
lead-leader leader none r = refl
lead-leader leader (some ip) r = refl

only_row : (r : Etcd) (rs : List Etcd) → Perm (r ∷ []) rs → r.leader ≡ true → only_leads rs ≡ true
only_row r [] p h = absurd (omega (arith, perm-length p))
only_row r (r' ∷ r'' ∷ rs) p h = absurd (omega (arith, perm-length p))
only_row r (r' ∷ []) p h =
    Or.elim (Bool-set _ _) (mem-cons.0 ((Perm.mem_iff p).1 mem-cons_self))
      (λ e. ap (λ (x : Etcd). x.leader) e ∙ h) (λ m. absurd (not-mem-nil m))

-- If a commit of a row leaves a table whose only row leads, then the row leads.
commit_one-leads :
    (r r' : Etcd) (n : ℕ) (alert : Bool) (w : View Etcd)
    → commit etcd_row r (record { cur_id = n; rows = r' ∷ []; should_alert = alert }) ≡ some w
    → only_leads w.rows ≡ true
    → r.leader ≡ true
unfolding commit find store
commit_one-leads r r' n alert w h k = elim (Bool-cases (r'.id == r.id)) [
  | inr f ↦ ground arith
  | inl t ↦ elim (Etcd-discrete r r') [
    | yes p ↦ ground (arith, test_yes (Etcd-discrete r r') p)
    | no q ↦ ground (arith, test_no (Etcd-discrete r r') q)
  ]
]

commit-leads :
    (r : Etcd) (v w : View Etcd) (rs : List Etcd)
    → v.rows ≡ rs
    → length rs ≡ 1
    → commit etcd_row r v ≡ some w
    → only_leads w.rows ≡ true
    → r.leader ≡ true
commit-leads r v w [] e l h k = absurd (omega arith)
commit-leads r v w (r' ∷ r'' ∷ rs) e l h k = absurd (omega arith)
commit-leads r v w (r' ∷ []) e l h k =
    commit_one-leads r r' v.cur_id v.should_alert w
      (subst (λ x. commit etcd_row r x ≡ some w) (ap (λ (rs : List Etcd). record v { rows = rs }) e)
        h)
      k

-- A commit of the only row leaves a leader only if the change makes one, or if nothing was committed.
commit_only-leads :
    (change : Etcd → Etcd) (xs : List Etcd) (v w : View Etcd)
    → Perm xs v.rows
    → commit_only change xs v ≡ some w
    → only_leads w.rows ≡ true
    → (r : Etcd) × (xs ≡ r ∷ []) × ((change r).leader ≡ true)
commit_only-leads change [] v w p h k =
    absurd (omega (arith, perm-length p, only_leads-length v.rows (unchanged v w h k)))
commit_only-leads change (r ∷ r' ∷ xs) v w p h k =
    absurd (omega (arith, perm-length p, only_leads-length v.rows (unchanged v w h k)))
commit_only-leads change (r ∷ []) v w p h k =
    (r, refl, commit-leads (change r) v w v.rows refl (sym (perm-length p)) h k)

-- commitLeader with `false` leaves no leader.
pub commit_leader-leads :
    (o : Order) (leader : Bool) (ip : Option String) (v w : View Etcd)
    → commit_leader o leader ip v ≡ some w
    → only_leads w.rows ≡ true
    → leader ≡ true
unfolding commit_leader
commit_leader-leads o leader ip v w h k =
    let (r, _, e) =
      commit_only-leads (lead leader ip) (select etcd_row o (λ _. true) v) v w
        (select_all-perm etcd_row o v) h k in
    sym (lead-leader leader ip r) ∙ e

-- watchLeader does not change who leads.
pub watch_leader-leads :
    (o : Order) (leader : String) (v w : View Etcd)
    → watch_leader o leader v ≡ some w
    → only_leads w.rows ≡ true
    → only_leads v.rows ≡ true
unfolding watch_leader
watch_leader-leads o leader v w h k =
    let (r, q, e) =
      commit_only-leads (note_leader leader) (select etcd_row o (λ _. true) v) v w
        (select_all-perm etcd_row o v) h k in
    only_row r v.rows (subst (λ xs. Perm xs v.rows) q (select_all-perm etcd_row o v)) e
