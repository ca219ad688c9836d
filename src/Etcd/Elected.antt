-- ===== src/Etcd/Elected.antt =====
-- minion/etcd/elector.go: who leads while the lease of the key lasts.
use mathlib.Core.Option.{some-injective}
use quilt.Prelude.{
  ℕ, ◌≡◌, ◌≢◌, ◌≤◌, ◌∙◌, refl, sym, ap, subst, true, false, Bool-cases, inl, inr, Option, none,
  some, String, List, [], ◌∷◌, ◌==◌, nat_eq, string_eq, eq_iff, arith, true≢false,
}
use quilt.Prelude.Text.{nat_beq_iff}
use quilt.Maps.{Order}
use quilt.Db.Table.{View}
use quilt.Db.Rows.{Role}
use quilt.Db.EtcdRows.{Etcd, only_leads}
use quilt.Etcd.Elector.{
  Call, create_key, refresh_key, Answer, success, node_exist, failure, campaign_call, call_for,
  campaign_end,
}
use quilt.Etcd.Election.{
  serve, Phase, waiting, answered, State, start, set_at, Step, campaign, lose, finish, watch,
  configure, expire, Reach, here, next,
}
use quilt.Etcd.Believed.{commit_leader-leads, watch_leader-leads}

abbrev address : Call → String
address (create_key a) = a
address (refresh_key a) = a

-- A call never takes the key from its holder, and one that succeeds leaves it with the caller.
serve-keeps : (c : Call) (k : Option String) (x : String) → k ≡ some x → (serve c k).1 ≡ some x
serve-keeps (create_key a) none x h = absurd (cc)
serve-keeps (create_key a) (some y) x h = h
serve-keeps (refresh_key a) none x h = absurd (cc)
serve-keeps (refresh_key a) (some y) x h = ground arith

serve-success :
    (c : Call) (k : Option String) → (serve c k).0 ≡ success → (serve c k).1 ≡ some (address c)
serve-success (create_key a) none h = refl
serve-success (create_key a) (some y) h = cc
serve-success (refresh_key a) none h = cc
serve-success (refresh_key a) (some y) h = ground (arith, eq_iff y a)

call_for-address :
    (ip : String) (rows : List Etcd) (c : Call) → call_for ip rows ≡ some c → address c ≡ ip
call_for-address ip [] c h = absurd (cc)
call_for-address ip (r ∷ []) c h = ground arith
call_for-address ip (r ∷ r' ∷ rows) c h = absurd (cc)

campaign_call-address :
    (role : Role) (ip : String) (rows : List Etcd) (c : Call)
    → campaign_call role ip rows ≡ some c
    → address c ≡ ip
unfolding campaign_call
campaign_call-address role ip rows c h = ground (arith, call_for-address ip rows c)

answered-eq : (a b : Answer) (m n : ℕ) → answered a m ≡ answered b n → (a ≡ b) × (m ≡ n)
answered-eq a b m n h = ground arith

no_success : {A : Type 0} → failure ≡ success → A
no_success h = cc

module _ (o : Order) (ip : ℕ → String) where
  -- A success of the lease `e`: if the lease lasts, the minion holds the key.
  abbrev IsHeld : ℕ → Option String → ℕ → ℕ → Type 0
  IsHeld leases key i e = (e ≤ leases) × (e ≡ leases → key ≡ some (ip i))

  abbrev Inv : State → Type 0
  Inv s =
      (i : ℕ)
      → ((e : ℕ) → s.phase i ≡ answered success e → IsHeld s.leases s.key i e)
        × (only_leads (s.table i).rows ≡ true → IsHeld s.leases s.key i (s.noted i))

  start-Inv : Inv start
  start-Inv i = (λ e h. absurd (cc), λ h. cc)

  -- A step that keeps the holder of the key and changes the phase of one minion.
  module _ (s : State) (inv : Inv s) (key' : Option String)
      (keeps : (x : String) → s.key ≡ some x → key' ≡ some x) where
    held : (i e : ℕ) → IsHeld s.leases s.key i e → IsHeld s.leases key' i e
    held i e h = (h.0, λ q. keeps (ip i) (h.1 q))

    phase-Inv :
        (i : ℕ) (a : Answer)
        → (a ≡ success → key' ≡ some (ip i))
        → Inv (record s { key = key'; phase = set_at s.phase i (answered a s.leases) })
    phase-Inv i a won j = elim (Bool-cases (j == i)) [
      | inr f ↦ (λ e h. held j e ((inv j).0 e (rw f at h)), λ h. held j (s.noted j) ((inv j).1 h))
      | inl t ↦ (
        λ e h.
            let (q, r) = answered-eq a success s.leases e (rw t at h) in
            (omega arith, λ p. won q ∙ ap (λ n. some (ip n)) (sym ((nat_beq_iff j i).0 t))),
        λ h. held j (s.noted j) ((inv j).1 h),
      )
    ]

  -- A change of one table that makes no leader, or the leader of the lease that is noted.
  table-Inv :
      (s : State)
      → Inv s
      → (i n : ℕ) (p : Phase) (v : View Etcd) → ((e : ℕ) → p ≡ answered success e → s.phase i ≡ p)
      → (only_leads v.rows ≡ true → IsHeld s.leases s.key i n)
      → Inv (record s {
        table = set_at s.table i v;
        phase = set_at s.phase i p;
        noted = set_at s.noted i n;
      })
  table-Inv s inv i n p v same leads j = elim (Bool-cases (j == i)) [
    | inr f ↦ (λ e h. (inv j).0 e (rw f at h), λ h. rw f ((inv j).1 (rw f at h)))
    | inl t ↦
        let q = (nat_beq_iff j i).0 t in
        (
          λ e h.
              let h' = rw t at h in
              subst (λ k. IsHeld s.leases s.key k e) (sym q) ((inv i).0 e (same e h' ∙ h')),
          λ h. rw t (subst (λ k. IsHeld s.leases s.key k n) (sym q) (leads (rw t at h))),
        )
  ]

  set_at_self : {A : Type 0} (f : ℕ → A) (i j : ℕ) → set_at f i (f i) j ≡ f j
  set_at_self f i j = elim (Bool-cases (j == i)) [
    | inl t ↦ rw t (ap f (sym ((nat_beq_iff j i).0 t)))
    | inr n ↦ rw n refl
  ]

  -- A change of one table alone that makes no leader.
  rows-Inv :
      (s : State)
      → Inv s
      → (i : ℕ) (v : View Etcd) → (only_leads v.rows ≡ true → only_leads (s.table i).rows ≡ true)
      → Inv (record s { table = set_at s.table i v })
  rows-Inv s inv i v less j =
      let (a, b) =
        table-Inv s inv i (s.noted i) (s.phase i) v (λ e h. refl) (λ h. (inv i).1 (less h)) j in
      (
        λ e h. a e (set_at_self s.phase i j ∙ h),
        λ h. subst (IsHeld s.leases s.key j) (set_at_self s.noted i j) (b h),
      )

  Step-Inv : (s t : State) → Inv s → Step o ip s t → Inv t
  unfolding campaign_end
  Step-Inv s t inv (campaign i role c w q e) = subst Inv (sym e) (
      phase-Inv s inv (serve c s.key).1 (serve-keeps c s.key) i (serve c s.key).0
        (λ h. serve-success c s.key h ∙ ap some (campaign_call-address role (ip i) _ c q)))
  Step-Inv s t inv (lose i role c key' w q (inl k) e) =
      subst Inv (sym e) (phase-Inv s inv key' (λ x h. k ∙ h) i failure (λ h. no_success h))
  Step-Inv s t inv (lose i role c key' w q (inr k) e) =
      subst Inv (sym e)
        (phase-Inv s inv key' (λ x h. k ∙ serve-keeps c s.key x h) i failure (λ h. no_success h))
  Step-Inv s t inv (finish i success lease v p h e) =
      subst Inv (sym e)
        (table-Inv s inv i lease waiting v (λ n x. absurd (cc)) (λ x. (inv i).0 lease p))
  Step-Inv s t inv (finish i node_exist lease v p h e) = subst Inv (sym e) (
      table-Inv s inv i lease waiting v (λ n x. absurd (cc))
        (λ x. absurd (true≢false (sym (commit_leader-leads o false none (s.table i) v h x)))))
  Step-Inv s t inv (finish i failure lease v p h e) = subst Inv (sym e) (
      table-Inv s inv i lease waiting v (λ n x. absurd (cc))
        (λ x. absurd (true≢false (sym (commit_leader-leads o false (some "") (s.table i) v h x)))))
  Step-Inv s t inv (watch i leader v h e) =
      subst Inv (sym e) (rows-Inv s inv i v (watch_leader-leads o leader (s.table i) v h))
  Step-Inv s t inv (configure i v less e) = subst Inv (sym e) (rows-Inv s inv i v less)
  Step-Inv s t inv (expire e) = subst Inv (sym e) λ i. (
    λ n h. let x = ((inv i).0 n h).0 in (omega arith, λ q. absurd (omega arith)),
    λ h. let x = ((inv i).1 h).0 in (omega arith, λ q. absurd (omega arith)),
  )

  Reach-Inv : {s : State} → Reach o ip s → Inv s
  Reach-Inv here = start-Inv
  Reach-Inv (next {s} {t} r st) = Step-Inv s t (Reach-Inv r) st

-- The table of the minion says that it leads, and the last outcome that the minion has noted, won or lost, was
-- answered in the lease that lasts.
abbrev pub Leads : State → ℕ → Type 0
Leads s i = (only_leads (s.table i).rows ≡ true) × (s.noted i ≡ s.leases)

-- Among the minions that have noted the outcome, won or lost, of a campaign that was answered in the lease of the
-- key that lasts, at most one has a table that says it leads, whoever campaigns, reads the key and loses answers
-- in whatever order; addresses are distinct. So one that led in an earlier lease and has campaigned again does
-- not lead beside the new leader; until then its table may still say that it leads.
pub one_leader :
    (o : Order) (ip : ℕ → String)
    → ((i j : ℕ) → ip i ≡ ip j → i ≡ j)
    → {s : State} → Reach o ip s
    → (i j : ℕ) → i ≢ j
    → Leads s i
    → ¬ Leads s j
one_leader o ip distinct {s} r i j ne (a, b) (c, d) =
    let p = ((Reach-Inv o ip r i).1 a).1 b in
    let q = ((Reach-Inv o ip r j).1 c).1 d in ne (distinct i j (some-injective _ _ (sym p ∙ q)))
