-- ===== src/Foreman/Sweep.antt =====
-- cloud/foreman/foreman.go: what the loops of `updateMinionMap` do to the minion of one address.
use mathlib.Core.List.{mem-cons, mem-cons_of_mem, not-mem-nil}
use mathlib.Core.HLevel.{⊥_prop}
use mathlib.Core.Logic.{∥∥₁_prop}
use mathlib.Core.Logic.Or
use quilt.Prelude.{
  ℕ, ◌≡◌, ◌≢◌, ◌∙◌, refl, sym, ap, subst, ◌⊎◌, inl, inr, true, false, Option, none, some,
  Option-cases, String, List, [], ◌∷◌, Mem, string_discrete, test, test_yes, test_no, if◌then◌else◌,
}
use quilt.Maps.{get, put, get-put}
use quilt.Db.Rows.{Machine}
use quilt.Foreman.Minions.{Minion, World, new_minion, touch, mark_one, mark_each}

module _ {Client : Type 0} (new_client : ℕ → String → Option Client) where
  abbrev pub found : World Client → String → Option (Minion Client)
  found w k = get string_discrete (w.minions) k

  -- The minion has been given a machine of the list with its address.
  abbrev pub IsFresh : List Machine → String → Minion Client → Type 0
  IsFresh ms k n = (n.mark ≡ true) × (Mem (n.machine) ms × (n.machine.public_ip ≡ k))

  -- Only the machine and the mark have changed.
  abbrev pub Same : Minion Client → Minion Client → Type 0
  Same o n = (n.client ≡ o.client) × ((n.connected ≡ o.connected) × (n.config ≡ o.config))

  abbrev pub NotListed : List Machine → String → Type 0
  NotListed ms k = (m : Machine) → Mem m ms → m.public_ip ≢ k

  -- The minion of an address before and after the first loop.
  abbrev pub Marked :
      List Machine → String → Option (Minion Client) → Option (Minion Client) → Type 0
  Marked ms k none none =
      (m : Machine) → Mem m ms → m.public_ip ≡ k → ∥ ((n : ℕ) × (new_client n k ≡ none)) ∥₁
  Marked ms k none (some n) = IsFresh ms k n × (n.connected ≡ false)
  Marked ms k (some o) none = ¬ Unit
  Marked ms k (some o) (some n) = Same o n × (IsFresh ms k n ⊎ ((n ≡ o) × NotListed ms k))

  found-put :
      (w : World Client) (j k : String) (v : Minion Client)
      → get string_discrete (put string_discrete (w.minions) j v) k
        ≡ (if test (string_discrete j k) then some v else found w k)
  found-put w j k v = get-put string_discrete (w.minions) j k v

  weaken :
      (m : Machine) (ms : List Machine) (k : String)
      → m.public_ip ≢ k
      → (old new : Option (Minion Client)) → Marked ms k old new
      → Marked (m ∷ ms) k old new
  weaken m ms k d none none h = λ x c e.
      Or.elim ∥∥₁_prop (mem-cons.0 c)
        (λ p. absurd (d (subst (λ (y : Machine). y.public_ip ≡ k) p e))) (λ c'. h x c' e)
  weaken m ms k d none (some n) ((f, (g, i)), c) = ((f, (mem-cons_of_mem m g, i)), c)
  weaken m ms k d (some o) none h = absurd (h tt)
  weaken m ms k d (some o) (some n) (s, inl (f, (g, i))) = (s, inl (f, (mem-cons_of_mem m g, i)))
  weaken m ms k d (some o) (some n) (s, inr (e, l)) = (
    s,
    inr (
      e,
      λ x c q.
          Or.elim ⊥_prop (mem-cons.0 c) (λ p. d (subst (λ (y : Machine). y.public_ip ≡ k) p q))
            (λ c'. l x c' q),
    ),
  )

  pub found-put_same :
      (w : World Client) (k : String) (v : Minion Client)
      → get string_discrete (put string_discrete (w.minions) k v) k ≡ some v
  found-put_same w k v = found-put w k k v ∙ rw (test_yes (string_discrete k k) refl)

  pub found-put_other :
      (w : World Client) (j k : String) (v : Minion Client)
      → j ≢ k
      → get string_discrete (put string_discrete (w.minions) j v) k ≡ found w k
  found-put_other w j k v d = found-put w j k v ∙ rw (test_no (string_discrete j k) d)

  mark_one-other :
      (m : Machine) (w : World Client) (k : String)
      → m.public_ip ≢ k
      → found (mark_one new_client m w) k ≡ found w k
  unfolding mark_one
  mark_one-other m w k d = elim (Option-cases (found w (m.public_ip))) [
    | inr (o, e) ↦ rw (mark_one, e) (found-put_other w (m.public_ip) k (touch m o) d)
    | inl e ↦ elim (Option-cases (new_client (w.calls) (m.public_ip))) [
      | inl f ↦ rw (mark_one, e, f) refl
      | inr (c, f) ↦
          rw (mark_one, e, f) (found-put_other w (m.public_ip) k (touch m (new_minion c)) d)
    ]
  ]

  mark_one-known :
      (m : Machine) (w : World Client) (o : Minion Client)
      → found w (m.public_ip) ≡ some o
      → found (mark_one new_client m w) (m.public_ip) ≡ some (touch m o)
  unfolding mark_one
  mark_one-known m w o e = rw (mark_one, e) (found-put_same w (m.public_ip) (touch m o))

  mark_one-new :
      (m : Machine) (w : World Client)
      → found w (m.public_ip) ≡ none
      → ((new_client (w.calls) (m.public_ip) ≡ none)
          × (found (mark_one new_client m w) (m.public_ip) ≡ none))
        ⊎ ((c : Client) × (found (mark_one new_client m w) (m.public_ip)
              ≡ some (touch m (new_minion c))))
  unfolding mark_one
  mark_one-new m w e = elim (Option-cases (new_client (w.calls) (m.public_ip))) [
    | inl f ↦ inl (f, rw (mark_one, e, f) e)
    | inr (c, f) ↦
        inr (c, rw (mark_one, e, f) (found-put_same w (m.public_ip) (touch m (new_minion c))))
  ]

  -- A minion that was just given the machine `m`, and what the rest of the machines do to it.
  touched :
      (m : Machine) (ms : List Machine) (k : String) (o : Minion Client)
      (new : Option (Minion Client))
      → m.public_ip ≡ k
      → Marked ms k (some (touch m o)) new
      → (n : Minion Client) × (new ≡ some n) × Same o n × IsFresh (m ∷ ms) k n
  touched m ms k o none q h = absurd (h tt)
  touched m ms k o (some n) q (s, inl (f, (g, i))) = (n, refl, s, (f, (mem-cons_of_mem m g, i)))
  touched m ms k o (some n) q (s, inr (e, l)) = (
    n,
    refl,
    s,
    (
      ap (λ (x : Minion Client). x.mark) e,
      (
        mem-cons.1 (Or.inl (ap (λ (x : Minion Client). x.machine) e)),
        ap (λ (x : Minion Client). x.machine.public_ip) e ∙ q,
      ),
    ),
  )

  -- The minion of an address after the machine `m` and then the machines `ms`, by what it was after `m`.
  step_Marked :
      (m : Machine) (ms : List Machine) (w : World Client) (new : Option (Minion Client))
      → Marked ms (m.public_ip) (found (mark_one new_client m w) (m.public_ip)) new
      → Marked (m ∷ ms) (m.public_ip) (found w (m.public_ip)) new
  step_Marked m ms w new h = elim (Option-cases (found w (m.public_ip))) [
    | inr (o, e) ↦
        let (n, q, s, f) =
          touched m ms (m.public_ip) o new refl
            (subst (λ x. Marked ms (m.public_ip) x new) (mark_one-known m w o e) h) in
        subst (λ x. Marked (m ∷ ms) (m.public_ip) x new) (sym e)
          (subst (Marked (m ∷ ms) (m.public_ip) (some o)) (sym q) (s, inl f))
    | inl e ↦
        subst (λ x. Marked (m ∷ ms) (m.public_ip) x new) (sym e)
          (elim (mark_one-new m w e) [
            | inl (f, g) ↦ refused f new (subst (λ x. Marked ms (m.public_ip) x new) g h)
            | inr (c, g) ↦
                let (n, q, s, f) =
                  touched m ms (m.public_ip) (new_minion c) new refl
                    (subst (λ x. Marked ms (m.public_ip) x new) g h) in
                subst (Marked (m ∷ ms) (m.public_ip) none) (sym q) (f, s.1.0)
          ])
  ]
    where
      refused :
          new_client (w.calls) (m.public_ip) ≡ none
          → (x : Option (Minion Client)) → Marked ms (m.public_ip) none x
          → Marked (m ∷ ms) (m.public_ip) none x
      refused f none h =
          λ x c e. Or.elim ∥∥₁_prop (mem-cons.0 c) (λ p. ∣ (w.calls, f) ∣₁) (λ c'. h x c' e)
      refused f (some n) ((a, (g, i)), c) = ((a, (mem-cons_of_mem m g, i)), c)

  not_listed : (k : String) (old : Option (Minion Client)) → Marked [] k old old
  not_listed k none = λ m c e. absurd (not-mem-nil c)
  not_listed k (some o) = ((refl, (refl, refl)), inr (refl, λ m c. absurd (not-mem-nil c)))

  pub mark_each-Marked :
      (ms : List Machine) (w : World Client) (k : String)
      → Marked ms k (found w k) (found (mark_each new_client ms w) k)
  unfolding mark_each
  mark_each-Marked [] w k = not_listed k (found w k)
  mark_each-Marked (m ∷ ms) w k =
      let rest = mark_each-Marked ms (mark_one new_client m w) k in
      elim (string_discrete (m.public_ip) k) [
        | yes p ↦
            subst
              (λ x.
                Marked (m ∷ ms) x (found w x)
                  (found (mark_each new_client ms (mark_one new_client m w)) k))
              p
              (step_Marked m ms w _ (
                subst
                  (λ x.
                    Marked ms x (found (mark_one new_client m w) x)
                      (found (mark_each new_client ms (mark_one new_client m w)) k))
                  (sym p) rest))
        | no d ↦ weaken m ms k d _ _ (
            subst (λ x. Marked ms k x (found (mark_each new_client ms (mark_one new_client m w)) k))
              (mark_one-other m w k d) rest)
      ]
