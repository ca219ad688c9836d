-- ===== src/Foreman/Dropped.antt =====
-- cloud/foreman/foreman.go: what the second loop of `updateMinionMap` does to the map and to the clients.
use mathlib.Core.List.{
  mem-cons, mem-cons_self, not-mem-nil, Mem-prop, Nodup-cons, mem-append, append-nil, append_assoc,
}
use mathlib.Core.Logic.Or
use quilt.Prelude.{
  ℕ, ◌≡◌, ◌≢◌, ◌∙◌, refl, sym, ap, subst, inl, inr, Bool, true, false, Bool-cases, Option, none,
  some, Option-cases, String, List, [], ◌∷◌, ◌++◌, Mem, Nodup, string_discrete, test_yes, test_no,
  if◌then◌else◌,
}
use quilt.Maps.{Map, get, keys, get-delete, get_absent, put-Nodup, delete-Nodup}
use quilt.Db.Rows.{Machine}
use quilt.Foreman.Minions.{Minion, World, unmark, mark_one, mark_each, sweep_one, sweep_each}
use quilt.Foreman.Sweep.{found, found-put_same, found-put_other}

module _ {Client : Type 0} (new_client : ℕ → String → Option Client) where
  -- The minion of an address after the second loop, by what the loop found for it.
  abbrev pub after_sweep : Option (Minion Client) → Option (Minion Client) → Option (Minion Client)
  after_sweep none x = x
  after_sweep (some v) x = if v.mark then some (unmark v) else none

  sweep_one-other :
      (j k : String) (v : Minion Client) (w : World Client)
      → j ≢ k
      → found new_client (sweep_one new_client j v w) k ≡ found new_client w k
  unfolding sweep_one
  sweep_one-other j k v w d = elim (Bool-cases (v.mark)) [
    | inl e ↦ rw (sweep_one, e) (found-put_other new_client w j k (unmark v) d)
    | inr e ↦
        rw (sweep_one, e)
          (get-delete string_discrete (w.minions) j k ∙ rw (test_no (string_discrete j k) d))
  ]

  sweep_one-same :
      (k : String) (v : Minion Client) (w : World Client) (x : Option (Minion Client))
      → found new_client (sweep_one new_client k v w) k ≡ after_sweep (some v) x
  unfolding sweep_one
  sweep_one-same k v w x = elim (Bool-cases (v.mark)) [
    | inl e ↦ rw (sweep_one, e) (found-put_same new_client w k (unmark v))
    | inr e ↦
        rw (sweep_one, e)
          (get-delete string_discrete (w.minions) k k ∙ rw (test_yes (string_discrete k k) refl))
  ]

  pub sweep_each-found :
      (es : Map String (Minion Client)) (w : World Client) (k : String)
      → Nodup (keys es)
      → found new_client (sweep_each new_client es w) k
        ≡ after_sweep (get string_discrete es k) (found new_client w k)
  unfolding sweep_each get
  sweep_each-found [] w k d = refl
  sweep_each-found ((j, v) ∷ es) w k d =
      let (n, e) = Nodup-cons.0 d in
      let rest = sweep_each-found es (sweep_one new_client j v w) k e in
      elim (string_discrete j k) [
        | yes p ↦
            rest
            ∙ rw
                (
                  test_yes (string_discrete j k) p,
                  get_absent string_discrete es k (λ c. n (subst (λ x. Mem x (keys es)) (sym p) c)),
                  ← p,
                )
                (sweep_one-same j v w (found new_client w j))
        | no c ↦
            rest
            ∙ rw (test_no (string_discrete j k) c)
                (ap (after_sweep (get string_discrete es k)) (sweep_one-other j k v w c))
      ]

  mark_one-Nodup :
      (m : Machine) (w : World Client)
      → Nodup (keys (w.minions))
      → Nodup (keys ((mark_one new_client m w).minions))
  unfolding mark_one
  mark_one-Nodup m w d = elim (Option-cases (found new_client w (m.public_ip))) [
    | inr (o, e) ↦ rw (mark_one, e) (put-Nodup string_discrete (w.minions) (m.public_ip) _ d)
    | inl e ↦ elim (Option-cases (new_client (w.calls) (m.public_ip))) [
      | inl f ↦ rw (mark_one, e, f) d
      | inr (c, f) ↦ rw (mark_one, e, f) (put-Nodup string_discrete (w.minions) (m.public_ip) _ d)
    ]
  ]

  pub mark_each-Nodup :
      (ms : List Machine) (w : World Client)
      → Nodup (keys (w.minions))
      → Nodup (keys ((mark_each new_client ms w).minions))
  unfolding mark_each
  mark_each-Nodup [] w d = d
  mark_each-Nodup (m ∷ ms) w d = mark_each-Nodup ms (mark_one new_client m w) (mark_one-Nodup m w d)

  sweep_one-Nodup :
      (k : String) (v : Minion Client) (w : World Client)
      → Nodup (keys (w.minions))
      → Nodup (keys ((sweep_one new_client k v w).minions))
  unfolding sweep_one
  sweep_one-Nodup k v w d = elim (Bool-cases (v.mark)) [
    | inl e ↦ rw (sweep_one, e) (put-Nodup string_discrete (w.minions) k (unmark v) d)
    | inr e ↦ rw (sweep_one, e) (delete-Nodup string_discrete (w.minions) k d)
  ]

  pub sweep_each-Nodup :
      (es : Map String (Minion Client)) (w : World Client)
      → Nodup (keys (w.minions))
      → Nodup (keys ((sweep_each new_client es w).minions))
  unfolding sweep_each
  sweep_each-Nodup [] w d = d
  sweep_each-Nodup ((k, v) ∷ es) w d =
      sweep_each-Nodup es (sweep_one new_client k v w) (sweep_one-Nodup k v w d)

  -- The clients of the minions without a mark.
  unfoldable pub dropped : Map String (Minion Client) → List Client
  dropped [] = []
  dropped ((k, v) ∷ es) = (if v.mark then [] else v.client ∷ []) ++ dropped es

  pub sweep_each-closed :
      (es : Map String (Minion Client)) (w : World Client)
      → (sweep_each new_client es w).closed ≡ w.closed ++ dropped es
  unfolding sweep_each dropped sweep_one
  sweep_each-closed [] w = sym (append-nil (w.closed))
  sweep_each-closed ((k, v) ∷ es) w =
      sweep_each-closed es (sweep_one new_client k v w) ∙ step (v.mark) refl
    where
      step :
          (b : Bool)
          → v.mark ≡ b
          → (sweep_one new_client k v w).closed ++ dropped es
            ≡ w.closed ++ ((if v.mark then [] else v.client ∷ []) ++ dropped es)
      step true e = rw e refl
      step false e = rw e (append_assoc (w.closed) (v.client ∷ []) (dropped es))

  pub mem-dropped :
      (es : Map String (Minion Client)) (k : String) (v : Minion Client)
      → Mem (k, v) es
      → v.mark ≡ false
      → Mem (v.client) (dropped es)
  unfolding dropped
  mem-dropped [] k v m e = absurd (not-mem-nil m)
  mem-dropped ((j, u) ∷ es) k v m e =
      Or.elim Mem-prop (mem-cons.0 m)
        (λ q. mem-append.1 (Or.inl (head (ap (λ (x : String × Minion Client). x.1) q))))
        (λ c. mem-append.1 (Or.inr (mem-dropped es k v c e)))
    where
      head : v ≡ u → Mem (v.client) (if u.mark then [] else u.client ∷ [])
      head q = rw (← q, e) mem-cons_self
