-- ===== src/Foreman/Kept.antt =====
-- cloud/foreman/foreman.go: the mark and sweep of `updateMinionMap` as a whole.
use mathlib.Core.HLevel.{hedberg}
use mathlib.Core.Option.{some-injective}
use mathlib.Core.Option
use mathlib.Core.List.{mem-append}
use mathlib.Core.List.Perm
use mathlib.Core.Logic.Or
use quilt.Prelude.{
  ℕ, ◌≡◌, ◌∙◌, refl, sym, ap, subst, inl, inr, false, Option, none, some, String, List, Mem, Nodup,
  Perm, string_discrete, ℕ_discrete,
}
use quilt.Maps.{Map, Order, keys, get-perm, get-some-mem}
use quilt.Db.Rows.{Machine}
use quilt.Foreman.Minions.{Minion, World, mark_each, sweep_each, update_minion_map}
use quilt.Foreman.Sweep.{found, Same, NotListed, Marked, mark_each-Marked}
use quilt.Foreman.Dropped.{
  after_sweep, sweep_each-found, mark_each-Nodup, sweep_each-Nodup, sweep_each-closed, mem-dropped,
}

module _ {Client : Type 0} (new_client : ℕ → String → Option Client) where
  -- The minion of an address before and after `updateMinionMap`.
  abbrev pub Kept :
      List Machine → String → List Client → Option (Minion Client) → Option (Minion Client) → Type 0
  Kept ms k closed none none = Marked new_client ms k none none
  Kept ms k closed none (some n) =
      (n.mark ≡ false) × ((Mem (n.machine) ms × (n.machine.public_ip ≡ k)) × (n.connected ≡ false))
  Kept ms k closed (some o) none = NotListed new_client ms k × Mem (o.client) closed
  Kept ms k closed (some o) (some n) =
      Same new_client o n × ((n.mark ≡ false) × (Mem (n.machine) ms × (n.machine.public_ip ≡ k)))

  finish :
      (ms : List Machine) (k : String) (closed : List Client) (old marked : Option (Minion Client))
      → Marked new_client ms k old marked
      → ((v : Minion Client) → old ≡ some v → v.mark ≡ false)
      → ((v : Minion Client) → marked ≡ some v → v.mark ≡ false → Mem (v.client) closed)
      → Kept ms k closed old (after_sweep new_client marked marked)
  finish ms k closed none none h u c = h
  finish ms k closed none (some n) ((f, g), b) u c = rw f (refl, (g, b))
  finish ms k closed (some o) none h u c = absurd (h tt)
  finish ms k closed (some o) (some n) (s, inl (f, g)) u c = rw f (s, (refl, g))
  finish ms k closed (some o) (some n) (s, inr (e, l)) u c =
      let unmarked = ap (λ (x : Minion Client). x.mark) e ∙ u o refl in
      rw unmarked (l, rw (s.0) at (c n refl unmarked))

  abbrev pub AllUnmarked : World Client → Type 0
  AllUnmarked w = (k : String) (v : Minion Client) → found new_client w k ≡ some v → v.mark ≡ false

  module _ (dec : Discrete Client) where
    Minion-discrete : Discrete (Minion Client)
    Minion-discrete = hlevel (dec, ℕ_discrete, string_discrete)

    Minion-IsSet : IsSet (Option (Minion Client))
    Minion-IsSet = hedberg (Option.discrete Minion-discrete)

    -- On a map without marks, updateMinionMap keeps the minion of every address that some machine has, with
    -- its client, connection and config; it closes and drops the minions of all other addresses; it takes
    -- in a new, unconnected minion for an address that some machine has, unless a call of newClient for it
    -- failed; each minion is left without a mark and with a machine of the list that has its address.
    pub update_minion_map-Kept :
        (o : Order) (ms : List Machine) (w : World Client) (k : String)
        → Nodup (keys (w.minions))
        → AllUnmarked w
        → Kept ms k
            ((update_minion_map new_client o ms w).closed)
            (found new_client w k)
            (found new_client (update_minion_map new_client o ms w) k)
    unfolding update_minion_map
    update_minion_map-Kept o ms w k d u =
        subst (Kept ms k final.closed (found new_client w k)) (sym last) (
          finish ms k final.closed (found new_client w k) (found new_client marked k)
            (mark_each-Marked new_client ms w k) (u k) gone)
      where
        marked : World Client
        marked = mark_each new_client ms w

        es : Map String (Minion Client)
        es = o.range (String × Minion Client) (marked.minions)

        final : World Client
        final = sweep_each new_client es marked

        es-perm : Perm es (marked.minions)
        es-perm = o.range-perm (String × Minion Client) (marked.minions)

        distinct : Nodup (keys es)
        distinct =
            Perm.nodup (Perm.symm (Perm.map (λ (e : String × Minion Client). e.0) es-perm))
              (mark_each-Nodup new_client ms w d)

        last :
            found new_client final k
            ≡ after_sweep new_client (found new_client marked k) (found new_client marked k)
        last =
            sweep_each-found new_client es marked k distinct
            ∙ ap (λ x. after_sweep new_client x (found new_client marked k))
                (get-perm string_discrete Minion-IsSet es (marked.minions) k distinct
                  (mark_each-Nodup new_client ms w d) es-perm)

        gone :
            (v : Minion Client)
            → found new_client marked k ≡ some v
            → v.mark ≡ false
            → Mem (v.client) final.closed
        gone v e f = rw (sweep_each-closed new_client es marked) (
            mem-append.1 (
              Or.inr (
                mem-dropped new_client es k v
                  ((Perm.mem_iff es-perm).1 (get-some-mem string_discrete (marked.minions) k v e))
                  f)))

    Kept-unmarked :
        (ms : List Machine) (k : String) (closed : List Client) (old new : Option (Minion Client))
        (v : Minion Client)
        → Kept ms k closed old new
        → new ≡ some v
        → v.mark ≡ false
    Kept-unmarked ms k closed old none v h e = absurd (cc e)
    Kept-unmarked ms k closed none (some n) v h e =
        ap (λ (x : Minion Client). x.mark) (some-injective _ _ (sym e)) ∙ h.0
    Kept-unmarked ms k closed (some o) (some n) v h e =
        ap (λ (x : Minion Client). x.mark) (some-injective _ _ (sym e)) ∙ h.1.0

    -- updateMinionMap leaves no mark and no address twice.
    pub update_minion_map-valid :
        (o : Order) (ms : List Machine) (w : World Client)
        → Nodup (keys (w.minions))
        → AllUnmarked w
        → Nodup (keys ((update_minion_map new_client o ms w).minions))
          × AllUnmarked (update_minion_map new_client o ms w)
    unfolding update_minion_map
    update_minion_map-valid o ms w d u = (
      sweep_each-Nodup new_client
          (o.range (String × Minion Client) ((mark_each new_client ms w).minions))
          (mark_each new_client ms w) (mark_each-Nodup new_client ms w d),
      λ k v e.
          Kept-unmarked ms k _ (found new_client w k) _ v (update_minion_map-Kept o ms w k d u) e,
    )
