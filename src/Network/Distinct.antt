-- ===== src/Network/Distinct.antt =====
-- minion/network/ip.go: the table and the reserved addresses after `allocateContainerIPs`.
use mathlib.Core.HLevel.{⊥_prop}
use mathlib.Core.List.{
  Nodup-nil, Nodup-cons, not-mem-nil, mem-cons, mem-cons_self, mem-cons_of_mem, perm_middle,
  mem-append, map-append, append-nil,
}
use mathlib.Core.List.Perm
use mathlib.Core.Logic.Or
use quilt.Prelude.{
  ℕ, suc, ◌≡◌, ◌∙◌, refl, sym, ap, subst, inl, inr, true, false, some, String, List, [], ◌∷◌, ◌++◌,
  map, Mem, Nodup, Perm, All, arith,
}
use quilt.Db.Table.{View}
use quilt.Db.Changes.{commit_lem}
use quilt.Db.MinionRows.{Container, container_row}
use quilt.Network.Addresses.{quilt_subnet, Allocation, allocate_container_ips}
use quilt.Network.Allocate.{InSubnet, allocate_ip_lem}

abbrev ids : List Container → List ℕ
ids = map (λ (c : Container). c.id)

abbrev pub ips : List Container → List String
ips = map (λ (c : Container). c.ip)

module _ (print : ℕ → String) (random : ℕ → ℕ) where
  -- The address is one of the Quilt subnet, and was not reserved.
  abbrev pub IsFreshIp : List String → Container → Type 0
  IsFreshIp reserved c =
      (¬ Mem c.ip reserved) × ((n : ℕ) × InSubnet quilt_subnet n × (c.ip ≡ print n))

  -- What the loop leaves of the rows `olds`, the other rows being `rest`.
  abbrev pub IsAllocated : List String → List ℕ → List Container → Allocation Container → Type 0
  IsAllocated reserved asked rest a =
      (new : List Container) × (left : List Container) × Perm a.view.rows (new ++ (left ++ rest))
      × (ids new ++ ids left ≡ asked)
      × Nodup (ips new)
      × All (IsFreshIp reserved) new
      × (a.ok ≡ true → left ≡ [])
      × ((ip : String) → Mem ip (ips new ++ reserved) → Mem ip a.reserved)

  fewer :
      (ip : String) (reserved : List String) (cs : List Container)
      → All (IsFreshIp (ip ∷ reserved)) cs
      → All (IsFreshIp reserved) cs × ¬ Mem ip (ips cs)
  fewer ip reserved [] h = (tt, not-mem-nil)
  fewer ip reserved (c ∷ cs) ((n, s), h) =
      let (all, free) = fewer ip reserved cs h in
      (
        ((λ m. n (mem-cons_of_mem ip m), s), all),
        λ m. Or.elim ⊥_prop (mem-cons.0 m) (λ e. n (mem-cons.1 (Or.inl (sym e)))) free,
      )

  cons_parts : (i j : ℕ) (is js : List ℕ) → ◌≡◌ {A = List ℕ} (i ∷ is) (j ∷ js) → (i ≡ j) × (is ≡ js)
  cons_parts i j is js e = (cc e, cc e)

  assemble :
      (r : Container) (new left rest : List Container)
      → Perm (new ++ (left ++ r ∷ rest)) (r ∷ (new ++ (left ++ rest)))
  assemble r new left rest =
      Perm.trans (Perm.append_left new (perm_middle left rest)) (perm_middle new (left ++ rest))

  gathered :
      (ip first : String) (used reserved : List String)
      → Mem ip (first ∷ (used ++ reserved))
      → Mem ip (used ++ first ∷ reserved)
  gathered ip first used reserved m = (Perm.mem_iff (perm_middle used reserved)).1 m

  -- On a table with distinct ids, whose rows are those to be given an address and others, the loop does not
  -- panic; see `IsAllocated` for what it leaves.
  allocates :
      (todo olds rest : List Container) (k : ℕ) (reserved : List String) (v : View Container)
      → ids olds ≡ ids todo
      → Nodup (ids v.rows)
      → Perm v.rows (olds ++ rest)
      → (a : Allocation Container) × (allocate_container_ips print random k reserved todo v
          ≡ some a)
        × IsAllocated reserved (ids todo) rest a
  unfolding allocate_container_ips
  allocates [] [] rest k reserved v e d p = (
    record { view = v; reserved = reserved; next = k; ok = true },
    refl,
    ([], [], p, refl, Nodup-nil, tt, λ q. refl, λ ip m. m),
  )
  allocates [] (o ∷ olds) rest k reserved v e d p = absurd (cc e)
  allocates (dbc ∷ todo) [] rest k reserved v e d p = absurd (cc e)
  allocates (dbc ∷ todo) (o ∷ olds) rest k reserved v e d p =
      elim (allocate_ip_lem print (random k) reserved quilt_subnet (omega arith)) [
        | inr (f, full) ↦ (
          record { view = v; reserved = reserved; next = suc k; ok = false },
          rw (allocate_container_ips, f) refl,
          ([], o ∷ olds, p, e, Nodup-nil, tt, λ q. absurd (cc q), λ ip m. m),
        )
        | inl (n, sub, free, f) ↦
            let r = record dbc { ip = print n } in
            let (same, tails) = cons_parts o.id dbc.id (ids olds) (ids todo) e in
            let (w, c, _, q) =
              commit_lem container_row v o r ((Perm.mem_iff p).1 mem-cons_self) d (sym same) in
            let placed : Perm w.rows (r ∷ (olds ++ rest)) =
              Perm.cons_inv
                (Perm.trans q (Perm.trans (Perm.cons r p) (Perm.swap o r (olds ++ rest)))) in
            let distinct : Nodup (ids w.rows) =
              Perm.nodup
                (Perm.symm (
                  Perm.trans (Perm.map (λ (x : Container). x.id) placed) (
                    subst (λ i. Perm (i ∷ ids (olds ++ rest)) (ids v.rows)) same
                      (Perm.symm (Perm.map (λ (x : Container). x.id) p)))))
                d in
            let (a, g, (new, left, t, i, u, all, done, more)) =
              allocates todo olds (r ∷ rest) (suc k) (print n ∷ reserved) w tails distinct
                (Perm.trans placed (Perm.symm (perm_middle olds rest))) in
            let (older, unused) = fewer (print n) reserved new all in
            (
              a,
              rw (allocate_container_ips, f, c) g,
              (
                r ∷ new,
                left,
                Perm.trans t (assemble r new left rest),
                ap (◌∷◌ dbc.id) i,
                Nodup-cons.1 (unused, u),
                ((free, (n, sub, refl)), older),
                done,
                λ ip m. more ip (gathered ip (print n) (ips new) reserved m),
              ),
            )
      ]

  append-Nodup :
      (new : List Container) (others : List String) (reserved : List String)
      → All (IsFreshIp reserved) new
      → Nodup (ips new)
      → Nodup others
      → ((ip : String) → Mem ip others → Mem ip reserved)
      → Nodup (ips new ++ others)
  append-Nodup [] others reserved h d e m = e
  append-Nodup (c ∷ new) others reserved ((n, s), h) d e m =
      let (c_new, d') = Nodup-cons.0 d in
      Nodup-cons.1 (
        λ i. Or.elim ⊥_prop (mem-append.0 i) c_new (λ j. n (m c.ip j)),
        append-Nodup new others reserved h d' e m,
      )

  -- If the rows that have an address have distinct ones, all of them reserved, and the loop reports no error,
  -- then no two rows of the table have the same address, no row is lost, and the rows that had none have
  -- addresses of the Quilt subnet that were not reserved.
  pub allocate_container_ips-distinct :
      (todo olds rest : List Container) (k : ℕ) (reserved : List String) (v : View Container)
      → ids olds ≡ ids todo
      → Nodup (ids v.rows)
      → Perm v.rows (olds ++ rest)
      → Nodup (ips rest)
      → ((ip : String) → Mem ip (ips rest) → Mem ip reserved)
      → (a : Allocation Container) × (allocate_container_ips print random k reserved todo v
          ≡ some a)
        × (a.ok ≡ true
            → Nodup (ips a.view.rows)
              × ((new : List Container) × Perm a.view.rows (new ++ rest)
                  × (ids new ≡ ids todo)
                  × All (IsFreshIp reserved) new))
  allocate_container_ips-distinct todo olds rest k reserved v e d p unique taken =
      let (a, f, (new, left, t, i, u, all, done, _)) =
        allocates todo olds rest k reserved v e d p in
      (
        a,
        f,
        λ ok.
            let rows : Perm a.view.rows (new ++ rest) =
              subst (λ (l : List Container). Perm a.view.rows (new ++ (l ++ rest))) (done ok) t in
            let all_ids : ids new ≡ ids todo =
              sym (append-nil (ids new))
              ∙ subst (λ (l : List Container). ids new ++ ids l ≡ ids todo) (done ok) i in
            (
              Perm.nodup
                  (Perm.symm (
                    subst (Perm (ips a.view.rows)) (map-append (λ (c : Container). c.ip) new rest)
                      (Perm.map (λ (c : Container). c.ip) rows)))
                  (append-Nodup new (ips rest) reserved all u unique taken),
              (new, rows, all_ids, all),
            ),
      )
