-- ===== src/Minion/Wanted.antt =====
-- minion/engine.go: which connections `updateConnections` wants, load balancers included.
use mathlib.Core.List.{
  mem-append, mem-map, mem-map_of_mem, mem-cons, not-mem-nil, mem-cons_self, mem-cons_of_mem,
  Mem-prop,
}
use mathlib.Core.Logic.{∥∥₁_elim, ∥∥₁_prop, ◌∨₁◌, ∨₁_prop}
use mathlib.Core.Logic.Or
use mathlib.Core.Option.{some-injective}
use quilt.Prelude.{
  ◌≡◌, ◌≢◌, ◌↔◌, ◌⊎◌, ◌∙◌, refl, sym, ap, subst, inl, inr, Option-cases, some, String, List, [],
  ◌∷◌, map, Mem, All, string_discrete, test_yes, test_no,
}
use quilt.Maps.{Map, get, put, get-put}
use quilt.Minion.Blueprint.{BlueprintLoadBalancer, BlueprintConnection, Blueprint}
use quilt.Minion.Updates.{by_name, behind, wanted_connections}

-- The last of the load balancers with that name.
abbrev pub IsLast : String → BlueprintLoadBalancer → List BlueprintLoadBalancer → Type 0
IsLast name lb [] = ⊥
IsLast name lb (x ∷ xs) =
    IsLast name lb xs
    ⊎ ((x ≡ lb) × ((x.name ≡ name) × All (λ (y : BlueprintLoadBalancer). y.name ≢ name) xs))

-- What stands behind a connection: the connections to the hostnames of the load balancer that it goes to.
abbrev pub IsBehind :
    List BlueprintLoadBalancer → BlueprintConnection → BlueprintConnection → Type 0
IsBehind lbs c d =
    (lb : BlueprintLoadBalancer) × IsLast c.target lb lbs
    × Mem d.target lb.hostnames
    × (d.source ≡ c.source)
    × (d.min_port ≡ c.min_port)
    × (d.max_port ≡ c.max_port)

-- A connection of the blueprint, or one behind a connection of the blueprint.
abbrev pub IsWanted : Blueprint → BlueprintConnection → Type 0
IsWanted bp d =
    Mem d bp.connections
    ∨₁ ∥ ((c : BlueprintConnection) × Mem c bp.connections × IsBehind bp.load_balancers c d) ∥₁

-- What the map has for a name.
abbrev Held :
    Map String BlueprintLoadBalancer
    → List BlueprintLoadBalancer
    → String
    → BlueprintLoadBalancer
    → Type 0
Held m lbs name lb =
    IsLast name lb lbs
    ⊎ ((get string_discrete m name ≡ some lb)
        × All (λ (y : BlueprintLoadBalancer). y.name ≢ name) lbs)

by_name-get :
    (m : Map String BlueprintLoadBalancer) (lbs : List BlueprintLoadBalancer) (name : String)
    (lb : BlueprintLoadBalancer)
    → (get string_discrete (by_name m lbs) name ≡ some lb → Held m lbs name lb)
      × (Held m lbs name lb → get string_discrete (by_name m lbs) name ≡ some lb)
unfolding by_name
by_name-get m [] name lb = (λ h. inr (h, tt), λ h. elim h [ inl x ↦ absurd x | inr (g, a) ↦ g ])
by_name-get m (x ∷ xs) name lb =
    let (a, b) = by_name-get (put string_discrete m x.name x) xs name lb in
    let g = get-put string_discrete m x.name name x in
    elim (string_discrete x.name name) [
      | yes p ↦
          let found : get string_discrete (put string_discrete m x.name x) name ≡ some x =
            g ∙ rw (test_yes (string_discrete x.name name) p) refl in
          (
            λ h. elim (a h) [
              | inl l ↦ inl (inl l)
              | inr (q, c) ↦ inl (inr (some-injective _ _ (sym found ∙ q), (p, c)))
            ],
            λ h. elim h [
              | inl (inl l) ↦ b (inl l)
              | inl (inr (q, (r, c))) ↦ b (inr (found ∙ ap some q, c))
              | inr (q, (n, c)) ↦ absurd (n p)
            ],
          )
      | no n ↦
          let same : get string_discrete (put string_discrete m x.name x) name
              ≡ get string_discrete m name =
            g ∙ rw (test_no (string_discrete x.name name) n) refl in
          (
            λ h. elim (a h) [ inl l ↦ inl (inl l) | inr (q, c) ↦ inr (sym same ∙ q, (n, c)) ],
            λ h. elim h [
              | inl (inl l) ↦ b (inl l)
              | inl (inr (q, (r, c))) ↦ absurd (n r)
              | inr (q, (k, c)) ↦ b (inr (same ∙ q, c))
            ],
          )
    ]

by_name-IsLast :
    (lbs : List BlueprintLoadBalancer) (name : String) (lb : BlueprintLoadBalancer)
    → (get string_discrete (by_name [] lbs) name ≡ some lb → IsLast name lb lbs)
      × (IsLast name lb lbs → get string_discrete (by_name [] lbs) name ≡ some lb)
unfolding get
by_name-IsLast lbs name lb =
    let (a, b) = by_name-get [] lbs name lb in
    (λ h. elim (a h) [ inl l ↦ l | inr (q, c) ↦ absurd (cc q) ], λ l. b (inl l))

module _ (lbs : Map String BlueprintLoadBalancer) where
  abbrev Reaches : BlueprintConnection → BlueprintConnection → Type 0
  Reaches d c =
      (lb : BlueprintLoadBalancer) × (get string_discrete lbs c.target ≡ some lb)
      × Mem d.target lb.hostnames
      × (d.source ≡ c.source)
      × (d.min_port ≡ c.min_port)
      × (d.max_port ≡ c.max_port)

  abbrev SomeReaches : BlueprintConnection → List BlueprintConnection → Type 0
  SomeReaches d cs = ∥ ((c : BlueprintConnection) × Mem c cs × Reaches d c) ∥₁

  later :
      (d c : BlueprintConnection) (cs : List BlueprintConnection)
      → SomeReaches d cs
      → SomeReaches d (c ∷ cs)
  later d c cs h = ∥∥₁_elim h ∥∥₁_prop (λ (c', m, r). ∣ (c', mem-cons_of_mem c m, r) ∣₁)

  to_hostname :
      (d c : BlueprintConnection) (lb : BlueprintLoadBalancer)
      → Mem d (map (λ hostname. record c { target = hostname }) lb.hostnames)
      → ∥ (
          Mem d.target lb.hostnames
          × (d.source ≡ c.source)
          × (d.min_port ≡ c.min_port)
          × (d.max_port ≡ c.max_port)) ∥₁
  to_hostname d c lb h = ∥∥₁_elim (mem-map.0 h) ∥∥₁_prop (λ (t, m, e). ∣ (
    subst (λ x. Mem x lb.hostnames) (ap (λ (x : BlueprintConnection). x.target) e) m,
    sym (ap (λ (x : BlueprintConnection). x.source) e),
    sym (ap (λ (x : BlueprintConnection). x.min_port) e),
    sym (ap (λ (x : BlueprintConnection). x.max_port) e),
  ) ∣₁)

  of_hostname :
      (d c : BlueprintConnection) (lb : BlueprintLoadBalancer)
      → Mem d.target lb.hostnames
      → d.source ≡ c.source
      → d.min_port ≡ c.min_port
      → d.max_port ≡ c.max_port
      → Mem d (map (λ hostname. record c { target = hostname }) lb.hostnames)
  of_hostname d c lb m p q r =
      subst (λ x. Mem x (map (λ hostname. record c { target = hostname }) lb.hostnames)) whole
        (mem-map_of_mem (λ hostname. record c { target = hostname }) m)
    where
      whole : ◌≡◌ {A = BlueprintConnection} (record c { target = d.target }) d
      whole = cc

  mem-behind :
      (cs : List BlueprintConnection) (d : BlueprintConnection)
      → (Mem d (behind lbs cs) → SomeReaches d cs) × (SomeReaches d cs → Mem d (behind lbs cs))
  unfolding behind
  mem-behind [] d =
      (λ m. absurd (not-mem-nil m), λ h. ∥∥₁_elim h Mem-prop (λ (c, m, r). absurd (not-mem-nil m)))
  mem-behind (c ∷ cs) d =
      let (a, b) = mem-behind cs d in
      elim (Option-cases (get string_discrete lbs c.target)) [
        | inl e ↦
            rw (behind, e)
              (
                λ m. later d c cs (a m),
                λ h. ∥∥₁_elim h Mem-prop (λ (c', m, (lb, g, t, p, q, r)).
                    Or.elim Mem-prop (mem-cons.0 m)
                      (λ q. absurd (
                        cc (
                          sym e
                          ∙ (ap (λ (x : BlueprintConnection). get string_discrete lbs x.target)
                                (sym q)
                              ∙ g))))
                      (λ n. b ∣ (c', n, (lb, g, t, p, q, r)) ∣₁)),
              )
        | inr (lb, e) ↦
            rw (behind, e)
              (
                λ m.
                    Or.elim ∥∥₁_prop (mem-append.0 m)
                      (λ n.
                        ∥∥₁_elim (to_hostname d c lb n) ∥∥₁_prop
                          (λ (t, p, q, r). ∣ (c, mem-cons_self, (lb, e, t, p, q, r)) ∣₁))
                      (λ n. later d c cs (a n)),
                λ h. ∥∥₁_elim h Mem-prop (λ (c', m, (lb', g, t, p, q, r)).
                    Or.elim Mem-prop (mem-cons.0 m)
                      (λ s.
                        let here : lb' ≡ lb = some-injective _ _ (
                          sym g
                          ∙ (ap (λ (x : BlueprintConnection). get string_discrete lbs x.target) s
                              ∙ e)) in
                        mem-append.1 (
                          Or.inl (
                            of_hostname d c lb
                              (subst (λ (x : BlueprintLoadBalancer). Mem d.target x.hostnames) here
                                t)
                              (p ∙ ap (λ (x : BlueprintConnection). x.source) s)
                              (q ∙ ap (λ (x : BlueprintConnection). x.min_port) s)
                              (r ∙ ap (λ (x : BlueprintConnection). x.max_port) s))))
                      (λ n. mem-append.1 (Or.inr (b ∣ (c', n, (lb', g, t, p, q, r)) ∣₁)))),
              )
      ]

-- `connections` after the loop over the load balancers, in terms of the blueprint.
pub mem-wanted_connections :
    (bp : Blueprint) (d : BlueprintConnection) → Mem d (wanted_connections bp) ↔ IsWanted bp d
unfolding wanted_connections
mem-wanted_connections bp d =
    let (a, b) = mem-behind (by_name [] bp.load_balancers) bp.connections d in
    (
      λ m.
          Or.elim ∨₁_prop (mem-append.0 m) (λ n. Or.inl n)
            (λ n. Or.inr (
              ∥∥₁_elim (a n) ∥∥₁_prop (λ (c, k, (lb, g, t, p, q, r)). ∣ (
                c,
                k,
                (lb, (by_name-IsLast bp.load_balancers c.target lb).0 g, t, p, q, r),
              ) ∣₁))),
      λ h.
          Or.elim Mem-prop h (λ n. mem-append.1 (Or.inl n))
            (λ n. mem-append.1 (
              Or.inr (
                b (
                  ∥∥₁_elim n ∥∥₁_prop (λ (c, k, (lb, l, t, p, q, r)). ∣ (
                    c,
                    k,
                    (lb, (by_name-IsLast bp.load_balancers c.target lb).1 l, t, p, q, r),
                  ) ∣₁))))),
    )
