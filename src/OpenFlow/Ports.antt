-- ===== src/OpenFlow/Ports.antt =====
-- minion/scheduler/worker.go: the ports that openflowContainers opens for a container.
use mathlib.Core.List.{mem-append, mem-cons, mem-cons_self, mem-cons_of_mem, not-mem-nil, Mem-prop}
use mathlib.Core.Logic.{∥∥₁_elim, ∥∥₁_prop}
use mathlib.Core.Logic.Or
use quilt.Prelude.{
  and-true, true-and, true≢false, ℕ, ◌≡◌, ◌≢◌, ◌↔◌, ◌∙◌, refl, sym, ap, subst, ◌⊎◌, inl, inr, Bool,
  true, false, Bool-cases, String, List, [], ◌∷◌, ◌++◌, Mem, ◌==◌, ◌&&◌, nat_eq, string_eq, eq_iff,
  string_discrete, if◌then◌else◌, arith,
}
use quilt.Prelude.Text.{nat_beq_iff}
use quilt.Maps.{Map, get}
use quilt.Db.MinionRows.{Connection}
use quilt.Inspect.Graph.{public_internet_label}
use quilt.Network.Nat.{ports_of, add_port}
use quilt.Network.NatPorts.{ports_of_same, ports_of_other, mem-add_port}
use quilt.OpenFlow.Containers.{append_port, note_port, note_ports, add_ports}

mem-add_ports : (x : ℕ) (ps set : List ℕ) → Mem x (add_ports ps set) ↔ ∥ (Mem x ps ⊎ Mem x set) ∥₁
unfolding add_ports
mem-add_ports x [] set = (
  λ m. ∣ inr m ∣₁,
  λ h. ∥∥₁_elim h Mem-prop (λ w. elim w [ inl n ↦ absurd (not-mem-nil n) | inr n ↦ n ]),
)
mem-add_ports x (p ∷ ps) set =
    let rest = mem-add_ports x ps (add_port p set) in
    let step = mem-add_port x p set in
    (
      λ m. ∥∥₁_elim (rest.0 m) ∥∥₁_prop λ w. elim w [
        | inl n ↦ ∣ inl (mem-cons_of_mem p n) ∣₁
        | inr n ↦
            ∥∥₁_elim (step.0 n) ∥∥₁_prop
              λ v. elim v [ inl e ↦ ∣ inl (mem-cons.1 (Or.inl e)) ∣₁ | inr k ↦ ∣ inr k ∣₁ ]
      ],
      λ h. ∥∥₁_elim h Mem-prop λ w. elim w [
        | inl n ↦
            Or.elim Mem-prop (mem-cons.0 n) (λ e. rest.1 ∣ inr (step.1 ∣ inl e ∣₁) ∣₁)
              (λ k. rest.1 ∣ inl k ∣₁)
        | inr n ↦ rest.1 ∣ inr (step.1 ∣ inr n ∣₁) ∣₁
      ],
    )

module _ (public_end host_end : Connection → String) where
  -- The connection opens one port of the host to or from the public internet.
  abbrev pub Opens : String → ℕ → Connection → Type 0
  Opens host port c =
      (public_end c ≡ public_internet_label)
      × (c.min_port ≡ c.max_port)
      × (host_end c ≡ host)
      × (port ≡ c.min_port)

  abbrev pub IsOpen : List Connection → String → ℕ → Type 0
  IsOpen conns host port = ∥ ((c : Connection) × Mem c conns × Opens host port c) ∥₁

  abbrev noted : Connection → Bool
  noted c = public_end c == public_internet_label && c.min_port == c.max_port

  noted-true :
      (c : Connection)
      → noted c ≡ true
      → (public_end c ≡ public_internet_label) × (c.min_port ≡ c.max_port)
  noted-true c h =
      let (a, b) = and-true (public_end c == public_internet_label) (c.min_port == c.max_port) h in
      ((eq_iff _ _).0 a, (nat_beq_iff _ _).0 b)

  noted_yes :
      (c : Connection)
      → public_end c ≡ public_internet_label
      → c.min_port ≡ c.max_port
      → noted c ≡ true
  noted_yes c e q =
      true-and (public_end c == public_internet_label) (c.min_port == c.max_port) ((eq_iff _ _).1 e)
        ((nat_beq_iff _ _).1 q)

  module _ (end : (c : Connection) → (public_end c ≡ c.source) ⊎ (public_end c ≡ c.target)) where
    note_port-eq :
        (c : Connection) (m : Map String (List ℕ))
        → note_port public_end host_end c m
          ≡ (if noted c then append_port m (host_end c) c.min_port else m)
    note_port-eq c m = elim (end c) [ inl e ↦ rw e (ground arith) | inr e ↦ rw e (ground arith) ]

    off :
        (c : Connection) (m : Map String (List ℕ)) (host : String)
        → noted c ≡ false
        → ports_of (note_port public_end host_end c m) host ≡ ports_of m host
    off c m host f =
        ap (λ (x : Map String (List ℕ)). ports_of x host) (note_port-eq c m ∙ rw f refl)

    other :
        (c : Connection) (m : Map String (List ℕ)) (host : String)
        → noted c ≡ true
        → host_end c ≢ host
        → ports_of (note_port public_end host_end c m) host ≡ ports_of m host
    other c m host f n =
        ap (λ (x : Map String (List ℕ)). ports_of x host) (note_port-eq c m ∙ rw f refl)
        ∙ ports_of_other m (host_end c) host (ports_of m (host_end c) ++ c.min_port ∷ []) n

    same :
        (c : Connection) (m : Map String (List ℕ)) (host : String)
        → noted c ≡ true
        → host_end c ≡ host
        → ports_of (note_port public_end host_end c m) host ≡ ports_of m host ++ c.min_port ∷ []
    same c m host f q =
        ap (λ (x : Map String (List ℕ)). ports_of x host) (note_port-eq c m ∙ rw f refl)
        ∙ ports_of_same m (host_end c) host (ports_of m (host_end c) ++ c.min_port ∷ []) q
        ∙ ap (λ (x : String). ports_of m x ++ c.min_port ∷ []) q

    -- What one connection changes for a host.
    mem-note_port :
        (c : Connection) (m : Map String (List ℕ)) (host : String) (port : ℕ)
        → Mem port (ports_of (note_port public_end host_end c m) host)
          ↔ ∥ (Mem port (ports_of m host) ⊎ Opens host port c) ∥₁
    mem-note_port c m host port = elim (Bool-cases (noted c)) [
      | inr f ↦ (
        λ k. ∣ inl (subst (Mem port) (off c m host f) k) ∣₁,
        λ h. subst (Mem port) (sym (off c m host f)) (
            ∥∥₁_elim h Mem-prop (λ w. elim w [
              | inl k ↦ k
              | inr (e, q, _, _) ↦ absurd (true≢false (sym (noted_yes c e q) ∙ f))
            ])),
      )
      | inl f ↦ elim (string_discrete (host_end c) host) [
        | no n ↦ (
          λ k. ∣ inl (subst (Mem port) (other c m host f n) k) ∣₁,
          λ h.
              subst (Mem port) (sym (other c m host f n))
                (∥∥₁_elim h Mem-prop (λ w. elim w [ inl k ↦ k | inr (_, _, q, _) ↦ absurd (n q) ])),
        )
        | yes q ↦ (
          λ k.
              Or.elim ∥∥₁_prop (mem-append.0 (subst (Mem port) (same c m host f q) k))
                (λ x. ∣ inl x ∣₁)
                (λ x.
                  Or.elim ∥∥₁_prop (mem-cons.0 x)
                    (λ e. ∣ inr ((noted-true c f).0, (noted-true c f).1, q, e) ∣₁)
                    (λ y. absurd (not-mem-nil y))),
          λ h. subst (Mem port) (sym (same c m host f q)) (
              ∥∥₁_elim h Mem-prop λ w. elim w [
                | inl x ↦ mem-append.1 (Or.inl x)
                | inr (_, _, _, e) ↦ mem-append.1 (Or.inr (mem-cons.1 (Or.inl e)))
              ]),
        )
      ]
    ]

    mem-note_ports :
        (conns : List Connection) (m : Map String (List ℕ)) (host : String) (port : ℕ)
        → Mem port (ports_of (note_ports public_end host_end m conns) host)
          ↔ ∥ (Mem port (ports_of m host) ⊎ IsOpen conns host port) ∥₁
    unfolding note_ports
    mem-note_ports [] m host port = (
      λ c. ∣ inl c ∣₁,
      λ h.
          ∥∥₁_elim h Mem-prop
            λ w. elim w [ inl c ↦ c | inr x ↦ ∥∥₁_elim x Mem-prop (λ y. absurd (not-mem-nil y.1)) ],
    )
    mem-note_ports (conn ∷ conns) m host port =
        let rest = mem-note_ports conns (note_port public_end host_end conn m) host port in
        let step = mem-note_port conn m host port in
        (
          λ c. ∥∥₁_elim (rest.0 c) ∥∥₁_prop λ w. elim w [
            | inl d ↦
                ∥∥₁_elim (step.0 d) ∥∥₁_prop λ x. elim x [
                  | inl e ↦ ∣ inl e ∣₁
                  | inr e ↦ ∣ inr ∣ (conn, mem-cons_self, e) ∣₁ ∣₁
                ]
            | inr x ↦
                ∣ inr (∥∥₁_elim x ∥∥₁_prop (λ y. ∣ (y.0, mem-cons_of_mem conn y.1, y.2) ∣₁)) ∣₁
          ],
          λ h. ∥∥₁_elim h Mem-prop λ w. elim w [
            | inl d ↦ rest.1 ∣ inl (step.1 ∣ inl d ∣₁) ∣₁
            | inr x ↦ ∥∥₁_elim x Mem-prop λ y.
                let (c, i, e) = y in
                Or.elim Mem-prop (mem-cons.0 i)
                  (λ q. rest.1 ∣ inl (step.1 ∣ inr (subst (Opens host port) q e) ∣₁) ∣₁)
                  (λ j. rest.1 ∣ inr ∣ (c, j, e) ∣₁ ∣₁)
          ],
        )

    -- The set of ports that openflowContainers collects for a host has exactly those that some connection opens.
    pub mem-IsOpen :
        (conns : List Connection) (host : String) (port : ℕ)
        → Mem port (add_ports (ports_of (note_ports public_end host_end [] conns) host) [])
          ↔ IsOpen conns host port
    mem-IsOpen conns host port = (
      λ m. ∥∥₁_elim ((mem-add_ports port _ []).0 m) ∥∥₁_prop λ w. elim w [
        | inr n ↦ absurd (not-mem-nil n)
        | inl n ↦ ∥∥₁_elim ((mem-note_ports conns [] host port).0 n) ∥∥₁_prop λ v. elim v [
          | inl k ↦ absurd (not-mem-nil (subst (Mem port) (empty host) k))
          | inr x ↦ x
        ]
      ],
      λ h. (mem-add_ports port _ []).1 ∣ inl ((mem-note_ports conns [] host port).1 ∣ inr h ∣₁) ∣₁,
    )
      where
        empty : (k : String) → ports_of [] k ≡ []
        empty k = unfold get in refl
