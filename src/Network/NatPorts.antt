-- ===== src/Network/NatPorts.antt =====
-- minion/network/nat.go: the ports that connections open for a host.
use mathlib.Core.List.{dec_mem, mem-cons, mem-cons_self, mem-cons_of_mem, not-mem-nil, Mem-prop}
use mathlib.Core.Logic.{∥∥₁_elim, ∥∥₁_prop}
use mathlib.Core.Logic.Or
use quilt.Prelude.{
  ℕ, ◌≡◌, ◌≢◌, ◌↔◌, ◌∙◌, refl, sym, ap, subst, ◌⊎◌, inl, inr, Bool-cases, true≢false, String, List,
  [], ◌∷◌, Mem, ◌==◌, string_eq, eq_iff, string_discrete, ℕ_discrete, test_yes, test_no,
  if◌then◌else◌,
}
use quilt.Maps.{Map, put, get-put}
use quilt.Db.MinionRows.{Connection}
use quilt.Inspect.Graph.{public_internet_label}
use quilt.Network.Nat.{add_port, or_nil, ports_of, collect_ports}

pub mem-add_port : (x p : ℕ) (s : List ℕ) → Mem x (add_port p s) ↔ ∥ ((x ≡ p) ⊎ Mem x s) ∥₁
mem-add_port x p s = elim (dec_mem ℕ_discrete p s) [
  | yes m ↦ rw (test_yes (dec_mem ℕ_discrete p s) m) (
    λ c. ∣ inr c ∣₁,
    λ h. ∥∥₁_elim h Mem-prop (λ w. elim w [ inl e ↦ subst (λ y. Mem y s) (sym e) m | inr c ↦ c ]),
  )
  | no n ↦ rw (test_no (dec_mem ℕ_discrete p s) n) (
    λ c. Or.elim ∥∥₁_prop (mem-cons.0 c) (λ e. ∣ inl e ∣₁) (λ d. ∣ inr d ∣₁),
    λ h.
        ∥∥₁_elim h Mem-prop
          (λ w. elim w [ inl e ↦ mem-cons.1 (Or.inl e) | inr c ↦ mem-cons_of_mem p c ]),
  )
]

pub ports_of_same :
    (m : Map String (List ℕ)) (h k : String) (s : List ℕ)
    → h ≡ k
    → ports_of (put string_discrete m h s) k ≡ s
ports_of_same m h k s e =
    ap or_nil (get-put string_discrete m h k s) ∙ rw (test_yes (string_discrete h k) e) refl

pub ports_of_other :
    (m : Map String (List ℕ)) (h k : String) (s : List ℕ)
    → h ≢ k
    → ports_of (put string_discrete m h s) k ≡ ports_of m k
ports_of_other m h k s e =
    ap or_nil (get-put string_discrete m h k s) ∙ rw (test_no (string_discrete h k) e) refl

module _ (public_end host_end : Connection → String) where
  -- The connection lets the host use the port from or to the public internet.
  abbrev pub Opens : String → ℕ → Connection → Type 0
  Opens host port c =
      (public_end c ≡ public_internet_label) × ((host_end c ≡ host) × (port ≡ c.min_port))

  abbrev pub IsOpen : List Connection → String → ℕ → Type 0
  IsOpen conns host port = ∥ ((c : Connection) × Mem c conns × Opens host port c) ∥₁

  -- The ports after one connection.
  abbrev one : Connection → Map String (List ℕ) → Map String (List ℕ)
  one conn m =
      if public_end conn == public_internet_label
      then put string_discrete m (host_end conn)
          (add_port conn.min_port (ports_of m (host_end conn)))
      else m

  mem-one :
      (conn : Connection) (m : Map String (List ℕ)) (host : String) (port : ℕ)
      → Mem port (ports_of (one conn m) host)
        ↔ ∥ (Mem port (ports_of m host) ⊎ Opens host port conn) ∥₁
  mem-one conn m host port = elim (Bool-cases (public_end conn == public_internet_label)) [
    | inr f ↦ rw f (
      λ c. ∣ inl c ∣₁,
      λ h. ∥∥₁_elim h Mem-prop (λ w. elim w [
        | inl c ↦ c
        | inr (e, _) ↦ absurd (true≢false (sym ((eq_iff _ _).1 e) ∙ f))
      ]),
    )
    | inl f ↦ elim (string_discrete (host_end conn) host) [
      | no n ↦
          rw
            (
              f,
              ports_of_other m (host_end conn) host
                  (add_port conn.min_port (ports_of m (host_end conn))) n,
            )
            (
              λ c. ∣ inl c ∣₁,
              λ h. ∥∥₁_elim h Mem-prop (λ w. elim w [ inl c ↦ c | inr (_, (e, _)) ↦ absurd (n e) ]),
            )
      | yes q ↦
          rw
            (
              f,
              ports_of_same m (host_end conn) host
                  (add_port conn.min_port (ports_of m (host_end conn))) q,
            )
            (
              λ c.
                  ∥∥₁_elim ((mem-add_port port conn.min_port (ports_of m (host_end conn))).0 c)
                    ∥∥₁_prop
                    λ w. elim w [
                      | inl e ↦ ∣ inr ((eq_iff _ _).0 f, (q, e)) ∣₁
                      | inr d ↦ ∣ inl (subst (λ y. Mem port (ports_of m y)) q d) ∣₁
                    ],
              λ h. (mem-add_port port conn.min_port (ports_of m (host_end conn))).1 (
                  ∥∥₁_elim h ∥∥₁_prop λ w. elim w [
                    | inl d ↦ ∣ inr (subst (λ y. Mem port (ports_of m y)) (sym q) d) ∣₁
                    | inr (_, (_, e)) ↦ ∣ inl e ∣₁
                  ]),
            )
    ]
  ]

  pub mem-collect_ports :
      (conns : List Connection) (m : Map String (List ℕ)) (host : String) (port : ℕ)
      → Mem port (ports_of (collect_ports public_end host_end m conns) host)
        ↔ ∥ (Mem port (ports_of m host) ⊎ IsOpen conns host port) ∥₁
  unfolding collect_ports
  mem-collect_ports [] m host port = (
    λ c. ∣ inl c ∣₁,
    λ h.
        ∥∥₁_elim h Mem-prop
          λ w. elim w [ inl c ↦ c | inr x ↦ ∥∥₁_elim x Mem-prop (λ y. absurd (not-mem-nil y.1)) ],
  )
  mem-collect_ports (conn ∷ conns) m host port =
      let rest = mem-collect_ports conns (one conn m) host port in
      let step = mem-one conn m host port in
      (
        λ c. ∥∥₁_elim (rest.0 c) ∥∥₁_prop λ w. elim w [
          | inl d ↦
              ∥∥₁_elim (step.0 d) ∥∥₁_prop
                λ x. elim x [ inl e ↦ ∣ inl e ∣₁ | inr e ↦ ∣ inr ∣ (conn, mem-cons_self, e) ∣₁ ∣₁ ]
          | inr x ↦ ∣ inr (∥∥₁_elim x ∥∥₁_prop (λ y. ∣ (y.0, mem-cons_of_mem conn y.1, y.2) ∣₁)) ∣₁
        ],
        λ h. ∥∥₁_elim h Mem-prop λ w. elim w [
          | inl d ↦ rest.1 ∣ inl (step.1 ∣ inl d ∣₁) ∣₁
          | inr x ↦ ∥∥₁_elim x Mem-prop λ y.
              let (c, i, e) = y in
              Or.elim Mem-prop (mem-cons.0 i)
                (λ q. rest.1 ∣ inl (step.1 ∣ inr (subst (Opens host port) q e) ∣₁) ∣₁)
                (λ j. rest.1 ∣ inr ∣ (c, j, e) ∣₁ ∣₁)
        ],
      )
