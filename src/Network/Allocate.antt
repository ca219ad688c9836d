-- ===== src/Network/Allocate.antt =====
-- minion/network/ip.go: lemmas on the search of `allocateIP`, and its outcomes.
use mathlib.Core.List.{dec_mem}
use native.Mathlib.Nat.{mod-lt, mod-eq_of_lt, add-mod_right, pow-le-pow_right, one-le-pow, pow-suc}
use quilt.Prelude.{
  ℕ, zero, suc, ◌+◌, ◌*◌, ◌%◌, ◌^◌, ◌-◌, ◌≡◌, ◌≤◌, ◌<◌, refl, sym, ap, ◌∙◌, subst, Bool, true,
  false, none, some, String, List, ◌∷◌, Mem, test, test→holds, test-false, string_discrete,
  Bool-cases, Option-cases, inl, inr, ◌⊎◌, arith, dec_le,
}
use quilt.Network.Addresses.{Subnet, host, try_hosts, allocate_ip}

-- The address is one of the subnet's.
abbrev pub InSubnet : Subnet → ℕ → Type 0
InSubnet s ip = (i : ℕ) × (i < 2 ^ s.bits) × (ip ≡ s.prefix * 2 ^ s.bits + i)

-- Some offset reaches every host of the subnet, from wherever the search starts.
wrap :
    (n m start i : ℕ)
    → n + n ≤ m
    → start < n
    → i < n
    → (k : ℕ) × (k < n) × ((start + k) % m % n ≡ i)
wrap n m start i h a b = elim (dec_le start i) [
  | yes p ↦ (
    i - start,
    omega (arith, b),
    ap (λ x. x % m % n) (the_sum p)
        ∙ ap (λ x. x % n) (mod-eq_of_lt (omega (arith, h, b)))
        ∙ mod-eq_of_lt b,
  )
  | no p ↦ (
    i + n - start,
    omega (arith, p, a),
    ap (λ x. x % m % n) (other_sum p)
        ∙ ap (λ x. x % n) (mod-eq_of_lt (omega (arith, h, b)))
        ∙ add-mod_right i n
        ∙ mod-eq_of_lt b,
  )
]
  where
    the_sum : start ≤ i → start + (i - start) ≡ i
    the_sum p = omega (arith, p)

    other_sum : ¬ (start ≤ i) → start + (i + n - start) ≡ i + n
    other_sum p = omega (arith, p, a)

double : (b : ℕ) → b < 32 → 2 ^ b + 2 ^ b ≤ 2 ^ 32
double b h =
    omega (arith, pow-suc 2 b, pow-le-pow_right {n = 2} (omega arith) {i = suc b} {j = 32} h)

module _ (print : ℕ → String) (reserved : List String) (s : Subnet) (start : ℕ) where
  abbrev pub is_reserved : ℕ → Bool
  is_reserved ip = test (dec_mem string_discrete (print ip) reserved)

  at_offset :
      (a b : ℕ) → a ≡ b → is_reserved (host s start a) ≡ true → is_reserved (host s start b) ≡ true
  at_offset a b e h = subst (λ x. is_reserved (host s start x) ≡ true) e h

  try_hosts-none :
      (n offset : ℕ)
      → try_hosts print reserved s start offset n ≡ none
      → (i : ℕ) → i < n
      → is_reserved (host s start (offset + i)) ≡ true
  unfolding try_hosts
  try_hosts-none zero offset e i h = absurd (omega (arith, h))
  try_hosts-none (suc n) offset e i h = elim (Bool-cases (is_reserved (host s start offset))) [
    | inl r ↦ nth r (try_hosts-none n (suc offset) (rw r at e)) i h
    | inr r ↦ absurd (cc (rw r at e))
  ]
    where
      nth :
          is_reserved (host s start offset) ≡ true
          → ((j : ℕ) → j < n → is_reserved (host s start (suc offset + j)) ≡ true)
          → (j : ℕ) → j < suc n
          → is_reserved (host s start (offset + j)) ≡ true
      nth r f zero h = at_offset offset (offset + zero) (omega arith) r
      nth r f (suc j) h =
          at_offset (suc offset + j) (offset + suc j) (omega arith) (f j (omega (arith, h)))

  try_hosts-some :
      (n offset ip : ℕ)
      → try_hosts print reserved s start offset n ≡ some ip
      → (is_reserved ip ≡ false) × ((i : ℕ) × (ip ≡ host s start i))
  unfolding try_hosts
  try_hosts-some zero offset ip e = absurd (cc e)
  try_hosts-some (suc n) offset ip e = elim (Bool-cases (is_reserved (host s start offset))) [
    | inl r ↦ try_hosts-some n (suc offset) ip (rw r at e)
    | inr r ↦
        let found : host s start offset ≡ ip = cc (rw r at e) in
        (subst (λ x. is_reserved x ≡ false) found r, (offset, sym found))
  ]

  host-InSubnet : (i : ℕ) → InSubnet s (host s start i)
  unfolding host
  host-InSubnet i =
      ((start + i) % 2 ^ 32 % 2 ^ s.bits, mod-lt _ (one-le-pow s.bits 2 (omega arith)), refl)

  all_reserved :
      s.bits < 32
      → start < 2 ^ s.bits
      → try_hosts print reserved s start 0 (2 ^ s.bits) ≡ none
      → (i : ℕ) → i < 2 ^ s.bits
      → Mem (print (s.prefix * 2 ^ s.bits + i)) reserved
  unfolding host
  all_reserved b h e i l =
      let (k, m, q) = wrap (2 ^ s.bits) (2 ^ 32) start i (double s.bits b) h l in
      subst (λ x. Mem (print (s.prefix * 2 ^ s.bits + x)) reserved) q
        (test→holds (dec_mem string_discrete _ reserved)
          (at_offset (0 + k) k (omega arith) (try_hosts-none (2 ^ s.bits) 0 e k m)))

-- Both outcomes of allocateIP.
pub allocate_ip_lem :
    (print : ℕ → String) (random : ℕ) (reserved : List String) (s : Subnet)
    → s.bits < 32
    → ((ip : ℕ) × InSubnet s ip
        × ¬ Mem (print ip) reserved
        × (allocate_ip print random reserved s ≡ some (print ip, print ip ∷ reserved)))
      ⊎ ((allocate_ip print random reserved s ≡ none)
          × ((i : ℕ) → i < 2 ^ s.bits → Mem (print (s.prefix * 2 ^ s.bits + i)) reserved))
unfolding allocate_ip
allocate_ip_lem print random reserved s b =
    elim (Option-cases (try_hosts print reserved s (random % 2 ^ s.bits) 0 (2 ^ s.bits))) [
      | inl e ↦ inr (
        rw (e, allocate_ip) refl,
        all_reserved print reserved s (random % 2 ^ s.bits) b
            (mod-lt _ (one-le-pow s.bits 2 (omega arith))) e,
      )
      | inr (ip, e) ↦
          let (f, (i, q)) =
            try_hosts-some print reserved s (random % 2 ^ s.bits) (2 ^ s.bits) 0 ip e in
          inl (
            ip,
            subst (InSubnet s) (sym q) (host-InSubnet print reserved s (random % 2 ^ s.bits) i),
            test-false (dec_mem string_discrete (print ip) reserved) f,
            rw (e, allocate_ip) refl,
          )
    ]

-- If any address of a subnet with fewer than 32 host bits is free, then allocateIP finds one, whatever the
-- random number: its result is an address of the subnet that is not reserved, and it reserves that one and no
-- other.
pub allocate_ip-finds :
    (print : ℕ → String) (random : ℕ) (reserved : List String) (s : Subnet) (i : ℕ)
    → s.bits < 32
    → i < 2 ^ s.bits
    → ¬ Mem (print (s.prefix * 2 ^ s.bits + i)) reserved
    → (ip : ℕ) × InSubnet s ip
      × ¬ Mem (print ip) reserved
      × (allocate_ip print random reserved s ≡ some (print ip, print ip ∷ reserved))
allocate_ip-finds print random reserved s i b l free =
    elim (allocate_ip_lem print random reserved s b) [
      | inl found ↦ found
      | inr (e, full) ↦ absurd (free (full i l))
    ]

-- If every address of the subnet is reserved, then allocateIP reports that the pool is exhausted.
pub allocate_ip-none :
    (print : ℕ → String) (random : ℕ) (reserved : List String) (s : Subnet)
    → s.bits < 32
    → ((i : ℕ) → i < 2 ^ s.bits → Mem (print (s.prefix * 2 ^ s.bits + i)) reserved)
    → allocate_ip print random reserved s ≡ none
allocate_ip-none print random reserved s b full = elim (allocate_ip_lem print random reserved s b) [
  | inl (ip, (i, l, e), free, q) ↦
      absurd (free (subst (λ x. Mem (print x) reserved) (sym e) (full i l)))
  | inr (e, f) ↦ e
]
