-- ===== src/Cloud/Cheapest.antt =====
-- cloud/machine/machine.go: the size that chooseBestSize answers.
use mathlib.Core.List.{mem-cons_self, mem-cons, not-mem-nil}
use mathlib.Core.Logic.Or
use quilt.Prelude.{
  Bool, Bool-cases, inl, inr, ◌⊎◌, ◌≡◌, refl, sym, ap, ◌∙◌, subst, true, false, true≢false, ◌&&◌,
  ◌||◌, String, List, [], ◌∷◌, Mem, All, ◌==◌, string_eq, arith,
}
use quilt.Cloud.Size.{
  Float, Range, Description, accepts, no_description, pick_cheaper, cheapest, choose_best_size,
}

-- The order of floats none of which is NaN.
pub record IsOrdered (f : Float) : Type 0 where
  pub irrefl : (x : f.Value) → f.ltb x x ≡ false
  pub asym : (x y : f.Value) → f.ltb x y ≡ true → f.ltb y x ≡ false
  pub not_lt-trans : (x y z : f.Value) → f.ltb x y ≡ false → f.ltb y z ≡ false → f.ltb x z ≡ false
  pub not_lt-leb : (x y : f.Value) → f.ltb x y ≡ false → f.leb y x ≡ true
  pub leb-trans : (x y z : f.Value) → f.leb x y ≡ true → f.leb y z ≡ true → f.leb x z ≡ true

or-false : (a b : Bool) → a || b ≡ false → (a ≡ false) × (b ≡ false)
or-false a b h = ground arith

module _ (f : Float) (laws : IsOrdered f) (ram cpu : Range f) where
  open f use {Value, zero, leb, ltb, eqb}
  open laws use {irrefl, asym, not_lt-trans, not_lt-leb, leb-trans}

  -- Memory and processors are in the ranges.
  abbrev pub suits : Description f → Bool
  suits d = accepts f ram d.ram && accepts f cpu d.cpu

  abbrev pub affordable : Value → Description f → Bool
  affordable max_price d = eqb max_price zero || leb d.price max_price

  -- `r` is a size, and not dearer than `d`.
  abbrev Beats : Description f → Description f → Type 0
  Beats r d = ((r.size == "") ≡ false) × (ltb d.price r.price ≡ false)

  Beats-trans : (q r d : Description f) → Beats r d → Beats q r → Beats q d
  Beats-trans q r d h k = (k.0, not_lt-trans d.price r.price q.price h.1 k.1)

  -- One turn of the loop.
  pick_cheaper-Beats :
      (best d : Description f)
      → (d.size == "") ≡ false
      → ((best.size == "") ≡ false → Beats (pick_cheaper f ram cpu best d) best)
        × (suits d ≡ true → Beats (pick_cheaper f ram cpu best d) d)
        × ((pick_cheaper f ram cpu best d ≡ best)
            ⊎ ((pick_cheaper f ram cpu best d ≡ d) × (suits d ≡ true)))
  unfolding pick_cheaper
  pick_cheaper-Beats best d n = elim (Bool-cases (suits d)) [
    | inl i ↦ elim (Bool-cases (best.size == "")) [
      | inl e ↦ rw (i, e) (λ x. absurd (true≢false x), λ _. (n, irrefl d.price), inr (refl, refl))
      | inr e ↦ elim (Bool-cases (ltb d.price best.price)) [
        | inl l ↦
            rw (i, e, l)
              (λ _. (n, asym d.price best.price l), λ _. (n, irrefl d.price), inr (refl, refl))
        | inr l ↦ rw (i, e, l) (λ _. (e, irrefl best.price), λ _. (e, l), inl refl)
      ]
    ]
    | inr i ↦ rw (i) (λ h. (h, irrefl best.price), λ x. absurd (true≢false (sym x)), inl refl)
  ]

  -- The loop: the last best size beats the first and each one that fits, and is the first or one that fits.
  cheapest-Beats :
      (ds : List (Description f)) (best : Description f)
      → All (λ d. (d.size == "") ≡ false) ds
      → ((best.size == "") ≡ false → Beats (cheapest f ram cpu best ds) best)
        × ((d : Description f) → Mem d ds → suits d ≡ true → Beats (cheapest f ram cpu best ds) d)
        × ((cheapest f ram cpu best ds ≡ best)
            ⊎ (Mem (cheapest f ram cpu best ds) ds × (suits (cheapest f ram cpu best ds) ≡ true)))
  unfolding cheapest
  cheapest-Beats [] best h = (λ n. (n, irrefl best.price), λ d m. absurd (not-mem-nil m), inl refl)
  cheapest-Beats (d ∷ ds) best (n, h) =
      let next = pick_cheaper f ram cpu best d in
      let last = cheapest f ram cpu next ds in
      let (first, this, which) = pick_cheaper-Beats best d n in
      let (keeps, rest, found) = cheapest-Beats ds next h in
      (
        λ e. Beats-trans last next best (first e) (keeps (first e).0),
        λ x m fit.
            Or.elim (hlevel) (mem-cons.0 m)
              (λ e.
                let b = this (subst (λ y. suits y ≡ true) e fit) in
                subst (Beats last) (sym e) (Beats-trans last next d b (keeps b.0)))
              (λ m'. rest x m' fit),
        elim found [
          | inr (m, fit) ↦ inr (mem-cons.1 (Or.inr m), fit)
          | inl e ↦ elim which [
            | inl e' ↦ inl (e ∙ e')
            | inr (e', fit) ↦ inr (
              subst (λ y. Mem y (d ∷ ds)) (sym (e ∙ e')) mem-cons_self,
              subst (λ y. suits y ≡ true) (sym (e ∙ e')) fit,
            )
          ]
        ],
      )

  -- The answer is a size.
  abbrev pub IsCheapest : Value → List (Description f) → String → Type 0
  IsCheapest max_price ds size =
      (d : Description f) × Mem d ds
      × (d.size ≡ size)
      × (suits d ≡ true)
      × (affordable max_price d ≡ true)
      × ((x : Description f) → Mem x ds → suits x ≡ true → ltb x.price d.price ≡ false)

  -- If no price is NaN and every description has a size, then chooseBestSize answers the size of a description
  -- that fits and is affordable, with none that fits being cheaper, or it answers none, and then no description
  -- that fits is affordable.
  pub choose_best_size-IsCheapest :
      (max_price : Value) (ds : List (Description f))
      → All (λ d. (d.size == "") ≡ false) ds
      → IsCheapest max_price ds (choose_best_size f ds ram cpu max_price)
        ⊎ ((choose_best_size f ds ram cpu max_price ≡ "")
            × ((x : Description f) → Mem x ds → suits x ≡ true → affordable max_price x ≡ false))
  unfolding choose_best_size
  choose_best_size-IsCheapest max_price ds h =
      let best = cheapest f ram cpu (no_description f) ds in
      let (_, beats, found) = cheapest-Beats ds (no_description f) h in
      elim (Bool-cases (eqb max_price zero || leb best.price max_price)) [
        | inl a ↦ elim found [
          | inl e ↦ inr (
            rw (a) (ap (λ (d : Description f). d.size) e),
            λ x m fit.
                absurd (
                  true≢false
                    (sym (ap (λ (d : Description f). d.size == "") e) ∙ (beats x m fit).0)),
          )
          | inr (m, fit) ↦ inl (best, m, rw (a) refl, fit, a, λ x i k. (beats x i k).1)
        ]
        | inr a ↦ inr (
          rw (a) refl,
          λ x m fit.
              let (free, dear) = or-false (eqb max_price zero) (leb best.price max_price) a in
              elim (Bool-cases (leb x.price max_price)) [
                | inl l ↦ absurd (
                    true≢false (
                      sym (
                        leb-trans best.price x.price max_price
                          (not_lt-leb x.price best.price (beats x m fit).1) l)
                      ∙ dear))
                | inr l ↦ rw (free, l) refl
              ],
        )
      ]
