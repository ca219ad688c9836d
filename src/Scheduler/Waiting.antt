-- ===== src/Scheduler/Waiting.antt =====
-- minion/scheduler/master.go: the containers that `makeContext` lets wait for a minion.
use mathlib.Core.List.{List, mem-append_left, mem-append_right, mem-cons_self}
use mathlib.Core.Option.{some-injective}
use quilt.Prelude.{
  ℕ, zero, suc, ◌+◌, ◌<◌, ◌≤◌, ◌≡◌, refl, sym, ap, ◌∙◌, subst, true, Option, none, some, String, [],
  ◌∷◌, Mem, ◌==◌, string_eq, eq_iff, Bool-cases, Option-cases, inl, inr, ◌⊎◌, ◌≢◌, ℕ_discrete,
  string_discrete, arith,
}
use quilt.Maps.{Map, get}
use quilt.Db.MinionRows.{Placement, Container, Image}
use quilt.Minion.Blueprint.{BlueprintImage, BlueprintImage-discrete}
use quilt.Scheduler.Context.{Memory, Context}
use quilt.Scheduler.Make.{put_container, forget_minion, use_image, take_in, take_in_all}
use quilt.Scheduler.Indexes.{Indexed}
use quilt.Scheduler.Gather.{Sound, take_in-Sound}

forget-unassigned :
    (found : Option ℕ) (i : ℕ) (ctx : Context)
    → (forget_minion found i ctx).unassigned ≡ ctx.unassigned
unfolding forget_minion
forget-unassigned (some k) i ctx = refl
forget-unassigned none i ctx = elim (Bool-cases ((ctx.memory i).minion == "")) [
  | inl e ↦ rw (e) refl
  | inr e ↦ rw (e) refl
]

image-unassigned :
    (img : Image) (i : ℕ) (ctx : Context) → (use_image img i ctx).unassigned ≡ ctx.unassigned
unfolding use_image
image-unassigned img i ctx = elim (Bool-cases ((ctx.memory i).image_id == img.docker_id)) [
  | inl e ↦ rw (e) refl
  | inr e ↦ rw (e) refl
]

put-unassigned :
    (found : Option ℕ) (i j : ℕ) (ctx c : Context)
    → put_container found i ctx ≡ some c
    → Mem j ctx.unassigned
    → Mem j c.unassigned
unfolding put_container
put-unassigned found i j ctx c e m = elim (Bool-cases ((ctx.memory i).minion == "")) [
  | inl t ↦
      subst (λ (d : Context). Mem j d.unassigned) (some-injective _ _ (rw (t) at e))
        (mem-append_left (i ∷ []) m)
  | inr t ↦ elim (Option-cases found) [
    | inl g ↦ absurd (cc (rw (t, g) at e))
    | inr (k, g) ↦
        subst (λ (d : Context). Mem j d.unassigned) (some-injective _ _ (rw (t, g) at e)) m
  ]
]

-- A container that waits goes on waiting.
take_in-unassigned :
    (by_ip : Map String ℕ) (built : Map BlueprintImage Image) (i j : ℕ) (ctx c : Context)
    → take_in by_ip built i ctx ≡ some c
    → Mem j ctx.unassigned
    → Mem j c.unassigned
unfolding take_in
take_in-unassigned by_ip built i j ctx c e m =
    let found = get string_discrete by_ip (ctx.memory i).minion in
    let d = forget_minion found i ctx in
    let m1 : Mem j d.unassigned = subst (Mem j) (sym (forget-unassigned found i ctx)) m in
    elim (Bool-cases ((d.memory i).dockerfile == "")) [
      | inl t ↦ put-unassigned found i j d c (rw (t) at e) m1
      | inr t ↦
          elim (Option-cases (
            get BlueprintImage-discrete built
              (record { name = (d.memory i).image; dockerfile = (d.memory i).dockerfile }))) [
                | inl g ↦
                    subst (λ (y : Context). Mem j y.unassigned)
                      (some-injective _ _ (rw (t, g) at e)) m1
                | inr (img, g) ↦
                    put-unassigned found i j (use_image img i d) c (rw (t, g) at e)
                      (subst (Mem j) (sym (image-unassigned img i d)) m1)
              ]
    ]

forget_nothing :
    (found : Option ℕ) (i : ℕ) (ctx : Context)
    → (ctx.memory i).minion ≡ ""
    → forget_minion found i ctx ≡ ctx
unfolding forget_minion
forget_nothing (some k) i ctx h = refl
forget_nothing none i ctx h = rw ((eq_iff (ctx.memory i).minion "").1 h) refl

put-waits :
    (found : Option ℕ) (i : ℕ) (ctx c : Context)
    → (ctx.memory i).minion ≡ ""
    → put_container found i ctx ≡ some c
    → Mem i c.unassigned
unfolding put_container
put-waits found i ctx c h e =
    subst (λ (d : Context). Mem i d.unassigned)
      (some-injective _ _ (rw ((eq_iff (ctx.memory i).minion "").1 h) at e))
      (mem-append_right ctx.unassigned mem-cons_self)

-- A container without a minion and without a Dockerfile waits.
take_in-waits :
    (by_ip : Map String ℕ) (built : Map BlueprintImage Image) (i : ℕ) (ctx c : Context)
    → (ctx.memory i).minion ≡ ""
    → (ctx.memory i).dockerfile ≡ ""
    → take_in by_ip built i ctx ≡ some c
    → Mem i c.unassigned
unfolding take_in
take_in-waits by_ip built i ctx c h k e =
    let found = get string_discrete by_ip (ctx.memory i).minion in
    let d = forget_minion found i ctx in
    let same : d ≡ ctx = forget_nothing found i ctx h in
    let t : ((d.memory i).dockerfile == "") ≡ true =
      (eq_iff (d.memory i).dockerfile "").1
        (ap (λ (x : Context). (x.memory i).dockerfile) same ∙ k) in
    put-waits found i d c (ap (λ (x : Context). (x.memory i).minion) same ∙ h) (rw (t) at e)

nat_eq_or : (i j : ℕ) → (i ≡ j) ⊎ (i ≢ j)
nat_eq_or i j = elim (ℕ_discrete i j) [ yes p ↦ inl p | no n ↦ inr n ]

module _ (cs : List Placement) (mem0 : Memory) (by_ip : Map String ℕ)
    (built : Map BlueprintImage Image) where
  keeps :
      (i n j : ℕ) (ctx c : Context)
      → take_in_all by_ip built i n ctx ≡ some c
      → Mem j ctx.unassigned
      → Mem j c.unassigned
  unfolding take_in_all
  keeps i zero j ctx c e m = subst (λ (d : Context). Mem j d.unassigned) (some-injective _ _ e) m
  keeps i (suc n) j ctx c e m = elim (Option-cases (take_in by_ip built i ctx)) [
    | inl g ↦ absurd (cc (rw (g, take_in_all) at e))
    | inr (d, g) ↦
        keeps (suc i) n j d c (rw (g, take_in_all) at e)
          (take_in-unassigned by_ip built i j ctx d g m)
  ]

  pub take_in_all-waits :
      (i n j : ℕ) (ctx c : Context)
      → Sound cs mem0 i i ctx
      → Indexed by_ip ctx.minions
      → take_in_all by_ip built i n ctx ≡ some c
      → i ≤ j
      → j < i + n
      → (mem0 j).minion ≡ ""
      → (mem0 j).dockerfile ≡ ""
      → Mem j c.unassigned
  unfolding take_in_all
  take_in_all-waits i zero j ctx c h x e a b p q = absurd (omega arith)
  take_in_all-waits i (suc n) j ctx c h x e a b p q =
      elim (Option-cases (take_in by_ip built i ctx)) [
        | inl g ↦ absurd (cc (rw (g, take_in_all) at e))
        | inr (d, g) ↦
            let e' : take_in_all by_ip built (suc i) n d ≡ some c = rw (g, take_in_all) at e in
            elim (nat_eq_or i j) [
              | inl z ↦
                  let same : ctx.memory i ≡ mem0 i =
                    h.noted i (λ m. let k = h.near i m in absurd (omega arith)) in
                  keeps (suc i) n j d c e' (
                    subst (λ k. Mem k d.unassigned) z
                      (take_in-waits by_ip built i ctx d
                        (ap (λ (r : Container). r.minion) same ∙ ap (λ k. (mem0 k).minion) z ∙ p)
                        (ap (λ (r : Container). r.dockerfile) same
                          ∙ ap (λ k. (mem0 k).dockerfile) z
                          ∙ q)
                        g))
              | inr z ↦
                  let (h', x') = take_in-Sound cs mem0 by_ip built i ctx d h x g in
                  take_in_all-waits (suc i) n j d c h' x' e' (omega arith) (omega arith) p q
            ]
      ]
