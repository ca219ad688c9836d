-- ===== src/Scheduler/Gather.antt =====
-- minion/scheduler/master.go: what `makeContext` gathers.
use native.Mathlib.Bridge.{le_prop}
use mathlib.Core.List.{
  List, mem-cons, mem-append, mem-append_left, mem-append_right, not-mem-nil, perm_middle,
  perm_append_comm, Nodup-cons,
}
use mathlib.Core.List.Perm
use mathlib.Core.Logic.Or
use mathlib.Core.Option.{some-injective}
use quilt.Prelude.{
  ℕ, zero, suc, ◌+◌, ◌<◌, ◌≡◌, ◌≢◌, refl, sym, ap, ◌∙◌, subst, Option, none, some, String, [], ◌∷◌,
  ◌++◌, Mem, Nodup, Perm, ◌==◌, nat_eq, string_eq, nat_beq_iff, Bool-cases, Option-cases, inl, inr,
  string_discrete, arith,
}
use quilt.Maps.{Map, get}
use quilt.Db.MinionRows.{Placement, Container, Image}
use quilt.Minion.Blueprint.{BlueprintImage, BlueprintImage-discrete}
use quilt.Scheduler.Context.{Memory, assign, set_image, MinionState, Context}
use quilt.Scheduler.Make.{append_to, put_container, forget_minion, use_image, take_in, take_in_all}
use quilt.Scheduler.Held.{held, Tied, Tied-same, not_it, assign_other}
use quilt.Scheduler.Indexes.{At, At-append_to, Indexed, append_to-Tied}

-- What holds of the context when the containers before the pointer `i` are taken in, and rows before `b` may be
-- noted as changed: the lists have each of them at most once, with the minion that its row names, and the rows
-- that are not noted are as they were.
pub record Sound (cs : List Placement) (mem0 : Memory) (i b : ℕ) (ctx : Context) : Type 0 where
  pub rules : ctx.constraints ≡ cs
  pub tied : Tied ctx.memory ctx.minions
  pub once : Nodup (held ctx.minions ++ ctx.unassigned)
  pub below : (j : ℕ) → Mem j (held ctx.minions ++ ctx.unassigned) → j < i
  pub noted : (j : ℕ) → ¬ Mem j ctx.changed → ctx.memory j ≡ mem0 j
  pub near : (j : ℕ) → Mem j ctx.changed → j < b
  pub ids : (j : ℕ) → (ctx.memory j).id ≡ (mem0 j).id

module _ (cs : List Placement) (mem0 : Memory) where
  fresh :
      (i : ℕ) (ctx : Context)
      → Sound cs mem0 i (suc i) ctx
      → ¬ Mem i (held ctx.minions ++ ctx.unassigned)
  fresh i ctx h m = let k = h.below i m in absurd (omega arith)

  change-Sound :
      (i : ℕ) (ctx : Context) (mem' : Memory)
      → Sound cs mem0 i (suc i) ctx
      → ((j : ℕ) → j ≢ i → mem' j ≡ ctx.memory j)
      → (mem' i).id ≡ (ctx.memory i).id
      → Sound cs mem0 i (suc i) (record ctx { memory = mem'; changed = ctx.changed ++ i ∷ [] })
  change-Sound i ctx mem' h same id = record {
    rules = h.rules;
    tied =
        Tied-same ctx.memory mem' ctx.minions
          (λ j m.
            same j
              (not_it (held ctx.minions) (λ x. fresh i ctx h (mem-append_left ctx.unassigned x)) m))
          h.tied;
    once = h.once;
    below = h.below;
    noted = λ j n.
        same j (λ e. n (mem-append_right ctx.changed (mem-cons.1 (Or.inl e))))
        ∙ h.noted j (λ m. n (mem-append_left (i ∷ []) m));
    near = λ j m.
        Or.elim le_prop (mem-append.0 m) (h.near j)
          (λ m'. Or.elim le_prop (mem-cons.0 m') (λ e. omega arith) (λ x. absurd (not-mem-nil x)));
    ids = λ j. elim (Bool-cases (j == i)) [
      | inl e ↦
          let q = (nat_beq_iff j i).0 e in
          subst (λ k. (mem' k).id ≡ (mem0 k).id) (sym q) (id ∙ h.ids i)
      | inr e ↦
          ap (λ (c : Container). c.id) (same j (λ q. cc (sym e ∙ (nat_beq_iff j i).1 q))) ∙ h.ids j
    ];
  }

  widen : (i : ℕ) (ctx : Context) → Sound cs mem0 i (suc i) ctx → Sound cs mem0 (suc i) (suc i) ctx
  widen i ctx h = record {
    rules = h.rules;
    tied = h.tied;
    once = h.once;
    below = λ j m. let k = h.below j m in omega arith;
    noted = h.noted;
    near = h.near;
    ids = h.ids;
  }

  enter : (i : ℕ) (ctx : Context) → Sound cs mem0 i i ctx → Sound cs mem0 i (suc i) ctx
  enter i ctx h = record {
    rules = h.rules;
    tied = h.tied;
    once = h.once;
    below = h.below;
    noted = h.noted;
    near = λ j m. let k = h.near j m in omega arith;
    ids = h.ids;
  }

  -- The container joins the lists.
  join-Sound :
      (i : ℕ) (ctx : Context) (ms : List MinionState) (us : List ℕ)
      → Sound cs mem0 i (suc i) ctx
      → Tied ctx.memory ms
      → Perm (held ms ++ us) (i ∷ (held ctx.minions ++ ctx.unassigned))
      → Sound cs mem0 (suc i) (suc i) (record ctx { minions = ms; unassigned = us })
  join-Sound i ctx ms us h t p = record {
    rules = h.rules;
    tied = t;
    once = Perm.nodup (Perm.symm p) (Nodup-cons.1 (fresh i ctx h, h.once));
    below = λ j m.
        Or.elim le_prop (mem-cons.0 ((Perm.mem_iff p).0 m)) (λ e. omega arith)
          (λ m'. let k = h.below j m' in omega arith);
    noted = h.noted;
    near = h.near;
    ids = h.ids;
  }

  -- The minion that the map gives for the container, if it gives one, has the address in its row.
  abbrev Found : Option ℕ → ℕ → Context → Type 0
  Found found i ctx = (k : ℕ) → found ≡ some k → At k (ctx.memory i).minion ctx.minions

  forget-Sound :
      (found : Option ℕ) (i : ℕ) (ctx : Context)
      → Sound cs mem0 i (suc i) ctx
      → Found found i ctx
      → Sound cs mem0 i (suc i) (forget_minion found i ctx)
        × Found found i (forget_minion found i ctx)
        × ((forget_minion found i ctx).minions ≡ ctx.minions)
  unfolding forget_minion assign
  forget-Sound (some k) i ctx h f = (h, f, refl)
  forget-Sound none i ctx h f = elim (Bool-cases ((ctx.memory i).minion == "")) [
    | inl e ↦ rw (e) (h, f, refl)
    | inr e ↦ rw (e) (
      change-Sound i ctx (assign ctx.memory i "") h (λ j n. assign_other ctx.memory i "" j n)
          (rw ((nat_beq_iff i i).1 refl) refl),
      λ k q. absurd (cc q),
      refl,
    )
  ]

  image-Sound :
      (found : Option ℕ) (img : Image) (i : ℕ) (ctx : Context)
      → Sound cs mem0 i (suc i) ctx
      → Found found i ctx
      → Sound cs mem0 i (suc i) (use_image img i ctx)
        × Found found i (use_image img i ctx)
        × ((use_image img i ctx).minions ≡ ctx.minions)
  unfolding use_image set_image
  image-Sound found img i ctx h f = elim (Bool-cases ((ctx.memory i).image_id == img.docker_id)) [
    | inl e ↦ rw (e) (h, f, refl)
    | inr e ↦ rw (e) (
      change-Sound i ctx (set_image ctx.memory i img.docker_id) h
          (λ j n. elim (Bool-cases (j == i)) [
            | inl t ↦ absurd (n ((nat_beq_iff j i).0 t))
            | inr t ↦ rw (set_image, t) refl
          ])
          (rw ((nat_beq_iff i i).1 refl) refl),
      λ k q. rw ((nat_beq_iff i i).1 refl) (f k q),
      refl,
    )
  ]

  put-Sound :
      (by_ip : Map String ℕ) (found : Option ℕ) (i : ℕ) (ctx c : Context)
      → Sound cs mem0 i (suc i) ctx
      → Found found i ctx
      → Indexed by_ip ctx.minions
      → put_container found i ctx ≡ some c
      → Sound cs mem0 (suc i) (suc i) c × Indexed by_ip c.minions
  unfolding put_container
  put-Sound by_ip found i ctx c h f x e = elim (Bool-cases ((ctx.memory i).minion == "")) [
    | inl t ↦
        let q : record ctx { unassigned = ctx.unassigned ++ i ∷ [] } ≡ c =
          some-injective _ _ (rw (t) at e) in
        subst (λ d. Sound cs mem0 (suc i) (suc i) d × Indexed by_ip d.minions) q
          (
            join-Sound i ctx ctx.minions (ctx.unassigned ++ i ∷ []) h h.tied (
                Perm.trans
                  (Perm.append_left (held ctx.minions) (perm_append_comm ctx.unassigned (i ∷ [])))
                  (perm_middle (held ctx.minions) ctx.unassigned)),
            x,
          )
    | inr t ↦ elim (Option-cases found) [
      | inl n ↦ absurd (cc (rw (t, n) at e))
      | inr (k, g) ↦
          let q : record ctx { minions = append_to k i ctx.minions } ≡ c =
            some-injective _ _ (rw (t, g) at e) in
          let (tied, p) =
            append_to-Tied ctx.memory k i ctx.minions
              (λ m. fresh i ctx h (mem-append_left ctx.unassigned m)) h.tied (f k g) in
          subst (λ d. Sound cs mem0 (suc i) (suc i) d × Indexed by_ip d.minions) q
            (
              join-Sound i ctx (append_to k i ctx.minions) ctx.unassigned h tied
                  (Perm.append_right ctx.unassigned p),
              λ ip j a. At-append_to k j i ip ctx.minions (x ip j a),
            )
    ]
  ]

  pub take_in-Sound :
      (by_ip : Map String ℕ) (built : Map BlueprintImage Image) (i : ℕ) (ctx c : Context)
      → Sound cs mem0 i i ctx
      → Indexed by_ip ctx.minions
      → take_in by_ip built i ctx ≡ some c
      → Sound cs mem0 (suc i) (suc i) c × Indexed by_ip c.minions
  unfolding take_in
  take_in-Sound by_ip built i ctx c h x e =
      let found = get string_discrete by_ip (ctx.memory i).minion in
      let (h1, f1, m1) =
        forget-Sound found i ctx (enter i ctx h) (λ k g. x (ctx.memory i).minion k g) in
      let d = forget_minion found i ctx in
      let x1 : Indexed by_ip d.minions = subst (Indexed by_ip) (sym m1) x in
      elim (Bool-cases ((d.memory i).dockerfile == "")) [
        | inl t ↦ put-Sound by_ip found i d c h1 f1 x1 (rw (t) at e)
        | inr t ↦
            elim (Option-cases (
              get BlueprintImage-discrete built
                (record { name = (d.memory i).image; dockerfile = (d.memory i).dockerfile }))) [
                  | inl g ↦
                      subst (λ y. Sound cs mem0 (suc i) (suc i) y × Indexed by_ip y.minions)
                        (some-injective _ _ (rw (t, g) at e)) (widen i d h1, x1)
                  | inr (img, g) ↦
                      let (h2, f2, m2) = image-Sound found img i d h1 f1 in
                      put-Sound by_ip found i (use_image img i d) c h2 f2
                        (subst (Indexed by_ip) (sym m2) x1) (rw (t, g) at e)
                ]
      ]

  pub take_in_all-Sound :
      (by_ip : Map String ℕ) (built : Map BlueprintImage Image) (i n : ℕ) (ctx c : Context)
      → Sound cs mem0 i i ctx
      → Indexed by_ip ctx.minions
      → take_in_all by_ip built i n ctx ≡ some c
      → Sound cs mem0 (i + n) (i + n) c
  unfolding take_in_all
  take_in_all-Sound by_ip built i zero ctx c h x e =
      subst (λ k. Sound cs mem0 k k c) (omega arith)
        (subst (Sound cs mem0 i i) (some-injective _ _ e) h)
  take_in_all-Sound by_ip built i (suc n) ctx c h x e =
      elim (Option-cases (take_in by_ip built i ctx)) [
        | inl g ↦ absurd (cc (rw (g, take_in_all) at e))
        | inr (d, g) ↦
            let (h', x') = take_in-Sound by_ip built i ctx d h x g in
            subst (λ k. Sound cs mem0 k k c) (omega arith)
              (take_in_all-Sound by_ip built (suc i) n d c h' x' (rw (g, take_in_all) at e))
      ]
