-- ===== src/Scheduler/Total.antt =====
-- minion/scheduler/master.go: lemmas on the loops of `makeContext`, and their end.
use mathlib.Core.Option
use mathlib.Core.List.{List}
use quilt.Prelude.{
  ℕ, zero, suc, ◌≡◌, refl, ap, ◌∙◌, false, Bool-cases, Option-cases, inl, inr, Option, none, some,
  String, [], ◌∷◌, ◌++◌, ◌==◌, string_eq, nat_eq, eq_iff, string_discrete, nat_beq_iff, length,
}
use quilt.Maps.{Map, get}
use quilt.Db.MinionRows.{Placement, Minion, Container, Image}
use quilt.Minion.Blueprint.{BlueprintImage, BlueprintImage-discrete}
use quilt.Scheduler.Context.{Sorting, assign, set_image, Context}
use quilt.Scheduler.Make.{
  append_to, put_container, forget_minion, use_image, take_in, take_in_all, make_context, workers,
  built_images, sorted, pointed,
}

put-some :
    (found : Option ℕ) (i : ℕ) (ctx : Context)
    → (found ≡ none → (ctx.memory i).minion ≡ "")
    → (c : Context) × (put_container found i ctx ≡ some c)
unfolding put_container
put-some found i ctx h = elim (Bool-cases ((ctx.memory i).minion == "")) [
  | inl e ↦ (record ctx { unassigned = ctx.unassigned ++ i ∷ [] }, rw e refl)
  | inr e ↦ elim (Option-cases found) [
    | inl f ↦ absurd (clash e (h f))
    | inr (k, f) ↦ (record ctx { minions = append_to k i ctx.minions }, rw (e, f) refl)
  ]
]
  where
    clash : ((ctx.memory i).minion == "") ≡ false → (ctx.memory i).minion ≡ "" → ⊥
    clash e q = cc (e, (eq_iff (ctx.memory i).minion "").1 q)

forgotten : (i : ℕ) (ctx : Context) → ((forget_minion none i ctx).memory i).minion ≡ ""
unfolding forget_minion assign
forgotten i ctx = elim (Bool-cases ((ctx.memory i).minion == "")) [
  | inl e ↦ rw e ((eq_iff (ctx.memory i).minion "").0 e)
  | inr e ↦ rw (e, (nat_beq_iff i i).1 refl) refl
]

same_minion :
    (img : Image) (i : ℕ) (ctx : Context)
    → ((use_image img i ctx).memory i).minion ≡ (ctx.memory i).minion
unfolding use_image set_image
same_minion img i ctx = elim (Bool-cases ((ctx.memory i).image_id == img.docker_id)) [
  | inl e ↦ rw e refl
  | inr e ↦ rw (e, (nat_beq_iff i i).1 refl) refl
]

forget-lem :
    (found : Option ℕ) (i : ℕ) (ctx : Context)
    → found ≡ none
    → ((forget_minion found i ctx).memory i).minion ≡ ""
forget-lem found i ctx f = ap (λ x. ((forget_minion x i ctx).memory i).minion) f ∙ forgotten i ctx

take_in-some :
    (by_ip : Map String ℕ) (built : Map BlueprintImage Image) (i : ℕ) (ctx : Context)
    → (c : Context) × (take_in by_ip built i ctx ≡ some c)
unfolding take_in
take_in-some by_ip built i ctx =
    let found = get string_discrete by_ip (ctx.memory i).minion in
    let c = forget_minion found i ctx in
    elim (Bool-cases ((c.memory i).dockerfile == "")) [
      | inl e ↦ let (d, p) = put-some found i c (forget-lem found i ctx) in (d, rw e p)
      | inr e ↦
          elim (Option-cases (
            get BlueprintImage-discrete built
              (record { name = (c.memory i).image; dockerfile = (c.memory i).dockerfile }))) [
                | inl g ↦ (c, rw (e, g) refl)
                | inr (img, g) ↦
                    let (d, p) =
                      put-some found i (use_image img i c)
                        (λ f. same_minion img i c ∙ forget-lem found i ctx f) in
                    (d, rw (e, g) p)
              ]
    ]

take_in_all-some :
    (by_ip : Map String ℕ) (built : Map BlueprintImage Image) (i n : ℕ) (ctx : Context)
    → (c : Context) × (take_in_all by_ip built i n ctx ≡ some c)
unfolding take_in_all
take_in_all-some by_ip built i zero ctx = (ctx, refl)
take_in_all-some by_ip built i (suc n) ctx =
    let (c, e) = take_in-some by_ip built i ctx in
    let (d, p) = take_in_all-some by_ip built (suc i) n c in (d, rw (e, take_in_all) p)

-- makeContext never uses a nil minion, whatever minions, containers and images there are: a container whose
-- minion is gone is taken off it before the minion is looked at.
pub make_context-some :
    (lib : Sorting) (sprint : List String → String) (minions : List Minion)
    (constraints : List Placement) (containers : List Container) (images : List Image)
    → (ctx : Context) × (make_context lib sprint minions constraints containers images ≡ some ctx)
unfolding make_context
make_context-some lib sprint minions constraints containers images =
    let start : Context = record {
      minions = (workers 0 minions ([], [])).0;
      constraints = constraints;
      unassigned = [];
      changed = [];
      memory = pointed containers;
    } in
    let (c, e) =
      take_in_all-some (workers 0 minions ([], [])).1 (built_images images []) 0 (length containers)
        start in
    (sorted lib sprint c, ap (Option.map (sorted lib sprint)) e)
