-- ===== src/Scheduler/Contexts.antt =====
-- minion/scheduler/master.go: the context that `makeContext` makes.
use mathlib.Core.List.{List, not-mem-nil, Nodup-nil, mem-cons_self, mem-cons_of_mem}
use mathlib.Core.List.Perm
use mathlib.Core.Option
use mathlib.Core.Option.{some-injective}
use quilt.Prelude.{
  ◌<◌, string_eq, arith, ℕ, ◌≡◌, refl, sym, subst, some, none, Option, String, [], ◌∷◌, ◌++◌,
  length, Mem, Nodup, All, arith,
}
use quilt.Db.MinionRows.{Container, Placement, Minion, Image}
use quilt.Scheduler.Context.{Sorting, Memory, MinionState, Context}
use quilt.Scheduler.Make.{workers, built_images, take_in_all, pointed, sorted, make_context, less}
use quilt.Scheduler.Held.{held, Tied, mem-held}
use quilt.Scheduler.Indexes.{Indexed-nil, workers-Indexed}
use quilt.Scheduler.Gather.{Sound, take_in_all-Sound}
use quilt.Scheduler.Waiting.{take_in_all-waits}

pub All-from : {A : Type 0} (P : A → Type 0) (xs : List A) → ((x : A) → Mem x xs → P x) → All P xs
All-from P [] h = tt
All-from P (x ∷ xs) h = (h x mem-cons_self, All-from P xs (λ y m. h y (mem-cons_of_mem x m)))

-- The row of each container on a minion's list names the minion, by its address.
abbrev pub Names : Memory → List MinionState → Type 0
Names mem ms =
    All (λ (s : MinionState). All (λ i. (mem i).minion ≡ s.minion.private_ip) s.containers) ms

pub Tied-Names : (mem : Memory) (ms : List MinionState) → Tied mem ms → Names mem ms
Tied-Names mem ms t =
    All-from (λ (s : MinionState). All (λ i. (mem i).minion ≡ s.minion.private_ip) s.containers) ms
      (λ s m. All-from (λ i. (mem i).minion ≡ s.minion.private_ip) s.containers (t s m))

mapped-some :
    {A : Type 0} (f : A → A) (x : Option A) (b : A)
    → Option.map f x ≡ some b
    → (a : A) × (x ≡ some a) × (f a ≡ b)
mapped-some f none b h = absurd (cc h)
mapped-some f (some a) b h = (a, refl, some-injective _ _ h)

module _ (lib : Sorting) (sprint : List String → String) where
  sorted-Sound :
      (cs : List Placement) (mem0 : Memory) (n : ℕ) (c : Context)
      → Sound cs mem0 n n c
      → Sound cs mem0 n n (sorted lib sprint c)
  sorted-Sound cs mem0 n c h =
      let p =
        Perm.append_left (held c.minions)
          (lib.sort-perm ℕ (less lib sprint c.memory) c.unassigned) in
      record {
        rules = h.rules;
        tied = h.tied;
        once = Perm.nodup (Perm.symm p) h.once;
        below = λ j m. h.below j ((Perm.mem_iff p).0 m);
        noted = h.noted;
        near = h.near;
        ids = h.ids;
      }

  start-Sound :
      (cs : List Placement) (mem0 : Memory) (ms : List MinionState)
      → held ms ≡ []
      → Sound cs mem0 0 0
          (record { minions = ms; constraints = cs; unassigned = []; changed = []; memory = mem0 })
  start-Sound cs mem0 ms e =
      let none_held : (j : ℕ) → ¬ Mem j (held ms ++ []) =
        λ j m. not-mem-nil (subst (λ l. Mem j (l ++ [])) e m) in
      record {
        rules = refl;
        tied = λ s m i n. absurd (not-mem-nil (subst (Mem i) e (mem-held ms s i m n)));
        once = subst (λ l. Nodup (l ++ [])) (sym e) Nodup-nil;
        below = λ j m. absurd (none_held j m);
        noted = λ j m. refl;
        near = λ j m. absurd (not-mem-nil m);
        ids = λ j. refl;
      }

  pub context-Sound :
      (minions : List Minion) (cs : List Placement) (containers : List Container)
      (images : List Image) (ctx : Context)
      → make_context lib sprint minions cs containers images ≡ some ctx
      → Sound cs (pointed containers) (length containers) (length containers) ctx
  unfolding make_context held
  context-Sound minions cs containers images ctx e =
      let ms = (workers 0 minions ([], [])).0 in
      let by_ip = (workers 0 minions ([], [])).1 in
      let start : Context = record {
        minions = ms;
        constraints = cs;
        unassigned = [];
        changed = [];
        memory = pointed containers;
      } in
      let (a, b) = workers-Indexed 0 minions [] [] refl held-nil Indexed-nil in
      let (c, g, q) =
        mapped-some (sorted lib sprint)
          (take_in_all by_ip (built_images images []) 0 (length containers) start) ctx e in
      subst (Sound cs (pointed containers) (length containers) (length containers)) q (
        sorted-Sound cs (pointed containers) (length containers) c (
          subst (λ n. Sound cs (pointed containers) n n c) (omega arith)
            (take_in_all-Sound cs (pointed containers) by_ip (built_images images []) 0
              (length containers) start c (start-Sound cs (pointed containers) ms a) b g)))
    where
      held-nil : held [] ≡ []
      held-nil = refl

  pub context-waits :
      (minions : List Minion) (cs : List Placement) (containers : List Container)
      (images : List Image) (ctx : Context)
      → make_context lib sprint minions cs containers images ≡ some ctx
      → (j : ℕ) → j < length containers
      → (pointed containers j).minion ≡ ""
      → (pointed containers j).dockerfile ≡ ""
      → Mem j ctx.unassigned
  unfolding make_context held
  context-waits minions cs containers images ctx e j b p q =
      let ms = (workers 0 minions ([], [])).0 in
      let by_ip = (workers 0 minions ([], [])).1 in
      let start : Context = record {
        minions = ms;
        constraints = cs;
        unassigned = [];
        changed = [];
        memory = pointed containers;
      } in
      let (a, x) = workers-Indexed 0 minions [] [] refl held_nil Indexed-nil in
      let (c, g, r) =
        mapped-some (sorted lib sprint)
          (take_in_all by_ip (built_images images []) 0 (length containers) start) ctx e in
      subst (λ (d : Context). Mem j d.unassigned) r
        ((Perm.mem_iff (lib.sort-perm ℕ (less lib sprint c.memory) c.unassigned)).1 (
          take_in_all-waits cs (pointed containers) by_ip (built_images images []) 0
            (length containers) j start c (start-Sound cs (pointed containers) ms a) x g
            (omega arith) (omega arith) p q))
    where
      held_nil : held [] ≡ []
      held_nil = refl
