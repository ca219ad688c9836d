-- ===== src/Prelude/Filters.antt =====
-- Filters, concatenations of maps, and the elements that two lists share.
use mathlib.Core.Path.{◌≡◌, refl, sym, ap, ◌∙◌, subst}
use mathlib.Core.Bool.{Bool, true, false, false≢true}
use mathlib.Core.List.{
  List, [], ◌∷◌, ◌++◌, map, flat_map, Mem, mem-cons, mem-cons_of_mem, mem-append, not-mem-nil,
  Mem-prop, map-append,
}
use mathlib.Core.Logic.{◌↔◌, inl, inr, ∥∥₁_elim, ∥∥₁_prop}
use mathlib.Core.Logic.Or
use mathlib.Core.HLevel.{×_prop}
use mathlib.Core.Bool.{Bool-set}
use quilt.Prelude.Tests.{Bool-cases}
use quilt.Prelude.Lists.{filter}
use quilt.Prelude.Elements.{All, All-append, mem-flat_map}

module _ {A : Type 0} (p : A → Bool) where
  pub filter-append : (xs ys : List A) → filter p (xs ++ ys) ≡ filter p xs ++ filter p ys
  unfolding filter
  filter-append [] ys = refl
  filter-append (x ∷ xs) ys = elim (Bool-cases (p x)) [
    | inl e ↦ rw (e, filter) (ap (◌∷◌ x) (filter-append xs ys))
    | inr e ↦ rw (e, filter) (filter-append xs ys)
  ]

  pub filter_none : (xs : List A) → All (λ x. p x ≡ false) xs → filter p xs ≡ []
  unfolding filter
  filter_none [] h = refl
  filter_none (x ∷ xs) h = rw (h.0, filter) (filter_none xs h.1)

  pub mem-filter : (xs : List A) (x : A) → Mem x (filter p xs) ↔ (Mem x xs × (p x ≡ true))
  unfolding filter
  mem-filter [] x = (λ m. absurd (not-mem-nil m), λ h. h.0)
  mem-filter (y ∷ xs) x = elim (Bool-cases (p y)) [
    | inl e ↦
        rw (e, filter)
          (
            λ m.
                Or.elim (×_prop Mem-prop (Bool-set _ _)) (mem-cons.0 m)
                  (λ q. (mem-cons.1 (Or.inl q), subst (λ z. p z ≡ true) (sym q) e))
                  (λ n. let (n', h) = (mem-filter xs x).0 n in (mem-cons_of_mem y n', h)),
            λ h.
                Or.elim Mem-prop (mem-cons.0 h.0) (λ q. mem-cons.1 (Or.inl q))
                  (λ n. mem-cons_of_mem y ((mem-filter xs x).1 (n, h.1))),
          )
    | inr e ↦
        rw (e, filter)
          (
            λ m. let (n, h) = (mem-filter xs x).0 m in (mem-cons_of_mem y n, h),
            λ h.
                Or.elim Mem-prop (mem-cons.0 h.0)
                  (λ q. absurd (false≢true (sym (subst (λ z. p z ≡ false) (sym q) e) ∙ h.1)))
                  (λ n. (mem-filter xs x).1 (n, h.1)),
          )
  ]

module _ {A B : Type 0} where
  pub filter-flat_map :
      (p : B → Bool) (f g : A → List B)
      → ((x : A) → filter p (f x) ≡ g x)
      → (xs : List A) → filter p (flat_map f xs) ≡ flat_map g xs
  unfolding flat_map
  filter-flat_map p f g h [] = unfold filter in refl
  filter-flat_map p f g h (x ∷ xs) =
      filter-append p (f x) (flat_map f xs)
      ∙ rw (h x) (ap (◌++◌ (g x)) (filter-flat_map p f g h xs))

  abbrev pub nothing : A → List B
  nothing x = []

  pub flat_map_nil : (xs : List A) → flat_map nothing xs ≡ []
  unfolding flat_map
  flat_map_nil [] = refl
  flat_map_nil (x ∷ xs) = flat_map_nil xs

-- Every element of the one list is in the other.
abbrev pub Within : {A : Type 0} → List A → List A → Type 0
Within {A} xs ys = (y : A) → Mem y xs → Mem y ys

pub append-Within :
    {A : Type 0} (xs ys xs' ys' : List A)
    → Within xs xs'
    → Within ys ys'
    → Within (xs ++ ys) (xs' ++ ys')
append-Within xs ys xs' ys' h k y m =
    Or.elim Mem-prop (mem-append.0 m) (λ n. mem-append.1 (Or.inl (h y n)))
      (λ n. mem-append.1 (Or.inr (k y n)))

pub flat_map-Within :
    {A B : Type 0} (f g : A → List B) (xs ys : List A)
    → ((x : A) → Within (f x) (g x))
    → Within xs ys
    → Within (flat_map f xs) (flat_map g ys)
flat_map-Within f g xs ys h k y m =
    (mem-flat_map g ys y).1
      (∥∥₁_elim ((mem-flat_map f xs y).0 m) ∥∥₁_prop (λ w. ∣ (w.0, k w.0 w.1, h w.0 y w.2) ∣₁))

pub map-flat_map :
    {A B C : Type 0} (g : B → C) (f : A → List B) (h : A → List C)
    → ((x : A) → map g (f x) ≡ h x)
    → (xs : List A) → map g (flat_map f xs) ≡ flat_map h xs
unfolding flat_map
map-flat_map g f h e [] = refl
map-flat_map g f h e (x ∷ xs) =
    map-append g (f x) (flat_map f xs) ∙ rw (e x) (ap (◌++◌ (h x)) (map-flat_map g f h e xs))

pub All-map :
    {A : Type 0} (P Q : A → Type 0) → ((x : A) → P x → Q x) → (xs : List A) → All P xs → All Q xs
All-map P Q f [] h = tt
All-map P Q f (x ∷ xs) h = (f x h.0, All-map P Q f xs h.1)

pub All-flat_map :
    {A B : Type 0} (P : B → Type 0) (Q : A → Type 0) (f : A → List B)
    → ((x : A) → Q x → All P (f x))
    → (xs : List A) → All Q xs
    → All P (flat_map f xs)
unfolding flat_map
All-flat_map P Q f h [] q = tt
All-flat_map P Q f h (x ∷ xs) q =
    All-append P (f x) (flat_map f xs) (h x q.0) (All-flat_map P Q f h xs q.1)
