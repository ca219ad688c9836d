-- ===== src/Prelude/Elements.antt =====
-- A predicate at every element of a list, by recursion, and its reading through membership.
use mathlib.Core.Path.{sym, subst}
use mathlib.Core.Logic.{∥∥₁_elim, ∥∥₁_prop, ◌↔◌}
use mathlib.Core.Logic.Or
use mathlib.Core.List.{
  List, [], ◌∷◌, ◌++◌, Mem, Perm, mem-cons, mem-cons_self, mem-cons_of_mem, not-mem-nil, mem-append,
  Mem-prop, flat_map,
}
use mathlib.Core.List.Perm

abbrev pub All {ℓ κ} : {A : Type ℓ} → (A → Type κ) → List A → Type κ
All P [] = Unit
All P (x ∷ xs) = P x × All P xs

module _ {ℓ κ} {A : Type ℓ} (P : A → Type κ) where
  pub All-append : (xs ys : List A) → All P xs → All P ys → All P (xs ++ ys)
  All-append [] ys hx hy = hy
  All-append (x ∷ xs) ys hx hy = (hx.0, All-append xs ys hx.1 hy)

  pub All-of_mem : (xs : List A) → ((x : A) → Mem x xs → P x) → All P xs
  All-of_mem [] h = tt
  All-of_mem (x ∷ xs) h = (h x mem-cons_self, All-of_mem xs (λ y m. h y (mem-cons_of_mem x m)))

  pub mem-All : ((x : A) → IsProp (P x)) → (xs : List A) → All P xs → (x : A) → Mem x xs → P x
  mem-All p [] h x m = absurd (not-mem-nil m)
  mem-All p (y ∷ xs) h x m =
      Or.elim (p x) (mem-cons.0 m) (λ e. subst P (sym e) h.0) (mem-All p xs h.1 x)

  pub All-perm : ((x : A) → IsProp (P x)) → (xs ys : List A) → Perm xs ys → All P xs → All P ys
  All-perm p xs ys e h = All-of_mem ys (λ y m. mem-All p xs h y ((Perm.mem_iff e).1 m))

pub mem-flat_map {ℓ κ} :
    {A : Type ℓ} {B : Type κ} (f : A → List B) (xs : List A) (y : B)
    → Mem y (flat_map f xs) ↔ ∥ ((x : A) × Mem x xs × Mem y (f x)) ∥₁
unfolding flat_map
mem-flat_map f [] y =
    (λ m. absurd (not-mem-nil m), λ h. ∥∥₁_elim h Mem-prop (λ w. absurd (not-mem-nil w.1)))
mem-flat_map f (x ∷ xs) y =
    let rest = mem-flat_map f xs y in
    (
      λ m.
          Or.elim ∥∥₁_prop (mem-append.0 m) (λ h. ∣ (x, mem-cons_self, h) ∣₁)
            (λ h. ∥∥₁_elim (rest.0 h) ∥∥₁_prop (λ w. ∣ (w.0, mem-cons_of_mem x w.1, w.2) ∣₁)),
      λ h. ∥∥₁_elim h Mem-prop λ w.
          let (z, m, n) = w in
          Or.elim Mem-prop (mem-cons.0 m)
            (λ e. mem-append.1 (Or.inl (subst (λ v. Mem y (f v)) e n)))
            (λ m'. mem-append.1 (Or.inr (rest.1 ∣ (z, m', n) ∣₁))),
    )
