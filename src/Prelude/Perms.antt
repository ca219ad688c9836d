-- ===== src/Prelude/Perms.antt =====
-- Facts on permutations that the library leaves to its users.
use mathlib.Core.List.{List, [], ◌∷◌, ◌++◌, Perm, perm_middle}
use Prim.Native.Nat.{suc}
use mathlib.Core.List.Perm
use mathlib.Core.List.{mem-cons, mem-cons_self, not-mem-nil}
use mathlib.Core.Logic.Or
use native.Mathlib.Omega.{arith}
use mathlib.Core.List.{Permᴰ}
use mathlib.Core.Path.{◌≡◌, refl, ap, ◌∙◌, subst}
use mathlib.Core.Logic.{∥∥₁_elim, ∥∥₁_prop}
use native.Mathlib.Nat.{ℕ_set}
use mathlib.Core.Bool.{Bool, true, false, not}
use mathlib.Core.Logic.{inl, inr}
use quilt.Prelude.Tests.{Bool-cases}
use quilt.Prelude.Lists.{length, filter}

module _ {ℓ} {A : Type ℓ} where
  pub perm-cons_middle :
      (x : A) {xs : List A} (ys zs : List A) → Perm xs (zs ++ ys) → Perm (x ∷ xs) (zs ++ x ∷ ys)
  perm-cons_middle x ys zs p = Perm.trans (Perm.cons x p) (Perm.symm (perm_middle zs ys))

  permᴰ-length : {xs ys : List A} → Permᴰ xs ys → length xs ≡ length ys
  permᴰ-length Permᴰ.nil = refl
  permᴰ-length (Permᴰ.cons e p) = ap suc (permᴰ-length p)
  permᴰ-length (Permᴰ.swap e f) = refl
  permᴰ-length (Permᴰ.trans p q) = permᴰ-length p ∙ permᴰ-length q

  pub perm-length : {xs ys : List A} → Perm xs ys → length xs ≡ length ys
  perm-length p = ∥∥₁_elim p (ℕ_set _ _) permᴰ-length

-- The elements that pass a test and those that do not.
pub filter-split :
    {A : Type 0} (p : A → Bool) (xs : List A) → Perm (filter p xs ++ filter (λ x. not (p x)) xs) xs
unfolding filter
filter-split p [] = Perm.refl []
filter-split p (x ∷ xs) = elim (Bool-cases (p x)) [
  | inl e ↦ rw (e, filter) (Perm.cons x (filter-split p xs))
  | inr e ↦ rw (e, filter) (Perm.trans (perm_middle _ _) (Perm.cons x (filter-split p xs)))
]

module _ {A : Type 0} (p : A → Bool) where
  pub kept : (a : A) (xs : List A) → p a ≡ true → filter p (a ∷ xs) ≡ a ∷ filter p xs
  unfolding filter
  kept a xs e = rw (e, filter) refl

  pub gone : (a : A) (xs : List A) → p a ≡ false → filter p (a ∷ xs) ≡ filter p xs
  unfolding filter
  gone a xs e = rw (e, filter) refl

  filter-cons :
      (a : A) (xs ys : List A)
      → Perm (filter p xs) (filter p ys)
      → Perm (filter p (a ∷ xs)) (filter p (a ∷ ys))
  filter-cons a xs ys h = elim (Bool-cases (p a)) [
    | inl e ↦ rw (kept a xs e, kept a ys e) (Perm.cons a h)
    | inr e ↦ rw (gone a xs e, gone a ys e) h
  ]

  filter-swap : (a b : A) (xs : List A) → Perm (filter p (a ∷ b ∷ xs)) (filter p (b ∷ a ∷ xs))
  filter-swap a b xs = elim (Bool-cases (p a)) [
    | inl e ↦ elim (Bool-cases (p b)) [
      | inl f ↦
          rw (kept a (b ∷ xs) e, kept b (a ∷ xs) f, kept b xs f, kept a xs e)
            (Perm.swap b a (filter p xs))
      | inr f ↦
          rw (kept a (b ∷ xs) e, gone b (a ∷ xs) f, gone b xs f, kept a xs e)
            (Perm.refl (a ∷ filter p xs))
    ]
    | inr e ↦ elim (Bool-cases (p b)) [
      | inl f ↦
          rw (gone a (b ∷ xs) e, kept b (a ∷ xs) f, kept b xs f, gone a xs e)
            (Perm.refl (b ∷ filter p xs))
      | inr f ↦
          rw (gone a (b ∷ xs) e, gone b (a ∷ xs) f, gone b xs f, gone a xs e)
            (Perm.refl (filter p xs))
    ]
  ]

  filter-permᴰ : {xs ys : List A} → Permᴰ xs ys → Perm (filter p xs) (filter p ys)
  filter-permᴰ Permᴰ.nil = Perm.refl (filter p [])
  filter-permᴰ (Permᴰ.cons {a} {b} {l₁} {l₂} e d) =
      subst (λ y. Perm (filter p (a ∷ l₁)) (filter p (y ∷ l₂))) e
        (filter-cons a l₁ l₂ (filter-permᴰ d))
  filter-permᴰ (Permᴰ.swap {a} {b} {a'} {b'} {l} e f) =
      subst (λ y. Perm (filter p (a ∷ b ∷ l)) (filter p (a' ∷ y ∷ l))) e
        (subst (λ y. Perm (filter p (a ∷ b ∷ l)) (filter p (y ∷ a ∷ l))) f (filter-swap a b l))
  filter-permᴰ (Permᴰ.trans d e) = Perm.trans (filter-permᴰ d) (filter-permᴰ e)

  -- A filter does not mind the order.
  pub filter-perm : {xs ys : List A} → Perm xs ys → Perm (filter p xs) (filter p ys)
  filter-perm h = ∥∥₁_elim h ∥∥₁_prop filter-permᴰ

pub perm-one : {A : Type 0} → IsSet A → (x : A) (xs : List A) → Perm xs (x ∷ []) → xs ≡ x ∷ []
perm-one s x [] h = absurd (omega (arith, perm-length h))
perm-one s x (y ∷ z ∷ xs) h = absurd (omega (arith, perm-length h))
perm-one s x (y ∷ []) h =
    ap (λ z. z ∷ [])
      (Or.elim (s y x) (mem-cons.0 ((Perm.mem_iff h).0 mem-cons_self)) (λ e. e)
        (λ m. absurd (not-mem-nil m)))
