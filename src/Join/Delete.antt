-- ===== src/Join/Delete.antt =====
-- join/join.go: `sliceDel` takes out one element, and reorders the others.
use mathlib.Core.List.{append-nil}
use mathlib.Core.List.Perm
use quilt.Prelude.{
  ℕ, zero, suc, ◌-◌, ◌≡◌, refl, ◌≢◌, inl, inr, Option-cases, sym, ap, ◌∙◌, subst, none, some, List,
  [], ◌∷◌, ◌++◌, Perm, arith, length, get_elem?, set, take,
}
use quilt.Prelude.Perms.{perm-cons_middle}
use quilt.Join.Score.{slice_del}

last_suc : (n : ℕ) → suc (suc n) - 1 ≡ suc (suc n - 1)
last_suc n = omega arith

module _ {ℓ} {A : Type ℓ} where
  take-length : (zs ys : List A) → take (length zs) (zs ++ ys) ≡ zs
  take-length [] ys = refl
  take-length (z ∷ zs) ys = ap (◌∷◌ z) (take-length zs ys)

  set_last-perm :
      (zs : List A) (last : A) (i : ℕ) (x : A)
      → get_elem? (zs ++ last ∷ []) i ≡ some x
      → Perm (x ∷ take (length zs) (set (zs ++ last ∷ []) i last)) (zs ++ last ∷ [])
  set_last-perm [] last zero x h = Perm.cons' (cc) (Perm.refl [])
  set_last-perm [] last (suc i) x h = absurd (cc)
  set_last-perm (z ∷ zs) last zero x h = Perm.cons' (cc) (
      Perm.trans
        (Perm.cons last
          (subst (λ ys. Perm ys zs) (sym (take-length zs (last ∷ []))) (Perm.refl zs)))
        (perm-cons_middle last [] zs
          (subst (λ ys. Perm zs ys) (sym (append-nil zs)) (Perm.refl zs))))
  set_last-perm (z ∷ zs) last (suc i) x h =
      Perm.trans (Perm.swap z x _) (Perm.cons z (set_last-perm zs last i x h))

  last-tail :
      (x y : A) (xs : List A)
      → get_elem? (x ∷ y ∷ xs) (length (x ∷ y ∷ xs) - 1) ≡ get_elem? (y ∷ xs) (length (y ∷ xs) - 1)
  last-tail x y xs = ap (get_elem? (x ∷ y ∷ xs)) (last_suc (length xs))

  split_last :
      (xs : List A) (last : A)
      → get_elem? xs (length xs - 1) ≡ some last
      → (zs : List A) × (xs ≡ zs ++ last ∷ []) × (length xs - 1 ≡ length zs)
  split_last [] last h = absurd (cc)
  split_last (x ∷ []) last h = ([], cc, refl)
  split_last (x ∷ y ∷ xs) last h =
      let (zs, e, n) = split_last (y ∷ xs) last (sym (last-tail x y xs) ∙ h) in
      (x ∷ zs, ap (◌∷◌ x) e, omega arith)

  pub get_elem?-append :
      (zs : List A) (x : A) (ys : List A) → get_elem? (zs ++ x ∷ ys) (length zs) ≡ some x
  get_elem?-append [] x ys = refl
  get_elem?-append (z ∷ zs) x ys = get_elem?-append zs x ys

  get_last-some :
      (xs : List A) (i : ℕ) (x : A) → get_elem? xs i ≡ some x → get_elem? xs (length xs - 1) ≢ none
  get_last-some [] i x h e = cc
  get_last-some (y ∷ []) i x h e = cc
  get_last-some (y ∷ z ∷ xs) i x h e = get_last-some (z ∷ xs) 0 z refl (sym (last-tail y z xs) ∙ e)

  pub slice_del-perm :
      (xs : List A) (i : ℕ) (x : A) → get_elem? xs i ≡ some x → Perm (x ∷ slice_del xs i) xs
  unfolding slice_del
  slice_del-perm xs i x h = elim (Option-cases (get_elem? xs (length xs - 1))) [
    | inl e ↦ absurd (get_last-some xs i x h e)
    | inr (last, e) ↦
        let (zs, p, n) = split_last xs last e in
        rw (e, slice_del, n)
          (subst (λ ys. Perm (x ∷ take (length zs) (set ys i last)) ys) (sym p)
            (set_last-perm zs last i x (subst (λ ys. get_elem? ys i ≡ some x) p h)))
  ]
