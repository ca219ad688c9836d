-- ===== src/Join/Pick.antt =====
-- join/join.go: the inner loop of `Join` finds the best match.
use mathlib.Core.List.{append-nil, append_assoc}
use mathlib.Core.Option
use native.Mathlib.Bridge.{le_prop}
use quilt.Prelude.{
  ℕ, zero, suc, ◌≤◌, ◌≡◌, refl, true, Bool-cases, Bool, if◌then◌else◌, inl, inr, sym, ap, ◌∙◌,
  subst, Option, none, some, List, [], ◌∷◌, ◌++◌, Perm, arith, length, length-append, get_elem?,
  ltb, ℤ, pos, negsuc, is_neg, All, All-append,
}
use quilt.Join.Score.{Best, better, best_index, pick}
use quilt.Join.Delete.{slice_del-perm, get_elem?-append}

-- A match at score `z` is no better than one at score `s`.
abbrev pub NoBetter : ℕ → ℤ → Type 0
NoBetter s (negsuc n) = Unit
NoBetter s (pos t) = s ≤ t

pub NoBetter-prop : (s : ℕ) (z : ℤ) → IsProp (NoBetter s z)
NoBetter-prop s (negsuc n) = hlevel
NoBetter-prop s (pos t) = le_prop

NoBetter-trans : (s t : ℕ) (z : ℤ) → s ≤ t → NoBetter t z → NoBetter s z
NoBetter-trans s t (negsuc n) h k = tt
NoBetter-trans s t (pos u) h k = omega arith

less→le : (t s : ℕ) → ltb t s ≡ true → t ≤ s
less→le t s h = ground arith

NoBetter-zero : (z : ℤ) → NoBetter 0 z
NoBetter-zero (negsuc n) = tt
NoBetter-zero (pos u) = omega arith

module _ {ℓ} {A : Type ℓ} where
  NoBetter-All-zero : (f : A → ℤ) (xs : List A) → All (λ x. NoBetter 0 (f x)) xs
  NoBetter-All-zero f [] = tt
  NoBetter-All-zero f (x ∷ xs) = (NoBetter-zero (f x), NoBetter-All-zero f xs)

  NoBetter-All-le :
      (f : A → ℤ) (s t : ℕ) (xs : List A)
      → s ≤ t
      → All (λ x. NoBetter t (f x)) xs
      → All (λ x. NoBetter s (f x)) xs
  NoBetter-All-le f s t [] h a = tt
  NoBetter-All-le f s t (x ∷ xs) h a =
      (NoBetter-trans s t (f x) h a.0, NoBetter-All-le f s t xs h a.1)

  NoBetter-All-neg :
      (f : A → ℤ) (s : ℕ) (xs : List A)
      → All (λ x. is_neg (f x) ≡ true) xs
      → All (λ x. NoBetter s (f x)) xs
  NoBetter-All-neg f s [] a = tt
  NoBetter-All-neg f s (x ∷ xs) a = (ground arith, NoBetter-All-neg f s xs a.1)

module _ {L R : Type 0} (score : L → R → ℤ) where
  -- The index `k` of `rights` has a match at score `s`, and none of `seen` has a better one.
  abbrev Found : L → List R → List R → ℕ → ℕ → Type 0
  Found l rights seen k s =
      (r : R) × (get_elem? rights k ≡ some r)
      × (score l r ≡ pos s)
      × All (λ x. NoBetter s (score l x)) seen

  abbrev BestOf : L → List R → List R → Best → Type 0
  BestOf l rights seen none = All (λ x. is_neg (score l x) ≡ true) seen
  BestOf l rights seen (some (k, s)) = Found l rights seen k s

  abbrev Picked : L → List R → Option ℕ → Type 0
  Picked l rights none = All (λ x. is_neg (score l x) ≡ true) rights
  Picked l rights (some k) = (s : ℕ) × Found l rights rights k s

  -- The step of the loop at a positive score.
  better-BestOf :
      (l : L) (before rs : List R) (r : R) (best : Best) (t : ℕ)
      → score l r ≡ pos t
      → BestOf l (before ++ r ∷ rs) before best
      → BestOf l (before ++ r ∷ rs) (before ++ r ∷ []) (better best (length before) t)
  better-BestOf l before rs r none t e b = (
    r,
    get_elem?-append before r rs,
    e,
    All-append _ before (r ∷ []) (NoBetter-All-neg (score l) t before b) (ground arith, tt),
  )
  better-BestOf l before rs r (some (k, s)) t e (r', g, e', a) = elim (Bool-cases (ltb t s)) [
    | inl less ↦
        subst
          (λ (b : Bool).
            BestOf l (before ++ r ∷ rs) (before ++ r ∷ [])
              (if b then some (length before, t) else some (k, s)))
          (sym less)
          (
            r,
            get_elem?-append before r rs,
            e,
            All-append _ before (r ∷ []) (NoBetter-All-le (score l) t s before (less→le t s less) a)
                (ground arith, tt),
          )
    | inr more ↦
        subst
          (λ (b : Bool).
            BestOf l (before ++ r ∷ rs) (before ++ r ∷ [])
              (if b then some (length before, t) else some (k, s)))
          (sym more) (r', g, e', All-append _ before (r ∷ []) a (ground arith, tt))
  ]

  All-snoc-neg :
      (l : L) (before : List R) (r : R)
      → All (λ x. is_neg (score l x) ≡ true) before
      → is_neg (score l r) ≡ true
      → All (λ x. is_neg (score l x) ≡ true) (before ++ r ∷ [])
  All-snoc-neg l before r a h = All-append _ before (r ∷ []) a (h, tt)

  skip-BestOf :
      (l : L) (before rs : List R) (r : R) (best : Best) (n : ℕ)
      → score l r ≡ negsuc n
      → BestOf l (before ++ r ∷ rs) before best
      → BestOf l (before ++ r ∷ rs) (before ++ r ∷ []) best
  skip-BestOf l before rs r none n e b = All-snoc-neg l before r b (ground arith)
  skip-BestOf l before rs r (some (k, s)) n e (r', g, e', a) =
      (r', g, e', All-append _ before (r ∷ []) a (ground arith, tt))

  length-snoc : (before : List R) (r : R) → length (before ++ r ∷ []) ≡ suc (length before)
  length-snoc before r = omega (arith, length-append before (r ∷ []))

  exact-Picked :
      (l : L) (before rs : List R) (r : R)
      → score l r ≡ pos zero
      → Picked l (before ++ r ∷ rs) (some (length before))
  exact-Picked l before rs r e =
      (0, (r, get_elem?-append before r rs, e, NoBetter-All-zero (score l) (before ++ r ∷ rs)))

  end-Picked :
      (l : L) (before : List R) (best : Best)
      → BestOf l before before best
      → Picked l before (Option.map (λ b. b.0) best)
  end-Picked l before none b = b
  end-Picked l before (some (k, s)) b = (s, b)

  best_index-Picked :
      (l : L) (rs before rights : List R) (best : Best) (i : ℕ)
      → rights ≡ before ++ rs
      → i ≡ length before
      → BestOf l rights before best
      → Picked l rights (best_index score l rs i best)
  unfolding best_index
  best_index-Picked l [] before rights best i e n b =
      let whole : rights ≡ before = e ∙ append-nil before in
      subst (λ ys. Picked l ys (Option.map (λ b. b.0) best)) (sym whole)
        (end-Picked l before best (subst (λ ys. BestOf l ys before best) whole b))
  best_index-Picked l (r ∷ rs) before rights best i e n b =
      step
        (λ best' b'. best_index-Picked l rs (before ++ r ∷ []) rights best' (suc i) onward next b')
        (score l r) refl
    where
      onward : rights ≡ (before ++ r ∷ []) ++ rs
      onward = e ∙ sym (append_assoc before (r ∷ []) rs)

      next : suc i ≡ length (before ++ r ∷ [])
      next = ap suc n ∙ sym (length-snoc before r)

      step :
          ((best' : Best)
            → BestOf l rights (before ++ r ∷ []) best'
            → Picked l rights (best_index score l rs (suc i) best'))
          → (z : ℤ) → score l r ≡ z
          → Picked l rights (best_index score l (r ∷ rs) i best)
      step rest (negsuc m) h =
          rw (h, best_index)
            (rest best (
              subst (λ ys. BestOf l ys (before ++ r ∷ []) best) (sym e)
                (skip-BestOf l before rs r best m h (subst (λ ys. BestOf l ys before best) e b))))
      step rest (pos zero) h = rw (h, best_index) (rw (e, n) (exact-Picked l before rs r h))
      step rest (pos (suc t)) h =
          rw (h, best_index)
            (rest (better best i (suc t)) (
              rw n (
                subst (λ ys. BestOf l ys (before ++ r ∷ []) (better best (length before) (suc t)))
                  (sym e)
                  (better-BestOf l before rs r best (suc t) h
                    (subst (λ ys. BestOf l ys before best) e b)))))

  -- What `pick` returns: nothing if no right can be matched, and otherwise a best one and the others.
  abbrev pub IsBestPick : L → List R → Option (R × List R) → Type 0
  IsBestPick l rights none = All (λ x. is_neg (score l x) ≡ true) rights
  IsBestPick l rights (some (r, left)) =
      (s : ℕ) × (score l r ≡ pos s)
      × Perm (r ∷ left) rights
      × All (λ x. NoBetter s (score l x)) rights

  pub pick-IsBestPick : (l : L) (rights : List R) → IsBestPick l rights (pick score l rights)
  unfolding pick
  pick-IsBestPick l rights =
      step (best_index score l rights 0 none) refl
        (best_index-Picked l rights [] rights none 0 refl refl tt)
    where
      step :
          (o : Option ℕ)
          → best_index score l rights 0 none ≡ o
          → Picked l rights o
          → IsBestPick l rights (pick score l rights)
      step none h p = rw (h, pick) p
      step (some k) h (s, (r, g, e, a)) = rw (h, pick, g) (s, e, slice_del-perm rights k r g, a)
