-- ===== src/Join/Score.antt =====
-- join/join.go: `Join`, by a score, with its loops and `sliceDel`.
use quilt.Prelude.{
  ℕ, zero, suc, ◌-◌, Option, none, some, List, [], ◌∷◌, ℤ, pos, negsuc, ltb, if◌then◌else◌, length,
  get_elem?, set, take,
}
use mathlib.Core.Option

-- The result of a join: `pairs`, `lonelyLefts` and `lonelyRights`.
pub record Joined {ℓ κ} (L : Type ℓ) (R : Type κ) : Type (ℓ ⊔ κ) where
  pub pairs : List (L × R)
  pub lonely_lefts : List L
  pub lonely_rights : List R

module _ {ℓ} {A : Type ℓ} where
  -- The last element takes the place of element `i`, and the slice gets shorter by one. An index
  -- out of range panics in the source, and `join` passes none.
  unfoldable pub slice_del : List A → ℕ → List A
  slice_del xs i = elim (get_elem? xs (length xs - 1)) [
    | none ↦ xs
    | some last ↦ take (length xs - 1) (set xs i last)
  ]

-- `bestIndex` and `bestScore`, `none` for the initial -1 of both.
abbrev pub Best : Type 0
Best = Option (ℕ × ℕ)

-- case s < bestScore || bestScore < 0
abbrev pub better : Best → ℕ → ℕ → Best
better none i s = some (i, s)
better (some (j, t)) i s = if ltb s t then some (i, s) else some (j, t)

module _ {ℓ κ} {L : Type ℓ} {R : Type κ} (score : L → R → ℤ) where
  -- The inner loop: a score of zero ends it at once, a negative score is passed over, and of the
  -- others the first of the least wins. `i` is the index of the head of the list.
  unfoldable pub best_index : L → List R → ℕ → Best → Option ℕ
  best_index l [] i best = Option.map (λ b. b.0) best
  best_index l (r ∷ rs) i best = elim (score l r) [
    | negsuc n ↦ best_index l rs (suc i) best
    | pos s ↦ elim s [ zero ↦ some i | suc t ↦ best_index l rs (suc i) (better best i (suc t)) ]
  ]

  -- What `l` is matched with, and the rights that are left.
  unfoldable pub pick : L → List R → Option (R × List R)
  pick l rights = elim (best_index l rights 0 none) [
    | none ↦ none
    | some i ↦ Option.map (λ r. (r, slice_del rights i)) (get_elem? rights i)
  ]

  -- The outer loop, over the rights that are still lonely.
  unfoldable pub join : List L → List R → Joined L R
  join [] rights = record { pairs = []; lonely_lefts = []; lonely_rights = rights }
  join (l ∷ ls) rights = elim (pick l rights) [
    | none ↦ let rest = join ls rights in record rest { lonely_lefts = l ∷ rest.lonely_lefts }
    | some (r, left) ↦ let rest = join ls left in record rest { pairs = (l, r) ∷ rest.pairs }
  ]
