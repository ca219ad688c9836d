-- ===== src/Join/Hash.antt =====
-- join/join.go: `HashJoin`, with its two loops. A `nil` key function is the identity, which the
-- callers pass.
use quilt.Prelude.{none, some, List, [], ◌∷◌}
use quilt.Maps.{Order, Map, get, delete, put, values}
use quilt.Join.Score.{Joined}

-- The default for a key function that is nil.
abbrev pub identity {ℓ} : {A : Type ℓ} → A → A
identity val = val

module _ {K L R : Type 0} (dec : Discrete K) (l_key : L → K) (r_key : R → K) where
  -- The loop that fills `joinTable`. A later left with the same key takes the place of an earlier.
  unfoldable pub build : Map K L → List L → Map K L
  build table [] = table
  build table (l ∷ ls) = build (put dec table (l_key l) l) ls

  -- The loop over the rights, with the table that it leaves.
  unfoldable pub probe : Map K L → List R → Joined L R × Map K L
  probe table [] = (record { pairs = []; lonely_lefts = []; lonely_rights = [] }, table)
  probe table (r ∷ rs) = elim (get dec table (r_key r)) [
    | some l ↦
        let (rest, left) = probe (delete dec table (r_key r)) rs in
        (record rest { pairs = (l, r) ∷ rest.pairs }, left)
    | none ↦
        let (rest, left) = probe table rs in
        (record rest { lonely_rights = r ∷ rest.lonely_rights }, left)
  ]

  -- The lefts that stay in the table are lonely, and come in the order of a `range` over it.
  unfoldable pub hash_join : Order → List L → List R → Joined L R
  unfolding build probe
  hash_join o ls rs =
      let (j, left) = probe (build [] ls) rs in record j { lonely_lefts = o.range L (values left) }
