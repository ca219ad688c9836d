-- ===== src/Join/Examples.antt =====
-- join/join.go: the joins at small inputs.
use mathlib.Core.HLevel.{⊥_prop}
use mathlib.Core.Logic.Or
use mathlib.Core.List.{mem-cons, not-mem-nil, mem-cons_self, mem-cons_of_mem, Nodup-cons, Nodup-nil}
use quilt.Prelude.{
  ℕ, ◌≡◌, refl, List, [], ◌∷◌, ◌++◌, map, Nodup, Perm, ℤ, pos, negsuc, ltb, if◌then◌else◌, ◌-◌,
  ℕ_discrete, String, arith,
}
use quilt.Maps.{in_order, get, put, delete}
use quilt.Join.Score.{pick, best_index, slice_del, join}
use quilt.Join.Greedy.{Greedy, join-Greedy}
use quilt.Join.Matching.{join-partition}
use quilt.Join.Hash.{hash_join}
use quilt.Join.Build.{last_of_key}
use quilt.Join.Keys.{hash_join-lefts}

-- The distance, if the right is not the smaller; far ones do not match.
abbrev distance : ℕ → ℕ → ℤ
distance l r = if ltb r l then negsuc 0 else if ltb 5 (r - l) then negsuc 0 else pos (r - l)

abbrev lefts : List ℕ
lefts = 3 ∷ 9 ∷ 4 ∷ []

abbrev rights : List ℕ
rights = 6 ∷ 4 ∷ 1 ∷ []

join_run :
    join distance lefts rights
    ≡ record { pairs = (3, 4) ∷ (4, 6) ∷ []; lonely_lefts = 9 ∷ []; lonely_rights = 1 ∷ [] }
unfolding join pick best_index slice_del
join_run = refl

join-Greedy_example : Greedy distance lefts rights (join distance lefts rights)
join-Greedy_example = join-Greedy distance lefts rights

join-partition_example :
    Perm
      (map (λ p. p.0) (join distance lefts rights).pairs
        ++ (join distance lefts rights).lonely_lefts)
      lefts
    × Perm
        (map (λ p. p.1) (join distance lefts rights).pairs
          ++ (join distance lefts rights).lonely_rights)
        rights
join-partition_example = join-partition distance lefts rights

abbrev people : List (ℕ × String)
people = (1, "a") ∷ (2, "b") ∷ (1, "c") ∷ []

abbrev rooms : List (ℕ × String)
rooms = (1, "x") ∷ (4, "y") ∷ []

abbrev number : ℕ × String → ℕ
number p = p.0

hash_join_run : hash_join ℕ_discrete number number in_order people rooms ≡ record {
  pairs = ((1, "c"), (1, "x")) ∷ [];
  lonely_lefts = (2, "b") ∷ [];
  lonely_rights = (4, "y") ∷ [];
}
unfolding hash_join get put delete ℕ_discrete
hash_join_run = refl

hash_join-lefts_example :
    Perm
      (map (λ p. p.0) (hash_join ℕ_discrete number number in_order people rooms).pairs
        ++ (hash_join ℕ_discrete number number in_order people rooms).lonely_lefts)
      (last_of_key ℕ_discrete number people)
hash_join-lefts_example = hash_join-lefts ℕ_discrete number number in_order people rooms

repeated : ¬ Nodup (map number people)
repeated d = (Nodup-cons.0 d).0 (mem-cons_of_mem 2 mem-cons_self)

distinct_rooms : Nodup (map number rooms)
distinct_rooms = Nodup-cons.1 (
  λ m. Or.elim ⊥_prop (mem-cons.0 m) (λ e. omega (arith, e)) not-mem-nil,
  Nodup-cons.1 (not-mem-nil, Nodup-nil),
)
