-- ===== src/Join/Keys.antt =====
-- join/join.go: what `HashJoin` promises its users, and what it loses.
use mathlib.Core.HLevel.{¬_prop, hedberg}
use quilt.Prelude.Perms.{perm-length}
use mathlib.Core.List.Perm
use mathlib.Core.List.{Nodup-nil, exists_of_mem-map}
use mathlib.Core.Logic.{∥∥₁_elim}
use mathlib.Core.Logic.Or
use quilt.Prelude.{
  ◌≡◌, ap, ◌∙◌, subst, ap, List, [], ◌++◌, map, Mem, Nodup, Perm, arith, All, mem-All, ◌<◌, length,
}
use quilt.Maps.{Order, Map, values}
use quilt.Join.Score.{Joined}
use quilt.Join.Hash.{build, hash_join}
use quilt.Join.Probe.{
  probe-rights, probe-lefts, probe-pairs, left_over-mem, probe-lonely_rights, Keyed, left_over,
  probed,
}
use quilt.Join.Build.{
  build-Keyed, build-Nodup, build-keys, table-values, last_of_key, last_of_key_distinct,
  last_of_key_repeated,
}

module _ {K L R : Type 0} (dec : Discrete K) (l_key : L → K) (r_key : R → K) (o : Order) where
  abbrev joined : List L → List R → Joined L R
  joined = hash_join dec l_key r_key o

  abbrev table : List L → Map K L
  table ls = build dec l_key r_key [] ls

  table-Keyed : (ls : List L) → Keyed dec l_key r_key (table ls)
  table-Keyed ls = build-Keyed dec l_key r_key [] ls tt

  -- HashJoin pairs only elements with equal keys.
  pub hash_join-pairs-key :
      (ls : List L) (rs : List R)
      → All (λ p. l_key p.0 ≡ r_key p.1) (hash_join dec l_key r_key o ls rs).pairs
  unfolding hash_join
  hash_join-pairs-key ls rs = probe-pairs dec l_key r_key (table ls) rs (table-Keyed ls)

  -- HashJoin accounts for every right, once: the paired and the lonely rights are the right list, up to order.
  pub hash_join-rights :
      (ls : List L) (rs : List R)
      → Perm
          (map (λ p. p.1) (hash_join dec l_key r_key o ls rs).pairs
            ++ (hash_join dec l_key r_key o ls rs).lonely_rights)
          rs
  unfolding hash_join
  hash_join-rights ls rs = probe-rights dec l_key r_key (table ls) rs

  -- Of the lefts, HashJoin accounts for the last one of each key and for no other, whatever the order of `range`.
  pub hash_join-lefts :
      (ls : List L) (rs : List R)
      → Perm
          (map (λ p. p.0) (hash_join dec l_key r_key o ls rs).pairs
            ++ (hash_join dec l_key r_key o ls rs).lonely_lefts)
          (last_of_key dec l_key ls)
  unfolding hash_join
  hash_join-lefts ls rs =
      Perm.trans
        (Perm.append_left (map (λ p. p.0) (probed dec l_key r_key (table ls) rs).pairs)
          (o.range-perm L (values (left_over dec l_key r_key (table ls) rs))))
        (Perm.trans
          (probe-lefts dec l_key r_key (table ls) rs (build-Nodup dec l_key r_key [] ls Nodup-nil))
          (table-values dec l_key r_key ls))

  -- With distinct left keys HashJoin accounts for every left, once.
  pub hash_join-lefts_distinct :
      (ls : List L) (rs : List R)
      → Nodup (map l_key ls)
      → Perm
          (map (λ p. p.0) (hash_join dec l_key r_key o ls rs).pairs
            ++ (hash_join dec l_key r_key o ls rs).lonely_lefts)
          ls
  hash_join-lefts_distinct ls rs d =
      subst
        (λ x.
          Perm
            (map (λ p. p.0) (hash_join dec l_key r_key o ls rs).pairs
              ++ (hash_join dec l_key r_key o ls rs).lonely_lefts)
            x)
        (last_of_key_distinct dec l_key ls d) (hash_join-lefts ls rs)

  -- With a repeated left key, HashJoin returns fewer lefts than it was given.
  pub hash_join-drops :
      (ls : List L) (rs : List R)
      → ¬ Nodup (map l_key ls)
      → length (
          map (λ p. p.0) (hash_join dec l_key r_key o ls rs).pairs
          ++ (hash_join dec l_key r_key o ls rs).lonely_lefts)
        < length ls
  hash_join-drops ls rs d =
      omega (arith, perm-length (hash_join-lefts ls rs), last_of_key_repeated dec l_key ls d)

  -- A lonely left is one of the lefts, and no right has its key.
  hash_join-lonely_lefts :
      (ls : List L) (rs : List R) (l : L)
      → Mem l (hash_join dec l_key r_key o ls rs).lonely_lefts
      → ¬ Mem (l_key l) (map r_key rs)
  unfolding hash_join
  hash_join-lonely_lefts ls rs l m =
      ∥∥₁_elim
        (exists_of_mem-map
          ((Perm.mem_iff (o.range-perm L (values (left_over dec l_key r_key (table ls) rs)))).0 m))
        ¬_prop
        λ w.
          let (e, n, q) = w in
          let (n', s) = left_over-mem dec l_key r_key (table ls) rs e n in
          subst (λ k. ¬ Mem k (map r_key rs))
            (mem-All (λ (x : K × L). x.0 ≡ l_key x.1) (λ x. hedberg dec _ _) (table ls)
                (table-Keyed ls) e n'
              ∙ ap l_key q)
            s

  -- With distinct right keys, a lonely right has a key that no left has.
  hash_join-lonely_rights :
      (ls : List L) (rs : List R) (r : R)
      → Nodup (map r_key rs)
      → Mem r (hash_join dec l_key r_key o ls rs).lonely_rights
      → ¬ Mem (r_key r) (map l_key ls)
  unfolding hash_join
  hash_join-lonely_rights ls rs r d m c =
      (probe-lonely_rights dec l_key r_key (table ls) rs d r m).1
        (build-keys dec l_key r_key [] ls (r_key r) (Or.inr c))
