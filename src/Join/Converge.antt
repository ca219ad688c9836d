-- ===== src/Join/Converge.antt =====
-- join/join.go: the lists that `HashJoin` leaves, as changes to the right side.
use mathlib.Core.List.{map-append}
use mathlib.Core.List.Perm
use quilt.Prelude.{◌≡◌, refl, sym, ap, ◌∙◌, subst, List, [], ◌∷◌, ◌++◌, map, Perm, All, Nodup}
use quilt.Maps.{Order}
use quilt.Join.Hash.{hash_join}
use quilt.Join.Build.{last_of_key, last_of_key_distinct}
use quilt.Join.Keys.{hash_join-rights, hash_join-lefts, hash_join-pairs-key}
use quilt.Join.LastOfKey.{EachOnce, EachOnce-perm, last_of_key-EachOnce}

module _ {K L R : Type 0} (dec : Discrete K) (l_key : L → K) (r_key : R → K) (o : Order) where
  equal-keys :
      (ps : List (L × R))
      → All (λ p. l_key p.0 ≡ r_key p.1) ps
      → map r_key (map (λ p. p.1) ps) ≡ map l_key (map (λ p. p.0) ps)
  equal-keys [] h = refl
  equal-keys (p ∷ ps) h = cc (h.0, equal-keys ps h.1)

  -- The rights that are not lonely, with the lonely lefts, have every key of the lefts exactly once: so removing
  -- the lonely rights and adding the lonely lefts makes the right side what the left side asks for.
  pub hash_join-converges :
      (ls : List L) (rs : List R)
      → (kept : List R) × Perm (kept ++ (hash_join dec l_key r_key o ls rs).lonely_rights) rs
        × EachOnce
            (map r_key kept ++ map l_key (hash_join dec l_key r_key o ls rs).lonely_lefts)
            (map l_key ls)
  hash_join-converges ls rs =
      let j = hash_join dec l_key r_key o ls rs in
      (
        map (λ p. p.1) j.pairs,
        hash_join-rights dec l_key r_key o ls rs,
        EachOnce-perm _ (map l_key (last_of_key dec l_key ls)) (map l_key ls)
            (subst (λ ks. Perm ks (map l_key (last_of_key dec l_key ls)))
              (map-append l_key (map (λ p. p.0) j.pairs) j.lonely_lefts
                ∙ ap (λ ks. ks ++ map l_key j.lonely_lefts)
                    (sym (equal-keys j.pairs (hash_join-pairs-key dec l_key r_key o ls rs))))
              (Perm.map l_key (hash_join-lefts dec l_key r_key o ls rs)))
            (last_of_key-EachOnce dec l_key ls),
      )

  -- The other way round: with distinct lefts, removing the lonely lefts and adding the lonely rights gives the
  -- left side the keys of the rights.
  pub hash_join-mirrors :
      (ls : List L) (rs : List R)
      → Nodup (map l_key ls)
      → (kept : List L) × Perm (kept ++ (hash_join dec l_key r_key o ls rs).lonely_lefts) ls
        × Perm
            (map l_key kept ++ map r_key (hash_join dec l_key r_key o ls rs).lonely_rights)
            (map r_key rs)
  hash_join-mirrors ls rs d =
      let j = hash_join dec l_key r_key o ls rs in
      (
        map (λ p. p.0) j.pairs,
        subst (Perm (map (λ (p : L × R). p.0) j.pairs ++ j.lonely_lefts))
            (last_of_key_distinct dec l_key ls d) (hash_join-lefts dec l_key r_key o ls rs),
        subst (λ ks. Perm ks (map r_key rs))
            (map-append r_key (map (λ (p : L × R). p.1) j.pairs) j.lonely_rights
              ∙ ap (λ ks. ks ++ map r_key j.lonely_rights)
                  (equal-keys j.pairs (hash_join-pairs-key dec l_key r_key o ls rs)))
            (Perm.map r_key (hash_join-rights dec l_key r_key o ls rs)),
      )
