-- ===== src/Db/Reconcile.antt =====
-- A table that is reconciled with a list by a HashJoin, in either of the two shapes.
use mathlib.Core.List.Perm
use mathlib.Core.List.{map-append, perm_append_comm}
use quilt.Prelude.{◌≡◌, refl, ap, ◌∙◌, subst, true, some, List, [], ◌∷◌, ◌++◌, map, Perm, All}
use quilt.Maps.{Order}
use quilt.Join.Score.{Joined}
use quilt.Join.Hash.{hash_join}
use quilt.Join.Build.{last_of_key}
use quilt.Join.Keys.{hash_join-rights, hash_join-lefts, hash_join-pairs-key}
use quilt.Join.LastOfKey.{EachOnce, EachOnce-perm, last_of_key-EachOnce}
use quilt.Db.Table.{Row, View, IsValid, select}
use quilt.Db.Selects.{select_all-perm}
use quilt.Db.Sync.{sync, sync-lem}
use quilt.Db.Replace.{replace, replace-lem}

module _ {R L K : Type 0} (row : Row R) (dec : Discrete K) (l_key : L → K) (r_key : R → K)
    (fill : L → R → R) (keeps : (l : L) (r : R) → row.get_id (fill l r) ≡ row.get_id r)
    (sets : (l : L) (r : R) → r_key (fill l r) ≡ l_key l) (o : Order) where
  abbrev pub matched : List L → View R → Joined L R
  matched ls v = hash_join dec l_key r_key o ls (select row o (λ _. true) v)

  pub filled-keys :
      (ps : List (L × R)) → map r_key (map (λ p. fill p.0 p.1) ps) ≡ map l_key (map (λ p. p.0) ps)
  filled-keys [] = refl
  filled-keys (p ∷ ps) = cc (sets p.0 p.1, filled-keys ps)

  pub paired-keys :
      (ps : List (L × R))
      → All (λ p. l_key p.0 ≡ r_key p.1) ps
      → map r_key (map (λ p. p.1) ps) ≡ map l_key (map (λ p. p.0) ps)
  paired-keys [] h = refl
  paired-keys (p ∷ ps) h = cc (h.0, paired-keys ps h.1)

  rows-split :
      (ls : List L) (v : View R)
      → Perm (map (λ p. p.1) (matched ls v).pairs ++ (matched ls v).lonely_rights) v.rows
  rows-split ls v = Perm.trans (hash_join-rights dec l_key r_key o ls _) (select_all-perm row o v)

  whole :
      (ls : List L) (v : View R) (ks : List K)
      → Perm ks (map l_key (map (λ p. p.0) (matched ls v).pairs ++ (matched ls v).lonely_lefts))
      → EachOnce ks (map l_key ls)
  whole ls v ks p =
      EachOnce-perm ks (map l_key (last_of_key dec l_key ls)) (map l_key ls)
        (Perm.trans p (Perm.map l_key (hash_join-lefts dec l_key r_key o ls _)))
        (last_of_key-EachOnce dec l_key ls)

  pub sync-EachOnce :
      (ls : List L) (v : View R)
      → IsValid row v
      → (w : View R) × (sync row fill
            (matched ls v).pairs
            (matched ls v).lonely_lefts
            (matched ls v).lonely_rights
            v
          ≡ some w)
        × IsValid row w
        × EachOnce (map r_key w.rows) (map l_key ls)
  sync-EachOnce ls v h =
      let j = matched ls v in
      let (w, e, valid, (fresh, n, p)) =
        sync-lem row fill keeps j.pairs j.lonely_lefts j.lonely_rights v h (rows-split ls v) in
      (
        w,
        e,
        valid,
        whole ls v (map r_key w.rows) (
            subst (λ ks. Perm (map r_key w.rows) ks)
              (filled-keys (j.pairs ++ fresh)
                ∙ ap (map l_key) (
                    map-append (λ (p : L × R). p.0) j.pairs fresh
                    ∙ ap (λ ls. map (λ (p : L × R). p.0) j.pairs ++ ls) n))
              (Perm.map r_key p)),
      )

  -- The rows that are kept and those for the lonely lefts have each key of the lefts once.
  pub renewed-EachOnce :
      (ls : List L) (v w : View R) (fresh : List (L × R))
      → map (λ p. p.0) fresh ≡ (matched ls v).lonely_lefts
      → Perm w.rows (map (λ p. fill p.0 p.1) fresh ++ map (λ p. p.1) (matched ls v).pairs)
      → EachOnce (map r_key w.rows) (map l_key ls)
  renewed-EachOnce ls v w fresh n p =
      let j = matched ls v in
      let kept = map (λ (p : L × R). p.1) j.pairs in
      let keys : map r_key (map (λ (p : L × R). fill p.0 p.1) fresh ++ kept)
          ≡ map l_key (j.lonely_lefts ++ map (λ (p : L × R). p.0) j.pairs) =
        map-append r_key (map (λ (p : L × R). fill p.0 p.1) fresh) kept
        ∙ cc (
          filled-keys fresh,
          n,
          paired-keys j.pairs (hash_join-pairs-key dec l_key r_key o ls _),
          map-append l_key j.lonely_lefts (map (λ (p : L × R). p.0) j.pairs),
        ) in
      whole ls v (map r_key w.rows) (
        Perm.trans (subst (λ ks. Perm (map r_key w.rows) ks) keys (Perm.map r_key p))
          (Perm.map l_key (perm_append_comm j.lonely_lefts (map (λ (p : L × R). p.0) j.pairs))))

  pub replace-EachOnce :
      (ls : List L) (v : View R)
      → IsValid row v
      → (w : View R) × (replace row fill (matched ls v).lonely_lefts (matched ls v).lonely_rights v
          ≡ some w)
        × IsValid row w
        × EachOnce (map r_key w.rows) (map l_key ls)
  replace-EachOnce ls v h =
      let j = matched ls v in
      let kept = map (λ (p : L × R). p.1) j.pairs in
      let (w, e, valid, (fresh, n, p)) =
        replace-lem row fill keeps j.lonely_lefts kept j.lonely_rights v h (rows-split ls v) in
      (w, e, valid, renewed-EachOnce ls v w fresh n p)
