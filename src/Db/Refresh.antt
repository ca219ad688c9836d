-- ===== src/Db/Refresh.antt =====
-- The shape of `joinHostnames` and `joinConnections`: remove the rows that nothing matches, then insert and
-- commit a row for each new element. The joins have the list on the left, or the table.
use mathlib.Core.List.Perm
use mathlib.Core.List.{map-append, perm_append_comm}
use quilt.Prelude.{
  ◌≡◌, refl, sym, ◌∙◌, subst, true, Option, some, List, [], ◌∷◌, ◌++◌, map, Nodup, Perm, All, arith,
}
use quilt.Maps.{Order}
use quilt.Join.Score.{Joined}
use quilt.Join.Hash.{hash_join}
use quilt.Join.Build.{last_of_key_distinct}
use quilt.Join.Keys.{hash_join-rights, hash_join-lefts, hash_join-pairs-key}
use quilt.Join.LastOfKey.{EachOnce}
use quilt.Db.Table.{Row, View, IsValid, select, remove_all}
use quilt.Db.Selects.{select_all-perm}
use quilt.Db.Loops.{remove_all-perm, IsValid-part}
use quilt.Db.Replace.{add_each, add_each-lem}
use quilt.Db.Reconcile.{renewed-EachOnce, filled-keys}

module _ {R L : Type 0} (row : Row R) (fill : L → R → R) where
  unfoldable pub refresh : List L → List R → View R → Option (View R)
  refresh new gone v = add_each row fill new (remove_all row gone v)

  module _ (keeps : (l : L) (r : R) → row.get_id (fill l r) ≡ row.get_id r) where
    pub refresh-lem :
        (new : List L) (kept gone : List R) (v : View R)
        → IsValid row v
        → Perm (kept ++ gone) v.rows
        → (w : View R) × (refresh new gone v ≡ some w)
          × IsValid row w
          × ((fresh : List (L × R)) × (map (λ p. p.0) fresh ≡ new)
              × Perm w.rows (map (λ p. fill p.0 p.1) fresh ++ kept))
    unfolding refresh
    refresh-lem new kept gone v h p =
        let whole : Perm v.rows (gone ++ kept) =
          Perm.trans (Perm.symm p) (perm_append_comm kept gone) in
        let (left, c) = remove_all-perm row v gone kept h.distinct whole in
        let valid =
          IsValid-part row v (remove_all row gone v) gone h
            (Perm.trans whole (Perm.append_left gone (Perm.symm left))) (omega (arith, c)) in
        let (w, e, valid', (fresh, n, t)) =
          add_each-lem row fill keeps new (remove_all row gone v) valid in
        (
          w,
          e,
          valid',
          (
            fresh,
            n,
            Perm.trans t (Perm.append_left (map (λ (p : L × R). fill p.0 p.1) fresh) left),
          ),
        )

module _ {R L K : Type 0} (row : Row R) (dec : Discrete K) (l_key : L → K) (r_key : R → K)
    (fill : L → R → R) (keeps : (l : L) (r : R) → row.get_id (fill l r) ≡ row.get_id r)
    (sets : (l : L) (r : R) → r_key (fill l r) ≡ l_key l) (o : Order) where
  -- The list on the left.
  pub refresh-EachOnce :
      (ls : List L) (v : View R)
      → IsValid row v
      → (w : View R) × (refresh row fill
            (hash_join dec l_key r_key o ls (select row o (λ _. true) v)).lonely_lefts
            (hash_join dec l_key r_key o ls (select row o (λ _. true) v)).lonely_rights
            v
          ≡ some w)
        × IsValid row w
        × EachOnce (map r_key w.rows) (map l_key ls)
  refresh-EachOnce ls v h =
      let j = hash_join dec l_key r_key o ls (select row o (λ _. true) v) in
      let split = Perm.trans (hash_join-rights dec l_key r_key o ls _) (select_all-perm row o v) in
      let (w, e, valid, (fresh, n, p)) =
        refresh-lem row fill keeps j.lonely_lefts (map (λ (p : L × R). p.1) j.pairs) j.lonely_rights
          v h split in
      (w, e, valid, renewed-EachOnce row dec l_key r_key fill keeps sets o ls v w fresh n p)

  abbrev pub mirrored : List L → View R → Joined R L
  mirrored ls v = hash_join dec r_key l_key o (select row o (λ _. true) v) ls

  mirrored-keys :
      (ps : List (R × L))
      → All (λ p. r_key p.0 ≡ l_key p.1) ps
      → map r_key (map (λ p. p.0) ps) ≡ map l_key (map (λ p. p.1) ps)
  mirrored-keys [] h = refl
  mirrored-keys (p ∷ ps) h = cc (h.0, mirrored-keys ps h.1)

  -- The table on the left. If it has no key twice, it gets the keys of the list.
  pub mirror-perm :
      (ls : List L) (v : View R)
      → IsValid row v
      → Nodup (map r_key v.rows)
      → (w : View R) × (refresh row fill
            (mirrored ls v).lonely_rights
            (mirrored ls v).lonely_lefts
            v
          ≡ some w)
        × IsValid row w
        × Perm (map r_key w.rows) (map l_key ls)
  mirror-perm ls v h d =
      let j = mirrored ls v in
      let kept = map (λ (p : R × L). p.0) j.pairs in
      let (w, e, valid, (fresh, n, p)) =
        refresh-lem row fill keeps j.lonely_rights kept j.lonely_lefts v h split in
      let keys : map r_key (map (λ (p : L × R). fill p.0 p.1) fresh ++ kept)
          ≡ map l_key (j.lonely_rights ++ map (λ (p : R × L). p.1) j.pairs) =
        map-append r_key (map (λ (p : L × R). fill p.0 p.1) fresh) kept
        ∙ cc (
          filled-keys row dec l_key r_key fill keeps sets o fresh,
          n,
          mirrored-keys j.pairs (hash_join-pairs-key dec r_key l_key o _ ls),
          map-append l_key j.lonely_rights (map (λ (p : R × L). p.1) j.pairs),
        ) in
      (
        w,
        e,
        valid,
        Perm.trans (subst (λ ks. Perm (map r_key w.rows) ks) keys (Perm.map r_key p)) (
            Perm.map l_key (
              Perm.trans (perm_append_comm j.lonely_rights (map (λ (p : R × L). p.1) j.pairs))
                (hash_join-rights dec r_key l_key o _ ls))),
      )
    where
      rows : List R
      rows = select row o (λ _. true) v

      rows-distinct : Nodup (map r_key rows)
      rows-distinct = Perm.nodup (Perm.symm (Perm.map r_key (select_all-perm row o v))) d

      split :
          Perm
            (map (λ (p : R × L). p.0) (mirrored ls v).pairs ++ (mirrored ls v).lonely_lefts)
            v.rows
      split = Perm.trans (hash_join-lefts dec r_key l_key o rows ls) (
          subst (λ xs. Perm xs v.rows) (sym (last_of_key_distinct dec r_key rows rows-distinct))
            (select_all-perm row o v))
