-- ===== src/Db/Sync.antt =====
-- The shape that the synchronisations of engine/engine.go, minion/engine.go and
-- minion/etcd/container.go share: after a join, remove the rows that nothing matches, insert a row
-- for each element that matches none, and commit the update of every row.
use mathlib.Core.List.Perm
use mathlib.Core.List.{map-append, append-nil, perm_append_comm}
use quilt.Prelude.{◌≡◌, refl, sym, ◌∙◌, subst, Option, some, List, [], ◌∷◌, ◌++◌, map, Perm, arith}
use quilt.Db.Table.{Row, View, IsValid, remove_all, insert_each, commit_each}
use quilt.Db.Changes.{ids}
use quilt.Db.Loops.{remove_all-perm, insert_each-lem, commit_each-lem, IsValid-ids, IsValid-part}

module _ {R L : Type 0} (row : Row R) (merge : L → R → R) where
  -- The rows `gone` are removed, a row is inserted for each of `new`, and all pairs are committed.
  unfoldable pub sync : List (L × R) → List L → List R → View R → Option (View R)
  sync pairs new gone v =
      let (fresh, w) = insert_each row new (remove_all row gone v) in
      commit_each row merge (pairs ++ fresh) w

  module _ (keeps : (l : L) (r : R) → row.get_id (merge l r) ≡ row.get_id r) where
    merged-ids :
        (ps : List (L × R)) → ids row (map (λ p. merge p.0 p.1) ps) ≡ ids row (map (λ p. p.1) ps)
    merged-ids [] = refl
    merged-ids (p ∷ ps) = cc (keeps p.0 p.1, merged-ids ps)

    same :
        (x w : View R) (pairs fresh : List (L × R))
        → Perm x.rows (map (λ p. p.1) (pairs ++ fresh) ++ [])
        → Perm w.rows (map (λ p. merge p.0 p.1) (pairs ++ fresh) ++ [])
        → Perm (ids row w.rows) (ids row x.rows)
    same x w pairs fresh p q =
        Perm.trans (Perm.map row.get_id (subst (λ ys. Perm w.rows ys) (append-nil _) q)) (
          subst (λ ys. Perm ys (ids row x.rows)) (sym (merged-ids (pairs ++ fresh)))
            (Perm.map row.get_id (Perm.symm (subst (λ ys. Perm x.rows ys) (append-nil _) p))))

    -- A synchronisation of a valid table with a join of all its rows does not panic. The table is
    -- valid again, and has exactly a merged row for each pair and for each new element.
    pub sync-lem :
        (pairs : List (L × R)) (new : List L) (gone : List R) (v : View R)
        → IsValid row v
        → Perm (map (λ p. p.1) pairs ++ gone) v.rows
        → (w : View R) × (sync pairs new gone v ≡ some w)
          × IsValid row w
          × ((fresh : List (L × R)) × (map (λ p. p.0) fresh ≡ new)
              × Perm w.rows (map (λ p. merge p.0 p.1) (pairs ++ fresh)))
    unfolding sync
    sync-lem pairs new gone v h p =
        let u = remove_all row gone v in
        let (left, n) =
          remove_all-perm row v gone (map (λ p. p.1) pairs) h.distinct
            (Perm.trans (Perm.symm p) (perm_append_comm (map (λ p. p.1) pairs) gone)) in
        let valid : IsValid row u =
          IsValid-part row v u gone h
            (Perm.trans (Perm.trans (Perm.symm p) (perm_append_comm (map (λ p. p.1) pairs) gone))
              (Perm.append_left gone (Perm.symm left)))
            (omega (arith, n)) in
        let (valid', q, e) = insert_each-lem row new u valid in
        let fresh = (insert_each row new u).0 in
        let x = (insert_each row new u).1 in
        let all : Perm x.rows (map (λ p. p.1) (pairs ++ fresh) ++ []) =
          subst (λ ys. Perm x.rows ys)
            (sym (append-nil _ ∙ map-append (λ (p : L × R). p.1) pairs fresh))
            (Perm.trans q (
              Perm.trans (Perm.append_left (map (λ p. p.1) fresh) left) (
                perm_append_comm (map (λ (p : L × R). p.1) fresh)
                  (map (λ (p : L × R). p.1) pairs)))) in
        let (w, r, m, t) =
          commit_each-lem row merge keeps (pairs ++ fresh) x [] valid'.distinct all in
        (
          w,
          r,
          IsValid-ids row x w valid' (Perm.symm (same x w pairs fresh all t)) (omega (arith, m)),
          (fresh, e, subst (λ ys. Perm w.rows ys) (append-nil _) t),
        )
