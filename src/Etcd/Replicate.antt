-- ===== src/Etcd/Replicate.antt =====
-- minion/etcd/: a round of the leader and a round of another minion, one after the other.
use mathlib.Core.List.Perm
use quilt.Prelude.{
  ◌≡◌, refl, sym, subst, Bool, true, false, Bool-cases, inl, inr, Option, none, some, String, List,
  map, Nodup, Perm, ◌==◌, string_eq, eq_iff,
}
use quilt.Maps.{Order}
use quilt.Db.Table.{Row, View, IsValid, select}
use quilt.Db.Selects.{select_all-perm}
use quilt.Db.Refresh.{refresh, mirrored, mirror-perm}
use quilt.Db.EtcdRows.{Hostname, Hostname-discrete, hostname_row}
use quilt.Db.MinionRows.{Connection, Connection-discrete, connection_row}
use quilt.Etcd.Store.{
  Got, read_etcd_node, working, Codec, Round, write_etcd_slice, run_round, hostname_key,
  with_hostname_id, join_hostnames, run_hostname_once, connection_id_key, with_connection_id,
  join_connections, run_connection_once,
}

module _ {R : Type 0} (row : Row R) (key : R → R) where
  -- The rounds succeed, and the rows of the leader's table are then those of the other minion's, ids aside.
  abbrev pub IsReplicated :
      (Bool → Got → Bool → Option String → View R → Option (Round R))
      → Option String
      → View R
      → View R
      → Type 0
  IsReplicated run n l v =
      (r : Round R) × (run true (working n) true n l ≡ some r)
      × (r.ok ≡ true)
      × (w : Round R) × (run false (working r.node) true r.node v ≡ some w)
      × IsValid row w.view
      × Perm (map key w.view.rows) (map key l.rows)

module _ {R : Type 0} (codec : Codec R) where
  -- What a store without failures reads as.
  abbrev pub content : Option String → String
  content none = ""
  content (some s) = s

  read-working : (n : Option String) → read_etcd_node (working n) ≡ some (content n)
  unfolding read_etcd_node
  read-working none = refl
  read-working (some s) = refl

  -- After a write without failures the path reads as what was written.
  write-content :
      (rs : List R) (n : Option String) (s : String)
      → codec.marshal (codec.sort rs) ≡ some s
      → (m : Option String) × (write_etcd_slice codec true (content n) rs n ≡ (m, true))
        × (content m ≡ s)
  unfolding write_etcd_slice
  write-content rs n s e = elim (Bool-cases (s == content n)) [
    | inl h ↦ (n, rw (write_etcd_slice, e, h) refl, sym ((eq_iff s (content n)).0 h))
    | inr h ↦ (some s, rw (write_etcd_slice, e, h) refl, refl)
  ]

  module _ (row : Row R) (key : R → R) (dec : Discrete R) (fill : R → R → R)
      (keeps : (l r : R) → row.get_id (fill l r) ≡ row.get_id r)
      (sets : (l r : R) → key (fill l r) ≡ key l) (o : Order) where
    abbrev join : List R → View R → Option (View R)
    join ls v =
        refresh row fill (mirrored row dec key key fill keeps sets o ls v).lonely_rights
          (mirrored row dec key key fill keeps sets o ls v).lonely_lefts v

    replicates :
        (n : Option String) (l v : View R) (s : String)
        → IsValid row v
        → Nodup (map key v.rows)
        → codec.marshal (codec.sort (select row o (λ _. true) l)) ≡ some s
        → map key (codec.unmarshal s) ≡ map key (codec.sort (select row o (λ _. true) l))
        → IsReplicated row key (run_round codec join (select row o (λ _. true))) n l v
    unfolding run_round
    replicates n l v s h d e u =
        let (m, f, c) = write-content (select row o (λ _. true) l) n s e in
        let (w, g, valid, p) =
          mirror-perm row dec key key fill keeps sets o (codec.unmarshal s) v h d in
        (
          record { node = m; view = l; ok = true },
          rw (run_round, read-working n, f) refl,
          refl,
          record { node = m; view = w; ok = true },
          rw (run_round, read-working m, c, g) refl,
          valid,
          Perm.trans (subst (Perm (map key w.rows)) u p)
              (Perm.map key (Perm.trans (codec.sort-perm _) (select_all-perm row o l))),
        )

-- If the store does not fail, the table of the other minion has no name twice, and the JSON text of the
-- leader's rows decodes to those rows, ids aside, then a round of the leader and one of the other minion give
-- the other minion a valid table with the leader's names, whatever the path held before.
pub hostnames-IsReplicated :
    (o : Order) (codec : Codec Hostname) (n : Option String) (l v : View Hostname) (s : String)
    → IsValid hostname_row v
    → Nodup (map hostname_key v.rows)
    → codec.marshal (codec.sort (select hostname_row o (λ _. true) l)) ≡ some s
    → map hostname_key (codec.unmarshal s)
      ≡ map hostname_key (codec.sort (select hostname_row o (λ _. true) l))
    → IsReplicated hostname_row hostname_key (run_hostname_once o codec) n l v
unfolding run_hostname_once join_hostnames
hostnames-IsReplicated o codec n l v s h d e u =
    replicates codec hostname_row hostname_key Hostname-discrete with_hostname_id (λ l r. refl)
      (λ l r. refl) o n l v s h d e u

-- The same for the connections.
connections-IsReplicated :
    (o : Order) (codec : Codec Connection) (n : Option String) (l v : View Connection) (s : String)
    → IsValid connection_row v
    → Nodup (map connection_id_key v.rows)
    → codec.marshal (codec.sort (select connection_row o (λ _. true) l)) ≡ some s
    → map connection_id_key (codec.unmarshal s)
      ≡ map connection_id_key (codec.sort (select connection_row o (λ _. true) l))
    → IsReplicated connection_row connection_id_key (run_connection_once o codec) n l v
unfolding run_connection_once join_connections
connections-IsReplicated o codec n l v s h d e u =
    replicates codec connection_row connection_id_key Connection-discrete with_connection_id
      (λ l r. refl) (λ l r. refl) o n l v s h d e u
