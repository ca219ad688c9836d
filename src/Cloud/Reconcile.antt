-- ===== src/Cloud/Reconcile.antt =====
-- cloud/cloud.go: what `syncDB` and `join` do, for whatever the cloud provider lists.
use mathlib.Core.List.{map-append, append_assoc}
use mathlib.Core.List.Perm
use quilt.Prelude.Perms.{filter-split}
use quilt.Prelude.{
  ◌≡◌, refl, sym, ap, ◌∙◌, subst, Bool, true, false, not, ◌&&◌, ◌||◌, bool_eq, nat_eq, some, String,
  List, [], ◌∷◌, ◌++◌, map, filter, Mem, Perm, ◌==◌, string_eq, All, All-append, eq_iff, is_neg,
  arith, if◌then◌else◌,
}
use quilt.Maps.{Order, keys}
use quilt.Join.Score.{join}
use quilt.Join.Matching.{join-partition, join-pairs-score, join-maximal}
use quilt.Db.Table.{View, IsValid, select}
use quilt.Db.Changes.{ids}
use quilt.Db.Loops.{commit_each-lem, IsValid-ids}
use quilt.Db.Selects.{select_all-perm}
use quilt.Db.Rows.{Role, Machine, machine_row}
use quilt.Cloud.Sync.{
  Acl, is_empty, CloudBlueprint, same_machine, similar_machine, role_fits, sync_db, localize,
  machine_roles, associate, get_acls, JoinResult, joined, cloud_join, in_region, swap_pair,
}

-- A cloud machine that can stand for a machine of the database.
abbrev pub fits : Machine → Machine → Bool
fits dbm m =
    dbm.provider == m.provider
    && (dbm.region == m.region
        && (dbm.size == m.size
            && (dbm.preemptible == m.preemptible
                && ((m.disk_size == 0 || dbm.disk_size == m.disk_size) && role_fits dbm m))))

same-fits : (dbm m : Machine) → is_neg (same_machine dbm m) ≡ false → fits dbm m ≡ true
unfolding same_machine
same-fits dbm m h = ground arith

similar-fits : (dbm m : Machine) → is_neg (similar_machine dbm m) ≡ not (fits dbm m)
unfolding similar_machine
similar-fits dbm m = ground arith

joins :
    {A B : Type 0} (f : A → B) (ps qs : List A) (rest left all : List B)
    → Perm (map f qs ++ rest) left
    → Perm (map f ps ++ left) all
    → Perm (map f (ps ++ qs) ++ rest) all
joins f ps qs rest left all p q =
    subst (λ xs. Perm xs all)
      (sym (ap (λ xs. xs ++ rest) (map-append f ps qs) ∙ append_assoc (map f ps) (map f qs) rest))
      (Perm.trans (Perm.append_left (map f ps) p) q)

-- `syncDB` loses and invents no machine: the machines of the database are the paired ones and the ones to
-- boot, and the machines of the cloud are the paired ones and the ones to stop, each once, up to order.
pub sync_db-partition :
    (cms dbms : List Machine)
    → Perm (map (λ p. p.0) (sync_db cms dbms).pairs ++ (sync_db cms dbms).boot) dbms
      × Perm (map (λ p. p.1) (sync_db cms dbms).pairs ++ (sync_db cms dbms).stop) cms
unfolding sync_db
sync_db-partition cms dbms =
    let first = join same_machine dbms cms in
    let (a, b) = join-partition same_machine dbms cms in
    let (c, d) = join-partition similar_machine first.lonely_lefts first.lonely_rights in
    (joins (λ p. p.0) first.pairs _ _ _ dbms c a, joins (λ p. p.1) first.pairs _ _ _ cms d b)

All-map :
    {A : Type 0} (P Q : A → Type 0) → ((x : A) → P x → Q x) → (xs : List A) → All P xs → All Q xs
All-map P Q f [] h = tt
All-map P Q f (x ∷ xs) h = (f x h.0, All-map P Q f xs h.1)

not-false : (b : Bool) → not b ≡ false → b ≡ true
not-false b h = ground arith

not-true : (b : Bool) → not b ≡ true → b ≡ false
not-true b h = ground arith

-- `syncDB` pairs a machine of the database only with a machine of the cloud that has its provider,
-- region, size and preemptibility, and whose disk size and role are its own or not known.
pub sync_db-fits :
    (cms dbms : List Machine) → All (λ p. fits p.0 p.1 ≡ true) (sync_db cms dbms).pairs
unfolding sync_db
sync_db-fits cms dbms =
    let first = join same_machine dbms cms in
    All-append (λ p. fits p.0 p.1 ≡ true) first.pairs _
      (All-map _ _ (λ p. same-fits p.0 p.1) first.pairs (join-pairs-score same_machine dbms cms))
      (All-map _ _ (λ p h. not-false (fits p.0 p.1) (sym (similar-fits p.0 p.1) ∙ h)) _
        (join-pairs-score similar_machine first.lonely_lefts first.lonely_rights))

-- `syncDB` never boots a machine and stops another that could stand for it.
pub sync_db-boot-stop :
    (cms dbms : List Machine) (dbm m : Machine)
    → Mem dbm (sync_db cms dbms).boot
    → Mem m (sync_db cms dbms).stop
    → fits dbm m ≡ false
unfolding sync_db
sync_db-boot-stop cms dbms dbm m i j =
    let first = join same_machine dbms cms in
    not-true (fits dbm m) (
      sym (similar-fits dbm m)
      ∙ join-maximal similar_machine first.lonely_lefts first.lonely_rights dbm m i j)

-- All of a machine but what the cloud provider tells of it.
abbrev pub decided : Machine → Machine
decided m = record m { cloud_id = ""; public_ip = ""; private_ip = ""; status = "" }

associate-decided : (m dbm : Machine) → decided (associate m dbm) ≡ decided dbm
unfolding associate
associate-decided m dbm = refl

associate-id : (m dbm : Machine) → (associate m dbm).id ≡ dbm.id
unfolding associate
associate-id m dbm = refl

map-decided :
    (ps : List (Machine × Machine)) (done : List Machine)
    → map decided (map (λ p. associate p.0 p.1) ps ++ done)
      ≡ map decided (map (λ p. p.1) ps ++ done)
map-decided [] done = refl
map-decided ((m, dbm) ∷ ps) done = cc (associate-decided m dbm, map-decided ps done)

swapped : (ps : List (Machine × Machine)) → map (λ p. p.1) (map swap_pair ps) ≡ map (λ p. p.0) ps
swapped [] = refl
swapped ((l, r) ∷ ps) = ap (◌∷◌ l) (swapped ps)

map-ids : (xs : List Machine) → map (λ (m : Machine). m.id) (map decided xs) ≡ ids machine_row xs
map-ids [] = refl
map-ids (x ∷ xs) = ap (◌∷◌ x.id) (map-ids xs)

-- The fields that the provider tells leave the ids.
pub ids_of :
    (xs ys : List Machine)
    → Perm (map decided xs) (map decided ys)
    → Perm (ids machine_row xs) (ids machine_row ys)
ids_of xs ys p =
    subst (λ zs. Perm zs (ids machine_row ys)) (map-ids xs)
      (subst (λ zs. Perm (map (λ (m : Machine). m.id) (map decided xs)) zs) (map-ids ys)
        (Perm.map (λ (m : Machine). m.id) p))

-- Where the provider lists its machines and the blueprint is the one of the cloud's namespace, `join`
-- succeeds on any valid machine table, and leaves a valid table with the same machines, in all fields but
-- those that the provider tells: the cloud id, the addresses and the status.
pub cloud_join-decided :
    (o : Order) (role_of : String → Role) (namespace provider region : String)
    (listed : List Machine) (bp : CloudBlueprint) (v : View Machine)
    → IsValid machine_row v
    → namespace ≡ bp.namespace
    → (res : JoinResult) × (w : View Machine) × (cloud_join o role_of namespace provider region
          (some listed)
          (some bp)
          v
        ≡ joined res w)
      × IsValid machine_row w
      × Perm (map decided w.rows) (map decided v.rows)
unfolding cloud_join
cloud_join-decided o role_of namespace provider region listed bp v h n =
    let all = select machine_row o (λ _. true) v in
    let machines = filter (in_region provider region) all in
    let result = sync_db (machine_roles role_of (localize provider region listed)) machines in
    let (p, q) =
      sync_db-partition (machine_roles role_of (localize provider region listed)) machines in
    let others = filter (λ m. not (in_region provider region m)) all in
    let rows : Perm v.rows
        (map (λ p. p.1) (map swap_pair result.pairs) ++ (result.boot ++ others)) =
      Perm.symm (
        subst (λ xs. Perm (xs ++ (result.boot ++ others)) v.rows) (sym (swapped result.pairs))
          (subst (λ xs. Perm xs v.rows)
            (append_assoc (map (λ p. p.0) result.pairs) result.boot others)
            (Perm.trans (Perm.append_right others p) (
              Perm.trans (filter-split (in_region provider region) all)
                (select_all-perm machine_row o v))))) in
    let (w, e, m, t) =
      commit_each-lem machine_row associate associate-id (map swap_pair result.pairs) v
        (result.boot ++ others) h.distinct rows in
    let same : Perm (map decided w.rows) (map decided v.rows) = Perm.trans (Perm.map decided t) (
      subst (λ xs. Perm xs (map decided v.rows))
        (sym (map-decided (map swap_pair result.pairs) (result.boot ++ others)))
        (Perm.map decided (Perm.symm rows))) in
    (
      record {
        acls = if is_empty machines then [] else o.range Acl (keys (get_acls bp));
        boot = result.boot;
        terminate = result.stop;
        update_ips = result.update_ips;
      },
      w,
      rw (same_name namespace bp.namespace n, e) refl,
      IsValid-ids machine_row v w h (Perm.symm (ids_of w.rows v.rows same)) (omega (arith, m)),
      same,
    )
  where
    same_name : (s t : String) → s ≡ t → (s == t) ≡ true
    same_name s t = (eq_iff s t).1
