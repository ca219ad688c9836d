-- ===== src/Etcd/Minions.antt =====
-- minion/etcd/minion.go: the other minions, as a minion reads them from etcd. The decoding of JSON is done,
-- and the joining of subnets with spaces is an argument.
use mathlib.Core.List.{map-append, append_assoc, perm_append_comm}
use mathlib.Core.List.Perm
use quilt.Prelude.{
  ℕ, ◌≡◌, ◌∙◌, refl, sym, ap, subst, Bool-cases, inl, inr, true, false, not, Option, some, String,
  List, [], ◌∷◌, ◌++◌, map, filter, Nodup, Perm, ◌==◌, ◌!=◌, string_eq, string_discrete, ℕ_discrete,
  if◌then◌else◌,
}
use quilt.Prelude.Perms.{filter-split}
use quilt.Maps.{Order}
use quilt.Join.Hash.{hash_join}
use quilt.Join.Converge.{hash_join-mirrors}
use quilt.Db.Rows.{Role, Role-discrete}
use quilt.Db.Table.{Row, View, IsValid, select}
use quilt.Db.Selects.{select_all-perm}
use quilt.Db.Refresh.{refresh, refresh-lem}
use quilt.Db.MinionRows.{Minion}

unfoldable pub Minion-discrete : Discrete Minion
Minion-discrete = hlevel (Role-discrete, ℕ_discrete, string_discrete)

unfoldable pub blank_minion : ℕ → Minion
blank_minion n = record {
  id = n;
  self = false;
  blueprint = "";
  authorized_keys = "";
  role = Role.unassigned;
  private_ip = "";
  provider = "";
  size = "";
  region = "";
  floating_ip = "";
  host_subnets = [];
  disk_size = 0;
}

pub blank_minion-id : (n : ℕ) → (blank_minion n).id ≡ n
unfolding blank_minion
blank_minion-id n = refl

abbrev pub minion_row : Row Minion
minion_row = record {
  get_id = λ m. m.id;
  blank = blank_minion;
  blank-id = blank_minion-id;
  deep_equal = Minion-discrete;
}

-- The address of `self` after the first loop of filterSelf.
unfoldable pub self_ip : String → List Minion → String
self_ip ip [] = ip
self_ip ip (m ∷ ms) = self_ip (if m.self then m.private_ip else ip) ms

-- filterSelf
unfoldable pub filter_self : List Minion → List Minion → List Minion × List Minion
unfolding self_ip
filter_self db_minions store_minions = (
  filter (λ (m : Minion). not m.self) db_minions,
  filter (λ (m : Minion). self_ip "" db_minions != m.private_ip) store_minions,
)

-- The key of diffMinion.
pub record MinionKey : Type 0 where
  pub role : Role
  pub private_ip : String
  pub host_subnets : String
  pub provider : String
  pub size : String
  pub region : String
  pub floating_ip : String
  pub disk_size : ℕ

unfoldable pub MinionKey-discrete : Discrete MinionKey
MinionKey-discrete = hlevel (Role-discrete, ℕ_discrete, string_discrete)

-- With one row of the minion itself, the address of `self` is its own.
self_ip-none :
    (ip : String) (ms : List Minion) → filter (λ (m : Minion). m.self) ms ≡ [] → self_ip ip ms ≡ ip
unfolding self_ip filter
self_ip-none ip [] h = refl
self_ip-none ip (m ∷ ms) h = elim (Bool-cases m.self) [
  | inl e ↦ absurd (cc (rw (filter, e) at h))
  | inr e ↦ rw (self_ip, e) (self_ip-none ip ms (rw (filter, e) at h))
]

self_ip-one :
    (ip : String) (me : Minion) (ms : List Minion)
    → filter (λ (m : Minion). m.self) ms ≡ me ∷ []
    → self_ip ip ms ≡ me.private_ip
unfolding self_ip filter
self_ip-one ip me [] h = absurd (cc h)
self_ip-one ip me (m ∷ ms) h = elim (Bool-cases m.self) [
  | inl e ↦
      let k : (m ∷ filter (λ (m : Minion). m.self) ms) ≡ me ∷ [] = rw (filter, e) at h in
      let a : m ≡ me = cc in
      let b : filter (λ (m : Minion). m.self) ms ≡ [] = cc in
      rw (self_ip, e) (self_ip-none m.private_ip ms b ∙ ap (λ (x : Minion). x.private_ip) a)
  | inr e ↦ rw (self_ip, e) (self_ip-one ip me ms (rw (filter, e) at h))
]

abbrev pub with_minion_id : Minion → Minion → Minion
with_minion_id m minion = record m { id = minion.id }

module _ (o : Order) (join_spaces : List String → String) where
  abbrev pub minion_key : Minion → MinionKey
  minion_key m = record {
    role = m.role;
    private_ip = m.private_ip;
    host_subnets = join_spaces m.host_subnets;
    provider = m.provider;
    size = m.size;
    region = m.region;
    floating_ip = m.floating_ip;
    disk_size = m.disk_size;
  }

  -- diffMinion: the minions to remove and those to add.
  unfoldable pub diff_minion : List Minion → List Minion → List Minion × List Minion
  diff_minion db_minions store_minions =
      let j = hash_join MinionKey-discrete minion_key minion_key o db_minions store_minions in
      (j.lonely_lefts, j.lonely_rights)

  -- The transaction of readMinion.
  unfoldable pub read_minion : List Minion → View Minion → Option (View Minion)
  unfolding filter_self diff_minion
  read_minion store_minions v =
      let (dbms, sms) = filter_self (select minion_row o (λ _. true) v) store_minions in
      let (del, add) = diff_minion dbms sms in refresh minion_row with_minion_id add del v

  filled :
      (ps : List (Minion × Minion))
      → map minion_key (map (λ p. with_minion_id p.0 p.1) ps) ≡ map minion_key (map (λ p. p.0) ps)
  filled [] = refl
  filled (p ∷ ps) = ap (◌∷◌ (minion_key p.0)) (filled ps)

  filtered-keys :
      (store_minions : List Minion) (v : View Minion)
      → IsValid minion_row v
      → Nodup
          (map minion_key (filter (λ (m : Minion). not m.self) (select minion_row o (λ _. true) v)))
      → (w : View Minion) × (read_minion store_minions v ≡ some w)
        × IsValid minion_row w
        × ((others : List Minion) × Perm w.rows
              (others ++ filter (λ (m : Minion). m.self) (select minion_row o (λ _. true) v))
            × Perm
                (map minion_key others)
                (map minion_key (filter_self (select minion_row o (λ _. true) v) store_minions).1))
  unfolding read_minion diff_minion filter_self
  filtered-keys store_minions v h d =
      let rows = select minion_row o (λ _. true) v in
      let dbms = filter (λ (m : Minion). not m.self) rows in
      let selves = filter (λ (m : Minion). m.self) rows in
      let sms = (filter_self rows store_minions).1 in
      let j = hash_join MinionKey-discrete minion_key minion_key o dbms sms in
      let (kept, p, q) = hash_join-mirrors MinionKey-discrete minion_key minion_key o dbms sms d in
      let split : Perm ((selves ++ kept) ++ j.lonely_lefts) v.rows =
        subst (λ xs. Perm xs v.rows) (sym (append_assoc selves kept j.lonely_lefts))
          (Perm.trans (Perm.append_left selves p) (
            Perm.trans (filter-split (λ (m : Minion). m.self) rows)
              (select_all-perm minion_row o v))) in
      let (w, e, valid, (fresh, n, t)) =
        refresh-lem minion_row with_minion_id (λ l r. refl) j.lonely_rights (selves ++ kept)
          j.lonely_lefts v h split in
      let added = map (λ (p : Minion × Minion). with_minion_id p.0 p.1) fresh in
      (
        w,
        e,
        valid,
        (
          kept ++ added,
          Perm.trans t (
              Perm.trans (perm_append_comm added (selves ++ kept)) (
                subst (λ xs. Perm xs ((kept ++ added) ++ selves))
                  (sym (append_assoc selves kept added))
                  (perm_append_comm selves (kept ++ added)))),
          subst (λ ks. Perm ks (map minion_key sms))
              (sym (
                map-append minion_key kept added
                ∙ ap (λ ks. map minion_key kept ++ ks) (filled fresh ∙ ap (map minion_key) n)))
              q,
        ),
      )

  -- On a valid table with one row of the minion itself, in which no two other minions have the same key,
  -- readMinion succeeds and leaves a valid table: the row of the minion itself is as it was, and the other rows
  -- have the keys of the minions in the store, each as often, less those with the minion's own address.
  pub read_minion-keys :
      (store_minions : List Minion) (v : View Minion) (me : Minion)
      → IsValid minion_row v
      → filter (λ (m : Minion). m.self) (select minion_row o (λ _. true) v) ≡ me ∷ []
      → Nodup
          (map minion_key (filter (λ (m : Minion). not m.self) (select minion_row o (λ _. true) v)))
      → (w : View Minion) × (read_minion store_minions v ≡ some w)
        × IsValid minion_row w
        × ((others : List Minion) × Perm w.rows (others ++ me ∷ [])
            × Perm (map minion_key others) (
                map minion_key
                  (filter (λ (m : Minion). not (me.private_ip == m.private_ip)) store_minions)))
  unfolding filter_self
  read_minion-keys store_minions v me h one d =
      let rows = select minion_row o (λ _. true) v in
      let (w, e, valid, (others, p, q)) = filtered-keys store_minions v h d in
      (
        w,
        e,
        valid,
        (
          others,
          subst (λ xs. Perm w.rows (others ++ xs)) one p,
          subst
              (λ ip.
                Perm (map minion_key others)
                  (map minion_key (filter (λ (m : Minion). ip != m.private_ip) store_minions)))
              (self_ip-one "" me rows one) q,
        ),
      )
