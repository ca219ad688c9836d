-- ===== src/Etcd/Containers.antt =====
-- minion/etcd/container.go: the containers that a minion takes from etcd. The texts of commands and maps are
-- arguments, as is the decoding of JSON.
use mathlib.Core.List.{map-append}
use mathlib.Core.List.Perm
use quilt.Prelude.{
  ◌≡◌, ◌∙◌, refl, sym, ap, subst, Bool, true, ◌||◌, Option, some, String, List, [], ◌∷◌, ◌++◌, map,
  filter, Nodup, Perm, ◌==◌, string_eq, string_discrete,
}
use quilt.Maps.{Order}
use quilt.Join.Score.{Joined}
use quilt.Join.Hash.{hash_join}
use quilt.Join.Build.{last_of_key_distinct}
use quilt.Join.Keys.{hash_join-rights, hash_join-lefts}
use quilt.Db.Rows.{StringMap}
use quilt.Db.Table.{View, IsValid, select}
use quilt.Db.Selects.{select_all-perm}
use quilt.Db.Sync.{sync, sync-lem}
use quilt.Db.MinionRows.{Container, container_row}

-- The key of the join: the fields that require a restart of the container.
pub record JoinKey : Type 0 where
  pub hostname : String
  pub ip : String
  pub blueprint_id : String
  pub image : String
  pub image_id : String
  pub command : String
  pub env : String
  pub filepath_to_content : String

unfoldable pub JoinKey-discrete : Discrete JoinKey
JoinKey-discrete = hlevel string_discrete

-- The body of the last loop, before the commit.
abbrev pub copy_container : Container → Container → Container
copy_container edbc dbc = record dbc {
  ip = edbc.ip;
  hostname = edbc.hostname;
  minion = edbc.minion;
  blueprint_id = edbc.blueprint_id;
  image = edbc.image;
  image_id = edbc.image_id;
  command = edbc.command;
  env = edbc.env;
  filepath_to_content = edbc.filepath_to_content;
}

-- What a container is but for its id, its status and what docker and the scheduler alone say of it: where it
-- is, what it runs, and under which names.
pub record Carried : Type 0 where
  pub address : String
  pub name : String
  pub on_minion : String
  pub blueprint : String
  pub image_name : String
  pub built_image : String
  pub arguments : List String
  pub environment : StringMap
  pub files : StringMap

abbrev pub carried : Container → Carried
carried dbc = record {
  address = dbc.ip;
  name = dbc.hostname;
  on_minion = dbc.minion;
  blueprint = dbc.blueprint_id;
  image_name = dbc.image;
  built_image = dbc.image_id;
  arguments = dbc.command;
  environment = dbc.env;
  files = dbc.filepath_to_content;
}

abbrev pub flipped : Container × Container → Container × Container
flipped p = (p.1, p.0)

module _ (o : Order) (sprint : List String → String) (map_text : StringMap → String) where
  abbrev pub join_key : Container → JoinKey
  join_key dbc = record {
    hostname = dbc.hostname;
    ip = dbc.ip;
    blueprint_id = dbc.blueprint_id;
    image = dbc.image;
    image_id = dbc.image_id;
    command = sprint dbc.command;
    env = map_text dbc.env;
    filepath_to_content = map_text dbc.filepath_to_content;
  }

  abbrev pub container_join : List Container → View Container → Joined Container Container
  container_join etcd_dbcs v =
      hash_join JoinKey-discrete join_key join_key o (select container_row o (λ _. true) v)
        etcd_dbcs

  -- joinContainers
  unfoldable pub join_containers : List Container → View Container → Option (View Container)
  join_containers etcd_dbcs v =
      let j = container_join etcd_dbcs v in
      sync container_row copy_container (map flipped j.pairs) j.lonely_rights j.lonely_lefts v

  -- updateNonLeader, with what JSON decodes to.
  unfoldable pub update_non_leader :
      Bool → String → List Container → View Container → Option (View Container)
  unfolding join_containers
  update_non_leader is_master private_ip raw v =
      join_containers (filter (λ (dbc : Container). is_master || (dbc.minion == private_ip)) raw) v

  seconds :
      (ps : List (Container × Container)) → map (λ p. p.1) (map flipped ps) ≡ map (λ p. p.0) ps
  seconds [] = refl
  seconds (p ∷ ps) = ap (◌∷◌ p.0) (seconds ps)

  firsts : (ps : List (Container × Container)) → map (λ p. p.0) (map flipped ps) ≡ map (λ p. p.1) ps
  firsts [] = refl
  firsts (p ∷ ps) = ap (◌∷◌ p.1) (firsts ps)

  copied :
      (ps : List (Container × Container))
      → map carried (map (λ p. copy_container p.0 p.1) ps) ≡ map carried (map (λ p. p.0) ps)
  copied [] = refl
  copied (p ∷ ps) = ap (◌∷◌ (carried p.0)) (copied ps)

  -- On a valid table in which no two containers have the same key, joinContainers succeeds, and leaves a valid
  -- table with exactly the containers from etcd, up to order: the same addresses, hostnames, minions, blueprint ids,
  -- images, image ids, commands, environments and files, each combination as often.
  pub join_containers-carried :
      (etcd_dbcs : List Container) (v : View Container)
      → IsValid container_row v
      → Nodup (map join_key v.rows)
      → (w : View Container) × (join_containers etcd_dbcs v ≡ some w)
        × IsValid container_row w
        × Perm (map carried w.rows) (map carried etcd_dbcs)
  unfolding join_containers
  join_containers-carried etcd_dbcs v h d =
      let (w, e, valid, (fresh, n, p)) =
        sync-lem container_row copy_container (λ l r. refl) (map flipped j.pairs) j.lonely_rights
          j.lonely_lefts v h split in
      let all : map carried (
            map (λ (p : Container × Container). copy_container p.0 p.1)
              (map flipped j.pairs ++ fresh))
          ≡ map carried (map (λ (p : Container × Container). p.1) j.pairs ++ j.lonely_rights) =
        copied (map flipped j.pairs ++ fresh)
        ∙ ap (map carried) (
            map-append (λ (p : Container × Container). p.0) (map flipped j.pairs) fresh
            ∙ (ap (λ xs. xs ++ map (λ (p : Container × Container). p.0) fresh) (firsts j.pairs)
                ∙ ap (λ xs. map (λ (p : Container × Container). p.1) j.pairs ++ xs) n)) in
      (
        w,
        e,
        valid,
        Perm.trans (subst (Perm (map carried w.rows)) all (Perm.map carried p)) (
            Perm.map carried
              (hash_join-rights JoinKey-discrete join_key join_key o rows etcd_dbcs)),
      )
    where
      rows : List Container
      rows = select container_row o (λ _. true) v

      j : Joined Container Container
      j = container_join etcd_dbcs v

      distinct : Nodup (map join_key rows)
      distinct = Perm.nodup (Perm.symm (Perm.map join_key (select_all-perm container_row o v))) d

      split : Perm (map (λ p. p.1) (map flipped j.pairs) ++ j.lonely_lefts) v.rows
      split =
          subst (λ xs. Perm (xs ++ j.lonely_lefts) v.rows) (sym (seconds j.pairs))
            (Perm.trans (hash_join-lefts JoinKey-discrete join_key join_key o rows etcd_dbcs) (
              subst (λ xs. Perm xs v.rows)
                (sym (last_of_key_distinct JoinKey-discrete join_key rows distinct))
                (select_all-perm container_row o v)))
