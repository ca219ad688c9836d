-- ===== src/Scheduler/Worker.antt =====
-- minion/scheduler/worker.go: `syncWorker` and `syncJoinScore`. The hash of a container's files is an
-- argument.
use quilt.Prelude.{
  ℕ, Bool, true, false, not, ◌&&◌, ◌||◌, none, some, String, List, [], ◌∷◌, map, if◌then◌else◌,
  ◌==◌, ◌!=◌, string_eq, string_discrete, ℤ, pos, negsuc,
}
use quilt.Maps.{get}
use quilt.Join.Score.{join}
use quilt.Db.Rows.{StringMap}
use quilt.Db.MinionRows.{Container}
use quilt.Scheduler.Make.{same_strings}

-- docker.Container
pub record DockerContainer : Type 0 where
  pub id : String
  pub eid : String
  pub name : String
  pub image : String
  pub image_id : String
  pub ip : String
  pub mac : String
  pub path : String
  pub status : String
  pub args : List String
  pub pid : ℕ
  pub env : StringMap
  pub labels : StringMap
  pub created : ℕ

-- A missing key reads as the empty string.
abbrev pub lookup : StringMap → String → String
lookup m key = elim (get string_discrete m key) [ none ↦ "" | some value ↦ value ]

-- The loop over dbc.Env.
unfoldable pub env_matches : StringMap → StringMap → Bool
env_matches [] env = true
env_matches ((key, value) ∷ rest) env = lookup env key == value && env_matches rest env

abbrev pub is_nil : List String → Bool
is_nil [] = true
is_nil (x ∷ xs) = false

module _ (files_hash : StringMap → String) where
  unfoldable pub sync_join_score : Container → DockerContainer → ℤ
  unfolding env_matches
  sync_join_score dbc dkc =
      if dbc.ip != dkc.ip || files_hash dbc.filepath_to_content != lookup dkc.labels "files"
      then negsuc 0
      else if dbc.image_id != "" && dkc.image_id != dbc.image_id
          || dbc.image_id == "" && dkc.image != dbc.image
      then negsuc 0
      else if not (env_matches dbc.env dkc.env)
      then negsuc 0
      else if not (is_nil dbc.command)
          && (not (same_strings dbc.command dkc.args)
              && not (same_strings dbc.command (dkc.path ∷ dkc.args)))
      then negsuc 0
      else pos 0

  -- The body of the loop over the pairs.
  unfoldable pub observe : Container × DockerContainer → Container
  observe (dbc, dkc) = record dbc {
    docker_id = dkc.id;
    endpoint_id = dkc.eid;
    status = dkc.status;
    created = dkc.created;
  }

  -- syncWorker: the changed containers, those to boot and those to kill.
  unfoldable pub sync_worker :
      List Container → List DockerContainer → List Container × List Container × List DockerContainer
  unfolding sync_join_score observe
  sync_worker dbcs dkcs =
      let j = join sync_join_score dbcs dkcs in
      (map observe j.pairs, j.lonely_lefts, j.lonely_rights)
