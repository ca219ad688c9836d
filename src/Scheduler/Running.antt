-- ===== src/Scheduler/Running.antt =====
-- minion/scheduler/worker.go: the containers of `syncWorker` and those that docker runs.
use mathlib.Core.List.{List, map-append}
use mathlib.Core.List.Perm
use quilt.Prelude.{
  ◌≡◌, refl, sym, ap, ◌∙◌, subst, Bool, true, false, not, ◌&&◌, ◌||◌, String, [], ◌∷◌, ◌++◌, map,
  Mem, Perm, ◌==◌, string_eq, arith, is_neg, if◌then◌else◌,
}
use quilt.Join.Score.{join}
use quilt.Join.Matching.{join-partition, join-maximal}
use quilt.Db.Rows.{StringMap}
use quilt.Db.MinionRows.{Container}
use quilt.Scheduler.Make.{same_strings}
use quilt.Scheduler.Worker.{
  DockerContainer, lookup, env_matches, is_nil, sync_join_score, observe, sync_worker,
}

-- All of a container but what docker tells of it.
abbrev pub requested : Container → Container
requested c = record c { docker_id = ""; endpoint_id = ""; status = ""; created = 0 }

module _ (files_hash : StringMap → String) where
  -- The docker container is one that `dbc` asks for.
  abbrev pub runs : Container → DockerContainer → Bool
  runs dbc dkc =
      dbc.ip == dkc.ip
      && (files_hash dbc.filepath_to_content == lookup dkc.labels "files"
          && ((if dbc.image_id == "" then dkc.image == dbc.image else dkc.image_id == dbc.image_id)
              && (env_matches dbc.env dkc.env
                  && (is_nil dbc.command
                      || (same_strings dbc.command dkc.args
                          || same_strings dbc.command (dkc.path ∷ dkc.args))))))

  pub score-runs :
      (dbc : Container) (dkc : DockerContainer)
      → is_neg (sync_join_score files_hash dbc dkc) ≡ not (runs dbc dkc)
  unfolding sync_join_score
  score-runs dbc dkc = ground arith

  requested-observe :
      (ps : List (Container × DockerContainer))
      → map requested (map (observe files_hash) ps) ≡ map requested (map (λ p. p.0) ps)
  unfolding observe
  requested-observe [] = refl
  requested-observe ((dbc, dkc) ∷ ps) = ap (◌∷◌ (requested dbc)) (requested-observe ps)

  docker-observe :
      (ps : List (Container × DockerContainer))
      → map (λ c. c.docker_id) (map (observe files_hash) ps) ≡ map (λ d. d.id) (map (λ p. p.1) ps)
  unfolding observe
  docker-observe [] = refl
  docker-observe ((dbc, dkc) ∷ ps) = ap (◌∷◌ dkc.id) (docker-observe ps)

  -- syncWorker forgets no container: the changed and the booted ones ask for just what the given ones ask
  -- for, and each docker container either has its id in a changed container or is killed, once each.
  pub sync_worker-partition :
      (dbcs : List Container) (dkcs : List DockerContainer)
      → Perm
          (map requested (sync_worker files_hash dbcs dkcs).0
            ++ map requested (sync_worker files_hash dbcs dkcs).1)
          (map requested dbcs)
        × Perm
            (map (λ c. c.docker_id) (sync_worker files_hash dbcs dkcs).0
              ++ map (λ d. d.id) (sync_worker files_hash dbcs dkcs).2)
            (map (λ d. d.id) dkcs)
  unfolding sync_worker
  sync_worker-partition dbcs dkcs =
      let j = join (sync_join_score files_hash) dbcs dkcs in
      let (l, r) = join-partition (sync_join_score files_hash) dbcs dkcs in
      (
        subst (λ xs. Perm xs (map requested dbcs))
            (map-append requested (map (λ p. p.0) j.pairs) j.lonely_lefts
              ∙ ap (λ xs. xs ++ map requested j.lonely_lefts) (sym (requested-observe j.pairs)))
            (Perm.map requested l),
        subst (λ xs. Perm xs (map (λ d. d.id) dkcs))
            (map-append (λ (d : DockerContainer). d.id) (map (λ p. p.1) j.pairs) j.lonely_rights
              ∙ ap (λ xs. xs ++ map (λ (d : DockerContainer). d.id) j.lonely_rights)
                  (sym (docker-observe j.pairs)))
            (Perm.map (λ (d : DockerContainer). d.id) r),
      )

  -- No container is booted while a docker container that is what it asks for is killed.
  pub sync_worker-runs :
      (dbcs : List Container) (dkcs : List DockerContainer) (dbc : Container)
      (dkc : DockerContainer)
      → Mem dbc (sync_worker files_hash dbcs dkcs).1
      → Mem dkc (sync_worker files_hash dbcs dkcs).2
      → runs dbc dkc ≡ false
  unfolding sync_worker
  sync_worker-runs dbcs dkcs dbc dkc m n =
      not-true (runs dbc dkc)
        (sym (score-runs dbc dkc) ∙ join-maximal (sync_join_score files_hash) dbcs dkcs dbc dkc m n)
    where
      not-true : (b : Bool) → not b ≡ true → b ≡ false
      not-true b h = ground arith
