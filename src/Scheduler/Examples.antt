-- ===== src/Scheduler/Examples.antt =====
-- minion/scheduler/: a round of the scheduler, and of a worker, on a few containers.
use mathlib.Core.List.{mem-cons_self}
use mathlib.Core.List.Perm
use mathlib.Core.Logic.Or
use quilt.Prelude.{ℕ, ◌≡◌, true, false, ◌&&◌, String, List, [], ◌∷◌, Perm}
use quilt.Db.Rows.{Role, StringMap}
use quilt.Db.Table.{View}
use quilt.Db.MinionRows.{Container, blank_container, Placement, blank_placement, Minion, Image}
use quilt.Scheduler.Placement.{valid_placement}
use quilt.Scheduler.Context.{Sorting, Context}
use quilt.Scheduler.Rules.{all, allowed, apart, bids, valid_placement-rules}
use quilt.Scheduler.Worker.{DockerContainer, sync_worker}
use quilt.Scheduler.Running.{runs, sync_worker-runs}
use quilt.Scheduler.Worker.{sync_join_score}
use quilt.Join.Score.{join, pick, best_index}

-- A heap and a sort that leave everything where it is.
abbrev lazy : Sorting
lazy = record {
  heap_init = λ A less xs. xs;
  heap_fix = λ A less xs i. xs;
  sort = λ A less xs. xs;
  heap_init-perm = λ A less xs. Perm.refl xs;
  heap_fix-perm = λ A less xs i. Perm.refl xs;
  sort-perm = λ A less xs. Perm.refl xs;
}

abbrev minion : String → String → Minion
minion ip region = record {
  id = 0;
  self = false;
  blueprint = "";
  authorized_keys = "";
  role = Role.worker;
  private_ip = ip;
  provider = "Amazon";
  size = "";
  region = region;
  floating_ip = "";
  host_subnets = [];
  disk_size = 32;
}

abbrev container : ℕ → String → String → Container
container n bid ip = record (blank_container n) { blueprint_id = bid; minion = ip; image = "web" }

-- "a" and "b" must not share a minion, and "c" must be in the region "east".
abbrev rules : List Placement
rules =
    record (blank_placement 1) { exclusive = true; target_container = "a"; other_container = "b" }
    ∷ record (blank_placement 2) { target_container = "c"; region = "east" }
    ∷ []

abbrev containers : List Container
containers = container 1 "a" "10.1.1.1" ∷ container 2 "b" "10.1.1.1" ∷ container 3 "c" "" ∷ []

valid_placement-rules_example :
    valid_placement rules
      (minion "10.1.1.1" "west")
      (container 1 "a" "10.1.1.1" ∷ [])
      (container 2 "b" "")
    ≡ (allowed rules (minion "10.1.1.1" "west") (container 2 "b" "").blueprint_id
        && all
            (apart rules (container 2 "b" "").blueprint_id)
            (bids (container 1 "a" "10.1.1.1" ∷ [])))
valid_placement-rules_example =
    valid_placement-rules rules (minion "10.1.1.1" "west") (container 1 "a" "10.1.1.1" ∷ [])
      (container 2 "b" "")

abbrev no_text : List String → String
no_text args = ""

abbrev rule_table : View Placement
rule_table = record { cur_id = 2; rows = rules; should_alert = false }

abbrev image_table : View Image
image_table = record { cur_id = 0; rows = []; should_alert = false }

abbrev table : View Container
table = record { cur_id = 3; rows = containers; should_alert = false }

abbrev workers_of : List Minion
workers_of = minion "10.1.1.1" "west" ∷ minion "10.1.1.2" "west" ∷ []

abbrev no_hash : StringMap → String
no_hash files = "0"

abbrev docker : String → String → DockerContainer
docker id image = record {
  id = id;
  eid = "";
  name = "";
  image = image;
  image_id = "";
  ip = "";
  mac = "";
  path = "";
  status = "running";
  args = [];
  pid = 1;
  env = [];
  labels = ("files", "0") ∷ [];
  created = 0;
}

abbrev other : DockerContainer
other = record (docker "y" "web") { ip = "10.0.0.3" }

sync_worker-runs_example : runs no_hash (container 1 "a" "") other ≡ false
unfolding sync_worker join pick best_index blank_container sync_join_score
sync_worker-runs_example =
    sync_worker-runs no_hash (container 1 "a" "" ∷ []) (other ∷ []) (container 1 "a" "") other
      mem-cons_self mem-cons_self
