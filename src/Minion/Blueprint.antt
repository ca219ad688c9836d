-- ===== src/Minion/Blueprint.antt =====
-- blueprint/blueprint.go: what a minion reads of a compiled blueprint.
use quilt.Prelude.{ℕ, Bool, String, List, string_discrete, ℕ_discrete}
use quilt.Db.Rows.{StringMap}

pub record BlueprintImage : Type 0 where
  pub name : String
  pub dockerfile : String

unfoldable pub BlueprintImage-discrete : Discrete BlueprintImage
BlueprintImage-discrete = hlevel string_discrete

pub record BlueprintContainer : Type 0 where
  pub id : String
  pub image : BlueprintImage
  pub command : List String
  pub env : StringMap
  pub filepath_to_content : StringMap
  pub hostname : String

pub record BlueprintLoadBalancer : Type 0 where
  pub name : String
  pub hostnames : List String

-- `source` and `target` are the fields From and To.
pub record BlueprintConnection : Type 0 where
  pub source : String
  pub target : String
  pub min_port : ℕ
  pub max_port : ℕ

unfoldable pub BlueprintConnection-discrete : Discrete BlueprintConnection
BlueprintConnection-discrete = hlevel (ℕ_discrete, string_discrete)

pub record BlueprintPlacement : Type 0 where
  pub target_container_id : String
  pub exclusive : Bool
  pub provider : String
  pub size : String
  pub region : String
  pub floating_ip : String
  pub disk_size : ℕ

pub record Blueprint : Type 0 where
  pub containers : List BlueprintContainer
  pub load_balancers : List BlueprintLoadBalancer
  pub connections : List BlueprintConnection
  pub placements : List BlueprintPlacement
