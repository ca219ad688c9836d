-- ===== src/Db/MinionRows.antt =====
-- db/: the row types that the minions use.
use quilt.Prelude.{ℕ, ◌≡◌, refl, Bool, false, String, List, [], ℕ_discrete, string_discrete}
use quilt.Db.Table.{Row}
use quilt.Db.Rows.{Role, StringMap}

-- db/container.go; `created` is the time as a number.
pub record Container : Type 0 where
  pub id : ℕ
  pub ip : String
  pub minion : String
  pub endpoint_id : String
  pub blueprint_id : String
  pub docker_id : String
  pub status : String
  pub command : List String
  pub env : StringMap
  pub filepath_to_content : StringMap
  pub hostname : String
  pub created : ℕ
  pub image : String
  pub image_id : String
  pub dockerfile : String

unfoldable pub Container-discrete : Discrete Container
Container-discrete = hlevel (ℕ_discrete, string_discrete)

unfoldable pub blank_container : ℕ → Container
blank_container n = record {
  id = n;
  ip = "";
  minion = "";
  endpoint_id = "";
  blueprint_id = "";
  docker_id = "";
  status = "";
  command = [];
  env = [];
  filepath_to_content = [];
  hostname = "";
  created = 0;
  image = "";
  image_id = "";
  dockerfile = "";
}

pub blank_container-id : (n : ℕ) → (blank_container n).id ≡ n
unfolding blank_container
blank_container-id n = refl

abbrev pub container_row : Row Container
container_row = record {
  get_id = λ c. c.id;
  blank = blank_container;
  blank-id = blank_container-id;
  deep_equal = Container-discrete;
}

-- db/connection.go
pub record Connection : Type 0 where
  pub id : ℕ
  pub source : String
  pub target : String
  pub min_port : ℕ
  pub max_port : ℕ

unfoldable pub Connection-discrete : Discrete Connection
Connection-discrete = hlevel (ℕ_discrete, string_discrete)

unfoldable pub blank_connection : ℕ → Connection
blank_connection n = record { id = n; source = ""; target = ""; min_port = 0; max_port = 0 }

pub blank_connection-id : (n : ℕ) → (blank_connection n).id ≡ n
unfolding blank_connection
blank_connection-id n = refl

abbrev pub connection_row : Row Connection
connection_row = record {
  get_id = λ c. c.id;
  blank = blank_connection;
  blank-id = blank_connection-id;
  deep_equal = Connection-discrete;
}

-- db/load_balancer.go
pub record LoadBalancer : Type 0 where
  pub id : ℕ
  pub name : String
  pub ip : String
  pub hostnames : List String

unfoldable pub LoadBalancer-discrete : Discrete LoadBalancer
LoadBalancer-discrete = hlevel (ℕ_discrete, string_discrete)

unfoldable pub blank_load_balancer : ℕ → LoadBalancer
blank_load_balancer n = record { id = n; name = ""; ip = ""; hostnames = [] }

pub blank_load_balancer-id : (n : ℕ) → (blank_load_balancer n).id ≡ n
unfolding blank_load_balancer
blank_load_balancer-id n = refl

abbrev pub load_balancer_row : Row LoadBalancer
load_balancer_row = record {
  get_id = λ l. l.id;
  blank = blank_load_balancer;
  blank-id = blank_load_balancer-id;
  deep_equal = LoadBalancer-discrete;
}

-- db/placement.go
pub record Placement : Type 0 where
  pub id : ℕ
  pub target_container : String
  pub exclusive : Bool
  pub other_container : String
  pub provider : String
  pub size : String
  pub region : String
  pub floating_ip : String
  pub disk_size : ℕ

unfoldable pub Placement-discrete : Discrete Placement
Placement-discrete = hlevel (ℕ_discrete, string_discrete)

unfoldable pub blank_placement : ℕ → Placement
blank_placement n = record {
  id = n;
  target_container = "";
  exclusive = false;
  other_container = "";
  provider = "";
  size = "";
  region = "";
  floating_ip = "";
  disk_size = 0;
}

pub blank_placement-id : (n : ℕ) → (blank_placement n).id ≡ n
unfolding blank_placement
blank_placement-id n = refl

abbrev pub placement_row : Row Placement
placement_row = record {
  get_id = λ p. p.id;
  blank = blank_placement;
  blank-id = blank_placement-id;
  deep_equal = Placement-discrete;
}

-- db/minion.go
pub record Minion : Type 0 where
  pub id : ℕ
  pub self : Bool
  pub blueprint : String
  pub authorized_keys : String
  pub role : Role
  pub private_ip : String
  pub provider : String
  pub size : String
  pub region : String
  pub floating_ip : String
  pub host_subnets : List String
  pub disk_size : ℕ

-- db/image.go
pub record Image : Type 0 where
  pub id : ℕ
  pub name : String
  pub dockerfile : String
  pub docker_id : String
  pub status : String

unfoldable pub Image-discrete : Discrete Image
Image-discrete = hlevel (ℕ_discrete, string_discrete)

unfoldable pub blank_image : ℕ → Image
blank_image n = record { id = n; name = ""; dockerfile = ""; docker_id = ""; status = "" }

pub blank_image-id : (n : ℕ) → (blank_image n).id ≡ n
unfolding blank_image
blank_image-id n = refl

abbrev pub image_row : Row Image
image_row = record {
  get_id = λ i. i.id;
  blank = blank_image;
  blank-id = blank_image-id;
  deep_equal = Image-discrete;
}
