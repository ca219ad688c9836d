-- ===== src/Db/EtcdRows.antt =====
-- db/hostname.go and db/etcd.go: the rows of the names and of the etcd cluster.
use quilt.Prelude.{
  ℕ, ◌≡◌, refl, Bool, false, nat_eq, String, List, [], ◌∷◌, ℕ_discrete, string_discrete,
}
use quilt.Maps.{Map, put}
use quilt.Db.Table.{Row}

-- db.Hostname
pub record Hostname : Type 0 where
  pub id : ℕ
  pub hostname : String
  pub ip : String

unfoldable pub Hostname-discrete : Discrete Hostname
Hostname-discrete = hlevel (ℕ_discrete, string_discrete)

unfoldable pub blank_hostname : ℕ → Hostname
blank_hostname n = record { id = n; hostname = ""; ip = "" }

pub blank_hostname-id : (n : ℕ) → (blank_hostname n).id ≡ n
unfolding blank_hostname
blank_hostname-id n = refl

abbrev pub hostname_row : Row Hostname
hostname_row = record {
  get_id = λ h. h.id;
  blank = blank_hostname;
  blank-id = blank_hostname-id;
  deep_equal = Hostname-discrete;
}

-- The loop of GetHostnameMappings.
unfoldable pub hostname_mappings : Map String String → List Hostname → Map String String
hostname_mappings m [] = m
hostname_mappings m (h ∷ hs) = hostname_mappings (put string_discrete m h.hostname h.ip) hs

-- db.Etcd
pub record Etcd : Type 0 where
  pub id : ℕ
  pub etcd_ips : List String
  pub leader : Bool
  pub leader_ip : String

unfoldable pub Etcd-discrete : Discrete Etcd
Etcd-discrete = hlevel (ℕ_discrete, string_discrete)

-- Database.InsertEtcd
unfoldable pub blank_etcd : ℕ → Etcd
blank_etcd n = record { id = n; etcd_ips = []; leader = false; leader_ip = "" }

pub blank_etcd-id : (n : ℕ) → (blank_etcd n).id ≡ n
unfolding blank_etcd
blank_etcd-id n = refl

abbrev pub etcd_row : Row Etcd
etcd_row = record {
  get_id = λ e. e.id;
  blank = blank_etcd;
  blank-id = blank_etcd-id;
  deep_equal = Etcd-discrete;
}

-- Database.EtcdLeader
abbrev pub only_leads : List Etcd → Bool
only_leads [] = false
only_leads (e ∷ []) = e.leader
only_leads (e ∷ f ∷ es) = false
