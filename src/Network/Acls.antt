-- ===== src/Network/Acls.antt =====
-- minion/network/acl.go: the access rules of the logical switch. The text of a number is an argument, as is
-- the list that the switch reports.
use quilt.Prelude.{
  ℕ, ◌||◌, String, List, [], ◌∷◌, ◌++◌, if◌then◌else◌, ◌==◌, string_eq, string_discrete, ℕ_discrete,
}
use quilt.Maps.{Order}
use quilt.Join.Score.{Joined}
use quilt.Join.Hash.{hash_join}
use quilt.Db.Rows.{StringMap}
use quilt.Db.MinionRows.{Connection}
use quilt.Scheduler.Worker.{lookup}

-- ovsdb.ACLCore
pub record AclCore : Type 0 where
  pub priority : ℕ
  pub direction : String
  pub match : String
  pub action : String

unfoldable pub AclCore-discrete : Discrete AclCore
AclCore-discrete = hlevel (ℕ_discrete, string_discrete)

-- directedACLs, on the core of the rule; the other fields are empty in what it returns.
unfoldable pub directed_acls : AclCore → List AclCore
directed_acls core =
    record core { direction = "from-lport" } ∷ record core { direction = "to-lport" } ∷ []

module _ (match_string : String → String → ℕ → ℕ → String) where
  -- The loop of updateACLs over the connections. `match_string` is getMatchString.
  unfoldable pub allowing : StringMap → List Connection → List AclCore
  unfolding directed_acls
  allowing hostname_to_ip [] = []
  allowing hostname_to_ip (conn ∷ conns) =
      let rest = allowing hostname_to_ip conns in
      let src = lookup hostname_to_ip conn.source in
      let dst = lookup hostname_to_ip conn.target in
      if conn.source == "public" || conn.target == "public"
      then rest
      else if src == "" || dst == ""
      then rest
      else directed_acls (record {
        priority = 1;
        direction = "";
        match = match_string src dst conn.min_port conn.max_port;
        action = "allow";
      })
        ++ rest

  -- expACLs
  unfoldable pub expected_acls : StringMap → List Connection → List AclCore
  unfolding allowing
  expected_acls hostname_to_ip conns =
      directed_acls (record { priority = 0; direction = ""; match = "ip"; action = "drop" })
      ++ allowing hostname_to_ip conns

  -- The join of updateACLs: its lonely lefts are to create, its lonely rights to delete.
  unfoldable pub acl_changes :
      {A : Type 0} → (A → AclCore) → Order → StringMap → List Connection → List A → Joined AclCore A
  unfolding expected_acls
  acl_changes core o hostname_to_ip conns current =
      hash_join AclCore-discrete (λ c. c) core o (expected_acls hostname_to_ip conns) current
