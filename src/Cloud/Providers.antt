-- ===== src/Cloud/Providers.antt =====
-- db/constants.go, cloud/misc.go: roles, providers, and what depends on the provider.
use quilt.Prelude.{
  ◌↔◌, ◌≡◌, refl, sym, subst, ◌⊎◌, inl, inr, Bool-cases, Option, none, some, String, List, [], ◌∷◌,
  if◌then◌else◌, ◌==◌, string_eq, arith, eq_iff,
}
use quilt.Db.Rows.{Role, Machine}
use quilt.Cloud.Size.{Float, Range, Catalogue, choose_best_size}

-- db.AllProviders
abbrev pub all_providers : List String
all_providers = "Amazon" ∷ "Google" ∷ "DigitalOcean" ∷ "Vagrant" ∷ []

-- The loop of ParseProvider.
unfoldable pub find_provider : List String → String → Option String
find_provider [] name = none
find_provider (p ∷ ps) name = if p == name then some p else find_provider ps name

-- `none` is the error.
unfoldable pub parse_provider : String → Option String
unfolding find_provider
parse_provider name = find_provider all_providers name

unfoldable pub parse_role : String → Option Role
parse_role role =
    if role == "Master"
    then some Role.master
    else if role == "Worker"
    then some Role.worker
    else if role == ""
    then some Role.unassigned
    else none

-- The string that a role is in the source.
unfoldable pub role_string : Role → String
role_string Role.unassigned = ""
role_string Role.worker = "Worker"
role_string Role.master = "Master"

-- `none` is the panic on a provider that is not known.
unfoldable pub default_region : Machine → Option Machine
default_region m =
    if m.region == ""
    then (if m.provider == "Amazon"
        then some (record m { region = "us-west-1" })
        else if m.provider == "DigitalOcean"
        then some (record m { region = "sfo1" })
        else if m.provider == "Google"
        then some (record m { region = "us-east1-b" })
        else if m.provider == "Vagrant"
        then some m
        else none)
    else some m

-- `none` is the panic on a provider that is not known.
unfoldable pub choose_size :
    (f : Float) → Catalogue f → String → Range f → Range f → f.Value → Option String
choose_size f sizes provider ram cpu max_price =
    if provider == "Amazon"
    then some (choose_best_size f sizes.amazon ram cpu max_price)
    else if provider == "DigitalOcean"
    then some (choose_best_size f sizes.digital_ocean ram cpu max_price)
    else if provider == "Google"
    then some (choose_best_size f sizes.google ram cpu max_price)
    else if provider == "Vagrant"
    then some (sizes.vagrant_size ram cpu)
    else none

-- A string parses as a role exactly if it is the string of the role.
pub parse_role_round_trip : (r : Role) (s : String) → (parse_role s ≡ some r) ↔ (s ≡ role_string r)
unfolding parse_role role_string
parse_role_round_trip Role.unassigned s =
    (ground (arith, eq_iff s "Master", eq_iff s "Worker", eq_iff s ""), λ e. rw e refl)
parse_role_round_trip Role.worker s =
    (ground (arith, eq_iff s "Master", eq_iff s "Worker", eq_iff s ""), λ e. rw e refl)
parse_role_round_trip Role.master s =
    (ground (arith, eq_iff s "Master", eq_iff s "Worker", eq_iff s ""), λ e. rw e refl)

-- The providers that the source names.
abbrev pub IsProvider : String → Type 0
IsProvider p = (p ≡ "Amazon") ⊎ (p ≡ "Google") ⊎ (p ≡ "DigitalOcean") ⊎ (p ≡ "Vagrant")

pub parse_provider-IsProvider :
    (name p : String) → parse_provider name ≡ some p → (p ≡ name) × IsProvider p
unfolding parse_provider
parse_provider-IsProvider name p h = ground (
  arith,
  eq_iff "Amazon" name,
  eq_iff "Google" name,
  eq_iff "DigitalOcean" name,
  eq_iff "Vagrant" name,
)

pub choose_size-known :
    (f : Float) (sizes : Catalogue f) (p : String) (ram cpu : Range f) (max_price : f.Value)
    → IsProvider p
    → (s : String) × (choose_size f sizes p ram cpu max_price ≡ some s)
unfolding choose_size
choose_size-known f sizes p ram cpu max_price (inl e) =
    (choose_best_size f sizes.amazon ram cpu max_price, rw e)
choose_size-known f sizes p ram cpu max_price (inr (inl e)) =
    (choose_best_size f sizes.google ram cpu max_price, rw e)
choose_size-known f sizes p ram cpu max_price (inr (inr (inl e))) =
    (choose_best_size f sizes.digital_ocean ram cpu max_price, rw e)
choose_size-known f sizes p ram cpu max_price (inr (inr (inr e))) =
    (sizes.vagrant_size ram cpu, rw e)

pub default_region-known :
    (m : Machine) → IsProvider m.provider → (d : Machine) × (default_region m ≡ some d)
unfolding default_region
default_region-known m h = elim (Bool-cases (m.region == "")) [
  | inl e ↦ elim h [
    | inl p ↦ (record m { region = "us-west-1" }, rw (e, p))
    | inr (inl p) ↦ (record m { region = "us-east1-b" }, rw (e, p))
    | inr (inr (inl p)) ↦ (record m { region = "sfo1" }, rw (e, p))
    | inr (inr (inr p)) ↦ (m, rw (e, p))
  ]
  | inr e ↦ (m, rw e)
]

-- A provider that parses is the name itself, and one that the two switches on the provider know: for it
-- neither of them panics.
parse_provider_known :
    (f : Float) (sizes : Catalogue f) (name p : String) (m : Machine) (ram cpu : Range f)
    (max_price : f.Value)
    → parse_provider name ≡ some p
    → m.provider ≡ p
    → (p ≡ name)
      × ((s : String) × (choose_size f sizes p ram cpu max_price ≡ some s))
      × ((d : Machine) × (default_region m ≡ some d))
parse_provider_known f sizes name p m ram cpu max_price h e =
    let (q, k) = parse_provider-IsProvider name p h in
    (
      q,
      choose_size-known f sizes p ram cpu max_price k,
      default_region-known m (subst IsProvider (sym e) k),
    )
