-- ===== src/Scheduler/Rules.antt =====
-- minion/scheduler/master.go: the constraints that `validPlacement` reads, in terms of blueprint ids.
use mathlib.Core.List.{List}
use quilt.Prelude.{
  ◌≡◌, refl, sym, Bool, true, false, not, ◌&&◌, ◌||◌, String, [], ◌∷◌, ◌++◌, map, if◌then◌else◌,
  ◌==◌, ◌!=◌, string_eq, nat_eq, bool_eq, arith,
}
use quilt.Db.MinionRows.{Container, Placement, Minion}
use quilt.Scheduler.Placement.{
  clashes, no_clash, can_be_colocated, machine_allowed, valid_placement,
}

abbrev pub all : {A : Type 0} → (A → Bool) → List A → Bool
all p [] = true
all p (x ∷ xs) = p x && all p xs

-- Each element with each behind it.
abbrev pub pairwise : {A : Type 0} → (A → A → Bool) → List A → Bool
pairwise p [] = true
pairwise p (x ∷ xs) = all (p x) xs && pairwise p xs

-- A field that a constraint leaves empty is not constrained; an exclusive constraint wants another value
-- there, an inclusive one the same.
abbrev meets : Bool → Bool → Bool → Bool
meets unset exclusive same = unset || not (exclusive == same)

abbrev pub admits : Placement → Minion → Bool
admits c m =
    meets (c.provider == "") c.exclusive (c.provider == m.provider)
    && (meets (c.region == "") c.exclusive (c.region == m.region)
        && (meets (c.size == "") c.exclusive (c.size == m.size)
            && (meets (c.floating_ip == "") c.exclusive (c.floating_ip == m.floating_ip)
                && meets (c.disk_size == 0) c.exclusive (c.disk_size == m.disk_size))))

-- The container with blueprint id `a` may be on the minion.
abbrev pub allowed : List Placement → Minion → String → Bool
allowed cs m a = all (λ c. a != c.target_container || admits c m) cs

abbrev pub parts : Placement → String → String → Bool
parts c a b =
    c.other_container != ""
    && (c.exclusive
        && (a == c.target_container && b == c.other_container
            || b == c.target_container && a == c.other_container))

-- The containers with blueprint ids `a` and `b` may share a minion.
abbrev pub apart : List Placement → String → String → Bool
apart cs a b = all (λ c. not (parts c a b)) cs

abbrev pub bids : List Container → List String
bids = map (λ c. c.blueprint_id)

machine_allowed-admits : (c : Placement) (m : Minion) → machine_allowed c m ≡ admits c m
unfolding machine_allowed
machine_allowed-admits c m = ground arith

colocated :
    (c : Placement) (dbc : Container) (peers : List Container)
    → (c.other_container != "" && not (can_be_colocated c dbc peers))
      ≡ not (all (λ b. not (parts c dbc.blueprint_id b)) (bids peers))
unfolding can_be_colocated no_clash clashes
colocated c dbc [] = ground arith
colocated c dbc (p ∷ peers) = ground (arith, colocated c dbc peers)

all_and :
    {A : Type 0} (p q : A → Bool) (xs : List A) → all (λ x. p x && q x) xs ≡ (all p xs && all q xs)
all_and p q [] = refl
all_and p q (x ∷ xs) = ground (arith, all_and p q xs)

all-true : {A : Type 0} (xs : List A) → all (λ _. true) xs ≡ true
all-true [] = refl
all-true (x ∷ xs) = all-true xs

arrange :
    (k a r x y z b : Bool)
    → k ≡ not x
    → b ≡ (r && y)
    → (if k then false else if not a then b else if z then b else false)
      ≡ (((not a || z) && r) && (x && y))
arrange k a r x y z b h h' = ground arith

-- validPlacement says yes to a container exactly if every constraint that targets it admits the machine, and
-- no constraint parts it from any of the peers.
pub valid_placement-rules :
    (cs : List Placement) (m : Minion) (peers : List Container) (dbc : Container)
    → valid_placement cs m peers dbc
      ≡ (allowed cs m dbc.blueprint_id && all (apart cs dbc.blueprint_id) (bids peers))
unfolding valid_placement
valid_placement-rules [] m peers dbc = sym (all-true (bids peers))
valid_placement-rules (c ∷ cs) m peers dbc =
    rw
      (
        all_and (λ b. not (parts c dbc.blueprint_id b)) (apart cs dbc.blueprint_id) (bids peers),
        machine_allowed-admits c m,
      )
      (arrange _ (dbc.blueprint_id == c.target_container) _ _ _ (admits c m) _
        (colocated c dbc peers) (valid_placement-rules cs m peers dbc))

pub apart-sym : (cs : List Placement) (a b : String) → apart cs a b ≡ apart cs b a
apart-sym [] a b = refl
apart-sym (c ∷ cs) a b = ground (arith, apart-sym cs a b)

module _ {A : Type 0} (p : A → A → Bool) (p-sym : (a b : A) → p a b ≡ p b a) where
  all_snoc : (q : A → Bool) (xs : List A) (x : A) → all q (xs ++ x ∷ []) ≡ (all q xs && q x)
  all_snoc q [] x = ground arith
  all_snoc q (y ∷ xs) x = ground (arith, all_snoc q xs x)

  pub pairwise_snoc :
      (xs : List A) (x : A) → pairwise p (xs ++ x ∷ []) ≡ (pairwise p xs && all (p x) xs)
  pairwise_snoc [] x = refl
  pairwise_snoc (y ∷ xs) x = ground (arith, pairwise_snoc xs x, all_snoc (p y) xs x, p-sym x y)

pub all_add :
    {A : Type 0} (q : A → Bool) (xs : List A) (x : A) → all q (xs ++ x ∷ []) ≡ (all q xs && q x)
all_add q [] x = ground arith
all_add q (y ∷ xs) x = ground (arith, all_add q xs x)
