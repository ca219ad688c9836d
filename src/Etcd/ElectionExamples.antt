-- ===== src/Etcd/ElectionExamples.antt =====
-- minion/etcd/elector.go: a minion that is elected.
use Prim.Native.String.{len}
use Prim.Native.String.len
use quilt.Prelude.{ℕ, zero, suc, ◌+◌, ◌≡◌, refl, ap, true, some, String, [], ◌∷◌, arith, filter}
use quilt.Maps.{in_order}
use quilt.Db.Rows.{Role}
use quilt.Db.Table.{View, find, store, commit, select}
use quilt.Db.EtcdRows.{Etcd, Etcd-discrete, blank_etcd}
use quilt.Etcd.Elector.{create_key, success, campaign_call, campaign_end}
use quilt.Etcd.Election.{
  State, start, set_at, answered, waiting, campaign, finish, configure, Reach, here, next,
}
use quilt.Etcd.Elected.{Leads, one_leader}

-- An address for each minion.
address_of : ℕ → String
address_of zero = "x"
address_of (suc n) = String.◌∷◌ "x" (address_of n)

address_of-len : (n : ℕ) → len (address_of n) ≡ n + 1
unfolding address_of
address_of-len zero = refl
address_of-len (suc n) = rw (len.cons _ (address_of n)) (omega (arith, address_of-len n))

address_of_distinct : (i j : ℕ) → address_of i ≡ address_of j → i ≡ j
address_of_distinct i j e = omega (arith, address_of-len i, address_of-len j, ap len e)

abbrev with_row : View Etcd
with_row = record { cur_id = 1; rows = blank_etcd 1 ∷ []; should_alert = true }

abbrev configured : State
configured = record start { table = set_at start.table 0 with_row }

abbrev campaigned : State
campaigned = record configured {
  key = some (address_of 0);
  phase = set_at configured.phase 0 (answered success 0);
}

abbrev led : View Etcd
led = record with_row {
  rows = record (blank_etcd 1) { leader = true; leader_ip = address_of 0 } ∷ [];
}

abbrev elected : State
elected = record campaigned {
  table = set_at campaigned.table 0 led;
  phase = set_at campaigned.phase 0 waiting;
  noted = set_at campaigned.noted 0 0;
}

elected_reached : Reach in_order address_of elected
unfolding campaign_call campaign_end select filter address_of commit find store Etcd-discrete
    blank_etcd
elected_reached =
    next
      (next (next here (configure 0 with_row (λ h. cc) refl))
        (campaign 0 Role.master (create_key (address_of 0)) refl refl refl))
      (finish 0 success 0 led refl refl refl)

one_leader_example : ¬ Leads elected 1
unfolding blank_etcd
one_leader_example =
    one_leader in_order address_of address_of_distinct elected_reached 0 1
      (λ e. absurd (omega arith)) (refl, refl)
