-- ===== src/Foreman/Examples.antt =====
-- cloud/foreman/foreman.go: rounds of the foreman with a master and a worker.
use mathlib.Core.List.{Nodup-nil, Nodup-cons, mem-cons_self, not-mem-nil}
use mathlib.Core.Option.{some-injective}
use quilt.Prelude.{
  ℕ, ◌≡◌, ◌≢◌, ◌↔◌, ◌∙◌, refl, sym, ap, test_yes, test_no, true, false, Option, none, some, String,
  List, [], ◌∷◌, Mem, Nodup, string_discrete, filter, ◌==◌, string_eq, bool_eq, if◌then◌else◌,
}
use quilt.Maps.{in_order, values, keys, get, put, delete}
use quilt.Db.Rows.{Machine, Role, blank_machine}
use quilt.Foreman.Minions.{
  PbRole, MinionConfig, zero_config, Minion, World, new_minion, mark_one, mark_each, sweep_one,
  sweep_each, update_minion_map, get_machine_role,
}
use quilt.Foreman.Run.{update_config, update_configs, run_once}
use quilt.Foreman.Sweep.{found}
use quilt.Foreman.Kept.{Kept, AllUnmarked, update_minion_map-Kept}
use quilt.Foreman.Due.{IsMember, IsDue}
use quilt.Foreman.Sent.{after_round, run_once-sends}

abbrev machine_at : String → String → Machine
machine_at public private = record (blank_machine 1) { public_ip = public; private_ip = private }

abbrev machines : List Machine
machines =
    machine_at "1.1.1.1" "10.0.0.1"
    ∷ machine_at "2.2.2.2" "10.0.0.2"
    ∷ machine_at "down" "10.0.0.3"
    ∷ []

-- A client is its address; one address cannot be reached.
abbrev dial : ℕ → String → Option String
dial n ip = if ip == "down" then none else some ip

abbrev answering : String → Option MinionConfig
answering c =
    if c == "1.1.1.1"
    then some (record zero_config { role = PbRole.master_role })
    else if c == "2.2.2.2"
    then some (record zero_config { role = PbRole.worker_role })
    else none

-- The map before the round, with one minion that has no machine any more.
abbrev world : World String
world = record { minions = ("3.3.3.3", new_minion "3.3.3.3") ∷ []; calls = 0; closed = [] }

world-Nodup : Nodup (keys (world.minions))
world-Nodup = Nodup-cons.1 (not-mem-nil, Nodup-nil)

world-AllUnmarked : AllUnmarked dial world
unfolding get
world-AllUnmarked k v e = elim (string_discrete "3.3.3.3" k) [
  | yes p ↦
      ap (λ (x : Minion String). x.mark)
        (some-injective v (new_minion "3.3.3.3")
          (sym e ∙ rw (get, test_yes (string_discrete "3.3.3.3" k) p) refl))
  | no n ↦ absurd (cc (rw (get, test_no (string_discrete "3.3.3.3" k) n) at e))
]

abbrev after : World String
after = (run_once dial answering in_order machines "bp" world).0

swept_calls :
    ◌≡◌ {A = ℕ × List String}
      (
        (update_minion_map dial in_order machines world).calls,
        (update_minion_map dial in_order machines world).closed,
      )
      (3, "3.3.3.3" ∷ [])
unfolding string_discrete update_minion_map mark_each mark_one sweep_each sweep_one get put delete
swept_calls = refl

first_role : get_machine_role after "1.1.1.1" ≡ Role.master
unfolding string_discrete run_once get_machine_role update_minion_map mark_each mark_one sweep_each
    sweep_one get put delete update_configs update_config filter
first_role = refl

update_minion_map-Kept_example :
    Kept dial machines "3.3.3.3"
      ((update_minion_map dial in_order machines world).closed)
      (found dial world "3.3.3.3")
      (found dial (update_minion_map dial in_order machines world) "3.3.3.3")
update_minion_map-Kept_example =
    update_minion_map-Kept dial string_discrete in_order machines world "3.3.3.3" world-Nodup
      world-AllUnmarked

-- The master after the round.
abbrev master_minion : Minion String
master_minion = record {
  client = "1.1.1.1";
  connected = true;
  machine = machine_at "1.1.1.1" "10.0.0.1";
  config = record zero_config { role = PbRole.master_role };
  mark = false;
}

master_in_map : Mem master_minion (values (after_round dial answering in_order machines world))
unfolding string_discrete update_minion_map mark_each mark_one sweep_each sweep_one get put delete
    update_configs update_config filter
master_in_map = mem-cons_self

no_role : PbRole.master_role ≢ PbRole.none_role
no_role e = cc

run_once-sends_example :
    (ips : List String) × ((ip : String)
      → Mem ip ips
        ↔ ∥ (
            (m : Minion String) × Mem m
              (values (after_round dial answering in_order machines world))
            × IsMember ip m) ∥₁)
    × ((c : String) (cfg : MinionConfig)
        → Mem {A = String × MinionConfig}
            (c, cfg)
            (run_once dial answering in_order machines "bp" world).1
          ↔ ∥ (
              (m : Minion String) × Mem m
                (values (after_round dial answering in_order machines world))
              × IsDue "bp" ips c cfg m) ∥₁)
run_once-sends_example = run_once-sends dial answering in_order machines "bp" world
