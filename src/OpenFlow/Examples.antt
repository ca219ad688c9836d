-- ===== src/OpenFlow/Examples.antt =====
-- minion/network/openflow/openflow.go: a switch that takes the first flow of the highest priority, two containers, and
-- packets of theirs.
use mathlib.Core.List.{mem-cons, mem-cons_self, mem-cons_of_mem, not-mem-nil}
use mathlib.Core.Logic.Or
use Prim.Native.String.{len}
use native.Mathlib.Bridge.{le_prop}
use quilt.Prelude.{
  take, ap, ◌∙◌, true≢false, eq_iff, flat_map, ℕ, ◌≡◌, ◌≤◌, ◌<◌, refl, sym, subst, inl, inr,
  Bool-cases, leb, Option, none, some, String, List, [], ◌∷◌, map, Mem, if◌then◌else◌, arith,
  string_discrete,
}
use mathlib.Core.Option.{some-injective}
use quilt.Maps.{Map, get, put, in_order}
use quilt.Db.MinionRows.{Connection, blank_container}
use quilt.Db.MinionRows as Rows
use quilt.OpenFlow.Flows.{
  Flow, Resolved, all_flows, container_flows, flow_text, resolve_containers, gateway_mac,
}
use quilt.OpenFlow.Switch.{Chooser, rank, Packet, port, is_tcp, to_local, send}
use quilt.OpenFlow.Pseudocode.{described}
use quilt.OpenFlow.Containers.{Bytes, openflow_containers, if_name}
use quilt.OpenFlow.Priorities.{IsApart}
use quilt.OpenFlow.Refines.{send-described}
use quilt.OpenFlow.Public.{IsAllowed, send-IsAllowed}
use quilt.OpenFlow.Names.{if_name-len}

better : Flow → Option Flow → Flow
better f none = f
better f (some g) = if leb (rank g.priority) (rank f.priority) then f else g

best : List Flow → Option Flow
best [] = none
best (f ∷ fs) = some (better f (best fs))

best-none : (fs : List Flow) → best fs ≡ none → fs ≡ []
unfolding best
best-none [] e = refl
best-none (f ∷ fs) e = absurd (cc)

mem-best : (fs : List Flow) (f : Flow) → best fs ≡ some f → Mem f fs
unfolding best better
mem-best [] f e = absurd (cc)
mem-best (g ∷ fs) f e = from (best fs) (mem-best fs) (some-injective _ _ e)
  where
    from :
        (o : Option Flow) → ((h : Flow) → o ≡ some h → Mem h fs) → better g o ≡ f → Mem f (g ∷ fs)
    from none ih q = subst (λ x. Mem x (g ∷ fs)) q mem-cons_self
    from (some h) ih q = elim (Bool-cases (leb (rank h.priority) (rank g.priority))) [
      | inl t ↦ subst (λ x. Mem x (g ∷ fs)) (rw t at q) mem-cons_self
      | inr t ↦ subst (λ x. Mem x (g ∷ fs)) (rw t at q) (mem-cons_of_mem g (ih h refl))
    ]

better-le : (f : Flow) (o : Option Flow) → rank f.priority ≤ rank (better f o).priority
unfolding better
better-le f none = omega arith
better-le f (some g) = ground arith

le-better : (f g : Flow) → rank g.priority ≤ rank (better f (some g)).priority
unfolding better
le-better f g = ground arith

best-max :
    (fs : List Flow) (f g : Flow) → best fs ≡ some f → Mem g fs → rank g.priority ≤ rank f.priority
unfolding best
best-max [] f g e m = absurd (not-mem-nil m)
best-max (h ∷ fs) f g e m =
    subst (λ x. rank g.priority ≤ rank x.priority) (some-injective _ _ e)
      (Or.elim le_prop (mem-cons.0 m)
        (λ q.
          subst (λ x. rank x.priority ≤ rank (better h (best fs)).priority) (sym q)
            (better-le h (best fs)))
        (λ k. later (best fs) refl (λ x e. best-max fs x g e k) k))
  where
    later :
        (o : Option Flow)
        → best fs ≡ o
        → ((x : Flow) → best fs ≡ some x → rank g.priority ≤ rank x.priority)
        → Mem g fs
        → rank g.priority ≤ rank (better h o).priority
    later none e ih k = absurd (not-mem-nil (subst (Mem g) (best-none fs e) k))
    later (some x) e ih k = omega (arith, ih x e, le-better h x)

abbrev first_best : Chooser
first_best = record {
  choose = best;
  choose-mem = mem-best;
  choose-max = best-max;
  choose-none = best-none;
}

abbrev print : ℕ → String
print n = if leb n 1 then "1" else if leb n 5 then "5" else "6"

abbrev web : Resolved
web = record {
  base = record {
    veth = "veth1";
    patch = "q_1";
    mac = "02:00:0a:00:00:07";
    ip = "10.0.0.7";
    to_pub = 80 ∷ [];
    from_pub = [];
  };
  veth_port = 5;
  patch_port = 6;
}

abbrev other_web : Resolved
other_web = record web {
  base = record web.base { mac = "02:00:0a:00:00:08"; from_pub = 443 ∷ [] };
  veth_port = 7;
  patch_port = 8;
}

-- The line for the packets that a container sends.
first_line :
    take 1 (map (flow_text print print) (container_flows in_order web))
    ≡ "table=1,in_port=5,dl_src=02:00:0a:00:00:07,actions=load:0x6->NXM_NX_REG0[],resubmit(,1)" ∷ []
unfolding container_flows flow_text
first_line = refl

abbrev request : Packet
request = record {
  ingress = port 5;
  protocol = is_tcp;
  mac_src = "02:00:0a:00:00:07";
  mac_dst = gateway_mac;
  addr_src = "10.0.0.7";
  addr_dst = "8.8.8.8";
  port_src = 5000;
  port_dst = 80;
}

webs-IsApart : IsApart (web ∷ other_web ∷ [])
webs-IsApart = (
  λ e. absurd (omega arith),
  (
    (
      (λ e. absurd (omega arith)),
      (λ e. absurd (omega arith)),
      (λ e. absurd (omega arith)),
      (λ e. absurd (omega arith)),
      λ e. true≢false (sym ((eq_iff "02:00:0a:00:00:07" "02:00:0a:00:00:08").1 e)),
    ),
    tt,
  ),
  ((λ e. absurd (omega arith)), tt, tt),
)

send-described_example :
    send first_best (all_flows in_order (web ∷ other_web ∷ [])) request
    ≡ described (web ∷ other_web ∷ []) request
send-described_example =
    send-described first_best in_order (web ∷ other_web ∷ []) request webs-IsApart

request_sent : described (web ∷ other_web ∷ []) request ≡ to_local ∷ []
unfolding described flat_map
request_sent = refl

abbrev row : Rows.Container
row = record {
  id = 1;
  ip = "10.0.0.7";
  minion = "worker";
  endpoint_id = "veth1";
  blueprint_id = "";
  docker_id = "";
  status = "";
  command = [];
  env = [];
  filepath_to_content = [];
  hostname = "web";
  created = 0;
  image = "";
  image_id = "";
  dockerfile = "";
}

abbrev to_internet : Connection
to_internet = record { id = 2; source = "web"; target = "public"; min_port = 80; max_port = 80 }

abbrev parse_ip : String → Option Bytes
parse_ip ip = some (record { b0 = 10; b1 = 0; b2 = 0; b3 = 7 })

abbrev hex2 : ℕ → String
hex2 n = if leb 10 n then "0a" else if leb 7 n then "07" else "00"

abbrev ofports : Map String ℕ
ofports = ("veth1", 5) ∷ ("q_veth1", 6) ∷ []

rows_resolved :
    resolve_containers ofports (openflow_containers 16 parse_ip hex2 (row ∷ []) (to_internet ∷ []))
    ≡ record web { base = record web.base { patch = "q_veth1" } } ∷ []
unfolding resolve_containers openflow_containers get put string_discrete
rows_resolved = refl

rows-IsApart : IsApart (
    resolve_containers ofports (openflow_containers 16 parse_ip hex2 (row ∷ []) (to_internet ∷ [])))
rows-IsApart = subst IsApart (sym rows_resolved) (λ e. absurd (omega arith), tt, tt)

reaches : Mem to_local (
    send first_best
      (all_flows in_order (
        resolve_containers ofports
          (openflow_containers 16 parse_ip hex2 (row ∷ []) (to_internet ∷ []))))
      request)
unfolding described flat_map
reaches =
    subst (Mem to_local)
      (sym (
        send-described first_best in_order
          (resolve_containers ofports
            (openflow_containers 16 parse_ip hex2 (row ∷ []) (to_internet ∷ [])))
          request rows-IsApart
        ∙ ap (λ cs. described cs request) rows_resolved))
      mem-cons_self

send-IsAllowed_example : IsAllowed parse_ip hex2 (row ∷ []) (to_internet ∷ []) request
send-IsAllowed_example =
    send-IsAllowed first_best in_order 16 parse_ip hex2 ofports (row ∷ []) (to_internet ∷ [])
      request 5 rows-IsApart refl reaches

if_name-len_example :
    (len (if_name 16 "eth0") < 16) × (len "eth0" < 15 → if_name 16 "eth0" ≡ "eth0")
if_name-len_example = if_name-len 16 "eth0" (omega arith)
