-- ===== src/OpenFlow/Switch.antt =====
-- What a switch does with flows, as the comment in minion/network/openflow/openflow.go tells it: a packet starts
-- at table 0, a matching flow of the highest priority is executed, and no matching flow drops the packet.
use quilt.Prelude.{
  ℕ, zero, suc, ◌≡◌, ◌≤◌, Bool, true, false, ◌&&◌, Option, none, some, String, List, [], ◌∷◌, ◌++◌,
  Mem, filter, ◌==◌, nat_eq, string_eq,
}
use quilt.OpenFlow.Flows.{
  Match, in_port, from_local, arp, ip, tcp, udp, dl_src, dl_dst, nw_src, nw_dst, ip_src, ip_dst,
  tp_src, tp_dst, Action, load_reg0, resubmit, output, output_local, output_reg0, Flow,
}

pub data Ingress : Type 0 where
  port : ℕ → Ingress
  local : Ingress

pub data Protocol : Type 0 where
  is_arp is_tcp is_udp other_ip other : Protocol

pub record Packet : Type 0 where
  pub ingress : Ingress
  pub protocol : Protocol
  pub mac_src : String
  pub mac_dst : String
  pub addr_src : String
  pub addr_dst : String
  pub port_src : ℕ
  pub port_dst : ℕ

abbrev pub at_port : Ingress → ℕ → Bool
at_port (port m) n = m == n
at_port local n = false

abbrev pub at_local : Ingress → Bool
at_local (port m) = false
at_local local = true

abbrev pub is_ip : Protocol → Bool
is_ip is_tcp = true
is_ip is_udp = true
is_ip other_ip = true
is_ip _ = false

abbrev pub arps : Protocol → Bool
arps is_arp = true
arps _ = false

abbrev pub tcps : Protocol → Bool
tcps is_tcp = true
tcps _ = false

abbrev pub udps : Protocol → Bool
udps is_udp = true
udps _ = false

abbrev pub holds : Packet → Match → Bool
holds p (in_port n) = at_port p.ingress n
holds p from_local = at_local p.ingress
holds p arp = arps p.protocol
holds p ip = is_ip p.protocol
holds p tcp = tcps p.protocol
holds p udp = udps p.protocol
holds p (dl_src s) = p.mac_src == s
holds p (dl_dst s) = p.mac_dst == s
holds p (nw_src s) = p.addr_src == s
holds p (nw_dst s) = p.addr_dst == s
holds p (ip_src s) = p.addr_src == s
holds p (ip_dst s) = p.addr_dst == s
holds p (tp_src n) = p.port_src == n
holds p (tp_dst n) = p.port_dst == n

abbrev pub all_hold : Packet → List Match → Bool
all_hold p [] = true
all_hold p (m ∷ ms) = holds p m && all_hold p ms

-- A flow without a priority has 32768.
abbrev pub rank : Option ℕ → ℕ
rank none = 32768
rank (some n) = n

-- The flows of a table that a packet matches.
abbrev pub candidate : ℕ → Packet → Flow → Bool
candidate t p f = f.table == t && all_hold p f.matches

-- Which flow is executed: any one that matches with the highest priority.
pub record Chooser : Type 0 where
  pub choose : List Flow → Option Flow
  pub choose-mem : (fs : List Flow) (f : Flow) → choose fs ≡ some f → Mem f fs
  pub choose-max :
      (fs : List Flow) (f g : Flow)
      → choose fs ≡ some f
      → Mem g fs
      → rank g.priority ≤ rank f.priority
  pub choose-none : (fs : List Flow) → choose fs ≡ none → fs ≡ []

-- Where a packet goes.
pub data Sent : Type 0 where
  to_port : ℕ → Sent
  to_local : Sent

-- The actions in order; `resume` goes on at a table with the register.
unfoldable pub execute : (ℕ → ℕ → List Sent) → ℕ → List Action → List Sent
execute resume reg [] = []
execute resume reg (load_reg0 n ∷ as') = execute resume n as'
execute resume reg (resubmit t ∷ as') = resume t reg ++ execute resume reg as'
execute resume reg (output n ∷ as') = to_port n ∷ execute resume reg as'
execute resume reg (output_local ∷ as') = to_local ∷ execute resume reg as'
execute resume reg (output_reg0 ∷ as') = to_port reg ∷ execute resume reg as'

abbrev pub actions_of : Option Flow → List Action
actions_of none = []
actions_of (some f) = f.actions

-- A packet visits at most `levels` tables; a longer way drops it.
unfoldable pub pipeline : (ℕ → List Action) → ℕ → ℕ → ℕ → List Sent
unfolding execute
pipeline chosen zero t reg = []
pipeline chosen (suc levels) t reg = execute (pipeline chosen levels) reg (chosen t)

-- What the switch does with a packet.
unfoldable pub send : Chooser → List Flow → Packet → List Sent
unfolding pipeline
send chooser flows p =
    pipeline (λ t. actions_of (chooser.choose (filter (candidate t p) flows))) 64 0 0
