-- ===== src/OpenFlow/Public.antt =====
-- minion/scheduler/worker.go and minion/network/openflow/openflow.go together: what the connections let the containers
-- exchange with the public internet.
use mathlib.Core.List.{mem-cons, mem-cons_of_mem, not-mem-nil, Mem-prop, exists_of_mem-map}
use mathlib.Core.Logic.{∥∥₁_elim, ∥∥₁_prop}
use mathlib.Core.Logic.Or
use quilt.Prelude.{
  ℕ, ◌≡◌, refl, sym, ap, subst, ◌⊎◌, inl, inr, true, Option, Option-cases, String, List, [], ◌∷◌,
  Mem, string_discrete,
}
use quilt.Maps.{Map, Order, get}
use quilt.Db.MinionRows as Rows
use quilt.Db.MinionRows.{Connection}
use quilt.OpenFlow.Flows.{Container, Resolved, resolve_containers, all_flows, gateway_ip}
use quilt.OpenFlow.Switch.{Packet, Chooser, port, is_arp, is_tcp, is_udp, is_ip, to_local, send}
use quilt.OpenFlow.Containers.{
  Bytes, ip_str_to_mac, openflow_container, openflow_containers, note_ports,
}
use quilt.OpenFlow.Priorities.{IsApart}
use quilt.OpenFlow.Guard.{IsPermitted, send-IsPermitted}
use quilt.OpenFlow.Ports.{IsOpen, mem-IsOpen}

mem-resolve_containers :
    (m : Map String ℕ) (cs : List Container) (c : Resolved)
    → Mem c (resolve_containers m cs)
    → Mem c.base cs
unfolding resolve_containers
mem-resolve_containers m [] c h = absurd (not-mem-nil h)
mem-resolve_containers m (d ∷ cs) c h = elim (Option-cases (get string_discrete m d.veth)) [
  | inl e ↦ mem-cons_of_mem d (mem-resolve_containers m cs c (rw (e, resolve_containers) at h))
  | inr (v, e) ↦ elim (Option-cases (get string_discrete m d.patch)) [
    | inl f ↦ mem-cons_of_mem d (mem-resolve_containers m cs c (rw (e, f, resolve_containers) at h))
    | inr (w, f) ↦
        Or.elim Mem-prop (mem-cons.0 (rw (e, f, resolve_containers) at h))
          (λ q. mem-cons.1 (Or.inl (ap (λ (r : Resolved). r.base) q)))
          (λ k. mem-cons_of_mem d (mem-resolve_containers m cs c k))
  ]
]

module _ (parse_ip : String → Option Bytes) (hex2 : ℕ → String) (dbcs : List Rows.Container)
    (conns : List Connection) (p : Packet) where
  -- The packet comes from the container, and a connection between its name and the public internet names the port.
  abbrev pub IsConnected : Rows.Container → Type 0
  IsConnected dbc =
      ((p.protocol ≡ is_tcp) ⊎ (p.protocol ≡ is_udp))
      × (p.mac_src ≡ ip_str_to_mac parse_ip hex2 dbc.ip)
      × (p.addr_src ≡ dbc.ip)
      × (IsOpen (λ c. c.target) (λ c. c.source) conns dbc.hostname p.port_dst
          ⊎ IsOpen (λ c. c.source) (λ c. c.target) conns dbc.hostname p.port_src)

  abbrev pub IsAllowed : Type 0
  IsAllowed = ∥ (
      (p.protocol ≡ is_arp)
      ⊎ (((is_ip p.protocol ≡ true) × (p.addr_dst ≡ gateway_ip))
          ⊎ ((dbc : Rows.Container) × Mem dbc dbcs × IsConnected dbc))) ∥₁

  module _ (n : ℕ) (ofports : Map String ℕ) where
    abbrev wanted : List Resolved
    wanted = resolve_containers ofports (openflow_containers n parse_ip hex2 dbcs conns)

    -- The packet is of a container of the switch.
    abbrev IsFrom : Container → Type 0
    IsFrom b =
        ((p.protocol ≡ is_tcp) ⊎ (p.protocol ≡ is_udp))
        × (p.mac_src ≡ b.mac)
        × (p.addr_src ≡ b.ip)
        × (Mem p.port_dst b.to_pub ⊎ Mem p.port_src b.from_pub)

    connected :
        (dbc : Rows.Container)
        → IsFrom (
            openflow_container n parse_ip hex2
              (note_ports (λ c. c.target) (λ c. c.source) [] conns)
              (note_ports (λ c. c.source) (λ c. c.target) [] conns)
              dbc)
        → IsConnected dbc
    connected dbc (a, b, c, d) = (
      a,
      b,
      c,
      elim d [
        | inl x ↦ inl (
            (mem-IsOpen (λ c. c.target) (λ c. c.source) (λ c. inr refl) conns dbc.hostname
                p.port_dst).0
              x)
        | inr x ↦ inr (
            (mem-IsOpen (λ c. c.source) (λ c. c.target) (λ c. inl refl) conns dbc.hostname
                p.port_src).0
              x)
      ],
    )

    IsPermitted-IsAllowed : IsPermitted p wanted → IsAllowed
    unfolding openflow_containers
    IsPermitted-IsAllowed h = ∥∥₁_elim h ∥∥₁_prop λ w. elim w [
      | inl a ↦ ∣ inl a ∣₁
      | inr v ↦ elim v [
        | inl b ↦ ∣ inr (inl b) ∣₁
        | inr (c, m, x) ↦
            ∥∥₁_elim (exists_of_mem-map (mem-resolve_containers ofports _ c m)) ∥∥₁_prop λ u.
              let (dbc, i, q) = u in ∣ inr (inr (dbc, i, connected dbc (subst IsFrom (sym q) x))) ∣₁
      ]
    ]

-- Whatever flows the switch prefers and in whatever order they were written, a packet that comes in at a port is
-- handed to the gateway only if it is an ARP packet, is sent to the gateway's address, or is a TCP or UDP packet
-- with the MAC and the address of a container of the worker whose name a connection joins with the public
-- internet at that one port: the destination port if the connection leads there, the source port if it
-- comes from there. No two of the resolved ports are the same, and no two containers have the same MAC.
pub send-IsAllowed :
    (chooser : Chooser) (o : Order) (if_name_size : ℕ) (parse_ip : String → Option Bytes)
    (hex2 : ℕ → String) (ofports : Map String ℕ) (dbcs : List Rows.Container)
    (conns : List Connection) (p : Packet) (n : ℕ)
    → IsApart
        (resolve_containers ofports (openflow_containers if_name_size parse_ip hex2 dbcs conns))
    → p.ingress ≡ port n
    → Mem to_local (
        send chooser
          (all_flows o (
            resolve_containers ofports (openflow_containers if_name_size parse_ip hex2 dbcs conns)))
          p)
    → IsAllowed parse_ip hex2 dbcs conns p
send-IsAllowed chooser o if_name_size parse_ip hex2 ofports dbcs conns p n apart enters m =
    IsPermitted-IsAllowed parse_ip hex2 dbcs conns p if_name_size ofports (
      send-IsPermitted chooser o
        (resolve_containers ofports (openflow_containers if_name_size parse_ip hex2 dbcs conns)) p n
        apart enters m)
