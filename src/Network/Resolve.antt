-- ===== src/Network/Resolve.antt =====
-- minion/network/dns.go: what the DNS server answers for the names of the table.
use mathlib.Core.List.{
  mem-cons, mem-cons_self, mem-cons_of_mem, not-mem-nil, Mem-prop, mem-map_of_mem,
  exists_of_mem-map,
}
use mathlib.Core.List.Perm
use mathlib.Core.Logic.{∥∥₁_elim}
use mathlib.Core.Logic.Or
use quilt.Prelude.{
  ◌≡◌, ◌∙◌, refl, sym, ap, subst, Bool, true, Option, some, Option-cases, inl, inr, String, List,
  [], ◌∷◌, map, Mem, string_discrete, ℕ_discrete, test_yes, test_no,
}
use quilt.Maps.{Map, Order, get, put, get-put}
use quilt.Db.Table.{View, IsValid, select}
use quilt.Db.Selects.{select_all-perm}
use quilt.Db.EtcdRows.{Hostname, hostname_row}
use quilt.Db.MinionRows.{Container, LoadBalancer}
use quilt.Network.Hostnames.{
  name_of, target_hostnames, nameless, sync_hostnames, sync_hostnames-EachOnce, Ip, dns_name,
  add_records, hostnames_to_dns, lookup_a,
}

module _ (parse_ip : String → Option Ip) where
  -- Every row with the name has the address.
  abbrev pub IsOnly : String → Ip → List Hostname → Type 0
  IsOnly k a hs = (g : Hostname) → Mem g hs → dns_name g.hostname ≡ k → parse_ip g.ip ≡ some a

  add_records-keeps :
      (records : Map String Ip) (hs : List Hostname) (k : String) (a : Ip)
      → IsOnly k a hs
      → get string_discrete records k ≡ some a
      → get string_discrete (add_records parse_ip records hs) k ≡ some a
  unfolding add_records
  add_records-keeps records [] k a only e = e
  add_records-keeps records (hn ∷ hns) k a only e = elim (Option-cases (parse_ip hn.ip)) [
    | inl f ↦ rw (add_records, f) (add_records-keeps records hns k a rest e)
    | inr (b, f) ↦
        rw (add_records, f)
          (add_records-keeps (put string_discrete records (dns_name hn.hostname) b) hns k a rest
            (put_lem b f))
  ]
    where
      rest : IsOnly k a hns
      rest g m = only g (mem-cons_of_mem hn m)

      put_lem :
          (b : Ip)
          → parse_ip hn.ip ≡ some b
          → get string_discrete (put string_discrete records (dns_name hn.hostname) b) k ≡ some a
      put_lem b f =
          get-put string_discrete records (dns_name hn.hostname) k b
          ∙ (elim (string_discrete (dns_name hn.hostname) k) [
            | yes p ↦
                rw (test_yes (string_discrete (dns_name hn.hostname) k) p)
                  (sym f ∙ only hn mem-cons_self p)
            | no n ↦ rw (test_no (string_discrete (dns_name hn.hostname) k) n) e
          ])

  add_records-finds :
      (hs : List Hostname) (records : Map String Ip) (h : Hostname) (a : Ip)
      → IsOnly (dns_name h.hostname) a hs
      → Mem h hs
      → get string_discrete (add_records parse_ip records hs) (dns_name h.hostname) ≡ some a
  unfolding add_records
  add_records-finds [] records h a only m = absurd (not-mem-nil m)
  add_records-finds (hn ∷ hns) records h a only m =
      elim (string_discrete (dns_name hn.hostname) (dns_name h.hostname)) [
        | yes p ↦
            rw (add_records, only hn mem-cons_self p)
              (add_records-keeps (put string_discrete records (dns_name hn.hostname) a) hns
                (dns_name h.hostname) a (λ g c. only g (mem-cons_of_mem hn c))
                (get-put string_discrete records (dns_name hn.hostname) (dns_name h.hostname) a
                  ∙ rw (test_yes (string_discrete (dns_name hn.hostname) (dns_name h.hostname)) p)))
        | no n ↦
            add_records-finds hns _ h a (λ g c. only g (mem-cons_of_mem hn c))
              (Or.elim Mem-prop (mem-cons.0 m)
                (λ e. absurd (n (ap (λ (x : Hostname). dns_name x.hostname) (sym e)))) (λ c. c))
      ]

  -- If a container or a load balancer has a name and an address that parses, and no other target has the name
  -- with another address, then after joinHostnames on any valid table the server answers the name with
  -- exactly that address, in whatever order it reads the table.
  pub hostname_resolves :
      (o p : Order) (lbs : View LoadBalancer) (containers : View Container) (v : View Hostname)
      (in_q : String → Bool) (is_ip4 : Ip → Bool) (lookup_host : String → Option (List String))
      (n ip : String) (a : Ip)
      → IsValid hostname_row v
      → in_q (dns_name n) ≡ true
      → Mem (name_of n ip) (map nameless (target_hostnames o lbs containers))
      → IsOnly (dns_name n) a (map nameless (target_hostnames o lbs containers))
      → (w : View Hostname) × (sync_hostnames o lbs containers v ≡ some w)
        × (lookup_a parse_ip in_q is_ip4 lookup_host
              (hostnames_to_dns parse_ip (select hostname_row p (λ _. true) w))
              (dns_name n)
            ≡ a ∷ [])
  unfolding lookup_a hostnames_to_dns
  hostname_resolves o p lbs containers v in_q is_ip4 lookup_host n ip a h q m only =
      let (w, e, valid, (d, same)) = sync_hostnames-EachOnce o lbs containers v h in
      let rows = select hostname_row p (λ _. true) w in
      let only_rows : IsOnly (dns_name n) a rows = λ g c r.
        only (nameless g)
          ((same (nameless g)).0
            (mem-map_of_mem nameless ((Perm.mem_iff (select_all-perm hostname_row p w)).0 c)))
          r in
      (
        w,
        e,
        ∥∥₁_elim (exists_of_mem-map ((same (name_of n ip)).1 m)) (ips_set _ _) λ x.
            let (g, c, k) = x in
            let name : g.hostname ≡ n = ap (λ (y : Hostname). y.hostname) k in
            answered rows (
              at_name rows g name (
                add_records-finds rows [] g a
                  (subst (λ y. IsOnly (dns_name y) a rows) (sym name) only_rows)
                  ((Perm.mem_iff (select_all-perm hostname_row p w)).1 c))),
      )
    where
      answered :
          (rows : List Hostname)
          → get string_discrete (add_records parse_ip [] rows) (dns_name n) ≡ some a
          → lookup_a parse_ip in_q is_ip4 lookup_host (hostnames_to_dns parse_ip rows) (dns_name n)
            ≡ a ∷ []
      answered rows f = rw (lookup_a, q, f) refl

      at_name :
          (rows : List Hostname) (g : Hostname)
          → g.hostname ≡ n
          → get string_discrete (add_records parse_ip [] rows) (dns_name g.hostname) ≡ some a
          → get string_discrete (add_records parse_ip [] rows) (dns_name n) ≡ some a
      at_name rows g e f =
          subst (λ y. get string_discrete (add_records parse_ip [] rows) (dns_name y) ≡ some a) e f

      ips_set : IsSet (List Ip)
      ips_set = hlevel ℕ_discrete
