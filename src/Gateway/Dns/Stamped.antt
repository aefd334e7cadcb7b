-- ===== src/Gateway/Dns/Stamped.antt =====
-- The DNSRecords that a gateway has after reconcileDNSRecords, and after cleanupDNSRecords.
use weft_operator.Prelude.{
  eq_iff, ◌≢◌, ◌↔◌, ◌⊎◌, refl, arith, ◌==◌, Bool-cases, false, String, none, some, ◌≡◌, sym, ap,
  ◌∙◌, subst, inl, inr, true, List, [], ◌∷◌, map, contains, In, In-map, map-In, In-contains,
  contains-In,
}
use weft_operator.Kube.{ok, Answer-cases}
use weft_operator.Kube.Store.{Write, write_name, write_all, unless_gone, SameKey}
use weft_operator.Kube.Store.Written.{HasWritten, or_else_lem, write_all-HasWritten}
use weft_operator.Kube.Store.Pruned.{delete_unless-IsPruned}
use weft_operator.DnsRecord.{Taas, Bastion}
use weft_operator.DnsRecord.Bastions.{is_usable}
use weft_operator.Gateway.Dns.Pinned.{pick_l4_bastion_lem}
use weft_operator.Gateway.{Gateway, StampedRecord, Library, Api}
use weft_operator.Gateway.Dns.{
  HostnameSpec, pick_l4_bastion, classify_listener_hostnames, singleton, dns_record_name,
  target_ids, stamp, record_writes, prune_records, stamp_records, with_singleton,
  reconcile_dns_records, delete_owned, cleanup_dns_records,
}
use weft_operator.Gateway.Laws.{ApiServer, IsStampedBy}
use weft_operator.Gateway.Dns.Writes.{stamp_lem, record_writes-In, In-record_writes}

-- A host name of the gateway that gets a record, with its target bastions.
pub record Host (lib : Library) (gw : Gateway) (taas : Taas) (name : String) : Type 0 where
  pub spec : HostnameSpec
  pub member : In spec (classify_listener_hostnames gw)
  pub ids : List String
  pub targets : target_ids lib gw taas spec ≡ some ids
  pub record_name : dns_record_name lib gw spec.hostname ≡ name

-- The record is that of one of the gateway's host names.
pub record IsRecordOf (lib : Library) (gw : Gateway) (taas : Taas) (name : String)
    (dr : StampedRecord) : Type 0 where
  pub host : Host lib gw taas name
  pub namespace : dr.namespace ≡ taas.namespace
  pub name_is : dr.name ≡ name
  pub domain : dr.domain_name ≡ host.spec.hostname
  pub bastions : dr.target_bastion_ids ≡ host.ids
  pub account : dr.taas_ref ≡ taas.name

-- The bastions may be targeted: it is not suspended and has an address.
abbrev pub Eligible : Taas → String → Type 0
Eligible taas id =
    (b : Bastion) × In b taas.bastions × (b.suspended ≡ false) × (b.ip ≢ "") × (b.id ≡ id)

-- What a host name is targeted at: an L4 one at one eligible bastion, and any other at none in particular.
abbrev pub Targets : Taas → HostnameSpec → List String → Type 0
Targets taas h ids =
    ((h.l4 ≡ false) × (ids ≡ []))
    ⊎ ((h.l4 ≡ true) × ((id : String) × Eligible taas id × (ids ≡ id ∷ [])))

pub record IsStamped (lib : Library) (gw : Gateway) (taas : Taas) (stored : List StampedRecord)
    : Type 0 where
  pub stamped :
      (name : String)
      → Host lib gw taas name
      → (dr : StampedRecord) × In dr stored × IsRecordOf lib gw taas name dr
  pub no_other :
      (dr : StampedRecord)
      → In dr stored
      → dr.namespace ≡ taas.namespace
      → IsStampedBy gw dr
      → dr.deleting ≡ false
      → Host lib gw taas dr.name
  pub targets : (name : String) → (v : Host lib gw taas name) → Targets taas v.spec v.ids
  pub untargeted :
      (h : HostnameSpec)
      → In h (classify_listener_hostnames gw)
      → target_ids lib gw taas h ≡ none
      → (h.l4 ≡ true) × (((id : String) → ¬ Eligible taas id) ⊎ Eligible taas "")

module _ (lib : Library) (gw : Gateway) {S : Type 0} (api : Api S) (server : ApiServer api)
    (taas : Taas) where
  hosts : List HostnameSpec
  hosts = classify_listener_hostnames gw

  writes : List (Write StampedRecord)
  unfolding hosts
  writes = record_writes lib gw taas hosts

  agree :
      (s : S) (owned : List StampedRecord)
      → api.list_records s taas.namespace gw.namespace gw.name ≡ ok owned
      → (x o : StampedRecord) → In x (server.records.stored s)
      → In o owned
      → SameKey api.records x (api.records.namespace o) (api.records.name o)
      → x ≡ o
  agree s owned e x o i j k =
      server.records.unique s x o i ((server.records_listed s taas.namespace gw owned e o).0 j).0 k

  -- After a pruning without an error, a record with the gateway's labels is an expected one or is being
  -- deleted.
  pub prune_records-IsPruned :
      (names : List String) (s s' : S)
      → prune_records lib gw api taas names s ≡ (none, s')
      → ((dr : StampedRecord)
          → In dr (server.records.stored s)
          → contains names dr.name ≡ true
          → In dr (server.records.stored s'))
        × ((dr : StampedRecord)
            → In dr (server.records.stored s')
            → dr.namespace ≡ taas.namespace
            → IsStampedBy gw dr
            → dr.deleting ≡ false
            → contains names dr.name ≡ true)
  unfolding prune_records
  prune_records-IsPruned names s s' h =
      elim (Answer-cases (api.list_records s taas.namespace gw.namespace gw.name)) [
        | inr (x, e) ↦ let k : (some x, s) ≡ (none, s') = rw (e, prune_records) at h in cc k
        | inl (owned, e) ↦
            let test = λ (dr : StampedRecord). contains names dr.name in
            let p =
              delete_unless-IsPruned api.records server.records unless_gone (λ _ q. q) test owned s
                s' (agree s owned e) (rw (e, prune_records) at h) in
            (
              p.kept,
              λ dr i n l a.
                  let alive = server.record_deleting dr ∙ a in
                  p.gone dr
                    ((server.records_listed s taas.namespace gw owned e dr).1
                      (p.fewer dr i alive, n, l))
                    i alive,
            )
      ]

  is_usable_iff : (b : Bastion) → (is_usable b ≡ true) ↔ ((b.suspended ≡ false) × (b.ip ≢ ""))
  unfolding is_usable
  is_usable_iff b =
      let q = eq_iff b.ip "" in
      (
        λ h. (ground (arith, h), λ e. let k = q.1 e in ground (arith, h, k)),
        λ (s, n). elim (Bool-cases (b.ip == "")) [
          | inl e ↦ absurd (n (q.0 e))
          | inr e ↦ rw (s, e) refl
        ],
      )

  usable-Eligible :
      (b : Bastion) (id : String)
      → In b taas.bastions
      → is_usable b ≡ true
      → b.id ≡ id
      → Eligible taas id
  usable-Eligible b id i u e = let (s, n) = (is_usable_iff b).0 u in (b, i, s, n, e)

  unpicked :
      (h : HostnameSpec)
      → pick_l4_bastion lib gw taas.bastions h.hostname ≡ ""
      → ((id : String) → ¬ Eligible taas id) ⊎ Eligible taas ""
  unpicked h e = elim (pick_l4_bastion_lem lib gw taas.bastions h.hostname) [
    | inl (n, _) ↦ inl (λ id (b, i, s, a, q). n b i ((is_usable_iff b).1 (s, a)))
    | inr (b, i, u, q) ↦ inr (usable-Eligible b "" i u (q ∙ e))
  ]

  picked :
      (h : HostnameSpec)
      → (pick_l4_bastion lib gw taas.bastions h.hostname == "") ≡ false
      → Eligible taas (pick_l4_bastion lib gw taas.bastions h.hostname)
  picked h e = elim (pick_l4_bastion_lem lib gw taas.bastions h.hostname) [
    | inl (_, q) ↦
        let k = (eq_iff (pick_l4_bastion lib gw taas.bastions h.hostname) "").1 q in cc (e, k)
    | inr (b, i, u, q) ↦ usable-Eligible b _ i u q
  ]

  targeted :
      (h : HostnameSpec)
      → ((ids : List String) → target_ids lib gw taas h ≡ some ids → Targets taas h ids)
        × (target_ids lib gw taas h ≡ none
            → (h.l4 ≡ true) × (((id : String) → ¬ Eligible taas id) ⊎ Eligible taas ""))
  unfolding target_ids
  targeted h =
      let id = pick_l4_bastion lib gw taas.bastions h.hostname in
      elim (Bool-cases h.l4) [
        | inr a ↦ (
          λ ids t. let k : some [] ≡ some ids = rw (a, target_ids) at t in inl (a, cc k),
          λ t. let k : some [] ≡ none = rw (a, target_ids) at t in cc k,
        )
        | inl a ↦ elim (Bool-cases (id == "")) [
          | inl e ↦ (
            λ ids t. let k : none ≡ some ids = rw (a, e, target_ids) at t in cc k,
            λ t. (a, unpicked h ((eq_iff id "").0 e)),
          )
          | inr e ↦ (
            λ ids t.
                let k : some (id ∷ []) ≡ some ids = rw (a, e, target_ids) at t in
                inr (a, (id, picked h e, cc k)),
            λ t. let k : some (id ∷ []) ≡ none = rw (a, e, target_ids) at t in cc k,
          )
        ]
      ]

  -- The host of a write.
  write-Host :
      (name : String) (w : Write StampedRecord)
      → In w writes
      → w.name ≡ name
      → Host lib gw taas name
  unfolding writes hosts
  write-Host name w i e =
      let (h, j, ids, t, q) = record_writes-In lib gw taas (classify_listener_hostnames gw) w i in
      record {
        spec = h;
        member = j;
        ids = ids;
        targets = t;
        record_name = sym (ap (λ (x : Write StampedRecord). x.name) q) ∙ e;
      }

  written-IsRecordOf :
      (s : S) (name : String)
      → (v : HasWritten api.records (server.records.stored s) taas.namespace writes name)
      → IsRecordOf lib gw taas name v.object
  unfolding writes hosts SameKey stamp
  written-IsRecordOf s name v =
      let (h, j, ids, t, q) =
        record_writes-In lib gw taas (classify_listener_hostnames gw) v.write v.member in
      let sent : stamp lib gw taas h.hostname ids v.old ≡ ok v.object =
        subst (λ (w : Write StampedRecord). w.mutate v.old ≡ ok v.object) q v.sends in
      let (kn, km) = server.record_key v.object in
      let (d, b, a) = stamp_lem lib gw taas h.hostname ids v.old v.object sent in
      record {
        host = record {
          spec = h;
          member = j;
          ids = ids;
          targets = t;
          record_name = sym (ap (λ (x : Write StampedRecord). x.name) q) ∙ v.same_name;
        };
        namespace = sym kn ∙ v.key.0;
        name_is = sym km ∙ v.key.1;
        domain = d;
        bastions = b;
        account = a;
      }

  stamp_records-IsStamped :
      (s s' : S)
      → stamp_records lib gw api taas s ≡ (none, s')
      → IsStamped lib gw taas (server.records.stored s')
  unfolding stamp_records writes hosts SameKey
  stamp_records-IsStamped s s' h =
      let (z, e, k) =
        or_else_lem (write_all api.records taas.namespace writes s)
          (prune_records lib gw api taas (map write_name writes)) s' h in
      let (kept, gone) = prune_records-IsPruned (map write_name writes) z s' k in
      record {
        stamped = λ name v.
            let i =
              In-record_writes lib gw taas (classify_listener_hostnames gw) v.spec v.ids v.member
                v.targets in
            let a =
              subst (λ n. HasWritten api.records (server.records.stored z) taas.namespace writes n)
                v.record_name
                (write_all-HasWritten api.records server.records taas.namespace writes s z e _ i) in
            let r = written-IsRecordOf z name a in
            let named =
              subst (λ n. In n (map write_name writes)) a.same_name
                (map-In write_name a.write writes a.member) in
            let c =
              subst (λ n. contains (map write_name writes) n ≡ true) (sym r.name_is)
                (In-contains name (map write_name writes) named) in
            (a.object, kept a.object a.present c, r);
        no_other = λ dr i n l a.
            let (w, j, q) =
              In-map write_name dr.name writes
                (contains-In dr.name (map write_name writes) (gone dr i n l a)) in
            write-Host dr.name w j q;
        targets = λ name v. (targeted v.spec).0 v.ids v.targets;
        untargeted = λ h i t. (targeted h).1 t;
      }

  -- Where there is one AquaductTaaS and no error, each host name of the gateway that gets a record has one in
  -- the account's namespace, with a domain name and target bastions of a host name of that record name;
  -- and every record there with the gateway's labels that is not being deleted has the name of such a
  -- host name's record. The target bastions of a host name without an L4 listener are none, those of one
  -- with an L4 listener are the ID of a bastion that is not suspended and has an address; a host name
  -- gets no record only if it is L4 and there is no such bastion, or one with an empty ID.
  pub reconcile_dns_records-IsStamped :
      (s s' : S)
      → api.list_taas s ≡ ok (taas ∷ [])
      → reconcile_dns_records lib gw api s ≡ (none, s')
      → IsStamped lib gw taas (server.records.stored s')
  unfolding reconcile_dns_records with_singleton singleton
  reconcile_dns_records-IsStamped s s' e h =
      stamp_records-IsStamped s s' (rw (e, reconcile_dns_records) at h)

  -- After a cleanup every record with the gateway's labels is being deleted.
  pub cleanup_dns_records_lem :
      (s s' : S)
      → api.list_taas s ≡ ok (taas ∷ [])
      → cleanup_dns_records lib gw api s ≡ (none, s')
      → (dr : StampedRecord) → In dr (server.records.stored s')
      → dr.namespace ≡ taas.namespace
      → IsStampedBy gw dr
      → dr.deleting ≡ true
  unfolding cleanup_dns_records with_singleton singleton delete_owned
  cleanup_dns_records_lem s s' e h dr i n l =
      let (kept, gone) = prune_records-IsPruned [] s s' (rw (e, cleanup_dns_records) at h) in
      elim (Bool-cases dr.deleting) [ inl d ↦ d | inr a ↦ let k = gone dr i n l a in cc k ]
