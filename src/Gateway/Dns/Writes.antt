-- ===== src/Gateway/Dns/Writes.antt =====
-- The calls of reconcileDNSRecords in internal/controller/weftgateway/reconciler.go for the host names of a gateway.
use weft_operator.Prelude.{
  String, Option, none, some, ◌≡◌, refl, sym, ap, subst, inl, inr, List, [], ◌∷◌, In, In-append,
  In-append_left, In-append_right,
}
use weft_operator.Kube.{Answer, ok, KubeError}
use weft_operator.Kube.Store.{Write}
use weft_operator.DnsRecord.{Taas}
use weft_operator.Gateway.{Gateway, StampedRecord, Library}
use weft_operator.Gateway.Dns.{
  HostnameSpec, dns_record_name, target_ids, stamp, record_write, record_writes,
}

-- Equal results hold equal objects.
ok_record : (a b : StampedRecord) → ◌≡◌ {A = Answer KubeError StampedRecord} (ok a) (ok b) → a ≡ b
ok_record a b h = cc h

module _ (lib : Library) (gw : Gateway) (taas : Taas) where
  pub stamp_lem :
      (h : String) (ids : List String) (old dr : StampedRecord)
      → stamp lib gw taas h ids old ≡ ok dr
      → (dr.domain_name ≡ h) × (dr.target_bastion_ids ≡ ids) × (dr.taas_ref ≡ taas.name)
  unfolding stamp
  stamp_lem h ids old dr e =
      let same = sym (ok_record _ dr e) in
      (
        ap (λ (x : StampedRecord). x.domain_name) same,
        ap (λ (x : StampedRecord). x.target_bastion_ids) same,
        ap (λ (x : StampedRecord). x.taas_ref) same,
      )

  record_write-In :
      (h : HostnameSpec) (o : Option (List String)) (w : Write StampedRecord)
      → In w (record_write lib gw taas h o)
      → (ids : List String) × (o ≡ some ids)
        × (w ≡ record {
          name = dns_record_name lib gw h.hostname;
          mutate = stamp lib gw taas h.hostname ids;
        })
  record_write-In h none w m = absurd m
  record_write-In h (some ids) w (inl e) = (ids, refl, e)
  record_write-In h (some ids) w (inr m) = absurd m

  pub record_writes-In :
      (hs : List HostnameSpec) (w : Write StampedRecord)
      → In w (record_writes lib gw taas hs)
      → (h : HostnameSpec) × In h hs
        × (ids : List String) × (target_ids lib gw taas h ≡ some ids)
        × (w ≡ record {
          name = dns_record_name lib gw h.hostname;
          mutate = stamp lib gw taas h.hostname ids;
        })
  unfolding record_writes
  record_writes-In [] w m = absurd m
  record_writes-In (h ∷ hs) w m =
      elim (In-append w (record_write lib gw taas h (target_ids lib gw taas h))
        (record_writes lib gw taas hs) m) [
          | inl i ↦
              let (ids, e, q) = record_write-In h (target_ids lib gw taas h) w i in
              (h, inl refl, ids, e, q)
          | inr i ↦ let (x, j, ids, e, q) = record_writes-In hs w i in (x, inr j, ids, e, q)
        ]

  pub In-record_writes :
      (hs : List HostnameSpec) (h : HostnameSpec) (ids : List String)
      → In h hs
      → target_ids lib gw taas h ≡ some ids
      → In
          (record {
            name = dns_record_name lib gw h.hostname;
            mutate = stamp lib gw taas h.hostname ids;
          })
          (record_writes lib gw taas hs)
  unfolding record_writes
  In-record_writes [] h ids m e = absurd m
  In-record_writes (x ∷ hs) h ids (inl p) e = In-append_left _ _ _ (
      subst
        (λ y.
          In
            (record {
              name = dns_record_name lib gw h.hostname;
              mutate = stamp lib gw taas h.hostname ids;
            })
            (record_write lib gw taas y (target_ids lib gw taas y)))
        p
        (subst
          (λ o.
            In
              (record {
                name = dns_record_name lib gw h.hostname;
                mutate = stamp lib gw taas h.hostname ids;
              })
              (record_write lib gw taas h o))
          (sym e) (inl refl)))
  In-record_writes (x ∷ hs) h ids (inr m) e = In-append_right _ _ _ (In-record_writes hs h ids m e)
