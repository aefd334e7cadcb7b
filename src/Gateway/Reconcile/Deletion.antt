-- ===== src/Gateway/Reconcile/Deletion.antt =====
-- What a deletion pass of the gateway controller leaves: `Reconcile` with a deletion timestamp.
use weft_operator.Prelude.{
  String, Option, none, some, ◌≡◌, refl, sym, ap, ◌∙◌, true, List, [], ◌∷◌, In,
}
use weft_operator.Kube.{ok, KubeError, Return, done, failed}
use weft_operator.Kube.Store.{or_else}
use weft_operator.Kube.Store.Written.{or_else_lem}
use weft_operator.DnsRecord.{Taas}
use weft_operator.Gateway.{Gateway, GatewayClass, StampedRecord, Api}
use weft_operator.Gateway.Attach.{controller_name}
use weft_operator.Gateway.Dns.{cleanup_dns_records}
use weft_operator.Gateway.Dns.Stamped.{cleanup_dns_records_lem}
use weft_operator.Gateway.Laws.{ApiServer, IsStampedBy}
use weft_operator.Gateway.Reconcile.{
  Setup, dns_finalizer, to_return, drop_finalizer, delete_gateway, with_class, reconcile,
}

-- The last call took the finalizer from the gateway, in a state in which its records are being deleted.
pub record IsReleased (setup : Setup) {S : Type 0} (api : Api S) (stored : S → List StampedRecord)
    (gw : Gateway) (ns : String) (s' : S) : Type 0 where
  pub before : S
  pub clean :
      (dr : StampedRecord)
      → In dr (stored before)
      → dr.namespace ≡ ns
      → IsStampedBy gw dr
      → dr.deleting ≡ true
  pub released :
      api.update before (record gw {
        finalizers = api.remove_finalizer gw.finalizers "weft.aquaduct.dev/cleanup-dnsrecords";
      })
      ≡ (none, s')

module _ (setup : Setup) {S : Type 0} (api : Api S) (server : ApiServer api) (gw : Gateway)
    (class : GatewayClass) where
  -- A pass over a gateway of this controller's class that is being deleted.
  deletion_pass :
      (s : S)
      → gw.deleting ≡ true
      → api.contains_finalizer gw.finalizers dns_finalizer ≡ true
      → api.get_class s gw.class_name ≡ ok class
      → class.controller_name ≡ controller_name
      → reconcile setup api (ok gw) s
        ≡ to_return setup api
            (or_else (cleanup_dns_records setup.lib gw api s) (drop_finalizer setup api gw))
  unfolding reconcile with_class delete_gateway
  deletion_pass s d f c n = rw (c, n, d, f) refl

  to_return_lem :
      (a : Option KubeError × S) (s' : S) → to_return setup api a ≡ (done, s') → a ≡ (none, s')
  to_return_lem (none, z) s' h = ap (λ (p : Return × S). (none, p.1)) h
  to_return_lem (some e, z) s' h =
      let k : some e ≡ none = ap (λ (p : Return × S). p.0.error) h in cc k

  -- Where there is one AquaductTaaS, a pass without an error over a gateway of this controller that is
  -- being deleted and has the finalizer took it off by its last call, in a state in which every record
  -- with the gateway's labels in the account's namespace was being deleted; and where the cleanup of
  -- the records fails with an error, the pass returns the error and calls nothing more.
  pub reconcile-IsReleased :
      (taas : Taas) (s : S)
      → gw.deleting ≡ true
      → api.contains_finalizer gw.finalizers dns_finalizer ≡ true
      → api.get_class s gw.class_name ≡ ok class
      → class.controller_name ≡ controller_name
      → api.list_taas s ≡ ok (taas ∷ [])
      → ((s' : S)
          → reconcile setup api (ok gw) s ≡ (done, s')
          → IsReleased setup api server.records.stored gw taas.namespace s')
        × ((e : KubeError) (z : S)
            → cleanup_dns_records setup.lib gw api s ≡ (some e, z)
            → reconcile setup api (ok gw) s ≡ (failed e, z))
  unfolding drop_finalizer
  reconcile-IsReleased taas s d f c n t =
      let pass = deletion_pass s d f c n in
      (
        λ s' h.
            let (z, e, k) =
              or_else_lem (cleanup_dns_records setup.lib gw api s) (drop_finalizer setup api gw) s'
                (to_return_lem _ s' (sym pass ∙ h)) in
            record {
              before = z;
              clean = cleanup_dns_records_lem setup.lib gw api server taas s z t e;
              released = k;
            },
        λ e z h. pass ∙ ap (λ a. to_return setup api (or_else a (drop_finalizer setup api gw))) h,
      )
