-- ===== src/Gateway/Laws.antt =====
-- What internal/controller/weftgateway relies on of the API server: the documented behaviour of the
-- lists, of owner references, and that the kinds of objects are kept apart.
use weft_operator.Prelude.{String, none, some, ◌≡◌, ◌↔◌, true, false, List, In}
use weft_operator.Prelude.Assoc.{lookup}
use weft_operator.Kube.{Answer, ok, KubeError}
use weft_operator.Kube.Store.{IsStore}
use weft_operator.Gateway.{RouteKind, Gateway, OwnedTunnel, StampedRecord, Api}
use weft_operator.Gateway.Dns.{
  label_gateway_namespace, label_gateway_name, label_created_by, created_by_value,
}

-- The labels by which the gateway lists its records.
unfoldable pub IsStampedBy : Gateway → StampedRecord → Type 0
IsStampedBy gw dr =
    (lookup label_gateway_namespace dr.labels ≡ some gw.namespace)
    × (lookup label_gateway_name dr.labels ≡ some gw.name)
    × (lookup label_created_by dr.labels ≡ some created_by_value)

-- The labels by which the gateway lists its tunnels.
unfoldable pub IsLabelled : Gateway → OwnedTunnel → Type 0
IsLabelled gw t =
    (lookup "gateway" t.labels ≡ some gw.name)
    × (lookup "created-by" t.labels ≡ some "weft-operator")

pub record ApiServer {S : Type 0} (api : Api S) : Type 0 where
  pub tunnels : IsStore api.tunnels
  pub records : IsStore api.records
  pub tunnel_key :
      (t : OwnedTunnel) → (api.tunnels.namespace t ≡ t.namespace) × (api.tunnels.name t ≡ t.name)
  pub record_key :
      (dr : StampedRecord)
      → (api.records.namespace dr ≡ dr.namespace) × (api.records.name dr ≡ dr.name)
  -- A WeftTunnel has no finalizers, so none stays when it is deleted; a DNSRecord has one.
  pub tunnels_alive :
      (s : S) (t : OwnedTunnel) → In t (tunnels.stored s) → api.tunnels.is_deleting t ≡ false
  pub record_deleting : (dr : StampedRecord) → api.records.is_deleting dr ≡ dr.deleting
  pub tunnels_listed :
      (s : S) (gw : Gateway) (ts : List OwnedTunnel)
      → api.list_tunnels s gw.namespace gw.name ≡ ok ts
      → (t : OwnedTunnel)
      → In t ts ↔ (In t (tunnels.stored s) × (t.namespace ≡ gw.namespace) × IsLabelled gw t)
  pub records_listed :
      (s : S) (ns : String) (gw : Gateway) (ds : List StampedRecord)
      → api.list_records s ns gw.namespace gw.name ≡ ok ds
      → (dr : StampedRecord)
      → In dr ds ↔ (In dr (records.stored s) × (dr.namespace ≡ ns) × IsStampedBy gw dr)
  -- SetControllerReference writes only the owner reference, by which IsControlledBy goes.
  pub owned :
      (gw : Gateway) (t t' : OwnedTunnel)
      → api.set_controller_reference gw t ≡ ok t'
      → (t'.target_servers ≡ t.target_servers)
        × (t'.src_url ≡ t.src_url)
        × (t'.dst_url ≡ t.dst_url)
        × (t'.labels ≡ t.labels)
        × (api.is_controlled_by t' gw ≡ true)
  -- Writing tunnels leaves the routes alone.
  pub routes_kept :
      (s s' : S) (ns name : String) (f : OwnedTunnel → Answer KubeError OwnedTunnel)
      (kind : RouteKind) (in_ns : String)
      → api.tunnels.create_or_update s ns name f ≡ (none, s')
      → api.list_port_routes kind s' in_ns ≡ api.list_port_routes kind s in_ns
