-- ===== src/Gateway.antt =====
-- internal/controller/weftgateway/reconciler.go: the objects of the Gateway API that the reconciler
-- reads, and what it asks of the API server and of the libraries.
pub mod Attach
pub mod Routes
pub mod Dns
pub mod Laws
pub mod Reconcile
use weft_operator.Prelude.{ℕ, String, Option, Bool, List}
use weft_operator.Prelude.Assoc.{Assoc}
use weft_operator.Kube.{Answer, KubeError, Condition}
use weft_operator.Kube.Store.{Objects}
use weft_operator.DnsRecord.{Taas}

pub record ParentRef : Type 0 where
  pub name : String
  pub namespace : Option String
  pub section_name : Option String

pub record BackendRef : Type 0 where
  pub name : String
  pub kind : Option String
  pub namespace : Option String
  pub port : Option ℕ

pub record Header : Type 0 where
  pub name : String
  pub value : String

-- The parts of a RequestHeaderModifier.
pub record HeaderModifier : Type 0 where
  pub set : List Header
  pub add : List Header
  pub remove : List String

pub record Filter : Type 0 where
  pub type : String
  pub request_header_modifier : Option HeaderModifier

-- The value of a match's path, if it has one.
pub record HttpRule : Type 0 where
  pub backend_refs : List BackendRef
  pub matches : List (Option String)
  pub filters : List Filter

pub record HttpRoute : Type 0 where
  pub namespace : String
  pub name : String
  pub parent_refs : List ParentRef
  pub hostnames : List String
  pub rules : List HttpRule

-- A TCPRoute, TLSRoute or UDPRoute: each rule is its backends.
pub record PortRoute : Type 0 where
  pub namespace : String
  pub name : String
  pub parent_refs : List ParentRef
  pub rules : List (List BackendRef)

pub data RouteKind : Type 0 where
  tcp_route tls_route udp_route : RouteKind

pub record Listener : Type 0 where
  pub name : String
  pub hostname : Option String
  pub port : ℕ
  pub protocol : String

pub record Gateway : Type 0 where
  pub namespace : String
  pub name : String
  pub generation : ℕ
  pub class_name : String
  pub deleting : Bool
  pub finalizers : List String
  pub listeners : List Listener
  pub conditions : List Condition

pub record ParametersRef : Type 0 where
  pub group : String
  pub kind : String
  pub name : String
  pub namespace : Option String

pub record GatewayClass : Type 0 where
  pub name : String
  pub generation : ℕ
  pub controller_name : String
  pub parameters_ref : Option ParametersRef
  pub conditions : List Condition

-- A WeftTunnel as the gateway controller writes it.
pub record OwnedTunnel : Type 0 where
  pub namespace : String
  pub name : String
  pub labels : Assoc String
  pub controller : Option String
  pub target_servers : List String
  pub src_url : String
  pub dst_url : String

-- A DNSRecord as the gateway controller writes it.
pub record StampedRecord : Type 0 where
  pub namespace : String
  pub name : String
  pub deleting : Bool
  pub labels : Assoc String
  pub domain_name : String
  pub taas_ref : String
  pub target_bastion_ids : List String

-- hex.EncodeToString of a SHA-256 sum, the big-endian number in its first 8 bytes, url.JoinPath with
-- its error dropped, url.PathEscape, and %d.
pub record Library : Type 0 where
  pub sha256_hex : String → String
  pub sha256_head : String → ℕ
  pub join_path : String → String → String
  pub path_escape : String → String
  pub itoa : ℕ → String

-- The API server through the client, over its state `S`, with controllerutil's finalizers and owner
-- references, metav1.IsControlledBy and meta.SetStatusCondition. A list of tunnels takes the namespace
-- and the label `gateway`; a list of records the namespace and the two gateway labels.
pub record Api (S : Type 0) : Type 0 where
  pub get_class : S → String → Answer KubeError GatewayClass
  pub get_config : S → String → String → Answer KubeError (List String)
  pub list_http_routes : S → Answer KubeError (List HttpRoute)
  pub list_port_routes : RouteKind → S → String → Answer KubeError (List PortRoute)
  pub list_gateways : S → Answer KubeError (List Gateway)
  pub list_tunnels : S → String → String → Answer KubeError (List OwnedTunnel)
  pub list_taas : S → Answer KubeError (List Taas)
  pub list_records : S → String → String → String → Answer KubeError (List StampedRecord)
  pub tunnels : Objects S OwnedTunnel
  pub records : Objects S StampedRecord
  pub update : S → Gateway → Option KubeError × S
  pub update_status : S → Gateway → Option KubeError × S
  pub update_class_status : S → GatewayClass → Option KubeError × S
  pub contains_finalizer : List String → String → Bool
  pub add_finalizer : List String → String → List String
  pub remove_finalizer : List String → String → List String
  pub set_controller_reference : Gateway → OwnedTunnel → Answer KubeError OwnedTunnel
  pub is_controlled_by : OwnedTunnel → Gateway → Bool
  pub set_condition : Condition → List Condition → List Condition
