-- ===== src/DnsRecord.antt =====
-- internal/controller/dnsrecord: the state of a DNSRecord and what a reconcile pass asks of the
-- world. Times are seconds.
pub mod Bastions
pub mod Reconcile
pub mod Safety
pub mod Readiness
use weft_operator.Prelude.{ℕ, String, Option, Bool, List}
use weft_operator.Prelude.Assoc.{Assoc}
use weft_operator.Kube.{Answer, KubeError, Condition}

-- The errors of the domain API: ErrDomainForeign and ErrDomainNotFound, each with its text, and the
-- others.
pub data ApiError : Type 0 where
  foreign domain_not_found api_other : String → ApiError

abbrev pub error_text : ApiError → String
error_text (foreign t) = t
error_text (domain_not_found t) = t
error_text (api_other t) = t

-- aquaducttaas.Domain
pub record Domain : Type 0 where
  pub id : String
  pub name : String
  pub bastion_ids : List String
  pub ips : List String

pub record Bastion : Type 0 where
  pub id : String
  pub ip : String
  pub suspended : Bool

pub record SecretRef : Type 0 where
  pub name : String
  pub key : String

pub record Taas : Type 0 where
  pub namespace : String
  pub name : String
  pub api_endpoint : String
  pub access_token_secret_ref : Option SecretRef
  pub last_sync_time : Option ℕ
  pub bastions : List Bastion

pub record Status : Type 0 where
  pub observed_generation : ℕ
  pub conditions : List Condition
  pub domain_id : String
  pub expected_ips : List String
  pub resolved_ips : List String
  pub applied_bastion_ids : List String
  pub applied_ips : List String
  pub clobbered_preexisting : Bool
  pub last_sync_time : Option ℕ

pub record DnsRecord : Type 0 where
  pub namespace : String
  pub name : String
  pub generation : ℕ
  pub deleting : Bool
  pub finalizers : List String
  pub domain_name : String
  pub taas_ref : String
  pub target_bastion_ids : List String
  pub status : Status

-- The calls that a pass makes to the API server and to aquaduct.dev.
pub data Call : Type 0 where
  update : DnsRecord → Call
  update_status : DnsRecord → Call
  get_domain : String → Call
  put_domain : String → List String → Call
  patch_domain : String → List String → Call
  delete_domain : String → Call
  lookup_domain : String → Call

-- The answers during one pass, the clock, and the functions of other packages that the pass calls:
-- controllerutil's finalizers, meta.SetStatusCondition, equality.Semantic.DeepEqual, fmt.Sprintf.
-- A domain call takes the endpoint, the token and the domain.
pub record World : Type 0 where
  pub has_client : Bool
  pub get_taas : String → String → Answer KubeError Taas
  pub get_secret : String → String → Answer KubeError (Assoc String)
  pub on_update : DnsRecord → Option KubeError
  pub on_update_status : DnsRecord → Option KubeError
  pub on_get : String → String → String → Answer ApiError Domain
  pub on_put : String → String → String → List String → Answer ApiError Domain
  pub on_patch : String → String → String → List String → Answer ApiError Domain
  pub on_delete : String → String → String → Option ApiError
  pub on_lookup : String → String → String → Answer String (List String)
  pub now : ℕ
  pub contains_finalizer : List String → String → Bool
  pub add_finalizer : List String → String → List String
  pub remove_finalizer : List String → String → List String
  pub set_condition : Condition → List Condition → List Condition
  pub deep_equal : Status → Status → Bool
  pub sprintf : String → List String → String
  pub sprint_list : List String → String
  pub itoa : ℕ → String
