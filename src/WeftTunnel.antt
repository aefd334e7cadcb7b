-- ===== src/WeftTunnel.antt =====
-- internal/controller/wefttunnel/reconciler.go: the objects of a tunnel and what its reconciler asks
-- of the API server.
pub mod Reconcile
pub mod Laws
pub mod Enqueue
pub mod Converge
use weft_operator.Prelude.{ℕ, String, Option, List}
use weft_operator.Prelude.Assoc.{Assoc}
use weft_operator.Kube.{Answer, KubeError, Condition}
use weft_operator.Resource.Image.{PullPolicy}

pub record WeftServer : Type 0 where
  pub namespace : String
  pub name : String
  pub connection_string : String

pub record WeftTunnel : Type 0 where
  pub namespace : String
  pub name : String
  pub src_url : String
  pub dst_url : String
  pub target_servers : List String
  pub conditions : List Condition

-- A container of a pod template; the termination message path stands for what the API server
-- fills in.
pub record Container : Type 0 where
  pub name : String
  pub image : String
  pub args : List String
  pub image_pull_policy : Option PullPolicy
  pub termination_message_path : String

pub record Deployment : Type 0 where
  pub namespace : String
  pub name : String
  pub labels : Assoc String
  pub selector : Assoc String
  pub replicas : ℕ
  pub min_ready_seconds : ℕ
  pub template_labels : Assoc String
  pub strategy : String
  pub containers : List Container
  pub controller : Option String
  pub ready_replicas : ℕ

-- types.NamespacedName
pub record Request : Type 0 where
  pub namespace : String
  pub name : String

-- The API server through the client, over its state `S`, and the functions of controller-runtime and
-- apimachinery that are called: CreateOrUpdate, SetControllerReference, SetStatusCondition. A list of
-- deployments takes the namespace and the labels to match; a list of tunnels the namespace, if any.
pub record Cluster (S : Type 0) : Type 0 where
  pub list_servers : S → String → Answer KubeError (List WeftServer)
  pub get_server : S → String → String → Answer KubeError WeftServer
  pub list_tunnels : S → Option String → Answer KubeError (List WeftTunnel)
  pub list_deployments : S → String → Assoc String → Answer KubeError (List Deployment)
  pub create_or_update :
      S → String → String → (Deployment → Answer KubeError Deployment) → Option KubeError × S
  pub delete : S → Deployment → Option KubeError × S
  pub update_status : S → WeftTunnel → Option KubeError × S
  pub set_controller_reference : WeftTunnel → Deployment → Answer KubeError Deployment
  pub set_condition : Condition → List Condition → List Condition
  pub error_text : KubeError → String
