-- ===== src/WeftTunnel/Reconcile.antt =====
-- `Reconcile`, `updateStatus` and `findTunnelsForServer` of
-- internal/controller/wefttunnel/reconciler.go.
use weft_operator.Prelude.{
  String, Option, none, some, Bool, true, false, not, ◌&&◌, ◌||◌, List, [], ◌∷◌, ◌++◌, is_empty,
  contains, any, ◌==◌, eqb, if◌then◌else◌,
}
use weft_operator.Prelude.Text.{◌<>◌}
use weft_operator.Prelude.Assoc.{Assoc}
use weft_operator.Kube.{
  Answer, ok, err, KubeError, not_found, already_exists, other, Return, done, failed,
  ignore_not_found, Condition,
}
use weft_operator.Resource.Image.{weft_image_or, pull_policy}
use weft_operator.WeftTunnel.{WeftServer, WeftTunnel, Container, Deployment, Request, Cluster}

unfoldable pub dep_name : WeftTunnel → WeftServer → String
dep_name t srv = "tunnel-" <> t.name <> "-to-" <> srv.name

unfoldable pub construct_target_url : WeftServer → Answer String String
construct_target_url srv = ok srv.connection_string

unfoldable pub labels_of : WeftTunnel → WeftServer → Assoc String
labels_of t srv =
    ("app", "weft-tunnel")
    ∷ ("tunnel", t.name)
    ∷ ("target", srv.name)
    ∷ ("created-by", "weft-operator")
    ∷ []

unfoldable pub cmd_args : WeftTunnel → String → List String
cmd_args t url = "tunnel" ∷ ("--tunnel-name=" <> t.name) ∷ url ∷ t.src_url ∷ t.dst_url ∷ []

-- The labels by which the tunnel's deployments are listed.
unfoldable pub own_labels : WeftTunnel → Assoc String
own_labels t = ("tunnel", t.name) ∷ ("created-by", "weft-operator") ∷ []

-- `containerByName` and the writes through its pointer: the first container of the name is changed
-- in place, or an empty one is appended and changed.
unfoldable pub container_by_name :
    String → (Container → Container) → List Container → List Container
container_by_name name f [] =
    f (record {
      name = name;
      image = "";
      args = [];
      image_pull_policy = none;
      termination_message_path = "";
    })
    ∷ []
container_by_name name f (c ∷ cs) =
    let rest = container_by_name name f cs in if c.name == name then f c ∷ cs else c ∷ rest

unfoldable pub run_tunnel : String → WeftTunnel → String → Container → Container
run_tunnel weft_image t url c =
    let image = weft_image_or weft_image in
    record c { image = image; args = cmd_args t url; image_pull_policy = some (pull_policy image) }

abbrev pub and_server :
    WeftServer → Answer KubeError (List WeftServer) → Answer KubeError (List WeftServer)
and_server srv (ok servers) = ok (srv ∷ servers)
and_server srv (err e) = err e

-- A target that is missing is skipped, any other error ends the pass.
abbrev pub with_server :
    Answer KubeError WeftServer
    → Answer KubeError (List WeftServer)
    → Answer KubeError (List WeftServer)
with_server (ok srv) rest = and_server srv rest
with_server (err not_found) rest = rest
with_server (err already_exists) rest = err already_exists
with_server (err (other m)) rest = err (other m)

-- `expectedDeployments`
unfoldable pub expected : WeftTunnel → List WeftServer → List String
unfolding construct_target_url
expected t [] = []
expected t (srv ∷ srvs) = elim (construct_target_url srv) [
  | err e ↦ expected t srvs
  | ok url ↦ dep_name t srv ∷ expected t srvs
]

unfoldable pub all_ready : List Deployment → Bool
all_ready ds = not (is_empty ds) && not (any (λ (d : Deployment). eqb d.ready_replicas 0) ds)

abbrev pub to_return : Option KubeError → Return
to_return none = done
to_return (some e) = failed e

abbrev pub request_of : WeftTunnel → Request
request_of t = record { namespace = t.namespace; name = t.name }

-- The test of the loop of `findTunnelsForServer`.
unfoldable pub is_enqueued : WeftServer → WeftTunnel → Bool
is_enqueued server t =
    is_empty t.target_servers
    || t.namespace == server.namespace && contains t.target_servers server.name

unfoldable pub enqueued : WeftServer → List WeftTunnel → List Request
enqueued server [] = []
enqueued server (t ∷ ts) =
    let rest = enqueued server ts in if is_enqueued server t then request_of t ∷ rest else rest

-- `listOpts`: the namespace in which the tunnels are listed, all of them for a system server.
unfoldable pub scope : WeftServer → Option String
scope server = if server.namespace == "weft-system" then none else some server.namespace

module _ {S : Type 0} (c : Cluster S) where
  -- The function that `CreateOrUpdate` applies.
  unfoldable pub mutate :
      String → WeftTunnel → WeftServer → String → Deployment → Answer KubeError Deployment
  mutate weft_image t srv url dep = c.set_controller_reference t (record dep {
    labels = labels_of t srv;
    selector = labels_of t srv;
    replicas = 1;
    min_ready_seconds = 15;
    template_labels = labels_of t srv;
    strategy = "Recreate";
    containers = container_by_name "tunnel" (run_tunnel weft_image t url) dep.containers;
  })

  unfoldable pub both_namespaces :
      S → WeftTunnel → List WeftServer → Answer KubeError (List WeftServer)
  both_namespaces s t servers =
      if t.namespace == "weft-system" then ok servers else elim (c.list_servers s "weft-system") [
        | err e ↦ err e
        | ok system ↦ ok (servers ++ system)
      ]

  unfoldable pub all_servers : S → WeftTunnel → Answer KubeError (List WeftServer)
  all_servers s t = elim (c.list_servers s t.namespace) [
    | err e ↦ err e
    | ok servers ↦ both_namespaces s t servers
  ]

  unfoldable pub named_servers : S → String → List String → Answer KubeError (List WeftServer)
  named_servers s ns [] = ok []
  named_servers s ns (name ∷ names) =
      with_server (c.get_server s ns name) (named_servers s ns names)

  -- The target servers of the tunnel.
  unfoldable pub targets : S → WeftTunnel → Answer KubeError (List WeftServer)
  targets s t =
      if is_empty t.target_servers
      then all_servers s t
      else named_servers s t.namespace t.target_servers

  -- The loop over the target servers, up to the first error.
  unfoldable pub deploy : String → WeftTunnel → List WeftServer → S → Option KubeError × S
  unfolding construct_target_url
  deploy weft_image t [] s = (none, s)
  deploy weft_image t (srv ∷ srvs) s = elim (construct_target_url srv) [
    | err e ↦ deploy weft_image t srvs s
    | ok url ↦
        let (r, s') =
          c.create_or_update s t.namespace (dep_name t srv) (mutate weft_image t srv url) in
        elim r [ none ↦ deploy weft_image t srvs s' | some e ↦ (some e, s') ]
  ]

  -- The loop that deletes the obsolete deployments, up to the first error.
  unfoldable pub delete_obsolete : List String → List Deployment → S → Option KubeError × S
  delete_obsolete names [] s = (none, s)
  delete_obsolete names (d ∷ ds) s = elim (contains names d.name) [
    | true ↦ delete_obsolete names ds s
    | false ↦
        let (r, s') = c.delete s d in
        elim r [ none ↦ delete_obsolete names ds s' | some e ↦ (some e, s') ]
  ]

  unfoldable pub prune : WeftTunnel → List WeftServer → S → Option KubeError × S
  prune t srvs s = elim (c.list_deployments s t.namespace (own_labels t)) [
    | err e ↦ (some e, s)
    | ok ds ↦ delete_obsolete (expected t srvs) ds s
  ]

  unfoldable pub deploy_and_prune : String → WeftTunnel → List WeftServer → S → Option KubeError × S
  deploy_and_prune weft_image t srvs s =
      let (r, s') = deploy weft_image t srvs s in
      elim r [ none ↦ prune t srvs s' | some e ↦ (some e, s') ]

  -- `Reconcile` from the read tunnel to the deferred status update: `reconcileErr`.
  unfoldable pub body : String → WeftTunnel → S → Option KubeError × S
  body weft_image t s = elim (targets s t) [
    | err e ↦ (some e, s)
    | ok srvs ↦ deploy_and_prune weft_image t srvs s
  ]

  -- The condition `Available`.
  unfoldable pub available : Option KubeError → List Deployment → Condition
  available (some e) ds = record {
    type = "Available";
    status = false;
    reason = "ReconcileError";
    message = c.error_text e;
    observed_generation = 0;
  }
  available none ds =
      if not (all_ready ds)
      then record {
        type = "Available";
        status = false;
        reason = "WaitingForDeployments";
        message = "One or more tunnel deployments are not yet available";
        observed_generation = 0;
      }
      else record {
        type = "Available";
        status = true;
        reason = "Reconciled";
        message = "WeftTunnel reconciled successfully and all tunnels are up";
        observed_generation = 0;
      }

  -- `updateStatus`; its error is logged only.
  unfoldable pub update_status : WeftTunnel → Option KubeError → S → S
  update_status t e s = elim (c.list_deployments s t.namespace (own_labels t)) [
    | err _ ↦ s
    | ok ds ↦
        (c.update_status s
          (record t { conditions = c.set_condition (available e ds) t.conditions })).1
  ]

  unfoldable pub reconcile : String → Answer KubeError WeftTunnel → S → Return × S
  reconcile weft_image (err e) s = (ignore_not_found e, s)
  reconcile weft_image (ok t) s =
      let (e, s') = body weft_image t s in (to_return e, update_status t e s')

  unfoldable pub find_tunnels_for_server : WeftServer → S → List Request
  find_tunnels_for_server server s = elim (c.list_tunnels s (scope server)) [
    | err e ↦ []
    | ok ts ↦ enqueued server ts
  ]
