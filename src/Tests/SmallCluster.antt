-- ===== src/Tests/SmallCluster.antt =====
-- A small API server for internal/controller/wefttunnel that keeps its deployments in a list.
use weft_operator.Prelude.{
  String, Option, none, some, ◌≡◌, refl, ◌↔◌, inl, inr, Bool, true, not, ◌&&◌, List, [], ◌∷◌, keep,
  In, In-keep, keep-In, ◌==◌, eq_iff, arith, Bool-cases, if◌then◌else◌,
}
use weft_operator.Kube.{Answer, ok, err, KubeError, other, not_found}
use weft_operator.WeftTunnel.{WeftServer, WeftTunnel, Deployment, Cluster}
use weft_operator.WeftTunnel.Laws.{SameKey, matches}

pub record Store : Type 0 where
  pub deployments : List Deployment

abbrev pub has_key : Deployment → String → String → Bool
has_key d ns name = d.namespace == ns && d.name == name

abbrev pub new_deployment : String → String → Deployment
new_deployment ns name = record {
  namespace = ns;
  name = name;
  labels = [];
  selector = [];
  replicas = 0;
  min_ready_seconds = 0;
  template_labels = [];
  strategy = "";
  containers = [];
  controller = none;
  ready_replicas = 0;
}

-- The object of the key, or an empty one.
abbrev pub found : List Deployment → String → String → Deployment
found [] ns name = new_deployment ns name
found (d ∷ ds) ns name = let rest = found ds ns name in if has_key d ns name then d else rest

abbrev pub drop_key : String → String → List Deployment → List Deployment
drop_key ns name ds = keep (λ (d : Deployment). not (has_key d ns name)) ds

-- The function must not change the key.
abbrev pub put_sent :
    Store → String → String → Answer KubeError Deployment → Option KubeError × Store
put_sent s ns name (err e) = (some e, s)
put_sent s ns name (ok d) =
    if has_key d ns name
    then (none, record { deployments = d ∷ drop_key ns name s.deployments })
    else (some (other "the key changed"), s)

abbrev pub web : WeftServer
web = record { namespace = "shop"; name = "web"; connection_string = "weft://web" }

abbrev pub edge : WeftServer
edge = record { namespace = "weft-system"; name = "edge"; connection_string = "weft://edge" }

abbrev pub all_of_them : WeftTunnel
all_of_them = record {
  namespace = "shop";
  name = "cart";
  src_url = "http://cart";
  dst_url = "https://cart.example";
  target_servers = [];
  conditions = [];
}

abbrev pub in_namespace : String → List WeftServer → List WeftServer
in_namespace ns xs = keep (λ (x : WeftServer). x.namespace == ns) xs

abbrev pub server_of : String → String → List WeftServer → Answer KubeError WeftServer
server_of ns name [] = err not_found
server_of ns name (x ∷ xs) =
    let rest = server_of ns name xs in if x.namespace == ns && x.name == name then ok x else rest

abbrev pub tunnels_in : Option String → List WeftTunnel → List WeftTunnel
tunnels_in none ts = ts
tunnels_in (some ns) ts = keep (λ (t : WeftTunnel). t.namespace == ns) ts

abbrev pub cluster : Cluster Store
cluster = record {
  list_servers = λ s ns. ok (in_namespace ns (web ∷ edge ∷ []));
  get_server = λ s ns name. server_of ns name (web ∷ edge ∷ []);
  list_tunnels = λ s ns. ok (tunnels_in ns (all_of_them ∷ []));
  list_deployments = λ s ns sel.
      ok (keep (λ (d : Deployment). d.namespace == ns && matches sel d.labels) s.deployments);
  create_or_update = λ s ns name f. put_sent s ns name (f (found s.deployments ns name));
  delete = λ s d. (none, record { deployments = drop_key d.namespace d.name s.deployments });
  update_status = λ s t. (none, s);
  set_controller_reference = λ t d. ok (record d { controller = some t.name });
  set_condition = λ c cs. c ∷ cs;
  error_text = λ e. "error";
}

pub has_key-SameKey :
    (d : Deployment) (ns name : String) → (has_key d ns name ≡ true) ↔ SameKey d ns name
unfolding SameKey
has_key-SameKey d ns name =
    let n = eq_iff d.namespace ns in
    let m = eq_iff d.name name in
    (
      λ h. (n.0 (ground (arith, h)), m.0 (ground (arith, h))),
      λ k. let p = n.1 (k.0) in let q = m.1 (k.1) in ground (arith, p, q),
    )

pub drop_key-In :
    (ns name : String) (ds : List Deployment) (x : Deployment)
    → In x (drop_key ns name ds) ↔ (In x ds × ¬ SameKey x ns name)
drop_key-In ns name ds x =
    let test = λ (d : Deployment). not (has_key d ns name) in
    let k = has_key-SameKey x ns name in
    (
      λ m. let (i, p) = In-keep test x ds m in (i, λ q. let r = k.1 q in ground (arith, p, r)),
      λ o. keep-In test x ds o.0 (elim (Bool-cases (has_key x ns name)) [
        | inl e ↦ absurd (o.1 (k.0 e))
        | inr e ↦ ground (arith, e)
      ]),
    )

pub found-SameKey : (ds : List Deployment) (ns name : String) → SameKey (found ds ns name) ns name
unfolding SameKey
found-SameKey [] ns name = (refl, refl)
found-SameKey (d ∷ ds) ns name = elim (Bool-cases (has_key d ns name)) [
  | inl e ↦ rw e ((has_key-SameKey d ns name).0 e)
  | inr e ↦ rw e (found-SameKey ds ns name)
]
