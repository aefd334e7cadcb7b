-- ===== src/Tests/TrustRuns.antt =====
-- Runs of internal/trust.
use weft_operator.Prelude.{◌≡◌, refl, true, false, none, [], ◌∷◌, ◌++◌, inl, inr}
use weft_operator.Prelude.Assoc.{lookup}
use weft_operator.Trust.{
  Container, Pod, Bundle, bundle_mount, inject_container, inject_pod, opted_out, is_windows,
  trusts_ca,
}
use weft_operator.Trust.Mounts.{IsInjected, inject_container_lem}
use weft_operator.Trust.Inject.{inject_pod-inject_pod, trusts_ca-inject_pod}

-- A container that mounts its own directory over one of the bundle paths.
abbrev app : Container
app = record {
  name = "app";
  env = ("LANG", "C") ∷ [];
  volume_mounts =
      record { name = "own"; mount_path = "/etc/ssl/"; sub_path = ""; read_only = true } ∷ [];
}

abbrev app_pod : Pod
app_pod = record {
  labels = [];
  annotations = [];
  os = none;
  node_selector = ("kubernetes.io/os", "linux") ∷ [];
  volumes = [];
  init_containers = [];
  containers = app ∷ [];
}

abbrev two_cas : Bundle
two_cas = record { all = "ROOTS\nCAS"; cas = "CAS"; fingerprints = "a1" ∷ "b2" ∷ [] }

app_mounts :
    (inject_container app).0.volume_mounts
    ≡ app.volume_mounts ++ bundle_mount "/etc/pki/tls/certs/ca-bundle.crt" ∷ []
unfolding inject_container
app_mounts = refl

inject_container_lem_example : IsInjected app (inject_container app).0
inject_container_lem_example = inject_container_lem app

inject_pod-inject_pod_example :
    inject_pod (inject_pod app_pod two_cas).0 two_cas ≡ ((inject_pod app_pod two_cas).0, false)
inject_pod-inject_pod_example = inject_pod-inject_pod app_pod two_cas

trusts_ca-inject_pod_example : trusts_ca (inject_pod app_pod two_cas).0.annotations "b2" ≡ true
unfolding opted_out is_windows lookup
trusts_ca-inject_pod_example =
    trusts_ca-inject_pod app_pod two_cas "b2" refl refl
      ((refl, (refl, tt)), ((refl, (refl, tt)), tt)) (inr (inl refl))
