-- ===== src/Trust.antt =====
-- internal/trust/inject.go: the pod mutation that makes a workload trust the reflectors' CAs.
-- A pod has the fields that the mutation reads or writes, and a container its environment besides.
pub mod Mounts
pub mod Inject
use text.Mathlib.Text.{starts_with}
use weft_operator.Prelude.{
  ℕ, String, Option, none, some, Bool, true, false, not, ◌&&◌, ◌||◌, List, [], ◌∷◌, ◌++◌, ◌==◌, any,
  is_empty, contains, if◌then◌else◌, eqb,
}
use weft_operator.Prelude.Text.{◌<>◌, join, split, trim_right}
use weft_operator.Prelude.Assoc.{Assoc, at_key, put}

abbrev pub opt_out_key : String
opt_out_key = "weft.aquaduct.dev/inject-trust"

abbrev pub injected_annotation : String
injected_annotation = "weft.aquaduct.dev/trusted-cas"

abbrev pub volume_name : String
volume_name = "weft-trust-bundle"

abbrev pub bundle_key : String
bundle_key = "ca-certificates.crt"

abbrev pub config_map_name : String
config_map_name = "weft-trust-bundle"

abbrev pub system_bundle_paths : List String
system_bundle_paths =
    "/etc/ssl/certs/ca-certificates.crt" ∷ "/etc/pki/tls/certs/ca-bundle.crt" ∷ "/etc/ssl/cert.pem"
    ∷ []

pub record VolumeMount : Type 0 where
  pub name : String
  pub mount_path : String
  pub sub_path : String
  pub read_only : Bool

pub record Container : Type 0 where
  pub name : String
  pub env : Assoc String
  pub volume_mounts : List VolumeMount

-- A volume with the ConfigMap that it shows, if it shows one, and the mode of its files.
pub record Volume : Type 0 where
  pub name : String
  pub config_map : Option String
  pub default_mode : Option ℕ

pub record Pod : Type 0 where
  pub labels : Assoc String
  pub annotations : Assoc String
  pub os : Option String
  pub node_selector : Assoc String
  pub volumes : List Volume
  pub init_containers : List Container
  pub containers : List Container

-- bundle.go: the content of the trust bundle ConfigMap.
pub record Bundle : Type 0 where
  pub all : String
  pub cas : String
  pub fingerprints : List String

unfoldable pub bundle_empty : Bundle → Bool
bundle_empty b = is_empty b.fingerprints

unfoldable pub fingerprint_list : List String → String
fingerprint_list fps = join "," fps

unfoldable pub opted_out : Pod → Bool
opted_out pod =
    at_key opt_out_key pod.labels == "false" || at_key opt_out_key pod.annotations == "false"

unfoldable pub is_windows : Pod → Bool
is_windows pod =
    elim pod.os [ none ↦ false | some name ↦ name == "windows" ]
    || at_key "kubernetes.io/os" pod.node_selector == "windows"

abbrev is_slash : ℕ → Bool
is_slash c = eqb c b'/'

-- The body of the loop of `mountCovers`: a mount path at `p` or at a directory above it.
unfoldable pub path_covers : String → String → Bool
unfolding trim_right
path_covers mount_path p =
    let trimmed = trim_right is_slash mount_path in
    let mp = if trimmed == "" then "/" else trimmed in
    mp == p || mp == "/" || starts_with p (mp <> "/")

unfoldable pub mount_covers : List VolumeMount → String → Bool
unfolding path_covers
mount_covers mounts p = any (λ m. path_covers m.mount_path p) mounts

unfoldable pub has_volume : Pod → String → Bool
has_volume pod name = any (λ (v : Volume). v.name == name) pod.volumes

abbrev pub bundle_mount : String → VolumeMount
bundle_mount p = record {
  name = volume_name;
  mount_path = p;
  sub_path = bundle_key;
  read_only = true;
}

abbrev pub bundle_volume : Volume
bundle_volume = record {
  name = volume_name;
  config_map = some config_map_name;
  default_mode = some 0o444;
}

-- The loop of `injectContainer` over the bundle paths.
unfoldable pub inject_paths : List String → List VolumeMount → List VolumeMount × Bool
unfolding mount_covers
inject_paths [] mounts = (mounts, false)
inject_paths (p ∷ ps) mounts = elim (mount_covers mounts p) [
  | true ↦ inject_paths ps mounts
  | false ↦ ((inject_paths ps (mounts ++ bundle_mount p ∷ [])).0, true)
]

unfoldable pub inject_container : Container → Container × Bool
unfolding inject_paths
inject_container c =
    let (mounts, changed) = inject_paths system_bundle_paths c.volume_mounts in
    (record c { volume_mounts = mounts }, changed)

-- One of the two loops over the containers of a pod.
unfoldable pub inject_containers : List Container → List Container × Bool
inject_containers [] = ([], false)
inject_containers (c ∷ cs) =
    let (c', changed) = inject_container c in
    let (cs', others) = inject_containers cs in (c' ∷ cs', changed || others)

unfoldable pub inject_pod : Pod → Bundle → Pod × Bool
inject_pod pod bundle =
    if opted_out pod || is_windows pod || bundle_empty bundle
    then (pod, false)
    else let mounted = has_volume pod volume_name in
      let (inits, c1) = inject_containers pod.init_containers in
      let (mains, c2) = inject_containers pod.containers in
      let want = fingerprint_list bundle.fingerprints in
      let noted = at_key injected_annotation pod.annotations == want in
      (
        record pod {
          volumes = if mounted then pod.volumes else pod.volumes ++ bundle_volume ∷ [];
          init_containers = inits;
          containers = mains;
          annotations =
              if noted then pod.annotations else put injected_annotation want pod.annotations;
        },
        if mounted && (noted && not (c1 || c2)) then false else true,
      )

unfoldable pub trusts_ca : Assoc String → String → Bool
unfolding split
trusts_ca annotations fingerprint =
    contains (split b',' (at_key injected_annotation annotations)) fingerprint
