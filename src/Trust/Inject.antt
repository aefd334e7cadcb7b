-- ===== src/Trust/Inject.antt =====
-- The mutation of a whole pod, `InjectPod` of internal/trust/inject.go, and `TrustsCA`.
use weft_operator.Prelude.{
  String, ◌≡◌, refl, true, false, ◌||◌, List, [], ◌∷◌, ◌++◌, ◌==◌, eq_refl, any, arith, Bool-cases,
  inl, inr, text_cases, All, In, In-contains, contains, if◌then◌else◌, is_empty,
}
use weft_operator.Prelude.Text.{split}
use weft_operator.Prelude.Split.{LacksCode, split-join}
use weft_operator.Prelude.Assoc.{Assoc, at_key, put, lookup-put}
use weft_operator.Trust.{
  Volume, Container, Pod, Bundle, opted_out, is_windows, bundle_empty, has_volume,
  inject_containers, inject_pod, injected_annotation, opt_out_key, volume_name, bundle_volume,
  fingerprint_list, trusts_ca,
}
use weft_operator.Trust.Mounts.{inject_container-inject_container, any-append_right}

inject_containers-inject_containers :
    (cs : List Container)
    → inject_containers (inject_containers cs).0 ≡ ((inject_containers cs).0, false)
unfolding inject_containers
inject_containers-inject_containers [] = refl
inject_containers-inject_containers (c ∷ cs) =
    rw (inject_container-inject_container c) (rw (inject_containers-inject_containers cs) refl)

abbrev noted : String → Assoc String → Assoc String
noted want a = if at_key injected_annotation a == want then a else put injected_annotation want a

at_key-noted : (want : String) (a : Assoc String) → at_key injected_annotation (noted want a) ≡ want
at_key-noted want a = elim (text_cases (at_key injected_annotation a) want) [
  | inl (e, p) ↦ rw e p
  | inr (e, p) ↦ rw e (rw (lookup-put injected_annotation injected_annotation want a) refl)
]

opt_out-noted :
    (want : String) (a : Assoc String) → at_key opt_out_key (noted want a) ≡ at_key opt_out_key a
opt_out-noted want a = elim (Bool-cases (at_key injected_annotation a == want)) [
  | inl e ↦ rw e refl
  | inr e ↦ rw e (rw (lookup-put injected_annotation opt_out_key want a) refl)
]

abbrev with_volume : List Volume → List Volume
with_volume vs =
    if any (λ (v : Volume). v.name == volume_name) vs then vs else vs ++ bundle_volume ∷ []

any-with_volume :
    (vs : List Volume) → any (λ (v : Volume). v.name == volume_name) (with_volume vs) ≡ true
any-with_volume vs = elim (Bool-cases (any (λ (v : Volume). v.name == volume_name) vs)) [
  | inl e ↦ rw e e
  | inr e ↦
      rw e (any-append_right (λ (v : Volume). v.name == volume_name) vs (bundle_volume ∷ []) refl)
]

-- The pod that the mutation makes where it is not skipped.
abbrev injected : Pod → Bundle → Pod
injected pod bundle = record pod {
  volumes = with_volume pod.volumes;
  init_containers = (inject_containers pod.init_containers).0;
  containers = (inject_containers pod.containers).0;
  annotations = noted (fingerprint_list bundle.fingerprints) pod.annotations;
}

inject_pod-injected :
    (pod : Pod) (bundle : Bundle)
    → (opted_out pod || is_windows pod || bundle_empty bundle) ≡ false
    → (inject_pod pod bundle).0 ≡ injected pod bundle
unfolding inject_pod has_volume
inject_pod-injected pod bundle e = rw e refl

opted_out-injected : (pod : Pod) (bundle : Bundle) → opted_out (injected pod bundle) ≡ opted_out pod
unfolding opted_out
opted_out-injected pod bundle =
    rw (opt_out-noted (fingerprint_list bundle.fingerprints) pod.annotations) refl

is_windows-injected :
    (pod : Pod) (bundle : Bundle) → is_windows (injected pod bundle) ≡ is_windows pod
unfolding is_windows
is_windows-injected pod bundle = refl

has_volume-injected :
    (pod : Pod) (bundle : Bundle) → has_volume (injected pod bundle) volume_name ≡ true
unfolding has_volume
has_volume-injected pod bundle = any-with_volume pod.volumes

inject_pod_skips :
    (pod : Pod) (bundle : Bundle)
    → (opted_out pod || is_windows pod || bundle_empty bundle) ≡ true
    → inject_pod pod bundle ≡ (pod, false)
unfolding inject_pod
inject_pod_skips pod bundle e = rw e refl

In-bundle_empty :
    (bundle : Bundle) (f : String) → In f bundle.fingerprints → bundle_empty bundle ≡ false
unfolding bundle_empty
In-bundle_empty bundle f m = go bundle.fingerprints m
  where
    go : (fs : List String) → In f fs → is_empty fs ≡ false
    go [] k = absurd k
    go (g ∷ gs) k = refl

contains_fingerprint :
    (fs : List String) (f : String)
    → All (LacksCode b',') fs
    → In f fs
    → contains (split b',' (fingerprint_list fs)) f ≡ true
unfolding fingerprint_list
contains_fingerprint [] f h m = absurd m
contains_fingerprint (g ∷ gs) f h m = rw (split-join "," g gs h) (In-contains f (g ∷ gs) m)

inject_pod_again :
    (pod : Pod) (bundle : Bundle)
    → (opted_out pod || is_windows pod || bundle_empty bundle) ≡ false
    → inject_pod (injected pod bundle) bundle ≡ (injected pod bundle, false)
unfolding inject_pod
inject_pod_again pod bundle e = rw (opted_out-injected pod bundle) (
    rw (is_windows-injected pod bundle) (
      rw e (
        rw (has_volume-injected pod bundle) (
          rw (inject_containers-inject_containers pod.init_containers) (
            rw (inject_containers-inject_containers pod.containers) (
              rw (at_key-noted (fingerprint_list bundle.fingerprints) pod.annotations)
                (rw (eq_refl (fingerprint_list bundle.fingerprints)) refl)))))))

-- A second run of the mutation on the pod that the first made changes nothing and says so.
pub inject_pod-inject_pod :
    (pod : Pod) (bundle : Bundle)
    → inject_pod (inject_pod pod bundle).0 bundle ≡ ((inject_pod pod bundle).0, false)
inject_pod-inject_pod pod bundle =
    elim (Bool-cases (opted_out pod || is_windows pod || bundle_empty bundle)) [
      | inl e ↦ rw (inject_pod_skips pod bundle e) (inject_pod_skips pod bundle e)
      | inr e ↦ rw (inject_pod-injected pod bundle e) (inject_pod_again pod bundle e)
    ]

-- A pod that has not opted out and is not for Windows trusts, after the mutation, every CA of the
-- bundle. The fingerprints are free of commas.
pub trusts_ca-inject_pod :
    (pod : Pod) (bundle : Bundle) (fingerprint : String)
    → opted_out pod ≡ false
    → is_windows pod ≡ false
    → All (LacksCode b',') bundle.fingerprints
    → In fingerprint bundle.fingerprints
    → trusts_ca (inject_pod pod bundle).0.annotations fingerprint ≡ true
unfolding trusts_ca
trusts_ca-inject_pod pod bundle fingerprint o w h m =
    rw (inject_pod-injected pod bundle (ground (arith, In-bundle_empty bundle fingerprint m))) (
      rw (at_key-noted (fingerprint_list bundle.fingerprints) pod.annotations)
        (contains_fingerprint bundle.fingerprints fingerprint h m))
