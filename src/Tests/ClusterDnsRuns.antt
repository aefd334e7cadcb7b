-- ===== src/Tests/ClusterDnsRuns.antt =====
-- Runs of the cluster DNS half of internal/controller/weftlocaldnsreflector.
use weft_operator.Prelude.{none, ◌≡◌, refl, List, [], ◌∷◌}
use weft_operator.Prelude.Assoc.{lookup}
use weft_operator.Kube.{ok}
use weft_operator.Prelude.{arith}
use weft_operator.Prelude.Text.{split}
use weft_operator.Trust.{injected_annotation, trusts_ca}
use weft_operator.Reflector.UntrustedPods.{
  PodMeta, count_untrusted, is_untrusted, exempt_from_trust, untrusted_pods, IsReport,
  untrusted_pods-IsReport,
}
use weft_operator.Reflector.ClusterDns.{Answers, sync_core_dns, after_read, with_current, updated}
use weft_operator.Prelude.{String, ◌↔◌, In, map}
use weft_operator.Prelude.Text.{to_lower, text_lt}
use weft_operator.Prelude.Sort.{sort_by, insert}
use weft_operator.Reflector.ClusterDns.{sorted_lower, compact}
use weft_operator.Reflector.ClusterDns.Zones.{IsStrict, sorted_lower-IsStrict}
use weft_operator.Reflector.ClusterDns.Publish.{IsPublished, data_before, sync_core_dns-IsPublished}

-- The shared ConfigMap has the key of someone else.
abbrev shared : Answers
shared = record {
  read = ok (("home.server", "home.arpa:53 {}") ∷ []);
  on_create = λ sent. none;
  on_update = λ sent. none;
}

sync_core_dns-IsPublished_example :
    IsPublished
      (data_before shared.read)
      "weft.server"
      "block"
      (sync_core_dns shared "weft.server" "block")
unfolding sync_core_dns after_read with_current lookup updated
sync_core_dns-IsPublished_example = sync_core_dns-IsPublished shared "weft.server" "block" refl

-- A pod that has not seen the CA, and one that trusts it.
abbrev pods : List PodMeta
pods =
    record { namespace = "shop"; name = "old"; labels = []; annotations = [] }
    ∷ record {
      namespace = "shop";
      name = "new";
      labels = [];
      annotations = (injected_annotation, "a1") ∷ [];
    }
    ∷ []

pods_run : count_untrusted [] "kubernetes.io/config.mirror" "a1" pods ≡ 1
unfolding count_untrusted is_untrusted exempt_from_trust trusts_ca lookup split
pods_run = refl

untrusted_pods-IsReport_example :
    IsReport [] "kubernetes.io/config.mirror" "a1" pods
      (untrusted_pods [] "kubernetes.io/config.mirror" "a1" pods)
untrusted_pods-IsReport_example =
    untrusted_pods-IsReport [] "kubernetes.io/config.mirror" "a1" pods (omega arith)

zones_run :
    sorted_lower ("b.example" ∷ "A.example" ∷ "B.example" ∷ []) ≡ "a.example" ∷ "b.example" ∷ []
unfolding sorted_lower compact sort_by insert to_lower text_lt
zones_run = refl

sorted_lower-IsStrict_example :
    IsStrict (sorted_lower ("b.example" ∷ "A.example" ∷ "B.example" ∷ []))
    × ((h : String)
        → In h (sorted_lower ("b.example" ∷ "A.example" ∷ "B.example" ∷ []))
          ↔ In h (map to_lower ("b.example" ∷ "A.example" ∷ "B.example" ∷ [])))
sorted_lower-IsStrict_example = sorted_lower-IsStrict ("b.example" ∷ "A.example" ∷ "B.example" ∷ [])
