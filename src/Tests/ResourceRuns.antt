-- ===== src/Tests/ResourceRuns.antt =====
-- Runs of internal/resource.
use weft_operator.Prelude.{◌≡◌, refl}
use weft_operator.Resource.Image.{pull_policy, always, if_not_present, pull_policy-tag}

pull_policy-tag_example :
    (pull_policy "weft:e2e" ≡ if_not_present) × (pull_policy "weft/e2e" ≡ always)
pull_policy-tag_example = pull_policy-tag "weft" "e2e" (
  (refl, (refl, (refl, (refl, tt)))),
  (refl, (refl, (refl, tt))),
  (refl, (refl, (refl, tt))),
  (refl, (refl, (refl, tt))),
)

pull_policy_runs :
    (pull_policy "localhost:5000/weft" ≡ always)
    × (pull_policy "localhost:5000/weft:v1" ≡ if_not_present)
    × (pull_policy "ghcr.io/aquaduct-dev/weft@sha256:abc" ≡ if_not_present)
unfolding pull_policy
pull_policy_runs = (refl, refl, refl)
