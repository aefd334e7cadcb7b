-- ===== src/Tests/ReflectorRuns.antt =====
-- Runs of internal/controller/weftlocaldnsreflector.
use weft_operator.Prelude.{
  none, some, ◌≡◌, ◌≢◌, ◌∙◌, subst, refl, sym, true, false, List, [], ◌∷◌, In, inl, inr, eq_iff,
}
use weft_operator.Prelude.Text.{to_lower, text_lt}
use weft_operator.Prelude.Sort.{sort_by, insert}
use weft_operator.Reflector.{
  Reflector, Parsers, resolve_claims, live, older, first, sorted_unique, unique, owned_by,
  explicit_owner, names,
}
use weft_operator.Reflector.Disjoint.{NamesUnique, resolve_claims_disjoint}

abbrev shop : Reflector
shop = record {
  name = "shop";
  creation = some 20;
  deleting = false;
  all_hostnames = false;
  hostnames = "Shop.example" ∷ "api.example" ∷ [];
}

abbrev early : Reflector
early = record {
  name = "early";
  creation = some 10;
  deleting = false;
  all_hostnames = false;
  hostnames = "shop.example" ∷ [];
}

abbrev cluster : List Reflector
cluster = shop ∷ early ∷ []

abbrev parsers : Parsers
parsers = record { parse_url = λ u. none; is_dns_name = λ h. true; is_ip = λ h. false }

shop_claims : (resolve_claims parsers shop cluster []).claimed ≡ "api.example" ∷ []
unfolding resolve_claims sorted_unique sort_by unique to_lower text_lt owned_by explicit_owner first
    live older names insert
shop_claims = refl

early_claims : (resolve_claims parsers early cluster []).claimed ≡ "shop.example" ∷ []
unfolding resolve_claims sorted_unique sort_by unique to_lower text_lt owned_by explicit_owner first
    live older names insert
early_claims = refl

different : shop.name ≢ early.name
different p = cc ((eq_iff "shop" "early").1 p)

cluster-NamesUnique : NamesUnique cluster
unfolding NamesUnique
cluster-NamesUnique r q (inl i) (inl j) e = i ∙ sym j
cluster-NamesUnique r q (inl i) (inr (inl j)) e = absurd (different (cc (i, j, e)))
cluster-NamesUnique r q (inl i) (inr (inr j)) e = absurd j
cluster-NamesUnique r q (inr (inl i)) (inl j) e = absurd (different (cc (i, j, e)))
cluster-NamesUnique r q (inr (inl i)) (inr (inl j)) e = i ∙ sym j
cluster-NamesUnique r q (inr (inl i)) (inr (inr j)) e = absurd j
cluster-NamesUnique r q (inr (inr i)) j e = absurd i

resolve_claims_disjoint_example :
    ¬ In "shop.example" (resolve_claims parsers shop cluster []).claimed
resolve_claims_disjoint_example =
    resolve_claims_disjoint cluster cluster-NamesUnique parsers [] early shop "shop.example"
      (record { member = inr (inl refl); kept = refl }) (record { member = inl refl; kept = refl })
      (λ p. different (sym p)) (subst (λ hs. In "shop.example" hs) (sym early_claims) (inl refl))
