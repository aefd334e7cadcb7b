-- ===== src/Gateway/Dns/Pinned.antt =====
-- The bastion that an L4 host name is pinned to: pickL4Bastion and eligibleBastionIDs.
use weft_operator.Prelude.{
  ℕ, zero, suc, ◌<◌, ◌%◌, String, some, ◌≡◌, ◌≢◌, refl, sym, ap, subst, ◌⊎◌, inl, inr, true, List,
  [], ◌∷◌, keep, In-map, map-In, get_elem?, get_or, length, arith, In, In-keep, keep-In,
}
use native.Mathlib.Nat.{mod-lt}
use weft_operator.Prelude.Text.{text_lt}
use weft_operator.Prelude.Sort.{sort_by-In, In-sort_by}
use weft_operator.DnsRecord.{Bastion}
use weft_operator.DnsRecord.Bastions.{is_usable}
use weft_operator.Gateway.{Gateway, Library}
use weft_operator.Gateway.Dns.{eligible_bastion_ids, pick_eligible, pick_l4_bastion, host_key}

-- Inside the bounds there is an item, and it stands in the list.
get_elem?-In :
    {A : Type 0} (xs : List A) (i : ℕ)
    → i < length xs
    → (x : A) × (get_elem? xs i ≡ some x) × In x xs
get_elem?-In [] i h = absurd (omega (arith, h))
get_elem?-In (x ∷ xs) zero h = (x, refl, inl refl)
get_elem?-In (x ∷ xs) (suc i) h =
    let (y, e, m) = get_elem?-In xs i (omega (arith, h)) in (y, e, inr m)

eligible-In :
    (bastions : List Bastion) (id : String)
    → In id (eligible_bastion_ids bastions)
    → (b : Bastion) × In b bastions × (is_usable b ≡ true) × (b.id ≡ id)
unfolding eligible_bastion_ids
eligible-In bastions id m =
    let (b, k, e) =
      In-map (λ (b : Bastion). b.id) id (keep is_usable bastions) (sort_by-In text_lt id _ m) in
    let (i, u) = In-keep is_usable b bastions k in (b, i, u, e)

In-eligible :
    (bastions : List Bastion) (b : Bastion)
    → In b bastions
    → is_usable b ≡ true
    → In b.id (eligible_bastion_ids bastions)
unfolding eligible_bastion_ids
In-eligible bastions b i u =
    In-sort_by text_lt b.id _
      (map-In (λ (b : Bastion). b.id) b _ (keep-In is_usable b bastions i u))

module _ (lib : Library) (gw : Gateway) where
  pick_eligible-In :
      (es : List String) (hostname : String)
      → ((es ≡ []) × (pick_eligible lib gw es hostname ≡ ""))
        ⊎ In (pick_eligible lib gw es hostname) es
  pick_eligible-In [] hostname = inl (refl, refl)
  pick_eligible-In (e ∷ es) hostname =
      let i = lib.sha256_head (host_key lib gw hostname) % length (e ∷ es) in
      let (x, q, m) =
        get_elem?-In (e ∷ es) i
          (mod-lt (lib.sha256_head (host_key lib gw hostname)) (omega arith)) in
      inr (subst (λ y. In y (e ∷ es)) (sym (ap (λ o. get_or o "") q)) m)

  -- The index into the eligible bastions is always inside the list: the pick is the ID of a bastion that
  -- is not suspended and has an address, or, exactly where there is none, the empty text.
  pub pick_l4_bastion_lem :
      (bastions : List Bastion) (hostname : String)
      → (((b : Bastion) → In b bastions → is_usable b ≢ true)
          × (pick_l4_bastion lib gw bastions hostname ≡ ""))
        ⊎ ((b : Bastion) × In b bastions
            × (is_usable b ≡ true)
            × (b.id ≡ pick_l4_bastion lib gw bastions hostname))
  unfolding pick_l4_bastion
  pick_l4_bastion_lem bastions hostname =
      elim (pick_eligible-In (eligible_bastion_ids bastions) hostname) [
        | inl (e, p) ↦ inl (λ b i u. subst (λ es. In b.id es) e (In-eligible bastions b i u), p)
        | inr m ↦ inr (eligible-In bastions _ m)
      ]
