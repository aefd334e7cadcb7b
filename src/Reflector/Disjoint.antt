-- ===== src/Reflector/Disjoint.antt =====
-- The claims that the reflectors of one cluster work out:
-- internal/controller/weftlocaldnsreflector/claims.go.
use weft_operator.Prelude.{
  String, Option, none, some, ◌≡◌, ◌≢◌, refl, sym, ap, subst, ◌∙◌, Bool, true, false, not, ◌&&◌,
  inl, inr, List, [], ◌∷◌, ◌++◌, map, keep, contains, ◌==◌, eq_iff, arith, In, In-keep, keep-In,
  In-append, In-append_left, In-append_right, In-contains, Bool-cases, Option-cases, if◌then◌else◌,
}
use weft_operator.Prelude.Text.{to_lower, text_lt}
use weft_operator.Prelude.Sort.{IsSorted, sort_by-IsSorted, sort_by-In, In-sort_by}
use weft_operator.Reflector.{
  Reflector, Tunnel, Parsers, older, unique, sorted_unique, live, names, first, explicit_owner,
  first_all, owned_by, is_none, divide, resolve_claims, Claims, tunnel_hostnames,
}
use weft_operator.Reflector.Owner.{older-IsOrder, older_total, first-In, first-none, first_oldest}

-- The names of cluster-scoped objects are unique.
unfoldable pub NamesUnique : List Reflector → Type 0
NamesUnique all = (r q : Reflector) → In r all → In q all → r.name ≡ q.name → r ≡ q

-- A reflector that is reconciled: it is in the cluster and not on its way out.
pub record IsLive (all : List Reflector) (r : Reflector) : Type 0 where
  pub member : In r all
  pub kept : r.deleting ≡ false

module _ (all : List Reflector) (unambiguous : NamesUnique all) where
  live-In : (self r : Reflector) → IsLive all self → In r (live self all) → IsLive all r
  unfolding live
  live-In self r s m =
      let others = λ (x : Reflector). not x.deleting && not (x.name == self.name) in
      elim (In-append r (keep others all) (self ∷ [])
        (sort_by-In older r (keep others all ++ self ∷ []) m)) [
          | inl h ↦
              let (i, p) = In-keep others r all h in record { member = i; kept = ground (arith, p) }
          | inr (inl e) ↦ subst (λ x. IsLive all x) (sym e) s
          | inr (inr h) ↦ absurd h
        ]

  In-live : (self r : Reflector) → IsLive all self → IsLive all r → In r (live self all)
  unfolding live NamesUnique
  In-live self r s l =
      let others = λ (x : Reflector). not x.deleting && not (x.name == self.name) in
      In-sort_by older r (keep others all ++ self ∷ []) (elim (Bool-cases (r.name == self.name)) [
        | inl e ↦
            In-append_right r (keep others all) (self ∷ [])
              (inl (unambiguous r self l.member s.member ((eq_iff r.name self.name).0 e)))
        | inr e ↦
            In-append_left r (keep others all) (self ∷ [])
              (keep-In others r all l.member (ground (arith, l.kept, e)))
      ])

  live-IsSorted : (self : Reflector) → IsSorted older (live self all)
  unfolding live
  live-IsSorted self = sort_by-IsSorted older-IsOrder _

  module _ (a b : Reflector) (la : IsLive all a) (lb : IsLive all b) where
    pass_over : (p : Reflector → Bool) → first p (live a all) ≡ none → first p (live b all) ≡ none
    pass_over p h = elim (Option-cases (first p (live b all))) [
      | inl e ↦ e
      | inr (q, e) ↦
          let (i, t) = first-In p (live b all) q e in
          let f = first-none p (live a all) q h (In-live a q la (live-In b q lb i)) in cc (t, f)
    ]

    -- Two reflectors of the same cluster find the same first reflector.
    pub first_agree : (p : Reflector → Bool) → first p (live a all) ≡ first p (live b all)
    unfolding NamesUnique
    first_agree p = elim (Option-cases (first p (live a all))) [
      | inl e ↦ e ∙ sym (pass_over p e)
      | inr (r, e) ↦ elim (Option-cases (first p (live b all))) [
        | inl f ↦
            let (i, t) = first-In p (live a all) r e in
            let g = first-none p (live b all) r f (In-live b r lb (live-In a r la i)) in cc (t, g)
        | inr (q, f) ↦
            let (i, t) = first-In p (live a all) r e in
            let (j, u) = first-In p (live b all) q f in
            let lr = live-In a r la i in
            let lq = live-In b q lb j in
            let n =
              older_total r q
                (first_oldest p (live b all) q r (live-IsSorted b) f (In-live b r lb lr) t)
                (first_oldest p (live a all) r q (live-IsSorted a) e (In-live a q la lq) u) in
            let same : r ≡ q = unambiguous r q lr.member lq.member n in cc (e, f, same)
      ]
    ]

unique-hit :
    (seen xs : List String) (x : String)
    → contains seen x ≡ true
    → unique seen (x ∷ xs) ≡ unique seen xs
unfolding unique
unique-hit seen xs x e = rw (e, unique) refl

unique-miss :
    (seen xs : List String) (x : String)
    → contains seen x ≡ false
    → unique seen (x ∷ xs) ≡ x ∷ unique (x ∷ seen) xs
unfolding unique
unique-miss seen xs x e = rw (e, unique) refl

unique_nil : (seen : List String) → unique seen [] ≡ []
unfolding unique
unique_nil seen = refl

unique-In : (seen xs : List String) (s : String) → In s (unique seen xs) → In s xs
unique-In seen [] s m = subst (λ t. In s t) (unique_nil seen) m
unique-In seen (x ∷ xs) s m = elim (Bool-cases (contains seen x)) [
  | inl e ↦ inr (unique-In seen xs s (subst (λ t. In s t) (unique-hit seen xs x e) m))
  | inr e ↦ elim (subst (λ t. In s t) (unique-miss seen xs x e) m) [
    | inl h ↦ inl h
    | inr h ↦ inr (unique-In (x ∷ seen) xs s h)
  ]
]

-- A reflector names the hosts that its lower-cased list comes to.
sorted_unique-names :
    (r : Reflector) (h : String)
    → r.all_hostnames ≡ false
    → In h (sorted_unique r.hostnames)
    → names h r ≡ true
unfolding sorted_unique names
sorted_unique-names r h k m =
    let lowered = map to_lower r.hostnames in
    let c =
      In-contains h lowered (unique-In [] lowered h (sort_by-In text_lt h (unique [] lowered) m)) in
    ground (arith, c, k)

if_not-false : {A : Type 0} (b : Bool) (x y : A) → b ≡ false → (if not b then x else y) ≡ x
if_not-false false x y e = refl
if_not-false true x y e = cc e

if_not-true : {A : Type 0} (b : Bool) (x y : A) → b ≡ true → (if not b then x else y) ≡ y
if_not-true true x y e = refl
if_not-true false x y e = cc e

module _ (parsers : Parsers) (tunnels : List Tunnel) (self : Reflector) (all : List Reflector) where
  own : String → Bool
  own h = owned_by self.name (explicit_owner (live self all) h)

  left_over : String → Bool
  left_over h = is_none (explicit_owner (live self all) h) && first_all (live self all) == self.name

  resolve_claims-explicit :
      self.all_hostnames ≡ false
      → resolve_claims parsers self all tunnels ≡ divide own (sorted_unique self.hostnames)
  unfolding resolve_claims own
  resolve_claims-explicit e = if_not-false self.all_hostnames _ _ e

  resolve_claims-all :
      self.all_hostnames ≡ true
      → resolve_claims parsers self all tunnels
        ≡ divide left_over (tunnel_hostnames parsers tunnels)
  unfolding resolve_claims left_over
  resolve_claims-all e = if_not-true self.all_hostnames _ _ e

  claimed_named :
      (h : String)
      → self.all_hostnames ≡ false
      → In h (resolve_claims parsers self all tunnels).claimed
      → own h ≡ true × (names h self ≡ true)
  claimed_named h e m =
      let (i, t) =
        In-keep own h (sorted_unique self.hostnames)
          (subst (λ (c : Claims). In h c.claimed) (resolve_claims-explicit e) m) in
      (t, sorted_unique-names self h e i)

  claimed_rest :
      (h : String)
      → self.all_hostnames ≡ true
      → In h (resolve_claims parsers self all tunnels).claimed
      → left_over h ≡ true
  claimed_rest h e m =
      (In-keep left_over h (tunnel_hostnames parsers tunnels)
        (subst (λ (c : Claims). In h c.claimed) (resolve_claims-all e) m)).1

-- One name names one owner.
owned_by_same :
    (x y : String) (o : Option String) → owned_by x o ≡ true → owned_by y o ≡ true → x ≡ y
unfolding owned_by
owned_by_same x y none h k = (eq_iff x "").0 h ∙ sym ((eq_iff y "").0 k)
owned_by_same x y (some o) h k = sym ((eq_iff o x).0 h) ∙ (eq_iff o y).0 k

-- If nobody owns the host, the first reflector that names it is missing.
unowned :
    (rs : List Reflector) (h : String)
    → is_none (explicit_owner rs h) ≡ true
    → first (names h) rs ≡ none
unfolding explicit_owner is_none
unowned rs h k = elim (Option-cases (first (names h) rs)) [
  | inl e ↦ e
  | inr (r, e) ↦ let f : is_none (some r.name) ≡ true = rw (e, explicit_owner) at k in cc f
]

first_all_same :
    (rs qs : List Reflector)
    → first (λ (r : Reflector). r.all_hostnames) rs ≡ first (λ (r : Reflector). r.all_hostnames) qs
    → first_all rs ≡ first_all qs
unfolding first_all
first_all_same rs qs e = ap (λ (o : Option Reflector). elim o [ none ↦ "" | some r ↦ r.name ]) e

explicit_owner_same :
    (rs qs : List Reflector) (h : String)
    → first (names h) rs ≡ first (names h) qs
    → explicit_owner rs h ≡ explicit_owner qs h
unfolding explicit_owner
explicit_owner_same rs qs h e =
    ap (λ (o : Option Reflector). elim o [ none ↦ none | some r ↦ some r.name ]) e

module _ (all : List Reflector) (unambiguous : NamesUnique all) (parsers : Parsers)
    (tunnels : List Tunnel) where
  -- One side names the host, the other claims what nobody names.
  contradiction :
      (a b : Reflector) (h : String)
      → IsLive all a
      → IsLive all b
      → names h a ≡ true
      → left_over parsers tunnels b all h ≡ true
      → ⊥
  unfolding left_over
  contradiction a b h la lb n t =
      let e = unowned (live b all) h (ground (arith, t)) in
      let f = first-none (names h) (live b all) a e (In-live all unambiguous b a lb la) in cc (n, f)

  one_claimant :
      (a b : Reflector) (h : String)
      → IsLive all a
      → IsLive all b
      → In h (resolve_claims parsers a all tunnels).claimed
      → In h (resolve_claims parsers b all tunnels).claimed
      → a.name ≡ b.name
  unfolding own left_over explicit_owner first_all
  one_claimant a b h la lb ma mb = elim (Bool-cases a.all_hostnames) [
    | inr ea ↦ elim (Bool-cases b.all_hostnames) [
      | inr eb ↦
          let (oa, na) = claimed_named parsers tunnels a all h ea ma in
          let (ob, nb) = claimed_named parsers tunnels b all h eb mb in
          let same = first_agree all unambiguous a b la lb (names h) in
          owned_by_same a.name b.name (explicit_owner (live b all) h)
            (subst (λ o. owned_by a.name o ≡ true)
              (explicit_owner_same (live a all) (live b all) h same) oa)
            ob
      | inl eb ↦ absurd (
          contradiction a b h la lb (claimed_named parsers tunnels a all h ea ma).1
            (claimed_rest parsers tunnels b all h eb mb))
    ]
    | inl ea ↦ elim (Bool-cases b.all_hostnames) [
      | inr eb ↦ absurd (
          contradiction b a h lb la (claimed_named parsers tunnels b all h eb mb).1
            (claimed_rest parsers tunnels a all h ea ma))
      | inl eb ↦
          let ta = claimed_rest parsers tunnels a all h ea ma in
          let tb = claimed_rest parsers tunnels b all h eb mb in
          let same = first_agree all unambiguous a b la lb (λ (r : Reflector). r.all_hostnames) in
          let fa : (first_all (live a all) == a.name) ≡ true = ground (arith, ta) in
          let fb : (first_all (live b all) == b.name) ≡ true = ground (arith, tb) in
          let f = first_all_same (live a all) (live b all) same in
          sym ((eq_iff (first_all (live a all)) a.name).0 fa)
          ∙ f
          ∙ (eq_iff (first_all (live b all)) b.name).0 fb
    ]
  ]

  -- Two reflectors of one cluster, with different names and neither being deleted, never claim the
  -- same host name, given the same list of reflectors (names are unique in it) and of tunnels.
  pub resolve_claims_disjoint :
      (a b : Reflector) (h : String)
      → IsLive all a
      → IsLive all b
      → a.name ≢ b.name
      → In h (resolve_claims parsers a all tunnels).claimed
      → ¬ In h (resolve_claims parsers b all tunnels).claimed
  resolve_claims_disjoint a b h la lb different ma =
      λ mb. different (one_claimant a b h la lb ma mb)
