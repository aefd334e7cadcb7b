-- ===== src/Gateway/Attach/Meaning.antt =====
-- The tests of which parents bind a route to a listener, in internal/controller/weftgateway/reconciler.go,
-- beside what they mean.
use weft_operator.Prelude.{
  String, Option, none, some, ◌≡◌, refl, sym, ap, ◌∙◌, ◌↔◌, ◌⊎◌, inl, inr, Bool, true, ◌&&◌, List,
  [], ◌∷◌, In, any, any-In, In-any, get_or, is_empty, Bool-cases, eq_iff, arith, ◌==◌,
}
use weft_operator.Gateway.{ParentRef, Gateway, Listener}
use weft_operator.Gateway.Attach.{
  hostname_matches, hostnames_intersect, is_or_absent, names_gateway, is_attached_to_gateway,
  is_attached_to_listener, parent_refs_select_listener,
}
use weft_operator.Gateway.Attach.Hostnames.{Covers, hostname_matches_iff}

-- The parent has the gateway's name, and its namespace if it has one.
abbrev pub NamesGateway : Gateway → ParentRef → Type 0
NamesGateway gw p = (p.name ≡ gw.name) × ((p.namespace ≡ none) ⊎ (p.namespace ≡ some gw.namespace))

-- The parent has the listener's name as its section, or none.
abbrev pub SelectsSection : Listener → ParentRef → Type 0
SelectsSection l p = (p.section_name ≡ none) ⊎ (p.section_name ≡ some l.name)

-- Host names of a route that are none, or one of which is the listener's up to a wildcard.
abbrev pub Overlap : List String → String → Type 0
Overlap hostnames host =
    (host ≡ "")
    ⊎ ((hostnames ≡ [])
        ⊎ ((r : String) × In r hostnames × ((r ≡ host) ⊎ (Covers r host ⊎ Covers host r))))

is_or_absent_iff :
    (o : Option String) (s : String) → (is_or_absent o s ≡ true) ↔ ((o ≡ none) ⊎ (o ≡ some s))
is_or_absent_iff none s = (λ _. inl refl, λ _. refl)
is_or_absent_iff (some t) s = (
  λ h. inr (ap some ((eq_iff t s).0 h)),
  λ h. elim h [ inl e ↦ cc e | inr e ↦ let same : t ≡ s = cc e in (eq_iff t s).1 same ],
)

pub names_gateway_iff :
    (gw : Gateway) (p : ParentRef) → (names_gateway gw p ≡ true) ↔ NamesGateway gw p
unfolding names_gateway
names_gateway_iff gw p =
    let n = eq_iff p.name gw.name in
    let o = is_or_absent_iff p.namespace gw.namespace in
    (
      λ h. (n.0 (ground (arith, h)), o.0 (ground (arith, h))),
      λ k. let a = n.1 (k.0) in let b = o.1 (k.1) in ground (arith, a, b),
    )

empty_iff : (xs : List String) → (is_empty xs ≡ true) ↔ (xs ≡ [])
empty_iff [] = (λ _. refl, λ _. refl)
empty_iff (x ∷ xs) = (λ h. cc h, λ h. cc h)

pub hostnames_intersect_iff :
    (hostnames : List String) (host : String)
    → (hostnames_intersect hostnames (some host) ≡ true) ↔ Overlap hostnames host
unfolding hostnames_intersect
hostnames_intersect_iff hostnames host =
    let test : String → Bool = λ r. hostname_matches r host in
    (
      λ h. elim (Bool-cases (host == "")) [
        | inl a ↦ inl ((eq_iff host "").0 a)
        | inr a ↦ elim (Bool-cases (is_empty hostnames)) [
          | inl b ↦ inr (inl ((empty_iff hostnames).0 b))
          | inr b ↦
              let (r, i, m) = any-In test hostnames (ground (arith, h, a, b)) in
              inr (inr (r, i, (hostname_matches_iff r host).0 m))
        ]
      ],
      λ k. elim k [
        | inl e ↦ let a = (eq_iff host "").1 e in ground (arith, a)
        | inr (inl e) ↦ let b = (empty_iff hostnames).1 e in ground (arith, b)
        | inr (inr (r, i, m)) ↦
            let c = In-any test hostnames r i ((hostname_matches_iff r host).1 m) in
            ground (arith, c)
      ],
    )

-- The parent that binds a route to a listener, with host names that overlap.
pub record Binds (gw : Gateway) (l : Listener) (hostnames : List String) (host : String)
    (parents : List ParentRef) : Type 0 where
  pub parent : ParentRef
  pub member : In parent parents
  pub names : NamesGateway gw parent
  pub section : SelectsSection l parent
  pub overlap : Overlap hostnames host

module _ (gw : Gateway) (l : Listener) (hostnames : List String) where
  -- The loop returns the test of the host names at the first parent that passes, and that test does not
  -- depend on the parent.
  listener_loop :
      (parents : List ParentRef)
      → is_attached_to_listener gw l hostnames parents ≡ (
          any (λ (p : ParentRef). names_gateway gw p && is_or_absent p.section_name l.name) parents
          && hostnames_intersect hostnames l.hostname)
  unfolding is_attached_to_listener
  listener_loop [] = refl
  listener_loop (p ∷ ps) = ground (arith, listener_loop ps)

  pub is_attached_to_listener_iff :
      (host : String) (parents : List ParentRef)
      → l.hostname ≡ some host
      → (is_attached_to_listener gw l hostnames parents ≡ true) ↔ Binds gw l hostnames host parents
  is_attached_to_listener_iff host parents e =
      let test : ParentRef → Bool =
        λ (p : ParentRef). names_gateway gw p && is_or_absent p.section_name l.name in
      let loop : is_attached_to_listener gw l hostnames parents
          ≡ (any test parents && hostnames_intersect hostnames (some host)) =
        listener_loop parents ∙ ap (λ o. any test parents && hostnames_intersect hostnames o) e in
      (
        λ h.
            let k = sym loop ∙ h in
            let (p, i, m) = any-In test parents (ground (arith, k)) in
            record {
              parent = p;
              member = i;
              names = (names_gateway_iff gw p).0 (ground (arith, m));
              section = (is_or_absent_iff p.section_name l.name).0 (ground (arith, m));
              overlap = (hostnames_intersect_iff hostnames host).0 (ground (arith, k));
            },
        λ b.
            let n = (names_gateway_iff gw b.parent).1 b.names in
            let s = (is_or_absent_iff b.parent.section_name l.name).1 b.section in
            let a = In-any test parents b.parent b.member (ground (arith, n, s)) in
            let o = (hostnames_intersect_iff hostnames host).1 b.overlap in
            loop ∙ ground (arith, a, o),
      )

-- The parent by which a route of a port is published at a listener.
pub record SelectsListener (route_namespace : String) (gw : Gateway) (l : Listener)
    (parents : List ParentRef) : Type 0 where
  pub parent : ParentRef
  pub member : In parent parents
  pub name_is : parent.name ≡ gw.name
  pub namespace_is : get_or parent.namespace route_namespace ≡ gw.namespace
  pub section : SelectsSection l parent

pub parent_refs_select_listener_iff :
    (ns : String) (gw : Gateway) (l : Listener) (parents : List ParentRef)
    → (parent_refs_select_listener ns gw l parents ≡ true) ↔ SelectsListener ns gw l parents
unfolding parent_refs_select_listener
parent_refs_select_listener_iff ns gw l parents =
    let test : ParentRef → Bool = λ (p : ParentRef).
      p.name == gw.name
      && get_or p.namespace ns == gw.namespace
      && is_or_absent p.section_name l.name in
    (
      λ h.
          let (p, i, m) = any-In test parents h in
          record {
            parent = p;
            member = i;
            name_is = (eq_iff p.name gw.name).0 (ground (arith, m));
            namespace_is = (eq_iff (get_or p.namespace ns) gw.namespace).0 (ground (arith, m));
            section = (is_or_absent_iff p.section_name l.name).0 (ground (arith, m));
          },
      λ s.
          let a = (eq_iff s.parent.name gw.name).1 s.name_is in
          let b = (eq_iff (get_or s.parent.namespace ns) gw.namespace).1 s.namespace_is in
          let c = (is_or_absent_iff s.parent.section_name l.name).1 s.section in
          In-any test parents s.parent s.member (ground (arith, a, b, c)),
    )

own_namespace : (o : Option String) (ns gw : String) → get_or o ns ≡ gw → (o ≡ none) ⊎ (o ≡ some gw)
own_namespace none ns gw e = inl refl
own_namespace (some m) ns gw e = inr (ap some e)

-- A route that binds to a listener is attached to the gateway.
pub Binds-attached :
    (gw : Gateway) (l : Listener) (hostnames : List String) (host : String)
    (parents : List ParentRef)
    → Binds gw l hostnames host parents
    → is_attached_to_gateway gw parents ≡ true
unfolding is_attached_to_gateway
Binds-attached gw l hostnames host parents b =
    In-any (names_gateway gw) parents b.parent b.member ((names_gateway_iff gw b.parent).1 b.names)

pub SelectsListener-attached :
    (ns : String) (gw : Gateway) (l : Listener) (parents : List ParentRef)
    → SelectsListener ns gw l parents
    → is_attached_to_gateway gw parents ≡ true
unfolding is_attached_to_gateway
SelectsListener-attached ns gw l parents s = In-any (names_gateway gw) parents s.parent s.member (
    (names_gateway_iff gw s.parent).1
      (s.name_is, own_namespace s.parent.namespace ns gw.namespace s.namespace_is))
