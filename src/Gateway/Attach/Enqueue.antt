-- ===== src/Gateway/Attach/Enqueue.antt =====
-- The gateways that a route's change enqueues beside those that the route attaches to.
use weft_operator.Prelude.{
  any-In, In-any, String, Option, none, some, ◌≡◌, ◌≢◌, sym, ap, subst, ◌↔◌, inl, inr, true, ◌&&◌,
  List, [], ◌∷◌, map, get_or, ◌==◌, eq_iff, eq_refl, arith, In, In-map, map-In,
}
use weft_operator.WeftTunnel.{Request}
use weft_operator.Gateway.{ParentRef, Gateway, Listener}
use weft_operator.Gateway.Attach.{
  is_or_absent, names_gateway, is_attached_to_gateway, parent_refs_select_listener,
  find_gateways_from_parent_refs,
}

abbrev pub request_to : Gateway → Request
request_to gw = record { namespace = gw.namespace; name = gw.name }

-- The request of a parent, as `findGatewaysFromParentRefs` makes it.
abbrev request_of_parent : String → ParentRef → Request
request_of_parent ns p = record { namespace = get_or p.namespace ns; name = p.name }

-- A parent of a route in the gateway's namespace names the gateway exactly if its request is the
-- gateway's.
names_iff :
    (gw : Gateway) (p : ParentRef)
    → (names_gateway gw p ≡ true) ↔ (request_of_parent gw.namespace p ≡ request_to gw)
unfolding names_gateway
names_iff gw p = go p.namespace
  where
    go :
        (o : Option String)
        → ((p.name == gw.name && is_or_absent o gw.namespace) ≡ true) ↔ (
            ◌≡◌ {A = Request}
              (record { namespace = get_or o gw.namespace; name = p.name })
              (request_to gw))
    go none = (
      λ h.
          ap (λ n. record { namespace = gw.namespace; name = n })
            ((eq_iff p.name gw.name).0 (ground (arith, h))),
      λ e. let q = (eq_iff p.name gw.name).1 (ap (λ (r : Request). r.name) e) in ground (arith, q),
    )
    go (some ns) = (
      λ h.
          let n = (eq_iff p.name gw.name).0 (ground (arith, h)) in
          let m = (eq_iff ns gw.namespace).0 (ground (arith, h)) in cc (n, m),
      λ e.
          let q = (eq_iff p.name gw.name).1 (ap (λ (r : Request). r.name) e) in
          let r = (eq_iff ns gw.namespace).1 (ap (λ (r : Request). r.namespace) e) in
          ground (arith, q, r),
    )

-- A change of a route in the gateway's own namespace enqueues the gateway exactly if the route
-- attaches to it.
pub find_gateways-is_attached :
    (gw : Gateway) (parents : List ParentRef)
    → (is_attached_to_gateway gw parents ≡ true)
      ↔ In (request_to gw) (find_gateways_from_parent_refs gw.namespace parents)
unfolding is_attached_to_gateway find_gateways_from_parent_refs
find_gateways-is_attached gw parents = (
  λ h.
      let (p, i, e) = any-In (names_gateway gw) parents h in
      subst (λ r. In r (map (request_of_parent gw.namespace) parents)) ((names_iff gw p).0 e)
        (map-In (request_of_parent gw.namespace) p parents i),
  λ m.
      let (p, i, e) = In-map (request_of_parent gw.namespace) (request_to gw) parents m in
      In-any (names_gateway gw) parents p i ((names_iff gw p).1 e),
)

-- A route that selects a listener by its parents enqueues the listener's gateway, whatever its
-- namespace.
pub parent_refs_select_listener-find_gateways :
    (ns : String) (gw : Gateway) (l : Listener) (parents : List ParentRef)
    → parent_refs_select_listener ns gw l parents ≡ true
    → In (request_to gw) (find_gateways_from_parent_refs ns parents)
unfolding parent_refs_select_listener find_gateways_from_parent_refs
parent_refs_select_listener-find_gateways ns gw l parents h =
    let (p, i, e) =
      any-In
        (λ (p : ParentRef).
          p.name == gw.name
          && get_or p.namespace ns == gw.namespace
          && is_or_absent p.section_name l.name)
        parents h in
    let n = (eq_iff p.name gw.name).0 (ground (arith, e)) in
    let m = (eq_iff (get_or p.namespace ns) gw.namespace).0 (ground (arith, e)) in
    let same : request_of_parent ns p ≡ request_to gw = cc (n, m) in
    subst (λ r. In r (map (request_of_parent ns) parents)) same
      (map-In (request_of_parent ns) p parents i)

-- A route outside the gateway's namespace whose one parent has the gateway's name and no namespace
-- attaches to the gateway, although it refers to a gateway of its own namespace and its changes do
-- not enqueue this one.
pub is_attached_elsewhere :
    (ns : String) (gw : Gateway) (section : Option String)
    → ns ≢ gw.namespace
    → (is_attached_to_gateway gw
          (record { name = gw.name; namespace = none; section_name = section } ∷ [])
        ≡ true)
      × ¬ In (request_to gw) (
          find_gateways_from_parent_refs ns
            (record { name = gw.name; namespace = none; section_name = section } ∷ []))
unfolding is_attached_to_gateway find_gateways_from_parent_refs names_gateway
is_attached_elsewhere ns gw section n = (
  ground (arith, eq_refl gw.name),
  λ m. elim m [ inl e ↦ n (sym (ap (λ (r : Request). r.namespace) e)) | inr i ↦ i ],
)
