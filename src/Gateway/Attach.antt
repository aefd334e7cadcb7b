-- ===== src/Gateway/Attach.antt =====
-- Which listeners a route binds to: isRouteAttachedToGateway, isRouteAttachedToListener,
-- parentRefsSelectListener, hostnamesIntersect and hostnameMatches of
-- internal/controller/weftgateway/reconciler.go.
pub mod Hostnames
pub mod Enqueue
pub mod Meaning
use weft_operator.Prelude.{
  String, Option, none, some, Bool, true, false, not, ◌&&◌, ◌||◌, List, [], ◌∷◌, any, is_empty,
  get_or, ◌==◌, if◌then◌else◌, map,
}
use weft_operator.Prelude.Text.{has_prefix, has_suffix, trim_prefix}
use weft_operator.Kube.{Answer, ok, err}
use weft_operator.WeftTunnel.{Request}
use weft_operator.Gateway.{ParentRef, HttpRoute, Listener, Gateway, GatewayClass, Api}

abbrev pub controller_name : String
controller_name = "weft.aquaduct.dev/gateway-controller"

unfoldable pub hostname_matches : String → String → Bool
hostname_matches a b =
    a == b
    || (has_prefix a "*." && has_suffix b (trim_prefix a "*"))
    || (has_prefix b "*." && has_suffix a (trim_prefix b "*"))

unfoldable pub hostnames_intersect : List String → Option String → Bool
hostnames_intersect hostnames none = true
hostnames_intersect hostnames (some h) =
    h == "" || is_empty hostnames || any (λ r. hostname_matches r h) hostnames

-- An optional field that, if there, must have the value.
abbrev pub is_or_absent : Option String → String → Bool
is_or_absent none s = true
is_or_absent (some t) s = t == s

-- The parent names the gateway: its name, and its namespace if the parent has one.
unfoldable pub names_gateway : Gateway → ParentRef → Bool
names_gateway gw p = p.name == gw.name && is_or_absent p.namespace gw.namespace

-- isRouteAttachedToGateway, and its three copies for the other kinds of routes.
unfoldable pub is_attached_to_gateway : Gateway → List ParentRef → Bool
is_attached_to_gateway gw parents = any (names_gateway gw) parents

-- The loop of isRouteAttachedToListener: the first parent that passes decides.
unfoldable pub is_attached_to_listener : Gateway → Listener → List String → List ParentRef → Bool
is_attached_to_listener gw l hostnames [] = false
is_attached_to_listener gw l hostnames (p ∷ ps) =
    let rest = is_attached_to_listener gw l hostnames ps in
    if not (names_gateway gw p) || not (is_or_absent p.section_name l.name)
    then rest
    else hostnames_intersect hostnames l.hostname

unfoldable pub parent_refs_select_listener : String → Gateway → Listener → List ParentRef → Bool
parent_refs_select_listener route_namespace gw l parents =
    any
      (λ (p : ParentRef).
        p.name == gw.name
        && get_or p.namespace route_namespace == gw.namespace
        && is_or_absent p.section_name l.name)
      parents

-- findGatewaysFromParentRefs, which the four watches on routes call.
unfoldable pub find_gateways_from_parent_refs : String → List ParentRef → List Request
find_gateways_from_parent_refs route_namespace parents =
    map
      (λ (p : ParentRef). record { namespace = get_or p.namespace route_namespace; name = p.name })
      parents

module _ {S : Type 0} (api : Api S) where
  -- The gateways of the class that pass the loop of findGatewaysForClass.
  unfoldable pub gateways_of_class : String → List Gateway → List Request
  gateways_of_class class [] = []
  gateways_of_class class (g ∷ gs) =
      let rest = gateways_of_class class gs in
      if g.class_name == class
      then record { namespace = g.namespace; name = g.name } ∷ rest
      else rest

  unfoldable pub find_gateways_for_class : GatewayClass → S → List Request
  find_gateways_for_class class s =
      if not (class.controller_name == controller_name)
      then []
      else elim (api.list_gateways s) [ err e ↦ [] | ok gs ↦ gateways_of_class class.name gs ]

  -- Whether a class, by its name, is managed; what `classCache` remembers.
  unfoldable pub is_managed : S → String → Bool
  is_managed s class = elim (api.get_class s class) [
    | err e ↦ false
    | ok c ↦ c.controller_name == controller_name
  ]

  unfoldable pub managed_gateways : S → List Gateway → List Request
  managed_gateways s [] = []
  managed_gateways s (g ∷ gs) =
      let rest = managed_gateways s gs in
      if is_managed s g.class_name
      then record { namespace = g.namespace; name = g.name } ∷ rest
      else rest

  unfoldable pub find_gateways_for_aquaduct_taas : S → List Request
  find_gateways_for_aquaduct_taas s = elim (api.list_gateways s) [
    | err e ↦ []
    | ok gs ↦ managed_gateways s gs
  ]
