-- ===== src/Gateway/Routes.antt =====
-- The tunnels that the routes of a gateway come to: the loops of `Reconcile` over HTTPRoutes, TCPRoutes,
-- TLSRoutes and UDPRoutes in internal/controller/weftgateway/reconciler.go. The loops compute the source
-- and the destination of each tunnel from the routes and the listeners alone, so they are the list
-- of the tunnels in the order of the calls; the calls are in Gateway/Reconcile.
pub mod Asks
use weft_operator.Prelude.{
  ℕ, String, Option, none, some, Bool, not, ◌||◌, List, [], ◌∷◌, ◌++◌, map, flat_map, is_empty,
  get_or, ◌==◌, if◌then◌else◌,
}
use weft_operator.Prelude.Text.{◌<>◌, join, first_bytes}
use weft_operator.Gateway.{
  BackendRef, Header, HeaderModifier, Filter, HttpRule, HttpRoute, PortRoute, RouteKind, tcp_route,
  tls_route, udp_route, Listener, Gateway, Library,
}
use weft_operator.Gateway.Attach.{
  is_attached_to_gateway, is_attached_to_listener, parent_refs_select_listener,
}

-- A tunnel that a route asks for.
pub record Wanted : Type 0 where
  pub route : String
  pub src_url : String
  pub dst_url : String

-- `kind`: only Services are backends.
unfoldable pub is_service : BackendRef → Bool
is_service b = get_or b.kind "Service" == "Service"

module _ (lib : Library) where
  unfoldable pub escape_fragment_value : String → String
  escape_fragment_value v = lib.path_escape v

  unfoldable pub modifier_parts : HeaderModifier → List String
  modifier_parts m =
      map (λ (h : Header). h.name <> "=" <> escape_fragment_value h.value) m.set
      ++ (map (λ (h : Header). h.name <> "=+" <> escape_fragment_value h.value) m.add
          ++ map (λ n. n <> "=!del") m.remove)

  abbrev pub optional_parts : Option HeaderModifier → List String
  optional_parts none = []
  optional_parts (some m) = modifier_parts m

  unfoldable pub filter_parts : Filter → List String
  filter_parts f =
      if f.type == "RequestHeaderModifier" then optional_parts f.request_header_modifier else []

  unfoldable pub http_filters_to_fragment : List Filter → String
  http_filters_to_fragment filters =
      let parts = flat_map filter_parts filters in
      if is_empty parts then "" else "/#" <> join "&" parts

  -- The URL of a backend in the cluster: its namespace is the route's, its port the given one, unless
  -- it has its own.
  unfoldable pub backend_url : String → String → ℕ → BackendRef → String
  backend_url scheme route_namespace port b =
      scheme
      <> "://"
      <> b.name
      <> "."
      <> get_or b.namespace route_namespace
      <> ".svc:"
      <> lib.itoa (get_or b.port port)

  -- The destinations of a rule at a listener.
  unfoldable pub match_urls : String → List (Option String) → List String
  match_urls base matches = map (λ (p : Option String). lib.join_path base (get_or p "/")) matches

  unfoldable pub http_base : Listener → String → String
  http_base l host = (if l.protocol == "HTTPS" then "https" else "http") <> "://" <> host

  module _ (gw : Gateway) where
    abbrev pub http_destinations_at : HttpRoute → HttpRule → Listener → Option String → List String
    http_destinations_at route rule l none = []
    http_destinations_at route rule l (some host) =
        if is_attached_to_listener gw l route.hostnames route.parent_refs
        then match_urls (http_base l host) rule.matches
        else []

    unfoldable pub http_destinations : HttpRoute → HttpRule → Listener → List String
    http_destinations route rule l = http_destinations_at route rule l l.hostname

    unfoldable pub http_backend : HttpRoute → HttpRule → BackendRef → List Wanted
    http_backend route rule b =
        let src =
          backend_url "http" route.namespace 80 b <> http_filters_to_fragment rule.filters in
        if is_service b
        then map (λ dst. record { route = route.name; src_url = src; dst_url = dst })
            (flat_map (http_destinations route rule) gw.listeners)
        else []

    unfoldable pub http_rule : HttpRoute → HttpRule → List Wanted
    http_rule route rule = flat_map (http_backend route rule) rule.backend_refs

    unfoldable pub http_route : HttpRoute → List Wanted
    http_route route =
        if is_attached_to_gateway gw route.parent_refs
        then flat_map (http_rule route) route.rules
        else []

    unfoldable pub http_tunnels : List HttpRoute → List Wanted
    http_tunnels routes = flat_map http_route routes

    -- The scheme, the default port and the listener protocol of a kind of route.
    unfoldable pub kind_scheme : RouteKind → String
    kind_scheme tcp_route = "tcp"
    kind_scheme tls_route = "https"
    kind_scheme udp_route = "udp"

    unfoldable pub kind_port : RouteKind → ℕ
    kind_port tcp_route = 0
    kind_port tls_route = 443
    kind_port udp_route = 0

    unfoldable pub kind_protocol : RouteKind → String
    kind_protocol tcp_route = "TCP"
    kind_protocol tls_route = "TLS"
    kind_protocol udp_route = "UDP"

    -- The destination at a listener: TCP and UDP name the port, and the host if there is one; TLS
    -- wants a host.
    unfoldable pub kind_destination : RouteKind → Listener → Option String → List String
    kind_destination tcp_route l none = ("tcp://:" <> lib.itoa l.port) ∷ []
    kind_destination tcp_route l (some host) = ("tcp://" <> host <> ":" <> lib.itoa l.port) ∷ []
    kind_destination tls_route l none = []
    kind_destination tls_route l (some host) = ("https://" <> host) ∷ []
    kind_destination udp_route l none = ("udp://:" <> lib.itoa l.port) ∷ []
    kind_destination udp_route l (some host) = ("udp://" <> host <> ":" <> lib.itoa l.port) ∷ []

    module _ (kind : RouteKind) where
      unfoldable pub port_destinations : PortRoute → Listener → List String
      port_destinations route l =
          if not (l.protocol == kind_protocol kind)
            || not (parent_refs_select_listener route.namespace gw l route.parent_refs)
          then []
          else kind_destination kind l l.hostname

      unfoldable pub port_backend : PortRoute → BackendRef → List Wanted
      port_backend route b =
          let src = backend_url (kind_scheme kind) route.namespace (kind_port kind) b in
          if is_service b
          then map (λ dst. record { route = route.name; src_url = src; dst_url = dst })
              (flat_map (port_destinations route) gw.listeners)
          else []

      unfoldable pub port_rule : PortRoute → List BackendRef → List Wanted
      port_rule route rule = flat_map (port_backend route) rule

      unfoldable pub port_route : PortRoute → List Wanted
      port_route route =
          if is_attached_to_gateway gw route.parent_refs
          then flat_map (port_rule route) route.rules
          else []

      unfoldable pub port_tunnels : List PortRoute → List Wanted
      port_tunnels routes = flat_map port_route routes

    -- The name of a tunnel: a hash of the gateway, the route and the destination.
    unfoldable pub tunnel_name : Wanted → String
    tunnel_name w =
        "gw-"
        <> gw.name
        <> "-"
        <> first_bytes 8 (lib.sha256_hex (gw.name <> "-" <> w.route <> "-" <> w.dst_url))
