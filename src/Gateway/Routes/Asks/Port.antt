-- ===== src/Gateway/Routes/Asks/Port.antt =====
-- What TCPRoutes, TLSRoutes and UDPRoutes ask for, in internal/controller/weftgateway/reconciler.go.
use weft_operator.Prelude.{
  ℕ, String, Option, none, some, ◌≡◌, refl, sym, ap, ◌∙◌, ◌↔◌, ◌⊎◌, inl, inr, List, flat_map,
  get_or, In, flat_map-In, In-flat_map, if-In, Bool-cases, eq_iff, ◌==◌,
}
use weft_operator.Prelude.Text.{◌<>◌}
use weft_operator.Gateway.{
  BackendRef, PortRoute, RouteKind, tcp_route, tls_route, udp_route, Listener, Gateway, Library,
}
use weft_operator.Gateway.Attach.{is_attached_to_gateway, parent_refs_select_listener}
use weft_operator.Gateway.Attach.Meaning.{
  SelectsListener, parent_refs_select_listener_iff, SelectsListener-attached,
}
use weft_operator.Gateway.Routes.{
  Wanted, backend_url, kind_scheme, kind_port, kind_protocol, kind_destination, port_destinations,
  port_backend, port_rule, port_route, port_tunnels,
}
use weft_operator.Gateway.Routes.Asks.{IsService, tunnel_to, from_backend, to_backend}

module _ (lib : Library) (gw : Gateway) where
  -- What the kinds of routes differ in: the scheme and the default port of a backend, the protocol of
  -- the listener, and the destination there.
  abbrev pub KindOf : RouteKind → String → ℕ → String → Type 0
  KindOf tcp_route scheme port protocol = (scheme ≡ "tcp") × (port ≡ 0) × (protocol ≡ "TCP")
  KindOf tls_route scheme port protocol = (scheme ≡ "https") × (port ≡ 443) × (protocol ≡ "TLS")
  KindOf udp_route scheme port protocol = (scheme ≡ "udp") × (port ≡ 0) × (protocol ≡ "UDP")

  abbrev pub Reaches : RouteKind → Listener → String → Type 0
  Reaches tcp_route l dst =
      ((l.hostname ≡ none) × (dst ≡ "tcp://:" <> lib.itoa l.port))
      ⊎ ((host : String) × (l.hostname ≡ some host)
          × (dst ≡ "tcp://" <> host <> ":" <> lib.itoa l.port))
  Reaches tls_route l dst = (host : String) × (l.hostname ≡ some host) × (dst ≡ "https://" <> host)
  Reaches udp_route l dst =
      ((l.hostname ≡ none) × (dst ≡ "udp://:" <> lib.itoa l.port))
      ⊎ ((host : String) × (l.hostname ≡ some host)
          × (dst ≡ "udp://" <> host <> ":" <> lib.itoa l.port))

  -- A route of a port asks for a tunnel from a Service of one of its rules to a listener of its protocol
  -- that a parent selects.
  pub record AsksPort (kind : RouteKind) (routes : List PortRoute) (w : Wanted) : Type 0 where
    pub route : PortRoute
    pub route_in : In route routes
    pub rule : List BackendRef
    pub rule_in : In rule route.rules
    pub backend : BackendRef
    pub backend_in : In backend rule
    pub service : IsService backend
    pub scheme : String
    pub port : ℕ
    pub protocol : String
    pub kind_is : KindOf kind scheme port protocol
    pub listener : Listener
    pub listener_in : In listener gw.listeners
    pub protocol_is : listener.protocol ≡ protocol
    pub selects : SelectsListener route.namespace gw listener route.parent_refs
    pub destination : String
    pub reaches : Reaches kind listener destination
    pub wanted_is : w ≡ record {
      route = route.name;
      src_url =
          scheme
          <> "://"
          <> backend.name
          <> "."
          <> get_or backend.namespace route.namespace
          <> ".svc:"
          <> lib.itoa (get_or backend.port port);
      dst_url = destination;
    }

  kind-KindOf :
      (kind : RouteKind)
      → KindOf kind (kind_scheme lib gw kind) (kind_port lib gw kind) (kind_protocol lib gw kind)
  unfolding kind_scheme kind_port kind_protocol
  kind-KindOf tcp_route = (refl, refl, refl)
  kind-KindOf tls_route = (refl, refl, refl)
  kind-KindOf udp_route = (refl, refl, refl)

  KindOf-kind :
      (kind : RouteKind) (scheme : String) (port : ℕ) (protocol : String)
      → KindOf kind scheme port protocol
      → (kind_scheme lib gw kind ≡ scheme)
        × (kind_port lib gw kind ≡ port)
        × (kind_protocol lib gw kind ≡ protocol)
  unfolding kind_scheme kind_port kind_protocol
  KindOf-kind tcp_route scheme port protocol (a, b, c) = (sym a, sym b, sym c)
  KindOf-kind tls_route scheme port protocol (a, b, c) = (sym a, sym b, sym c)
  KindOf-kind udp_route scheme port protocol (a, b, c) = (sym a, sym b, sym c)

  tcp_route_destination :
      (l : Listener) (dst : String) (o : Option String)
      → l.hostname ≡ o
      → In dst (kind_destination lib gw tcp_route l o) ↔ Reaches tcp_route l dst
  unfolding kind_destination
  tcp_route_destination l dst none e = (
    λ m. elim m [ inl q ↦ inl (e, q) | inr k ↦ absurd k ],
    λ r. elim r [ inl p ↦ inl (p.1) | inr (host, x, q) ↦ let k = sym e ∙ x in cc k ],
  )
  tcp_route_destination l dst (some host) e = (
    λ m. elim m [ inl q ↦ inr (host, e, q) | inr k ↦ absurd k ],
    λ r. elim r [
      | inl p ↦ let k = sym e ∙ p.0 in cc k
      | inr (other, x, q) ↦
          let same : other ≡ host = let k = sym x ∙ e in cc k in
          inl (q ∙ ap (λ h. "tcp://" <> h <> ":" <> lib.itoa l.port) same)
    ],
  )

  udp_route_destination :
      (l : Listener) (dst : String) (o : Option String)
      → l.hostname ≡ o
      → In dst (kind_destination lib gw udp_route l o) ↔ Reaches udp_route l dst
  unfolding kind_destination
  udp_route_destination l dst none e = (
    λ m. elim m [ inl q ↦ inl (e, q) | inr k ↦ absurd k ],
    λ r. elim r [ inl p ↦ inl (p.1) | inr (host, x, q) ↦ let k = sym e ∙ x in cc k ],
  )
  udp_route_destination l dst (some host) e = (
    λ m. elim m [ inl q ↦ inr (host, e, q) | inr k ↦ absurd k ],
    λ r. elim r [
      | inl p ↦ let k = sym e ∙ p.0 in cc k
      | inr (other, x, q) ↦
          let same : other ≡ host = let k = sym x ∙ e in cc k in
          inl (q ∙ ap (λ h. "udp://" <> h <> ":" <> lib.itoa l.port) same)
    ],
  )

  tls_route_destination :
      (l : Listener) (dst : String) (o : Option String)
      → l.hostname ≡ o
      → In dst (kind_destination lib gw tls_route l o) ↔ Reaches tls_route l dst
  unfolding kind_destination
  tls_route_destination l dst none e = (λ m. absurd m, λ (host, x, q). let k = sym e ∙ x in cc k)
  tls_route_destination l dst (some host) e = (
    λ m. elim m [ inl q ↦ (host, e, q) | inr k ↦ absurd k ],
    λ (other, x, q).
        let same : other ≡ host = let k = sym x ∙ e in cc k in
        inl (q ∙ ap (λ h. "https://" <> h) same),
  )

  destination_iff :
      (kind : RouteKind) (l : Listener) (dst : String)
      → In dst (kind_destination lib gw kind l l.hostname) ↔ Reaches kind l dst
  destination_iff tcp_route l dst = tcp_route_destination l dst l.hostname refl
  destination_iff tls_route l dst = tls_route_destination l dst l.hostname refl
  destination_iff udp_route l dst = udp_route_destination l dst l.hostname refl

  port_destinations_iff :
      (kind : RouteKind) (route : PortRoute) (l : Listener) (dst : String)
      → In dst (port_destinations lib gw kind route l) ↔ (
          (l.protocol ≡ kind_protocol lib gw kind)
          × SelectsListener route.namespace gw l route.parent_refs
          × Reaches kind l dst)
  unfolding port_destinations
  port_destinations_iff kind route l dst =
      let p = eq_iff l.protocol (kind_protocol lib gw kind) in
      let q = parent_refs_select_listener_iff route.namespace gw l route.parent_refs in
      let d = destination_iff kind l dst in
      elim (Bool-cases (l.protocol == kind_protocol lib gw kind)) [
        | inr a ↦ (λ m. absurd (rw a at m), λ (x, y, z). let k = p.1 x in cc (a, k))
        | inl a ↦
            elim (Bool-cases (parent_refs_select_listener route.namespace gw l route.parent_refs)) [
              | inr b ↦ (λ m. absurd (rw (a, b) at m), λ (x, y, z). let k = q.1 y in cc (b, k))
              | inl b ↦ (λ m. (p.0 a, q.0 b, d.0 (rw (a, b) at m)), λ (x, y, z). rw (a, b) (d.1 z))
            ]
      ]

  pub port_tunnels_asked :
      (kind : RouteKind) (routes : List PortRoute) (w : Wanted)
      → In w (port_tunnels lib gw kind routes)
      → AsksPort kind routes w
  unfolding port_tunnels port_route port_rule port_backend backend_url
  port_tunnels_asked kind routes w m =
      let (route, i, m1) = flat_map-In (port_route lib gw kind) w routes m in
      let (a, m2) =
        (if-In (is_attached_to_gateway gw route.parent_refs) w
            (flat_map (port_rule lib gw kind route) route.rules)).0
          m1 in
      let (rule, j, m3) = flat_map-In (port_rule lib gw kind route) w route.rules m2 in
      let (b, k, m4) = flat_map-In (port_backend lib gw kind route) w rule m3 in
      let src =
        backend_url lib (kind_scheme lib gw kind) route.namespace (kind_port lib gw kind) b in
      let (service, (dst, n, q)) = from_backend b (tunnel_to route.name src) _ w m4 in
      let (l, p, m6) = flat_map-In (port_destinations lib gw kind route) dst gw.listeners n in
      let (protocol_is, selects, reaches) = (port_destinations_iff kind route l dst).0 m6 in
      record {
        route = route;
        route_in = i;
        rule = rule;
        rule_in = j;
        backend = b;
        backend_in = k;
        service = service;
        scheme = kind_scheme lib gw kind;
        port = kind_port lib gw kind;
        protocol = kind_protocol lib gw kind;
        kind_is = kind-KindOf kind;
        listener = l;
        listener_in = p;
        protocol_is = protocol_is;
        selects = selects;
        destination = dst;
        reaches = reaches;
        wanted_is = sym q;
      }

  pub asked-port_tunnels :
      (kind : RouteKind) (routes : List PortRoute) (w : Wanted)
      → AsksPort kind routes w
      → In w (port_tunnels lib gw kind routes)
  unfolding port_tunnels port_route port_rule port_backend backend_url
  asked-port_tunnels kind routes w a =
      let (e, f, g) = KindOf-kind kind a.scheme a.port a.protocol a.kind_is in
      let n =
        (port_destinations_iff kind a.route a.listener a.destination).1
          (a.protocol_is ∙ sym g, a.selects, a.reaches) in
      let m =
        In-flat_map (port_destinations lib gw kind a.route) a.destination a.listener gw.listeners
          a.listener_in n in
      let from : String → ℕ → Wanted = λ scheme port.
        tunnel_to a.route.name (backend_url lib scheme a.route.namespace port a.backend)
          a.destination in
      let same =
        a.wanted_is
        ∙ ap (λ x. from x a.port) (sym e)
        ∙ ap (from (kind_scheme lib gw kind)) (sym f) in
      let src =
        backend_url lib (kind_scheme lib gw kind) a.route.namespace (kind_port lib gw kind)
          a.backend in
      let b =
        to_backend a.backend (tunnel_to a.route.name src) _ w a.destination a.service m same in
      let c = In-flat_map (port_backend lib gw kind a.route) w a.backend a.rule a.backend_in b in
      let d = In-flat_map (port_rule lib gw kind a.route) w a.rule a.route.rules a.rule_in c in
      In-flat_map (port_route lib gw kind) w a.route routes a.route_in (
        (if-In (is_attached_to_gateway gw a.route.parent_refs) w _).1 (
          SelectsListener-attached a.route.namespace gw a.listener a.route.parent_refs a.selects,
          d,
        ))
