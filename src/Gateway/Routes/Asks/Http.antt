-- ===== src/Gateway/Routes/Asks/Http.antt =====
-- What HTTPRoutes ask for, in internal/controller/weftgateway/reconciler.go.
use weft_operator.Prelude.{
  String, Option, none, some, ◌≡◌, sym, ap, ◌∙◌, subst, ◌↔◌, inl, inr, true, List, flat_map, get_or,
  In, In-map, map-In, flat_map-In, In-flat_map, if-In, Option-cases, ◌==◌, if◌then◌else◌,
}
use weft_operator.Prelude.Text.{◌<>◌}
use weft_operator.Gateway.{BackendRef, HttpRule, HttpRoute, Listener, Gateway, Library}
use weft_operator.Gateway.Attach.{is_attached_to_gateway, is_attached_to_listener}
use weft_operator.Gateway.Attach.Meaning.{Binds, is_attached_to_listener_iff, Binds-attached}
use weft_operator.Gateway.Routes.{
  Wanted, http_filters_to_fragment, backend_url, match_urls, http_base, http_destinations_at,
  http_destinations, http_backend, http_rule, http_route, http_tunnels,
}
use weft_operator.Gateway.Routes.Asks.{IsService, tunnel_to, from_backend, to_backend}

module _ (lib : Library) (gw : Gateway) where
  -- An HTTPRoute asks for a tunnel from a Service of one of its rules to a match of the rule on the host of a
  -- listener that a parent binds it to.
  pub record AsksHttp (routes : List HttpRoute) (w : Wanted) : Type 0 where
    pub route : HttpRoute
    pub route_in : In route routes
    pub rule : HttpRule
    pub rule_in : In rule route.rules
    pub backend : BackendRef
    pub backend_in : In backend rule.backend_refs
    pub service : IsService backend
    pub listener : Listener
    pub listener_in : In listener gw.listeners
    pub host : String
    pub host_is : listener.hostname ≡ some host
    pub binds : Binds gw listener route.hostnames host route.parent_refs
    pub path : Option String
    pub path_in : In path rule.matches
    pub wanted_is : w ≡ record {
      route = route.name;
      src_url =
          ("http"
            <> "://"
            <> backend.name
            <> "."
            <> get_or backend.namespace route.namespace
            <> ".svc:"
            <> lib.itoa (get_or backend.port 80))
          <> http_filters_to_fragment lib rule.filters;
      dst_url =
          lib.join_path
            ((if listener.protocol == "HTTPS" then "https" else "http") <> "://" <> host)
            (get_or path "/");
    }

  http_destinations-In :
      (route : HttpRoute) (rule : HttpRule) (l : Listener) (dst host : String)
      → l.hostname ≡ some host
      → In dst (http_destinations lib gw route rule l) ↔ (
          (is_attached_to_listener gw l route.hostnames route.parent_refs ≡ true)
          × In dst (match_urls lib (http_base lib l host) rule.matches))
  unfolding http_destinations
  http_destinations-In route rule l dst host e =
      subst
        (λ o. In dst (http_destinations_at lib gw route rule l o) ↔ (
          (is_attached_to_listener gw l route.hostnames route.parent_refs ≡ true)
          × In dst (match_urls lib (http_base lib l host) rule.matches)))
        (sym e)
        (if-In (is_attached_to_listener gw l route.hostnames route.parent_refs) dst
          (match_urls lib (http_base lib l host) rule.matches))

  no_destinations :
      (route : HttpRoute) (rule : HttpRule) (l : Listener) (dst : String)
      → l.hostname ≡ none
      → ¬ In dst (http_destinations lib gw route rule l)
  unfolding http_destinations
  no_destinations route rule l dst e m =
      subst (λ o. In dst (http_destinations_at lib gw route rule l o)) e m

  pub http_tunnels_asked :
      (routes : List HttpRoute) (w : Wanted) → In w (http_tunnels lib gw routes) → AsksHttp routes w
  unfolding http_tunnels http_route http_rule http_backend match_urls http_base backend_url
  http_tunnels_asked routes w m =
      let (route, i, m1) = flat_map-In (http_route lib gw) w routes m in
      let (a, m2) =
        (if-In (is_attached_to_gateway gw route.parent_refs) w
            (flat_map (http_rule lib gw route) route.rules)).0
          m1 in
      let (rule, j, m3) = flat_map-In (http_rule lib gw route) w route.rules m2 in
      let (b, k, m4) = flat_map-In (http_backend lib gw route rule) w rule.backend_refs m3 in
      let src =
        backend_url lib "http" route.namespace 80 b <> http_filters_to_fragment lib rule.filters in
      let (service, (dst, n, q)) = from_backend b (tunnel_to route.name src) _ w m4 in
      let (l, p, m6) = flat_map-In (http_destinations lib gw route rule) dst gw.listeners n in
      elim (Option-cases l.hostname) [
        | inl e ↦ absurd (no_destinations route rule l dst e m6)
        | inr (host, e) ↦
            let (t, m7) = (http_destinations-In route rule l dst host e).0 m6 in
            let (path, r, u) =
              In-map (λ (o : Option String). lib.join_path (http_base lib l host) (get_or o "/"))
                dst rule.matches m7 in
            record {
              route = route;
              route_in = i;
              rule = rule;
              rule_in = j;
              backend = b;
              backend_in = k;
              service = service;
              listener = l;
              listener_in = p;
              host = host;
              host_is = e;
              binds =
                  (is_attached_to_listener_iff gw l route.hostnames host route.parent_refs e).0 t;
              path = path;
              path_in = r;
              wanted_is = sym q ∙ ap (tunnel_to route.name src) (sym u);
            }
      ]

  pub asked-http_tunnels :
      (routes : List HttpRoute) (w : Wanted) → AsksHttp routes w → In w (http_tunnels lib gw routes)
  unfolding http_tunnels http_route http_rule http_backend match_urls http_base backend_url
  asked-http_tunnels routes w a =
      let to : String → String = λ host.
        lib.join_path
          ((if a.listener.protocol == "HTTPS" then "https" else "http") <> "://" <> host)
          (get_or a.path "/") in
      let dst = to a.host in
      let t =
        (is_attached_to_listener_iff gw a.listener a.route.hostnames a.host a.route.parent_refs
            a.host_is).1
          a.binds in
      let n = (http_destinations-In a.route a.rule a.listener dst a.host a.host_is).1 (
        t,
        map-In
            (λ (o : Option String). lib.join_path (http_base lib a.listener a.host) (get_or o "/"))
            a.path a.rule.matches a.path_in,
      ) in
      let m =
        In-flat_map (http_destinations lib gw a.route a.rule) dst a.listener gw.listeners
          a.listener_in n in
      let src =
        backend_url lib "http" a.route.namespace 80 a.backend
        <> http_filters_to_fragment lib a.rule.filters in
      let b = to_backend a.backend (tunnel_to a.route.name src) _ w dst a.service m a.wanted_is in
      let c =
        In-flat_map (http_backend lib gw a.route a.rule) w a.backend a.rule.backend_refs
          a.backend_in b in
      let d = In-flat_map (http_rule lib gw a.route) w a.rule a.route.rules a.rule_in c in
      In-flat_map (http_route lib gw) w a.route routes a.route_in (
        (if-In (is_attached_to_gateway gw a.route.parent_refs) w _).1
          (Binds-attached gw a.listener a.route.hostnames a.host a.route.parent_refs a.binds, d))
