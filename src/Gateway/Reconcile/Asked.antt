-- ===== src/Gateway/Reconcile/Asked.antt =====
-- The tunnels that a pass of the gateway's `Reconcile` is asked for: by the HTTPRoutes, and by the routes
-- of each kind that is served and whose list succeeds.
use weft_operator.Prelude.{
  ◌≡◌, sym, subst, ◌⊎◌, inl, inr, false, Bool-cases, List, [], ◌++◌, In, In-append, In-append_left,
  In-append_right, if◌then◌else◌,
}
use weft_operator.Kube.{ok, Answer-cases}
use weft_operator.Gateway.{
  HttpRoute, PortRoute, RouteKind, tcp_route, tls_route, udp_route, Gateway, Api,
}
use weft_operator.Gateway.Routes.{Wanted, http_tunnels}
use weft_operator.Gateway.Routes.Asks.Http.{AsksHttp, http_tunnels_asked, asked-http_tunnels}
use weft_operator.Gateway.Routes.Asks.Port.{AsksPort, port_tunnels_asked, asked-port_tunnels}
use weft_operator.Gateway.Reconcile.{Setup}
use weft_operator.Gateway.Reconcile.Plan.{port_wanted_of, port_wanted, wanted}

module _ (setup : Setup) {S : Type 0} (api : Api S) (gw : Gateway) where
  pub record AsksServed (s : S) (w : Wanted) : Type 0 where
    pub kind : RouteKind
    pub routes : List PortRoute
    pub served : setup.missing kind ≡ false
    pub listed : api.list_port_routes kind s gw.namespace ≡ ok routes
    pub asks : AsksPort setup.lib gw kind routes w

  abbrev pub Asked : List HttpRoute → S → Wanted → Type 0
  Asked routes s w = AsksHttp setup.lib gw routes w ⊎ AsksServed s w

  port_wanted-AsksServed :
      (kind : RouteKind) (s : S) (w : Wanted)
      → In w (port_wanted setup api gw kind s)
      → AsksServed s w
  unfolding port_wanted
  port_wanted-AsksServed kind s w m = elim (Bool-cases (setup.missing kind)) [
    | inl a ↦ absurd (rw a at m)
    | inr a ↦ elim (Answer-cases (api.list_port_routes kind s gw.namespace)) [
      | inr (x, e) ↦ absurd (rw (a, e) at m)
      | inl (routes, e) ↦ record {
        kind = kind;
        routes = routes;
        served = a;
        listed = e;
        asks = port_tunnels_asked setup.lib gw kind routes w (rw (a, e) at m);
      }
    ]
  ]

  AsksServed-port_wanted :
      (s : S) (w : Wanted) (a : AsksServed s w) → In w (port_wanted setup api gw a.kind s)
  unfolding port_wanted
  AsksServed-port_wanted s w a =
      subst
        (λ b. In w (
          if b
          then []
          else port_wanted_of setup api gw a.kind (api.list_port_routes a.kind s gw.namespace)))
        (sym a.served)
        (subst (λ r. In w (port_wanted_of setup api gw a.kind r)) (sym a.listed)
          (asked-port_tunnels setup.lib gw a.kind a.routes w a.asks))

  pub wanted-Asked :
      (routes : List HttpRoute) (s : S) (w : Wanted)
      → In w (wanted setup api gw routes s)
      → Asked routes s w
  unfolding wanted
  wanted-Asked routes s w m =
      let http = http_tunnels setup.lib gw routes in
      let tcp = port_wanted setup api gw tcp_route s in
      let tls = port_wanted setup api gw tls_route s in
      let udp = port_wanted setup api gw udp_route s in
      elim (In-append w ((http ++ tcp) ++ tls) udp m) [
        | inr d ↦ inr (port_wanted-AsksServed udp_route s w d)
        | inl n ↦ elim (In-append w (http ++ tcp) tls n) [
          | inr c ↦ inr (port_wanted-AsksServed tls_route s w c)
          | inl o ↦ elim (In-append w http tcp o) [
            | inr b ↦ inr (port_wanted-AsksServed tcp_route s w b)
            | inl a ↦ inl (http_tunnels_asked setup.lib gw routes w a)
          ]
        ]
      ]

  pub Asked-wanted :
      (routes : List HttpRoute) (s : S) (w : Wanted)
      → Asked routes s w
      → In w (wanted setup api gw routes s)
  unfolding wanted
  Asked-wanted routes s w a =
      let http = http_tunnels setup.lib gw routes in
      let tcp = port_wanted setup api gw tcp_route s in
      let tls = port_wanted setup api gw tls_route s in
      let udp = port_wanted setup api gw udp_route s in
      let up : In w ((http ++ tcp) ++ tls) → In w (((http ++ tcp) ++ tls) ++ udp) =
        In-append_left w ((http ++ tcp) ++ tls) udp in
      let from_http : In w http → In w (((http ++ tcp) ++ tls) ++ udp) =
        λ m. up (In-append_left w (http ++ tcp) tls (In-append_left w http tcp m)) in
      let from_kind : (kind : RouteKind)
          → In w (port_wanted setup api gw kind s)
          → In w (((http ++ tcp) ++ tls) ++ udp) =
        λ kind.
          elim kind
            as (λ k. In w (port_wanted setup api gw k s) → In w (((http ++ tcp) ++ tls) ++ udp)) [
              | tcp_route ↦
                  λ m. up (In-append_left w (http ++ tcp) tls (In-append_right w http tcp m))
              | tls_route ↦ λ m. up (In-append_right w (http ++ tcp) tls m)
              | udp_route ↦ λ m. In-append_right w ((http ++ tcp) ++ tls) udp m
            ] in
      elim a [
        | inl h ↦ from_http (asked-http_tunnels setup.lib gw routes w h)
        | inr k ↦ from_kind k.kind (AsksServed-port_wanted s w k)
      ]
