-- ===== src/Gateway/Reconcile/Plan.antt =====
-- The tunnels that the stages of the gateway's `Reconcile` write, from the state in which a pass begins.
use weft_operator.Prelude.{
  String, Option, none, ◌≡◌, refl, sym, ap, ◌∙◌, subst, inl, inr, Bool-cases, List, [], ◌++◌, map,
  append-nil, if◌then◌else◌,
}
use mathlib.Core.List.{map-append}
use weft_operator.Kube.{Answer, ok, err, Answer-cases, KubeError}
use weft_operator.Kube.Store.{write_all}
use weft_operator.Kube.Store.Written.{or_else_lem, write_all-append, write_all_keeps_value}
use weft_operator.Gateway.{
  HttpRoute, PortRoute, RouteKind, tcp_route, tls_route, udp_route, Gateway, Api,
}
use weft_operator.Gateway.Routes.{Wanted, http_tunnels, port_tunnels, tunnel_name}
use weft_operator.Gateway.Laws.{ApiServer}
use weft_operator.Gateway.Reconcile.{
  Progress, Setup, tunnel_write, publish, http_stage, port_stage, write_stages,
}

module _ (setup : Setup) {S : Type 0} (api : Api S) (gw : Gateway) where
  abbrev pub port_wanted_of : RouteKind → Answer KubeError (List PortRoute) → List Wanted
  port_wanted_of kind (err e) = []
  port_wanted_of kind (ok routes) = port_tunnels setup.lib gw kind routes

  -- The tunnels of the routes of a kind, none for a missing kind or a failed list.
  unfoldable pub port_wanted : RouteKind → S → List Wanted
  port_wanted kind s =
      if setup.missing kind
      then []
      else port_wanted_of kind (api.list_port_routes kind s gw.namespace)

  unfoldable pub wanted : List HttpRoute → S → List Wanted
  wanted routes s =
      ((http_tunnels setup.lib gw routes ++ port_wanted tcp_route s) ++ port_wanted tls_route s)
      ++ port_wanted udp_route s

module _ (setup : Setup) {S : Type 0} (api : Api S) (server : ApiServer api) (gw : Gateway)
    (target_servers : List String) where
  -- The calls for these tunnels led to the state, and the map has their names.
  pub record HasRun (s : S) (ws : List Wanted) (p : Progress S) : Type 0 where
    pub wrote :
        write_all api.tunnels gw.namespace (map (tunnel_write setup api gw target_servers) ws) s
        ≡ (none, p.state)
    pub names : p.expected ≡ map (tunnel_name setup.lib gw) ws

  publish-HasRun :
      (s : S) (ws xs : List Wanted) (p p' : Progress S)
      → HasRun s ws p
      → publish setup api gw target_servers xs p ≡ (none, p')
      → HasRun s (ws ++ xs) p'
  unfolding publish
  publish-HasRun s ws xs p p' r h =
      let write = tunnel_write setup api gw target_servers in
      let e = ap (λ (q : Option KubeError × Progress S). q.0) h in
      let k = ap (λ (q : Option KubeError × Progress S). q.1) h in
      record {
        wrote =
            ap (λ ys. write_all api.tunnels gw.namespace ys s) (map-append write ws xs)
            ∙ write_all-append api.tunnels gw.namespace (map write ws) (map write xs) s p.state
                p'.state r.wrote
                (ap (λ x. (x, (write_all api.tunnels gw.namespace (map write xs) p.state).1)) e
                  ∙ ap (λ (q : Progress S). (none, q.state)) k);
        names =
            sym (ap (λ (q : Progress S). q.expected) k)
            ∙ ap (λ ns. ns ++ map (tunnel_name setup.lib gw) xs) r.names
            ∙ sym (map-append (tunnel_name setup.lib gw) ws xs);
      }

  -- The calls leave the plan alone.
  port_wanted_kept :
      (kind : RouteKind) (s : S) (ws : List Wanted) (p : Progress S)
      → HasRun s ws p
      → port_wanted setup api gw kind p.state ≡ port_wanted setup api gw kind s
  unfolding port_wanted
  port_wanted_kept kind s ws p r =
      ap (λ a. if setup.missing kind then [] else port_wanted_of setup api gw kind a)
        (write_all_keeps_value api.tunnels gw.namespace
          (λ x. api.list_port_routes kind x gw.namespace)
          (λ x y name f h. server.routes_kept x y gw.namespace name f kind gw.namespace h)
          (map (tunnel_write setup api gw target_servers) ws) s p.state r.wrote)

  no_more :
      (s : S) (ws : List Wanted) (p p' : Progress S)
      → HasRun s ws p
      → ◌≡◌ {A = Option KubeError × Progress S} (none, p) (none, p')
      → HasRun s (ws ++ []) p'
  no_more s ws p p' r h =
      subst (λ x. HasRun s x p') (sym (append-nil ws))
        (subst (λ x. HasRun s ws x) (ap (λ (q : Option KubeError × Progress S). q.1) h) r)

  port_stage_now :
      (kind : RouteKind) (s : S) (ws : List Wanted) (p p' : Progress S)
      → HasRun s ws p
      → port_stage setup api gw target_servers kind p ≡ (none, p')
      → HasRun s (ws ++ port_wanted setup api gw kind p.state) p'
  unfolding port_stage port_wanted
  port_stage_now kind s ws p p' r h = elim (Bool-cases (setup.missing kind)) [
    | inl m ↦ rw m (no_more s ws p p' r (rw m at h))
    | inr m ↦ elim (Answer-cases (api.list_port_routes kind p.state gw.namespace)) [
      | inl (routes, e) ↦
          rw (m, e)
            (publish-HasRun s ws (port_tunnels setup.lib gw kind routes) p p' r (rw (m, e) at h))
      | inr (x, e) ↦ rw (m, e) (no_more s ws p p' r (rw (m, e) at h))
    ]
  ]

  port_stage-HasRun :
      (kind : RouteKind) (s : S) (ws : List Wanted) (p p' : Progress S)
      → HasRun s ws p
      → port_stage setup api gw target_servers kind p ≡ (none, p')
      → HasRun s (ws ++ port_wanted setup api gw kind s) p'
  port_stage-HasRun kind s ws p p' r h =
      subst (λ xs. HasRun s (ws ++ xs) p') (port_wanted_kept kind s ws p r)
        (port_stage_now kind s ws p p' r h)

  http_stage-HasRun :
      (routes : List HttpRoute) (s : S) (p' : Progress S)
      → api.list_http_routes s ≡ ok routes
      → http_stage setup api gw target_servers (record { expected = []; state = s }) ≡ (none, p')
      → HasRun s (http_tunnels setup.lib gw routes) p'
  unfolding http_stage write_all
  http_stage-HasRun routes s p' e h =
      publish-HasRun s [] (http_tunnels setup.lib gw routes) (record { expected = []; state = s })
        p' (record { wrote = refl; names = refl }) (rw (e, http_stage) at h)

  pub write_stages-HasRun :
      (routes : List HttpRoute) (s : S) (p' : Progress S)
      → api.list_http_routes s ≡ ok routes
      → write_stages setup api gw target_servers s ≡ (none, p')
      → HasRun s (wanted setup api gw routes s) p'
  unfolding write_stages wanted
  write_stages-HasRun routes s p' e h =
      let (c, i, hc) = or_else_lem _ (port_stage setup api gw target_servers udp_route) p' h in
      let (b, j, hb) = or_else_lem _ (port_stage setup api gw target_servers tls_route) c i in
      let (a, k, ha) = or_else_lem _ (port_stage setup api gw target_servers tcp_route) b j in
      port_stage-HasRun udp_route s _ c p'
        (port_stage-HasRun tls_route s _ b c
          (port_stage-HasRun tcp_route s _ a b (http_stage-HasRun routes s a e k) ha) hb)
        hc
