-- ===== src/Gateway/Reconcile.antt =====
-- `Reconcile` of internal/controller/weftgateway/reconciler.go, over an API server given as a parameter.
pub mod Plan
pub mod Asked
pub mod Converge
pub mod Deletion
use weft_operator.Prelude.{
  ℕ, String, Option, none, some, Bool, true, false, not, ◌&&◌, ◌||◌, List, [], ◌∷◌, ◌++◌, map,
  contains, any, ◌==◌, if◌then◌else◌,
}
use weft_operator.Prelude.Assoc.{Assoc}
use weft_operator.Kube.{
  Answer, ok, err, KubeError, Return, done, failed, ignore_not_found, Condition,
}
use weft_operator.Kube.Store.{Write, or_else, write_all}
use weft_operator.Resource.{Options, Outcome, resource}
use weft_operator.Gateway.{
  HttpRoute, PortRoute, RouteKind, tcp_route, tls_route, udp_route, Gateway, ParametersRef,
  GatewayClass, OwnedTunnel, Library, Api,
}
use weft_operator.Gateway.Attach.{controller_name}
use weft_operator.Gateway.Routes.{Wanted, http_tunnels, port_tunnels, tunnel_name}
use weft_operator.Gateway.Dns.{reconcile_dns_records, cleanup_dns_records}

abbrev pub dns_finalizer : String
dns_finalizer = "weft.aquaduct.dev/cleanup-dnsrecords"

unfoldable pub gateway_labels : Gateway → String → Assoc String
gateway_labels gw route =
    ("app", "weft-gateway-tunnel")
    ∷ ("gateway", gw.name)
    ∷ ("route", route)
    ∷ ("created-by", "weft-operator")
    ∷ []

-- The state of the cluster with the map `expectedTunnels`.
pub record Progress (S : Type 0) : Type 0 where
  pub expected : List String
  pub state : S

-- What a pass is configured with: the libraries, and `MissingRouteKinds`.
pub record Setup : Type 0 where
  pub lib : Library
  pub missing : RouteKind → Bool

-- A condition that holds.
abbrev pub holds : String → ℕ → String → String → Condition
holds type generation reason message = record {
  type = type;
  status = true;
  reason = reason;
  message = message;
  observed_generation = generation;
}

module _ (setup : Setup) {S : Type 0} (api : Api S) where
  module _ (gw : Gateway) (target_servers : List String) where
    -- The function that `CreateOrUpdate` applies.
    unfoldable pub own_tunnel : Wanted → OwnedTunnel → Answer KubeError OwnedTunnel
    own_tunnel w t = api.set_controller_reference gw (record t {
      target_servers = target_servers;
      src_url = w.src_url;
      dst_url = w.dst_url;
      labels = gateway_labels gw w.route;
    })

    abbrev pub tunnel_write : Wanted → Write OwnedTunnel
    tunnel_write w = record { name = tunnel_name setup.lib gw w; mutate = own_tunnel w }

    -- The calls for the tunnels of one kind of route.
    unfoldable pub publish : List Wanted → Progress S → Option KubeError × Progress S
    publish ws p =
        let (e, s) = write_all api.tunnels gw.namespace (map tunnel_write ws) p.state in
        (e, record { expected = p.expected ++ map (tunnel_name setup.lib gw) ws; state = s })

    unfoldable pub http_stage : Progress S → Option KubeError × Progress S
    http_stage p = elim (api.list_http_routes p.state) [
      | err e ↦ (some e, p)
      | ok routes ↦ publish (http_tunnels setup.lib gw routes) p
    ]

    -- A missing kind, or a list that fails, has no tunnels.
    unfoldable pub port_stage : RouteKind → Progress S → Option KubeError × Progress S
    port_stage kind p =
        if setup.missing kind
        then (none, p)
        else elim (api.list_port_routes kind p.state gw.namespace) [
          | err e ↦ (none, p)
          | ok routes ↦ publish (port_tunnels setup.lib gw kind routes) p
        ]

    unfoldable pub write_stages : S → Option KubeError × Progress S
    write_stages s =
        or_else
          (or_else
            (or_else (http_stage (record { expected = []; state = s })) (port_stage tcp_route))
            (port_stage tls_route))
          (port_stage udp_route)

    -- The callbacks of the pruning loop for a tunnel that the list has.
    unfoldable pub prune_options : List String → OwnedTunnel → Options S KubeError
    prune_options expected t = record {
      exists = λ s. true;
      should_exist = λ s. contains expected t.name;
      is_up_to_date = λ s. true;
      create = λ s. (none, s);
      update = λ s. (none, s);
      delete = λ s. api.tunnels.delete s t;
    }

    abbrev pub result_of : Outcome S KubeError → Option KubeError × S
    result_of o = (o.error, o.state)

    unfoldable pub prune_one : List String → OwnedTunnel → S → Option KubeError × S
    prune_one expected t s =
        if not (api.is_controlled_by t gw)
        then (none, s)
        else result_of (resource (prune_options expected t) s)

    unfoldable pub prune_each : List String → List OwnedTunnel → S → Option KubeError × S
    prune_each expected [] s = (none, s)
    prune_each expected (t ∷ ts) s = or_else (prune_one expected t s) (prune_each expected ts)

    unfoldable pub prune_stage : Progress S → Option KubeError × S
    prune_stage p = elim (api.list_tunnels p.state gw.namespace gw.name) [
      | err e ↦ (some e, p.state)
      | ok ts ↦ prune_each p.expected ts p.state
    ]

    abbrev pub prune_after : Option KubeError × Progress S → Option KubeError × S
    prune_after (none, p) = prune_stage p
    prune_after (some e, p) = (some e, p.state)

    -- The tunnels of the gateway: written, then pruned.
    unfoldable pub tunnels_stage : S → Option KubeError × S
    tunnels_stage s = prune_after (write_stages s)

  unfoldable pub is_accepted : GatewayClass → Bool
  is_accepted class = any (λ (c : Condition). c.type == "Accepted" && c.status) class.conditions

  -- updateGatewayClassStatus; its error is logged only.
  unfoldable pub update_gateway_class_status : GatewayClass → S → S
  update_gateway_class_status class s =
      if is_accepted class
      then s
      else (api.update_class_status s (record class {
        conditions =
            api.set_condition
              (holds "Accepted" class.generation "Accepted"
                "GatewayClass accepted by weft-operator")
              class.conditions;
      })).1

  unfoldable pub update_gateway_status : Gateway → S → Option KubeError × S
  update_gateway_status gw s = api.update_status s (record gw {
    conditions =
        api.set_condition (holds "Programmed" gw.generation "Programmed" "Gateway programmed") (
          api.set_condition
            (holds "Accepted" gw.generation "Accepted" "Gateway accepted by weft-operator")
            gw.conditions);
  })

  -- The target servers of the class's WeftGateway; none where it cannot be had.
  unfoldable pub config_of : S → String → Option String → List String
  config_of s name none = []
  config_of s name (some ns) = elim (api.get_config s ns name) [ err e ↦ [] | ok servers ↦ servers ]

  unfoldable pub config_servers : Option ParametersRef → S → List String
  config_servers none s = []
  config_servers (some ref) s =
      if ref.group == "weft.aquaduct.dev" && ref.kind == "WeftGateway"
      then config_of s ref.name ref.namespace
      else []

  abbrev pub to_return : Option KubeError × S → Return × S
  to_return (none, s) = (done, s)
  to_return (some e, s) = (failed e, s)

  unfoldable pub drop_finalizer : Gateway → S → Option KubeError × S
  drop_finalizer gw s =
      api.update s (record gw { finalizers = api.remove_finalizer gw.finalizers dns_finalizer })

  unfoldable pub delete_gateway : Gateway → S → Option KubeError × S
  delete_gateway gw s =
      if api.contains_finalizer gw.finalizers dns_finalizer
      then or_else (cleanup_dns_records setup.lib gw api s) (drop_finalizer gw)
      else (none, s)

  -- After the tunnels: the DNS records, whose error is logged only, and the status.
  unfoldable pub finish : Gateway → S → Option KubeError × S
  finish gw s = update_gateway_status gw (reconcile_dns_records setup.lib gw api s).1

  unfoldable pub program : Gateway → GatewayClass → S → Option KubeError × S
  program gw class s =
      let s' = update_gateway_class_status class s in
      or_else (tunnels_stage gw (config_servers class.parameters_ref s') s') (finish gw)

  unfoldable pub with_finalizer : Gateway → GatewayClass → S → Option KubeError × S
  with_finalizer gw class s =
      let stamped = record gw { finalizers = api.add_finalizer gw.finalizers dns_finalizer } in
      if api.contains_finalizer gw.finalizers dns_finalizer
      then program gw class s
      else or_else (api.update s stamped) (program stamped class)

  abbrev pub reconcile_managed : Gateway → GatewayClass → S → Return × S
  reconcile_managed gw class s =
      to_return (if gw.deleting then delete_gateway gw s else with_finalizer gw class s)

  -- An unknown class is retried after 5 seconds, with its error.
  unfoldable pub with_class : Gateway → Answer KubeError GatewayClass → S → Return × S
  with_class gw (err e) s = (record { requeue = false; requeue_after = 5; error = some e }, s)
  with_class gw (ok class) s =
      if not (class.controller_name == controller_name)
      then (done, s)
      else reconcile_managed gw class s

  -- `Reconcile`, from the answer to the first read.
  unfoldable pub reconcile : Answer KubeError Gateway → S → Return × S
  reconcile (err e) s = (ignore_not_found e, s)
  reconcile (ok gw) s = with_class gw (api.get_class s gw.class_name) s
