-- ===== src/Tests/GatewayRuns.antt =====
-- Runs of internal/controller/weftgateway on the small cluster.
use weft_operator.Prelude.{
  String, none, some, ◌≡◌, ◌≢◌, refl, ◌↔◌, ◌⊎◌, true, false, List, [], ◌∷◌, In, any, if◌then◌else◌,
  eq_iff,
}
use weft_operator.Prelude.Text.{has_prefix, has_suffix, drop_text, trim_prefix, first_bytes}
use weft_operator.Prelude.Sort.{sort_by}
use weft_operator.Prelude.Assoc.{lookup, put}
use weft_operator.Kube.{ok, KubeError, done, failed}
use weft_operator.Kube.Store.{write_all, delete_one, delete_unless}
use weft_operator.Resource.{resource}
use weft_operator.DnsRecord.{Bastion}
use weft_operator.DnsRecord.Bastions.{is_usable}
use weft_operator.Gateway.{ParentRef, Listener}
use weft_operator.Gateway.Attach.{
  find_gateways_from_parent_refs, hostname_matches, names_gateway, is_attached_to_gateway,
  hostnames_intersect, is_attached_to_listener, parent_refs_select_listener,
}
use weft_operator.Gateway.Routes.{
  is_service, filter_parts, http_filters_to_fragment, backend_url, match_urls, http_base,
  http_destinations, http_backend, http_rule, http_route, http_tunnels, kind_scheme, kind_port,
  kind_protocol, kind_destination, port_destinations, port_backend, port_rule, port_route,
  port_tunnels, tunnel_name,
}
use weft_operator.Gateway.Dns.{
  tag_hostname, add_hostname, classify_from, classify_listener_hostnames, is_l4_protocol,
  eligible_bastion_ids, pick_l4_bastion, dns_record_name, target_ids, stamp, record_writes,
  prune_records, stamp_records, singleton, with_singleton, reconcile_dns_records, delete_owned,
  cleanup_dns_records,
}
use weft_operator.Gateway.Attach.Hostnames.{Covers, hostname_matches_iff}
use weft_operator.Gateway.Attach.Enqueue.{
  request_to, find_gateways-is_attached, parent_refs_select_listener-find_gateways,
  is_attached_elsewhere,
}
use weft_operator.Gateway.Dns.Classify.{
  IsDistinct, tag_of, has_hostname, has_l4, classify_listener_hostnames_lem,
}
use weft_operator.Gateway.Dns.Pinned.{pick_l4_bastion_lem}
use weft_operator.Gateway.Dns.Stamped.{IsStamped, reconcile_dns_records-IsStamped}
use weft_operator.Gateway.Reconcile.{
  gateway_labels, own_tunnel, publish, http_stage, port_stage, write_stages, prune_options,
  prune_one, prune_each, prune_stage, tunnels_stage, drop_finalizer, delete_gateway, with_class,
  reconcile,
}
use weft_operator.Gateway.Reconcile.Converge.{IsConverged, tunnels_stage-IsConverged}
use weft_operator.Gateway.Reconcile.Deletion.{IsReleased, reconcile-IsReleased}
use weft_operator.Tests.SmallStore.{put_row, drop_row, no_rows}
use weft_operator.Tests.SmallEdge.{
  tunnel_keyed, record_keyed, Edge, edge_account, edge_gateway, edge_class, edge_routes,
  edge_library, edge_setup, edge_api, edge_server,
}

abbrev empty_edge : Edge
unfolding no_rows
empty_edge = record { tunnels = no_rows tunnel_keyed; records = no_rows record_keyed }

abbrev stamped_edge : Edge
stamped_edge = (reconcile_dns_records edge_library edge_gateway edge_api empty_edge).1

stamped_run :
    reconcile_dns_records edge_library edge_gateway edge_api empty_edge ≡ (none, stamped_edge)
unfolding put_row drop_row no_rows reconcile_dns_records with_singleton singleton stamp_records
    record_writes classify_listener_hostnames classify_from add_hostname tag_hostname is_l4_protocol
    target_ids pick_l4_bastion eligible_bastion_ids is_usable stamp dns_record_name write_all
    prune_records delete_unless delete_one put lookup first_bytes has_suffix sort_by
stamped_run = refl

reconcile_dns_records-IsStamped_example :
    IsStamped edge_library edge_gateway edge_account (edge_server.records.stored stamped_edge)
reconcile_dns_records-IsStamped_example =
    reconcile_dns_records-IsStamped edge_library edge_gateway edge_api edge_server edge_account
      empty_edge stamped_edge refl stamped_run

abbrev cleaned_edge : Edge
cleaned_edge = (cleanup_dns_records edge_library edge_gateway edge_api stamped_edge).1

cleaned_run :
    cleanup_dns_records edge_library edge_gateway edge_api stamped_edge ≡ (none, cleaned_edge)
unfolding put_row drop_row no_rows reconcile_dns_records with_singleton singleton stamp_records
    record_writes classify_listener_hostnames classify_from add_hostname tag_hostname is_l4_protocol
    target_ids pick_l4_bastion eligible_bastion_ids is_usable stamp dns_record_name write_all
    prune_records delete_unless delete_one put lookup first_bytes has_suffix sort_by
    cleanup_dns_records delete_owned
cleaned_run = refl

abbrev released_edge : Edge
released_edge = (reconcile edge_setup edge_api (ok edge_gateway) stamped_edge).1

reconcile-IsReleased_example :
    ((s' : Edge)
      → reconcile edge_setup edge_api (ok edge_gateway) stamped_edge ≡ (done, s')
      → IsReleased edge_setup edge_api edge_server.records.stored edge_gateway "weft-system" s')
    × ((e : KubeError) (z : Edge)
        → cleanup_dns_records edge_library edge_gateway edge_api stamped_edge ≡ (some e, z)
        → reconcile edge_setup edge_api (ok edge_gateway) stamped_edge ≡ (failed e, z))
reconcile-IsReleased_example =
    reconcile-IsReleased edge_setup edge_api edge_server edge_gateway edge_class edge_account
      stamped_edge refl refl refl refl refl

released_run : reconcile edge_setup edge_api (ok edge_gateway) stamped_edge ≡ (done, released_edge)
unfolding put_row drop_row no_rows reconcile_dns_records with_singleton singleton stamp_records
    record_writes classify_listener_hostnames classify_from add_hostname tag_hostname is_l4_protocol
    target_ids pick_l4_bastion eligible_bastion_ids is_usable stamp dns_record_name write_all
    prune_records delete_unless delete_one put lookup first_bytes has_suffix sort_by
    cleanup_dns_records delete_owned reconcile with_class delete_gateway drop_finalizer
released_run = refl

abbrev published_edge : Edge
published_edge = (tunnels_stage edge_setup edge_api edge_gateway ("hub" ∷ []) empty_edge).1

published_run :
    tunnels_stage edge_setup edge_api edge_gateway ("hub" ∷ []) empty_edge ≡ (none, published_edge)
unfolding put_row drop_row no_rows tunnels_stage write_stages http_stage publish write_all
    http_tunnels http_route is_attached_to_gateway names_gateway http_rule http_backend is_service
    http_destinations is_attached_to_listener hostnames_intersect match_urls own_tunnel
    hostname_matches parent_refs_select_listener gateway_labels port_stage prune_each prune_one
    prune_options prune_stage backend_url filter_parts http_base http_filters_to_fragment
    kind_destination kind_port kind_protocol kind_scheme port_backend port_destinations port_route
    port_rule port_tunnels tunnel_name drop_text first_bytes has_prefix has_suffix trim_prefix
    resource lookup
published_run = refl

tunnels_stage-IsConverged_example :
    IsConverged edge_setup edge_api edge_gateway
      ("hub" ∷ [])
      edge_routes
      empty_edge
      (edge_server.tunnels.stored published_edge)
tunnels_stage-IsConverged_example =
    tunnels_stage-IsConverged edge_setup edge_api edge_server edge_gateway ("hub" ∷ []) edge_routes
      empty_edge published_edge refl published_run

hostname_matches_iff_example : (hostname_matches "*.example" "shop.example" ≡ true) ↔ (
    ◌≡◌ {A = String} "*.example" "shop.example"
    ⊎ (Covers "*.example" "shop.example" ⊎ Covers "shop.example" "*.example"))
hostname_matches_iff_example = hostname_matches_iff "*.example" "shop.example"

abbrev two_parents : List ParentRef
two_parents =
    record { name = "edge"; namespace = none; section_name = some "web" }
    ∷ record { name = "edge"; namespace = some "shop"; section_name = some "game" }
    ∷ []

find_gateways-is_attached_example :
    (is_attached_to_gateway edge_gateway two_parents ≡ true)
    ↔ In
        (request_to edge_gateway)
        (find_gateways_from_parent_refs edge_gateway.namespace two_parents)
find_gateways-is_attached_example = find_gateways-is_attached edge_gateway two_parents

abbrev web_listener : Listener
web_listener = record {
  name = "web";
  hostname = some "shop.example";
  port = 443;
  protocol = "HTTPS";
}

parent_refs_select_listener-find_gateways_example :
    In (request_to edge_gateway) (find_gateways_from_parent_refs "shop" two_parents)
unfolding parent_refs_select_listener
parent_refs_select_listener-find_gateways_example =
    parent_refs_select_listener-find_gateways "shop" edge_gateway web_listener two_parents refl

is_attached_elsewhere_example :
    (is_attached_to_gateway edge_gateway
        (record { name = "edge"; namespace = none; section_name = none } ∷ [])
      ≡ true)
    × ¬ In (request_to edge_gateway) (
        find_gateways_from_parent_refs "blog"
          (record { name = "edge"; namespace = none; section_name = none } ∷ []))
is_attached_elsewhere_example =
    is_attached_elsewhere "blog" edge_gateway none
      (λ e. let k : false ≡ true = (eq_iff "blog" "shop").1 e in cc k)

classify_listener_hostnames_lem_example :
    IsDistinct (classify_listener_hostnames edge_gateway)
    × ((h : String)
        → tag_of h (classify_listener_hostnames edge_gateway) ≡ (
            if any (has_hostname h) edge_gateway.listeners
            then some (any (has_l4 h) edge_gateway.listeners)
            else none))
classify_listener_hostnames_lem_example = classify_listener_hostnames_lem edge_gateway

pick_l4_bastion_lem_example :
    (((b : Bastion) → In b edge_account.bastions → is_usable b ≢ true)
      × (pick_l4_bastion edge_library edge_gateway edge_account.bastions "game.example" ≡ ""))
    ⊎ ((b : Bastion) × In b edge_account.bastions
        × (is_usable b ≡ true)
        × (b.id ≡ pick_l4_bastion edge_library edge_gateway edge_account.bastions "game.example"))
pick_l4_bastion_lem_example =
    pick_l4_bastion_lem edge_library edge_gateway edge_account.bastions "game.example"
