-- ===== src/Tests/RoutesRuns.antt =====
-- A run of computeRoutes of internal/controller/weftlocaldnsreflector/routes.go: two tunnels of one destination,
-- one with a loopback source, and a host name that no tunnel serves.
use weft_operator.Prelude.{
  String, ◌≡◌, ◌≢◌, refl, ◌↔◌, false, List, [], ◌∷◌, map, In, ◌==◌, if◌then◌else◌,
}
use weft_operator.Prelude.Text.{◌<>◌, to_lower, text_lt}
use weft_operator.Prelude.Sort.{sort_by, insert}
use weft_operator.Prelude.Assoc.{put}
use weft_operator.Kube.{Answer, ok, err}
use weft_operator.Reflector.{Tunnel}
use weft_operator.Reflector.Routes.{
  Link, Links, Route, RouteSet, tunnel_less, route_less, port_of, is_loopback, reflect_tunnel,
  visit, visit_all, compute_routes,
}
use weft_operator.Reflector.Routes.Served.{IsServed, compute_routes-IsServed}

abbrev parsed_text : String → Answer String Link
parsed_text t =
    if t == "https://shop.example"
    then ok (record { scheme = "https"; host = "shop.example"; path = ""; rest = "" })
    else if t == "http://web.svc"
    then ok (record { scheme = "http"; host = "web.svc"; path = ""; rest = "" })
    else if t == "http://localhost"
    then ok (record { scheme = "http"; host = "localhost"; path = ""; rest = "" })
    else err "no URL"

abbrev links : Links
links = record {
  parse = parsed_text;
  hostname = λ l. l.host;
  render = λ l. l.scheme <> "://" <> l.host <> l.path;
  is_loopback_ip = λ h. false;
  join_host_port = λ h p. h <> ":8443";
  sprintf = λ format t. format <> t;
}

abbrev shop_tunnel : String → String → Tunnel
shop_tunnel name src = record {
  namespace = "shop";
  name = name;
  src_url = src;
  dst_url = "https://shop.example";
}

abbrev shop_tunnels : List Tunnel
shop_tunnels =
    shop_tunnel "c" "http://web.svc"
    ∷ shop_tunnel "b" "http://web.svc"
    ∷ shop_tunnel "a" "http://localhost"
    ∷ []

abbrev served_set : RouteSet
served_set = compute_routes links ("Shop.example" ∷ "other.example" ∷ []) shop_tunnels

served_run : served_set.routes ≡ (
    record {
      hostname = "shop.example";
      source = "http://web.svc";
      destination = "https://shop.example:8443/";
      tunnel = "shop/b";
    }
    ∷ [])
unfolding compute_routes visit_all visit reflect_tunnel port_of is_loopback sort_by insert
    tunnel_less route_less put to_lower text_lt
served_run = refl

compute_routes-IsServed_example :
    IsServed links
      (map to_lower ("Shop.example" ∷ "other.example" ∷ []))
      shop_tunnels
      served_set.routes
    × ((h : String)
        → In h served_set.unrouted ↔ (
            In h ("Shop.example" ∷ "other.example" ∷ [])
            × ((r : Route) → In r served_set.routes → r.hostname ≢ to_lower h)))
compute_routes-IsServed_example =
    compute_routes-IsServed links ("Shop.example" ∷ "other.example" ∷ []) shop_tunnels
