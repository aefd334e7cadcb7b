-- ===== src/Reflector/Routes.antt =====
-- internal/controller/weftlocaldnsreflector/routes.go: the routes that a reflector's proxy serves, computed
-- from the WeftTunnels of the cluster.
pub mod Served
use weft_operator.Prelude.{
  ℕ, String, Option, none, some, Bool, true, false, not, ◌&&◌, ◌||◌, List, [], ◌∷◌, ◌++◌, map,
  flat_map, keep, contains, any, ◌==◌, if◌then◌else◌,
}
use weft_operator.Prelude.Text.{◌<>◌, to_lower, text_lt, has_prefix}
use weft_operator.Prelude.Sort.{sort_by, sort_strings}
use weft_operator.Prelude.Assoc.{Assoc, put}
use weft_operator.Kube.{Answer, ok, err}
use weft_operator.Reflector.{Tunnel}

-- A parsed URL: the fields that are read or set, and the text of the others.
pub record Link : Type 0 where
  pub scheme : String
  pub host : String
  pub path : String
  pub rest : String

-- url.Parse, Hostname and String of a URL, whether net.ParseIP reads a loopback address, JoinHostPort with a
-- port in decimal, and the texts of fmt.Sprintf with %q and %v.
pub record Links : Type 0 where
  pub parse : String → Answer String Link
  pub hostname : Link → String
  pub render : Link → String
  pub is_loopback_ip : String → Bool
  pub join_host_port : String → ℕ → String
  pub sprintf : String → String → String

pub record Route : Type 0 where
  pub hostname : String
  pub source : String
  pub destination : String
  pub tunnel : String

-- The two results of reflectTunnel: a route, or a reason that is not empty.
pub data Reflected : Type 0 where
  route : Route → Reflected
  skip : String → Reflected

pub record RouteSet : Type 0 where
  pub routes : List Route
  pub unrouted : List String
  pub skipped : Assoc String

abbrev pub proxy_https_port : ℕ
proxy_https_port = 8443

abbrev pub proxy_http_port : ℕ
proxy_http_port = 8080

-- The keys of `seen`.
unfoldable pub distinct : List String → List String → List String
distinct seen [] = []
distinct seen (h ∷ hs) =
    let rest = distinct seen hs in
    let fresh = distinct (h ∷ seen) hs in if contains seen h then rest else h ∷ fresh

unfoldable pub routed_hostnames : RouteSet → List String
routed_hostnames set = sort_strings (distinct [] (map (λ (r : Route). r.hostname) set.routes))

unfoldable pub has_scheme : String → RouteSet → Bool
has_scheme scheme set = any (λ (r : Route). has_prefix r.destination (scheme <> "://")) set.routes

unfoldable pub tunnel_less : Tunnel → Tunnel → Bool
tunnel_less a b =
    if not (a.namespace == b.namespace)
    then text_lt a.namespace b.namespace
    else text_lt a.name b.name

unfoldable pub route_less : Route → Route → Bool
route_less a b = text_lt a.destination b.destination

abbrev pub key_of : Tunnel → String
key_of t = t.namespace <> "/" <> t.name

unfoldable pub port_of : String → Option ℕ
port_of scheme =
    if scheme == "https"
    then some proxy_https_port
    else if scheme == "http"
    then some proxy_http_port
    else none

unfoldable pub proxy_args : List Route → String → String → List String
proxy_args routes cert_path key_path =
    ("proxy" ∷ ("--tls-cert=" <> cert_path) ∷ ("--tls-key=" <> key_path) ∷ [])
    ++ flat_map (λ (r : Route). r.source ∷ r.destination ∷ []) routes

module _ (lib : Links) where
  unfoldable pub is_loopback : String → Bool
  is_loopback host = host == "localhost" || lib.is_loopback_ip host

  abbrev pub source_checked : String → String → Link → ℕ → Answer String Link → Reflected
  source_checked host src_url dst port (err t) = skip (lib.sprintf "unparseable srcURL: %v" t)
  source_checked host src_url dst port (ok src) =
      if not (src.scheme == "http") && not (src.scheme == "https")
      then skip (lib.sprintf "src scheme %q is not http/https" src.scheme)
      else if is_loopback (lib.hostname src)
      then skip (lib.sprintf "src host %q is loopback" (lib.hostname src))
      else route (record {
        hostname = host;
        source = src_url;
        destination = lib.render (record dst {
          host = lib.join_host_port host port;
          path = if dst.path == "" then "/" else dst.path;
        });
        tunnel = "";
      })

  unfoldable pub reflect_tunnel : String → String → Link → Reflected
  reflect_tunnel host src_url dst = elim (port_of dst.scheme) [
    | none ↦ skip (lib.sprintf "dst scheme %q is not http/https" dst.scheme)
    | some port ↦ source_checked host src_url dst port (lib.parse src_url)
  ]

  -- `byDestination` holds the destinations of the routes so far, `routed` their host names.
  abbrev pub add_reflected : String → Reflected → RouteSet → RouteSet
  add_reflected key (skip reason) set = record set { skipped = put key reason set.skipped }
  add_reflected key (route r) set =
      if any (λ (x : Route). x.destination == r.destination) set.routes
      then record set {
        skipped =
            put key (lib.sprintf "destination %s already served by an earlier tunnel" r.destination)
              set.skipped;
      }
      else record set { routes = set.routes ++ record r { tunnel = key } ∷ [] }

  module _ (wanted : List String) where
    abbrev pub visit_link : Tunnel → RouteSet → Answer String Link → RouteSet
    visit_link t set (err e) = set
    visit_link t set (ok dst) =
        let host = to_lower (lib.hostname dst) in
        if not (contains wanted host)
        then set
        else add_reflected (key_of t) (reflect_tunnel host t.src_url dst) set

    unfoldable pub visit : Tunnel → RouteSet → RouteSet
    visit t set = visit_link t set (lib.parse t.dst_url)

    unfoldable pub visit_all : RouteSet → List Tunnel → RouteSet
    visit_all set [] = set
    visit_all set (t ∷ ts) = visit_all (visit t set) ts

  abbrev pub is_unrouted : List Route → String → Bool
  is_unrouted routes h = not (any (λ (r : Route). r.hostname == to_lower h) routes)

  unfoldable pub compute_routes : List String → List Tunnel → RouteSet
  compute_routes hostnames tunnels =
      let set =
        visit_all (map to_lower hostnames) (record { routes = []; unrouted = []; skipped = [] })
          (sort_by tunnel_less tunnels) in
      record set {
        routes = sort_by route_less set.routes;
        unrouted = sort_strings (keep (is_unrouted set.routes) hostnames);
      }
