-- ===== src/Gateway/Routes/Asks.antt =====
-- Which tunnels the routes of a gateway ask for, as a relation, beside the loops of `Reconcile` in
-- internal/controller/weftgateway/reconciler.go that compute them. Here is what the kinds of routes
-- share.
pub mod Http
pub mod Port
use weft_operator.Prelude.{
  ℕ, String, Option, none, some, ◌≡◌, refl, sym, ap, ◌∙◌, subst, ◌↔◌, ◌⊎◌, inl, inr, true, List, [],
  map, flat_map, get_or, In, In-map, map-In, flat_map-In, In-flat_map, if-In, Option-cases,
  Bool-cases, eq_iff, ◌==◌, if◌then◌else◌,
}
use weft_operator.Prelude.Text.{◌<>◌}
use weft_operator.Gateway.{
  BackendRef, HttpRule, HttpRoute, PortRoute, RouteKind, tcp_route, tls_route, udp_route, Listener,
  Gateway, Library,
}
use weft_operator.Gateway.Attach.{
  is_attached_to_gateway, is_attached_to_listener, parent_refs_select_listener,
}
use weft_operator.Gateway.Attach.Meaning.{
  Binds, is_attached_to_listener_iff, SelectsListener, parent_refs_select_listener_iff,
  Binds-attached, SelectsListener-attached,
}
use weft_operator.Gateway.Routes.{
  Wanted, is_service, http_filters_to_fragment, backend_url, match_urls, http_base,
  http_destinations_at, http_destinations, http_backend, http_rule, http_route, http_tunnels,
  kind_scheme, kind_port, kind_protocol, kind_destination, port_destinations, port_backend,
  port_rule, port_route, port_tunnels,
}

-- The backend is a Service, by its kind or by default.
abbrev pub IsService : BackendRef → Type 0
IsService b = (b.kind ≡ none) ⊎ (b.kind ≡ some "Service")

pub is_service-IsService : (b : BackendRef) → (is_service b ≡ true) ↔ IsService b
unfolding is_service
is_service-IsService b = go b.kind
  where
    go :
        (o : Option String)
        → ((get_or o "Service" == "Service") ≡ true) ↔ ((o ≡ none) ⊎ (o ≡ some "Service"))
    go none = (λ _. inl refl, λ _. refl)
    go (some k) = (
      λ h. inr (ap some ((eq_iff k "Service").0 h)),
      λ h. elim h [
        | inl e ↦ cc e
        | inr e ↦ let same : k ≡ "Service" = cc e in (eq_iff k "Service").1 same
      ],
    )

-- A tunnel of the route, from the source to a destination.
abbrev pub tunnel_to : String → String → String → Wanted
tunnel_to route src dst = record { route = route; src_url = src; dst_url = dst }

pub from_backend :
    (b : BackendRef) (make : String → Wanted) (dsts : List String) (w : Wanted)
    → In w (if is_service b then map make dsts else [])
    → IsService b × ((dst : String) × In dst dsts × (make dst ≡ w))
from_backend b make dsts w m =
    let (s, n) = (if-In (is_service b) w (map make dsts)).0 m in
    ((is_service-IsService b).0 s, In-map make w dsts n)

pub to_backend :
    (b : BackendRef) (make : String → Wanted) (dsts : List String) (w : Wanted) (dst : String)
    → IsService b
    → In dst dsts
    → w ≡ make dst
    → In w (if is_service b then map make dsts else [])
to_backend b make dsts w dst s m e = (if-In (is_service b) w (map make dsts)).1 (
  (is_service-IsService b).1 s,
  subst (λ x. In x (map make dsts)) (sym e) (map-In make dst dsts m),
)
