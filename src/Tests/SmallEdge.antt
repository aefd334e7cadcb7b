-- ===== src/Tests/SmallEdge.antt =====
-- A small cluster for the gateway controller: its tunnels and records are stores, and the rest is fixed.
use weft_operator.Prelude.{
  String, Option, none, some, ◌≡◌, refl, sym, ap, subst, ◌↔◌, Bool, true, false, not, ◌&&◌, List,
  [], ◌∷◌, keep, In, In-keep, keep-In, ◌==◌, eq_iff, eq_refl, ◌∙◌, arith, contains, eqb,
  if◌then◌else◌,
}
use weft_operator.Prelude.Text.{◌<>◌, has_suffix}
use weft_operator.Prelude.Assoc.{lookup}
use weft_operator.Kube.{Answer, ok, err, KubeError, not_found}
use weft_operator.Kube.Store.{SameKey}
use weft_operator.DnsRecord.{Taas}
use weft_operator.Gateway.{
  ParentRef, HttpRoute, PortRoute, RouteKind, tcp_route, tls_route, udp_route, Gateway,
  GatewayClass, OwnedTunnel, StampedRecord, Library, Api,
}
use weft_operator.Gateway.Attach.{controller_name}
use weft_operator.Gateway.Dns.{
  label_gateway_namespace, label_gateway_name, label_created_by, created_by_value,
}
use weft_operator.Gateway.Laws.{ApiServer, IsStampedBy, IsLabelled}
use weft_operator.Gateway.Reconcile.{Setup, dns_finalizer}
use weft_operator.Tests.SmallStore.{Keyed, Rows, HasKey, drop_row, small_objects, small_store}

abbrev pub tunnel_keyed : Keyed OwnedTunnel
tunnel_keyed = record {
  namespace = λ t. t.namespace;
  name = λ t. t.name;
  is_deleting = λ t. false;
  blank = λ ns n. record {
    namespace = ns;
    name = n;
    labels = [];
    controller = none;
    target_servers = [];
    src_url = "";
    dst_url = "";
  };
  blank_namespace = λ ns n. refl;
  blank_name = λ ns n. refl;
}

abbrev pub record_keyed : Keyed StampedRecord
record_keyed = record {
  namespace = λ r. r.namespace;
  name = λ r. r.name;
  is_deleting = λ r. r.deleting;
  blank = λ ns n. record {
    namespace = ns;
    name = n;
    deleting = false;
    labels = [];
    domain_name = "";
    taas_ref = "";
    target_bastion_ids = [];
  };
  blank_namespace = λ ns n. refl;
  blank_name = λ ns n. refl;
}

pub record Edge : Type 0 where
  pub tunnels : Rows tunnel_keyed
  pub records : Rows record_keyed

abbrev pub edge_account : Taas
edge_account = record {
  namespace = "weft-system";
  name = "account";
  api_endpoint = "";
  access_token_secret_ref = none;
  last_sync_time = none;
  bastions =
      record { id = "b1"; ip = "203.0.113.7"; suspended = false }
      ∷ record { id = "b2"; ip = ""; suspended = false }
      ∷ [];
}

abbrev pub edge_gateway : Gateway
edge_gateway = record {
  namespace = "shop";
  name = "edge";
  generation = 1;
  class_name = "weft";
  deleting = true;
  finalizers = dns_finalizer ∷ [];
  listeners =
      record { name = "web"; hostname = some "shop.example"; port = 443; protocol = "HTTPS" }
      ∷ record { name = "game"; hostname = some "game.example"; port = 7777; protocol = "TCP" }
      ∷ record { name = "chat"; hostname = some "game.example"; port = 7778; protocol = "UDP" }
      ∷ [];
  conditions = [];
}

abbrev pub edge_class : GatewayClass
edge_class = record {
  name = "weft";
  generation = 1;
  controller_name = controller_name;
  parameters_ref = none;
  conditions = [];
}

abbrev pub edge_parents : List ParentRef
edge_parents = record { name = "edge"; namespace = none; section_name = none } ∷ []

abbrev pub edge_routes : List HttpRoute
edge_routes =
    record {
      namespace = "shop";
      name = "front";
      parent_refs = edge_parents;
      hostnames = [];
      rules =
          record {
            backend_refs =
                record { name = "web"; kind = none; namespace = none; port = some 8080 } ∷ [];
            matches = none ∷ [];
            filters = [];
          }
          ∷ [];
    }
    ∷ []

abbrev pub edge_port_routes : RouteKind → List PortRoute
edge_port_routes tcp_route =
    record {
      namespace = "shop";
      name = "play";
      parent_refs = edge_parents;
      rules = (record { name = "game"; kind = none; namespace = none; port = some 7777 } ∷ []) ∷ [];
    }
    ∷ []
edge_port_routes tls_route = []
edge_port_routes udp_route = []

-- A hash of the three texts that the runs hash.
abbrev pub edge_hash : String → String
edge_hash s =
    if has_suffix s "game.example"
    then "aaaaaaaaaa"
    else if has_suffix s "7777"
    then "bbbbbbbbbb"
    else "cccccccccc"

abbrev pub edge_library : Library
edge_library = record {
  sha256_hex = edge_hash;
  sha256_head = λ s. 5;
  join_path = λ base p. base <> p;
  path_escape = λ s. s;
  itoa = λ n. if eqb n 8080 then "8080" else "7777";
}

abbrev pub edge_setup : Setup
edge_setup = record {
  lib = edge_library;
  missing = λ kind. elim kind [ tcp_route ↦ false | tls_route ↦ true | udp_route ↦ false ];
}

-- Whether a label has the value.
abbrev pub has_value : String → Option String → Bool
has_value v none = false
has_value v (some w) = w == v

abbrev pub is_listed : String → String → OwnedTunnel → Bool
is_listed ns gateway t =
    t.namespace == ns
    && (has_value gateway (lookup "gateway" t.labels)
        && has_value "weft-operator" (lookup "created-by" t.labels))

abbrev pub is_stamped : String → String → String → StampedRecord → Bool
is_stamped ns gw_ns gateway r =
    r.namespace == ns
    && (has_value gw_ns (lookup label_gateway_namespace r.labels)
        && (has_value gateway (lookup label_gateway_name r.labels)
            && has_value created_by_value (lookup label_created_by r.labels)))

abbrev pub edge_api : Api Edge
edge_api = record {
  get_class = λ s name. if name == "weft" then ok edge_class else err not_found;
  get_config = λ s ns name. err not_found;
  list_http_routes = λ s. ok edge_routes;
  list_port_routes = λ kind s ns. ok (edge_port_routes kind);
  list_gateways = λ s. ok (edge_gateway ∷ []);
  list_tunnels = λ s ns gateway. ok (keep (is_listed ns gateway) s.tunnels.list);
  list_taas = λ s. ok (edge_account ∷ []);
  list_records = λ s ns gw_ns gateway. ok (keep (is_stamped ns gw_ns gateway) s.records.list);
  tunnels =
      small_objects tunnel_keyed (λ s. s.tunnels) (λ r s. record s { tunnels = r }) (λ r s. refl);
  records =
      small_objects record_keyed (λ s. s.records) (λ r s. record s { records = r }) (λ r s. refl);
  update = λ s gw. (none, s);
  update_status = λ s gw. (none, s);
  update_class_status = λ s class. (none, s);
  contains_finalizer = contains;
  add_finalizer = λ fs f. f ∷ fs;
  remove_finalizer = λ fs f. keep (λ g. not (g == f)) fs;
  set_controller_reference = λ gw t. ok (record t { controller = some gw.name });
  is_controlled_by = λ t gw. has_value gw.name t.controller;
  set_condition = λ c cs. c ∷ cs;
}

has_value_iff : (v : String) (o : Option String) → (has_value v o ≡ true) ↔ (o ≡ some v)
has_value_iff v none = (λ h. cc h, λ h. cc h)
has_value_iff v (some w) =
    (λ h. ap some ((eq_iff w v).0 h), λ h. let same : w ≡ v = cc h in (eq_iff w v).1 same)

listed_iff :
    (gw : Gateway) (t : OwnedTunnel)
    → (is_listed gw.namespace gw.name t ≡ true) ↔ ((t.namespace ≡ gw.namespace) × IsLabelled gw t)
unfolding IsLabelled
listed_iff gw t =
    let n = eq_iff t.namespace gw.namespace in
    let a = has_value_iff gw.name (lookup "gateway" t.labels) in
    let b = has_value_iff "weft-operator" (lookup "created-by" t.labels) in
    (
      λ h. (n.0 (ground (arith, h)), (a.0 (ground (arith, h)), b.0 (ground (arith, h)))),
      λ q.
          let x = n.1 (q.0) in
          let y = a.1 (q.1.0) in let z = b.1 (q.1.1) in ground (arith, x, y, z),
    )

stamped_iff :
    (ns : String) (gw : Gateway) (r : StampedRecord)
    → (is_stamped ns gw.namespace gw.name r ≡ true) ↔ ((r.namespace ≡ ns) × IsStampedBy gw r)
unfolding IsStampedBy
stamped_iff ns gw r =
    let n = eq_iff r.namespace ns in
    let a = has_value_iff gw.namespace (lookup label_gateway_namespace r.labels) in
    let b = has_value_iff gw.name (lookup label_gateway_name r.labels) in
    let c = has_value_iff created_by_value (lookup label_created_by r.labels) in
    (
      λ h. (
        n.0 (ground (arith, h)),
        (a.0 (ground (arith, h)), b.0 (ground (arith, h)), c.0 (ground (arith, h))),
      ),
      λ q.
          let x = n.1 (q.0) in
          let y = a.1 (q.1.0) in
          let z = b.1 (q.1.1) in let w = c.1 (q.1.2) in ground (arith, x, y, z, w),
    )

-- A list of the objects that pass a test.
kept_iff :
    {O : Type 0} (test : O → Bool) (os xs : List O)
    → ◌≡◌ {A = Answer KubeError (List O)} (ok (keep test os)) (ok xs)
    → (o : O) → In o xs ↔ (In o os × (test o ≡ true))
kept_iff test os xs h o =
    let same : keep test os ≡ xs = cc h in
    (
      λ m. In-keep test o os (subst (λ ys. In o ys) (sym same) m),
      λ q. subst (λ ys. In o ys) same (keep-In test o os q.0 q.1),
    )

ok_tunnel : (a b : OwnedTunnel) → ◌≡◌ {A = Answer KubeError OwnedTunnel} (ok a) (ok b) → a ≡ b
ok_tunnel a b h = cc h

pub edge_server : ApiServer edge_api
unfolding HasKey SameKey drop_row small_store
edge_server = record {
  tunnels =
      small_store tunnel_keyed (λ s. s.tunnels) (λ r s. record s { tunnels = r }) (λ r s. refl);
  records =
      small_store record_keyed (λ s. s.records) (λ r s. record s { records = r }) (λ r s. refl);
  tunnel_key = λ t. (refl, refl);
  record_key = λ r. (refl, refl);
  tunnels_alive = λ s t i. refl;
  record_deleting = λ r. refl;
  tunnels_listed = λ s gw ts h t.
      let k = kept_iff (is_listed gw.namespace gw.name) s.tunnels.list ts h t in
      let l = listed_iff gw t in
      (λ m. let n = l.0 ((k.0 m).1) in ((k.0 m).0, n.0, n.1), λ q. k.1 (q.0, l.1 (q.1, q.2)));
  records_listed = λ s ns gw ds h r.
      let k = kept_iff (is_stamped ns gw.namespace gw.name) s.records.list ds h r in
      let l = stamped_iff ns gw r in
      (λ m. let n = l.0 ((k.0 m).1) in ((k.0 m).0, n.0, n.1), λ q. k.1 (q.0, l.1 (q.1, q.2)));
  owned = λ gw t t' h.
      let same : t' ≡ record t { controller = some gw.name } = sym (ok_tunnel _ t' h) in
      (
        ap (λ (x : OwnedTunnel). x.target_servers) same,
        ap (λ (x : OwnedTunnel). x.src_url) same,
        ap (λ (x : OwnedTunnel). x.dst_url) same,
        ap (λ (x : OwnedTunnel). x.labels) same,
        ap (λ (x : OwnedTunnel). has_value gw.name x.controller) same ∙ eq_refl gw.name,
      );
  routes_kept = λ s s' ns name f kind in_ns h. refl;
}
