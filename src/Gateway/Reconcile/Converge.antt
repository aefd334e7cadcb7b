-- ===== src/Gateway/Reconcile/Converge.antt =====
-- The WeftTunnels that a gateway has after the tunnel stages of its `Reconcile`.
use weft_operator.Prelude.{
  String, Option, none, some, ◌≡◌, refl, sym, ap, ◌∙◌, subst, inl, inr, Bool, true, Bool-cases, not,
  ◌||◌, List, [], ◌∷◌, map, contains, In, In-map, map-In, In-contains, contains-In, if◌then◌else◌,
  arith,
}
use weft_operator.Kube.{ok, Answer-cases, KubeError}
use weft_operator.Kube.Store.{Write, or_else, delete_one, delete_unless, unless_gone, SameKey}
use weft_operator.Kube.Store.Written.{HasWritten, write_all-HasWritten}
use weft_operator.Kube.Store.Pruned.{delete_unless-IsPruned}
use weft_operator.Resource.{resource}
use weft_operator.Gateway.{HttpRoute, Gateway, OwnedTunnel, Api}
use weft_operator.Gateway.Routes.{Wanted, tunnel_name}
use weft_operator.Gateway.Laws.{ApiServer, IsLabelled}
use weft_operator.Gateway.Reconcile.{
  gateway_labels, Progress, Setup, own_tunnel, tunnel_write, write_stages, prune_options, prune_one,
  prune_each, prune_stage, prune_after, tunnels_stage,
}
use weft_operator.Gateway.Reconcile.Asked.{Asked, wanted-Asked, Asked-wanted}
use weft_operator.Gateway.Reconcile.Plan.{wanted, write_stages-HasRun}

-- The tunnel is what the gateway writes for the wanted tunnel.
pub record IsTunnelOf (setup : Setup) {S : Type 0} (api : Api S) (gw : Gateway)
    (target_servers : List String) (w : Wanted) (t : OwnedTunnel) : Type 0 where
  pub namespace : t.namespace ≡ gw.namespace
  pub name_is : t.name ≡ tunnel_name setup.lib gw w
  pub servers : t.target_servers ≡ target_servers
  pub source : t.src_url ≡ w.src_url
  pub destination : t.dst_url ≡ w.dst_url
  pub labels : t.labels ≡ (
      ("app", "weft-gateway-tunnel")
      ∷ ("gateway", gw.name)
      ∷ ("route", w.route)
      ∷ ("created-by", "weft-operator")
      ∷ [])
  pub controlled : api.is_controlled_by t gw ≡ true

-- For the tunnels that a pass is asked for in the state it begins in: each one's name has a tunnel as asked
-- under that name, and the gateway's tunnels have no other names.
pub record IsConverged (setup : Setup) {S : Type 0} (api : Api S) (gw : Gateway)
    (target_servers : List String) (routes : List HttpRoute) (s : S) (stored : List OwnedTunnel)
    : Type 0 where
  pub present :
      (w : Wanted)
      → Asked setup api gw routes s w
      → (t : OwnedTunnel) × (v : Wanted) × In t stored
        × Asked setup api gw routes s v
        × (tunnel_name setup.lib gw v ≡ tunnel_name setup.lib gw w)
        × IsTunnelOf setup api gw target_servers v t
  pub no_other :
      (t : OwnedTunnel)
      → In t stored
      → t.namespace ≡ gw.namespace
      → IsLabelled gw t
      → api.is_controlled_by t gw ≡ true
      → (w : Wanted) × Asked setup api gw routes s w × (tunnel_name setup.lib gw w ≡ t.name)

module _ (setup : Setup) {S : Type 0} (api : Api S) (gw : Gateway)
    (target_servers : List String) where
  -- What the pruning loop leaves alone.
  abbrev is_left : List String → OwnedTunnel → Bool
  is_left expected t = not (api.is_controlled_by t gw) || contains expected t.name

  prune_one_lem :
      (expected : List String) (t : OwnedTunnel) (s : S)
      → prune_one setup api gw target_servers expected t s
        ≡ (if is_left expected t then (none, s) else delete_one api.tunnels (λ e. e) t s)
  unfolding prune_one prune_options resource delete_one
  prune_one_lem expected t s = elim (Bool-cases (api.is_controlled_by t gw)) [
    | inr c ↦ rw c refl
    | inl c ↦ elim (Bool-cases (contains expected t.name)) [
      | inl m ↦ rw (c, m) refl
      | inr m ↦ rw (c, m) refl
    ]
  ]

  prune_each_lem :
      (expected : List String) (ts : List OwnedTunnel) (s : S)
      → prune_each setup api gw target_servers expected ts s
        ≡ delete_unless api.tunnels (λ e. e) (is_left expected) ts s
  unfolding prune_each delete_unless
  prune_each_lem expected [] s = refl
  prune_each_lem expected (t ∷ ts) s =
      λ i. or_else (prune_one_lem expected t s i) (λ x. prune_each_lem expected ts x i)

module _ (setup : Setup) {S : Type 0} (api : Api S) (server : ApiServer api) (gw : Gateway)
    (target_servers : List String) where
  written-IsTunnelOf :
      (ws : List Wanted) (stored : List OwnedTunnel) (name : String)
      → (v : HasWritten api.tunnels stored gw.namespace
          (map (tunnel_write setup api gw target_servers) ws)
          name)
      → (w : Wanted) × In w ws
        × (tunnel_name setup.lib gw w ≡ name)
        × IsTunnelOf setup api gw target_servers w v.object
  unfolding SameKey own_tunnel gateway_labels
  written-IsTunnelOf ws stored name v =
      let (w, i, q) = In-map (tunnel_write setup api gw target_servers) v.write ws v.member in
      let sent = subst (λ (x : Write OwnedTunnel). x.mutate v.old ≡ ok v.object) (sym q) v.sends in
      let (servers, source, destination, labels, controlled) = server.owned gw _ v.object sent in
      let same = ap (λ (x : Write OwnedTunnel). x.name) q ∙ v.same_name in
      let (kn, km) = server.tunnel_key v.object in
      (
        w,
        i,
        same,
        record {
          namespace = sym kn ∙ v.key.0;
          name_is = sym km ∙ v.key.1 ∙ sym same;
          servers = servers;
          source = source;
          destination = destination;
          labels = labels;
          controlled = controlled;
        },
      )

  prune_stage-IsPruned :
      (p : Progress S) (s' : S)
      → prune_stage setup api gw target_servers p ≡ (none, s')
      → ((t : OwnedTunnel)
          → In t (server.tunnels.stored p.state)
          → contains p.expected t.name ≡ true
          → In t (server.tunnels.stored s'))
        × ((t : OwnedTunnel)
            → In t (server.tunnels.stored s')
            → t.namespace ≡ gw.namespace
            → IsLabelled gw t
            → api.is_controlled_by t gw ≡ true
            → contains p.expected t.name ≡ true)
  unfolding prune_stage
  prune_stage-IsPruned p s' h =
      elim (Answer-cases (api.list_tunnels p.state gw.namespace gw.name)) [
        | inr (x, e) ↦ let k : (some x, p.state) ≡ (none, s') = rw (e, prune_stage) at h in cc k
        | inl (ts, e) ↦
            let k : prune_each setup api gw target_servers p.expected ts p.state ≡ (none, s') =
              rw (e, prune_stage) at h in
            let d =
              delete_unless-IsPruned api.tunnels server.tunnels (λ e. e) (λ e q. ap unless_gone q)
                (is_left setup api gw target_servers p.expected) ts p.state s'
                (λ x o i j q.
                  server.tunnels.unique p.state x o i
                    ((server.tunnels_listed p.state gw ts e o).0 j).0 q)
                (sym (prune_each_lem setup api gw target_servers p.expected ts p.state) ∙ k) in
            (
              λ t i c. d.kept t i (ground (arith, c)),
              λ t i n l c.
                  let alive = server.tunnels_alive s' t i in
                  let g =
                    d.gone t ((server.tunnels_listed p.state gw ts e t).1 (d.fewer t i alive, n, l))
                      i alive in
                  ground (arith, g, c),
            )
      ]

  tunnels_stage_lem :
      (a : Option KubeError × Progress S) (s' : S)
      → prune_after setup api gw target_servers a ≡ (none, s')
      → (p : Progress S) × (a ≡ (none, p))
        × (prune_stage setup api gw target_servers p ≡ (none, s'))
  tunnels_stage_lem (none, p) s' h = (p, refl, h)
  tunnels_stage_lem (some e, p) s' h = cc h

  -- Where the HTTPRoutes are listed and the tunnel stages end without an error, each tunnel asked for has a
  -- tunnel of its name in the gateway's namespace, with the target servers, the URLs, the labels and
  -- the controller that one of the tunnels asked for under that name gets; and every tunnel there with
  -- the gateway's labels that the gateway controls has the name of one asked for. An HTTPRoute asks for
  -- a tunnel from each Service of a rule to each match of the rule on the host of each listener that a
  -- parent of the route binds it to with overlapping host names; a TCPRoute, TLSRoute or UDPRoute
  -- from each Service of a rule to each listener of its protocol that a parent selects. A kind
  -- of these three that is not served, or whose list fails in the state the stages begin in, asks
  -- for nothing: the stages end all the same, and the tunnels of its routes are pruned. The API server
  -- behaves as documented; a WeftTunnel has no finalizers.
  pub tunnels_stage-IsConverged :
      (routes : List HttpRoute) (s s' : S)
      → api.list_http_routes s ≡ ok routes
      → tunnels_stage setup api gw target_servers s ≡ (none, s')
      → IsConverged setup api gw target_servers routes s (server.tunnels.stored s')
  unfolding tunnels_stage
  tunnels_stage-IsConverged routes s s' e h =
      let ws = wanted setup api gw routes s in
      let named = tunnel_name setup.lib gw in
      let (p, k, d) = tunnels_stage_lem (write_stages setup api gw target_servers s) s' h in
      let r = write_stages-HasRun setup api server gw target_servers routes s p e k in
      let (kept, gone) = prune_stage-IsPruned p s' d in
      record {
        present = λ w asked.
            let i = Asked-wanted setup api gw routes s w asked in
            let v =
              write_all-HasWritten api.tunnels server.tunnels gw.namespace _ s p.state r.wrote
                (tunnel_write setup api gw target_servers w)
                (map-In (tunnel_write setup api gw target_servers) w ws i) in
            let (x, j, q, u) = written-IsTunnelOf ws (server.tunnels.stored p.state) (named w) v in
            let c =
              In-contains v.object.name (map named ws)
                (subst (λ n. In n (map named ws)) (sym u.name_is) (map-In named x ws j)) in
            (
              v.object,
              x,
              kept v.object v.present
                  (subst (λ ns. contains ns v.object.name ≡ true) (sym r.names) c),
              wanted-Asked setup api gw routes s x j,
              q,
              u,
            );
        no_other = λ t i n l c.
            let g = subst (λ ns. contains ns t.name ≡ true) r.names (gone t i n l c) in
            let (w, j, q) = In-map named t.name ws (contains-In t.name (map named ws) g) in
            (w, wanted-Asked setup api gw routes s w j, q);
      }
