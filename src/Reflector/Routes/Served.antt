-- ===== src/Reflector/Routes/Served.antt =====
-- The routes and the host names without one that computeRoutes of
-- internal/controller/weftlocaldnsreflector/routes.go comes to.
use weft_operator.Prelude.{
  String, ◌≡◌, ◌≢◌, refl, sym, ap, ◌∙◌, subst, ◌↔◌, inl, inr, Bool, true, List, [], ◌∷◌, ◌++◌, map,
  keep, contains, any, append-nil, append_assoc, In, In-append, In-append_left, In-append_right,
  In-keep, keep-In, any-In, In-any, eq_iff, arith, Bool-cases, ◌==◌,
}
use weft_operator.Prelude.Text.{to_lower, text_lt}
use weft_operator.Prelude.Sort.{sort_by, sort_by-In, In-sort_by}
use weft_operator.Kube.{Answer, ok, err}
use weft_operator.Reflector.{Tunnel}
use weft_operator.Reflector.Routes.{
  Link, Links, Route, Reflected, route, skip, RouteSet, tunnel_less, route_less, key_of,
  reflect_tunnel, add_reflected, visit_link, visit, visit_all, is_unrouted, compute_routes,
}

module _ (lib : Links) where
  -- The tunnel can be reflected, as this route.
  pub record IsReflected (wanted : List String) (t : Tunnel) (r : Route) : Type 0 where
    pub link : Link
    pub parsed : lib.parse t.dst_url ≡ ok link
    pub is_wanted : contains wanted (to_lower (lib.hostname link)) ≡ true
    pub base : Route
    pub reflected : reflect_tunnel lib (to_lower (lib.hostname link)) t.src_url link ≡ route base
    pub keyed : record base { tunnel = key_of t } ≡ r

  -- Every route is that of a tunnel, each tunnel that can be reflected has its destination served, and no
  -- two routes have one destination.
  pub record IsServed (wanted : List String) (ts : List Tunnel) (routes : List Route) : Type 0 where
    pub sound : (r : Route) → In r routes → (t : Tunnel) × In t ts × IsReflected wanted t r
    pub complete :
        (t : Tunnel) (r : Route)
        → In t ts
        → IsReflected wanted t r
        → (s : Route) × In s routes × (s.destination ≡ r.destination)
    pub apart : (r s : Route) → In r routes → In s routes → r.destination ≡ s.destination → r ≡ s

  module _ (wanted : List String) where
    -- A visit leaves the routes alone, and the tunnel cannot be reflected or its destination is served; or it
    -- adds the tunnel's route of a new destination.
    data IsVisited (t : Tunnel) (before after : List Route) : Type 0 where
      left :
          before ≡ after
          → ((r : Route)
              → IsReflected wanted t r
              → (s : Route) × In s before × (s.destination ≡ r.destination))
          → IsVisited t before after
      added :
          (r : Route)
          → IsReflected wanted t r
          → after ≡ before ++ r ∷ []
          → ((s : Route) → In s before → s.destination ≢ r.destination)
          → IsVisited t before after

    same_base :
        (t : Tunnel) (r base : Route) (dst : Link)
        → lib.parse t.dst_url ≡ ok dst
        → reflect_tunnel lib (to_lower (lib.hostname dst)) t.src_url dst ≡ route base
        → IsReflected wanted t r
        → r ≡ record base { tunnel = key_of t }
    same_base t r base dst q e i =
        let same : i.link ≡ dst = let k : ok i.link ≡ ok dst = sym i.parsed ∙ q in cc k in
        let k : route i.base ≡ route base =
          sym i.reflected
          ∙ ap (λ l. reflect_tunnel lib (to_lower (lib.hostname l)) t.src_url l) same
          ∙ e in
        let b : i.base ≡ base = cc k in
        sym i.keyed ∙ ap (λ (x : Route). record x { tunnel = key_of t }) b

    added-IsVisited :
        (t : Tunnel) (set : RouteSet) (dst : Link) (x : Reflected)
        → lib.parse t.dst_url ≡ ok dst
        → contains wanted (to_lower (lib.hostname dst)) ≡ true
        → reflect_tunnel lib (to_lower (lib.hostname dst)) t.src_url dst ≡ x
        → IsVisited t set.routes (add_reflected lib (key_of t) x set).routes
    added-IsVisited t set dst (skip reason) q w e = left refl (λ r i.
        let same : i.link ≡ dst = let k : ok i.link ≡ ok dst = sym i.parsed ∙ q in cc k in
        let k : route i.base ≡ skip reason =
          sym i.reflected
          ∙ ap (λ l. reflect_tunnel lib (to_lower (lib.hostname l)) t.src_url l) same
          ∙ e in
        cc k)
    added-IsVisited t set dst (route base) q w e =
        let test = λ (x : Route). x.destination == base.destination in
        elim (Bool-cases (any test set.routes)) [
          | inl d ↦ rw d (
              left refl (λ r i.
                let (s, m, p) = any-In test set.routes d in
                (
                  s,
                  m,
                  (eq_iff s.destination base.destination).0 p
                      ∙ sym (ap (λ (x : Route). x.destination) (same_base t r base dst q e i)),
                )))
          | inr d ↦ rw d (
              added (record base { tunnel = key_of t })
                (record {
                  link = dst;
                  parsed = q;
                  is_wanted = w;
                  base = base;
                  reflected = e;
                  keyed = refl;
                })
                refl
                (λ s m p.
                  let k =
                    In-any test set.routes s m ((eq_iff s.destination base.destination).1 p) in
                  cc (d, k)))
        ]

    linked-IsVisited :
        (t : Tunnel) (set : RouteSet) (a : Answer String Link)
        → lib.parse t.dst_url ≡ a
        → IsVisited t set.routes (visit_link lib wanted t set a).routes
    linked-IsVisited t set (err e) q =
        left refl (λ r i. let k : ok i.link ≡ err e = sym i.parsed ∙ q in cc k)
    linked-IsVisited t set (ok dst) q =
        elim (Bool-cases (contains wanted (to_lower (lib.hostname dst)))) [
          | inl w ↦ rw w (
              added-IsVisited t set dst
                (reflect_tunnel lib (to_lower (lib.hostname dst)) t.src_url dst) q w refl)
          | inr w ↦ rw w (
              left refl (λ r i.
                let same : i.link ≡ dst = let k : ok i.link ≡ ok dst = sym i.parsed ∙ q in cc k in
                let k =
                  subst (λ l. contains wanted (to_lower (lib.hostname l)) ≡ true) same
                    i.is_wanted in
                cc (w, k)))
        ]

    visit-IsVisited :
        (t : Tunnel) (set : RouteSet) → IsVisited t set.routes (visit lib wanted t set).routes
    unfolding visit
    visit-IsVisited t set = linked-IsVisited t set (lib.parse t.dst_url) refl

    visited-IsServed :
        (seen : List Tunnel) (t : Tunnel) (before after : List Route)
        → IsServed wanted seen before
        → IsVisited t before after
        → IsServed wanted (seen ++ t ∷ []) after
    visited-IsServed seen t before after v (left same full) =
        subst (λ rs. IsServed wanted (seen ++ t ∷ []) rs) same
          (record {
            sound = λ r i. let (u, j, k) = v.sound r i in (u, In-append_left u seen (t ∷ []) j, k);
            complete = λ u r i k. elim (In-append u seen (t ∷ []) i) [
              | inl j ↦ v.complete u r j k
              | inr (inl e) ↦ full r (subst (λ x. IsReflected wanted x r) e k)
              | inr (inr n) ↦ absurd n
            ];
            apart = v.apart;
          })
    visited-IsServed seen t before after v (added new f same fresh) =
        subst (λ rs. IsServed wanted (seen ++ t ∷ []) rs) (sym same)
          (record {
            sound = λ r i. elim (In-append r before (new ∷ []) i) [
              | inl j ↦ let (u, m, k) = v.sound r j in (u, In-append_left u seen (t ∷ []) m, k)
              | inr (inl e) ↦ (
                t,
                In-append_right t seen (t ∷ []) (inl refl),
                subst (λ x. IsReflected wanted t x) (sym e) f,
              )
              | inr (inr n) ↦ absurd n
            ];
            complete = λ u r i k. elim (In-append u seen (t ∷ []) i) [
              | inl j ↦
                  let (s, m, e) = v.complete u r j k in (s, In-append_left s before (new ∷ []) m, e)
              | inr (inl e) ↦
                  let q =
                    same_base t r f.base f.link f.parsed f.reflected
                      (subst (λ x. IsReflected wanted x r) e k) in
                  (
                    new,
                    In-append_right new before (new ∷ []) (inl refl),
                    ap (λ (x : Route). x.destination) (sym (q ∙ f.keyed)),
                  )
              | inr (inr n) ↦ absurd n
            ];
            apart = λ r s i j e. elim (In-append r before (new ∷ []) i) [
              | inl a ↦ elim (In-append s before (new ∷ []) j) [
                | inl b ↦ v.apart r s a b e
                | inr (inl b) ↦ absurd (fresh r a (e ∙ ap (λ (x : Route). x.destination) b))
                | inr (inr n) ↦ absurd n
              ]
              | inr (inl a) ↦ elim (In-append s before (new ∷ []) j) [
                | inl b ↦ absurd (fresh s b (sym e ∙ ap (λ (x : Route). x.destination) a))
                | inr (inl b) ↦ a ∙ sym b
                | inr (inr n) ↦ absurd n
              ]
              | inr (inr n) ↦ absurd n
            ];
          })

    visit_all-IsServed :
        (seen ts : List Tunnel) (set : RouteSet)
        → IsServed wanted seen set.routes
        → IsServed wanted (seen ++ ts) (visit_all lib wanted set ts).routes
    unfolding visit_all
    visit_all-IsServed seen [] set v =
        subst (λ us. IsServed wanted us set.routes) (sym (append-nil seen)) v
    visit_all-IsServed seen (t ∷ ts) set v =
        subst (λ us. IsServed wanted us (visit_all lib wanted set (t ∷ ts)).routes)
          (append_assoc seen (t ∷ []) ts)
          (visit_all-IsServed (seen ++ t ∷ []) ts (visit lib wanted t set) (
            visited-IsServed seen t set.routes (visit lib wanted t set).routes v
              (visit-IsVisited t set)))

  -- The routes of computeRoutes are those of tunnels whose destination is on one of the host names and can be
  -- reflected, each such tunnel has its destination served, no two routes have one destination, and
  -- the unrouted host names are exactly those that no route is for.
  pub compute_routes-IsServed :
      (hostnames : List String) (tunnels : List Tunnel)
      → IsServed (map to_lower hostnames) tunnels (compute_routes lib hostnames tunnels).routes
        × ((h : String)
            → In h (compute_routes lib hostnames tunnels).unrouted ↔ (
                In h hostnames
                × ((r : Route)
                    → In r (compute_routes lib hostnames tunnels).routes
                    → r.hostname ≢ to_lower h)))
  unfolding compute_routes
  compute_routes-IsServed hostnames tunnels =
      let wanted = map to_lower hostnames in
      let set =
        visit_all lib wanted (record { routes = []; unrouted = []; skipped = [] })
          (sort_by tunnel_less tunnels) in
      let v =
        visit_all-IsServed wanted [] (sort_by tunnel_less tunnels)
          (record { routes = []; unrouted = []; skipped = [] })
          (record {
            sound = λ r i. absurd i;
            complete = λ t r i k. absurd i;
            apart = λ r s i j e. absurd i;
          }) in
      (
        record {
          sound = λ r i.
              let (t, j, k) = v.sound r (sort_by-In route_less r set.routes i) in
              (t, sort_by-In tunnel_less t tunnels j, k);
          complete = λ t r i k.
              let (s, j, e) = v.complete t r (In-sort_by tunnel_less t tunnels i) k in
              (s, In-sort_by route_less s set.routes j, e);
          apart = λ r s i j e.
              v.apart r s (sort_by-In route_less r set.routes i)
                (sort_by-In route_less s set.routes j) e;
        },
        λ h.
            let test : String → Bool = is_unrouted lib set.routes in
            let for_h : Route → Bool = λ (r : Route). r.hostname == to_lower h in
            (
              λ i.
                  let (j, p) =
                    In-keep test h hostnames (sort_by-In text_lt h (keep test hostnames) i) in
                  (
                    j,
                    λ r m e.
                        let k =
                          In-any for_h set.routes r (sort_by-In route_less r set.routes m)
                            ((eq_iff r.hostname (to_lower h)).1 e) in
                        ground (arith, p, k),
                  ),
              λ o. In-sort_by text_lt h (keep test hostnames) (
                  keep-In test h hostnames o.0 (elim (Bool-cases (any for_h set.routes)) [
                    | inr n ↦ ground (arith, n)
                    | inl y ↦
                        let (r, m, e) = any-In for_h set.routes y in
                        absurd (
                          o.1 r (In-sort_by route_less r set.routes m)
                            ((eq_iff r.hostname (to_lower h)).0 e))
                  ])),
            ),
      )
