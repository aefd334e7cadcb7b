-- ===== src/WeftTunnel/Enqueue.antt =====
-- `findTunnelsForServer` of internal/controller/wefttunnel/reconciler.go beside the target servers of
-- `Reconcile`.
use weft_operator.Prelude.{
  String, none, some, ◌≡◌, ◌≢◌, refl, sym, ap, ◌∙◌, subst, ◌↔◌, ◌⊎◌, inl, inr, true, false, List,
  [], ◌∷◌, ◌++◌, is_empty, eq_iff, arith, In, In-append, In-append_left, In-append_right,
  Bool-cases, text_cases, contains-In, In-contains, if◌then◌else◌,
}
use weft_operator.Kube.{Answer, ok, err, Answer-cases, KubeError, not_found, already_exists, other}
use weft_operator.WeftTunnel.{WeftServer, WeftTunnel, Request, Cluster}
use weft_operator.WeftTunnel.Reconcile.{
  both_namespaces, all_servers, with_server, named_servers, targets, request_of, is_enqueued,
  enqueued, find_tunnels_for_server, scope,
}
use weft_operator.WeftTunnel.Laws.{Readable}

-- Which servers a tunnel is for.
unfoldable pub IsTarget : WeftServer → WeftTunnel → Type 0
IsTarget server t =
    ((t.target_servers ≡ [])
      × ((server.namespace ≡ t.namespace) ⊎ (server.namespace ≡ "weft-system")))
    ⊎ ((t.target_servers ≢ []) × (server.namespace ≡ t.namespace) × In server.name t.target_servers)

List-cases : {A : Type 0} (xs : List A) → (xs ≡ []) ⊎ ((y : A) × (ys : List A) × (xs ≡ y ∷ ys))
List-cases [] = inl refl
List-cases (y ∷ ys) = inr (y, ys, refl)

branch :
    {A B : Type 0} (xs : List B) (a b : A) (ys : List B)
    → xs ≡ ys
    → (if is_empty xs then a else b) ≡ (if is_empty ys then a else b)
branch xs a b ys e = ap (λ zs. if is_empty zs then a else b) e

same_list :
    {P : Type 0} (server : WeftServer) (xs ys : List WeftServer)
    → xs ≡ ys
    → In server xs ↔ P
    → In server ys ↔ P
same_list {P} server xs ys e h = subst (λ zs. In server zs ↔ P) e h

module _ {S : Type 0} (c : Cluster S) (reads : Readable c) (s : S) where
  here_lem :
      (t : WeftTunnel) (here : List WeftServer) (server : WeftServer)
      → c.list_servers s t.namespace ≡ ok here
      → In server (reads.servers s)
      → t.namespace ≡ "weft-system"
      → In server here ↔ ((server.namespace ≡ t.namespace) ⊎ (server.namespace ≡ "weft-system"))
  here_lem t here server h m e =
      let l = reads.servers_listed s t.namespace here h server in
      (λ i. inl ((l.0 i).1), λ o. l.1 (m, elim o [ inl p ↦ p | inr p ↦ p ∙ sym e ]))

  system_lem :
      (t : WeftTunnel) (here system : List WeftServer) (server : WeftServer)
      → c.list_servers s t.namespace ≡ ok here
      → c.list_servers s "weft-system" ≡ ok system
      → In server (reads.servers s)
      → In server (here ++ system)
        ↔ ((server.namespace ≡ t.namespace) ⊎ (server.namespace ≡ "weft-system"))
  system_lem t here system server h k m =
      let l = reads.servers_listed s t.namespace here h server in
      let y = reads.servers_listed s "weft-system" system k server in
      (
        λ i. elim (In-append server here system i) [
          | inl p ↦ inl ((l.0 p).1)
          | inr p ↦ inr ((y.0 p).1)
        ],
        λ o. elim o [
          | inl p ↦ In-append_left server here system (l.1 (m, p))
          | inr p ↦ In-append_right server here system (y.1 (m, p))
        ],
      )

  both_lem :
      (t : WeftTunnel) (here srvs : List WeftServer) (server : WeftServer)
      → c.list_servers s t.namespace ≡ ok here
      → both_namespaces c s t here ≡ ok srvs
      → In server (reads.servers s)
      → In server srvs ↔ ((server.namespace ≡ t.namespace) ⊎ (server.namespace ≡ "weft-system"))
  unfolding both_namespaces
  both_lem t here srvs server h b m = elim (text_cases t.namespace "weft-system") [
    | inl (e, p) ↦
        let q : ok here ≡ ok srvs = rw e at b in
        same_list server here srvs (cc q) (here_lem t here server h m p)
    | inr (e, _) ↦ elim (Answer-cases (c.list_servers s "weft-system")) [
      | inl (system, k) ↦
          let q : ok (here ++ system) ≡ ok srvs = rw (e, k) at b in
          same_list server (here ++ system) srvs (cc q) (system_lem t here system server h k m)
      | inr (x, k) ↦ let q : err x ≡ ok srvs = rw (e, k) at b in absurd (cc q)
    ]
  ]

  all_lem :
      (t : WeftTunnel) (srvs : List WeftServer) (server : WeftServer)
      → all_servers c s t ≡ ok srvs
      → In server (reads.servers s)
      → In server srvs ↔ ((server.namespace ≡ t.namespace) ⊎ (server.namespace ≡ "weft-system"))
  unfolding all_servers
  all_lem t srvs server b m = elim (Answer-cases (c.list_servers s t.namespace)) [
    | inl (here, h) ↦ both_lem t here srvs server h (rw (h, all_servers) at b) m
    | inr (x, h) ↦ let q : err x ≡ ok srvs = rw (h, all_servers) at b in absurd (cc q)
  ]

  InNamed : WeftServer → String → List String → Type 0
  InNamed server ns names = (server.namespace ≡ ns) × In server.name names

  found_lem :
      (ns name : String) (names : List String) (x server : WeftServer) (rest : List WeftServer)
      → c.get_server s ns name ≡ ok x
      → In server (reads.servers s)
      → In server rest ↔ InNamed server ns names
      → In server (x ∷ rest) ↔ InNamed server ns (name ∷ names)
  unfolding InNamed
  found_lem ns name names x server rest h m r =
      let (i, p, q) = reads.server_read s ns name x h in
      (
        λ o. elim o [
          | inl e ↦ (cc (e, p), inl (cc (e, q)))
          | inr j ↦ let (u, v) = r.0 j in (u, inr v)
        ],
        λ o. elim (o.1) [
          | inl e ↦ inl (reads.servers_unique s server x m i (o.0 ∙ sym p) (e ∙ sym q))
          | inr v ↦ inr (r.1 (o.0, v))
        ],
      )

  absent_lem :
      (ns name : String) (names : List String) (server : WeftServer) (rest : List WeftServer)
      → c.get_server s ns name ≡ err not_found
      → In server (reads.servers s)
      → In server rest ↔ InNamed server ns names
      → In server rest ↔ InNamed server ns (name ∷ names)
  unfolding InNamed
  absent_lem ns name names server rest h m r = (
    λ j. let (u, v) = r.0 j in (u, inr v),
    λ o. elim (o.1) [
      | inl e ↦ absurd (reads.server_absent s ns name server h m o.0 e)
      | inr v ↦ r.1 (o.0, v)
    ],
  )

  step_lem :
      (ns name : String) (names : List String) (server : WeftServer)
      (a : Answer KubeError WeftServer) (r : Answer KubeError (List WeftServer))
      (srvs : List WeftServer)
      → In server (reads.servers s)
      → c.get_server s ns name ≡ a
      → ((rest : List WeftServer) → r ≡ ok rest → In server rest ↔ InNamed server ns names)
      → with_server a r ≡ ok srvs
      → In server srvs ↔ InNamed server ns (name ∷ names)
  step_lem ns name names server (ok x) (ok rest) srvs m h ih b =
      let same : x ∷ rest ≡ srvs = cc b in
      same_list server (x ∷ rest) srvs same
        (found_lem ns name names x server rest h m (ih rest refl))
  step_lem ns name names server (ok x) (err e) srvs m h ih b = absurd (cc b)
  step_lem ns name names server (err not_found) r srvs m h ih b =
      absent_lem ns name names server srvs h m (ih srvs b)
  step_lem ns name names server (err already_exists) r srvs m h ih b = absurd (cc b)
  step_lem ns name names server (err (other e)) r srvs m h ih b = absurd (cc b)

  named_lem :
      (ns : String) (names : List String) (server : WeftServer) (srvs : List WeftServer)
      → In server (reads.servers s)
      → named_servers c s ns names ≡ ok srvs
      → In server srvs ↔ InNamed server ns names
  unfolding named_servers InNamed
  named_lem ns [] server srvs m b = same_list server [] srvs (cc b) (absurd, λ o. absurd (o.1))
  named_lem ns (name ∷ names) server srvs m b =
      step_lem ns name names server (c.get_server s ns name) (named_servers c s ns names) srvs m
        refl (λ rest k. named_lem ns names server rest m k) b

  -- The servers that `Reconcile` reaches for are the targets.
  targets_lem :
      (t : WeftTunnel) (server : WeftServer) (srvs : List WeftServer)
      → In server (reads.servers s)
      → targets c s t ≡ ok srvs
      → In server srvs ↔ IsTarget server t
  unfolding targets IsTarget InNamed
  targets_lem t server srvs m b = elim (List-cases t.target_servers) [
    | inl e ↦
        let r =
          all_lem t srvs server (sym (branch t.target_servers (all_servers c s t) _ [] e) ∙ b) m in
        (λ i. inl (e, r.0 i), λ o. elim o [ inl p ↦ r.1 (p.1) | inr p ↦ absurd ((p.0) e) ])
    | inr (x, xs, e) ↦
        let named = named_servers c s t.namespace t.target_servers in
        let r =
          named_lem t.namespace t.target_servers server srvs m
            (sym (branch t.target_servers (all_servers c s t) named (x ∷ xs) e) ∙ b) in
        (
          λ i. let (u, v) = r.0 i in inr (λ p. cc (e, p), u, v),
          λ o. elim o [ inl p ↦ absurd (cc (e, p.0)) | inr p ↦ r.1 (p.1, p.2) ],
        )
  ]

-- What `findTunnelsForServer` asks of a tunnel is what makes the server a target.
is_enqueued-IsTarget :
    (server : WeftServer) (t : WeftTunnel)
    → server.namespace ≡ t.namespace ⊎ (server.namespace ≡ "weft-system")
    → (is_enqueued server t ≡ true) ↔ IsTarget server t
unfolding is_enqueued IsTarget
is_enqueued-IsTarget server t o = elim (List-cases t.target_servers) [
  | inl e ↦ (λ h. inl (e, o), λ h. rw e refl)
  | inr (x, xs, e) ↦ (
    λ h.
        let k : is_empty t.target_servers ≡ false = ap is_empty e in
        inr (
          λ p. cc (e, p),
          sym ((eq_iff t.namespace server.namespace).0 (ground (arith, h, k))),
          contains-In server.name t.target_servers (ground (arith, h, k)),
        ),
    λ h. elim h [
      | inl p ↦ absurd (cc (e, p.0))
      | inr p ↦
          let n = (eq_iff t.namespace server.namespace).1 (sym (p.1)) in
          let i = In-contains server.name t.target_servers (p.2) in ground (arith, n, i)
    ],
  )
]

enqueued-In :
    (server : WeftServer) (ts : List WeftTunnel) (q : Request)
    → In q (enqueued server ts)
    → (t : WeftTunnel) × In t ts × (is_enqueued server t ≡ true) × (q ≡ request_of t)
unfolding enqueued
enqueued-In server [] q m = absurd m
enqueued-In server (t ∷ ts) q m = elim (Bool-cases (is_enqueued server t)) [
  | inl e ↦
      let k : In q (request_of t ∷ enqueued server ts) = rw e at m in
      elim k [
        | inl h ↦ (t, inl refl, e, h)
        | inr h ↦ let (u, i, p, r) = enqueued-In server ts q h in (u, inr i, p, r)
      ]
  | inr e ↦
      let k : In q (enqueued server ts) = rw e at m in
      let (u, i, p, r) = enqueued-In server ts q k in (u, inr i, p, r)
]

In-enqueued :
    (server : WeftServer) (ts : List WeftTunnel) (t : WeftTunnel)
    → In t ts
    → is_enqueued server t ≡ true
    → In (request_of t) (enqueued server ts)
unfolding enqueued
In-enqueued server [] t m h = absurd m
In-enqueued server (u ∷ ts) t (inl e) h =
    let k : is_enqueued server u ≡ true = subst (λ x. is_enqueued server x ≡ true) e h in
    rw k (inl (ap request_of e))
In-enqueued server (u ∷ ts) t (inr m) h = elim (Bool-cases (is_enqueued server u)) [
  | inl e ↦ rw e (inr (In-enqueued server ts t m h))
  | inr e ↦ rw e (In-enqueued server ts t m h)
]

module _ {S : Type 0} (c : Cluster S) (reads : Readable c) (s : S) where
  listed_lem :
      (server : WeftServer) (ts : List WeftTunnel) (t : WeftTunnel)
      → c.list_tunnels s (scope server) ≡ ok ts
      → In t ts ↔ (
          In t (reads.tunnels s)
          × (server.namespace ≡ t.namespace ⊎ (server.namespace ≡ "weft-system")))
  unfolding scope
  listed_lem server ts t h = elim (text_cases server.namespace "weft-system") [
    | inl (e, p) ↦
        let k : c.list_tunnels s none ≡ ok ts = rw e at h in
        let l = reads.tunnels_listed_all s ts k t in (λ m. (l.0 m, inr p), λ o. l.1 (o.0))
    | inr (e, n) ↦
        let k : c.list_tunnels s (some server.namespace) ≡ ok ts = rw e at h in
        let l = reads.tunnels_listed s server.namespace ts k t in
        (
          λ m. let (i, p) = l.0 m in (i, inl (sym p)),
          λ o. elim (o.1) [ inl p ↦ l.1 (o.0, sym p) | inr p ↦ absurd (n p) ],
        )
  ]

  found_requests :
      (server : WeftServer) (ts : List WeftTunnel)
      → c.list_tunnels s (scope server) ≡ ok ts
      → find_tunnels_for_server c server s ≡ enqueued server ts
  unfolding find_tunnels_for_server
  found_requests server ts h = rw (h, find_tunnels_for_server) refl

  target_namespace :
      (server : WeftServer) (t : WeftTunnel)
      → IsTarget server t
      → server.namespace ≡ t.namespace ⊎ (server.namespace ≡ "weft-system")
  unfolding IsTarget
  target_namespace server t (inl p) = p.1
  target_namespace server t (inr p) = inl (p.1)

  -- A change of a stored server enqueues a stored tunnel exactly if the reconciler of that tunnel
  -- takes the server among its target servers. The list of tunnels and the reading of the targets
  -- succeed, and the reads see the cluster's servers and tunnels, whose keys are unique.
  pub find_tunnels_for_server-targets :
      (server : WeftServer) (t : WeftTunnel) (ts : List WeftTunnel) (srvs : List WeftServer)
      → In server (reads.servers s)
      → In t (reads.tunnels s)
      → c.list_tunnels s (scope server) ≡ ok ts
      → targets c s t ≡ ok srvs
      → In (request_of t) (find_tunnels_for_server c server s) ↔ In server srvs
  find_tunnels_for_server-targets server t ts srvs ms mt h b =
      let same = found_requests server ts h in
      let goal = targets_lem c reads s t server srvs ms b in
      (
        λ m.
            let (u, i, p, q) =
              enqueued-In server ts (request_of t) (subst (λ rs. In (request_of t) rs) same m) in
            let (j, o) = (listed_lem server ts u h).0 i in
            let e =
              reads.tunnels_unique s u t j mt (sym (ap (λ (r : Request). r.namespace) q))
                (sym (ap (λ (r : Request). r.name) q)) in
            goal.1 (subst (λ x. IsTarget server x) e ((is_enqueued-IsTarget server u o).0 p)),
        λ m.
            let target = goal.0 m in
            let o = target_namespace server t target in
            let i =
              In-enqueued server ts t ((listed_lem server ts t h).1 (mt, o))
                ((is_enqueued-IsTarget server t o).1 target) in
            subst (λ rs. In (request_of t) rs) (sym same) i,
      )
