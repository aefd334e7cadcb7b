-- ===== src/WeftTunnel/Converge.antt =====
-- The store after a pass of the tunnel reconciler: internal/controller/wefttunnel/reconciler.go.
use weft_operator.Prelude.{
  String, Option, none, some, ◌≡◌, refl, sym, ap, ◌∙◌, subst, ◌⊎◌, inl, inr, true, false, List, [],
  ◌∷◌, contains, ◌==◌, eq_iff, arith, In, Bool-cases, text_cases,
}
use weft_operator.Kube.{ok, Answer-cases, KubeError}
use weft_operator.WeftTunnel.{WeftServer, WeftTunnel, Deployment, Cluster}
use weft_operator.WeftTunnel.Reconcile.{
  dep_name, construct_target_url, labels_of, own_labels, mutate, expected, deploy, delete_obsolete,
  prune, deploy_and_prune, targets, body,
}
use weft_operator.WeftTunnel.Laws.{ApiServer, SameKey, IsWritten, matches}

SameKey-decide : (d : Deployment) (ns name : String) → SameKey d ns name ⊎ (¬ SameKey d ns name)
unfolding SameKey
SameKey-decide d ns name = elim (text_cases d.namespace ns) [
  | inl (_, p) ↦ elim (text_cases d.name name) [
    | inl (_, q) ↦ inl (p, q)
    | inr (_, n) ↦ inr (λ k. n (k.1))
  ]
  | inr (_, n) ↦ inr (λ k. n (k.0))
]

-- A deployment in the tunnel's namespace serves the server: it has the server's deployment name, it
-- belongs to the tunnel, and its labels are those of a target server of that deployment name.
pub record Serves (t : WeftTunnel) (all : List WeftServer) (srv : WeftServer) (d : Deployment)
    : Type 0 where
  pub server : WeftServer
  pub target : In server all
  pub key : SameKey d t.namespace (dep_name t srv)
  pub same_name : dep_name t server ≡ dep_name t srv
  pub labels : d.labels ≡ labels_of t server
  pub controller : d.controller ≡ some t.name

unfoldable pub IsServed : List Deployment → WeftTunnel → List WeftServer → WeftServer → Type 0
IsServed stored t all srv = (d : Deployment) × In d stored × Serves t all srv d

module _ {S : Type 0} (c : Cluster S) (api : ApiServer c) (image : String) (t : WeftTunnel)
    (all : List WeftServer) where
  written_serves :
      (srv : WeftServer) (url : String) (s s' : S)
      → In srv all
      → IsWritten api.stored t.namespace (dep_name t srv) (mutate c image t srv url) s s'
      → IsServed (api.stored s') t all srv
  unfolding IsServed mutate SameKey
  written_serves srv url s s' i w =
      let (n, m, l, o) = api.owned t _ w.sent w.sends in
      let kept = w.stores in
      (
        w.now,
        w.present,
        record {
          server = srv;
          target = i;
          key = (kept.namespace ∙ n ∙ w.old_key.0, kept.name ∙ m ∙ w.old_key.1);
          same_name = refl;
          labels = kept.labels ∙ l;
          controller = kept.controller ∙ o;
        },
      )

  -- A write for another server does not take a service away: at worst it takes it over.
  written_keeps :
      (other srv : WeftServer) (url : String) (s s' : S)
      → In srv all
      → IsWritten api.stored t.namespace (dep_name t srv) (mutate c image t srv url) s s'
      → IsServed (api.stored s) t all other
      → IsServed (api.stored s') t all other
  unfolding IsServed SameKey
  written_keeps other srv url s s' i w (d, m, v) =
      elim (SameKey-decide d t.namespace (dep_name t srv)) [
        | inl k ↦
            let same : dep_name t srv ≡ dep_name t other = sym (k.1) ∙ v.key.1 in
            let (x, y, z) = written_serves srv url s s' i w in
            (
              x,
              y,
              record {
                server = z.server;
                target = z.target;
                key = (z.key.0, z.key.1 ∙ same);
                same_name = z.same_name ∙ same;
                labels = z.labels;
                controller = z.controller;
              },
            )
        | inr n ↦ (d, (w.others d n).0 m, v)
      ]

  deploy_step :
      (srv : WeftServer) (srvs : List WeftServer) (s s'' : S)
      → deploy c image t (srv ∷ srvs) s ≡ (none, s'')
      → (s' : S) × IsWritten api.stored t.namespace
          (dep_name t srv)
          (mutate c image t srv srv.connection_string)
          s
          s'
        × (deploy c image t srvs s' ≡ (none, s''))
  unfolding deploy construct_target_url
  deploy_step srv srvs s s'' h =
      go
        (c.create_or_update s t.namespace (dep_name t srv)
          (mutate c image t srv srv.connection_string))
        refl h
    where
      go :
          (r : Option KubeError × S)
          → c.create_or_update s t.namespace
              (dep_name t srv)
              (mutate c image t srv srv.connection_string)
            ≡ r
          → (elim (r.0) [ none ↦ deploy c image t srvs (r.1) | some e ↦ (some e, r.1) ])
            ≡ (none, s'')
          → (s' : S) × IsWritten api.stored t.namespace
              (dep_name t srv)
              (mutate c image t srv srv.connection_string)
              s
              s'
            × (deploy c image t srvs s' ≡ (none, s''))
      go (none, s') e k = (s', api.written s s' t.namespace (dep_name t srv) _ e, k)
      go (some x, s') e k = cc k

  deploy_nil : (s s' : S) → deploy c image t [] s ≡ (none, s') → s ≡ s'
  unfolding deploy
  deploy_nil s s' h = ap (λ p. p.1) h

  deploy_keeps :
      (other : WeftServer) (srvs : List WeftServer) (s s' : S)
      → ((x : WeftServer) → In x srvs → In x all)
      → deploy c image t srvs s ≡ (none, s')
      → IsServed (api.stored s) t all other
      → IsServed (api.stored s') t all other
  deploy_keeps other [] s s' sub h v =
      subst (λ z. IsServed (api.stored z) t all other) (deploy_nil s s' h) v
  deploy_keeps other (srv ∷ srvs) s s' sub h v =
      let (m, w, k) = deploy_step srv srvs s s' h in
      deploy_keeps other srvs m s' (λ x i. sub x (inr i)) k
        (written_keeps other srv srv.connection_string s m (sub srv (inl refl)) w v)

  deploy_serves :
      (srvs : List WeftServer) (s s' : S)
      → ((x : WeftServer) → In x srvs → In x all)
      → deploy c image t srvs s ≡ (none, s')
      → (srv : WeftServer) → In srv srvs
      → IsServed (api.stored s') t all srv
  deploy_serves [] s s' sub h srv m = absurd m
  deploy_serves (x ∷ srvs) s s' sub h srv (inl e) =
      let (m, w, k) = deploy_step x srvs s s' h in
      let v = written_serves x x.connection_string s m (sub x (inl refl)) w in
      subst (λ y. IsServed (api.stored s') t all y) (sym e)
        (deploy_keeps x srvs m s' (λ y i. sub y (inr i)) k v)
  deploy_serves (x ∷ srvs) s s' sub h srv (inr i) =
      let (m, w, k) = deploy_step x srvs s s' h in
      deploy_serves srvs m s' (λ y j. sub y (inr j)) k srv i

-- What the deletion of the obsolete deployments does to the store.
record IsPruned (names : List String) (ds : List Deployment) (before stored : List Deployment)
    : Type 0 where
  fewer : (d : Deployment) → In d stored → In d before
  kept : (d : Deployment) → In d before → contains names d.name ≡ true → In d stored
  gone : (d : Deployment) → In d ds → In d stored → contains names d.name ≡ true

module _ {S : Type 0} (c : Cluster S) (api : ApiServer c) where
  delete_hit :
      (names : List String) (d : Deployment) (ds : List Deployment) (s : S)
      → contains names d.name ≡ true
      → delete_obsolete c names (d ∷ ds) s ≡ delete_obsolete c names ds s
  unfolding delete_obsolete
  delete_hit names d ds s e = rw (e, delete_obsolete) refl

  delete_miss :
      (names : List String) (d : Deployment) (ds : List Deployment) (s s'' : S)
      → contains names d.name ≡ false
      → delete_obsolete c names (d ∷ ds) s ≡ (none, s'')
      → (s' : S) × (c.delete s d ≡ (none, s')) × (delete_obsolete c names ds s' ≡ (none, s''))
  unfolding delete_obsolete
  delete_miss names d ds s s'' f h = go (c.delete s d) refl (rw (f, delete_obsolete) at h)
    where
      go :
          (r : Option KubeError × S)
          → c.delete s d ≡ r
          → (elim (r.0) [ none ↦ delete_obsolete c names ds (r.1) | some e ↦ (some e, r.1) ])
            ≡ (none, s'')
          → (s' : S) × (c.delete s d ≡ (none, s')) × (delete_obsolete c names ds s' ≡ (none, s''))
      go (none, s') e k = (s', e, k)
      go (some x, s') e k = cc k

  delete_nil : (names : List String) (s s' : S) → delete_obsolete c names [] s ≡ (none, s') → s ≡ s'
  unfolding delete_obsolete
  delete_nil names s s' h = ap (λ p. p.1) h

  delete_obsolete-IsPruned :
      (names : List String) (ds : List Deployment) (s s' : S)
      → delete_obsolete c names ds s ≡ (none, s')
      → IsPruned names ds (api.stored s) (api.stored s')
  unfolding SameKey
  delete_obsolete-IsPruned names [] s s' h =
      let e = delete_nil names s s' h in
      record {
        fewer = λ d m. subst (λ z. In d (api.stored z)) (sym e) m;
        kept = λ d m _. subst (λ z. In d (api.stored z)) e m;
        gone = λ d m _. absurd m;
      }
  delete_obsolete-IsPruned names (d ∷ ds) s s' h = elim (Bool-cases (contains names d.name)) [
    | inl e ↦
        let p = delete_obsolete-IsPruned names ds s s' (sym (delete_hit names d ds s e) ∙ h) in
        record {
          fewer = p.fewer;
          kept = p.kept;
          gone = λ x m i. elim m [
            | inl q ↦ subst (λ y. contains names y.name ≡ true) (sym q) e
            | inr j ↦ p.gone x j i
          ];
        }
    | inr f ↦
        let (z, k, r) = delete_miss names d ds s s' f h in
        let p = delete_obsolete-IsPruned names ds z s' r in
        record {
          fewer = λ x m. ((api.deleted s z d x k).0 (p.fewer x m)).0;
          kept = λ x m e. p.kept x ((api.deleted s z d x k).1 (m, λ q. another x d e f q)) e;
          gone = λ x m i. elim m [
            | inl q ↦ absurd (
                ((api.deleted s z d x k).0 (p.fewer x i)).1
                  (ap (λ (y : Deployment). y.namespace) q, ap (λ (y : Deployment). y.name) q))
            | inr j ↦ p.gone x j i
          ];
        }
  ]
    where
      another :
          (x d : Deployment)
          → contains names x.name ≡ true
          → contains names d.name ≡ false
          → SameKey x d.namespace d.name
          → ⊥
      another x d e f q = let k = subst (λ n. contains names n ≡ true) (q.1) e in cc (k, f)

expected-contains :
    (t : WeftTunnel) (srvs : List WeftServer) (srv : WeftServer)
    → In srv srvs
    → contains (expected t srvs) (dep_name t srv) ≡ true
unfolding expected construct_target_url
expected-contains t [] srv m = absurd m
expected-contains t (x ∷ srvs) srv (inl e) =
    let same = ap (dep_name t) e in ground (arith, eq_iff (dep_name t x) (dep_name t srv), same)
expected-contains t (x ∷ srvs) srv (inr m) = ground (arith, expected-contains t srvs srv m)

contains-expected :
    (t : WeftTunnel) (srvs : List WeftServer) (name : String)
    → contains (expected t srvs) name ≡ true
    → (srv : WeftServer) × In srv srvs × (name ≡ dep_name t srv)
unfolding expected construct_target_url
contains-expected t [] name h = cc h
contains-expected t (x ∷ srvs) name h = elim (Bool-cases (dep_name t x == name)) [
  | inl e ↦ (x, inl refl, sym ((eq_iff (dep_name t x) name).0 e))
  | inr e ↦ let (srv, i, p) = contains-expected t srvs name (rw e at h) in (srv, inr i, p)
]

-- The deployments after a pass without an error.
pub record IsConverged (stored : List Deployment) (t : WeftTunnel) (all : List WeftServer)
    : Type 0 where
  pub served : (srv : WeftServer) → In srv all → IsServed stored t all srv
  pub no_other :
      (d : Deployment)
      → In d stored
      → d.namespace ≡ t.namespace
      → matches (own_labels t) d.labels ≡ true
      → (srv : WeftServer) × In srv all × (d.name ≡ dep_name t srv)

module _ {S : Type 0} (c : Cluster S) (api : ApiServer c) (image : String) (t : WeftTunnel)
    (all : List WeftServer) where
  prune-IsPruned :
      (s s' : S)
      → prune c t all s ≡ (none, s')
      → (ds : List Deployment) × (c.list_deployments s t.namespace (own_labels t) ≡ ok ds)
        × IsPruned (expected t all) ds (api.stored s) (api.stored s')
  unfolding prune
  prune-IsPruned s s' h = elim (Answer-cases (c.list_deployments s t.namespace (own_labels t))) [
    | inl (ds, e) ↦
        (ds, e, delete_obsolete-IsPruned c api (expected t all) ds s s' (rw (e, prune) at h))
    | inr (x, e) ↦ let k : (some x, s) ≡ (none, s') = rw (e, prune) at h in cc k
  ]

  prune-IsConverged :
      (s s' : S)
      → ((srv : WeftServer) → In srv all → IsServed (api.stored s) t all srv)
      → prune c t all s ≡ (none, s')
      → IsConverged (api.stored s') t all
  unfolding IsServed SameKey
  prune-IsConverged s s' v h =
      let (ds, e, p) = prune-IsPruned s s' h in
      record {
        served = λ srv i.
            let (d, m, u) = v srv i in
            let k =
              subst (λ n. contains (expected t all) n ≡ true) (sym (u.key.1))
                (expected-contains t all srv i) in
            (d, p.kept d m k, u);
        no_other = λ d m n l.
            let i = (api.listed s t.namespace (own_labels t) ds e d).1 (p.fewer d m, n, l) in
            contains-expected t all d.name (p.gone d i m);
      }

  deploy_and_prune-IsConverged :
      (s s' : S) → deploy_and_prune c image t all s ≡ (none, s') → IsConverged (api.stored s') t all
  unfolding deploy_and_prune
  deploy_and_prune-IsConverged s s' h = go (deploy c image t all s) refl h
    where
      go :
          (r : Option KubeError × S)
          → deploy c image t all s ≡ r
          → (elim (r.0) [ none ↦ prune c t all (r.1) | some e ↦ (some e, r.1) ]) ≡ (none, s')
          → IsConverged (api.stored s') t all
      go (none, z) e k =
          prune-IsConverged z s' (deploy_serves c api image t all all s z (λ x i. i) e) k
      go (some x, z) e k = cc k

  -- A pass that reads its target servers and meets no error leaves the store converged: each target
  -- server is served by a deployment of its name, with the labels of a target server of that name
  -- and the tunnel as controller; and each deployment in the tunnel's namespace that carries the
  -- tunnel's labels has the name of a target server's. The API server behaves as documented.
  pub body-IsConverged :
      (s s' : S)
      → targets c s t ≡ ok all
      → body c image t s ≡ (none, s')
      → IsConverged (api.stored s') t all
  unfolding body
  body-IsConverged s s' e h = deploy_and_prune-IsConverged s s' (rw (e, body) at h)
