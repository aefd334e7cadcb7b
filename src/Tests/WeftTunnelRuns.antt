-- ===== src/Tests/WeftTunnelRuns.antt =====
-- Runs of internal/controller/wefttunnel on the small API server.
use weft_operator.Prelude.{
  String, none, some, ◌≡◌, ◌≢◌, refl, sym, ap, ◌∙◌, subst, ◌↔◌, inl, inr, true, ◌&&◌, List, [], ◌∷◌,
  keep, In, In-keep, keep-In, ◌==◌, eq_iff, arith, Bool-cases,
}
use weft_operator.Prelude.Assoc.{Assoc, lookup}
use weft_operator.Kube.{Answer, ok, err, KubeError, other, not_found}
use weft_operator.WeftTunnel.{WeftServer, WeftTunnel, Deployment}
use weft_operator.WeftTunnel.Reconcile.{
  targets, all_servers, both_namespaces, body, scope, find_tunnels_for_server, request_of,
  deploy_and_prune, deploy, prune, delete_obsolete, expected, construct_target_url, dep_name,
  mutate, own_labels, labels_of,
}
use weft_operator.WeftTunnel.Laws.{ApiServer, Readable, IsWritten, SameKey, matches}
use weft_operator.WeftTunnel.Converge.{IsConverged, body-IsConverged}
use weft_operator.WeftTunnel.Enqueue.{find_tunnels_for_server-targets}
use weft_operator.Tests.SmallCluster.{
  Store, has_key, found, drop_key, put_sent, web, edge, all_of_them, server_of, cluster,
  has_key-SameKey, drop_key-In, found-SameKey,
}

put_sent-IsWritten :
    (s s' : Store) (ns name : String) (f : Deployment → Answer KubeError Deployment)
    (old : Deployment) (a : Answer KubeError Deployment)
    → SameKey old ns name
    → f old ≡ a
    → put_sent s ns name a ≡ (none, s')
    → IsWritten (λ (s : Store). s.deployments) ns name f s s'
put_sent-IsWritten s s' ns name f old (err e) k q h = cc h
put_sent-IsWritten s s' ns name f old (ok d) k q h = elim (Bool-cases (has_key d ns name)) [
  | inr e ↦ let j : (some (other "the key changed"), s) ≡ (none, s') = rw e at h in cc j
  | inl e ↦
      let j : (none, record { deployments = d ∷ drop_key ns name s.deployments }) ≡ (none, s') =
        rw e at h in
      let same : d ∷ drop_key ns name s.deployments ≡ s'.deployments =
        ap (λ p. p.1.deployments) j in
      record {
        old = old;
        sent = d;
        now = d;
        old_key = k;
        sends = q;
        stores = record { namespace = refl; name = refl; labels = refl; controller = refl };
        present = subst (λ ds. In d ds) same (inl refl);
        others = λ x n. (
          λ m. subst (λ ds. In x ds) same (inr ((drop_key-In ns name s.deployments x).1 (m, n))),
          λ m. elim (subst (λ ds. In x ds) (sym same) m) [
            | inl p ↦
                absurd
                  (n (subst (λ y. SameKey y ns name) (sym p) ((has_key-SameKey d ns name).0 e)))
            | inr i ↦ ((drop_key-In ns name s.deployments x).0 i).0
          ],
        );
      }
]

listed_lem :
    (s : Store) (ns : String) (sel : Assoc String) (ds : List Deployment)
    → cluster.list_deployments s ns sel ≡ ok ds
    → (d : Deployment)
    → In d ds ↔ (In d s.deployments × (d.namespace ≡ ns) × (matches sel d.labels ≡ true))
listed_lem s ns sel ds h d =
    let test = λ (d : Deployment). d.namespace == ns && matches sel d.labels in
    let same : keep test s.deployments ≡ ds = cc h in
    let n = eq_iff d.namespace ns in
    (
      λ m.
          let (i, p) = In-keep test d s.deployments (subst (λ xs. In d xs) (sym same) m) in
          (i, n.0 (ground (arith, p)), ground (arith, p)),
      λ o.
          let q = n.1 (o.1) in
          let r = o.2 in
          subst (λ xs. In d xs) same (keep-In test d s.deployments o.0 (ground (arith, q, r))),
    )

abbrev behaves : ApiServer cluster
behaves = record {
  stored = λ (s : Store). s.deployments;
  listed = λ s ns sel ds h d. listed_lem s ns sel ds h d;
  written = λ s s' ns name f h.
      put_sent-IsWritten s s' ns name f (found s.deployments ns name)
        (f (found s.deployments ns name)) (found-SameKey s.deployments ns name) refl h;
  deleted = λ s s' d x h.
      let same : drop_key d.namespace d.name s.deployments ≡ s'.deployments =
        ap (λ p. p.1.deployments) h in
      let k = drop_key-In d.namespace d.name s.deployments x in
      (λ m. k.0 (subst (λ ds. In x ds) (sym same) m), λ o. subst (λ ds. In x ds) same (k.1 o));
  owned = λ t d d' h.
      let same : record d { controller = some t.name } ≡ d' = cc h in
      (
        ap (λ (x : Deployment). x.namespace) (sym same),
        ap (λ (x : Deployment). x.name) (sym same),
        ap (λ (x : Deployment). x.labels) (sym same),
        ap (λ (x : Deployment). x.controller) (sym same),
      );
}

abbrev empty_store : Store
empty_store = record { deployments = [] }

abbrev both : List WeftServer
both = web ∷ edge ∷ []

targets_run : targets cluster empty_store all_of_them ≡ ok both
unfolding targets all_servers both_namespaces
targets_run = refl

abbrev after_pass : Store
after_pass = (body cluster "" all_of_them empty_store).1

body_run : body cluster "" all_of_them empty_store ≡ (none, after_pass)
unfolding body targets all_servers both_namespaces deploy_and_prune deploy construct_target_url
    mutate dep_name labels_of prune delete_obsolete expected own_labels matches lookup
body_run = refl

body-IsConverged_example : IsConverged after_pass.deployments all_of_them both
body-IsConverged_example =
    body-IsConverged cluster behaves "" all_of_them both empty_store after_pass targets_run body_run

server_of_lem :
    (ns name : String) (xs : List WeftServer) (x : WeftServer)
    → server_of ns name xs ≡ ok x
    → In x xs × (x.namespace ≡ ns) × (x.name ≡ name)
server_of_lem ns name [] x h = cc h
server_of_lem ns name (y ∷ ys) x h = elim (Bool-cases (y.namespace == ns && y.name == name)) [
  | inl e ↦
      let j : ok y ≡ ok x = rw e at h in
      let same : y ≡ x = cc j in
      let n = (eq_iff y.namespace ns).0 (ground (arith, e)) in
      let m = (eq_iff y.name name).0 (ground (arith, e)) in
      (inl (sym same), cc (same, n), cc (same, m))
  | inr e ↦ let (i, n, m) = server_of_lem ns name ys x (rw e at h) in (inr i, n, m)
]

server_of_absent :
    (ns name : String) (xs : List WeftServer) (x : WeftServer)
    → server_of ns name xs ≡ err not_found
    → In x xs
    → x.namespace ≡ ns
    → x.name ≢ name
server_of_absent ns name [] x h m p = absurd m
server_of_absent ns name (y ∷ ys) x h m p =
    elim (Bool-cases (y.namespace == ns && y.name == name)) [
      | inl e ↦ let j : ok y ≡ err not_found = rw e at h in absurd (cc j)
      | inr e ↦ elim m [
        | inl q ↦ λ r.
            let n = (eq_iff y.namespace ns).1 (cc (q, p)) in
            let k = (eq_iff y.name name).1 (cc (q, r)) in ground (arith, e, n, k)
        | inr i ↦ server_of_absent ns name ys x (rw e at h) i p
      ]
    ]

apart : web.namespace ≢ edge.namespace
apart p = cc ((eq_iff "shop" "weft-system").1 p)

one_web : (x y : WeftServer) → In x both → In y both → x.namespace ≡ y.namespace → x ≡ y
one_web x y (inl p) (inl q) e = p ∙ sym q
one_web x y (inl p) (inr (inl q)) e = absurd (apart (cc (p, q, e)))
one_web x y (inl p) (inr (inr q)) e = absurd q
one_web x y (inr (inl p)) (inl q) e = absurd (apart (cc (p, q, e)))
one_web x y (inr (inl p)) (inr (inl q)) e = p ∙ sym q
one_web x y (inr (inl p)) (inr (inr q)) e = absurd q
one_web x y (inr (inr p)) j e = absurd p

one_tunnel : (x y : WeftTunnel) → In x (all_of_them ∷ []) → In y (all_of_them ∷ []) → x ≡ y
one_tunnel x y (inl p) (inl q) = p ∙ sym q
one_tunnel x y (inl p) (inr q) = absurd q
one_tunnel x y (inr p) q = absurd p

keep_lem :
    {A : Type 0} (namespace : A → String) (ns : String) (xs ys : List A)
    → keep (λ (x : A). namespace x == ns) xs ≡ ys
    → (x : A) → In x ys ↔ (In x xs × (namespace x ≡ ns))
keep_lem {A} namespace ns xs ys same x =
    let test = λ (x : A). namespace x == ns in
    let n = eq_iff (namespace x) ns in
    (
      λ m. let (i, p) = In-keep test x xs (subst (λ zs. In x zs) (sym same) m) in (i, n.0 p),
      λ o. subst (λ zs. In x zs) same (keep-In test x xs o.0 (n.1 (o.1))),
    )

abbrev readable : Readable cluster
readable = record {
  servers = λ s. both;
  tunnels = λ s. all_of_them ∷ [];
  servers_unique = λ s x y i j n m. one_web x y i j n;
  tunnels_unique = λ s x y i j n m. one_tunnel x y i j;
  servers_listed = λ s ns xs h x. keep_lem (λ (x : WeftServer). x.namespace) ns both xs (cc h) x;
  server_read = λ s ns name x h. server_of_lem ns name both x h;
  server_absent = λ s ns name x h. server_of_absent ns name both x h;
  tunnels_listed_all = λ s ts h t.
      let same : all_of_them ∷ [] ≡ ts = cc h in
      (λ m. subst (λ zs. In t zs) (sym same) m, λ m. subst (λ zs. In t zs) same m);
  tunnels_listed =
      λ s ns ts h x. keep_lem (λ (x : WeftTunnel). x.namespace) ns (all_of_them ∷ []) ts (cc h) x;
}

find_tunnels_for_server-targets_example :
    In (request_of all_of_them) (find_tunnels_for_server cluster edge empty_store) ↔ In edge both
unfolding scope
find_tunnels_for_server-targets_example =
    find_tunnels_for_server-targets cluster readable empty_store edge all_of_them (all_of_them ∷ [])
      both (inr (inl refl)) (inl refl) refl targets_run
