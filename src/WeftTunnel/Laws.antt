-- ===== src/WeftTunnel/Laws.antt =====
-- What internal/controller/wefttunnel relies on of the API server and of controller-runtime: the
-- documented behaviour of the calls, over the objects that a state of the cluster stores.
use weft_operator.Prelude.{
  String, none, some, ◌≡◌, ◌≢◌, ◌↔◌, Bool, true, false, ◌&&◌, List, [], ◌∷◌, ◌==◌, In,
}
use weft_operator.Prelude.Assoc.{Assoc, lookup}
use weft_operator.Kube.{Answer, ok, err, KubeError, not_found}
use weft_operator.WeftTunnel.{WeftServer, WeftTunnel, Deployment, Cluster}

-- client.MatchingLabels: every label of the selector is there with its value.
unfoldable pub matches : Assoc String → Assoc String → Bool
matches [] labels = true
matches ((k, v) ∷ sel) labels = elim (lookup k labels) [
  | none ↦ false
  | some u ↦ u == v && matches sel labels
]

unfoldable pub SameKey : Deployment → String → String → Type 0
SameKey d ns name = (d.namespace ≡ ns) × (d.name ≡ name)

-- What a stored deployment keeps of the one that was sent: the API server may fill in the rest.
pub record IsStoredAs (sent stored : Deployment) : Type 0 where
  pub namespace : stored.namespace ≡ sent.namespace
  pub name : stored.name ≡ sent.name
  pub labels : stored.labels ≡ sent.labels
  pub controller : stored.controller ≡ sent.controller

-- A successful CreateOrUpdate stored what the function made of the object of that name, or of an
-- empty one, and left the other objects.
pub record IsWritten {S : Type 0} (stored : S → List Deployment) (ns name : String)
    (f : Deployment → Answer KubeError Deployment) (s s' : S) : Type 0 where
  pub old : Deployment
  pub sent : Deployment
  pub now : Deployment
  pub old_key : SameKey old ns name
  pub sends : f old ≡ ok sent
  pub stores : IsStoredAs sent now
  pub present : In now (stored s')
  pub others : (d : Deployment) → ¬ SameKey d ns name → In d (stored s) ↔ In d (stored s')

-- Reads see the writes before them. Deletion takes the object away at once.
pub record ApiServer {S : Type 0} (c : Cluster S) : Type 0 where
  pub stored : S → List Deployment
  pub listed :
      (s : S) (ns : String) (sel : Assoc String) (ds : List Deployment)
      → c.list_deployments s ns sel ≡ ok ds
      → (d : Deployment)
      → In d ds ↔ (In d (stored s) × (d.namespace ≡ ns) × (matches sel d.labels ≡ true))
  pub written :
      (s s' : S) (ns name : String) (f : Deployment → Answer KubeError Deployment)
      → c.create_or_update s ns name f ≡ (none, s')
      → IsWritten stored ns name f s s'
  pub deleted :
      (s s' : S) (d x : Deployment)
      → c.delete s d ≡ (none, s')
      → In x (stored s') ↔ (In x (stored s) × ¬ SameKey x d.namespace d.name)
  -- SetControllerReference writes only the owner reference.
  pub owned :
      (t : WeftTunnel) (d d' : Deployment)
      → c.set_controller_reference t d ≡ ok d'
      → (d'.namespace ≡ d.namespace)
        × (d'.name ≡ d.name)
        × (d'.labels ≡ d.labels)
        × (d'.controller ≡ some t.name)

-- What the API server stores of servers and tunnels, for the reads.
pub record Readable {S : Type 0} (c : Cluster S) : Type 0 where
  pub servers : S → List WeftServer
  pub tunnels : S → List WeftTunnel
  pub servers_unique :
      (s : S) (x y : WeftServer)
      → In x (servers s)
      → In y (servers s)
      → x.namespace ≡ y.namespace
      → x.name ≡ y.name
      → x ≡ y
  pub tunnels_unique :
      (s : S) (x y : WeftTunnel)
      → In x (tunnels s)
      → In y (tunnels s)
      → x.namespace ≡ y.namespace
      → x.name ≡ y.name
      → x ≡ y
  pub servers_listed :
      (s : S) (ns : String) (xs : List WeftServer)
      → c.list_servers s ns ≡ ok xs
      → (x : WeftServer) → In x xs ↔ (In x (servers s) × (x.namespace ≡ ns))
  pub server_read :
      (s : S) (ns name : String) (x : WeftServer)
      → c.get_server s ns name ≡ ok x
      → In x (servers s) × (x.namespace ≡ ns) × (x.name ≡ name)
  pub server_absent :
      (s : S) (ns name : String) (x : WeftServer)
      → c.get_server s ns name ≡ err not_found
      → In x (servers s)
      → x.namespace ≡ ns
      → x.name ≢ name
  pub tunnels_listed_all :
      (s : S) (ts : List WeftTunnel)
      → c.list_tunnels s none ≡ ok ts
      → (t : WeftTunnel) → In t ts ↔ In t (tunnels s)
  pub tunnels_listed :
      (s : S) (ns : String) (ts : List WeftTunnel)
      → c.list_tunnels s (some ns) ≡ ok ts
      → (t : WeftTunnel) → In t ts ↔ (In t (tunnels s) × (t.namespace ≡ ns))
