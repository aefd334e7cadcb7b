-- ===== src/AquaductTaas.antt =====
-- internal/controller/aquaducttaas/reconciler.go: the servers that aquaduct.dev returns, mirrored as
-- WeftServers. What is modelled is `syncWeftServers`, over an API server given as a parameter.
pub mod Upsert
pub mod Prune
pub mod Sync
use weft_operator.Prelude.{
  String, Option, none, some, ◌≡◌, ◌↔◌, ◌⊎◌, Bool, true, false, ◌||◌, List, [], ◌∷◌, map, contains,
  ◌==◌, In, if◌then◌else◌,
}
use weft_operator.Prelude.Assoc.{Assoc, put, lookup}
use weft_operator.Kube.{Answer, ok, err, KubeError, not_found, already_exists, other}

pub record ExternalServer : Type 0 where
  pub id : String
  pub name : String
  pub ip : String
  pub connection_string : String
  pub suspended : Bool

-- A WeftServer object as `syncWeftServers` writes it.
pub record Mirror : Type 0 where
  pub namespace : String
  pub name : String
  pub labels : Assoc String
  pub annotations : Assoc String
  pub location : String
  pub connection_string : String
  pub controller : Option String

-- The AquaductTaaS that owns the mirrored servers.
pub record Owner : Type 0 where
  pub namespace : String
  pub name : String

pub data SyncError : Type 0 where
  empty_name : SyncError
  empty_id duplicate_name : String → SyncError
  upsert_failed delete_failed : String → KubeError → SyncError
  list_failed : KubeError → SyncError

abbrev pub owner_label : String
owner_label = "weft.aquaduct.dev/aquaducttaas"

abbrev pub bastion_id_annotation : String
bastion_id_annotation = "weft.aquaduct.dev/bastion-id"

-- The API server and CreateOrUpdate, SetControllerReference of controller-runtime. A list takes the
-- namespace and the value of the owner label.
pub record Registry (S : Type 0) : Type 0 where
  pub create_or_update :
      S → String → String → (Mirror → Answer KubeError Mirror) → Option KubeError × S
  pub list_owned : S → String → String → Answer KubeError (List Mirror)
  pub delete : S → Mirror → Option KubeError × S
  pub set_controller_reference : Owner → Mirror → Answer KubeError Mirror

abbrev pub cons_answer : {E A : Type 0} → A → Answer E (List A) → Answer E (List A)
cons_answer x (ok xs) = ok (x ∷ xs)
cons_answer x (err e) = err e

-- The map `desired`, in the order of its first entries; `seen` are its names so far.
unfoldable pub desired : List String → List ExternalServer → Answer SyncError (List String)
desired seen [] = ok []
desired seen (x ∷ xs) =
    if x.name == ""
    then err empty_name
    else if x.id == ""
    then err (empty_id x.name)
    else elim (x.suspended || x.ip == "") [
      | true ↦ desired seen xs
      | false ↦ elim (contains seen x.name) [
        | true ↦ err (duplicate_name x.name)
        | false ↦ cons_answer x.name (desired (x.name ∷ seen) xs)
      ]
    ]

-- Whether the error of a deletion ends the pass.
abbrev pub is_fatal : Option KubeError → Option KubeError
is_fatal none = none
is_fatal (some not_found) = none
is_fatal (some already_exists) = some already_exists
is_fatal (some (other m)) = some (other m)

abbrev pub answer_of :
    {S : Type 0} → List String → Option SyncError × S → Answer SyncError (List String) × S
answer_of names (none, s) = (ok names, s)
answer_of names (some e, s) = (err e, s)

module _ {S : Type 0} (r : Registry S) (taas : Owner) where
  -- The function that `CreateOrUpdate` applies.
  unfoldable pub mirror : ExternalServer → Mirror → Answer KubeError Mirror
  mirror x ws = r.set_controller_reference taas (record ws {
    labels = put owner_label taas.name ws.labels;
    annotations = put bastion_id_annotation x.id ws.annotations;
    location = "External";
    connection_string = x.connection_string;
  })

  unfoldable pub upsert : List String → List ExternalServer → S → Option SyncError × S
  upsert names [] s = (none, s)
  upsert names (x ∷ xs) s = elim (contains names x.name) [
    | false ↦ upsert names xs s
    | true ↦
        let (e, s') = r.create_or_update s taas.namespace x.name (mirror x) in
        elim e [ none ↦ upsert names xs s' | some k ↦ (some (upsert_failed x.name k), s') ]
  ]

  unfoldable pub prune_stale : List String → List Mirror → S → Option SyncError × S
  prune_stale names [] s = (none, s)
  prune_stale names (w ∷ ws) s = elim (contains names w.name) [
    | true ↦ prune_stale names ws s
    | false ↦
        let (e, s') = r.delete s w in
        elim (is_fatal e) [
          | none ↦ prune_stale names ws s'
          | some k ↦ (some (delete_failed w.name k), s')
        ]
  ]

  unfoldable pub prune_owned : List String → S → Answer SyncError (List String) × S
  prune_owned names s = elim (r.list_owned s taas.namespace taas.name) [
    | err e ↦ (err (list_failed e), s)
    | ok ws ↦ answer_of names (prune_stale names ws s)
  ]

  unfoldable pub mirror_all :
      List String → List ExternalServer → S → Answer SyncError (List String) × S
  mirror_all names xs s =
      let (e, s') = upsert names xs s in
      elim e [ none ↦ prune_owned names s' | some k ↦ (err k, s') ]

  unfoldable pub sync_weft_servers : List ExternalServer → S → Answer SyncError (List String) × S
  sync_weft_servers xs s = elim (desired [] xs) [
    | err e ↦ (err e, s)
    | ok names ↦ mirror_all names xs s
  ]
