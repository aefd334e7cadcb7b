-- ===== src/Tests/AquaductRuns.antt =====
-- Runs of internal/controller/aquaducttaas on a small API server that keeps its objects in a list.
use weft_operator.Prelude.{
  String, Option, none, some, ◌≡◌, refl, sym, ap, subst, ◌↔◌, inl, inr, Bool, true, false, not,
  ◌&&◌, List, [], ◌∷◌, keep, In, In-keep, keep-In, ◌==◌, eq_iff, arith, Bool-cases, if◌then◌else◌,
}
use weft_operator.Prelude.Assoc.{lookup, put}
use weft_operator.Kube.{Answer, ok, err, KubeError, other}
use weft_operator.AquaductTaas.{
  ExternalServer, Mirror, Owner, owner_label, Registry, desired, mirror, upsert, prune_stale,
  prune_owned, mirror_all, sync_weft_servers,
}
use weft_operator.AquaductTaas.Upsert.{SameKey, IsWritten, Behaves}
use weft_operator.AquaductTaas.Sync.{IsSynced, sync_weft_servers-IsSynced}

abbrev has_key : Mirror → String → String → Bool
has_key w ns name = w.namespace == ns && w.name == name

abbrev found : List Mirror → String → String → Mirror
found [] ns name = record {
  namespace = ns;
  name = name;
  labels = [];
  annotations = [];
  location = "";
  connection_string = "";
  controller = none;
}
found (w ∷ ws) ns name = let rest = found ws ns name in if has_key w ns name then w else rest

abbrev drop_key : String → String → List Mirror → List Mirror
drop_key ns name ws = keep (λ (w : Mirror). not (has_key w ns name)) ws

-- The function must not change the key.
abbrev put_sent :
    List Mirror → String → String → Answer KubeError Mirror → Option KubeError × List Mirror
put_sent s ns name (err e) = (some e, s)
put_sent s ns name (ok w) =
    if has_key w ns name
    then (none, w ∷ drop_key ns name s)
    else (some (other "the key changed"), s)

-- The value of the owner label, which no one sets to the empty text here.
abbrev has_owner : String → Option String → Bool
has_owner owner none = false
has_owner owner (some o) = o == owner

abbrev registry : Registry (List Mirror)
registry = record {
  create_or_update = λ s ns name f. put_sent s ns name (f (found s ns name));
  list_owned = λ s ns owner.
      ok (
        keep (λ (w : Mirror). w.namespace == ns && has_owner owner (lookup owner_label w.labels))
          s);
  delete = λ s w. (none, drop_key w.namespace w.name s);
  set_controller_reference = λ t w. ok (record w { controller = some t.name });
}

has_key-SameKey : (w : Mirror) (ns name : String) → (has_key w ns name ≡ true) ↔ SameKey w ns name
unfolding SameKey
has_key-SameKey w ns name =
    let n = eq_iff w.namespace ns in
    let m = eq_iff w.name name in
    (
      λ h. (n.0 (ground (arith, h)), m.0 (ground (arith, h))),
      λ k. let p = n.1 (k.0) in let q = m.1 (k.1) in ground (arith, p, q),
    )

drop_key-In :
    (ns name : String) (ws : List Mirror) (x : Mirror)
    → In x (drop_key ns name ws) ↔ (In x ws × ¬ SameKey x ns name)
drop_key-In ns name ws x =
    let test = λ (w : Mirror). not (has_key w ns name) in
    let k = has_key-SameKey x ns name in
    (
      λ m. let (i, p) = In-keep test x ws m in (i, λ q. let r = k.1 q in ground (arith, p, r)),
      λ o. keep-In test x ws o.0 (elim (Bool-cases (has_key x ns name)) [
        | inl e ↦ absurd (o.1 (k.0 e))
        | inr e ↦ ground (arith, e)
      ]),
    )

found-SameKey : (ws : List Mirror) (ns name : String) → SameKey (found ws ns name) ns name
unfolding SameKey
found-SameKey [] ns name = (refl, refl)
found-SameKey (w ∷ ws) ns name = elim (Bool-cases (has_key w ns name)) [
  | inl e ↦ rw e ((has_key-SameKey w ns name).0 e)
  | inr e ↦ rw e (found-SameKey ws ns name)
]

put_sent-IsWritten :
    (s s' : List Mirror) (ns name : String) (f : Mirror → Answer KubeError Mirror) (old : Mirror)
    (a : Answer KubeError Mirror)
    → SameKey old ns name
    → f old ≡ a
    → put_sent s ns name a ≡ (none, s')
    → IsWritten (λ (s : List Mirror). s) ns name f s s'
put_sent-IsWritten s s' ns name f old (err e) k q h = cc h
put_sent-IsWritten s s' ns name f old (ok w) k q h = elim (Bool-cases (has_key w ns name)) [
  | inr e ↦ let j : (some (other "the key changed"), s) ≡ (none, s') = rw e at h in cc j
  | inl e ↦
      let j : (none, w ∷ drop_key ns name s) ≡ (none, s') = rw e at h in
      let same : w ∷ drop_key ns name s ≡ s' = ap (λ p. p.1) j in
      record {
        old = old;
        now = w;
        old_key = k;
        sends = q;
        present = subst (λ ws. In w ws) same (inl refl);
        others = λ x n. (
          λ m. subst (λ ws. In x ws) same (inr ((drop_key-In ns name s x).1 (m, n))),
          λ m. elim (subst (λ ws. In x ws) (sym same) m) [
            | inl p ↦
                absurd
                  (n (subst (λ y. SameKey y ns name) (sym p) ((has_key-SameKey w ns name).0 e)))
            | inr i ↦ ((drop_key-In ns name s x).0 i).0
          ],
        );
      }
]

has_owner_lem : (owner : String) (o : Option String) → (has_owner owner o ≡ true) ↔ (o ≡ some owner)
has_owner_lem owner none = (λ h. cc h, λ h. cc h)
has_owner_lem owner (some o) = (
  λ h. ap some ((eq_iff o owner).0 h),
  λ h. let same : o ≡ owner = cc h in (eq_iff o owner).1 same,
)

listed_lem :
    (s : List Mirror) (ns owner : String) (ws : List Mirror)
    → registry.list_owned s ns owner ≡ ok ws
    → (w : Mirror)
    → In w ws ↔ (In w s × (w.namespace ≡ ns) × (lookup owner_label w.labels ≡ some owner))
listed_lem s ns owner ws h w =
    let test = λ (w : Mirror). w.namespace == ns && has_owner owner (lookup owner_label w.labels) in
    let same : keep test s ≡ ws = cc h in
    let n = eq_iff w.namespace ns in
    let m = has_owner_lem owner (lookup owner_label w.labels) in
    (
      λ i.
          let (j, p) = In-keep test w s (subst (λ xs. In w xs) (sym same) i) in
          (j, n.0 (ground (arith, p)), m.0 (ground (arith, p))),
      λ o.
          let q = n.1 (o.1) in
          let r = m.1 (o.2) in
          subst (λ xs. In w xs) same (keep-In test w s o.0 (ground (arith, q, r))),
    )

owned_lem :
    (t : Owner) (w w' : Mirror)
    → registry.set_controller_reference t w ≡ ok w'
    → (w'.namespace ≡ w.namespace)
      × (w'.name ≡ w.name)
      × (w'.labels ≡ w.labels)
      × (w'.annotations ≡ w.annotations)
      × (w'.connection_string ≡ w.connection_string)
owned_lem t w w' h =
    let same : record w { controller = some t.name } ≡ w' = cc h in
    (
      ap (λ (x : Mirror). x.namespace) (sym same),
      ap (λ (x : Mirror). x.name) (sym same),
      ap (λ (x : Mirror). x.labels) (sym same),
      ap (λ (x : Mirror). x.annotations) (sym same),
      ap (λ (x : Mirror). x.connection_string) (sym same),
    )

abbrev behaves : Behaves registry
behaves = record {
  stored = λ s. s;
  listed = listed_lem;
  written = λ s s' ns name f h.
      put_sent-IsWritten s s' ns name f (found s ns name) (f (found s ns name))
        (found-SameKey s ns name) refl h;
  deleted = λ s s' w x e h n.
      let same : drop_key w.namespace w.name s ≡ s' = ap (λ p. p.1) h in
      let k = drop_key-In w.namespace w.name s x in
      (λ m. k.0 (subst (λ ws. In x ws) (sym same) m), λ o. subst (λ ws. In x ws) same (k.1 o));
  owned = owned_lem;
}

abbrev account : Owner
account = record { namespace = "edge"; name = "account" }

abbrev returned : List ExternalServer
returned =
    record {
      id = "b1";
      name = "fra";
      ip = "203.0.113.7";
      connection_string = "weft://s@203.0.113.7:9092";
      suspended = false;
    }
    ∷ record {
      id = "b2";
      name = "nyc";
      ip = "";
      connection_string = "weft://s@:9092";
      suspended = true;
    }
    ∷ []

-- A server that is no longer returned.
abbrev stale : List Mirror
stale =
    record {
      namespace = "edge";
      name = "ams";
      labels = (owner_label, "account") ∷ [];
      annotations = [];
      location = "External";
      connection_string = "weft://s@203.0.113.9:9092";
      controller = some "account";
    }
    ∷ []

abbrev synced : List Mirror
synced = (sync_weft_servers registry account returned stale).1

sync_run : sync_weft_servers registry account returned stale ≡ (ok ("fra" ∷ []), synced)
unfolding sync_weft_servers desired mirror_all upsert prune_owned prune_stale mirror put lookup
sync_run = refl

sync_weft_servers-IsSynced_example : IsSynced synced account returned ("fra" ∷ [])
sync_weft_servers-IsSynced_example =
    sync_weft_servers-IsSynced registry behaves account returned ("fra" ∷ []) stale synced sync_run
