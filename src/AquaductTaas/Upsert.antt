-- ===== src/AquaductTaas/Upsert.antt =====
-- The loop of `syncWeftServers` (internal/controller/aquaducttaas/reconciler.go) that writes the mirrored
-- servers, and what it relies on of the API server.
use weft_operator.Prelude.{
  String, Option, none, some, ◌≡◌, refl, sym, ap, ◌∙◌, subst, ◌↔◌, inl, inr, true, false, List, [],
  ◌∷◌, contains, eq_refl, In, Bool-cases, text_cases,
}
use weft_operator.Prelude.Assoc.{Assoc, put, lookup, lookup-put}
use weft_operator.Kube.{Answer, ok, KubeError}
use weft_operator.AquaductTaas.{
  ExternalServer, Mirror, Owner, upsert_failed, owner_label, bastion_id_annotation, Registry,
  mirror, upsert, is_fatal,
}

unfoldable pub SameKey : Mirror → String → String → Type 0
SameKey w ns name = (w.namespace ≡ ns) × (w.name ≡ name)

-- What a write with CreateOrUpdate left in the store.
pub record IsWritten {S : Type 0} (stored : S → List Mirror) (ns name : String)
    (f : Mirror → Answer KubeError Mirror) (s s' : S) : Type 0 where
  pub old : Mirror
  pub now : Mirror
  pub old_key : SameKey old ns name
  pub sends : f old ≡ ok now
  pub present : In now (stored s')
  pub others : (w : Mirror) → ¬ SameKey w ns name → In w (stored s) ↔ In w (stored s')

-- The documented behaviour of the calls: reads see the writes before them, a deletion takes the
-- object away (also one that finds it gone), SetControllerReference writes only the owner.
pub record Behaves {S : Type 0} (r : Registry S) : Type 0 where
  pub stored : S → List Mirror
  pub listed :
      (s : S) (ns owner : String) (ws : List Mirror)
      → r.list_owned s ns owner ≡ ok ws
      → (w : Mirror)
      → In w ws
        ↔ (In w (stored s) × (w.namespace ≡ ns) × (lookup owner_label w.labels ≡ some owner))
  pub written :
      (s s' : S) (ns name : String) (f : Mirror → Answer KubeError Mirror)
      → r.create_or_update s ns name f ≡ (none, s')
      → IsWritten stored ns name f s s'
  pub deleted :
      (s s' : S) (w x : Mirror) (e : Option KubeError)
      → r.delete s w ≡ (e, s')
      → is_fatal e ≡ none
      → In x (stored s') ↔ (In x (stored s) × ¬ SameKey x w.namespace w.name)
  pub owned :
      (taas : Owner) (w w' : Mirror)
      → r.set_controller_reference taas w ≡ ok w'
      → (w'.namespace ≡ w.namespace)
        × (w'.name ≡ w.name)
        × (w'.labels ≡ w.labels)
        × (w'.annotations ≡ w.annotations)
        × (w'.connection_string ≡ w.connection_string)

-- A stored object mirrors a returned server of the name.
pub record Mirrors (taas : Owner) (xs : List ExternalServer) (name : String) (w : Mirror)
    : Type 0 where
  pub server : ExternalServer
  pub returned : In server xs
  pub key : SameKey w taas.namespace name
  pub same_name : server.name ≡ name
  pub label : lookup owner_label w.labels ≡ some taas.name
  pub bastion : lookup bastion_id_annotation w.annotations ≡ some server.id
  pub address : w.connection_string ≡ server.connection_string

unfoldable pub IsMirrored : List Mirror → Owner → List ExternalServer → String → Type 0
IsMirrored stored taas xs name = (w : Mirror) × In w stored × Mirrors taas xs name w

lookup-put_same : {V : Type 0} (k : String) (v : V) (m : Assoc V) → lookup k (put k v m) ≡ some v
lookup-put_same k v m = lookup-put k k v m ∙ (rw (eq_refl k) refl)

module _ {S : Type 0} (r : Registry S) (api : Behaves r) (taas : Owner)
    (all : List ExternalServer) where
  written_mirrors :
      (x : ExternalServer) (s s' : S)
      → In x all
      → IsWritten api.stored taas.namespace x.name (mirror r taas x) s s'
      → IsMirrored (api.stored s') taas all x.name
  unfolding IsMirrored mirror SameKey
  written_mirrors x s s' i w =
      let (n, m, l, a, c) = api.owned taas _ w.now w.sends in
      (
        w.now,
        w.present,
        record {
          server = x;
          returned = i;
          key = (n ∙ w.old_key.0, m ∙ w.old_key.1);
          same_name = refl;
          label = ap (lookup owner_label) l ∙ lookup-put_same owner_label taas.name w.old.labels;
          bastion =
              ap (lookup bastion_id_annotation) a
              ∙ lookup-put_same bastion_id_annotation x.id w.old.annotations;
          address = c;
        },
      )

  written_keeps :
      (name : String) (x : ExternalServer) (s s' : S)
      → In x all
      → IsWritten api.stored taas.namespace x.name (mirror r taas x) s s'
      → IsMirrored (api.stored s) taas all name
      → IsMirrored (api.stored s') taas all name
  unfolding IsMirrored SameKey
  written_keeps name x s s' i w (o, m, v) = elim (text_cases x.name name) [
    | inl (_, p) ↦ subst (λ n. IsMirrored (api.stored s') taas all n) p (written_mirrors x s s' i w)
    | inr (_, n) ↦ (o, (w.others o (λ k. n (sym (k.1) ∙ v.key.1))).0 m, v)
  ]

  upsert_nil : (names : List String) (s s' : S) → upsert r taas names [] s ≡ (none, s') → s ≡ s'
  unfolding upsert
  upsert_nil names s s' h = ap (λ p. p.1) h

  upsert_skip :
      (names : List String) (x : ExternalServer) (xs : List ExternalServer) (s : S)
      → contains names x.name ≡ false
      → upsert r taas names (x ∷ xs) s ≡ upsert r taas names xs s
  unfolding upsert
  upsert_skip names x xs s e = rw (e, upsert) refl

  upsert_step :
      (names : List String) (x : ExternalServer) (xs : List ExternalServer) (s s'' : S)
      → contains names x.name ≡ true
      → upsert r taas names (x ∷ xs) s ≡ (none, s'')
      → (s' : S) × IsWritten api.stored taas.namespace x.name (mirror r taas x) s s'
        × (upsert r taas names xs s' ≡ (none, s''))
  unfolding upsert
  upsert_step names x xs s s'' e h =
      go (r.create_or_update s taas.namespace x.name (mirror r taas x)) refl (rw (e, upsert) at h)
    where
      go :
          (a : Option KubeError × S)
          → r.create_or_update s taas.namespace x.name (mirror r taas x) ≡ a
          → (elim (a.0) [
            | none ↦ upsert r taas names xs (a.1)
            | some k ↦ (some (upsert_failed x.name k), a.1)
          ])
            ≡ (none, s'')
          → (s' : S) × IsWritten api.stored taas.namespace x.name (mirror r taas x) s s'
            × (upsert r taas names xs s' ≡ (none, s''))
      go (none, s') q k = (s', api.written s s' taas.namespace x.name _ q, k)
      go (some y, s') q k = cc k

  upsert_keeps :
      (name : String) (names : List String) (xs : List ExternalServer) (s s' : S)
      → ((x : ExternalServer) → In x xs → In x all)
      → upsert r taas names xs s ≡ (none, s')
      → IsMirrored (api.stored s) taas all name
      → IsMirrored (api.stored s') taas all name
  upsert_keeps name names [] s s' sub h v =
      subst (λ z. IsMirrored (api.stored z) taas all name) (upsert_nil names s s' h) v
  upsert_keeps name names (x ∷ xs) s s' sub h v = elim (Bool-cases (contains names x.name)) [
    | inr e ↦
        upsert_keeps name names xs s s' (λ y i. sub y (inr i))
          (sym (upsert_skip names x xs s e) ∙ h) v
    | inl e ↦
        let (m, w, k) = upsert_step names x xs s s' e h in
        upsert_keeps name names xs m s' (λ y i. sub y (inr i)) k
          (written_keeps name x s m (sub x (inl refl)) w v)
  ]

  pub upsert_mirrors :
      (names : List String) (xs : List ExternalServer) (s s' : S)
      → ((x : ExternalServer) → In x xs → In x all)
      → upsert r taas names xs s ≡ (none, s')
      → (x : ExternalServer) → In x xs
      → contains names x.name ≡ true
      → IsMirrored (api.stored s') taas all x.name
  upsert_mirrors names [] s s' sub h x m c = absurd m
  upsert_mirrors names (y ∷ xs) s s' sub h x m c = elim (Bool-cases (contains names y.name)) [
    | inr e ↦ elim m [
      | inl q ↦
          let k = subst (λ (z : ExternalServer). contains names z.name ≡ true) q c in cc (k, e)
      | inr i ↦
          upsert_mirrors names xs s s' (λ z j. sub z (inr j)) (sym (upsert_skip names y xs s e) ∙ h)
            x i c
    ]
    | inl e ↦
        let (z, w, k) = upsert_step names y xs s s' e h in
        elim m [
          | inl q ↦
              subst (λ (u : ExternalServer). IsMirrored (api.stored s') taas all u.name) (sym q)
                (upsert_keeps y.name names xs z s' (λ u j. sub u (inr j)) k
                  (written_mirrors y s z (sub y (inl refl)) w))
          | inr i ↦ upsert_mirrors names xs z s' (λ u j. sub u (inr j)) k x i c
        ]
  ]
