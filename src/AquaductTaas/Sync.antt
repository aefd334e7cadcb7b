-- ===== src/AquaductTaas/Sync.antt =====
-- What `syncWeftServers` of internal/controller/aquaducttaas/reconciler.go leaves in the store.
use weft_operator.Prelude.{
  String, Option, none, some, ◌≡◌, refl, sym, ap, ◌∙◌, subst, ◌⊎◌, inl, inr, true, false, ◌||◌,
  List, [], ◌∷◌, contains, ◌==◌, In, Bool-cases, contains-In, In-contains,
}
use weft_operator.Prelude.Assoc.{lookup}
use weft_operator.Kube.{Answer, ok, err, Answer-cases}
use weft_operator.AquaductTaas.{
  ExternalServer, Mirror, Owner, SyncError, empty_name, empty_id, duplicate_name, list_failed,
  owner_label, Registry, cons_answer, desired, upsert, prune_stale, answer_of, prune_owned,
  mirror_all, sync_weft_servers,
}
use weft_operator.AquaductTaas.Upsert.{SameKey, Behaves, IsMirrored, upsert_mirrors}
use weft_operator.AquaductTaas.Prune.{IsPruned, prune_stale-IsPruned}

-- A returned server that has an address to dial.
unfoldable pub IsUsable : ExternalServer → Type 0
IsUsable x = (x.suspended || x.ip == "") ≡ false

cons_answer_lem :
    {A : Type 0} (x : A) (a : Answer SyncError (List A)) (ys : List A)
    → cons_answer x a ≡ ok ys
    → (rest : List A) × (a ≡ ok rest) × (ys ≡ x ∷ rest)
cons_answer_lem x (ok rest) ys h = (rest, refl, cc h)
cons_answer_lem x (err e) ys h = cc h

-- A step of the first loop that goes on.
desired_step :
    (seen names : List String) (x : ExternalServer) (xs : List ExternalServer)
    → desired seen (x ∷ xs) ≡ ok names
    → ((¬ IsUsable x) × (desired seen xs ≡ ok names))
      ⊎ ((rest : List String) × IsUsable x
          × (desired (x.name ∷ seen) xs ≡ ok rest)
          × (names ≡ x.name ∷ rest))
unfolding desired IsUsable
desired_step seen names x xs h = elim (Bool-cases (x.name == "")) [
  | inl a ↦ let k : err empty_name ≡ ok names = rw a at h in cc k
  | inr a ↦ elim (Bool-cases (x.id == "")) [
    | inl b ↦ let k : err (empty_id x.name) ≡ ok names = rw (a, b) at h in cc k
    | inr b ↦ elim (Bool-cases (x.suspended || x.ip == "")) [
      | inl u ↦ inl (λ v. cc (u, v), rw (a, b, u, desired) at h)
      | inr u ↦ elim (Bool-cases (contains seen x.name)) [
        | inl d ↦
            let k : err (duplicate_name x.name) ≡ ok names = rw (a, b, u, d, desired) at h in cc k
        | inr d ↦
            let (rest, p, q) =
              cons_answer_lem x.name (desired (x.name ∷ seen) xs) names
                (rw (a, b, u, d, desired) at h) in
            inr (rest, u, p, q)
      ]
    ]
  ]
]

desired_full :
    (seen names : List String) (xs : List ExternalServer) (x : ExternalServer)
    → desired seen xs ≡ ok names
    → In x xs
    → IsUsable x
    → In x.name names
desired_full seen names [] x h m u = absurd m
desired_full seen names (y ∷ xs) x h m u = elim (desired_step seen names y xs h) [
  | inl (n, k) ↦ elim m [
    | inl q ↦ absurd (n (subst IsUsable q u))
    | inr i ↦ desired_full seen names xs x k i u
  ]
  | inr (rest, _, k, q) ↦
      subst (λ ns. In x.name ns) (sym q)
        (elim m [
          | inl p ↦ inl (ap (λ (z : ExternalServer). z.name) p)
          | inr i ↦ inr (desired_full (y.name ∷ seen) rest xs x k i u)
        ])
]

desired_nil : (seen names : List String) → desired seen [] ≡ ok names → [] ≡ names
unfolding desired
desired_nil seen names h = cc h

desired_sound :
    (seen names : List String) (xs : List ExternalServer) (n : String)
    → desired seen xs ≡ ok names
    → In n names
    → (x : ExternalServer) × In x xs × IsUsable x × (x.name ≡ n)
desired_sound seen names [] n h m =
    absurd (subst (λ ns. In n ns) (sym (desired_nil seen names h)) m)
desired_sound seen names (y ∷ xs) n h m = elim (desired_step seen names y xs h) [
  | inl (_, k) ↦ let (x, i, u, e) = desired_sound seen names xs n k m in (x, inr i, u, e)
  | inr (rest, v, k, q) ↦ elim (subst (λ ns. In n ns) q m) [
    | inl p ↦ (y, inl refl, v, sym p)
    | inr i ↦ let (x, j, u, e) = desired_sound (y.name ∷ seen) rest xs n k i in (x, inr j, u, e)
  ]
]

-- What a successful sync comes to: the names that it returns and the store that it leaves.
pub record IsSynced (stored : List Mirror) (taas : Owner) (xs : List ExternalServer)
    (names : List String) : Type 0 where
  pub managed : (x : ExternalServer) → In x xs → IsUsable x → In x.name names
  pub usable :
      (n : String) → In n names → (x : ExternalServer) × In x xs × IsUsable x × (x.name ≡ n)
  pub mirrored : (n : String) → In n names → IsMirrored stored taas xs n
  pub no_other :
      (w : Mirror)
      → In w stored
      → w.namespace ≡ taas.namespace
      → lookup owner_label w.labels ≡ some taas.name
      → In w.name names

module _ {S : Type 0} (r : Registry S) (api : Behaves r) (taas : Owner)
    (xs : List ExternalServer) where
  answer_of_lem :
      (names ms : List String) (a : Option SyncError × S) (s' : S)
      → answer_of ms a ≡ (ok names, s')
      → (a ≡ (none, s')) × (ms ≡ names)
  answer_of_lem names ms (none, s) s' h = (ap (λ p. (none, p.1)) h, cc (ap (λ p. p.0) h))
  answer_of_lem names ms (some e, s) s' h = cc (ap (λ p. p.0) h)

  prune_owned_lem :
      (names ms : List String) (s s' : S)
      → prune_owned r taas ms s ≡ (ok names, s')
      → (ms ≡ names)
        × (ws : List Mirror) × (r.list_owned s taas.namespace taas.name ≡ ok ws)
        × IsPruned ms ws (api.stored s) (api.stored s')
  unfolding prune_owned
  prune_owned_lem names ms s s' h = elim (Answer-cases (r.list_owned s taas.namespace taas.name)) [
    | inl (ws, e) ↦
        let (k, q) =
          answer_of_lem names ms (prune_stale r taas ms ws s) s' (rw (e, prune_owned) at h) in
        (q, ws, e, prune_stale-IsPruned r api taas ms ws s s' k)
    | inr (x, e) ↦
        let k : (err (list_failed x), s) ≡ (ok names, s') = rw (e, prune_owned) at h in cc k
  ]

  mirror_all_lem :
      (names ms : List String) (s s' : S)
      → mirror_all r taas ms xs s ≡ (ok names, s')
      → (z : S) × (upsert r taas ms xs s ≡ (none, z)) × (prune_owned r taas ms z ≡ (ok names, s'))
  unfolding mirror_all
  mirror_all_lem names ms s s' h = go (upsert r taas ms xs s) refl h
    where
      go :
          (a : Option SyncError × S)
          → upsert r taas ms xs s ≡ a
          → (elim (a.0) [ none ↦ prune_owned r taas ms (a.1) | some k ↦ (err k, a.1) ])
            ≡ (ok names, s')
          → (z : S) × (upsert r taas ms xs s ≡ (none, z))
            × (prune_owned r taas ms z ≡ (ok names, s'))
      go (none, z) e k = (z, e, k)
      go (some y, z) e k = cc k

  sync_lem :
      (names : List String) (s s' : S)
      → sync_weft_servers r taas xs s ≡ (ok names, s')
      → (ms : List String) × (desired [] xs ≡ ok ms) × (mirror_all r taas ms xs s ≡ (ok names, s'))
  unfolding sync_weft_servers
  sync_lem names s s' h = elim (Answer-cases (desired [] xs)) [
    | inl (ms, e) ↦ (ms, e, rw (e, sync_weft_servers) at h)
    | inr (x, e) ↦ let k : (err x, s) ≡ (ok names, s') = rw (e, sync_weft_servers) at h in cc k
  ]

  -- A sync that succeeds returns the names of exactly the returned servers that are not suspended and
  -- have an address; for each there is a WeftServer that carries the owner label, the bastion ID and
  -- the connection string of a returned server of that name; and every WeftServer of the namespace
  -- that carries the owner label has one of these names. The API server behaves as documented.
  pub sync_weft_servers-IsSynced :
      (names : List String) (s s' : S)
      → sync_weft_servers r taas xs s ≡ (ok names, s')
      → IsSynced (api.stored s') taas xs names
  unfolding IsMirrored SameKey
  sync_weft_servers-IsSynced names s s' h =
      let (ms, d, k) = sync_lem names s s' h in
      let (z, u, p) = mirror_all_lem names ms s s' k in
      let (same, ws, l, pruned) = prune_owned_lem names ms z s' p in
      let e : desired [] xs ≡ ok names = d ∙ ap ok same in
      let has = λ (n : String) (i : In n names).
        subst (λ ns. contains ns n ≡ true) (sym same) (In-contains n names i) in
      record {
        managed = λ x i v. desired_full [] names xs x e i v;
        usable = λ n i. desired_sound [] names xs n e i;
        mirrored = λ n i.
            let (x, j, v, q) = desired_sound [] names xs n e i in
            let c = subst (λ m. contains ms m ≡ true) (sym q) (has n i) in
            let (w, m, o) = upsert_mirrors r api taas xs ms xs s z (λ y a. a) u x j c in
            let b = subst (λ m. contains ms m ≡ true) (sym (o.key.1)) c in
            subst (λ m. IsMirrored (api.stored s') taas xs m) q (w, pruned.kept w m b, o);
        no_other = λ w m n t.
            let i = (api.listed z taas.namespace taas.name ws l w).1 (pruned.fewer w m, n, t) in
            contains-In w.name names
              (subst (λ ns. contains ns w.name ≡ true) same (pruned.gone w i m));
      }
