-- ===== src/AquaductTaas/Prune.antt =====
-- The loop of `syncWeftServers` (internal/controller/aquaducttaas/reconciler.go) that deletes the mirrored
-- servers which are no longer returned.
use weft_operator.Prelude.{
  String, Option, none, some, ◌≡◌, refl, sym, ap, ◌∙◌, subst, ◌↔◌, inl, inr, true, false, List, [],
  ◌∷◌, contains, In, Bool-cases,
}
use weft_operator.Kube.{KubeError, not_found, already_exists, other}
use weft_operator.AquaductTaas.{Mirror, Owner, delete_failed, Registry, is_fatal, prune_stale}
use weft_operator.AquaductTaas.Upsert.{SameKey, Behaves}

pub record IsPruned (names : List String) (ws before stored : List Mirror) : Type 0 where
  pub fewer : (w : Mirror) → In w stored → In w before
  pub kept : (w : Mirror) → In w before → contains names w.name ≡ true → In w stored
  pub gone : (w : Mirror) → In w ws → In w stored → contains names w.name ≡ true

module _ {S : Type 0} (r : Registry S) (api : Behaves r) (taas : Owner) where
  prune_nil : (names : List String) (s s' : S) → prune_stale r taas names [] s ≡ (none, s') → s ≡ s'
  unfolding prune_stale
  prune_nil names s s' h = ap (λ p. p.1) h

  prune_hit :
      (names : List String) (w : Mirror) (ws : List Mirror) (s : S)
      → contains names w.name ≡ true
      → prune_stale r taas names (w ∷ ws) s ≡ prune_stale r taas names ws s
  unfolding prune_stale
  prune_hit names w ws s e = rw (e, prune_stale) refl

  prune_miss :
      (names : List String) (w : Mirror) (ws : List Mirror) (s s'' : S)
      → contains names w.name ≡ false
      → prune_stale r taas names (w ∷ ws) s ≡ (none, s'')
      → (s' : S) × ((x : Mirror)
          → In x (api.stored s') ↔ (In x (api.stored s) × ¬ SameKey x w.namespace w.name))
        × (prune_stale r taas names ws s' ≡ (none, s''))
  unfolding prune_stale
  prune_miss names w ws s s'' f h = go (r.delete s w) refl (rw (f, prune_stale) at h)
    where
      go :
          (a : Option KubeError × S)
          → r.delete s w ≡ a
          → (elim (is_fatal (a.0)) [
            | none ↦ prune_stale r taas names ws (a.1)
            | some k ↦ (some (delete_failed w.name k), a.1)
          ])
            ≡ (none, s'')
          → (s' : S) × ((x : Mirror)
              → In x (api.stored s') ↔ (In x (api.stored s) × ¬ SameKey x w.namespace w.name))
            × (prune_stale r taas names ws s' ≡ (none, s''))
      go (none, s') q k = (s', λ x. api.deleted s s' w x none q refl, k)
      go (some not_found, s') q k = (s', λ x. api.deleted s s' w x (some not_found) q refl, k)
      go (some already_exists, s') q k = cc k
      go (some (other m), s') q k = cc k

  pub prune_stale-IsPruned :
      (names : List String) (ws : List Mirror) (s s' : S)
      → prune_stale r taas names ws s ≡ (none, s')
      → IsPruned names ws (api.stored s) (api.stored s')
  unfolding SameKey
  prune_stale-IsPruned names [] s s' h =
      let e = prune_nil names s s' h in
      record {
        fewer = λ w m. subst (λ z. In w (api.stored z)) (sym e) m;
        kept = λ w m _. subst (λ z. In w (api.stored z)) e m;
        gone = λ w m _. absurd m;
      }
  prune_stale-IsPruned names (w ∷ ws) s s' h = elim (Bool-cases (contains names w.name)) [
    | inl e ↦
        let p = prune_stale-IsPruned names ws s s' (sym (prune_hit names w ws s e) ∙ h) in
        record {
          fewer = p.fewer;
          kept = p.kept;
          gone = λ x m i. elim m [
            | inl q ↦ subst (λ (y : Mirror). contains names y.name ≡ true) (sym q) e
            | inr j ↦ p.gone x j i
          ];
        }
    | inr f ↦
        let (z, d, k) = prune_miss names w ws s s' f h in
        let p = prune_stale-IsPruned names ws z s' k in
        record {
          fewer = λ x m. ((d x).0 (p.fewer x m)).0;
          kept = λ x m e. p.kept x ((d x).1 (m, λ q. another x w e f (q.1))) e;
          gone = λ x m i. elim m [
            | inl q ↦ absurd (
                ((d x).0 (p.fewer x i)).1
                  (ap (λ (y : Mirror). y.namespace) q, ap (λ (y : Mirror). y.name) q))
            | inr j ↦ p.gone x j i
          ];
        }
  ]
    where
      another :
          (x w : Mirror)
          → contains names x.name ≡ true
          → contains names w.name ≡ false
          → x.name ≡ w.name
          → ⊥
      another x w e f q = let k = subst (λ n. contains names n ≡ true) q e in cc (k, f)
