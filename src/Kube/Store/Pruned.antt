-- ===== src/Kube/Store/Pruned.antt =====
-- The store after the deletions of a loop that met no error.
use weft_operator.Prelude.{
  Option, none, ◌≡◌, refl, sym, ap, ◌∙◌, subst, inl, inr, Bool, true, false, List, [], ◌∷◌, In,
  Bool-cases,
}
use weft_operator.Kube.{KubeError}
use weft_operator.Kube.Store.Written.{or_else_lem}
use weft_operator.Kube.Store.{Objects, delete_one, delete_unless, unless_gone, SameKey, IsStore}

-- The objects that are not being deleted were there before, and none of the list that fails the test
-- is among them; all before that pass it stay.
pub record IsPruned {O : Type 0} (is_deleting test : O → Bool) (listed before stored : List O)
    : Type 0 where
  pub fewer : (o : O) → In o stored → is_deleting o ≡ false → In o before
  pub kept : (o : O) → In o before → test o ≡ true → In o stored
  pub gone : (o : O) → In o listed → In o stored → is_deleting o ≡ false → test o ≡ true

module _ {S O : Type 0} (objects : Objects S O) (store : IsStore objects)
    (fatal : Option KubeError → Option KubeError)
    (strict : (e : Option KubeError) → fatal e ≡ none → unless_gone e ≡ none)
    (test : O → Bool) where
  delete_nil : (s s' : S) → delete_unless objects fatal test [] s ≡ (none, s') → s ≡ s'
  unfolding delete_unless
  delete_nil s s' h = ap (λ p. p.1) h

  delete_hit :
      (o : O) (os : List O) (s : S)
      → test o ≡ true
      → delete_unless objects fatal test (o ∷ os) s ≡ delete_unless objects fatal test os s
  unfolding delete_unless
  delete_hit o os s e = rw (e, delete_unless) refl

  -- A deletion that ends the loop with no error is one of the store.
  delete_one_lem :
      (o : O) (s s' : S)
      → delete_one objects fatal o s ≡ (none, s')
      → (e : Option KubeError) × (objects.delete s o ≡ (e, s')) × (unless_gone e ≡ none)
  unfolding delete_one
  delete_one_lem o s s' h = go (objects.delete s o) refl h
    where
      go :
          (a : Option KubeError × S)
          → objects.delete s o ≡ a
          → ◌≡◌ {A = Option KubeError × S} (fatal (a.0), a.1) (none, s')
          → (e : Option KubeError) × (objects.delete s o ≡ (e, s')) × (unless_gone e ≡ none)
      go (e, z) q k =
          let same : z ≡ s' = ap (λ p. p.1) k in
          (e, q ∙ ap (λ u. (e, u)) same, strict e (ap (λ p. p.0) k))

  delete_miss :
      (o : O) (os : List O) (s s' : S)
      → test o ≡ false
      → delete_unless objects fatal test (o ∷ os) s ≡ (none, s')
      → (z : S) × (delete_one objects fatal o s ≡ (none, z))
        × (delete_unless objects fatal test os z ≡ (none, s'))
  unfolding delete_unless
  delete_miss o os s s' f h =
      or_else_lem (delete_one objects fatal o s) (delete_unless objects fatal test os) s'
        (rw (f, delete_unless) at h)

  pruned_fewer :
      (os : List O) (s s' : S) (x : O)
      → delete_unless objects fatal test os s ≡ (none, s')
      → In x (store.stored s')
      → objects.is_deleting x ≡ false
      → In x (store.stored s)
  pruned_fewer [] s s' x h m a = subst (λ z. In x (store.stored z)) (sym (delete_nil s s' h)) m
  pruned_fewer (o ∷ os) s s' x h m a = elim (Bool-cases (test o)) [
    | inl e ↦ pruned_fewer os s s' x (sym (delete_hit o os s e) ∙ h) m a
    | inr f ↦
        let (z, d, k) = delete_miss o os s s' f h in
        let (e, q, g) = delete_one_lem o s z d in
        (store.deleted s z o x e q g (pruned_fewer os z s' x k m a) a).0
  ]

  pruned_kept :
      (os : List O) (s s' : S) (x : O)
      → ((o : O) → In o os → SameKey objects x (objects.namespace o) (objects.name o) → x ≡ o)
      → delete_unless objects fatal test os s ≡ (none, s')
      → In x (store.stored s)
      → test x ≡ true
      → In x (store.stored s')
  pruned_kept [] s s' x agree h m t = subst (λ z. In x (store.stored z)) (delete_nil s s' h) m
  pruned_kept (o ∷ os) s s' x agree h m t = elim (Bool-cases (test o)) [
    | inl e ↦ pruned_kept os s s' x (λ y j. agree y (inr j)) (sym (delete_hit o os s e) ∙ h) m t
    | inr f ↦
        let (z, d, k) = delete_miss o os s s' f h in
        let (e, q, g) = delete_one_lem o s z d in
        pruned_kept os z s' x (λ y j. agree y (inr j)) k
          (store.others_kept s z o x e q g m (λ w. cc (ap test (agree o (inl refl) w), t, f))) t
  ]

  pruned_gone :
      (os : List O) (s s' : S) (x : O)
      → delete_unless objects fatal test os s ≡ (none, s')
      → In x os
      → In x (store.stored s')
      → objects.is_deleting x ≡ false
      → test x ≡ true
  unfolding SameKey
  pruned_gone [] s s' x h i m a = absurd i
  pruned_gone (o ∷ os) s s' x h i m a = elim (Bool-cases (test o)) [
    | inl e ↦ elim i [
      | inl q ↦ subst (λ y. test y ≡ true) (sym q) e
      | inr j ↦ pruned_gone os s s' x (sym (delete_hit o os s e) ∙ h) j m a
    ]
    | inr f ↦
        let (z, d, k) = delete_miss o os s s' f h in
        elim i [
          | inl q ↦
              let (e, w, g) = delete_one_lem o s z d in
              absurd (
                (store.deleted s z o x e w g (pruned_fewer os z s' x k m a) a).1
                  (ap objects.namespace q, ap objects.name q))
          | inr j ↦ pruned_gone os z s' x k j m a
        ]
  ]

  pub delete_unless-IsPruned :
      (os : List O) (s s' : S)
      → ((x o : O)
          → In x (store.stored s)
          → In o os
          → SameKey objects x (objects.namespace o) (objects.name o)
          → x ≡ o)
      → delete_unless objects fatal test os s ≡ (none, s')
      → IsPruned objects.is_deleting test os (store.stored s) (store.stored s')
  delete_unless-IsPruned os s s' agree h = record {
    fewer = λ o m a. pruned_fewer os s s' o h m a;
    kept = λ o m t. pruned_kept os s s' o (λ y j q. agree o y m j q) h m t;
    gone = λ o i m a. pruned_gone os s s' o h i m a;
  }
