-- ===== src/Kube/Store/Written.antt =====
-- The store after the writes of a loop that met no error.
use weft_operator.Prelude.{
  String, Option, none, some, ◌≡◌, refl, sym, ap, ◌∙◌, subst, inl, inr, List, [], ◌∷◌, ◌++◌, In,
  text_cases,
}
use weft_operator.Kube.{Answer, ok, KubeError}
use weft_operator.Kube.Store.{Objects, Write, or_else, write_all, SameKey, IsWritten, IsStore}

-- Under the name stands what one of the writes of that name made.
pub record HasWritten {S O : Type 0} (objects : Objects S O) (stored : List O) (ns : String)
    (ws : List (Write O)) (name : String) : Type 0 where
  pub object : O
  pub present : In object stored
  pub key : SameKey objects object ns name
  pub write : Write O
  pub member : In write ws
  pub same_name : write.name ≡ name
  pub old : O
  pub old_key : SameKey objects old ns name
  pub sends : write.mutate old ≡ ok object

pub or_else_lem :
    {S : Type 0} (a : Option KubeError × S) (f : S → Option KubeError × S) (s' : S)
    → or_else a f ≡ (none, s')
    → (z : S) × (a ≡ (none, z)) × (f z ≡ (none, s'))
or_else_lem (none, z) f s' h = (z, refl, h)
or_else_lem (some e, z) f s' h = cc h

module _ {S O : Type 0} (objects : Objects S O) (store : IsStore objects) (ns : String)
    (all : List (Write O)) where
  abbrev Has : S → String → Type 0
  Has s name = HasWritten objects (store.stored s) ns all name

  written-Has :
      (w : Write O) (s s' : S)
      → In w all
      → IsWritten objects store.stored ns w.name w.mutate s s'
      → Has s' w.name
  written-Has w s s' i r = record {
    object = r.now;
    present = r.present;
    key = r.now_key;
    write = w;
    member = i;
    same_name = refl;
    old = r.old;
    old_key = r.old_key;
    sends = r.sends;
  }

  -- A write of another name leaves what was made; one of this name replaces it.
  written_keeps :
      (w : Write O) (name : String) (s s' : S)
      → In w all
      → IsWritten objects store.stored ns w.name w.mutate s s'
      → Has s name
      → Has s' name
  unfolding SameKey
  written_keeps w name s s' i r h = elim (text_cases w.name name) [
    | inl (_, p) ↦ subst (λ n. Has s' n) p (written-Has w s s' i r)
    | inr (_, n) ↦ record {
      object = h.object;
      present = (r.others h.object (λ k. n (sym (k.1) ∙ h.key.1))).0 h.present;
      key = h.key;
      write = h.write;
      member = h.member;
      same_name = h.same_name;
      old = h.old;
      old_key = h.old_key;
      sends = h.sends;
    }
  ]

  write_step :
      (w : Write O) (ws : List (Write O)) (s s' : S)
      → write_all objects ns (w ∷ ws) s ≡ (none, s')
      → (z : S) × IsWritten objects store.stored ns w.name w.mutate s z
        × (write_all objects ns ws z ≡ (none, s'))
  unfolding write_all
  write_step w ws s s' h =
      let (z, e, k) =
        or_else_lem (objects.create_or_update s ns w.name w.mutate) (write_all objects ns ws) s'
          h in
      (z, store.written s z ns w.name w.mutate e, k)

  write_nil : (s s' : S) → write_all objects ns [] s ≡ (none, s') → s ≡ s'
  unfolding write_all
  write_nil s s' h = ap (λ p. p.1) h

  write_all_keeps :
      (ws : List (Write O)) (name : String) (s s' : S)
      → ((w : Write O) → In w ws → In w all)
      → write_all objects ns ws s ≡ (none, s')
      → Has s name
      → Has s' name
  write_all_keeps [] name s s' sub h v = subst (λ z. Has z name) (write_nil s s' h) v
  write_all_keeps (w ∷ ws) name s s' sub h v =
      let (z, r, k) = write_step w ws s s' h in
      write_all_keeps ws name z s' (λ x i. sub x (inr i)) k
        (written_keeps w name s z (sub w (inl refl)) r v)

  write_all-Has :
      (ws : List (Write O)) (s s' : S)
      → ((w : Write O) → In w ws → In w all)
      → write_all objects ns ws s ≡ (none, s')
      → (w : Write O) → In w ws
      → Has s' w.name
  write_all-Has [] s s' sub h w m = absurd m
  write_all-Has (x ∷ ws) s s' sub h w (inl e) =
      let (z, r, k) = write_step x ws s s' h in
      subst (λ (y : Write O). Has s' y.name) (sym e)
        (write_all_keeps ws x.name z s' (λ y i. sub y (inr i)) k
          (written-Has x s z (sub x (inl refl)) r))
  write_all-Has (x ∷ ws) s s' sub h w (inr i) =
      let (z, r, k) = write_step x ws s s' h in write_all-Has ws z s' (λ y j. sub y (inr j)) k w i

-- After the loop each write's name has what a write of that name made.
pub write_all-HasWritten :
    {S O : Type 0} (objects : Objects S O) (store : IsStore objects) (ns : String)
    (ws : List (Write O)) (s s' : S)
    → write_all objects ns ws s ≡ (none, s')
    → (w : Write O) → In w ws
    → HasWritten objects (store.stored s') ns ws w.name
write_all-HasWritten objects store ns ws s s' h w i =
    write_all-Has objects store ns ws ws s s' (λ x j. j) h w i

-- A loop that follows a loop goes on with its state.
pub write_all-append :
    {S O : Type 0} (objects : Objects S O) (ns : String) (ws vs : List (Write O)) (s z s' : S)
    → write_all objects ns ws s ≡ (none, z)
    → write_all objects ns vs z ≡ (none, s')
    → write_all objects ns (ws ++ vs) s ≡ (none, s')
unfolding write_all
write_all-append objects ns [] vs s z s' h k =
    subst (λ y. write_all objects ns vs y ≡ (none, s')) (sym (ap (λ p. p.1) h)) k
write_all-append objects ns (w ∷ ws) vs s z s' h k =
    let (y, e, i) =
      or_else_lem (objects.create_or_update s ns w.name w.mutate) (write_all objects ns ws) z h in
    rw e (write_all-append objects ns ws vs y z s' i k)

-- What no write changes, the loop does not change.
pub write_all_keeps_value :
    {S O A : Type 0} (objects : Objects S O) (ns : String) (value : S → A)
    → ((s s' : S) (name : String) (f : O → Answer KubeError O)
        → objects.create_or_update s ns name f ≡ (none, s')
        → value s' ≡ value s)
    → (ws : List (Write O)) (s s' : S) → write_all objects ns ws s ≡ (none, s')
    → value s' ≡ value s
unfolding write_all
write_all_keeps_value objects ns value same [] s s' h = ap value (sym (ap (λ p. p.1) h))
write_all_keeps_value objects ns value same (w ∷ ws) s s' h =
    let (z, e, k) =
      or_else_lem (objects.create_or_update s ns w.name w.mutate) (write_all objects ns ws) s' h in
    write_all_keeps_value objects ns value same ws z s' k ∙ same s z w.name w.mutate e
