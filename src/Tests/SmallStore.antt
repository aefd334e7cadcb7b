-- ===== src/Tests/SmallStore.antt =====
-- A small store of the objects of one kind: a list without two objects of one key.
use weft_operator.Prelude.{
  String, Option, none, some, ◌≡◌, refl, sym, ap, ◌∙◌, subst, ◌↔◌, ◌⊎◌, inl, inr, Bool, true, false,
  not, ◌&&◌, List, [], ◌∷◌, keep, In, In-keep, keep-In, ◌==◌, eq_iff, arith, Bool-cases,
  if◌then◌else◌,
}
use weft_operator.Kube.{Answer, ok, err, KubeError, other}
use weft_operator.Kube.Store.{Objects, SameKey, IsWritten, IsStore}

-- How the objects of a kind are keyed, with the object that CreateOrUpdate begins with.
pub record Keyed (O : Type 0) : Type 0 where
  pub namespace : O → String
  pub name : O → String
  pub is_deleting : O → Bool
  pub blank : String → String → O
  pub blank_namespace : (ns n : String) → namespace (blank ns n) ≡ ns
  pub blank_name : (ns n : String) → name (blank ns n) ≡ n

module _ {O : Type 0} (k : Keyed O) where
  unfoldable pub HasKey : O → String → String → Type 0
  HasKey o ns n = (k.namespace o ≡ ns) × (k.name o ≡ n)

  abbrev pub has_key : O → String → String → Bool
  has_key o ns n = k.namespace o == ns && k.name o == n

  abbrev pub drop_key : String → String → List O → List O
  drop_key ns n os = keep (λ o. not (has_key o ns n)) os

  abbrev pub found : List O → String → String → O
  found [] ns n = k.blank ns n
  found (o ∷ os) ns n = let rest = found os ns n in if has_key o ns n then o else rest

  pub record Rows : Type 0 where
    pub list : List O
    pub unique : (a b : O) → In a list → In b list → HasKey a (k.namespace b) (k.name b) → a ≡ b

  pub has_key_iff : (o : O) (ns n : String) → (has_key o ns n ≡ true) ↔ HasKey o ns n
  unfolding HasKey
  has_key_iff o ns n =
      let a = eq_iff (k.namespace o) ns in
      let b = eq_iff (k.name o) n in
      (
        λ h. (a.0 (ground (arith, h)), b.0 (ground (arith, h))),
        λ q. let u = a.1 (q.0) in let v = b.1 (q.1) in ground (arith, u, v),
      )

  pub no_key : (o : O) (ns n : String) → has_key o ns n ≡ false → ¬ HasKey o ns n
  no_key o ns n e h = let r = (has_key_iff o ns n).1 h in ground (arith, e, r)

  pub drop_key-In :
      (ns n : String) (os : List O) (x : O) → In x (drop_key ns n os) ↔ (In x os × ¬ HasKey x ns n)
  drop_key-In ns n os x =
      let test : O → Bool = λ o. not (has_key o ns n) in
      let q = has_key_iff x ns n in
      (
        λ m. let (i, p) = In-keep test x os m in (i, λ u. let r = q.1 u in ground (arith, p, r)),
        λ o. keep-In test x os o.0 (elim (Bool-cases (has_key x ns n)) [
          | inl e ↦ absurd (o.1 (q.0 e))
          | inr e ↦ ground (arith, e)
        ]),
      )

  pub found-HasKey : (os : List O) (ns n : String) → HasKey (found os ns n) ns n
  unfolding HasKey
  found-HasKey [] ns n = (k.blank_namespace ns n, k.blank_name ns n)
  found-HasKey (o ∷ os) ns n = elim (Bool-cases (has_key o ns n)) [
    | inl e ↦ rw e ((has_key_iff o ns n).0 e)
    | inr e ↦ rw e (found-HasKey os ns n)
  ]

  -- Objects of one key, the first of which is the new one and the second of which is not among the dropped.
  pub put_unique :
      (o : O) (ns n : String) (r : Rows)
      → HasKey o ns n
      → (a b : O) → In a (o ∷ drop_key ns n r.list)
      → In b (o ∷ drop_key ns n r.list)
      → HasKey a (k.namespace b) (k.name b)
      → a ≡ b
  unfolding HasKey
  put_unique o ns n r h a b (inl p) (inl q) u = p ∙ sym q
  put_unique o ns n r h a b (inl p) (inr j) u = absurd (
      ((drop_key-In ns n r.list b).0 j).1
        (sym (u.0) ∙ ap k.namespace p ∙ h.0, sym (u.1) ∙ ap k.name p ∙ h.1))
  put_unique o ns n r h a b (inr i) (inl q) u =
      absurd (
        ((drop_key-In ns n r.list a).0 i).1 (u.0 ∙ ap k.namespace q ∙ h.0, u.1 ∙ ap k.name q ∙ h.1))
  put_unique o ns n r h a b (inr i) (inr j) u =
      r.unique a b ((drop_key-In ns n r.list a).0 i).0 ((drop_key-In ns n r.list b).0 j).0 u

  unfoldable pub put_row : (o : O) (ns n : String) → HasKey o ns n → Rows → Rows
  put_row o ns n h r = record { list = o ∷ drop_key ns n r.list; unique = put_unique o ns n r h }

  unfoldable pub drop_row : String → String → Rows → Rows
  drop_row ns n r = record {
    list = drop_key ns n r.list;
    unique = λ a b i j q.
        r.unique a b ((drop_key-In ns n r.list a).0 i).0 ((drop_key-In ns n r.list b).0 j).0 q;
  }

  unfoldable pub no_rows : Rows
  no_rows = record { list = []; unique = λ a b i j q. absurd i }

  module _ {S : Type 0} (rows : S → Rows) (set_rows : Rows → S → S)
      (rows_set : (r : Rows) (s : S) → rows (set_rows r s) ≡ r) where
    abbrev pub put_checked :
        (o : O) (ns n : String) (s : S) → (HasKey o ns n) ⊎ (¬ HasKey o ns n) → Option KubeError × S
    put_checked o ns n s (inl h) = (none, set_rows (put_row o ns n h (rows s)) s)
    put_checked o ns n s (inr h) = (some (other "the key changed"), s)

    abbrev pub decided :
        (o : O) (ns n : String) (b : Bool)
        → has_key o ns n ≡ b
        → (HasKey o ns n) ⊎ (¬ HasKey o ns n)
    decided o ns n true e = inl ((has_key_iff o ns n).0 e)
    decided o ns n false e = inr (no_key o ns n e)

    abbrev pub put_sent : String → String → Answer KubeError O → S → Option KubeError × S
    put_sent ns n (err e) s = (some e, s)
    put_sent ns n (ok o) s = put_checked o ns n s (decided o ns n (has_key o ns n) refl)

    abbrev pub small_objects : Objects S O
    small_objects = record {
      namespace = k.namespace;
      name = k.name;
      is_deleting = k.is_deleting;
      create_or_update = λ s ns n f. put_sent ns n (f (found (rows s).list ns n)) s;
      delete = λ s o. (none, set_rows (drop_row (k.namespace o) (k.name o) (rows s)) s);
    }

    put_checked-IsWritten :
        (s s' : S) (ns n : String) (f : O → Answer KubeError O) (o : O)
        → (d : (HasKey o ns n) ⊎ (¬ HasKey o ns n)) → f (found (rows s).list ns n) ≡ ok o
        → put_checked o ns n s d ≡ (none, s')
        → IsWritten small_objects (λ s. (rows s).list) ns n f s s'
    unfolding put_row SameKey HasKey
    put_checked-IsWritten s s' ns n f o (inr d) q h = cc h
    put_checked-IsWritten s s' ns n f o (inl d) q h =
        let same : o ∷ drop_key ns n (rows s).list ≡ (rows s').list =
          sym (ap (λ (r : Rows). r.list) (rows_set (put_row o ns n d (rows s)) s))
          ∙ ap (λ (x : Option KubeError × S). (rows x.1).list) h in
        record {
          old = found (rows s).list ns n;
          now = o;
          old_key = found-HasKey (rows s).list ns n;
          now_key = d;
          sends = q;
          present = subst (λ os. In o os) same (inl refl);
          others = λ x m. (
            λ i. subst (λ os. In x os) same (inr ((drop_key-In ns n (rows s).list x).1 (i, m))),
            λ i. elim (subst (λ os. In x os) (sym same) i) [
              | inl p ↦ absurd (m (ap k.namespace p ∙ d.0, ap k.name p ∙ d.1))
              | inr j ↦ ((drop_key-In ns n (rows s).list x).0 j).0
            ],
          );
        }

    pub put_sent-IsWritten :
        (s s' : S) (ns n : String) (f : O → Answer KubeError O) (a : Answer KubeError O)
        → f (found (rows s).list ns n) ≡ a
        → put_sent ns n a s ≡ (none, s')
        → IsWritten small_objects (λ s. (rows s).list) ns n f s s'
    put_sent-IsWritten s s' ns n f (err e) q h = cc h
    put_sent-IsWritten s s' ns n f (ok o) q h =
        put_checked-IsWritten s s' ns n f o (decided o ns n (has_key o ns n) refl) q h

    pub dropped_list :
        (s s' : S) (o : O) (e : Option KubeError)
        → small_objects.delete s o ≡ (e, s')
        → drop_key (k.namespace o) (k.name o) (rows s).list ≡ (rows s').list
    unfolding drop_row
    dropped_list s s' o e h =
        sym (ap (λ (r : Rows). r.list) (rows_set (drop_row (k.namespace o) (k.name o) (rows s)) s))
        ∙ ap (λ (y : Option KubeError × S). (rows y.1).list) h

    unfoldable pub small_store : IsStore small_objects
    unfolding HasKey SameKey drop_row
    small_store = record {
      stored = λ s. (rows s).list;
      unique = λ s. (rows s).unique;
      written =
          λ s s' ns n f h. put_sent-IsWritten s s' ns n f (f (found (rows s).list ns n)) refl h;
      deleted = λ s s' o x e h g i a.
          let same : drop_key (k.namespace o) (k.name o) (rows s).list ≡ (rows s').list =
            dropped_list s s' o e h in
          (drop_key-In (k.namespace o) (k.name o) (rows s).list x).0
            (subst (λ os. In x os) (sym same) i);
      others_kept = λ s s' o x e h g i n.
          subst (λ os. In x os) (dropped_list s s' o e h)
            ((drop_key-In (k.namespace o) (k.name o) (rows s).list x).1 (i, n));
    }
