-- ===== src/Reflector/ClusterDns/Publish.antt =====
-- What `syncCoreDNS` leaves in the CoreDNS custom ConfigMap.
use weft_operator.Prelude.{
  String, Option, none, some, ◌≡◌, ◌≢◌, refl, sym, ap, ◌∙◌, Bool, true, false, not, inl, inr, [],
  ◌∷◌, ◌==◌, eq_iff, eq_refl, Bool-cases, text_cases, if◌then◌else◌, get_or,
}
use weft_operator.Prelude.Assoc.{Assoc, lookup, put, remove, lookup-put, lookup-remove}
use weft_operator.Kube.{Answer, ok, err, KubeError, not_found, already_exists, other}
use weft_operator.Reflector.ClusterDns.{
  Outcome, Answers, after_create, after_update, created, updated, unchanged, with_current,
  after_read, sync_core_dns,
}

-- The data before the call: none where there is no ConfigMap.
unfoldable pub data_before : Answer KubeError (Assoc String) → Assoc String
data_before (ok entries) = entries
data_before (err e) = []

-- What the key should hold: nothing for the empty content.
unfoldable pub wanted : String → Option String
wanted content = if content == "" then none else some content

-- The key holds what it should, the other keys what they held, and the outcome says whether the key
-- is there.
pub record IsPublished (before : Assoc String) (key content : String) (o : Outcome) : Type 0 where
  pub own : lookup key (get_or o.written before) ≡ wanted content
  pub others : (j : String) → j ≢ key → lookup j (get_or o.written before) ≡ lookup j before
  pub says : o.present ≡ not (content == "")

different_key : (j key : String) → j ≢ key → (key == j) ≡ false
different_key j key n = elim (text_cases key j) [ inl (_, p) ↦ absurd (n (sym p)) | inr (e, _) ↦ e ]

one_own :
    (key content : String)
    → (content == "") ≡ false
    → lookup key ((key, content) ∷ []) ≡ wanted content
unfolding lookup wanted
one_own key content e = rw (e, eq_refl key) refl

one_others : (key content j : String) → j ≢ key → lookup j ((key, content) ∷ []) ≡ lookup j []
unfolding lookup
one_others key content j n = rw (different_key j key n) refl

module _ (a : Answers) (key content : String) where
  unchanged-IsPublished :
      (before : Assoc String) (present : Bool)
      → lookup key before ≡ wanted content
      → present ≡ not (content == "")
      → IsPublished before key content (unchanged a key content present)
  unchanged-IsPublished before present h p = record { own = h; others = λ j n. refl; says = p }

  updated-IsPublished :
      (before entries : Assoc String) (present : Bool)
      → (updated a key content present entries).error ≡ none
      → lookup key entries ≡ wanted content
      → ((j : String) → j ≢ key → lookup j entries ≡ lookup j before)
      → IsPublished before key content (updated a key content present entries)
  unfolding updated
  updated-IsPublished before entries present h own others = go (a.on_update entries) h
    where
      go :
          (e : Option KubeError)
          → (after_update content present entries e).error ≡ none
          → IsPublished before key content (after_update content present entries e)
      go none k = record { own = own; others = others; says = refl }
      go (some x) k = cc k

  created-IsPublished :
      (content == "") ≡ false
      → (created a key content).error ≡ none
      → IsPublished [] key content (created a key content)
  unfolding created
  created-IsPublished e h = go (a.on_create ((key, content) ∷ [])) h
    where
      go :
          (r : Option KubeError)
          → (after_create ((key, content) ∷ []) r).error ≡ none
          → IsPublished [] key content (after_create ((key, content) ∷ []) r)
      go none k = record {
        own = one_own key content e;
        others = λ j n. one_others key content j n;
        says = rw e refl;
      }
      go (some x) k = cc k

  put_others :
      (entries : Assoc String) (j : String)
      → j ≢ key
      → lookup j (put key content entries) ≡ lookup j entries
  put_others entries j n = lookup-put key j content entries ∙ (rw (different_key j key n) refl)

  remove_others :
      (entries : Assoc String) (j : String)
      → j ≢ key
      → lookup j (remove key entries) ≡ lookup j entries
  remove_others entries j n = lookup-remove key j entries ∙ (rw (different_key j key n) refl)

  put_own :
      (entries : Assoc String)
      → (content == "") ≡ false
      → lookup key (put key content entries) ≡ wanted content
  unfolding wanted
  put_own entries e = rw e (lookup-put key key content entries ∙ (rw (eq_refl key) refl))

  remove_own :
      (entries : Assoc String)
      → (content == "") ≡ true
      → lookup key (remove key entries) ≡ wanted content
  unfolding wanted
  remove_own entries e = rw e (lookup-remove key key entries ∙ (rw (eq_refl key) refl))

  with_current-IsPublished :
      (entries : Assoc String) (current : Option String)
      → lookup key entries ≡ current
      → (with_current a key content entries current).error ≡ none
      → IsPublished entries key content (with_current a key content entries current)
  unfolding with_current wanted
  with_current-IsPublished entries none l h = elim (Bool-cases (content == "")) [
    | inl e ↦ rw e (unchanged-IsPublished entries false (rw e l) (rw e refl))
    | inr e ↦
        let k : (updated a key content false (put key content entries)).error ≡ none = rw e at h in
        rw e (
          updated-IsPublished entries (put key content entries) false k (put_own entries e)
            (put_others entries))
  ]
  with_current-IsPublished entries (some current) l h = elim (Bool-cases (content == "")) [
    | inl e ↦
        let k : (updated a key content true (remove key entries)).error ≡ none = rw e at h in
        rw e (
          updated-IsPublished entries (remove key entries) true k (remove_own entries e)
            (remove_others entries))
    | inr e ↦ elim (Bool-cases (current == content)) [
      | inl c ↦
          let same : current ≡ content = (eq_iff current content).0 c in
          rw (e, c) (unchanged-IsPublished entries true (rw e (l ∙ ap some same)) (rw e refl))
      | inr c ↦
          let k : (updated a key content true (put key content entries)).error ≡ none =
            rw (e, c) at h in
          rw (e, c)
            (updated-IsPublished entries (put key content entries) true k (put_own entries e)
              (put_others entries))
    ]
  ]

  after_read-IsPublished :
      (r : Answer KubeError (Assoc String))
      → (after_read a key content r).error ≡ none
      → IsPublished (data_before r) key content (after_read a key content r)
  unfolding after_read data_before wanted lookup
  after_read-IsPublished (ok entries) h =
      with_current-IsPublished entries (lookup key entries) refl h
  after_read-IsPublished (err not_found) h = elim (Bool-cases (content == "")) [
    | inl e ↦ rw e (unchanged-IsPublished [] false (rw e refl) (rw e refl))
    | inr e ↦
        let k : (created a key content).error ≡ none = rw e at h in rw e (created-IsPublished e k)
  ]
  after_read-IsPublished (err already_exists) h = cc h
  after_read-IsPublished (err (other m)) h = cc h

  -- A sync without an error leaves the reflector's key with the content, or absent for the empty
  -- content; every other key of the shared ConfigMap as it was; and says whether the key is there.
  pub sync_core_dns-IsPublished :
      (sync_core_dns a key content).error ≡ none
      → IsPublished (data_before a.read) key content (sync_core_dns a key content)
  unfolding sync_core_dns
  sync_core_dns-IsPublished h = after_read-IsPublished a.read h
