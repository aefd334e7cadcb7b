-- ===== src/DnsRecord/Readiness.antt =====
-- The resolution and the conditions at the end of a pass: internal/controller/dnsrecord/reconciler.go.
use weft_operator.Prelude.{
  String, none, some, ◌≡◌, refl, Bool, true, false, ◌↔◌, inl, inr, List, [], ◌∷◌, ◌==◌, eq_iff,
  arith, Bool-cases, if◌then◌else◌,
}
use weft_operator.Prelude.Sort.{sort_strings}
use weft_operator.Kube.{Answer, ok, err, next, State, Condition, find_condition, ◌>>=◌}
use weft_operator.DnsRecord.{DnsRecord, Call, World}
use weft_operator.DnsRecord.Reconcile

pub strings_equal_iff : (xs ys : List String) → (Reconcile.strings_equal xs ys ≡ true) ↔ (xs ≡ ys)
unfolding Reconcile.strings_equal
strings_equal_iff [] [] = (λ _. refl, λ _. refl)
strings_equal_iff [] (y ∷ ys) = (λ h. cc, λ h. cc)
strings_equal_iff (x ∷ xs) [] = (λ h. cc, λ h. cc)
strings_equal_iff (x ∷ xs) (y ∷ ys) = (
  λ h. ground (arith, eq_iff x y, (strings_equal_iff xs ys).0),
  λ h. ground (arith, eq_iff x y, (strings_equal_iff xs ys).1),
)

-- The documented behaviour of meta.SetStatusCondition: the condition of its type is replaced or
-- added, and those of other types stay.
pub record SetsConditions (w : World) : Type 0 where
  pub found :
      (c : Condition) (cs : List Condition) (t : String)
      → find_condition t (w.set_condition c cs)
        ≡ (if c.type == t then some c else find_condition t cs)

-- The status of a condition: an absent one is not true.
unfoldable pub is_true : String → List Condition → Bool
is_true t cs = elim (find_condition t cs) [ none ↦ false | some c ↦ c.status ]

module _ (w : World) where
  judge-status :
      (endpoint token : String) (expected ips : List String)
      → ((Reconcile.judge w endpoint token expected ips).status ≡ true) ↔ (ips ≡ expected)
  unfolding Reconcile.judge
  judge-status endpoint token [] [] = (λ _. refl, λ _. refl)
  judge-status endpoint token [] (i ∷ is) = (λ h. cc, λ h. cc)
  judge-status endpoint token (e ∷ es) ips = (
    λ h. (strings_equal_iff ips (e ∷ es)).0 (ground arith),
    λ h. rw ((strings_equal_iff ips (e ∷ es)).1 h) refl,
  )

  after_lookup-status :
      (endpoint token : String) (expected : List String) (dr : DnsRecord)
      (a : Answer String (List String)) (s : State DnsRecord Call)
      → (res : Reconcile.Resolution) × ((Reconcile.after_lookup w endpoint token dr expected a s).0
          ≡ next res)
        × ((res.status ≡ true)
            ↔ ((found : List String) × (a ≡ ok found) × (sort_strings found ≡ expected)))
  unfolding Reconcile.after_lookup ◌>>=◌
  after_lookup-status endpoint token expected dr (err t) s = (_, refl, ((λ h. cc), (λ h. cc (h.1))))
  after_lookup-status endpoint token expected dr (ok found) s =
      let j = judge-status endpoint token expected (sort_strings found) in
      (_, refl, ((λ h. (found, refl, j.0 h)), (λ h. j.1 (cc (h.1, h.2)))))

  -- The resolution of a pass says yes exactly if the lookup succeeded and its addresses, sorted, are
  -- the expected ones; a pass that reaches the lookup always comes to such a resolution.
  pub resolve-status :
      (endpoint token : String) (expected : List String) (dr : DnsRecord) (calls : List Call)
      → (res : Reconcile.Resolution) × ((Reconcile.resolve w endpoint token expected
            (record { object = dr; calls = calls })).0
          ≡ next res)
        × ((res.status ≡ true) ↔ (
            (found : List String) × (w.on_lookup endpoint token dr.domain_name ≡ ok found)
            × (sort_strings found ≡ expected)))
  unfolding Reconcile.resolve ◌>>=◌
  resolve-status endpoint token expected dr calls =
      after_lookup-status endpoint token expected dr (w.on_lookup endpoint token dr.domain_name) _

  module _ (sets : SetsConditions w) where
    is_true-set_condition :
        (c : Condition) (cs : List Condition) (t : String)
        → is_true t (w.set_condition c cs) ≡ (if c.type == t then c.status else is_true t cs)
    unfolding is_true
    is_true-set_condition c cs t = ground (arith, sets.found c cs t)

    -- At the end of a pass that came to a verdict, Ready and Resolved are both what the lookup said,
    -- and Registered what the registration said, whoever owns the domain.
    pub conclude-conditions :
        (reg : Reconcile.Registration) (res : Reconcile.Resolution) (dr : DnsRecord)
        → (is_true "Ready" (Reconcile.conclude w reg res dr).status.conditions ≡ res.status)
          × (is_true "Resolved" (Reconcile.conclude w reg res dr).status.conditions ≡ res.status)
          × (is_true "Registered" (Reconcile.conclude w reg res dr).status.conditions ≡ reg.status)
    unfolding Reconcile.conclude Reconcile.set_condition_of
    conclude-conditions reg res dr = elim (Bool-cases res.status) [
      | inl e ↦
          rw e (simp is_true-set_condition, simp is_true-set_condition, simp is_true-set_condition)
      | inr e ↦
          rw e (simp is_true-set_condition, simp is_true-set_condition, simp is_true-set_condition)
    ]
