-- ===== src/Reflector/UntrustedPods.antt =====
-- `untrustedPods` and `exemptFromTrust` of internal/controller/weftlocaldnsreflector/trust.go, over the
-- running pods that the API server lists. The key of mirror pods, a constant of Kubernetes, is a
-- parameter; an int32 that is not negative is a number below 2 ^ 31, kept modulo 2 ^ 32.
use Prim.Native.Nat.{◌%◌}
use weft_operator.Prelude.{
  ℕ, zero, suc, ◌+◌, ◌<◌, ◌≤◌, String, Option, none, some, ◌≡◌, refl, ◌↔◌, Bool, true, false, not,
  ◌||◌, inl, inr, List, [], ◌∷◌, length, take, contains, contains-In, In-contains, eq_iff, ◌⊎◌,
  ◌==◌, arith, All, In, Bool-cases, if◌then◌else◌,
}
use weft_operator.Prelude.Text.{◌<>◌, text_lt, split}
use weft_operator.Prelude.Sort.{sort_strings, sort_by-In}
use weft_operator.Prelude.Assoc.{Assoc, lookup, at_key}
use weft_operator.Trust.{opt_out_key, injected_annotation, trusts_ca}

pub record PodMeta : Type 0 where
  pub namespace : String
  pub name : String
  pub labels : Assoc String
  pub annotations : Assoc String

abbrev pub untrusted_sample_size : ℕ
untrusted_sample_size = 20

abbrev pub is_some : Option String → Bool
is_some none = false
is_some (some v) = true

module _ (excluded : List String) (mirror_key : String) where
  unfoldable pub exempt_from_trust : PodMeta → Bool
  exempt_from_trust p =
      contains excluded p.namespace
      || (at_key opt_out_key p.labels == "false" || at_key opt_out_key p.annotations == "false")
      || is_some (lookup mirror_key p.annotations)

  module _ (fingerprint : String) where
    unfoldable pub is_untrusted : PodMeta → Bool
    is_untrusted p = not (exempt_from_trust p || trusts_ca p.annotations fingerprint)

    unfoldable pub count_untrusted : List PodMeta → ℕ
    count_untrusted [] = 0
    count_untrusted (p ∷ ps) =
        let rest = count_untrusted ps in if is_untrusted p then (rest + 1) % 4294967296 else rest

    unfoldable pub sample : List PodMeta → List String
    sample [] = []
    sample (p ∷ ps) =
        let rest = sample ps in
        if is_untrusted p then (p.namespace <> "/" <> p.name) ∷ rest else rest

    -- The count, and the first names of the sorted sample.
    unfoldable pub untrusted_pods : List PodMeta → ℕ × List String
    untrusted_pods ps = (count_untrusted ps, take untrusted_sample_size (sort_strings (sample ps)))

    count_bound : (ps : List PodMeta) → count_untrusted ps ≤ length ps
    unfolding count_untrusted
    count_bound [] = omega arith
    count_bound (p ∷ ps) = ground (arith, count_bound ps)

    count_zero :
        (ps : List PodMeta)
        → length ps < 2147483648
        → count_untrusted ps ≡ 0
        → All (λ p. is_untrusted p ≡ false) ps
    unfolding count_untrusted
    count_zero [] b h = tt
    count_zero (p ∷ ps) b h = elim (Bool-cases (is_untrusted p)) [
      | inl e ↦
          let k : (count_untrusted ps + 1) % 4294967296 ≡ 0 = rw e at h in
          absurd (omega (arith, k, b, count_bound ps))
      | inr e ↦ (e, count_zero ps (omega (arith, b)) (rw e at h))
    ]

    zero_count : (ps : List PodMeta) → All (λ p. is_untrusted p ≡ false) ps → count_untrusted ps ≡ 0
    unfolding count_untrusted
    zero_count [] h = refl
    zero_count (p ∷ ps) h = rw (h.0) (zero_count ps h.1)

    sample-In :
        (n : String) (ps : List PodMeta)
        → In n (sample ps)
        → (p : PodMeta) × In p ps × (is_untrusted p ≡ true) × (n ≡ p.namespace <> "/" <> p.name)
    unfolding sample
    sample-In n [] m = absurd m
    sample-In n (p ∷ ps) m = elim (Bool-cases (is_untrusted p)) [
      | inl e ↦
          let k : In n ((p.namespace <> "/" <> p.name) ∷ sample ps) = rw e at m in
          elim k [
            | inl q ↦ (p, inl refl, e, q)
            | inr i ↦ let (x, j, u, q) = sample-In n ps i in (x, inr j, u, q)
          ]
      | inr e ↦ let (x, j, u, q) = sample-In n ps (rw e at m) in (x, inr j, u, q)
    ]

take-In : {A : Type 0} (a : A) (n : ℕ) (xs : List A) → In a (take n xs) → In a xs
take-In a zero xs m = absurd m
take-In a (suc n) [] m = absurd m
take-In a (suc n) (x ∷ xs) (inl e) = inl e
take-In a (suc n) (x ∷ xs) (inr m) = inr (take-In a n xs m)

length-take_le : {A : Type 0} (n : ℕ) (xs : List A) → length (take n xs) ≤ n
length-take_le zero xs = omega arith
length-take_le (suc n) [] = omega arith
length-take_le (suc n) (x ∷ xs) = omega (arith, length-take_le n xs)

module _ (excluded : List String) (mirror_key fingerprint : String) where
  -- The pod is in an excluded namespace, is opted out by its label or its annotation, is a mirror pod, or
  -- lists the fingerprint among those of the CAs that were injected.
  abbrev pub IsSafe : PodMeta → Type 0
  IsSafe p =
      In p.namespace excluded
      ⊎ ((at_key opt_out_key p.labels ≡ "false")
          ⊎ ((at_key opt_out_key p.annotations ≡ "false")
              ⊎ (((v : String) × (lookup mirror_key p.annotations ≡ some v))
                  ⊎ In fingerprint (split b',' (at_key injected_annotation p.annotations)))))

  is_some_iff : (o : Option String) → (is_some o ≡ true) ↔ ((v : String) × (o ≡ some v))
  is_some_iff none = (λ h. cc h, λ h. cc (h.1))
  is_some_iff (some v) = (λ h. (v, refl), λ h. refl)

  trusted : (p : PodMeta) → is_untrusted excluded mirror_key fingerprint p ≡ false → IsSafe p
  unfolding is_untrusted exempt_from_trust trusts_ca
  trusted p h =
      let listed = split b',' (at_key injected_annotation p.annotations) in
      elim (Bool-cases (contains excluded p.namespace)) [
        | inl a ↦ inl (contains-In p.namespace excluded a)
        | inr a ↦ elim (Bool-cases (at_key opt_out_key p.labels == "false")) [
          | inl b ↦ inr (inl ((eq_iff (at_key opt_out_key p.labels) "false").0 b))
          | inr b ↦ elim (Bool-cases (at_key opt_out_key p.annotations == "false")) [
            | inl c ↦ inr (inr (inl ((eq_iff (at_key opt_out_key p.annotations) "false").0 c)))
            | inr c ↦ elim (Bool-cases (is_some (lookup mirror_key p.annotations))) [
              | inl d ↦ inr (inr (inr (inl ((is_some_iff (lookup mirror_key p.annotations)).0 d))))
              | inr d ↦
                  let e : contains listed fingerprint ≡ true = ground (arith, h, a, b, c, d) in
                  inr (inr (inr (inr (contains-In fingerprint listed e))))
            ]
          ]
        ]
      ]

  safe : (p : PodMeta) → IsSafe p → is_untrusted excluded mirror_key fingerprint p ≡ false
  unfolding is_untrusted exempt_from_trust trusts_ca
  safe p (inl i) = let a = In-contains p.namespace excluded i in ground (arith, a)
  safe p (inr (inl e)) =
      let b = (eq_iff (at_key opt_out_key p.labels) "false").1 e in ground (arith, b)
  safe p (inr (inr (inl e))) =
      let c = (eq_iff (at_key opt_out_key p.annotations) "false").1 e in ground (arith, c)
  safe p (inr (inr (inr (inl v)))) =
      let d = (is_some_iff (lookup mirror_key p.annotations)).1 v in ground (arith, d)
  safe p (inr (inr (inr (inr i)))) =
      let e = In-contains fingerprint (split b',' (at_key injected_annotation p.annotations)) i in
      ground (arith, e)

  trusted_each :
      (ps : List PodMeta)
      → All (λ p. is_untrusted excluded mirror_key fingerprint p ≡ false) ps ↔ All IsSafe ps
  trusted_each [] = (λ _. tt, λ _. tt)
  trusted_each (p ∷ ps) =
      (λ h. (trusted p h.0, (trusted_each ps).0 h.1), λ h. (safe p h.0, (trusted_each ps).1 h.1))

-- What the report says of the running pods.
pub record IsReport (excluded : List String) (mirror_key fingerprint : String) (ps : List PodMeta)
    (report : ℕ × List String) : Type 0 where
  pub clear : (report.0 ≡ 0) ↔ All (IsSafe excluded mirror_key fingerprint) ps
  pub bounded : length report.1 ≤ 20
  pub genuine :
      (n : String)
      → In n report.1
      → (p : PodMeta) × In p ps
        × (¬ IsSafe excluded mirror_key fingerprint p)
        × (n ≡ p.namespace <> "/" <> p.name)

-- With fewer than 2 ^ 31 running pods, the count is zero exactly if every pod is in an excluded
-- namespace, opted out, a mirror pod, or lists the CA's fingerprint as injected; the sample has at
-- most 20 names, each that of a pod of which none of this holds.
pub untrusted_pods-IsReport :
    (excluded : List String) (mirror_key fingerprint : String) (ps : List PodMeta)
    → length ps < 2147483648
    → IsReport excluded mirror_key fingerprint ps
        (untrusted_pods excluded mirror_key fingerprint ps)
unfolding untrusted_pods
untrusted_pods-IsReport excluded mirror_key fingerprint ps b =
    let all = trusted_each excluded mirror_key fingerprint ps in
    record {
      clear = (
        λ h. all.0 (count_zero excluded mirror_key fingerprint ps b h),
        λ h. zero_count excluded mirror_key fingerprint ps (all.1 h),
      );
      bounded = length-take_le untrusted_sample_size _;
      genuine = λ n m.
          let (p, i, u, q) =
            sample-In excluded mirror_key fingerprint n ps
              (sort_by-In text_lt n _ (take-In n untrusted_sample_size _ m)) in
          (p, i, λ k. let f = safe excluded mirror_key fingerprint p k in cc (u, f), q);
    }
