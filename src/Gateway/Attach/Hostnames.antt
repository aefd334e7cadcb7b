-- ===== src/Gateway/Attach/Hostnames.antt =====
-- hostnameMatches beside the meaning of wildcards.
use weft_operator.Prelude.{
  String, ◌≡◌, sym, subst, ◌↔◌, ◌⊎◌, inl, inr, true, ◌&&◌, ◌==◌, eq_iff, arith, Bool-cases,
}
use text.Mathlib.TextLemmas.{append_assoc}
use weft_operator.Prelude.Text.{◌<>◌, has_prefix, has_suffix, trim_prefix}
use weft_operator.Prelude.Affix.{
  has_prefix-append, drop_text-append, has_prefix_lem, has_suffix_iff,
}
use weft_operator.Gateway.Attach.{hostname_matches}

-- A wildcard `*.domain` covers the names that end in `.domain`.
unfoldable pub Covers : String → String → Type 0
Covers a b = (domain : String) × (a ≡ "*." <> domain) × ((p : String) × (b ≡ p <> "." <> domain))

star_dot : (d : String) → "*." <> d ≡ "*" <> "." <> d
star_dot d = append_assoc "*" "." d

trim_star : (d : String) → trim_prefix ("*." <> d) "*" ≡ "." <> d
unfolding trim_prefix
trim_star d =
    rw (star_dot d) (rw (has_prefix-append "*" ("." <> d)) (drop_text-append "*" ("." <> d)))

wildcard_iff :
    (a b : String) → ((has_prefix a "*." && has_suffix b (trim_prefix a "*")) ≡ true) ↔ Covers a b
unfolding Covers
wildcard_iff a b = (
  λ h.
      let (d, e) = has_prefix_lem a "*." (ground (arith, h)) in
      let t = subst (λ x. has_suffix b (trim_prefix x "*") ≡ true) e (ground (arith, h)) in
      let t' = subst (λ x. has_suffix b x ≡ true) (trim_star d) t in
      (d, e, (has_suffix_iff b ("." <> d)).0 t'),
  λ c.
      let s = (has_suffix_iff b ("." <> c.0)).1 (c.2) in
      let s' = subst (λ x. has_suffix b x ≡ true) (sym (trim_star (c.0))) s in
      let p = has_prefix-append "*." (c.0) in
      subst (λ x. (has_prefix x "*." && has_suffix b (trim_prefix x "*")) ≡ true) (sym (c.1))
        (ground (arith, p, s')),
)

-- Two host names match exactly if they are the same or one is a wildcard that covers the other.
pub hostname_matches_iff :
    (a b : String) → (hostname_matches a b ≡ true) ↔ ((a ≡ b) ⊎ (Covers a b ⊎ Covers b a))
unfolding hostname_matches
hostname_matches_iff a b =
    let l = wildcard_iff a b in
    let r = wildcard_iff b a in
    let e = eq_iff a b in
    (
      λ h. elim (Bool-cases (a == b)) [
        | inl p ↦ inl (e.0 p)
        | inr n ↦ elim (Bool-cases (has_prefix a "*." && has_suffix b (trim_prefix a "*"))) [
          | inl p ↦ inr (inl (l.0 p))
          | inr m ↦ inr (inr (r.0 (ground (arith, h, n, m))))
        ]
      ],
      λ o. elim o [
        | inl p ↦ let q = e.1 p in ground (arith, q)
        | inr (inl p) ↦ let q = l.1 p in ground (arith, q)
        | inr (inr p) ↦ let q = r.1 p in ground (arith, q)
      ],
    )
