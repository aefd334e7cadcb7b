-- ===== src/Prelude/Affix.antt =====
-- strings.HasPrefix, strings.HasSuffix and strings.TrimPrefix beside the texts put together.
use Prim.Native.String.{String}
use mathlib.Core.Path.{◌≡◌, refl, sym, ap, ◌∙◌, subst}
use mathlib.Core.Logic.{inl, inr, ◌↔◌}
use mathlib.Core.Bool.{true}
use native.Mathlib.Omega.{arith}
use text.Mathlib.Text.{◌==◌}
use text.Mathlib.TextEquality.{eq_iff, Char-path}
use text.Mathlib.TextPositions.{eq_refl}
use text.Mathlib.TextLemmas.{nil-append, cons-append}
use weft_operator.Prelude.Tests.{Bool-cases}
use weft_operator.Prelude.Text.{◌<>◌, has_prefix, has_suffix, drop_text}

pub has_prefix-append : (t u : String) → has_prefix (t <> u) t ≡ true
unfolding has_prefix
has_prefix-append String.[] u = refl
has_prefix-append (String.◌∷◌ c t) u =
    rw (cons-append c t u) (ground (arith, has_prefix-append t u))

pub drop_text-append : (t u : String) → drop_text (t <> u) t ≡ u
unfolding drop_text
drop_text-append String.[] u = nil-append u
drop_text-append (String.◌∷◌ c t) u = rw (cons-append c t u) (drop_text-append t u)

pub has_prefix_lem : (s t : String) → has_prefix s t ≡ true → (u : String) × (s ≡ t <> u)
unfolding has_prefix
has_prefix_lem s String.[] h = (s, sym (nil-append s))
has_prefix_lem String.[] (String.◌∷◌ d t) h = cc h
has_prefix_lem (String.◌∷◌ c s) (String.◌∷◌ d t) h =
    let (u, e) = has_prefix_lem s t (ground (arith, h)) in
    let same = Char-path c d (ground (arith, h)) in
    (u, ap (λ r. String.◌∷◌ c r) e ∙ ap (λ r. String.◌∷◌ r (t <> u)) same ∙ sym (cons-append d t u))

has_suffix_refl : (t : String) → has_suffix t t ≡ true
unfolding has_suffix
has_suffix_refl String.[] = eq_refl ""
has_suffix_refl (String.◌∷◌ c t) = rw (eq_refl (String.◌∷◌ c t)) refl

has_suffix-append : (p t : String) → has_suffix (p <> t) t ≡ true
unfolding has_suffix
has_suffix-append String.[] t = rw (nil-append t) (has_suffix_refl t)
has_suffix-append (String.◌∷◌ c p) t =
    rw (cons-append c p t) (ground (arith, has_suffix-append p t))

has_suffix_lem : (s t : String) → has_suffix s t ≡ true → (p : String) × (s ≡ p <> t)
unfolding has_suffix
has_suffix_lem String.[] t h = ("", (eq_iff "" t).0 h ∙ sym (nil-append t))
has_suffix_lem (String.◌∷◌ c s) t h = elim (Bool-cases (String.◌∷◌ c s == t)) [
  | inl e ↦ ("", (eq_iff (String.◌∷◌ c s) t).0 e ∙ sym (nil-append t))
  | inr e ↦
      let (p, q) = has_suffix_lem s t (ground (arith, h, e)) in
      (String.◌∷◌ c p, ap (λ r. String.◌∷◌ c r) q ∙ sym (cons-append c p t))
]

-- The text ends in the other.
pub has_suffix_iff : (s t : String) → (has_suffix s t ≡ true) ↔ ((p : String) × (s ≡ p <> t))
has_suffix_iff s t = (
  has_suffix_lem s t,
  λ h. subst (λ u. has_suffix u t ≡ true) (sym (h.1)) (has_suffix-append (h.0) t),
)
