-- ===== src/Prelude/Split.antt =====
-- strings.Split and strings.Join, for a separator of one byte that the pieces lack.
use Prim.Native.Nat.{ℕ}
use Prim.Native.Char.{Char, code}
use Prim.Native.String.{String}
use mathlib.Core.Path.{◌≡◌, refl, ap, ◌∙◌}
use mathlib.Core.Logic.{inl, inr}
use mathlib.Core.Bool.{true, false}
use mathlib.Core.List.{List, [], ◌∷◌}
use native.Mathlib.Omega.{arith}
use text.Mathlib.TextLemmas.{nil-append, cons-append}
use weft_operator.Prelude.Tests.{eqb, Bool-cases}
use weft_operator.Prelude.Lists.{All}
use weft_operator.Prelude.Text.{◌<>◌, cons_head, join, split}

-- No character of the text has the code.
abbrev pub LacksCode : ℕ → String → Type 0
LacksCode k String.[] = Unit
LacksCode k (String.◌∷◌ c s) = (eqb (code c) k ≡ false) × LacksCode k s

split-lacking : (k : ℕ) (s : String) → LacksCode k s → split k s ≡ s ∷ []
unfolding split
split-lacking k String.[] h = refl
split-lacking k (String.◌∷◌ c s) h = ground (arith, split-lacking k s h.1)

eqb_refl : (k : ℕ) → eqb k k ≡ true
eqb_refl k = ground arith

split-append :
    (d : Char) (s t : String)
    → LacksCode (code d) s
    → split (code d) (s <> (String.◌∷◌ d "" <> t)) ≡ s ∷ split (code d) t
unfolding split
split-append d String.[] t h =
    rw nil-append (rw cons-append (rw nil-append (rw (eqb_refl (code d)) refl)))
split-append d (String.◌∷◌ c s) t h =
    rw (cons-append c s) (rw h.0 (rw (split-append d s t h.1) refl))

pub split-join :
    (d : Char) (l : String) (ls : List String)
    → All (LacksCode (code d)) (l ∷ ls)
    → split (code d) (join (String.◌∷◌ d "") (l ∷ ls)) ≡ l ∷ ls
split-join d l [] h = split-lacking (code d) l h.0
split-join d l (m ∷ ls) h =
    split-append d l (join (String.◌∷◌ d "") (m ∷ ls)) h.0 ∙ ap (λ r. l ∷ r) (split-join d m ls h.1)

cons_head-LacksCode :
    (k : ℕ) (c : Char) (ls : List String)
    → eqb (code c) k ≡ false
    → All (LacksCode k) ls
    → All (LacksCode k) (cons_head c ls)
cons_head-LacksCode k c [] e h = ((e, tt), tt)
cons_head-LacksCode k c (l ∷ ls) e h = ((e, h.0), h.1)

-- The pieces lack the separator.
pub split-LacksCode : (k : ℕ) (s : String) → All (LacksCode k) (split k s)
unfolding split
split-LacksCode k String.[] = (tt, tt)
split-LacksCode k (String.◌∷◌ c s) = elim (Bool-cases (eqb (code c) k)) [
  | inl e ↦ rw e (tt, split-LacksCode k s)
  | inr e ↦ rw e (cons_head-LacksCode k c (split k s) e (split-LacksCode k s))
]
