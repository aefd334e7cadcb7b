-- ===== src/Prelude/Text.antt =====
-- The parts of Go's `strings` and of its text order that the operator uses.
-- `to_lower` folds the ASCII letters: host names are ASCII.
use Prim.Native.Nat.{ℕ, zero, suc, ◌-◌}
use text.Mathlib.Text.{◌==◌}
use Prim.Native.Char.{Char, code}
use Prim.Native.String.{String, char_at, ◌++◌ as append}
use mathlib.Core.Path.{◌≡◌, refl}
use mathlib.Core.Bool.{Bool, true, false, ◌&&◌, ◌||◌}
use mathlib.Core.List.{List, [], ◌∷◌}
use native.Mathlib.Omega.{arith}
use text.Mathlib.TextEquality.{Char-path}
use weft_operator.Prelude.Tests.{ltb, leb, eqb, if◌then◌else◌}

-- Texts put together.
infixr 66 ◌<>◌
abbrev pub ◌<>◌ : String → String → String
s <> t = append s t

-- strings.Join
abbrev pub join : String → List String → String
join sep [] = ""
join sep (x ∷ []) = x
join sep (x ∷ y ∷ ys) = x <> (sep <> join sep (y ∷ ys))

abbrev pub cons_head : Char → List String → List String
cons_head c [] = String.◌∷◌ c "" ∷ []
cons_head c (x ∷ xs) = String.◌∷◌ c x ∷ xs

-- strings.Split by a one-byte separator: the pieces are never an empty list.
unfoldable pub split : ℕ → String → List String
split sep String.[] = "" ∷ []
split sep (String.◌∷◌ c s) =
    let rest = split sep s in if eqb (code c) sep then "" ∷ rest else cons_head c rest

drop_cut : (ℕ → Bool) → Char → String → String
drop_cut cut c String.[] = if cut (code c) then "" else String.◌∷◌ c ""
drop_cut cut c (String.◌∷◌ d s) = String.◌∷◌ c (String.◌∷◌ d s)

-- strings.TrimRight and the right half of strings.TrimSpace: drops what passes the test at the end.
unfoldable pub trim_right : (ℕ → Bool) → String → String
unfolding drop_cut
trim_right cut String.[] = ""
trim_right cut (String.◌∷◌ c s) = drop_cut cut c (trim_right cut s)

unfoldable pub trim_left : (ℕ → Bool) → String → String
trim_left cut String.[] = ""
trim_left cut (String.◌∷◌ c s) =
    let rest = trim_left cut s in if cut (code c) then rest else String.◌∷◌ c s

abbrev pub is_newline : ℕ → Bool
is_newline c = eqb c 10

-- unicode.IsSpace
is_space : ℕ → Bool
is_space c =
    (leb 9 c && leb c 13)
    || (eqb c 32 || eqb c 0x85 || eqb c 0xa0 || eqb c 0x1680)
    || ((leb 0x2000 c && leb c 0x200a) || eqb c 0x2028 || eqb c 0x2029 || eqb c 0x202f)
    || (eqb c 0x205f || eqb c 0x3000)

-- strings.TrimSpace
unfoldable pub trim_space : String → String
unfolding is_space trim_left trim_right
trim_space s = trim_left is_space (trim_right is_space s)

lower_char : Char → Char
lower_char c =
    if leb 65 (code c) && leb (code c) 90
    then char_at "abcdefghijklmnopqrstuvwxyz" (code c - 65)
    else c

-- strings.ToLower on ASCII.
unfoldable pub to_lower : String → String
unfolding lower_char
to_lower String.[] = ""
to_lower (String.◌∷◌ c s) = String.◌∷◌ (lower_char c) (to_lower s)

-- The order of Go's `<` on texts.
unfoldable pub text_lt : String → String → Bool
text_lt String.[] String.[] = false
text_lt String.[] (String.◌∷◌ d t) = true
text_lt (String.◌∷◌ c s) String.[] = false
text_lt (String.◌∷◌ c s) (String.◌∷◌ d t) =
    if ltb (code c) (code d) then true else if ltb (code d) (code c) then false else text_lt s t

pub text_lt_asymm : (s t : String) → text_lt s t ≡ true → text_lt t s ≡ false
unfolding text_lt
text_lt_asymm String.[] String.[] h = cc
text_lt_asymm String.[] (String.◌∷◌ d t) h = refl
text_lt_asymm (String.◌∷◌ c s) String.[] h = cc
text_lt_asymm (String.◌∷◌ c s) (String.◌∷◌ d t) h = ground (arith, text_lt_asymm s t)

-- Not being smaller is transitive.
pub text_lt_trans :
    (s t u : String) → text_lt t s ≡ false → text_lt u t ≡ false → text_lt u s ≡ false
unfolding text_lt
text_lt_trans String.[] t String.[] h k = refl
text_lt_trans String.[] String.[] (String.◌∷◌ e u) h k = refl
text_lt_trans String.[] (String.◌∷◌ d t) (String.◌∷◌ e u) h k = refl
text_lt_trans (String.◌∷◌ c s) String.[] u h k = cc
text_lt_trans (String.◌∷◌ c s) (String.◌∷◌ d t) String.[] h k = cc
text_lt_trans (String.◌∷◌ c s) (String.◌∷◌ d t) (String.◌∷◌ e u) h k =
    ground (arith, text_lt_trans s t u)

-- Two texts of which neither is smaller are the same.
pub text_lt_total : (s t : String) → text_lt s t ≡ false → text_lt t s ≡ false → s ≡ t
unfolding text_lt
text_lt_total String.[] String.[] h k = refl
text_lt_total String.[] (String.◌∷◌ d t) h k = cc
text_lt_total (String.◌∷◌ c s) String.[] h k = cc
text_lt_total (String.◌∷◌ c s) (String.◌∷◌ d t) h k =
    cc (Char-path c d (ground arith), text_lt_total s t (ground arith) (ground arith))

-- strings.HasPrefix
unfoldable pub has_prefix : String → String → Bool
has_prefix s String.[] = true
has_prefix String.[] (String.◌∷◌ d t) = false
has_prefix (String.◌∷◌ c s) (String.◌∷◌ d t) = eqb (code c) (code d) && has_prefix s t

-- strings.HasSuffix
unfoldable pub has_suffix : String → String → Bool
has_suffix String.[] t = String.[] == t
has_suffix (String.◌∷◌ c s) t = String.◌∷◌ c s == t || has_suffix s t

-- strings.TrimPrefix, for one that the text has.
unfoldable pub drop_text : String → String → String
drop_text s String.[] = s
drop_text String.[] (String.◌∷◌ d t) = String.[]
drop_text (String.◌∷◌ c s) (String.◌∷◌ d t) = drop_text s t

-- strings.TrimPrefix
unfoldable pub trim_prefix : String → String → String
unfolding drop_text
trim_prefix s t = if has_prefix s t then drop_text s t else s

-- s[:n]
unfoldable pub first_bytes : ℕ → String → String
first_bytes zero s = ""
first_bytes (suc n) String.[] = ""
first_bytes (suc n) (String.◌∷◌ c s) = String.◌∷◌ c (first_bytes n s)
