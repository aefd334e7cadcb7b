-- ===== src/Resource/Image.antt =====
-- internal/resource/image.go
use Prim.Native.Char.{Char, code}
use weft_operator.Prelude.{
  ℕ, inl, inr, Option-cases, String, ◌≡◌, refl, Bool, false, Option, none, some, ◌||◌, ◌==◌, eqb,
  arith, get_or, if◌then◌else◌,
}
use text.Mathlib.TextLemmas.{nil-append, cons-append}
use weft_operator.Prelude.Text.{◌<>◌}
use weft_operator.Prelude.Split.{LacksCode}

abbrev pub default_weft_image : String
default_weft_image = "ghcr.io/aquaduct-dev/weft:latest"

unfoldable pub weft_image_or : String → String
weft_image_or image = if image == "" then default_weft_image else image

pub data PullPolicy : Type 0 where
  always if_not_present : PullPolicy

-- strings.Contains for one byte.
unfoldable pub has_code : ℕ → String → Bool
has_code k String.[] = false
has_code k (String.◌∷◌ c s) = eqb (code c) k || has_code k s

-- The text behind the last such byte: `s[strings.LastIndex(s, k)+1:]`, `none` for the index -1.
unfoldable pub after_last : ℕ → String → Option String
after_last k String.[] = none
after_last k (String.◌∷◌ c s) = elim (after_last k s) [
  | some t ↦ some t
  | none ↦ if eqb (code c) k then some s else none
]

unfoldable pub pull_policy : String → PullPolicy
unfolding has_code after_last
pull_policy image =
    let name = get_or (after_last b'/' image) image in
    if has_code b'@' image then if_not_present else elim (after_last b':' name) [
      | none ↦ always
      | some tag ↦ if tag == "latest" then always else if_not_present
    ]

lacks-has_code : (k : ℕ) (s : String) → LacksCode k s → has_code k s ≡ false
unfolding has_code
lacks-has_code k String.[] h = refl
lacks-has_code k (String.◌∷◌ c s) h = ground (arith, lacks-has_code k s h.1)

LacksCode-append : (k : ℕ) (s t : String) → LacksCode k s → LacksCode k t → LacksCode k (s <> t)
LacksCode-append k String.[] t hs ht = rw nil-append ht
LacksCode-append k (String.◌∷◌ c s) t hs ht =
    rw (cons-append c s) (hs.0, LacksCode-append k s t hs.1 ht)

after_last-lacking : (k : ℕ) (s : String) → LacksCode k s → after_last k s ≡ none
unfolding after_last
after_last-lacking k String.[] h = refl
after_last-lacking k (String.◌∷◌ c s) h = ground (arith, after_last-lacking k s h.1)

-- Where the end of a text lacks the byte, the search goes on in the part before it.
after_last-append :
    (k : ℕ) (s t : String)
    → LacksCode k t
    → after_last k (s <> t) ≡ elim (after_last k s) [ none ↦ none | some r ↦ some (r <> t) ]
unfolding after_last
after_last-append k String.[] t h = rw nil-append (after_last-lacking k t h)
after_last-append k (String.◌∷◌ c s) t h =
    rw (cons-append c s) (ground (arith, after_last-append k s t h))

after_last-separator :
    (d : Char) (s t : String)
    → LacksCode (code d) t
    → after_last (code d) (s <> (String.◌∷◌ d "" <> t)) ≡ some t
unfolding after_last
after_last-separator d String.[] t h = rw nil-append (
    rw cons-append
      (rw nil-append (rw (after_last-lacking (code d) t h, after_last) (ground arith))))
after_last-separator d (String.◌∷◌ c s) t h =
    rw (cons-append c s) (rw (after_last-separator d s t h, after_last) refl)

name_tag :
    (repository tag : String)
    → LacksCode b':' tag
    → LacksCode b'/' tag
    → after_last b':'
        (get_or (after_last b'/' (repository <> (":" <> tag))) (repository <> (":" <> tag)))
      ≡ some tag
name_tag repository tag hc hs =
    rw
      (after_last-append b'/' repository (":" <> tag) (LacksCode-append b'/' ":" tag (refl, tt) hs))
      (elim (Option-cases (after_last b'/' repository)) [
        | inl e ↦ rw e (after_last-separator ":" repository tag hc)
        | inr (r, e) ↦ rw e (after_last-separator ":" r tag hc)
      ])

-- An image with a tag is pulled always exactly if the tag is `latest`; one whose name has neither a
-- tag nor a digest is pulled always, whatever port its registry names. The parts have no `@`, and
-- the tag and the name neither `:` nor `/`.
pub pull_policy-tag :
    (repository tag : String)
    → LacksCode b'@' repository × LacksCode b'@' tag × LacksCode b':' tag × LacksCode b'/' tag
    → (pull_policy (repository <> (":" <> tag))
        ≡ (if tag == "latest" then always else if_not_present))
      × (pull_policy (repository <> ("/" <> tag)) ≡ always)
unfolding pull_policy
pull_policy-tag repository tag (ra, ta, tc, ts) = (
  rw
      (lacks-has_code b'@' _ (
        LacksCode-append b'@' repository (":" <> tag) ra
          (LacksCode-append b'@' ":" tag (refl, tt) ta)))
      (rw (name_tag repository tag tc ts) refl),
  rw
      (lacks-has_code b'@' _ (
        LacksCode-append b'@' repository ("/" <> tag) ra
          (LacksCode-append b'@' "/" tag (refl, tt) ta)))
      (rw (after_last-separator "/" repository tag ts) (rw (after_last-lacking b':' tag tc) refl)),
)
