-- ===== src/Reflector/ClusterDns/Zones.antt =====
-- The zones of the rendered server blocks: pki.SortedLower in
-- internal/controller/weftlocaldnsreflector/coredns.go.
use weft_operator.Prelude.{
  String, ◌≡◌, ◌≢◌, sym, ◌∙◌, subst, ◌↔◌, true, false, inl, inr, List, [], ◌∷◌, map, ◌==◌, eq_iff,
  All, All-In, All-intro, In, Bool-cases, text_cases,
}
use weft_operator.Prelude.Text.{to_lower, text_lt, text_lt_total}
use weft_operator.Prelude.Sort.{
  IsSorted, sort_strings, sort_by-In, In-sort_by, sort_by-IsSorted, text_lt-IsOrder,
}
use weft_operator.Reflector.ClusterDns.{compact, sorted_lower}

compact-In : (a : String) (xs : List String) → In a (compact xs) → In a xs
unfolding compact
compact-In a [] m = m
compact-In a (x ∷ []) m = m
compact-In a (x ∷ y ∷ ys) m = elim (Bool-cases (x == y)) [
  | inl e ↦ inr (compact-In a (y ∷ ys) (rw e at m))
  | inr e ↦
      let k : In a (x ∷ compact (y ∷ ys)) = rw e at m in
      elim k [ inl p ↦ inl p | inr i ↦ inr (compact-In a (y ∷ ys) i) ]
]

In-compact : (a : String) (xs : List String) → In a xs → In a (compact xs)
unfolding compact
In-compact a [] m = m
In-compact a (x ∷ []) m = m
In-compact a (x ∷ y ∷ ys) m = elim (Bool-cases (x == y)) [
  | inl e ↦ rw e (In-compact a (y ∷ ys) (elim m [ inl p ↦ inl (p ∙ (eq_iff x y).0 e) | inr i ↦ i ]))
  | inr e ↦ rw e (elim m [ inl p ↦ inl p | inr i ↦ inr (In-compact a (y ∷ ys) i) ])
]

-- Each text is smaller than the later ones: no text stands twice.
abbrev pub IsStrict : List String → Type 0
IsStrict [] = Unit
IsStrict (x ∷ xs) = All (λ y. text_lt x y ≡ true) xs × IsStrict xs

smaller : (x y : String) → text_lt y x ≡ false → x ≢ y → text_lt x y ≡ true
smaller x y h n = elim (Bool-cases (text_lt x y)) [
  | inl e ↦ e
  | inr e ↦ absurd (n (text_lt_total x y e h))
]

head_smaller :
    (x y : String) (ys : List String)
    → IsSorted text_lt (x ∷ y ∷ ys)
    → x ≢ y
    → (z : String) → In z (y ∷ ys)
    → text_lt x z ≡ true
head_smaller x y ys s n z (inl p) = subst (λ u. text_lt x u ≡ true) (sym p) (smaller x y (s.0.0) n)
head_smaller x y ys s n z (inr i) =
    smaller x z (All-In (λ u. text_lt u x ≡ false) z ys s.0.1 i) (λ p.
      let later = All-In (λ u. text_lt u y ≡ false) z ys s.1.0 i in
      let less = smaller x y (s.0.0) n in
      let less' = subst (λ u. text_lt u y ≡ true) p less in cc (later, less'))

compact-IsStrict : (xs : List String) → IsSorted text_lt xs → IsStrict (compact xs)
unfolding compact
compact-IsStrict [] s = tt
compact-IsStrict (x ∷ []) s = (tt, tt)
compact-IsStrict (x ∷ y ∷ ys) s = elim (text_cases x y) [
  | inl (e, _) ↦ rw e (compact-IsStrict (y ∷ ys) s.1)
  | inr (e, n) ↦ rw e (
    All-intro (λ u. text_lt x u ≡ true) (compact (y ∷ ys))
        (λ z i. head_smaller x y ys s n z (compact-In z (y ∷ ys) i)),
    compact-IsStrict (y ∷ ys) s.1,
  )
]

-- The zones of a reflector are its lower-cased host names, in order, none of them twice.
pub sorted_lower-IsStrict :
    (hostnames : List String)
    → IsStrict (sorted_lower hostnames)
      × ((h : String) → In h (sorted_lower hostnames) ↔ In h (map to_lower hostnames))
unfolding sorted_lower
sorted_lower-IsStrict hostnames =
    let lowered = map to_lower hostnames in
    (
      compact-IsStrict (sort_strings lowered) (sort_by-IsSorted text_lt-IsOrder lowered),
      λ h. (
        λ m. sort_by-In text_lt h lowered (compact-In h (sort_strings lowered) m),
        λ m. In-compact h (sort_strings lowered) (In-sort_by text_lt h lowered m),
      ),
    )
