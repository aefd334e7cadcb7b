-- ===== src/Reflector/Owner.antt =====
-- Who is the oldest: the order of the reflectors, and the first of a sorted list that passes a test.
use weft_operator.Prelude.{
  none, some, ◌≡◌, subst, Bool, true, false, inl, inr, List, [], ◌∷◌, arith, All-In, In, Bool-cases,
}
use weft_operator.Prelude.Text.{text_lt_asymm, text_lt_trans, text_lt_total}
use weft_operator.Prelude.Sort.{IsSorted, IsOrder}
use weft_operator.Reflector.{Reflector, older, first}

older_asymm : (a b : Reflector) → older a b ≡ true → older b a ≡ false
unfolding older
older_asymm a b h = ground (arith, text_lt_asymm a.name b.name)

older_irrefl : (a : Reflector) → older a a ≡ false
older_irrefl a = elim (Bool-cases (older a a)) [ inl e ↦ older_asymm a a e | inr e ↦ e ]

older_trans : (a b c : Reflector) → older b a ≡ false → older c b ≡ false → older c a ≡ false
unfolding older
older_trans a b c h k = ground (arith, text_lt_trans a.name b.name c.name)

pub older-IsOrder : IsOrder older
older-IsOrder = record { asymm = older_asymm; trans = older_trans }

-- Of two reflectors with different names one is older.
pub older_total : (a b : Reflector) → older a b ≡ false → older b a ≡ false → a.name ≡ b.name
unfolding older
older_total a b h k = ground (arith, text_lt_total a.name b.name)

pub first-In :
    (p : Reflector → Bool) (rs : List Reflector) (r : Reflector)
    → first p rs ≡ some r
    → In r rs × (p r ≡ true)
unfolding first
first-In p [] r h = cc
first-In p (x ∷ xs) r h = elim (Bool-cases (p x)) [
  | inl e ↦ let k : some x ≡ some r = rw e at h in (inl (cc k), cc (k, e))
  | inr e ↦ let (i, t) = first-In p xs r (rw e at h) in (inr i, t)
]

pub first-none :
    (p : Reflector → Bool) (rs : List Reflector) (q : Reflector)
    → first p rs ≡ none
    → In q rs
    → p q ≡ false
unfolding first
first-none p [] q h m = absurd m
first-none p (x ∷ xs) q h m = elim (Bool-cases (p x)) [
  | inl e ↦ let k : some x ≡ none = rw e at h in cc k
  | inr e ↦ elim m [ inl s ↦ rw s e | inr m' ↦ first-none p xs q (rw e at h) m' ]
]

-- In a sorted list no item that passes is older than the first that does.
pub first_oldest :
    (p : Reflector → Bool) (rs : List Reflector) (r q : Reflector)
    → IsSorted older rs
    → first p rs ≡ some r
    → In q rs
    → p q ≡ true
    → older q r ≡ false
unfolding first
first_oldest p [] r q s h m t = absurd m
first_oldest p (x ∷ xs) r q s h m t = elim (Bool-cases (p x)) [
  | inl e ↦
      let k : some x ≡ some r = rw e at h in
      let same : x ≡ r = cc k in
      elim m [
        | inl i ↦ subst (λ z. older q z ≡ false) same (rw i (older_irrefl x))
        | inr i ↦ subst (λ z. older q z ≡ false) same (All-In (λ y. older y x ≡ false) q xs s.0 i)
      ]
  | inr e ↦ elim m [ inl i ↦ cc (i, t, e) | inr i ↦ first_oldest p xs r q s.1 (rw e at h) i t ]
]
