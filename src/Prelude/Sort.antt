-- ===== src/Prelude/Sort.antt =====
-- Go's `sort` over a `less` test, as a stable insertion sort: the order decides the result where
-- no two different items are alike for `less`.
use Prim.Native.String.{String}
use mathlib.Core.Path.{◌≡◌}
use mathlib.Core.Logic.{inl, inr}
use mathlib.Core.Bool.{Bool, true, false}
use mathlib.Core.List.{List, [], ◌∷◌}
use weft_operator.Prelude.Tests.{if◌then◌else◌, Bool-cases}
use weft_operator.Prelude.Lists.{In, All}
use weft_operator.Prelude.Text.{text_lt, text_lt_asymm, text_lt_trans}

module _ {A : Type 0} (less : A → A → Bool) where
  unfoldable pub insert : A → List A → List A
  insert x [] = x ∷ []
  insert x (y ∷ ys) = let rest = insert x ys in if less y x then y ∷ rest else x ∷ y ∷ ys

  unfoldable pub sort_by : List A → List A
  unfolding insert
  sort_by [] = []
  sort_by (x ∷ xs) = insert x (sort_by xs)

  -- No later item is smaller than an earlier one.
  abbrev pub IsSorted : List A → Type 0
  IsSorted [] = Unit
  IsSorted (x ∷ xs) = All (λ y. less y x ≡ false) xs × IsSorted xs

  insert-In : (a x : A) (ys : List A) → In a (insert x ys) → In a (x ∷ ys)
  unfolding insert
  insert-In a x [] m = m
  insert-In a x (y ∷ ys) m = elim (Bool-cases (less y x)) [
    | inl e ↦
        let k : In a (y ∷ insert x ys) = rw e at m in
        elim k [
          | inl h ↦ inr (inl h)
          | inr h ↦ elim (insert-In a x ys h) [ inl g ↦ inl g | inr g ↦ inr (inr g) ]
        ]
    | inr e ↦ let k : In a (x ∷ y ∷ ys) = rw e at m in k
  ]

  In-insert : (a x : A) (ys : List A) → In a (x ∷ ys) → In a (insert x ys)
  unfolding insert
  In-insert a x [] m = m
  In-insert a x (y ∷ ys) m = elim (Bool-cases (less y x)) [
    | inl e ↦ rw e (elim m [
      | inl h ↦ inr (In-insert a x ys (inl h))
      | inr (inl h) ↦ inl h
      | inr (inr h) ↦ inr (In-insert a x ys (inr h))
    ])
    | inr e ↦ rw e m
  ]

  pub sort_by-In : (a : A) (xs : List A) → In a (sort_by xs) → In a xs
  unfolding sort_by
  sort_by-In a [] m = m
  sort_by-In a (x ∷ xs) m = elim (insert-In a x (sort_by xs) m) [
    | inl h ↦ inl h
    | inr h ↦ inr (sort_by-In a xs h)
  ]

  pub In-sort_by : (a : A) (xs : List A) → In a xs → In a (sort_by xs)
  unfolding sort_by
  In-sort_by a [] m = m
  In-sort_by a (x ∷ xs) (inl h) = In-insert a x (sort_by xs) (inl h)
  In-sort_by a (x ∷ xs) (inr h) = In-insert a x (sort_by xs) (inr (In-sort_by a xs h))

-- What `sort` asks of a `less`.
pub record IsOrder {A : Type 0} (less : A → A → Bool) : Type 0 where
  pub asymm : (a b : A) → less a b ≡ true → less b a ≡ false
  pub trans : (a b c : A) → less b a ≡ false → less c b ≡ false → less c a ≡ false

module _ {A : Type 0} {less : A → A → Bool} (order : IsOrder less) where
  All-insert :
      (z x : A) (ys : List A)
      → less x z ≡ false
      → All (λ y. less y z ≡ false) ys
      → All (λ y. less y z ≡ false) (insert less x ys)
  unfolding insert
  All-insert z x [] h k = (h, tt)
  All-insert z x (y ∷ ys) h k = elim (Bool-cases (less y x)) [
    | inl e ↦ rw e (k.0, All-insert z x ys h k.1)
    | inr e ↦ rw e (h, k)
  ]

  All-weaken :
      (x y : A) (ys : List A)
      → less y x ≡ false
      → All (λ z. less z y ≡ false) ys
      → All (λ z. less z x ≡ false) ys
  All-weaken x y [] h k = tt
  All-weaken x y (z ∷ zs) h k = (order.trans x y z h k.0, All-weaken x y zs h k.1)

  insert-IsSorted : (x : A) (ys : List A) → IsSorted less ys → IsSorted less (insert less x ys)
  unfolding insert
  insert-IsSorted x [] s = (tt, tt)
  insert-IsSorted x (y ∷ ys) s = elim (Bool-cases (less y x)) [
    | inl e ↦ rw e (All-insert y x ys (order.asymm y x e) s.0, insert-IsSorted x ys s.1)
    | inr e ↦ rw e ((e, All-weaken x y ys e s.0), s)
  ]

  pub sort_by-IsSorted : (xs : List A) → IsSorted less (sort_by less xs)
  unfolding sort_by
  sort_by-IsSorted [] = tt
  sort_by-IsSorted (x ∷ xs) = insert-IsSorted x (sort_by less xs) (sort_by-IsSorted xs)

-- sort.Strings
abbrev pub sort_strings : List String → List String
sort_strings = sort_by text_lt

pub text_lt-IsOrder : IsOrder text_lt
text_lt-IsOrder = record { asymm = text_lt_asymm; trans = text_lt_trans }
