-- ===== src/Prelude/Lists.antt =====
-- Lists measured by native numbers, membership and quantifiers by recursion.
use Prim.Native.Nat.{ℕ, zero, suc, ◌+◌}
use mathlib.Core.Option.{Option, none, some}
use Prim.Native.String.{String}
use mathlib.Core.Path.{subst, ◌≡◌, refl, sym, ap}
use mathlib.Core.Logic.{◌↔◌, ◌⊎◌, inl, inr}
use mathlib.Core.Bool.{Bool, true, false, ◌||◌}
use mathlib.Core.List.{List, [], ◌∷◌, ◌++◌, map}
use native.Mathlib.Omega.{arith}
use text.Mathlib.Text.{◌==◌}
use text.Mathlib.TextEquality.{eq_iff}
use weft_operator.Prelude.Tests.{if◌then◌else◌, Bool-cases}

module _ {ℓ} {A : Type ℓ} where
  abbrev pub length : List A → ℕ
  length [] = 0
  length (x ∷ xs) = suc (length xs)

  abbrev pub take : ℕ → List A → List A
  take zero xs = []
  take (suc n) [] = []
  take (suc n) (x ∷ xs) = x ∷ take n xs

  abbrev pub drop : ℕ → List A → List A
  drop zero xs = xs
  drop (suc n) [] = []
  drop (suc n) (x ∷ xs) = drop n xs

  pub length-append : (xs ys : List A) → length (xs ++ ys) ≡ length xs + length ys
  length-append [] ys = omega arith
  length-append (x ∷ xs) ys = omega (arith, length-append xs ys)

  pub take-append : (xs ys : List A) → take (length xs) (xs ++ ys) ≡ xs
  take-append [] ys = refl
  take-append (x ∷ xs) ys = ap (λ t. x ∷ t) (take-append xs ys)

  pub drop-append : (xs ys : List A) → drop (length xs) (xs ++ ys) ≡ ys
  drop-append [] ys = refl
  drop-append (x ∷ xs) ys = drop-append xs ys

  abbrev pub get_elem? : List A → ℕ → Option A
  get_elem? [] i = none
  get_elem? (x ∷ xs) zero = some x
  get_elem? (x ∷ xs) (suc i) = get_elem? xs i

  abbrev pub is_empty : List A → Bool
  is_empty [] = true
  is_empty (x ∷ xs) = false

module _ {ℓ κ} {A : Type ℓ} {B : Type κ} where
  -- The results of all items, put together in their order.
  abbrev pub flat_map : (A → List B) → List A → List B
  flat_map f [] = []
  flat_map f (x ∷ xs) = f x ++ flat_map f xs

abbrev pub get_or {ℓ} : {A : Type ℓ} → Option A → A → A
get_or none d = d
get_or (some a) d = a

module _ {A : Type 0} where
  -- `a` stands in the list.
  abbrev pub In : A → List A → Type 0
  In a [] = ⊥
  In a (x ∷ xs) = (a ≡ x) ⊎ In a xs

  abbrev pub All : (A → Type 0) → List A → Type 0
  All P [] = Unit
  All P (x ∷ xs) = P x × All P xs

  -- The items that pass the test, in their order.
  abbrev pub keep : (A → Bool) → List A → List A
  keep p [] = []
  keep p (x ∷ xs) = let rest = keep p xs in if p x then x ∷ rest else rest

  abbrev pub any : (A → Bool) → List A → Bool
  any p [] = false
  any p (x ∷ xs) = p x || any p xs

  pub All-append : (P : A → Type 0) (xs ys : List A) → All P xs → All P ys → All P (xs ++ ys)
  All-append P [] ys hx hy = hy
  All-append P (x ∷ xs) ys hx hy = (hx.0, All-append P xs ys hx.1 hy)

  pub All-take : (P : A → Type 0) (n : ℕ) (xs : List A) → All P xs → All P (take n xs)
  All-take P zero xs h = tt
  All-take P (suc n) [] h = tt
  All-take P (suc n) (x ∷ xs) h = (h.0, All-take P n xs h.1)

  pub All-drop : (P : A → Type 0) (n : ℕ) (xs : List A) → All P xs → All P (drop n xs)
  All-drop P zero xs h = h
  All-drop P (suc n) [] h = tt
  All-drop P (suc n) (x ∷ xs) h = All-drop P n xs h.1

  pub All-In : (P : A → Type 0) (a : A) (xs : List A) → All P xs → In a xs → P a
  All-In P a [] h m = absurd m
  All-In P a (x ∷ xs) h (inl e) = rw e h.0
  All-In P a (x ∷ xs) h (inr m) = All-In P a xs h.1 m

  pub All-intro : (P : A → Type 0) (xs : List A) → ((a : A) → In a xs → P a) → All P xs
  All-intro P [] h = tt
  All-intro P (x ∷ xs) h = (h x (inl refl), All-intro P xs (λ a m. h a (inr m)))

  pub In-append_left : (a : A) (xs ys : List A) → In a xs → In a (xs ++ ys)
  In-append_left a [] ys m = absurd m
  In-append_left a (x ∷ xs) ys (inl e) = inl e
  In-append_left a (x ∷ xs) ys (inr m) = inr (In-append_left a xs ys m)

  pub In-append_right : (a : A) (xs ys : List A) → In a ys → In a (xs ++ ys)
  In-append_right a [] ys m = m
  In-append_right a (x ∷ xs) ys m = inr (In-append_right a xs ys m)

  pub In-append : (a : A) (xs ys : List A) → In a (xs ++ ys) → In a xs ⊎ In a ys
  In-append a [] ys m = inr m
  In-append a (x ∷ xs) ys (inl e) = inl (inl e)
  In-append a (x ∷ xs) ys (inr m) = elim (In-append a xs ys m) [
    | inl h ↦ inl (inr h)
    | inr h ↦ inr h
  ]

  pub In-keep : (p : A → Bool) (a : A) (xs : List A) → In a (keep p xs) → In a xs × (p a ≡ true)
  In-keep p a [] m = absurd m
  In-keep p a (x ∷ xs) m = elim (Bool-cases (p x)) [
    | inl e ↦
        let k : In a (x ∷ keep p xs) = rw e at m in
        elim k [ inl h ↦ (inl h, rw h e) | inr h ↦ let (i, q) = In-keep p a xs h in (inr i, q) ]
    | inr e ↦ let k : In a (keep p xs) = rw e at m in let (i, q) = In-keep p a xs k in (inr i, q)
  ]

  pub keep-In : (p : A → Bool) (a : A) (xs : List A) → In a xs → p a ≡ true → In a (keep p xs)
  keep-In p a [] m h = absurd m
  keep-In p a (x ∷ xs) (inl e) h = rw (← e, h) (inl refl)
  keep-In p a (x ∷ xs) (inr m) h = elim (Bool-cases (p x)) [
    | inl t ↦ rw t (inr (keep-In p a xs m h))
    | inr f ↦ rw f (keep-In p a xs m h)
  ]

pub In-map :
    {A B : Type 0} (f : A → B) (y : B) (xs : List A)
    → In y (map f xs)
    → (x : A) × In x xs × (f x ≡ y)
In-map f y [] m = absurd m
In-map f y (x ∷ xs) (inl e) = (x, inl refl, sym e)
In-map f y (x ∷ xs) (inr m) = let (z, i, e) = In-map f y xs m in (z, inr i, e)

pub map-In : {A B : Type 0} (f : A → B) (x : A) (xs : List A) → In x xs → In (f x) (map f xs)
map-In f x [] m = absurd m
map-In f x (y ∷ ys) (inl e) = inl (ap f e)
map-In f x (y ∷ ys) (inr m) = inr (map-In f x ys m)

-- slices.Contains on texts.
abbrev pub contains : List String → String → Bool
contains [] a = false
contains (x ∷ xs) a = x == a || contains xs a

pub contains-In : (a : String) (xs : List String) → contains xs a ≡ true → In a xs
contains-In a [] h = cc
contains-In a (x ∷ xs) h = elim (Bool-cases (x == a)) [
  | inl e ↦ inl (ground (arith, eq_iff x a))
  | inr e ↦ inr (contains-In a xs (rw e at h))
]

pub In-contains : (a : String) (xs : List String) → In a xs → contains xs a ≡ true
In-contains a [] m = absurd m
In-contains a (x ∷ xs) (inl e) = ground (arith, eq_iff x a)
In-contains a (x ∷ xs) (inr m) = ground (arith, In-contains a xs m)

pub any-In :
    {A : Type 0} (p : A → Bool) (xs : List A) → any p xs ≡ true → (x : A) × In x xs × (p x ≡ true)
any-In p [] h = cc h
any-In p (x ∷ xs) h = elim (Bool-cases (p x)) [
  | inl e ↦ (x, inl refl, e)
  | inr e ↦ let (y, i, q) = any-In p xs (ground (arith, h, e)) in (y, inr i, q)
]

pub In-any :
    {A : Type 0} (p : A → Bool) (xs : List A) (x : A) → In x xs → p x ≡ true → any p xs ≡ true
In-any p [] x i h = absurd i
In-any p (y ∷ ys) x (inl e) h = let k = subst (λ z. p z ≡ true) e h in ground (arith, k)
In-any p (y ∷ ys) x (inr i) h = let k = In-any p ys x i h in ground (arith, k)

pub flat_map-In :
    {A B : Type 0} (f : A → List B) (y : B) (xs : List A)
    → In y (flat_map f xs)
    → (x : A) × In x xs × In y (f x)
flat_map-In f y [] m = absurd m
flat_map-In f y (x ∷ xs) m = elim (In-append y (f x) (flat_map f xs) m) [
  | inl i ↦ (x, inl refl, i)
  | inr j ↦ let (z, i, k) = flat_map-In f y xs j in (z, inr i, k)
]

pub In-flat_map :
    {A B : Type 0} (f : A → List B) (y : B) (x : A) (xs : List A)
    → In x xs
    → In y (f x)
    → In y (flat_map f xs)
In-flat_map f y x [] i m = absurd i
In-flat_map f y x (z ∷ xs) (inl e) m =
    In-append_left y (f z) (flat_map f xs) (subst (λ u. In y (f u)) e m)
In-flat_map f y x (z ∷ xs) (inr i) m =
    In-append_right y (f z) (flat_map f xs) (In-flat_map f y x xs i m)

pub if-In :
    {A : Type 0} (b : Bool) (y : A) (xs : List A)
    → In y (if b then xs else []) ↔ ((b ≡ true) × In y xs)
if-In true y xs = (λ m. (refl, m), λ p. p.1)
if-In false y xs = (λ m. absurd m, λ p. let k : false ≡ true = p.0 in cc k)
