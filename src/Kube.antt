-- ===== src/Kube.antt =====
-- What the controllers share: the answers of the API server, a reconcile pass that may return early,
-- and the conditions of a status.
pub mod Keeps
pub mod Store
use weft_operator.Prelude.{
  ◌≡◌, refl, ◌⊎◌, inl, inr, ℕ, String, Option, none, some, Bool, true, false, List, [], ◌∷◌, ◌++◌,
  ◌==◌, if◌then◌else◌,
}

pub data Answer (E A : Type 0) : Type 0 where
  ok : A → Answer E A
  err : E → Answer E A

pub Answer-cases :
    {E A : Type 0} (a : Answer E A) → ((x : A) × (a ≡ ok x)) ⊎ ((e : E) × (a ≡ err e))
Answer-cases (ok x) = inl (x, refl)
Answer-cases (err e) = inr (e, refl)

-- An error of the API server: `IsNotFound`, `IsAlreadyExists`, or any other.
pub data KubeError : Type 0 where
  not_found already_exists : KubeError
  other : String → KubeError

-- ctrl.Result, its delay in seconds, with the error that `Reconcile` returns.
pub record Return : Type 0 where
  pub requeue : Bool
  pub requeue_after : ℕ
  pub error : Option KubeError

abbrev pub done : Return
done = record { requeue = false; requeue_after = 0; error = none }

abbrev pub failed : KubeError → Return
failed e = record { requeue = false; requeue_after = 0; error = some e }

abbrev pub again : Return
again = record { requeue = true; requeue_after = 0; error = none }

abbrev pub after : ℕ → Return
after seconds = record { requeue = false; requeue_after = seconds; error = none }

-- client.IgnoreNotFound
abbrev pub ignore_not_found : KubeError → Return
ignore_not_found not_found = done
ignore_not_found already_exists = failed already_exists
ignore_not_found (other m) = failed (other m)

-- A statement goes on with a value, or returns from `Reconcile`.
pub data Flow (A : Type 0) : Type 0 where
  next : A → Flow A
  stop : Return → Flow A

-- The object in memory and the calls made so far, oldest first.
pub record State (R C : Type 0) : Type 0 where
  pub object : R
  pub calls : List C

abbrev pub Pass : Type 0 → Type 0 → Type 0 → Type 0
Pass R C A = State R C → Flow A × State R C

module _ {R C : Type 0} where
  abbrev pub continue : {A B : Type 0} → Flow A → (A → Pass R C B) → Pass R C B
  continue (next a) f s = f a s
  continue (stop r) f s = (stop r, s)

module _ {R C : Type 0} where
  unfoldable pub pure : {A : Type 0} → A → Pass R C A
  pure a s = (next a, s)

  unfoldable pub return : {A : Type 0} → Return → Pass R C A
  return r s = (stop r, s)

  unfoldable pub get : Pass R C R
  get s = (next s.object, s)

  unfoldable pub modify : (R → R) → Pass R C (Unit {0})
  modify f s = (next tt, record s { object = f s.object })

  unfoldable pub emit : C → Pass R C (Unit {0})
  emit c s = (next tt, record s { calls = s.calls ++ c ∷ [] })

  infixl 5 ◌>>=◌ ◌>>◌
  -- Opening this opens the other statements too.
  unfoldable pub ◌>>=◌ : {A B : Type 0} → Pass R C A → (A → Pass R C B) → Pass R C B
  unfolding pure return get modify emit
  m >>= f = λ s. let (r, s') = m s in continue r f s'

  abbrev pub ◌>>◌ : {A B : Type 0} → Pass R C A → Pass R C B → Pass R C B
  m >> n = m >>= λ _. n

pub record Condition : Type 0 where
  pub type : String
  pub status : Bool
  pub reason : String
  pub message : String
  pub observed_generation : ℕ

-- meta.FindStatusCondition
unfoldable pub find_condition : String → List Condition → Option Condition
find_condition t [] = none
find_condition t (c ∷ cs) = if c.type == t then some c else find_condition t cs
