-- ===== src/Kube/Keeps.antt =====
-- What a pass keeps, whether it goes on or returns: a property of the object, a property of each
-- call, and, where it goes on, a property of its value. One rule for each way to build a pass.
use weft_operator.Prelude.{◌≡◌, refl, Bool, true, false, [], ◌∷◌, All, All-append, if◌then◌else◌}
use weft_operator.Kube.{
  Flow, next, stop, State, Pass, Return, continue, pure, return, get, modify, emit, ◌>>=◌,
}

abbrev pub OnNext : {A : Type 0} → (A → Type 0) → Flow A → Type 0
OnNext V (next a) = V a
OnNext V (stop r) = Unit

pub record Keeps {R C A : Type 0} (Q : R → Type 0) (P : C → Type 0) (V : A → Type 0)
    (m : Pass R C A) : Type 0 where
  pub at :
      (s : State R C)
      → Q s.object
      → All P s.calls
      → Q (m s).1.object × All P (m s).1.calls × OnNext V (m s).0

module _ {R C : Type 0} {Q : R → Type 0} {P : C → Type 0} where
  pub Keeps-pure : {A : Type 0} {V : A → Type 0} (a : A) → V a → Keeps Q P V (pure a)
  unfolding pure
  Keeps-pure a v = record { at = λ s q h. (q, h, v) }

  pub Keeps-return : {A : Type 0} {V : A → Type 0} (r : Return) → Keeps Q P V (return r)
  unfolding return
  Keeps-return r = record { at = λ s q h. (q, h, tt) }

  pub Keeps-get : Keeps Q P Q get
  unfolding get
  Keeps-get = record { at = λ s q h. (q, h, q) }

  pub Keeps-modify : (f : R → R) → ((a : R) → Q a → Q (f a)) → Keeps Q P (λ _. Unit {0}) (modify f)
  unfolding modify
  Keeps-modify f k = record { at = λ s q h. (k s.object q, h, tt) }

  pub Keeps-emit : (c : C) → P c → Keeps Q P (λ _. Unit {0}) (emit c)
  unfolding emit
  Keeps-emit c p = record { at = λ s q h. (q, All-append P s.calls (c ∷ []) h (p, tt), tt) }

  pub Keeps-if :
      {A : Type 0} {V : A → Type 0} (b : Bool) (m n : Pass R C A)
      → (b ≡ true → Keeps Q P V m)
      → (b ≡ false → Keeps Q P V n)
      → Keeps Q P V (if b then m else n)
  Keeps-if true m n km kn = km refl
  Keeps-if false m n km kn = kn refl

  Keeps-continue :
      {A B : Type 0} {V : A → Type 0} {W : B → Type 0} (r : Flow A) (f : A → Pass R C B)
      → OnNext V r
      → ((a : A) → V a → Keeps Q P W (f a))
      → Keeps Q P W (continue r f)
  Keeps-continue (next a) f v k = k a v
  Keeps-continue (stop r) f v k = record { at = λ s q h. (q, h, tt) }

  pub Keeps-bind :
      {A B : Type 0} {V : A → Type 0} {W : B → Type 0} {m : Pass R C A} {f : A → Pass R C B}
      → Keeps Q P V m
      → ((a : A) → V a → Keeps Q P W (f a))
      → Keeps Q P W (m >>= f)
  unfolding ◌>>=◌
  Keeps-bind {m} {f} km kf = record {
    at = λ s q h.
        let (r, s') = m s in let (q', h', v) = km.at s q h in (Keeps-continue r f v kf).at s' q' h';
  }

-- A pass that ends with its calls right, whatever it does to the object.
pub record Ends {R C A : Type 0} (Q : R → Type 0) (P : C → Type 0) (m : Pass R C A) : Type 0 where
  pub calls_right : (s : State R C) → Q s.object → All P s.calls → All P (m s).1.calls

module _ {R C : Type 0} {P : C → Type 0} where
  pub Ends-Keeps :
      {A : Type 0} {Q : R → Type 0} {V : A → Type 0} {m : Pass R C A} → Keeps Q P V m → Ends Q P m
  Ends-Keeps k = record { calls_right = λ s q h. (k.at s q h).1 }

  pub Ends-if :
      {A : Type 0} {Q : R → Type 0} (b : Bool) (m n : Pass R C A)
      → (b ≡ true → Ends Q P m)
      → (b ≡ false → Ends Q P n)
      → Ends Q P (if b then m else n)
  Ends-if true m n km kn = km refl
  Ends-if false m n km kn = kn refl

  Ends-continue :
      {A B : Type 0} {Q : R → Type 0} {V : A → Type 0} (r : Flow A) (f : A → Pass R C B)
      → OnNext V r
      → ((a : A) → V a → Ends Q P (f a))
      → Ends Q P (continue r f)
  Ends-continue (next a) f v k = k a v
  Ends-continue (stop r) f v k = record { calls_right = λ s q h. h }

  pub Ends-bind :
      {A B : Type 0} {Q : R → Type 0} {V : A → Type 0} {m : Pass R C A} {f : A → Pass R C B}
      → Keeps Q P V m
      → ((a : A) → V a → Ends Q P (f a))
      → Ends Q P (m >>= f)
  unfolding ◌>>=◌
  Ends-bind {m} {f} km kf = record {
    calls_right = λ s q h.
        let (r, s') = m s in
        let (q', h', v) = km.at s q h in (Ends-continue r f v kf).calls_right s' q' h';
  }

  -- A change of the object turns what is known of it into what is known after it.
  pub Ends-modify :
      {B : Type 0} {Q Q' : R → Type 0} {n : Pass R C B} (f : R → R)
      → ((a : R) → Q a → Q' (f a))
      → Ends Q' P n
      → Ends Q P (modify f >>= λ _. n)
  unfolding modify ◌>>=◌
  Ends-modify f k e = record {
    calls_right = λ s q h. e.calls_right (record s { object = f s.object }) (k s.object q) h;
  }
