-- ===== src/Prelude/Eff.antt =====
-- Operations on a store that may fail: `&mut` state passed along, and a `Result` for `?`.
-- What was written before a failure stays written.
use mathlib.Core.Path.{◌≡◌, refl, subst}
use native.Mathlib.Omega.{arith}
use mathlib.Core.Bool.{Bool, true, false}
use parqonaut.Prelude.Tests.{if◌then◌else◌}
use parqonaut.Prelude.Outcome.{Result, ok, err}

abbrev pub Eff : Type 0 → Type 0 → Type 0 → Type 0
Eff E S A = S → S × Result E A

module _ {E S A : Type 0} where
  abbrev pub pure : A → Eff E S A
  pure a s = (s, ok a)

  abbrev pub throw : E → Eff E S A
  throw e s = (s, err e)

  abbrev pub lift : Result E A → Eff E S A
  lift r s = (s, r)

  -- The result satisfies `Q`, and the state that a failure leaves satisfies `F`.
  abbrev pub Post : (A → S → Type 0) → (S → Type 0) → S × Result E A → Type 0
  Post Q F (s, ok a) = Q a s
  Post Q F (s, err e) = F s

module _ {E A : Type 0} where
  ok_injective : {a b : A} → ◌≡◌ {A = Result E A} (ok a) (ok b) → a ≡ b
  ok_injective e = cc

module _ {E S A B : Type 0} where
  abbrev pub bind_result : (A → Eff E S B) → S × Result E A → S × Result E B
  bind_result f (s, ok a) = f a s
  bind_result f (s, err e) = (s, err e)

  infixl 5 ◌>>=◌
  abbrev pub ◌>>=◌ : Eff E S A → (A → Eff E S B) → Eff E S B
  ◌>>=◌ m f s = bind_result f (m s)

  pub Post-bind :
      (Q : A → S → Type 0) (R : B → S → Type 0) (F : S → Type 0) (f : A → Eff E S B)
      (r : S × Result E A)
      → Post Q F r
      → ((a : A) (s : S) → Q a s → Post R F (f a s))
      → Post R F (bind_result f r)
  Post-bind Q R F f (s, ok a) h k = k a s h
  Post-bind Q R F f (s, err e) h k = h

  -- The bind of a pure result: its error leaves the state as it is.
  pub Post-lift :
      (R : B → S → Type 0) (F : S → Type 0) (f : A → Eff E S B) (s : S) (r : Result E A)
      → F s
      → ((a : A) → r ≡ ok a → Post R F (f a s))
      → Post R F (bind_result f (s, r))
  Post-lift R F f s (ok a) h k = k a refl
  Post-lift R F f s (err e) h k = h

module _ {E S A : Type 0} where
  pub Post-if :
      (Q : A → S → Type 0) (F : S → Type 0) (b : Bool) (m n : Eff E S A) (s : S)
      → (b ≡ true → Post Q F (m s))
      → (b ≡ false → Post Q F (n s))
      → Post Q F ((if b then m else n) s)
  Post-if Q F true m n s h k = h refl
  Post-if Q F false m n s h k = k refl

  pub Post-ok :
      (Q : A → S → Type 0) (F : S → Type 0) (r : S × Result E A) (a : A)
      → Post Q F r
      → r.1 ≡ ok a
      → Q a r.0
  Post-ok Q F (s, ok b) a h e = subst (λ x. Q x s) (ok_injective e) h
  Post-ok Q F (s, err x) a h e = absurd (ground arith)

  pub Post-err :
      (Q : A → S → Type 0) (F : S → Type 0) (r : S × Result E A) (x : E)
      → Post Q F r
      → r.1 ≡ err x
      → F r.0
  Post-err Q F (s, ok b) x h e = absurd (ground arith)
  Post-err Q F (s, err y) x h e = h

  pub Post-pure :
      (Q : A → S → Type 0) (F : S → Type 0) (r : S × Result E A)
      → Post Q F (bind_result pure r)
      → Post Q F r
  Post-pure Q F (s, ok a) h = h
  Post-pure Q F (s, err e) h = h

  -- A weaker postcondition.
  pub Post-weaken :
      (Q R : A → S → Type 0) (F G : S → Type 0) (r : S × Result E A)
      → ((a : A) (s : S) → Q a s → R a s)
      → ((s : S) → F s → G s)
      → Post Q F r
      → Post R G r
  Post-weaken Q R F G (s, ok a) h k x = h a s x
  Post-weaken Q R F G (s, err e) h k x = k s x

module _ {E S B : Type 0} where
  infixl 5 ◌>>◌
  abbrev pub ◌>>◌ : Eff E S (Unit {0}) → Eff E S B → Eff E S B
  m >> k = m >>= λ _. k
