-- ===== src/Prelude/Ensures.antt =====
-- A property of the value that a computation returns, with a rule for each way to build one. Says
-- nothing of a computation that raises.
use mathlib.Core.Path.{◌≡◌, refl}
use mathlib.Core.Bool.{Bool, true, false}
use re_dstm.Prelude.Tests.{Error, Result, ok, err, raise_if, ◌>>=◌, ◌>>◌}

pub record Ensures {ℓ κ} {A : Type ℓ} (P : A → Type κ) (r : Result A) : Type (ℓ ⊔ κ) where
  pub at : (a : A) → r ≡ ok a → P a

module _ {ℓ κ} {A : Type ℓ} {P : A → Type κ} where
  pub Ensures-ok : (a : A) → P a → Ensures P (ok a)
  Ensures-ok a h = record { at = λ b e. transport_ok a b e h }
    where
      ok_eq : (a b : A) → ok a ≡ ok b → a ≡ b
      ok_eq a b e = cc

      transport_ok : (a b : A) → ok a ≡ ok b → P a → P b
      transport_ok a b e h = rw (ok_eq a b e) at h

  pub Ensures-err : (e : Error) → Ensures P (err e)
  Ensures-err e = record { at = λ b p. absurd (impossible b p) }
    where
      impossible : (b : A) → err e ≡ ok b → ⊥
      impossible b p = cc

  pub Ensures-raise_if :
      (b : Bool) (e : Error) (k : Result A)
      → (b ≡ false → Ensures P k)
      → Ensures P (raise_if b e >> k)
  unfolding ◌>>=◌ raise_if
  Ensures-raise_if true e k h = Ensures-err e
  Ensures-raise_if false e k h = h refl

module _ {ℓ κ μ} {A : Type ℓ} {B : Type κ} {P : B → Type μ} where
  pub Ensures-bind :
      (m : Result A) (f : A → Result B)
      → ((a : A) → m ≡ ok a → Ensures P (f a))
      → Ensures P (m >>= f)
  unfolding ◌>>=◌
  Ensures-bind (ok a) f h = h a refl
  Ensures-bind (err e) f h = Ensures-err e
