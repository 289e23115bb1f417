-- ===== src/Base/Keeping.antt =====
-- Procedures that keep an invariant of the state, and what holds of their results.
use bitprotector.Base.Errors.{
  Error, Exec, Result, ok, err, continue, gets, raise_if, or_raise, ◌>>=◌,
}
use mathlib.Core.Bool.{Bool, true, false}
use mathlib.Core.Option.{Option, none, some}

-- A procedure leaves the invariant as it found it, whether it fails or not.
abbrev pub Keeps {ℓ} : {S A : Type ℓ} → (S → Type ℓ) → Exec S A → Type ℓ
Keeps {S = S} P m = (s : S) → P s → P (m s).1

module _ {ℓ} {S : Type ℓ} (P : S → Type ℓ) where
  continue_keeps :
      {A B : Type ℓ} (r : Result A × S) (f : A → Exec S B)
      → P r.1
      → ((a : A) → Keeps P (f a))
      → P (continue r.0 f r.1).1
  continue_keeps (ok a, s) f h k = k a s h
  continue_keeps (err e, s) f h k = h

  pub then-Keeps :
      {A B : Type ℓ} (m : Exec S A) (f : A → Exec S B)
      → Keeps P m
      → ((a : A) → Keeps P (f a))
      → Keeps P (m >>= f)
  then-Keeps m f h k s p = continue_keeps (m s) f (h s p) k

  pub gets-Keeps : {A : Type ℓ} (f : S → A) → Keeps P (gets f)
  gets-Keeps f s p = p

  pub raise_if-Keeps : (b : Bool) (e : Error) → Keeps P (raise_if b e)
  raise_if-Keeps true e s p = p
  raise_if-Keeps false e s p = p

  pub or_raise-Keeps : {A : Type ℓ} (o : Option A) (e : Error) → Keeps P (or_raise o e)
  or_raise-Keeps none e s p = p
  or_raise-Keeps (some a) e s p = p

  continue_post :
      {A B : Type ℓ} (Q : Result B × S → Type ℓ) (r : Result A × S) (f : A → Exec S B)
      → P r.1
      → ((e : Error) (s : S) → P s → Q (err e, s))
      → ((a : A) (s : S) → P s → Q (f a s))
      → Q (continue r.0 f r.1)
  continue_post Q (ok a, s) f h bad good = good a s h
  continue_post Q (err e, s) f h bad good = bad e s h

  -- After a procedure that keeps the invariant, the rest starts from it.
  pub then_post :
      {A B : Type ℓ} (Q : Result B × S → Type ℓ) (m : Exec S A) (f : A → Exec S B)
      → Keeps P m
      → ((e : Error) (s : S) → P s → Q (err e, s))
      → ((a : A) (s : S) → P s → Q (f a s))
      → (s : S) → P s
      → Q ((m >>= f) s)
  then_post Q m f h bad good s p = continue_post Q (m s) f (h s p) bad good
