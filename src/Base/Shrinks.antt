-- ===== src/Base/Shrinks.antt =====
-- Code that never makes a measure of its state larger, as a scan never makes its input longer.
use Prim.Native.Nat.{ℕ, ◌≤◌}
use mathlib.Core.Path.{sym, subst}
use native.Mathlib.Omega.{arith}
use sprout_go.Base.Exec.{
  Result, ok, err, panics, Exec, lift, rethrow, continue, on_error-state, ◌>>=◌, ◌>>◌,
}
use sprout_go.Base.Errors.{Error}

module _ {S : Type 0} (size : S → ℕ) where
  pub record Shrinks {A : Type 0} (m : Exec S A) : Type 0 where
    pub shrinks : (s : S) → size (m s).1 ≤ size s

  pub Shrinks-idle : {A : Type 0} (r : Result A) → Shrinks (lift r)
  Shrinks-idle r = record { shrinks = λ s. omega arith }

  pub continue-Shrinks :
      {A B : Type 0} (p : Result A × S) (f : A → Exec S B)
      → ((a : A) → Shrinks (f a))
      → size (continue p f).1 ≤ size p.1
  continue-Shrinks (ok a, s) f k = (k a).shrinks s
  continue-Shrinks (err e, s) f k = omega arith
  continue-Shrinks (panics, s) f k = omega arith

  pub Shrinks-bind :
      {A B : Type 0} {m : Exec S A} {f : A → Exec S B}
      → Shrinks m
      → ((a : A) → Shrinks (f a))
      → Shrinks (m >>= f)
  Shrinks-bind {A} {B} {m} {f} h k = record {
    shrinks = λ s. omega (arith, h.shrinks s, continue-Shrinks (m s) f k);
  }

  pub Shrinks-then :
      {A B : Type 0} {m : Exec S A} {n : Exec S B} → Shrinks m → Shrinks n → Shrinks (m >> n)
  Shrinks-then {A} {B} {m} {n} h k = record {
    shrinks = λ s. omega (arith, h.shrinks s, continue-Shrinks (m s) (λ _. n) (λ _. k));
  }

  pub Shrinks-rethrow :
      {A : Type 0} (f : Error → Error) {m : Exec S A} → Shrinks m → Shrinks (rethrow f m)
  Shrinks-rethrow {A} f {m} h = record {
    shrinks = λ s. subst (λ t. size t ≤ size s) (sym (on_error-state f (m s))) (h.shrinks s);
  }
