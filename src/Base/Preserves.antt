-- ===== src/Base/Preserves.antt =====
-- Code that keeps a statement about its state true, whatever its result.
use mathlib.Core.Path.{◌≡◌, ap, sym, subst}
use mathlib.Core.Bool.{Bool, true, false}
use sprout_go.Base.Tests.{if◌then◌else◌}
use sprout_go.Base.Exec.{
  Result, ok, err, panics, Exec, lift, rethrow, continue, on_error-state, ◌>>=◌, ◌>>◌,
}
use sprout_go.Base.Errors.{Error}

module _ {S : Type 0} (P : S → Type 0) where
  pub record Preserves {A : Type 0} (m : Exec S A) : Type 0 where
    pub preserves : (s : S) → P s → P (m s).1

  pub Preserves-lift : {A : Type 0} (r : Result A) → Preserves (lift r)
  Preserves-lift r = record { preserves = λ s h. h }

  pub continue-Preserves :
      {A B : Type 0} (p : Result A × S) (f : A → Exec S B)
      → P p.1
      → ((a : A) → Preserves (f a))
      → P (continue p f).1
  continue-Preserves (ok a, s) f h k = (k a).preserves s h
  continue-Preserves (err e, s) f h k = h
  continue-Preserves (panics, s) f h k = h

  pub Preserves-bind :
      {A B : Type 0} {m : Exec S A} {f : A → Exec S B}
      → Preserves m
      → ((a : A) → Preserves (f a))
      → Preserves (m >>= f)
  Preserves-bind {A} {B} {m} {f} h k = record {
    preserves = λ s p. continue-Preserves (m s) f (h.preserves s p) k;
  }

  pub Preserves-then :
      {A B : Type 0} {m : Exec S A} {n : Exec S B} → Preserves m → Preserves n → Preserves (m >> n)
  Preserves-then {A} {B} {m} {n} h k = record {
    preserves = λ s p. continue-Preserves (m s) (λ _. n) (h.preserves s p) (λ _. k);
  }

  pub Preserves-rethrow :
      {A : Type 0} (f : Error → Error) {m : Exec S A} → Preserves m → Preserves (rethrow f m)
  Preserves-rethrow {A} f {m} h = record {
    preserves = λ s p. subst P (sym (on_error-state f (m s))) (h.preserves s p);
  }

  pub Preserves-if :
      {A : Type 0} (b : Bool) {m n : Exec S A}
      → Preserves m
      → Preserves n
      → Preserves (if b then m else n)
  Preserves-if true h k = h
  Preserves-if false h k = k

  -- What holds before code that ends without an error holds where it ends.
  pub Preserves-ok :
      {A : Type 0} {m : Exec S A} (s t : S) (a : A) → Preserves m → m s ≡ (ok a, t) → P s → P t
  Preserves-ok {A} s t a k e h = subst P (ap (λ (p : Result A × S). p.1) e) (k.preserves s h)
