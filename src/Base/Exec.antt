-- ===== src/Base/Exec.antt =====
-- Stateful code that may fail. What was done before an error stays done, so the state comes back
-- beside the error. `panics` is a run-time panic.
use mathlib.Core.Path.{◌≡◌, refl}
use sprout_go.Base.Errors.{Error}

pub data Result {ℓ} (A : Type ℓ) : Type ℓ where
  ok : A → Result A
  err : Error → Result A
  panics : Result A

abbrev pub Exec {ℓ κ} : Type ℓ → Type κ → Type (ℓ ⊔ κ)
Exec S A = S → Result A × S

module _ {ℓ κ} {S : Type ℓ} {A : Type κ} where
  abbrev pub pure : A → Exec S A
  pure a s = (ok a, s)

  abbrev pub raise : Error → Exec S A
  raise e s = (err e, s)

  abbrev pub panic : Exec S A
  panic s = (panics, s)

  abbrev pub lift : Result A → Exec S A
  lift r s = (r, s)

  -- `if err != nil { return f(err) }` behind a call.
  abbrev pub on_error : (Error → Error) → Result A × S → Result A × S
  on_error f (ok a, s) = (ok a, s)
  on_error f (err e, s) = (err (f e), s)
  on_error f (panics, s) = (panics, s)

  abbrev pub rethrow : (Error → Error) → Exec S A → Exec S A
  rethrow f m s = on_error f (m s)

  -- Wrapping an error leaves the state.
  pub on_error-state : (f : Error → Error) (p : Result A × S) → (on_error f p).1 ≡ p.1
  on_error-state f (ok a, s) = refl
  on_error-state f (err e, s) = refl
  on_error-state f (panics, s) = refl

module _ {ℓ κ} {S : Type ℓ} where
  abbrev pub gets : {A : Type κ} → (S → A) → Exec S A
  gets f s = (ok (f s), s)

module _ {ℓ κ μ} {S : Type ℓ} {A : Type κ} {B : Type μ} where
  abbrev pub continue : Result A × S → (A → Exec S B) → Result B × S
  continue (ok a, s) f = f a s
  continue (err e, s) f = (err e, s)
  continue (panics, s) f = (panics, s)

  infixl 10 ◌>>=◌ ◌>>◌
  abbrev pub ◌>>=◌ : Exec S A → (A → Exec S B) → Exec S B
  ◌>>=◌ m f s = continue (m s) f

  abbrev pub ◌>>◌ : Exec S A → Exec S B → Exec S B
  ◌>>◌ m n s = continue (m s) (λ _. n)

  -- A step that only maps the result leaves the state.
  pub continue-pure : (p : Result A × S) (f : A → B) → (continue p (λ a. pure (f a))).1 ≡ p.1
  continue-pure (ok a, s) f = refl
  continue-pure (err e, s) f = refl
  continue-pure (panics, s) f = refl
