-- ===== src/Common/Exec.antt =====
-- Methods on `&mut self` that return a `Result`: what was written before an error stays written.
use mathlib.Core.Path.{◌≡◌, refl}
use msim_dap.Common.Results.{Result, ok, err}

abbrev pub Exec {ℓ} : Type ℓ → Type ℓ → Type ℓ → Type ℓ
Exec S E A = S → Result E A × S

module _ {ℓ} {S E A : Type ℓ} where
  abbrev pub pure : A → Exec S E A
  pure a s = (ok a, s)

  abbrev pub raise : E → Exec S E A
  raise e s = (err e, s)

  -- A result that no state takes part in.
  abbrev pub lift : Result E A → Exec S E A
  lift r s = (r, s)

  abbrev pub gets : (S → A) → Exec S E A
  gets f s = (ok (f s), s)

module _ {ℓ} {S E : Type ℓ} where
  abbrev pub modify : (S → S) → Exec S E (Unit {ℓ})
  modify f s = (ok tt, f s)

module _ {ℓ} {S E A B : Type ℓ} where
  abbrev pub continue : Result E A × S → (A → Exec S E B) → Result E B × S
  continue (ok a, s) f = f a s
  continue (err e, s) f = (err e, s)

  infixl 10 ◌>>=◌ ◌>>◌
  abbrev pub ◌>>=◌ : Exec S E A → (A → Exec S E B) → Exec S E B
  ◌>>=◌ m f s = continue (m s) f

  abbrev pub ◌>>◌ : Exec S E A → Exec S E B → Exec S E B
  m >> n = m >>= λ _. n

-- A bind that returned a value: so did both parts.
pub bind-eq-ok {ℓ} :
    {S E A B : Type ℓ} (r : Result E A × S) (f : A → Exec S E B) {b : B} {t : S}
    → continue r f ≡ (ok b, t)
    → (a : A) × (s : S) × (r ≡ (ok a, s)) × (f a s ≡ (ok b, t))
bind-eq-ok (ok a, s) f h = (a, s, refl, h)
bind-eq-ok (err e, s) f h = cc

-- The value of an action that only maps the value of its last part.
pub continue-pure {ℓ} :
    {S E A B : Type ℓ} (r : Result E A × S) (f : A → B) {a : A}
    → r.0 ≡ ok a
    → (continue {E = E} r (λ b. pure (f b))).0 ≡ ok (f a)
continue-pure (ok b, s) f h = cc
continue-pure (err e, s) f h = cc

-- What every outcome of an action, a value or an error, leaves true of the state.
pub record Keeps {ℓ κ} {S E A : Type ℓ} (P : S → Type κ) (m : Exec S E A) : Type (ℓ ⊔ κ) where
  pub at : (s : S) → P s → P (m s).1

module _ {ℓ κ} {S E A : Type ℓ} {P : S → Type κ} where
  pub Keeps-pure : (a : A) → Keeps {E = E} P (pure a)
  Keeps-pure a = record { at = λ s h. h }

  pub Keeps-raise : (e : E) → Keeps {A = A} P (raise e)
  Keeps-raise e = record { at = λ s h. h }

  pub Keeps-lift : (r : Result E A) → Keeps P (lift r)
  Keeps-lift r = record { at = λ s h. h }

  pub Keeps-gets : (f : S → A) → Keeps {E = E} P (gets f)
  Keeps-gets f = record { at = λ s h. h }

module _ {ℓ κ} {S E A B : Type ℓ} {P : S → Type κ} where
  pub continue_keeps :
      (r : Result E A) (s : S) (f : A → Exec S E B)
      → P s
      → ((a : A) → Keeps P (f a))
      → P (continue (r, s) f).1
  continue_keeps (ok a) s f h k = (k a).at s h
  continue_keeps (err e) s f h k = h

  pub Keeps-bind :
      (m : Exec S E A) (f : A → Exec S E B)
      → Keeps P m
      → ((a : A) → Keeps P (f a))
      → Keeps P (m >>= f)
  Keeps-bind m f km kf = record {
    at = λ s h. let (r, s') = m s in continue_keeps r s' f (km.at s h) kf;
  }

pub ruleset keeps_rules = (Keeps-pure, Keeps-raise, Keeps-lift, Keeps-gets, Keeps-bind)
