-- ===== src/Common/Ensures.antt =====
-- Methods on `&mut self` that return a `Result`: a property that the state keeps whatever the outcome,
-- and what a value that was returned has.
use mathlib.Core.Bool.{Bool, true, false}
use msim_dap.Common.Tests.{if◌then◌else◌}
use mathlib.Core.Option.{Option, none, some}
use msim_dap.Common.Results
use msim_dap.Common.Results.{Result, ok, err, ok_or}
use msim_dap.Common.Exec.{Exec, pure, raise, lift, gets, modify, ◌>>=◌, continue, Keeps}

-- What holds of the value of a result, if there is one.
abbrev pub OnOk : {E A : Type 0} → (A → Type 0) → Result E A → Type 0
OnOk Q (ok a) = Q a
OnOk Q (err e) = Unit

-- What holds of the value of an option, if there is one.
abbrev pub OnSome : {A : Type 0} → (A → Type 0) → Option A → Type 0
OnSome Q none = Unit
OnSome Q (some a) = Q a

module _ {E A : Type 0} (Q : A → Type 0) where
  pub OnOk-ok_or : (e : E) (o : Option A) → OnSome Q o → OnOk Q (ok_or e o)
  OnOk-ok_or e none h = tt
  OnOk-ok_or e (some a) h = h

  pub OnOk-if : (b : Bool) (r r' : Result E A) → OnOk Q r → OnOk Q r' → OnOk Q (if b then r else r')
  OnOk-if true r r' q q' = q
  OnOk-if false r r' q q' = q'

pub OnOk-bind :
    {E A B : Type 0} (Q : A → Type 0) (R : B → Type 0) (r : Result E A) (f : A → Result E B)
    → OnOk Q r
    → ((a : A) → Q a → OnOk R (f a))
    → OnOk R (Results.◌>>=◌ r f)
OnOk-bind Q R (ok a) f q k = k a q
OnOk-bind Q R (err e) f q k = tt

pub OnOk-then :
    {E A B : Type 0} (R : B → Type 0) (r : Result E A) (f : A → Result E B)
    → ((a : A) → OnOk R (f a))
    → OnOk R (Results.◌>>=◌ r f)
OnOk-then R (ok a) f k = k a
OnOk-then R (err e) f k = tt

abbrev pub Anything : {A : Type 0} → A → Type 0
Anything a = Unit

pub record Ensures {S E A : Type 0} (P : S → Type 0) (Q : A → Type 0) (m : Exec S E A)
    : Type 0 where
  pub at : (s : S) → P s → P (m s).1 × OnOk Q (m s).0

module _ {E A : Type 0} where
  pub OnOk-Anything : (r : Result E A) → OnOk Anything r
  OnOk-Anything (ok a) = tt
  OnOk-Anything (err e) = tt

module _ {S E A : Type 0} {P : S → Type 0} where
  pub Ensures-pure : (Q : A → Type 0) (a : A) → Q a → Ensures {E = E} P Q (pure a)
  Ensures-pure Q a q = record { at = λ s h. (h, q) }

  pub Ensures-raise : (Q : A → Type 0) (e : E) → Ensures P Q (raise e)
  Ensures-raise Q e = record { at = λ s h. (h, tt) }

  pub Ensures-lift : (Q : A → Type 0) (r : Result E A) → OnOk Q r → Ensures P Q (lift r)
  Ensures-lift Q r q = record { at = λ s h. (h, q) }

  pub Ensures-gets : (f : S → A) → Ensures {E = E} P Anything (gets f)
  Ensures-gets f = record { at = λ s h. (h, tt) }

  pub Ensures-Anything : (Q : A → Type 0) (m : Exec S E A) → Ensures P Q m → Ensures P Anything m
  Ensures-Anything Q m e = record { at = λ s h. ((e.at s h).0, OnOk-Anything (m s).0) }

  pub Keeps-Ensures : (Q : A → Type 0) (m : Exec S E A) → Ensures P Q m → Keeps P m
  Keeps-Ensures Q m e = record { at = λ s h. (e.at s h).0 }

module _ {S E A B : Type 0} {P : S → Type 0} (Q : A → Type 0) (R : B → Type 0) where
  continue_ensures :
      (r : Result E A) (s : S) (f : A → Exec S E B)
      → P s
      → OnOk Q r
      → ((a : A) → Q a → Ensures P R (f a))
      → P (continue (r, s) f).1 × OnOk R (continue (r, s) f).0
  continue_ensures (ok a) s f h q k = (k a q).at s h
  continue_ensures (err e) s f h q k = (h, tt)

  pub Ensures-bind :
      (m : Exec S E A) (f : A → Exec S E B)
      → Ensures P Q m
      → ((a : A) → Q a → Ensures P R (f a))
      → Ensures P R (m >>= f)
  Ensures-bind m f km kf = record {
    at = λ s h. let (r, s') = m s in let (h', q) = km.at s h in continue_ensures r s' f h' q kf;
  }

-- Where nothing need be known of the value.
pub Ensures-then :
    {S E A B : Type 0} {P : S → Type 0} (R : B → Type 0) (m : Exec S E A) (f : A → Exec S E B)
    → Ensures P Anything m
    → ((a : A) → Ensures P R (f a))
    → Ensures P R (m >>= f)
Ensures-then R m f km kf = Ensures-bind Anything R m f km (λ a _. kf a)

pub Ensures-modify :
    {S E : Type 0} {P : S → Type 0} (f : S → S)
    → ((s : S) → P s → P (f s))
    → Ensures {E = E} P Anything (modify f)
Ensures-modify f h = record { at = λ s p. (h s p, tt) }

pub Ensures-if :
    {S E A : Type 0} {P : S → Type 0} (Q : A → Type 0) (b : Bool) (m n : Exec S E A)
    → Ensures P Q m
    → Ensures P Q n
    → Ensures P Q (if b then m else n)
Ensures-if Q true m n km kn = km
Ensures-if Q false m n km kn = kn

pub ruleset ensures_rules = (
  Ensures-pure, Ensures-raise, Ensures-lift, Ensures-gets, Ensures-modify, Ensures-then, Ensures-if,
  OnOk-Anything,
)
