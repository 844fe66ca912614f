-- ===== src/Exec/Lively.antt =====
-- Actions that never run out of fuel, by a rule for each way to build the action.
use inventory_cloud_service.Base.{◌≡◌, ◌≢◌, ap, Bool, true, false, String}
use inventory_cloud_service.Json.{Exc, runtime, out_of_fuel, Result, ok, err}
use inventory_cloud_service.Exec.Action.{Exec, pure, lift, continue, ◌>>=◌, require, gets}

-- No run ends for want of fuel.
pub record Lively {S A : Type 0} (m : Exec S A) : Type 0 where
  pub at : (s : S) → (m s).0 ≢ err out_of_fuel

pub record IsFueled {A : Type 0} (r : Result A) : Type 0 where
  pub other : r ≢ err out_of_fuel

exception_of : {A : Type 0} {e x : Exc} → Path (Result A) (err e) (err x) → e ≡ x
exception_of q = cc

module _ {S : Type 0} where
  pub Lively-pure : {A : Type 0} (a : A) → Lively {S = S} (pure a)
  unfolding pure
  Lively-pure a = record { at = λ s e. cc e }

  pub Lively-lift : {A : Type 0} (r : Result A) → IsFueled r → Lively {S = S} (lift r)
  unfolding lift
  Lively-lift r p = record { at = λ s. p.other }

  pub Lively-demand : (c : Bool) (message : String) → Lively {S = S} (require c (runtime message))
  unfolding require
  Lively-demand true message = record { at = λ s e. cc e }
  Lively-demand false message = record { at = λ s e. cc e }

  pub Lively-gets : {A : Type 0} (f : S → A) → Lively {S = S} (gets f)
  unfolding gets
  Lively-gets f = record { at = λ s e. cc e }

  continue-other :
      {A B : Type 0} (r : Result A) (f : A → Exec S B) (s : S)
      → r ≢ err out_of_fuel
      → ((a : A) → Lively (f a))
      → (continue r f s).0 ≢ err out_of_fuel
  continue-other (ok a) f s p k = (k a).at s
  continue-other (err e) f s p k = λ q. p (ap err (exception_of q))

  pub Lively-bind :
      {A B : Type 0} (m : Exec S A) (f : A → Exec S B)
      → Lively m
      → ((a : A) → Lively (f a))
      → Lively (m >>= f)
  unfolding ◌>>=◌
  Lively-bind m f p k = record { at = λ s. let (r, t) = m s in continue-other r f t (p.at s) k }
