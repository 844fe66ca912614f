-- ===== src/Exec/Finds.antt =====
-- What holds of the value of an action that returns, by a rule for each way to build the action.
use mathlib.Core.Path.{subst}
use inventory_cloud_service.Base.{◌≡◌, refl, ap, Bool, true, false, if◌then◌else◌}
use inventory_cloud_service.Json.{Exc, Result, ok}
use inventory_cloud_service.Json.Ensures.{ok-injective}
use inventory_cloud_service.Exec.Action.{Exec, pure, raise, lift, ◌>>=◌, require, attempt}
use inventory_cloud_service.Exec.Steps.{bind-eq-ok, require-eq-ok}

pub record Finds {S A : Type 0} (P : A → Type 0) (m : Exec S A) : Type 0 where
  pub at : (s : S) (a : A) (t : S) → m s ≡ (ok a, t) → P a

module _ {S : Type 0} where
  pub Finds-run : {A : Type 0} (m : Exec S A) → Finds (λ a. (s : S) × (t : S) × (m s ≡ (ok a, t))) m
  Finds-run m = record { at = λ s a t e. (s, t, e) }

  pub Finds-lift : {A : Type 0} (r : Result A) → Finds {S = S} (λ a. r ≡ ok a) (lift r)
  unfolding lift
  Finds-lift r = record { at = λ s a t e. ap (λ x. x.0) e }

  pub Finds-pure : {A : Type 0} {P : A → Type 0} (a : A) → P a → Finds {S = S} P (pure a)
  unfolding pure
  Finds-pure {A} {P} a p = record { at = λ s b t e. subst P (ok-injective (ap (λ x. x.0) e)) p }

  pub Finds-bind :
      {A B : Type 0} {P : A → Type 0} {Q : B → Type 0} (m : Exec S A) (f : A → Exec S B)
      → Finds P m
      → ((a : A) → P a → Finds Q (f a))
      → Finds Q (m >>= f)
  Finds-bind m f p k = record {
    at = λ s b u e.
        let (a, t, first, rest) = bind-eq-ok m f s e in (k a (p.at s a t first)).at t b u rest;
  }

  -- An action whose value says nothing of the result.
  pub Finds-skip :
      {A B : Type 0} {Q : B → Type 0} (m : Exec S A) (f : A → Exec S B)
      → ((a : A) → Finds Q (f a))
      → Finds Q (m >>= f)
  Finds-skip m f k = Finds-bind m f (Finds-run m) λ a _. k a

  pub Finds-if :
      {A : Type 0} {P : A → Type 0} (b : Bool) (m n : Exec S A)
      → (b ≡ true → Finds P m)
      → (b ≡ false → Finds P n)
      → Finds P (if b then m else n)
  Finds-if true m n p q = p refl
  Finds-if false m n p q = q refl

  -- What a `require` that passed has tested.
  pub Finds-require : (c : Bool) (e : Exc) → Finds {S = S} (λ _. c ≡ true) (require c e)
  Finds-require c e = record { at = λ s a t p. require-eq-ok c e s p }

  pub Finds-raise : {A : Type 0} {P : A → Type 0} (e : Exc) → Finds {S = S} P (raise e)
  unfolding raise
  Finds-raise e = record { at = λ s a t p. cc (ap (λ x. x.0) p) }

  pub Finds-weaken :
      {A : Type 0} {P Q : A → Type 0} (m : Exec S A) → Finds P m → ((a : A) → P a → Q a) → Finds Q m
  Finds-weaken m p k = record { at = λ s a t e. k a (p.at s a t e) }

  pub Finds-attempt :
      {A : Type 0} (m : Exec S A) → Finds (λ r. (s : S) × (t : S) × (m s ≡ (r, t))) (attempt m)
  unfolding attempt
  Finds-attempt m = record {
    at = λ s r t e. (s, t, λ i. (ok-injective (ap (λ x. x.0) e) i, (e i).1));
  }
