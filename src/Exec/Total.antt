-- ===== src/Exec/Total.antt =====
-- Actions that always return, by a rule for each way to build the action.
use inventory_cloud_service.Base.{◌≡◌, refl, ap, ◌∙◌, Bool, true, false}
use inventory_cloud_service.Json.{Exc, Result, ok}
use inventory_cloud_service.Exec.Action.{Exec, pure, lift, continue, ◌>>=◌, require, gets, attempt}

pub record IsTotal {S A : Type 0} (m : Exec S A) : Type 0 where
  pub at : (s : S) → (a : A) × (t : S) × (m s ≡ (ok a, t))

module _ {S A B : Type 0} where
  -- A block goes on from what its first action has done.
  pub bind-ok :
      (m : Exec S A) (f : A → Exec S B) (s : S) {a : A} {t : S} {r : Result B × S}
      → m s ≡ (ok a, t)
      → f a t ≡ r
      → (m >>= f) s ≡ r
  unfolding ◌>>=◌
  bind-ok m f s first rest = ap (λ r. continue r.0 f r.1) first ∙ rest

  pub IsTotal-bind :
      (m : Exec S A) (f : A → Exec S B) → IsTotal m → ((a : A) → IsTotal (f a)) → IsTotal (m >>= f)
  IsTotal-bind m f p k = record {
    at = λ s.
        let (a, t, first) = p.at s in
        let (b, u, rest) = (k a).at t in (b, u, bind-ok m f s first rest);
  }

module _ {S : Type 0} where
  pub IsTotal-pure : {A : Type 0} (a : A) → IsTotal {S = S} (pure a)
  unfolding pure
  IsTotal-pure a = record { at = λ s. (a, s, refl) }

  pub IsTotal-attempt : {A : Type 0} (m : Exec S A) → IsTotal (attempt m)
  unfolding attempt
  IsTotal-attempt m = record { at = λ s. ((m s).0, (m s).1, refl) }

  -- The first test of a block that passes, and a look at the state, leave the rest of it.
  pub require-then :
      {B : Type 0} (c : Bool) (e : Exc) (f : Unit {0} → Exec S B) (s : S)
      → c ≡ true
      → (require c e >>= f) s ≡ f tt s
  unfolding ◌>>=◌ require
  require-then true e f s p = refl
  require-then false e f s p = cc

  pub gets-then :
      {A B : Type 0} (g : S → A) (f : A → Exec S B) (s : S) → (gets g >>= f) s ≡ f (g s) s
  unfolding ◌>>=◌ gets
  gets-then g f s = refl

  pub lift-then :
      {A B : Type 0} (r : Result A) (f : A → Exec S B) (s : S) {a : A}
      → r ≡ ok a
      → (lift r >>= f) s ≡ f a s
  unfolding ◌>>=◌ lift
  lift-then r f s p = ap (λ x. continue x f s) p
