-- ===== src/Exec/Action.antt =====
-- State and exceptions, with Python's `try` statement.
use inventory_cloud_service.Base.{Bool, String, if◌then◌else◌}
use inventory_cloud_service.Json.{Exc, contract, Result, ok, err}

abbrev pub Exec : Type 0 → Type 0 → Type 0
Exec S A = S → Result A × S

module _ {S A : Type 0} where
  unfoldable pub pure : A → Exec S A
  pure a s = (ok a, s)

  unfoldable pub raise : Exc → Exec S A
  raise e s = (err e, s)

  unfoldable pub lift : Result A → Exec S A
  lift r s = (r, s)

module _ {S A B : Type 0} where
  abbrev pub continue : Result A → (A → Exec S B) → Exec S B
  continue (ok a) f s = f a s
  continue (err e) f s = (err e, s)

  infixl 5 ◌>>=◌ ◌>>◌
  unfoldable pub ◌>>=◌ : Exec S A → (A → Exec S B) → Exec S B
  ◌>>=◌ m f s = let (r, s') = m s in continue r f s'

  abbrev pub ◌>>◌ : Exec S A → Exec S B → Exec S B
  m >> n = m >>= λ _. n

module _ {S : Type 0} where
  -- `if not condition: raise e`
  unfoldable pub require : Bool → Exc → Exec S (Unit {0})
  require c e s = (if c then ok tt else err e, s)

abbrev pub translate : {A : Type 0} → (Exc → Bool) → String → Result A → Result A
translate caught message (ok a) = ok a
translate caught message (err e) = err (if caught e then contract message else e)

abbrev pub after_cleanup : {A : Type 0} → Result A → Result (Unit {0}) → Result A
after_cleanup r (ok _) = r
after_cleanup r (err e) = err e

module _ {S A : Type 0} where
  -- `try: m` with `except caught as exc: raise ContractError(message) from exc`
  unfoldable pub rethrow : (Exc → Bool) → String → Exec S A → Exec S A
  rethrow caught message m s = let (r, s') = m s in (translate caught message r, s')

  -- `try: m` with `finally: cleanup`; an exception of the cleanup takes the place of the result.
  unfoldable pub finally : Exec S A → Exec S (Unit {0}) → Exec S A
  finally m cleanup s = let (r, s') = m s in let (c, s'') = cleanup s' in (after_cleanup r c, s'')

module _ {S : Type 0} where
  unfoldable pub gets : {A : Type 0} → (S → A) → Exec S A
  gets f s = (ok (f s), s)

  unfoldable pub modify : (S → S) → Exec S (Unit {0})
  modify f s = (ok tt, f s)

  -- What the body of a `try` statement gives, for the handlers to look at.
  unfoldable pub attempt : {A : Type 0} → Exec S A → Exec S (Result A)
  attempt m s = let (r, s') = m s in (ok r, s')
