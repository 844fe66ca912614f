-- ===== src/Exec/Steps.antt =====
-- A preorder on states that an action follows from its first state to its last, whether it returns
-- or raises: one rule for each way to build an action. And what holds of a successful `do` block.
use mathlib.Core.Path.{subst}
use inventory_cloud_service.Base.{◌≡◌, refl, sym, ap, Bool, true, false, String, if◌then◌else◌}
use inventory_cloud_service.Json.{Exc, Result, ok, err}
use inventory_cloud_service.Exec.Action.{
  Exec, pure, raise, lift, continue, translate, after_cleanup, ◌>>=◌, require, rethrow, finally,
  gets, attempt,
}

pub record IsPreorder {S : Type 0} (R : S → S → Type 0) : Type 0 where
  pub refl_at : (s : S) → R s s
  pub trans : {s t u : S} → R s t → R t u → R s u

-- Every run of `m` follows `R`.
pub record Steps {S A : Type 0} (R : S → S → Type 0) (m : Exec S A) : Type 0 where
  pub at : (s : S) → R s (m s).1

module _ {S : Type 0} {R : S → S → Type 0} (o : IsPreorder R) where
  pub Steps-pure : {A : Type 0} (a : A) → Steps R (pure a)
  unfolding pure
  Steps-pure a = record { at = λ s. o.refl_at s }

  pub Steps-raise : {A : Type 0} (e : Exc) → Steps R (raise {A = A} e)
  unfolding raise
  Steps-raise e = record { at = λ s. o.refl_at s }

  pub Steps-lift : {A : Type 0} (r : Result A) → Steps R (lift r)
  unfolding lift
  Steps-lift r = record { at = λ s. o.refl_at s }

  pub Steps-require : (c : Bool) (e : Exc) → Steps R (require c e)
  unfolding require
  Steps-require c e = record { at = λ s. o.refl_at s }

  pub Steps-if :
      {A : Type 0} (b : Bool) (m n : Exec S A)
      → Steps R m
      → Steps R n
      → Steps R (if b then m else n)
  Steps-if true m n p q = p
  Steps-if false m n p q = q

  pub continue-Steps :
      {A B : Type 0} (r : Result A) (f : A → Exec S B) (s : S)
      → ((a : A) → Steps R (f a))
      → R s (continue r f s).1
  continue-Steps (ok a) f s k = (k a).at s
  continue-Steps (err e) f s k = o.refl_at s

  pub Steps-bind :
      {A B : Type 0} (m : Exec S A) (f : A → Exec S B)
      → Steps R m
      → ((a : A) → Steps R (f a))
      → Steps R (m >>= f)
  unfolding ◌>>=◌
  Steps-bind m f p k = record {
    at = λ s. let (r, s') = m s in o.trans (p.at s) (continue-Steps r f s' k);
  }

  pub Steps-rethrow :
      {A : Type 0} (caught : Exc → Bool) (message : String) (m : Exec S A)
      → Steps R m
      → Steps R (rethrow caught message m)
  unfolding rethrow
  Steps-rethrow caught message m p = record { at = λ s. p.at s }

  pub Steps-finally :
      {A : Type 0} (m : Exec S A) (cleanup : Exec S (Unit {0}))
      → Steps R m
      → Steps R cleanup
      → Steps R (finally m cleanup)
  unfolding finally
  Steps-finally m cleanup p q = record { at = λ s. let (r, s') = m s in o.trans (p.at s) (q.at s') }

-- The first branch of a test may use it.
pub Steps-if_known :
    {S A : Type 0} {R : S → S → Type 0} (b : Bool) (m n : Exec S A)
    → (b ≡ true → Steps R m)
    → Steps R n
    → Steps R (if b then m else n)
Steps-if_known true m n p q = p refl
Steps-if_known false m n p q = q

module _ {S : Type 0} {R : S → S → Type 0} (o : IsPreorder R) where
  pub Steps-gets : {A : Type 0} (f : S → A) → Steps R (gets f)
  unfolding gets
  Steps-gets f = record { at = λ s. o.refl_at s }

  pub Steps-elim :
      {A : Type 0} (b : Bool) (m n : Exec S A)
      → Steps R m
      → Steps R n
      → Steps R (elim b [ true ↦ m | false ↦ n ])
  Steps-elim true m n p q = p
  Steps-elim false m n p q = q

  pub Steps-attempt : {A : Type 0} (m : Exec S A) → Steps R m → Steps R (attempt m)
  unfolding attempt
  Steps-attempt m p = record { at = λ s. p.at s }

  -- What follows a test may use it, and what follows a look at the state may use that it is one.
  pub Steps-require_known :
      {B : Type 0} (c : Bool) (e : Exc) (f : Unit {0} → Exec S B)
      → (c ≡ true → Steps R (f tt))
      → Steps R (require c e >>= f)
  unfolding ◌>>=◌ require
  Steps-require_known true e f k = record { at = λ s. (k refl).at s }
  Steps-require_known false e f k = record { at = λ s. o.refl_at s }

  pub Steps-gets_known :
      {A B : Type 0} (f : S → A) (g : A → Exec S B)
      → ((s : S) → Steps R (g (f s)))
      → Steps R (gets f >>= g)
  unfolding ◌>>=◌ gets
  Steps-gets_known f g k = record { at = λ s. (k s).at s }

  -- What follows an action may use what the action has found out.
  pub Steps-bind_known :
      {A B K : Type 0} (m : Exec S A) (f : A → Exec S B)
      → Steps R m
      → ((s t : S) (a : A) → m s ≡ (ok a, t) → K)
      → ((a : A) → K → Steps R (f a))
      → Steps R (m >>= f)
  unfolding ◌>>=◌
  Steps-bind_known {A} {B} {K} m f p know k = record {
    at = λ s. let (r, t) = m s in o.trans (p.at s) (split_run s r t refl);
  }
    where
      split_run : (s : S) (r : Result A) (t : S) → m s ≡ (r, t) → R t (continue r f t).1
      split_run s (ok a) t e = (k a (know s t a e)).at t
      split_run s (err x) t e = o.refl_at t

translate-eq-ok :
    {A : Type 0} (caught : Exc → Bool) (message : String) (r : Result A) {a : A}
    → translate caught message r ≡ ok a
    → r ≡ ok a
translate-eq-ok caught message (ok b) e = e
translate-eq-ok caught message (err x) e = cc

after_cleanup-eq-ok :
    {A : Type 0} (r : Result A) (c : Result (Unit {0})) {a : A}
    → after_cleanup r c ≡ ok a
    → (r ≡ ok a) × (c ≡ ok tt)
after_cleanup-eq-ok r (ok d) e = (e, refl)
after_cleanup-eq-ok r (err x) e = cc

-- Inversion of a successful bind.
module _ {S : Type 0} where
  pub bind-eq-ok :
      {A B : Type 0} (m : Exec S A) (f : A → Exec S B) (s : S) {b : B} {u : S}
      → (m >>= f) s ≡ (ok b, u)
      → (a : A) × (t : S) × (m s ≡ (ok a, t)) × (f a t ≡ (ok b, u))
  unfolding ◌>>=◌
  bind-eq-ok {A} {B} m f s {b} {u} e = split_run (m s) refl e
    where
      split_run :
          (r : Result A × S)
          → m s ≡ r
          → continue r.0 f r.1 ≡ (ok b, u)
          → (a : A) × (t : S) × (m s ≡ (ok a, t)) × (f a t ≡ (ok b, u))
      split_run (ok a, t) first rest = (a, t, first, rest)
      split_run (err x, t) first rest = cc

  -- A block whose first action returns goes on from the state that it leaves.
  pub bind-follows :
      {A B : Type 0} {R : S → S → Type 0} (m : Exec S A) (f : A → Exec S B) (s : S) {a : A} {t : S}
      → m s ≡ (ok a, t)
      → Steps R (f a)
      → R t ((m >>= f) s).1
  unfolding ◌>>=◌
  bind-follows {R = R} m f s {t = t} e p = subst (λ r. R t (continue r.0 f r.1).1) (sym e) (p.at t)

  -- A block stops at the first action that raises.
  pub bind-eq-err :
      {A B : Type 0} (m : Exec S A) (f : A → Exec S B) (s : S) {x : Exc} {u : S}
      → m s ≡ (err x, u)
      → (m >>= f) s ≡ (err x, u)
  unfolding ◌>>=◌
  bind-eq-err m f s e = ap (λ p. continue p.0 f p.1) e

  -- What is known once `lift r` and what follows it have succeeded; so for `require`.
  pub lift-eq-ok :
      {A B : Type 0} (r : Result A) (f : A → Exec S B) (s : S) {b : B} {u : S}
      → (lift r >>= f) s ≡ (ok b, u)
      → (a : A) × (r ≡ ok a) × (f a s ≡ (ok b, u))
  unfolding ◌>>=◌ lift
  lift-eq-ok (ok a) f s e = (a, refl, e)
  lift-eq-ok (err x) f s e = cc

  pub require-bind-eq-ok :
      {B : Type 0} (c : Bool) (x : Exc) (f : Unit {0} → Exec S B) (s : S) {b : B} {u : S}
      → (require c x >>= f) s ≡ (ok b, u)
      → (c ≡ true) × (f tt s ≡ (ok b, u))
  unfolding ◌>>=◌ require
  require-bind-eq-ok true x f s e = (refl, e)
  require-bind-eq-ok false x f s e = cc

  pub require-eq-ok :
      (c : Bool) (x : Exc) (s : S) {b : Unit {0}} {u : S} → require c x s ≡ (ok b, u) → c ≡ true
  unfolding require
  require-eq-ok true x s e = refl
  require-eq-ok false x s e = cc

  -- A `try` that succeeds is one whose body does.
  pub rethrow-eq-ok :
      {A : Type 0} (caught : Exc → Bool) (message : String) (m : Exec S A) (s : S) {a : A} {u : S}
      → rethrow caught message m s ≡ (ok a, u)
      → m s ≡ (ok a, u)
  unfolding rethrow
  rethrow-eq-ok caught message m s e =
      let done = translate-eq-ok caught message (m s).0 (ap (λ r. r.0) e) in λ i. (done i, (e i).1)

  -- A `try` with `finally` succeeds only where both the body and the cleanup do.
  pub finally-eq-ok :
      {A : Type 0} (m : Exec S A) (cleanup : Exec S (Unit {0})) (s : S) {a : A} {u : S}
      → finally m cleanup s ≡ (ok a, u)
      → (t : S) × (m s ≡ (ok a, t)) × (cleanup t ≡ (ok tt, u))
  unfolding finally
  finally-eq-ok m cleanup s e =
      let t = (m s).1 in
      let (done, cleaned) = after_cleanup-eq-ok (m s).0 (cleanup t).0 (ap (λ r. r.0) e) in
      (t, (λ i. (done i, t)), λ i. (cleaned i, (e i).1))

pub pure-eq-ok : {S A : Type 0} (a : A) (s : S) {b : A} {t : S} → pure a s ≡ (ok b, t) → b ≡ a
unfolding pure
pure-eq-ok a s e = cc (ap (λ r. r.0) e)
