-- ===== src/Json/Ensures.antt =====
-- What holds of the value of a block, if it has one, by a rule for each way to build the block.
use inventory_cloud_service.Base.{◌≡◌, refl, Bool, true, false, List, [], ◌∷◌, All, if◌then◌else◌}
use inventory_cloud_service.Json.Data.{Exc, Result, ok, all_hold, ◌>>=◌, >>=-eq-ok, guard}

-- What holds of the value, if there is one.
pub record Ensures {A : Type 0} (P : A → Type 0) (r : Result A) : Type 0 where
  pub at : (a : A) → r ≡ ok a → P a

pub Ensures-bind :
    {A B : Type 0} {P : B → Type 0} (r : Result A) (f : A → Result B)
    → ((a : A) → Ensures P (f a))
    → Ensures P (r >>= f)
Ensures-bind r f p = record { at = λ b e. let (a, _, rest) = >>=-eq-ok r f e in (p a).at b rest }

pub guard-eq-ok : (c : Bool) (e : Exc) {u : Unit {0}} → guard c e ≡ ok u → c ≡ true
guard-eq-ok true e h = refl
guard-eq-ok false e h = cc

pub ok-injective : {A : Type 0} {a b : A} → ok a ≡ ok b → a ≡ b
ok-injective e = cc

all_hold-∷ :
    {A : Type 0} (test : A → Result Bool) (x : A) (b : Bool) (rest : Result Bool)
    → (if b then rest else ok false) ≡ ok true
    → test x ≡ ok b
    → (test x ≡ ok true) × (rest ≡ ok true)
all_hold-∷ test x true rest e here = (here, e)
all_hold-∷ test x false rest e here = cc

pub all_hold-All :
    {A : Type 0} (test : A → Result Bool) (xs : List A)
    → all_hold test xs ≡ ok true
    → All (λ x. test x ≡ ok true) xs
all_hold-All test [] e = tt
all_hold-All test (x ∷ xs) e =
    let (b, here, rest) = >>=-eq-ok (test x) _ e in
    let (holds, others) = all_hold-∷ test x b (all_hold test xs) rest here in
    (holds, all_hold-All test xs others)
