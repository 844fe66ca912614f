-- ===== src/Json/Data.antt =====
-- Values, and a Python exception as a value.
use inventory_cloud_service.Base.{
  ◌≡◌, refl, String, Bool, true, false, List, [], ◌∷◌, if◌then◌else◌,
}
use inventory_cloud_service.Base.Int.{ℤ, Float}

mutual
  pub data Value : Type 0 where
    null : Value
    bool : Bool → Value
    int : ℤ → Value
    float : Float → Value
    str : String → Value
    list : Items → Value
    dict : Fields → Value

  pub data Items : Type 0 where
    nil : Items
    cons : Value → Items → Items

  -- The entries of a dict in insertion order.
  pub data Fields : Type 0 where
    end : Fields
    field : String → Value → Fields → Fields

-- The exceptions that the scripts raise or catch. `ContractError` and the `RuntimeError`s of
-- `require` carry their message.
pub data Exc : Type 0 where
  contract : String → Exc
  runtime : String → Exc
  key_error type_error value_error index_error attribute_error os_error timeout_expired : Exc
  recursion_error : Exc
  http_error : Exc
  -- No exception of Python: a loop of the model has used up its fuel.
  out_of_fuel : Exc

pub data Result (A : Type 0) : Type 0 where
  err : Exc → Result A
  ok : A → Result A

-- `if not condition: raise e`
abbrev pub guard : Bool → Exc → Result (Unit {0})
guard false e = err e
guard true e = ok tt

module _ {A B : Type 0} where
  infixl 5 ◌>>=◌
  abbrev pub ◌>>=◌ : Result A → (A → Result B) → Result B
  err e >>= next = err e
  ok a >>= next = next a

  -- A block of two steps that succeeds has both steps succeed.
  pub >>=-eq-ok :
      (step : Result A) (next : A → Result B) {b : B}
      → (step >>= next) ≡ ok b
      → (a : A) × (step ≡ ok a) × (next a ≡ ok b)
  >>=-eq-ok (err e) next whole = cc
  >>=-eq-ok (ok a) next whole = (a, refl, whole)

infixl 5 ◌>>◌
abbrev pub ◌>>◌ : {B : Type 0} → Result (Unit {0}) → Result B → Result B
check >> rest = check >>= λ _. rest

-- A block that goes on after a test has passed it.
pub guard-bind-eq-ok :
    {B : Type 0} (c : Bool) (e : Exc) (next : Unit {0} → Result B) {b : B}
    → (guard c e >>= next) ≡ ok b
    → (c ≡ true) × (next tt ≡ ok b)
guard-bind-eq-ok true e next p = (refl, p)
guard-bind-eq-ok false e next p = cc

-- `for x in v` on a list.
abbrev pub elements : Items → List Value
elements nil = []
elements (cons v vs) = v ∷ elements vs

-- The keys of a dict, in order.
abbrev pub keys : Fields → List String
keys end = []
keys (field k v fs) = k ∷ keys fs

-- A dict with an entry at its end: `d[k] = v` for a key that is not in `d`.
abbrev pub snoc : Fields → String → Value → Fields
snoc end k v = field k v end
snoc (field j w fs) k v = field j w (snoc fs k v)

-- `all(test(x) for x in xs)`, which ends at the first that fails.
abbrev pub all_hold : {A : Type 0} → (A → Result Bool) → List A → Result Bool
all_hold test [] = ok true
all_hold test (x ∷ xs) = let rest = all_hold test xs in test x >>= λ b. if b then rest else ok false
