-- ===== src/Drill/Keeps/Calls.antt =====
-- Docker commands, requests and the checks of ownership keep a fixture sound, whether they return or
-- raise.
use text.Mathlib.TextEquality.{starts_with_iff}
use text.Mathlib.TextLemmas.{append_assoc, prefix-append}
use inventory_cloud_service.Base.{
  ◌≡◌, refl, ℕ, String, ◌<>◌, Bool, true, false, not, Option, none, List, [], ◌∷◌, ◌++◌, ◌==◌,
  string_eq, if◌then◌else◌, contains, arith, Bool-cases, ◌⊎◌, inl, inr,
}
use inventory_cloud_service.Json.{Value, runtime, ok, err}
use inventory_cloud_service.Exec.{Exec, pure, lift, continue, ◌>>=◌, require, gets, modify}
use inventory_cloud_service.Exec.Steps.{
  IsPreorder, Steps, Steps-pure, Steps-raise, Steps-lift, Steps-require, Steps-if, Steps-bind,
  Steps-finally, continue-Steps, Steps-gets, Steps-attempt, Steps-elim, Steps-require_known,
  Steps-gets_known, Steps-bind_known, bind-eq-ok, require-bind-eq-ok,
}
use inventory_cloud_service.Drill.World.{
  Bytes, Call, Request, called, requested, slept, Host, Drill, Identity,
}
use inventory_cloud_service.Drill.Defs.{spawn, docker_with, docker_text, sleep, monotonic, send}
use inventory_cloud_service.Drill.Fixture.{
  is_own_name, is_tracked, check_labels, owned, run_arguments, container_name, run_container,
}
use inventory_cloud_service.Drill.Sound.{
  is_proper, IsSound, contains_last, track-IsSound, event-IsSound,
}

pub own_name-append :
    (fixture : Identity) (role : String)
    → is_own_name fixture (fixture.prefix <> "-" <> role) ≡ true
own_name-append fixture role =
    rw (← append_assoc fixture.prefix "-" role)
      ((starts_with_iff _ _).1 (prefix-append (fixture.prefix <> "-") role))

pub ruleset action_rules = (
  Steps-pure, Steps-raise, Steps-lift, Steps-require, Steps-if, Steps-bind, Steps-finally,
  Steps-gets, Steps-attempt,
)

abbrev pub pg_isready : List String
pg_isready = "pg_isready" ∷ "-h" ∷ "127.0.0.1" ∷ "-U" ∷ "inventory" ∷ "-d" ∷ "inventory" ∷ []

module _ (host : Host) (fixture : Identity) where
  abbrev pub Keeping : Drill → Drill → Type 0
  Keeping s t = IsSound fixture s → IsSound fixture t

  abbrev pub Keeps : {A : Type 0} → Exec Drill A → Type 0
  Keeps = Steps Keeping

  pub keeping : IsPreorder Keeping
  keeping = record { refl_at = λ s h. h; trans = λ p q h. q (p h) }

  pub spawn-Keeps :
      (c : Call)
      → ((tracked : List String) → is_proper fixture tracked c.args ≡ true)
      → Keeps (spawn host c)
  unfolding spawn
  spawn-Keeps c p = record { at = λ s h. event-IsSound fixture h (called c) (p s.containers) }

  pub sleep-Keeps : (ms : ℕ) → Keeps (sleep host ms)
  unfolding sleep
  sleep-Keeps ms = record { at = λ s h. event-IsSound fixture h (slept ms) tt }

  pub send-Keeps : (r : Request) → Keeps (send host r)
  unfolding send
  send-Keeps r = record { at = λ s h. event-IsSound fixture h (requested r) tt }

  pub monotonic-Keeps : Keeps (monotonic host)
  unfolding monotonic
  monotonic-Keeps = record { at = λ s h. h }

  pub docker_with-Keeps :
      (args : List String) (input : Option Bytes) (env : List (String × String)) (timeout : ℕ)
      → ((tracked : List String) → is_proper fixture tracked ("docker" ∷ args) ≡ true)
      → Keeps (docker_with host args input env timeout)
  unfolding docker_with
  docker_with-Keeps args input env timeout p =
      search (action_rules, keeping, spawn-Keeps, p) depth 40

  pub docker_text-Keeps :
      (args : List String) (timeout : ℕ)
      → ((tracked : List String) → is_proper fixture tracked ("docker" ∷ args) ≡ true)
      → Keeps (docker_text host args timeout)
  unfolding docker_text
  docker_text-Keeps args timeout p = search (action_rules, keeping, docker_with-Keeps, p) depth 40

  pub check_labels-Keeps :
      (kind name : String) (item : Value) → Keeps (check_labels host fixture kind name item)
  unfolding check_labels
  check_labels-Keeps kind name item = search (action_rules, keeping) depth 40

  pub inspect-proper :
      (kind name : String) (s : Drill)
      → is_own_name fixture name ≡ true
      → is_tracked fixture s kind name ≡ true
      → (tracked : List String)
      → is_proper fixture tracked ("docker" ∷ kind ∷ "inspect" ∷ name ∷ []) ≡ true
  inspect-proper kind name s own known tracked = kind_cases (is_kind kind s known)
    where
      is_kind :
          (k : String) (t : Drill)
          → is_tracked fixture t k name ≡ true
          → (k ≡ "container") ⊎ (k ≡ "network")
      is_kind k t h = elim (Bool-cases (k == "container")) [
        | inl e ↦ inl ((string_eq.equal_iff k "container").0 e)
        | inr e ↦ inr ((string_eq.equal_iff k "network").0 (ground arith))
      ]

      kind_cases :
          (kind ≡ "container") ⊎ (kind ≡ "network")
          → is_proper fixture tracked ("docker" ∷ kind ∷ "inspect" ∷ name ∷ []) ≡ true
      kind_cases (inl e) = rw (e, own) (ground arith)
      kind_cases (inr e) = rw (e, own) (ground arith)

  pub owned-Keeps : (kind name : String) → Keeps (owned host fixture kind name)
  unfolding owned
  owned-Keeps kind name = Steps-require_known keeping _ _ _ λ own. Steps-gets_known keeping _ _ λ s.
      Steps-require_known keeping _ _ _ λ known.
        search
          (
            action_rules,
            keeping,
            docker_with-Keeps,
            inspect-proper kind name s own known,
            check_labels-Keeps,
          )
          depth 40

  pub owned-own :
      (kind name : String) (s : Drill) {item : Value} {t : Drill}
      → owned host fixture kind name s ≡ (ok item, t)
      → is_own_name fixture name ≡ true
  unfolding owned
  owned-own kind name s e = (require-bind-eq-ok (is_own_name fixture name) _ _ s e).0

  -- What follows `owned` may use that the name is one of this run.
  pub owned_bind-Keeps :
      {B : Type 0} (kind name : String) (f : Value → Exec Drill B)
      → ((item : Value) → is_own_name fixture name ≡ true → Keeps (f item))
      → Keeps (owned host fixture kind name >>= f)
  owned_bind-Keeps kind name f k =
      Steps-bind_known keeping (owned host fixture kind name) f (owned-Keeps kind name) own k
    where
      own :
          (s t : Drill) (item : Value)
          → owned host fixture kind name s ≡ (ok item, t)
          → is_own_name fixture name ≡ true
      own s t item e = owned-own kind name s e

  pub docker_bind-IsSound :
      {B : Type 0} (name : String) (args : List String) (input : Option Bytes)
      (env : List (String × String)) (timeout : ℕ) (f : Bytes → Exec Drill B) (s : Drill)
      → ((tracked : List String)
          → contains name tracked ≡ true
          → is_proper fixture tracked ("docker" ∷ args) ≡ true)
      → ((out : Bytes) → Keeps (f out))
      → contains name s.containers ≡ true
      → IsSound fixture s
      → IsSound fixture ((docker_with host args input env timeout >>= f) s).1
  unfolding docker_with spawn ◌>>=◌ lift
  docker_bind-IsSound name args input env timeout f s p k known sound =
      continue-Steps keeping _ f _ k (event-IsSound fixture sound (called _) (p s.containers known))

  pub run_container-Keeps :
      (role image : String) (arguments : List String) (environment : List (String × String))
      → Keeps (run_container host fixture role image arguments environment)
  unfolding run_container ◌>>=◌ gets require modify
  run_container-Keeps role image arguments environment = record {
    at = λ s sound. split_known s sound (contains name s.containers) refl;
  }
    where
      name : String
      name = container_name host fixture role

      split_known :
          (s : Drill)
          → IsSound fixture s
          → (known : Bool) → contains name s.containers ≡ known
          → IsSound fixture
              (continue
                (if not known then ok tt else err (runtime "Duplicate disposable container name"))
                (λ _ t.
                  (docker_with host
                        (run_arguments host fixture name image arguments)
                        none
                        environment
                        90
                      >>= λ _. owned host fixture "container" name >>= λ _. pure name)
                    (record t { containers = t.containers ++ name ∷ [] }))
                s).1
      split_known s sound true e = sound
      split_known s sound false e =
          docker_bind-IsSound name _ none environment 90 _ _ (λ tracked known. ground arith)
            (λ _. search (action_rules, keeping, owned-Keeps) depth 40)
            (contains_last name s.containers)
            (track-IsSound fixture sound name (own_name-append fixture role) e)

  pub exec-proper :
      (name : String) (args : List String)
      → is_own_name fixture name ≡ true
      → (tracked : List String) → is_proper fixture tracked ("docker" ∷ "exec" ∷ name ∷ args) ≡ true
  exec-proper name args own tracked = rw own (ground arith)
