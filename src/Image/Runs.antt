-- ===== src/Image/Runs.antt =====
-- What is known once a block of commands has succeeded.
use mathlib.Core.Path.{subst}
use inventory_cloud_service.Base.{◌≡◌, refl, sym, ap, ℕ, String, List, ◌∷◌, Option, none, some}
use inventory_cloud_service.Base.Int.{pos}
use inventory_cloud_service.Json.{Value, Result, ok, err}
use inventory_cloud_service.Exec.{
  Exec, pure, ◌>>=◌, continue, lift, Command, completed, ran, made_directory, removed_directory,
  read_file, History, Host,
}
use inventory_cloud_service.Exec.Steps.{Steps}
use inventory_cloud_service.Image.Owned.{outcome-eq-ok}
use inventory_cloud_service.Image.Defs.{
  outcome, or_value_error, run_checked, loads, with_directory, content, read_contract,
}

pub ok-injective : {A : Type 0} {a b : A} → ok a ≡ ok b → a ≡ b
ok-injective e = cc

pub returned :
    {A : Type 0} (a : A) (h : History) {b : A} {u : History} → pure a h ≡ (ok b, u) → b ≡ a
unfolding pure
returned a h e = sym (ok-injective (ap (λ x. x.0) e))

pub lifted :
    {A : Type 0} (r : Result A) (h : History) {a : A} {u : History}
    → lift r h ≡ (ok a, u)
    → r ≡ ok a
unfolding lift
lifted r h e = ap (λ x. x.0) e

-- A run that has ended follows what all runs follow.
pub followed :
    {A : Type 0} {R : History → History → Type 0} (m : Exec History A) (h : History) {r : Result A}
    {u : History}
    → m h ≡ (r, u)
    → Steps R m
    → R h u
followed {R = R} m h e p = subst (R h) (ap (λ x. x.1) e) (p.at h)

module _ (host : Host) where
  -- The command has run at this point and exited with the status 0.
  abbrev pub Answered : History → Command → Type 0
  Answered h c = (out : String) × (host.complete h c ≡ completed (pos 0) out)

  -- What is known once a checked command and what follows it have succeeded.
  pub run-bind-eq-ok :
      {B : Type 0} (c : Command) (f : String → Exec History B) (h : History) {b : B} {u : History}
      → (run_checked host c >>= f) h ≡ (ok b, u)
      → (out : String) × (host.complete h c ≡ completed (pos 0) out)
        × (f out (ran c ∷ h) ≡ (ok b, u))
  unfolding run_checked ◌>>=◌
  run-bind-eq-ok {B} c f h {b} {u} e = split_outcome (outcome (host.complete h c)) refl e
    where
      split_outcome :
          (r : Result String)
          → outcome (host.complete h c) ≡ r
          → continue r f (ran c ∷ h) ≡ (ok b, u)
          → (out : String) × (host.complete h c ≡ completed (pos 0) out)
            × (f out (ran c ∷ h) ≡ (ok b, u))
      split_outcome (ok out) p r = (out, outcome-eq-ok (host.complete h c) out p, r)
      split_outcome (err x) p r = cc

  -- The same for `json.loads`, which is no event.
  pub loads-bind-eq-ok :
      {B : Type 0} (s : String) (f : Value → Exec History B) (h : History) {b : B} {u : History}
      → (loads host s >>= f) h ≡ (ok b, u)
      → (v : Value) × (host.loads s ≡ some v) × (f v h ≡ (ok b, u))
  unfolding loads ◌>>=◌
  loads-bind-eq-ok {B} s f h {b} {u} e = split_loaded (host.loads s) refl e
    where
      split_loaded :
          (o : Option Value)
          → host.loads s ≡ o
          → continue (or_value_error o) f h ≡ (ok b, u)
          → (v : Value) × (host.loads s ≡ some v) × (f v h ≡ (ok b, u))
      split_loaded none p r = cc
      split_loaded (some v) p r = (v, p, r)

  pub with_directory-eq-ok :
      {A : Type 0} (prefix : String) (body : String → Exec History A) (h : History) {a : A}
      {u : History}
      → with_directory host prefix body h ≡ (ok a, u)
      → (path : String) × (t : History) × (body path (made_directory path ∷ h) ≡ (ok a, t))
        × (removed_directory path ∷ t ≡ u)
  unfolding with_directory
  with_directory-eq-ok prefix body h e =
      let path = host.directory h prefix in
      let t = (body path (made_directory path ∷ h)).1 in
      (path, t, (λ i. ((e i).0, t)), ap (λ x. x.1) e)

  -- Reading the copied file looks at it at this point.
  pub read-bind-eq-ok :
      {B : Type 0} (path : String) (f : List ℕ → Exec History B) (h : History) {b : B} {u : History}
      → (read_contract host path >>= f) h ≡ (ok b, u)
      → (raw : List ℕ) × (content host (host.file h path) ≡ ok raw)
        × (f raw (read_file path ∷ h) ≡ (ok b, u))
  unfolding read_contract ◌>>=◌
  read-bind-eq-ok {B} path f h {b} {u} e = split_content (content host (host.file h path)) refl e
    where
      split_content :
          (r : Result (List ℕ))
          → content host (host.file h path) ≡ r
          → continue r f (read_file path ∷ h) ≡ (ok b, u)
          → (raw : List ℕ) × (content host (host.file h path) ≡ ok raw)
            × (f raw (read_file path ∷ h) ≡ (ok b, u))
      split_content (ok raw) p r = (raw, p, r)
      split_content (err x) p r = cc
