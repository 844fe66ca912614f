-- ===== src/Image/Owned.antt =====
-- `_remove_owned_container` removes a container only on proof that this run owns it.
use inventory_cloud_service.Base.{
  Option, none, some, ◌≡◌, refl, sym, ap, ◌∙◌, ◌⊎◌, inl, inr, String, ◌<>◌, true, List, [], ◌∷◌,
  arith, ◌==◌, nat_eq, string_eq,
}
use inventory_cloud_service.Base.Int.{pos, int_eq}
use inventory_cloud_service.Base.Text.{split}
use inventory_cloud_service.Json.{
  Value, null, bool, int, float, str, list, dict, nil, cons, Result, ok, err, subscript, get, first,
  size, is_text,
}
use inventory_cloud_service.Exec.{
  ◌>>=◌, continue, pure, raise, Completion, unavailable, timed_out, undecodable, rethrow, Env,
  completed, ran, History, Host,
}
use inventory_cloud_service.Exec.Steps.{
  Steps, IsPreorder, Steps-pure, Steps-lift, Steps-require, Steps-bind, continue-Steps, bind-eq-ok,
  lift-eq-ok, require-bind-eq-ok, require-eq-ok, rethrow-eq-ok,
}
use inventory_cloud_service.Image.Defs.{
  list_command, inspect_command, remove_command, ownership_label, check_owned, run_checked, loads,
  outcome, or_value_error, prove_owned, remove_listed, remove_identified, remove_owned_container,
}

pub is_text→str : (v : Value) (s : String) → is_text v s ≡ true → v ≡ str s
is_text→str (str t) s h = ap str ((string_eq.equal_iff t s).0 h)
is_text→str null s h = cc
is_text→str (bool b) s h = cc
is_text→str (float f) s h = cc
is_text→str (int z) s h = cc
is_text→str (list vs) s h = cc
is_text→str (dict fs) s h = cc

-- A list with one element, where the first has a field: not a text of one character.
pub single_of :
    (v c d : Value) (k : String)
    → first v ≡ ok c
    → size v ≡ ok 1
    → subscript c k ≡ ok d
    → v ≡ list (cons c nil)
single_of (list nil) c d k f s n = cc
single_of (list (cons x nil)) c d k f s n = cc
single_of (list (cons x (cons y vs))) c d k f s n = absurd (ground arith)
single_of (str String.[]) c d k f s n = cc
single_of (str (String.◌∷◌ x t)) c d k f s n =
    let same : c ≡ str (String.◌∷◌ x String.[]) = cc in cc (rw same at n)
single_of (dict fs) c d k f s n = cc
single_of null c d k f s n = cc
single_of (bool b) c d k f s n = cc
single_of (int z) c d k f s n = cc
single_of (float x) c d k f s n = cc

-- A checked command that succeeds has run, and exited with the status 0.
pub outcome-eq-ok : (c : Completion) (out : String) → outcome c ≡ ok out → c ≡ completed (pos 0) out
outcome-eq-ok unavailable out e = cc
outcome-eq-ok timed_out out e = cc
outcome-eq-ok undecodable out e = cc
outcome-eq-ok (completed code text) out e = ground (arith, int_eq.equal_iff code (pos 0))

pub or_value_error-eq-ok : (o : Option Value) (v : Value) → or_value_error o ≡ ok v → o ≡ some v
or_value_error-eq-ok none v e = cc
or_value_error-eq-ok (some w) v e = cc

module _ (name ownership image_id : String) where
  -- One container, with the name, the ownership label and the image of this run.
  pub record IsOwned (containers : Value) : Type 0 where
    pub container : Value
    pub config : Value
    pub labels : Value
    pub single : containers ≡ list (cons container nil)
    pub named : subscript container "Name" ≡ ok (str ("/" <> name))
    pub configured : subscript container "Config" ≡ ok config
    pub labelled : subscript config "Labels" ≡ ok labels
    pub owned : get labels ownership_label null ≡ ok (str ownership)
    pub imaged : get container "Image" null ≡ ok (str image_id)

  check_owned-IsOwned :
      (v : Value) (h : History) {u : History}
      → check_owned name ownership image_id v h ≡ (ok tt, u)
      → IsOwned v
  unfolding check_owned
  check_owned-IsOwned v h e =
      let (c, first_e, r₁) = lift-eq-ok (first v) _ h e in
      let (count, size_e, r₂) = lift-eq-ok (size v) _ h r₁ in
      let (one, r₃) = require-bind-eq-ok (count == 1) _ _ h r₂ in
      let (found, name_e, r₄) = lift-eq-ok (subscript c "Name") _ h r₃ in
      let (named, r₅) = require-bind-eq-ok (is_text found ("/" <> name)) _ _ h r₄ in
      let (config, config_e, r₆) = lift-eq-ok (subscript c "Config") _ h r₅ in
      let (labels, labels_e, r₇) = lift-eq-ok (subscript config "Labels") _ h r₆ in
      let (label, label_e, r₈) = lift-eq-ok (get labels ownership_label null) _ h r₇ in
      let (owned, r₉) = require-bind-eq-ok (is_text label ownership) _ _ h r₈ in
      let (image, image_e, r₁₀) = lift-eq-ok (get c "Image" null) _ h r₉ in
      let imaged = require-eq-ok (is_text image image_id) _ h r₁₀ in
      record {
        container = c;
        config = config;
        labels = labels;
        single =
            single_of v c found "Name" first_e (size_e ∙ ap ok ((nat_eq.equal_iff count 1).0 one))
              name_e;
        named = name_e ∙ ap ok (is_text→str found ("/" <> name) named);
        configured = config_e;
        labelled = labels_e;
        owned = label_e ∙ ap ok (is_text→str label ownership owned);
        imaged = image_e ∙ ap ok (is_text→str image image_id imaged);
      }

  -- Looking at a value is no event.
  Unchanged-preorder : IsPreorder (λ (s t : History). t ≡ s)
  Unchanged-preorder = record { refl_at = λ s. refl; trans = λ p q. q ∙ p }

  check_owned-Unchanged : (v : Value) → Steps (λ s t. t ≡ s) (check_owned name ownership image_id v)
  unfolding check_owned
  check_owned-Unchanged v =
      search (Steps-lift, Steps-require, Steps-bind, Unchanged-preorder) depth 40

  loads-Unchanged : (host : Host) (s : String) → Steps (λ s t. t ≡ s) (loads host s)
  unfolding loads
  loads-Unchanged host s = record { at = λ h. refl }

  module _ (host : Host) (env : Env) (h : History) where
    abbrev inspected : History
    inspected = ran (inspect_command name env) ∷ h

    -- The answer to the inspection proves that this run owns the container.
    pub record Proven : Type 0 where
      pub output : String
      pub containers : Value
      pub answered : host.complete h (inspect_command name env) ≡ completed (pos 0) output
      pub decoded : host.loads output ≡ some containers
      pub is_owned : IsOwned containers

    prove_owned-Proven :
        {u : History} → prove_owned host name ownership image_id env h ≡ (ok tt, u) → Proven
    unfolding prove_owned run_checked loads
    prove_owned-Proven e =
        let tried = rethrow-eq-ok _ _ _ h e in
        let (out, h₁, ran_e, r₁) =
          bind-eq-ok (run_checked host (inspect_command name env)) _ h tried in
        let (v, h₂, loads_e, r₂) = bind-eq-ok (loads host out) _ h₁ r₁ in
        record {
          output = out;
          containers = v;
          answered = outcome-eq-ok _ out (ap (λ r. r.0) ran_e);
          decoded = or_value_error-eq-ok _ v (ap (λ r. r.0) loads_e);
          is_owned = check_owned-IsOwned v h₂ r₂;
        }

    prove_owned-inspected : (prove_owned host name ownership image_id env h).1 ≡ inspected
    unfolding prove_owned run_checked rethrow ◌>>=◌
    prove_owned-inspected =
        continue-Steps Unchanged-preorder (outcome (host.complete h (inspect_command name env))) _ _
          (λ out.
            Steps-bind Unchanged-preorder _ _ (loads-Unchanged host out) check_owned-Unchanged)

    -- `remove_listed` inspects, and then removes if the inspection has proved the ownership.
    abbrev Removal : History → Type 0
    Removal u = (u ≡ inspected) ⊎ ((u ≡ ran (remove_command name env) ∷ inspected) × Proven)

    removed :
        (p : Result (Unit {0}) × History)
        → p ≡ prove_owned host name ownership image_id env h
        → Removal
            (continue p.0 (λ _. run_checked host (remove_command name env) >>= λ _. pure tt) p.1).1
    unfolding ◌>>=◌ run_checked
    removed (ok _, t) e = inr (
      continue-Steps Unchanged-preorder (outcome (host.complete t (remove_command name env))) _ _
            (λ _. Steps-pure Unchanged-preorder tt)
          ∙ ap (λ u. ran (remove_command name env) ∷ u) (ap (λ r. r.1) e ∙ prove_owned-inspected),
      prove_owned-Proven (sym e),
    )
    removed (err x, t) e = inl (ap (λ r. r.1) e ∙ prove_owned-inspected)

    remove_listed-Removal : Removal (remove_listed host name ownership image_id env h).1
    unfolding remove_listed ◌>>=◌
    remove_listed-Removal = removed (prove_owned host name ownership image_id env h) refl

    identified-Done :
        (ids : List String)
        → let u = (remove_identified host name ownership image_id env ids h).1 in
          (u ≡ h) ⊎ Removal u
    unfolding remove_identified pure raise
    identified-Done [] = inl refl
    identified-Done (i ∷ []) = inr remove_listed-Removal
    identified-Done (i ∷ j ∷ ids) = inl refl

    answered-Done :
        (r : Result String)
        → let u =
            (continue r
              (λ out. remove_identified host name ownership image_id env (split out))
              h).1 in
          (u ≡ h) ⊎ Removal u
    answered-Done (ok out) = identified-Done (split out)
    answered-Done (err x) = inl refl

  -- What the cleanup of one extraction can do, whatever Docker answers. It lists the containers with
  -- its name, and then does no more, or inspects the container, and then does no more, or removes it
  -- without force. In the last case the answer to the inspection was one container with this name,
  -- this ownership label and this image.
  pub remove_owned_container-proven :
      (host : Host) (env : Env) (h : History)
      → let listed = ran (list_command name env) ∷ h in
        let u = (remove_owned_container host name ownership image_id env h).1 in
        (u ≡ listed)
        ⊎ (u ≡ ran (inspect_command name env) ∷ listed)
        ⊎ ((u ≡ ran (remove_command name env) ∷ ran (inspect_command name env) ∷ listed)
            × Proven host env listed)
  unfolding remove_owned_container run_checked ◌>>=◌
  remove_owned_container-proven host env h =
      answered-Done host env (ran (list_command name env) ∷ h)
        (outcome (host.complete h (list_command name env)))
