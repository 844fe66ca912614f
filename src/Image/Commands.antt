-- ===== src/Image/Commands.antt =====
-- Which commands the inspection gives to Docker: none of them starts a process of the image.
use inventory_cloud_service.Base.{
  arith, ◌≡◌, String, Bool, true, false, ◌&&◌, ◌||◌, List, [], ◌∷◌, Option, ◌==◌, string_eq,
}
use inventory_cloud_service.Json.{Value}
use inventory_cloud_service.Exec.{Exec, Env, Command, Event, ran, History, Host}
use inventory_cloud_service.Exec.Steps.{
  IsPreorder, Steps, Steps-pure, Steps-raise, Steps-lift, Steps-require, Steps-if, Steps-bind,
  Steps-rethrow, Steps-finally,
}
use inventory_cloud_service.Image.Defs.{
  create_command, check_owned, run_checked, loads, prove_owned, remove_listed, remove_identified,
  remove_owned_container, inspection, new_ownership, with_directory, read_contract, extract_copied,
  extract_contract, inspect_local_contract, inspect_registry_contract,
}

-- The option stands among the arguments, with this value behind it.
abbrev pub has_option : String → String → List String → Bool
has_option name value [] = false
has_option name value (a ∷ []) = false
has_option name value (a ∷ b ∷ args) = (a == name && b == value) || has_option name value (b ∷ args)

abbrev inspects_containers : List String → Bool
inspects_containers [] = false
inspects_containers (verb ∷ args) = verb == "ls" || verb == "inspect"

abbrev inspects : List String → Bool
inspects [] = false
inspects (verb ∷ args) = verb == "inspect"

abbrev is_single : List String → Bool
is_single (name ∷ []) = true
is_single _ = false

-- A Docker command that starts nothing: it lists or inspects containers, inspects an image, pulls,
-- copies, or removes one container with no option such as --force beside its name, or it creates a
-- container that has no network and whose entrypoint is /bin/true.
abbrev pub starts_nothing : List String → Bool
starts_nothing (program ∷ verb ∷ args) =
    program == "docker"
    && ((verb == "image" && inspects args)
        || verb == "pull"
        || verb == "cp"
        || (verb == "rm" && is_single args)
        || (verb == "container" && inspects_containers args)
        || (verb == "create"
            && has_option "--network" "none" args
            && has_option "--entrypoint" "/bin/true" args))
starts_nothing _ = false

abbrev pub IsPassive : Event → Type 0
IsPassive (ran c) = starts_nothing c.args ≡ true
IsPassive _ = Unit

create-starts_nothing :
    (name ownership platform image_id : String) (env : Env)
    → starts_nothing (create_command name ownership platform image_id env).args ≡ true
create-starts_nothing name ownership platform image_id env = ground arith

-- The history has grown by events with `P`.
pub data Extends (P : Event → Type 0) (h : History) : History → Type 0 where
  same : Extends P h h
  more : {g : History} {e : Event} → Extends P h g → P e → Extends P h (e ∷ g)

pub Extends-trans :
    {P : Event → Type 0} {f g h : History} → Extends P f g → Extends P g h → Extends P f h
Extends-trans p same = p
Extends-trans p (more q e) = more (Extends-trans p q) e

pub Extends-preorder : {P : Event → Type 0} → IsPreorder (Extends P)
Extends-preorder = record { refl_at = λ h. same; trans = Extends-trans }

abbrev Passive : {A : Type 0} → Exec History A → Type 0
Passive = Steps (Extends IsPassive)

ruleset passive_rules = (
  Steps-pure, Steps-raise, Steps-lift, Steps-require, Steps-if, Steps-bind, Steps-rethrow,
  Steps-finally, Extends-preorder,
)

check_owned-Passive :
    (name ownership image_id : String) (containers : Value)
    → Passive (check_owned name ownership image_id containers)
unfolding check_owned
check_owned-Passive name ownership image_id containers = search passive_rules depth 40

module _ (host : Host) where
  run_checked-Passive : (c : Command) → starts_nothing c.args ≡ true → Passive (run_checked host c)
  unfolding run_checked
  run_checked-Passive c p = record { at = λ h. more same p }

  loads-Passive : (s : String) → Passive (loads host s)
  unfolding loads
  loads-Passive s = record { at = λ h. same }

  pub new_ownership-Passive : Passive (new_ownership host)
  unfolding new_ownership
  new_ownership-Passive = record { at = λ h. more same tt }

  read_contract-Passive : (path : String) → Passive (read_contract host path)
  unfolding read_contract
  read_contract-Passive path = record { at = λ h. more same tt }

  with_directory-Passive :
      {A : Type 0} (prefix : String) (body : String → Exec History A)
      → ((path : String) → Passive (body path))
      → Passive (with_directory host prefix body)
  unfolding with_directory
  with_directory-Passive prefix body p = record {
    at = λ h. more (Extends-trans (more same tt) ((p (host.directory h prefix)).at _)) tt;
  }

  prove_owned-Passive :
      (name ownership image_id : String) (env : Env)
      → Passive (prove_owned host name ownership image_id env)
  unfolding prove_owned
  prove_owned-Passive name ownership image_id env =
      search (passive_rules, run_checked-Passive, loads-Passive, check_owned-Passive) depth 40

  remove_listed-Passive :
      (name ownership image_id : String) (env : Env)
      → Passive (remove_listed host name ownership image_id env)
  unfolding remove_listed
  remove_listed-Passive name ownership image_id env =
      search (passive_rules, run_checked-Passive, prove_owned-Passive) depth 40

  remove_identified-Passive :
      (name ownership image_id : String) (env : Env) (ids : List String)
      → Passive (remove_identified host name ownership image_id env ids)
  unfolding remove_identified
  remove_identified-Passive name ownership image_id env [] = search passive_rules
  remove_identified-Passive name ownership image_id env (i ∷ []) =
      remove_listed-Passive name ownership image_id env
  remove_identified-Passive name ownership image_id env (i ∷ j ∷ ids) = search passive_rules

  pub remove_owned_container-Passive :
      (name ownership image_id : String) (env : Env)
      → Passive (remove_owned_container host name ownership image_id env)
  unfolding remove_owned_container
  remove_owned_container-Passive name ownership image_id env =
      search (passive_rules, run_checked-Passive, remove_identified-Passive) depth 40

  pub inspection-Passive :
      (reference platform : String) (env : Env) → Passive (inspection host reference platform env)
  unfolding inspection
  inspection-Passive reference platform env =
      search (passive_rules, run_checked-Passive, loads-Passive) depth 40

  extract_copied-Passive :
      (name ownership image_id platform : String) (env : Env) (output : String)
      → Passive (extract_copied host name ownership image_id platform env output)
  unfolding extract_copied
  extract_copied-Passive name ownership image_id platform env output =
      search (passive_rules, run_checked-Passive, create-starts_nothing, read_contract-Passive)
        depth 40

  extract_contract-Passive :
      (image_id platform : String) (env : Env)
      → Passive (extract_contract host image_id platform env)
  unfolding extract_contract
  extract_contract-Passive image_id platform env =
      search
        (
          passive_rules, new_ownership-Passive, with_directory-Passive, extract_copied-Passive,
          remove_owned_container-Passive,
        )
        depth 40

  inspect_local-Passive :
      (image_id platform : String) (env : Option Env)
      → Passive (inspect_local_contract host image_id platform env)
  unfolding inspect_local_contract
  inspect_local-Passive image_id platform env =
      search (passive_rules, inspection-Passive, extract_contract-Passive) depth 40

  pub inspect_registry-Passive :
      (reference : String) (env : Env) → Passive (inspect_registry_contract host reference env)
  unfolding inspect_registry_contract
  inspect_registry-Passive reference env =
      search (passive_rules, run_checked-Passive, inspection-Passive, extract_contract-Passive)
        depth 40

  -- Whatever Docker answers, and whether an inspection succeeds or raises, local or of a registry
  -- image, each command that it gives lists or inspects containers, inspects an image, pulls, copies,
  -- removes what its one argument names, so without --force, or creates a container with no network
  -- whose entrypoint is /bin/true.
  pub inspect_contract-starts_nothing :
      (reference image_id platform : String) (env : Env) (local_env : Option Env) (h : History)
      → Extends IsPassive h (inspect_registry_contract host reference env h).1
        × Extends IsPassive h (inspect_local_contract host image_id platform local_env h).1
  inspect_contract-starts_nothing reference image_id platform env local_env h = (
    (inspect_registry-Passive reference env).at h,
    (inspect_local-Passive image_id platform local_env).at h,
  )
