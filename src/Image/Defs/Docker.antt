-- ===== src/Image/Defs/Docker.antt =====
-- The Docker commands of scripts/release_contract.py, and the removal of an owned container.
use inventory_cloud_service.Base.{
  String, ◌<>◌, Bool, true, false, Option, none, some, List, [], ◌∷◌, ◌==◌, nat_eq, string_eq,
  if◌then◌else◌,
}
use inventory_cloud_service.Base.Int.{pos, int_eq}
use inventory_cloud_service.Base.Text.{split}
use inventory_cloud_service.Json.{
  Value, null, str, Exc, contract, key_error, type_error, value_error, index_error, attribute_error,
  Result, ok, err, subscript, get, first, size, is_list, is_text, matchable,
}
use inventory_cloud_service.Exec.{
  Exec, pure, raise, lift, ◌>>=◌, ◌>>◌, require, rethrow, Env, Command, Completion, unavailable,
  timed_out, undecodable, completed, ran, History, Host,
}
use inventory_cloud_service.Contract.{Contract, validate_contract, strict}
use inventory_cloud_service.Image.Pattern.{is_image_id}

abbrev pub ownership_label : String
ownership_label = "com.inventory.release-contract.operation"

abbrev pub command : List String → Env → Command
command args env = record { args = args; environment = some env; input = none; timeout = 120 }

abbrev pub not_completed : Exc
not_completed = contract "A required image inspection command could not complete."

abbrev pub command_failed : Exc
command_failed =
    contract "A required image inspection command failed; compatibility was not verified."

abbrev pub outcome : Completion → Result String
outcome unavailable = err not_completed
outcome timed_out = err not_completed
outcome undecodable = err value_error
outcome (completed code out) = if code == pos 0 then ok out else err command_failed

abbrev pub or_value_error : Option Value → Result Value
or_value_error none = err value_error
or_value_error (some v) = ok v

-- `except (KeyError, TypeError, ValueError)`
abbrev pub is_shape_error : Exc → Bool
is_shape_error key_error = true
is_shape_error type_error = true
is_shape_error value_error = true
is_shape_error _ = false

-- `except (KeyError, TypeError, ValueError, IndexError, AttributeError)`
abbrev pub is_lookup_error : Exc → Bool
is_lookup_error index_error = true
is_lookup_error attribute_error = true
is_lookup_error e = is_shape_error e

-- `except (ValueError, UnicodeError)`
abbrev pub is_value_error : Exc → Bool
is_value_error value_error = true
is_value_error _ = false

-- What `inspect_local_contract` and `inspect_registry_contract` return; only the latter names the
-- image by its registry reference.
pub record Report : Type 0 where
  pub image : Option String
  pub image_id : String
  pub platform : String
  pub declared : Contract
  pub contract_sha256 : String

-- `docker_env or os.environ.copy()`: an empty mapping is false.
abbrev pub or_environ : Option Env → Env → Env
or_environ none d = d
or_environ (some []) d = d
or_environ (some (e ∷ es)) d = e ∷ es

abbrev pub list_command : String → Env → Command
list_command name = command (
    "docker"
    ∷ "container"
    ∷ "ls"
    ∷ "--all"
    ∷ "--filter"
    ∷ ("name=" <> name)
    ∷ "--format"
    ∷ "{{.ID}}"
    ∷ [])

abbrev pub inspect_command : String → Env → Command
inspect_command name = command ("docker" ∷ "container" ∷ "inspect" ∷ name ∷ [])

abbrev pub remove_command : String → Env → Command
remove_command name = command ("docker" ∷ "rm" ∷ name ∷ [])

abbrev pub image_command : String → Env → Command
image_command reference = command ("docker" ∷ "image" ∷ "inspect" ∷ reference ∷ [])

abbrev pub create_command : String → String → String → String → Env → Command
create_command name ownership platform image_id = command (
    "docker"
    ∷ "create"
    ∷ "--name"
    ∷ name
    ∷ "--network"
    ∷ "none"
    ∷ "--label"
    ∷ (ownership_label <> "=" <> ownership)
    ∷ "--platform"
    ∷ platform
    ∷ "--entrypoint"
    ∷ "/bin/true"
    ∷ image_id
    ∷ [])

abbrev pub copy_command : String → String → Env → Command
copy_command name output =
    command ("docker" ∷ "cp" ∷ (name <> ":/app/release-contract.json") ∷ output ∷ [])

abbrev pub pull_command : String → Env → Command
pull_command reference = command ("docker" ∷ "pull" ∷ "--platform" ∷ "linux/amd64" ∷ reference ∷ [])

abbrev pub ambiguous : Exc
ambiguous = contract "Extraction container ownership is ambiguous; no container was removed."

abbrev pub not_matched : Exc
not_matched = contract "Extraction container ownership did not match; no container was removed."

abbrev pub not_proven : String
not_proven = "Extraction container ownership could not be proven; no container was removed."

-- The condition on the inspected containers, its parts in the order of the `or`.
unfoldable pub check_owned : String → String → String → Value → Exec History (Unit {0})
check_owned name ownership image_id containers = do
  container ← lift (first containers)
  count ← lift (size containers)
  require (count == 1) not_matched
  found ← lift (subscript container "Name")
  require (is_text found ("/" <> name)) not_matched
  config ← lift (subscript container "Config")
  labels ← lift (subscript config "Labels")
  label ← lift (get labels ownership_label null)
  require (is_text label ownership) not_matched
  image ← lift (get container "Image" null)
  require (is_text image image_id) not_matched

abbrev pub validated : Result Value → Result Contract
validated (ok v) = validate_contract v
validated (err e) = err e

abbrev pub decoded : Option Value → Result Contract
decoded none = err value_error
decoded (some pairs) = validated (strict pairs)

module _ (host : Host) where
  open host use {complete, fresh_hex, directory, file, environ, display}

  unfoldable pub run_checked : Command → Exec History String
  run_checked c h = (outcome (complete h c), ran c ∷ h)

  -- `json.loads`
  unfoldable pub loads : String → Exec History Value
  loads s h = (or_value_error (host.loads s), h)

  -- The `try` statement of `_remove_owned_container`.
  unfoldable pub prove_owned : String → String → String → Env → Exec History (Unit {0})
  prove_owned name ownership image_id env = rethrow is_lookup_error not_proven (do
    out ← run_checked (inspect_command name env)
    containers ← loads out
    check_owned name ownership image_id containers)

  -- `_remove_owned_container`, once the listing has found the container
  unfoldable pub remove_listed : String → String → String → Env → Exec History (Unit {0})
  remove_listed name ownership image_id env = do
    prove_owned name ownership image_id env
    run_checked (remove_command name env)
    pure tt

  unfoldable pub remove_identified :
      String → String → String → Env → List String → Exec History (Unit {0})
  remove_identified name ownership image_id env [] = pure tt
  remove_identified name ownership image_id env (i ∷ []) = remove_listed name ownership image_id env
  remove_identified name ownership image_id env (i ∷ j ∷ is) = raise ambiguous

  unfoldable pub remove_owned_container : String → String → String → Env → Exec History (Unit {0})
  unfolding remove_identified split
  remove_owned_container name ownership image_id env = do
    out ← run_checked (list_command name env)
    remove_identified name ownership image_id env (split out)

  -- A value in an f-string.
  abbrev pub format : Value → String
  format (str s) = s
  format v = display v

  -- `_inspection`
  unfoldable pub inspection : String → String → Env → Exec History Value
  inspection reference platform env =
      rethrow is_shape_error "Docker did not return a valid image identity and platform." (do
        inspected ← run_checked (image_command reference env) >>= loads
        require (is_list inspected) value_error
        count ← lift (size inspected)
        require (count == 1) value_error
        image ← lift (first inspected)
        identity ← lift (subscript image "Id")
        text ← lift (matchable identity)
        require (is_image_id text) value_error
        os ← lift (subscript image "Os")
        architecture ← lift (subscript image "Architecture")
        require (format os <> "/" <> format architecture == platform)
            (contract "Image platform does not match the required deployment platform.")
        pure image)
