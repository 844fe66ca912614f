-- ===== src/Image/Defs/Inspect.antt =====
-- The inspection of an image's contract in scripts/release_contract.py.
use inventory_cloud_service.Base.{
  ℕ, String, ◌<>◌, not, Option, none, some, List, ◌∷◌, nat_eq, string_eq, if◌then◌else◌, leb,
}
use inventory_cloud_service.Base.Int.{int_eq}
use inventory_cloud_service.Json.{
  list, nil, contract, os_error, Result, ok, err, subscript, get, is_text, member, matchable,
}
use inventory_cloud_service.Exec.{
  Exec, pure, lift, ◌>>=◌, ◌>>◌, require, rethrow, finally, Env, named, made_directory,
  removed_directory, read_file, History, FileStatus, Host,
}
use inventory_cloud_service.Contract.{Contract}
use inventory_cloud_service.Image.Pattern.{is_image_id, is_registry_image}
use inventory_cloud_service.Image.Defs.Docker.{
  is_value_error, or_environ, create_command, copy_command, pull_command, decoded, Report,
  run_checked, remove_owned_container, inspection,
}

module _ (host : Host) where
  open host use {complete, fresh_hex, directory, file, environ, display}

  -- `uuid.uuid4().hex`
  unfoldable pub new_ownership : Exec History String
  new_ownership h = let hex = fresh_hex h in (ok hex, named hex ∷ h)

  -- `with tempfile.TemporaryDirectory(prefix=prefix) as temporary:`
  unfoldable pub with_directory : {A : Type 0} → String → (String → Exec History A) → Exec History A
  with_directory prefix body h =
      let path = directory h prefix in
      let (r, h') = body path (made_directory path ∷ h) in (r, removed_directory path ∷ h')

  abbrev pub content : FileStatus → Result (List ℕ)
  content s =
      if s.is_symlink
      then err (contract "The embedded contract must be a small regular JSON file.")
      else if not s.is_file
      then err (contract "The embedded contract must be a small regular JSON file.")
      else if leb s.size 16384
      then elim s.content [ none ↦ err os_error | some raw ↦ ok raw ]
      else err (contract "The embedded contract must be a small regular JSON file.")

  -- The checks of the copied file, and `read_bytes`.
  unfoldable pub read_contract : String → Exec History (List ℕ)
  read_contract path h = (content (file h path), read_file path ∷ h)

  -- `json.loads(raw, object_pairs_hook=strict_object)` and `validate_contract`
  unfoldable pub decode : List ℕ → Result Contract
  decode raw = decoded (host.loads_pairs raw)

  -- The body of the inner `try` of `_extract_contract`.
  unfoldable pub extract_copied :
      String → String → String → String → Env → String → Exec History (Contract × String)
  extract_copied name ownership image_id platform env output = do
    run_checked host (create_command name ownership platform image_id env)
    run_checked host (copy_command name output env)
    raw ← read_contract output
    declared ←
        rethrow is_value_error "The embedded release contract is not valid JSON."
          (lift (decode raw))
    pure (declared, host.sha256 raw)

  -- `_extract_contract`
  unfoldable pub extract_contract : String → String → Env → Exec History (Contract × String)
  extract_contract image_id platform env = do
    ownership ← new_ownership
    with_directory "inventory-contract-" λ temporary.
        let name = "inventory-contract-" <> ownership in
        finally
          (extract_copied name ownership image_id platform env
            (temporary <> "/release-contract.json"))
          (remove_owned_container host name ownership image_id env)

  unfoldable pub inspect_local_contract : String → String → Option Env → Exec History Report
  inspect_local_contract image_id platform docker_env = do
    require (is_image_id image_id)
        (contract "Local compatibility inspection requires a full immutable image ID.")
    let environment = or_environ docker_env environ
    image ← inspection host image_id platform environment
    found ← lift (subscript image "Id")
    require (is_text found image_id)
        (contract "The inspected local image differs from the requested immutable ID.")
    extracted ← extract_contract image_id platform environment
    pure (record {
      image = none;
      image_id = image_id;
      platform = platform;
      declared = extracted.0;
      contract_sha256 = extracted.1;
    })

  unfoldable pub inspect_registry_contract : String → Env → Exec History Report
  inspect_registry_contract reference env = do
    require (is_registry_image reference)
        (contract "A digest-pinned private ECR image is required.")
    run_checked host (pull_command reference env)
    image ← inspection host reference "linux/amd64" env
    digests ← lift (get image "RepoDigests" (list nil))
    listed ← lift (member reference digests)
    require listed (contract "The pulled image does not match the requested repository digest.")
    identity ← lift (subscript image "Id")
    image_id ← lift (matchable identity)
    extracted ← extract_contract image_id "linux/amd64" env
    pure (record {
      image = some reference;
      image_id = image_id;
      platform = "linux/amd64";
      declared = extracted.0;
      contract_sha256 = extracted.1;
    })
