-- ===== src/Tests/Image.antt =====
-- An inspection in which Docker answers as it should.
use inventory_cloud_service.Base.{
  ◌≡◌, refl, ◌⊎◌, String, true, false, Option, none, some, List, [], ◌∷◌, ◌==◌, string_eq,
  if◌then◌else◌,
}
use inventory_cloud_service.Base.Int.{pos}
use inventory_cloud_service.Base.Text.{split}
use inventory_cloud_service.Json.{Value, str, list, dict, nil, cons, end, field, Result, ok}
use inventory_cloud_service.Exec.{
  completed, ran, History, Host, ◌>>=◌, pure, raise, lift, require, rethrow, finally,
}
use inventory_cloud_service.Contract.{canonical, strict, validate_contract}
use inventory_cloud_service.Image.{
  Report, ownership_label, list_command, inspect_command, remove_command, is_image_id,
  is_registry_image, run_checked, inspection, loads, extract_contract, new_ownership,
  with_directory, remove_listed, prove_owned, check_owned, decode, extract_copied, read_contract,
  remove_identified, remove_owned_container, inspect_local_contract, inspect_registry_contract,
}
use inventory_cloud_service.Image.Commands.{Extends, IsPassive, inspect_contract-starts_nothing}
use inventory_cloud_service.Image.Owned.{Proven, remove_owned_container-proven}
use inventory_cloud_service.Image.Extract.{
  IsTrusted, IsVouched, inspect_registry_contract-IsTrusted, inspect_local_contract-IsVouched,
}
use inventory_cloud_service.Tests.Contract.{release}

abbrev pub digest : String
digest = "sha256:0123456789abcdef0123456789abcdef0123456789abcdef0123456789abcdef"

abbrev pub reference : String
reference =
    "123456789012.dkr.ecr.eu-west-1.amazonaws.com/inventory@sha256:0123456789abcdef0123456789abcdef0123456789abcdef0123456789abcdef"

-- The output stands for the JSON text that `read_json` decodes it to.
abbrev pub docker_answer : List String → String
docker_answer (program ∷ verb ∷ action ∷ rest) =
    if verb == "image"
    then "image"
    else if verb == "container"
    then if action == "ls" then "1f2e" else "container"
    else ""
docker_answer _ = ""

abbrev image_json : Value
image_json = list (
    cons
      (dict (
        field "Id" (str digest) (
          field "Os" (str "linux") (
            field "Architecture" (str "amd64")
              (field "RepoDigests" (list (cons (str reference) nil)) end)))))
      nil)

abbrev container_json : Value
container_json = list (
    cons
      (dict (
        field "Name" (str "/inventory-contract-abc") (
          field "Config" (dict (field "Labels" (dict (field ownership_label (str "abc") end)) end))
            (field "Image" (str digest) end))))
      nil)

abbrev pub read_json : String → Option Value
read_json s =
    if s == "image" then some image_json else if s == "container" then some container_json else none

abbrev pub docker : Host
docker = record {
  complete = λ h c. completed (pos 0) (docker_answer c.args);
  fresh_hex = λ h. "abc";
  directory = λ h prefix. "/tmp/inventory-contract-1";
  file = λ h path. record { is_symlink = false; is_file = true; size = 2; content = some [] };
  environ = [];
  loads = read_json;
  loads_pairs = λ raw. some (dict release);
  display = λ v. "";
  sha256 = λ raw. "d1";
}

abbrev pub report : Option String → Report
report image = record {
  image = image;
  image_id = digest;
  platform = "linux/amd64";
  declared = canonical;
  contract_sha256 = "d1";
}

-- The runs, with all that they call.
unfoldable pub registry_trial : Result Report × History
unfolding inspect_registry_contract is_registry_image ◌>>=◌ require run_checked inspection rethrow
    loads lift is_image_id pure extract_contract new_ownership with_directory finally
    remove_owned_container remove_listed prove_owned check_owned split strict validate_contract
    raise decode extract_copied read_contract remove_identified
registry_trial = inspect_registry_contract docker reference [] []

local_trial : Result Report × History
unfolding inspect_local_contract registry_trial
local_trial = inspect_local_contract docker digest "linux/amd64" none []

registry_run : registry_trial.0 ≡ ok (report (some reference))
unfolding registry_trial
registry_run = refl

local_run : local_trial.0 ≡ ok (report none)
unfolding local_trial
local_run = refl

inspect_contract-starts_nothing_example :
    Extends IsPassive [] (inspect_registry_contract docker reference [] []).1
    × Extends IsPassive [] (inspect_local_contract docker digest "linux/amd64" none []).1
inspect_contract-starts_nothing_example =
    inspect_contract-starts_nothing docker reference digest "linux/amd64" [] none []

abbrev listed : History
listed = ran (list_command "inventory-contract-abc" []) ∷ []

abbrev inspected : History
inspected = ran (inspect_command "inventory-contract-abc" []) ∷ listed

remove_owned_container-proven_example :
    let u = (remove_owned_container docker "inventory-contract-abc" "abc" digest [] []).1 in
    (u ≡ listed)
    ⊎ (u ≡ inspected)
    ⊎ ((u ≡ ran (remove_command "inventory-contract-abc" []) ∷ inspected)
        × Proven "inventory-contract-abc" "abc" digest docker [] listed)
remove_owned_container-proven_example =
    remove_owned_container-proven "inventory-contract-abc" "abc" digest docker [] []

inspect_registry_contract-IsTrusted_example :
    IsTrusted docker []
      (inspect_registry_contract docker reference [] []).1
      reference
      []
      (report (some reference))
unfolding registry_trial
inspect_registry_contract-IsTrusted_example =
    inspect_registry_contract-IsTrusted docker reference [] [] {report = report (some reference)}
      {u = (inspect_registry_contract docker reference [] []).1} refl

inspect_local_contract-IsVouched_example :
    (is_image_id digest ≡ true)
    × (◌≡◌ {A = String} digest digest)
    × IsVouched docker [] []
        (inspect_local_contract docker digest "linux/amd64" none []).1
        digest
        "linux/amd64"
        []
        (report none)
unfolding local_trial
inspect_local_contract-IsVouched_example =
    inspect_local_contract-IsVouched docker digest "linux/amd64" none [] {report = report none}
      {u = (inspect_local_contract docker digest "linux/amd64" none []).1} refl
