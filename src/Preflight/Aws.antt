-- ===== src/Preflight/Aws.antt =====
-- `validate_aws` and `main` of scripts/cloud-preflight.py.
use inventory_cloud_service.Base.{
  String, Bool, true, false, not, ◌&&◌, Option, none, some, List, [], ◌∷◌, ◌++◌, if◌then◌else◌,
}
use inventory_cloud_service.Base.Int.{ℤ, pos}
use inventory_cloud_service.Json.{
  Value, null, dict, end, Exc, type_error, os_error, value_error, Result, ok, err, get, truthy,
}
use inventory_cloud_service.Exec.{Exec, pure, lift, ◌>>=◌, gets, History, Host}
use inventory_cloud_service.Preflight.Patterns.{ImageGroups, image_groups}
use inventory_cloud_service.Preflight.Config.{
  TextLibrary, Check, result, text_item, all_pass, validate_config,
}
use inventory_cloud_service.Preflight.Defs.{
  Times, check, account_matches, repository_immutable, image_exists, certificate_ready,
  secret_ready, versioning_enabled, bucket_private, bucket_encrypted, two_zones, provider_ready,
}

-- A missing match has no groups.
abbrev pub expect_match : Option ImageGroups → Result ImageGroups
expect_match none = err type_error
expect_match (some g) = ok g

-- The arguments of the command line and what they name.
pub record Arguments : Type 0 where
  -- `json.loads(args.config.read_text())` of the file, if one is given
  pub config : Option (Result Value)
  pub aws_read_only : Bool

pub record Report : Type 0 where
  pub checked_at : String
  pub mode : String
  pub configuration_valid : Bool
  pub aws_metadata_checked : Bool
  pub checks_passed : Bool
  pub deployment_ready : Bool
  pub readiness : String
  pub checks : List Check
  pub unverified_requirements : List String

abbrev requirements : List String
requirements =
    "An offline run does not verify AWS resources, credentials, DNS, or identity-provider availability."
    ∷ "Metadata checks do not retrieve or validate the runtime secret password, execute migrations, or test database grants."
    ∷ "The Linux amd64 image must pass the release pipeline; existence in ECR alone is not vulnerability or architecture verification."
    ∷ "Review the Terraform plan, regional RDS capacity/quotas, cloud costs, HTTPS/DNS routing, identity-provider audience and roles, and GitHub environment protections."
    ∷ "Prove the deployed migration, service readiness, alert delivery, and recovery workflow before declaring the deployment ready."
    ∷ []

abbrev pub is_unreadable : Exc → Bool
is_unreadable os_error = true
is_unreadable value_error = true
is_unreadable _ = false

abbrev unreadable : List Check
unreadable =
    result "configuration" false
      "The supplied file could not be read as a JSON object; its contents were not echoed."
    ∷ []

abbrev pub loaded : Option (Result Value) → Result Value
loaded none = ok (dict end)
loaded (some r) = r

abbrev pub validated : Value → Result (List Check) → Result (Value × List Check)
validated config (ok checks) = ok (config, checks)
validated config (err e) = if is_unreadable e then ok (dict end, unreadable) else err e

unfoldable pub load_config : TextLibrary → Option (Result Value) → Result (Value × List Check)
load_config library file = elim (loaded file) [
  | ok config ↦ validated config (validate_config library config)
  | err e ↦ validated (dict end) (err e)
]

abbrev pub readiness_of : Bool → Bool → String
readiness_of checks_passed aws_checked =
    if not checks_passed
    then "blocked"
    else if aws_checked
    then "metadata_verified"
    else "configuration_valid_unverified"

unfoldable pub report_of : Arguments → List Check → Bool × List Check → String → Report
report_of args checks (aws_checked, more) time = record {
  checked_at = time;
  mode = if args.aws_read_only then "aws-metadata" else "offline";
  configuration_valid = all_pass checks;
  aws_metadata_checked = aws_checked;
  checks_passed = all_pass (checks ++ more);
  deployment_ready = false;
  readiness = readiness_of (all_pass (checks ++ more)) aws_checked;
  checks = checks ++ more;
  unverified_requirements = requirements;
}

module _ (library : TextLibrary) (host : Host) (times : Times) where
  module _ (region : String) where
    unfoldable pub provider_checks : Value → Exec History (List Check)
    provider_checks config = do
      arn ← lift (get config "github_oidc_provider_arn" null)
      if truthy arn
          then (check library host times region "github_oidc_provider"
                (provider_ready library host times region config)
                "The GitHub OIDC provider must have the expected URL and STS audience."
              >>= λ provider. pure (provider ∷ []))
          else pure []

    -- What follows once the account is the expected one.
    unfoldable pub resource_checks : Value → Exec History (List Check)
    resource_checks config = do
      reference ← lift (text_item config "container_image")
      image ← lift (expect_match (image_groups reference))
      immutable ←
          check library host times region "ecr_immutable_repository"
            (repository_immutable library host times region image.repository)
            "The destination ECR repository must use immutable tags."
      exists ←
          check library host times region "ecr_image_exists"
            (image_exists library host times region image.repository image.digest)
            "The supplied image digest must already exist in ECR."
      certificate ←
          check library host times region "acm_certificate_ready"
            (certificate_ready library host times region config)
            "The certificate must be issued, unexpired, and cover the public hostname."
      secret ←
          check library host times region "runtime_secret_metadata"
            (secret_ready library host times region config)
            "The runtime secret must have a current version, no pending deletion, and the default Secrets Manager key. Its password content is intentionally not read."
      bucket ← lift (text_item config "state_bucket_name")
      versioning ←
          check library host times region "state_bucket_versioning"
            (versioning_enabled library host times region config bucket)
            "Terraform state versioning must be enabled."
      access ←
          check library host times region "state_bucket_public_access"
            (bucket_private library host times region config bucket)
            "All four S3 public-access protections must be enabled."
      encryption ←
          check library host times region "state_bucket_encryption"
            (bucket_encrypted library host times region config bucket)
            "State bucket default encryption must be configured."
      zones ←
          check library host times region "two_availability_zones"
            (two_zones library host times region)
            "At least two available zones are required for the application and database subnets."
      provider ← provider_checks config
      pure (
          immutable ∷ exists ∷ certificate ∷ secret ∷ versioning ∷ access ∷ encryption ∷ zones
          ∷ provider)

    unfoldable pub validate_aws : Value → Exec History (List Check)
    validate_aws config = do
      account ←
          check library host times region "aws_account_access"
            (account_matches library host times region config)
            "The active AWS session must match the explicitly expected account."
      if account.passed
          then (resource_checks config >>= λ checks. pure (account ∷ checks))
          else pure (account ∷ [])

  -- Whether AWS was asked, and the checks that come of it.
  unfoldable pub aws_checks : Bool → Bool → Value → Exec History (Bool × List Check)
  aws_checks allowed installed config =
      if allowed
      then (if installed
          then (lift (text_item config "aws_region") >>= λ region.
              validate_aws region config >>= λ checks. pure (true, checks))
          else pure (
            false,
            result "aws_cli" false "Install AWS CLI v2 before requesting metadata checks." ∷ [],
          ))
      else pure (false, [])

  -- The report on the checks of the configuration, and on those of AWS where they are allowed, with
  -- the exit status. `installed` is the answer of `shutil.which("aws")`.
  unfoldable pub assess : Bool → Arguments → Value × List Check → Exec History (Report × ℤ)
  assess installed args (config, checks) = do
    found ← aws_checks (args.aws_read_only && all_pass checks) installed config
    time ← gets times.now
    let report = report_of args checks found time
    pure (report, if report.checks_passed then pos 0 else pos 1)

  unfoldable pub main : Bool → Arguments → Exec History (Report × ℤ)
  main installed args = lift (load_config library args.config) >>= assess installed args
