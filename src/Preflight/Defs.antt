-- ===== src/Preflight/Defs.antt =====
-- `AwsMetadata` and the checks of `validate_aws` of scripts/cloud-preflight.py.
use text.Mathlib.Text.{starts_with}
use inventory_cloud_service.Base.{
  String, ◌<>◌, Bool, true, false, not, ◌&&◌, ◌||◌, Option, none, some, List, [], ◌∷◌, ◌++◌, ◌==◌,
  nat_eq, string_eq, leb, any, if◌then◌else◌,
}
use inventory_cloud_service.Base.Int.{pos, int_eq}
use inventory_cloud_service.Json.{
  Value, null, int, str, list, dict, nil, end, field, Fields, Exc, runtime, key_error, type_error,
  value_error, index_error, os_error, timeout_expired, Result, ok, err, subscript, get, first, size,
  is_text, is_true, truthy, member, iterate, expect_str, present, attribute_error,
}
use inventory_cloud_service.Exec.{
  Exec, pure, raise, lift, ◌>>=◌, attempt, Env, Command, Completion, unavailable, timed_out,
  undecodable, completed, ran, History, Host,
}
use inventory_cloud_service.Deploy.{env_set}
use inventory_cloud_service.Webhook.{replace_zulu}
use inventory_cloud_service.Preflight.Config.{TextLibrary, Check, result, text_item}

abbrev pub read_commands : List (String × String)
read_commands =
    ("sts", "get-caller-identity")
    ∷ ("ecr", "describe-repositories")
    ∷ ("ecr", "describe-images")
    ∷ ("acm", "describe-certificate")
    ∷ ("secretsmanager", "describe-secret")
    ∷ ("iam", "get-open-id-connect-provider")
    ∷ ("s3api", "get-bucket-versioning")
    ∷ ("s3api", "get-public-access-block")
    ∷ ("s3api", "get-bucket-encryption")
    ∷ ("ec2", "describe-availability-zones")
    ∷ []

abbrev pub is_read_command : String → String → Bool
is_read_command service operation = any (λ c. c.0 == service && c.1 == operation) read_commands

-- What `validate_aws` asks of the library on times.
pub record Times : Type 0 where
  -- `datetime.now(timezone.utc).isoformat()`
  pub now : History → String
  -- `datetime.fromisoformat(text).timestamp()`
  pub timestamp : String → Option Value
  -- `value > datetime.now(timezone.utc).timestamp()`, `none` where the comparison is a `TypeError`
  pub is_future : History → Value → Option Bool

-- `except (OSError, ValueError, RuntimeError, TimeoutExpired, KeyError, TypeError, IndexError)`
abbrev pub is_metadata_error : Exc → Bool
is_metadata_error (runtime message) = true
is_metadata_error os_error = true
is_metadata_error value_error = true
is_metadata_error timeout_expired = true
is_metadata_error key_error = true
is_metadata_error type_error = true
is_metadata_error index_error = true
is_metadata_error _ = false

abbrev pub unverified : String
unverified =
    "Metadata could not be verified. Check the prerequisite and read permissions; no secret values were requested."

abbrev or_type_error : Option Bool → Result Bool
or_type_error none = err type_error
or_type_error (some b) = ok b

-- `any(d.get('imageDigest') == digest for d in details)`
abbrev pub any_digest : String → List Value → Result Bool
any_digest digest [] = ok false
any_digest digest (d ∷ ds) =
    let rest = any_digest digest ds in
    elim (get d "imageDigest" null) [
      | ok v ↦ if is_text v digest then ok true else rest
      | err e ↦ err e
    ]

-- `'AWSCURRENT' in stages` for any of the stages.
abbrev pub any_current : Fields → Result Bool
any_current end = ok false
any_current (field k stages fs) =
    let rest = any_current fs in
    elim (member "AWSCURRENT" stages) [ ok found ↦ if found then ok true else rest | err e ↦ err e ]

-- `v.values()`
abbrev values_of : Value → Result Fields
values_of (dict fs) = ok fs
values_of _ = err attribute_error

abbrev is_default_key : Value → Bool
is_default_key null = true
is_default_key v = is_text v "" || is_text v "alias/aws/secretsmanager"

abbrev is_true_at : Value → List String → Result Bool
is_true_at v [] = ok true
is_true_at v (k ∷ ks) =
    let rest = is_true_at v ks in
    elim (get v k null) [ ok w ↦ if is_true w then rest else ok false | err e ↦ err e ]

module _ (library : TextLibrary) where
  open library use {lower, remove_prefix, dots, fnmatch}

  -- An ACM name covers the host: it is the host's, or a wildcard for one label.
  abbrev pub covers : String → String → Bool
  covers hostname n =
      hostname == lower n
      || (starts_with n "*." && dots hostname == dots n && fnmatch hostname (lower n))

  abbrev pub any_covers : String → List Value → Result Bool
  any_covers hostname [] = ok false
  any_covers hostname (v ∷ vs) =
      let rest = any_covers hostname vs in
      elim (expect_str v) [ ok n ↦ if covers hostname n then ok true else rest | err e ↦ err e ]

  module _ (host : Host) (times : Times) (region : String) where
    abbrev aws_environment : Env
    aws_environment =
        env_set "AWS_IGNORE_CONFIGURED_ENDPOINT_URLS" "true"
          (env_set "AWS_EC2_METADATA_DISABLED" "true" (env_set "AWS_PAGER" "" host.environ))

    abbrev pub metadata_command : String → String → List String → Command
    metadata_command service operation arguments = record {
      args =
          "aws"
          ∷ service
          ∷ operation
          ∷ (arguments
              ++ "--region" ∷ region ∷ "--output" ∷ "json" ∷ "--no-cli-pager"
                ∷ "--cli-connect-timeout" ∷ "5" ∷ "--cli-read-timeout" ∷ "15" ∷ []);
      environment = some aws_environment;
      input = none;
      timeout = 45;
    }

    abbrev metadata_of : Completion → Result Value
    metadata_of unavailable = err os_error
    metadata_of timed_out = err timeout_expired
    metadata_of undecodable = err value_error
    metadata_of (completed code out) =
        if code == pos 0
        then present (host.loads out)
        else err (
            runtime
              "AWS metadata request failed; verify existence and read permissions. Raw errors are omitted.")

    unfoldable pub run_metadata : Command → Exec History Value
    run_metadata c h = (metadata_of (host.complete h c), ran c ∷ h)

    -- `AwsMetadata.read`
    unfoldable pub read : String → String → List String → Exec History Value
    read service operation arguments =
        if is_read_command service operation
        then run_metadata (metadata_command service operation arguments)
        else raise value_error

    abbrev pub judged : String → String → Result Bool → Exec History Check
    judged name detail (ok passed) = pure (result name passed detail)
    judged name detail (err e) =
        if is_metadata_error e then pure (result name false unverified) else raise e

    -- `check`, which adds to the list of checks
    unfoldable pub check : String → Exec History Bool → String → Exec History Check
    check name callback detail = do found ← attempt callback; judged name detail found

    unfoldable pub account_matches : Value → Exec History Bool
    account_matches config = do
      identity ← read "sts" "get-caller-identity" []
      account ← lift (subscript identity "Account")
      expected ← lift (text_item config "aws_account_id")
      pure (is_text account expected)

    unfoldable pub repository_immutable : String → Exec History Bool
    repository_immutable repository = do
      response ← read "ecr" "describe-repositories" ("--repository-names" ∷ repository ∷ [])
      repositories ← lift (subscript response "repositories")
      found ← lift (first repositories)
      mutability ← lift (subscript found "imageTagMutability")
      pure (is_text mutability "IMMUTABLE")

    unfoldable pub image_exists : String → String → Exec History Bool
    image_exists repository digest = do
      response ←
          read "ecr" "describe-images"
            ("--repository-name" ∷ repository ∷ "--image-ids" ∷ ("imageDigest=" <> digest) ∷ [])
      details ← lift (get response "imageDetails" (list nil))
      items ← lift (iterate details)
      lift (any_digest digest items)

    -- The time of expiry, where a text is read as a date.
    abbrev expiry_of : Value → Result Value
    expiry_of (str s) = present (times.timestamp (replace_zulu s))
    expiry_of v = ok v

    unfoldable pub is_unexpired : Value → Exec History Bool
    is_unexpired expires h = (or_type_error (times.is_future h expires), h)

    unfoldable pub certificate_ready : Value → Exec History Bool
    certificate_ready config = do
      arn ← lift (text_item config "certificate_arn")
      response ← read "acm" "describe-certificate" ("--certificate-arn" ∷ arn ∷ [])
      certificate ← lift (subscript response "Certificate")
      hostname ← lift (text_item config "public_hostname")
      names ← lift (get certificate "SubjectAlternativeNames" (list nil))
      items ← lift (iterate names)
      matches ← lift (any_covers (lower hostname) items)
      not_after ← lift (get certificate "NotAfter" (int (pos 0)))
      expires ← lift (expiry_of not_after)
      status ← lift (get certificate "Status" null)
      if is_text status "ISSUED"
          then (is_unexpired expires >>= λ unexpired. pure (unexpired && matches))
          else pure false

    unfoldable pub secret_ready : Value → Exec History Bool
    secret_ready config = do
      arn ← lift (text_item config "runtime_database_secret_arn")
      secret ← read "secretsmanager" "describe-secret" ("--secret-id" ∷ arn ∷ [])
      versions ← lift (get secret "VersionIdsToStages" (dict end))
      stages ← lift (values_of versions)
      current ← lift (any_current stages)
      deleted ← lift (get secret "DeletedDate" null)
      key ← lift (get secret "KmsKeyId" null)
      pure (not (truthy deleted) && is_default_key key && current)

    abbrev owner_arguments : String → String → List String
    owner_arguments bucket account = "--bucket" ∷ bucket ∷ "--expected-bucket-owner" ∷ account ∷ []

    unfoldable pub versioning_enabled : Value → String → Exec History Bool
    versioning_enabled config bucket = do
      account ← lift (text_item config "aws_account_id")
      response ← read "s3api" "get-bucket-versioning" (owner_arguments bucket account)
      status ← lift (get response "Status" null)
      pure (is_text status "Enabled")

    unfoldable pub bucket_private : Value → String → Exec History Bool
    bucket_private config bucket = do
      account ← lift (text_item config "aws_account_id")
      response ← read "s3api" "get-public-access-block" (owner_arguments bucket account)
      protection ← lift (subscript response "PublicAccessBlockConfiguration")
      lift (
          is_true_at protection (
            "BlockPublicAcls" ∷ "IgnorePublicAcls" ∷ "BlockPublicPolicy" ∷ "RestrictPublicBuckets"
            ∷ []))

    unfoldable pub bucket_encrypted : Value → String → Exec History Bool
    bucket_encrypted config bucket = do
      account ← lift (text_item config "aws_account_id")
      response ← read "s3api" "get-bucket-encryption" (owner_arguments bucket account)
      settings ← lift (subscript response "ServerSideEncryptionConfiguration")
      rules ← lift (subscript settings "Rules")
      pure (truthy rules)

    unfoldable pub two_zones : Exec History Bool
    two_zones = do
      response ←
          read "ec2" "describe-availability-zones"
            ("--filters" ∷ "Name=state,Values=available" ∷ [])
      zones ← lift (subscript response "AvailabilityZones")
      count ← lift (size zones)
      pure (leb 2 count)

    unfoldable pub provider_ready : Value → Exec History Bool
    provider_ready config = do
      arn ← lift (text_item config "github_oidc_provider_arn")
      provider ←
          read "iam" "get-open-id-connect-provider" ("--open-id-connect-provider-arn" ∷ arn ∷ [])
      url ← lift (get provider "Url" (str ""))
      text ← lift (expect_str url)
      if remove_prefix text "https://" == "token.actions.githubusercontent.com"
          then (lift (get provider "ClientIDList" (list nil)) >>= λ clients.
              lift (member "sts.amazonaws.com" clients))
          else pure false
