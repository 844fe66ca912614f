-- ===== src/Tests/Preflight.antt =====
-- A preflight against an account in which all is as it must be, and against another account.
use Prim.Native.String.{len, slice}
use text.Mathlib.Text.{starts_with}
use inventory_cloud_service.Base.{
  ◌≡◌, refl, ℕ, String, ◌<>◌, Bool, true, false, none, some, List, [], ◌∷◌, ◌==◌, string_eq, ◌-◌,
  if◌then◌else◌,
}
use inventory_cloud_service.Base.Int.{pos, int_eq, ℤ}
use inventory_cloud_service.Json.{
  Value, bool, int, str, list, dict, nil, cons, end, field, Result, ok, err,
}
use inventory_cloud_service.Exec.{completed, History, Host, Completion}
use inventory_cloud_service.Base.Pattern.{is_digit, is_lower_alnum, is_hex}
use inventory_cloud_service.Base.Regex.{full_match}
use inventory_cloud_service.Base.Text.{strip, lstrip, rstrip, is_space, first_characters}
use inventory_cloud_service.Exec.{pure, raise, lift, ◌>>=◌, gets, attempt}
use inventory_cloud_service.Webhook.{replace_zulu}
use inventory_cloud_service.Image.Commands.{Extends}
use inventory_cloud_service.Preflight.Reads.{IsRead, main-reads, main-offline}
use inventory_cloud_service.Preflight.Valid.{
  IsValid, validate_config-total, validate_config-IsValid,
}
use inventory_cloud_service.Preflight.Verified.{IsVerified, main-IsVerified}
use inventory_cloud_service.Preflight.{
  Settings, loaded, Url, TextLibrary, Check, Times, Arguments, Report, all_pass, validate_config,
  main, check, read, absent_checks, value_checks, settings_of, value_list, nonsecret_https, is_host,
  image_groups, assess, load_config, aws_checks, validate_aws, resource_checks, provider_checks,
  report_of, run_metadata, account_matches, repository_immutable, image_exists, certificate_ready,
  is_unexpired, secret_ready, versioning_enabled, bucket_private, bucket_encrypted, two_zones,
  provider_ready,
}

abbrev ends : String → String → Bool
ends s suffix = slice s (len s - len suffix) (len s) == suffix

abbrev dot_count : String → ℕ
dot_count String.[] = 0
dot_count (String.◌∷◌ c s) = dot_count s

abbrev without_prefix : String → String → String
without_prefix s prefix = if starts_with s prefix then slice s (len prefix) (len s) else s

abbrev issuer_url : Url
issuer_url = record {
  scheme = "https";
  hostname = some "login.shop.net";
  username = none;
  password = none;
  query = "";
  fragment = "";
  port = some none;
}

abbrev texts : TextLibrary
texts = record {
  urlparse = λ s. some issuer_url;
  lower = λ s. s;
  ends_with = ends;
  remove_prefix = without_prefix;
  dots = dot_count;
  fnmatch = λ s pattern. false;
}

abbrev digest : String
digest = "sha256:0123456789abcdef0123456789abcdef0123456789abcdef0123456789abcdef"

abbrev settings : Value
settings = dict (
    field "aws_region" (str "eu-west-1") (
      field "aws_account_id" (str "123456789012") (
        field "state_bucket_name" (str "shop-state") (
          field "container_image"
            (str ("123456789012.dkr.ecr.eu-west-1.amazonaws.com/shop/api@" <> digest))
            (field "certificate_arn"
              (str
                "arn:aws:acm:eu-west-1:123456789012:certificate/01234567-89ab-cdef-0123-456789abcdef")
              (field "public_hostname" (str "api.shop.net") (
                field "jwt_issuer_uri" (str "https://login.shop.net") (
                  field "jwt_audience" (str "shop") (
                    field "runtime_database_secret_arn"
                      (str "arn:aws:secretsmanager:eu-west-1:123456789012:secret:db-AbCdEf")
                      end)))))))))

abbrev answer : String → Value
answer operation =
    if operation == "get-caller-identity"
    then dict (field "Account" (str "123456789012") end)
    else if operation == "describe-repositories"
    then dict (
        field "repositories"
          (list (cons (dict (field "imageTagMutability" (str "IMMUTABLE") end)) nil)) end)
    else if operation == "describe-images"
    then dict
        (field "imageDetails" (list (cons (dict (field "imageDigest" (str digest) end)) nil)) end)
    else if operation == "describe-certificate"
    then dict (
        field "Certificate"
          (dict (
            field "SubjectAlternativeNames" (list (cons (str "api.shop.net") nil))
              (field "NotAfter" (int (pos 9)) (field "Status" (str "ISSUED") end))))
          end)
    else if operation == "describe-secret"
    then dict
        (field "VersionIdsToStages" (dict (field "v" (list (cons (str "AWSCURRENT") nil)) end)) end)
    else if operation == "get-bucket-versioning"
    then dict (field "Status" (str "Enabled") end)
    else if operation == "get-public-access-block"
    then dict (
        field "PublicAccessBlockConfiguration"
          (dict (
            field "BlockPublicAcls" (bool true) (
              field "IgnorePublicAcls" (bool true) (
                field "BlockPublicPolicy" (bool true)
                  (field "RestrictPublicBuckets" (bool true) end)))))
          end)
    else if operation == "get-bucket-encryption"
    then dict (
        field "ServerSideEncryptionConfiguration"
          (dict (field "Rules" (list (cons (dict end) nil)) end)) end)
    else dict (field "AvailabilityZones" (list (cons (dict end) (cons (dict end) nil))) end)

abbrev respond : List String → Completion
respond (program ∷ service ∷ operation ∷ rest) = completed (pos 0) operation
respond _ = completed (pos 1) ""

abbrev cloud : Host
cloud = record {
  complete = λ h c. respond c.args;
  fresh_hex = λ h. "";
  directory = λ h prefix. prefix;
  file = λ h path. record { is_symlink = false; is_file = false; size = 0; content = none };
  environ = [];
  loads = λ s. some (answer s);
  loads_pairs = λ bytes. none;
  display = λ v. "";
  sha256 = λ bytes. "";
}

abbrev clock : Times
clock = record { now = λ h. "t0"; timestamp = λ s. none; is_future = λ h v. some true }

abbrev online : Arguments
online = record { config = some (ok settings); aws_read_only = true }

abbrev offline : Arguments
offline = record { config = some (ok settings); aws_read_only = false }

checks_trial : Result (List Check)
unfolding validate_config absent_checks value_checks settings_of value_list nonsecret_https is_host
    image_groups full_match is_digit is_lower_alnum is_hex strip lstrip rstrip is_space
    first_characters
checks_trial = validate_config texts settings

checks_found : List Check
unfolding checks_trial
checks_found = elim checks_trial [ ok cs ↦ cs | err e ↦ [] ]

checks_run : (checks_trial ≡ ok checks_found) × (all_pass checks_found ≡ true)
unfolding checks_trial checks_found
checks_run = (refl, refl)

main_trial : Result (Report × ℤ) × History
unfolding main assess load_config aws_checks validate_aws resource_checks provider_checks report_of
    check read run_metadata account_matches repository_immutable image_exists certificate_ready
    is_unexpired secret_ready versioning_enabled bucket_private bucket_encrypted two_zones
    provider_ready pure raise lift ◌>>=◌ gets attempt replace_zulu checks_trial
main_trial = main texts cloud clock true online []

is_verified : Result (Report × ℤ) → Bool
is_verified (ok (report, status)) = report.readiness == "metadata_verified"
is_verified (err e) = false

main_run : is_verified main_trial.0 ≡ true
unfolding main_trial is_verified
main_run = refl

abbrev blank : Report
blank = record {
  checked_at = "";
  mode = "";
  configuration_valid = false;
  aws_metadata_checked = false;
  checks_passed = false;
  deployment_ready = false;
  readiness = "";
  checks = [];
  unverified_requirements = [];
}

main_report : Report
unfolding main_trial
main_report = elim main_trial.0 [ ok r ↦ r.0 | err e ↦ blank ]

validate_config-total_example : (checks : List Check) × (validate_config texts settings ≡ ok checks)
validate_config-total_example = validate_config-total texts settings

validate_config-IsValid_example : (s : Settings) × IsValid texts settings s
unfolding checks_trial checks_found checks_run
validate_config-IsValid_example =
    validate_config-IsValid texts settings checks_found checks_run.0 checks_run.1

main-reads_example : Extends IsRead [] (main texts cloud clock true online []).1
main-reads_example = main-reads texts cloud clock true online []

main-offline_example : (main texts cloud clock true offline []).1 ≡ []
unfolding load_config checks_trial
main-offline_example = main-offline texts cloud clock true offline [] refl

main-IsVerified_example :
    (pos 0 ≡ pos 0)
    × (online.aws_read_only ≡ true)
    × ((config : Value) × (loaded online.config ≡ ok config) × IsVerified texts cloud clock config)
unfolding main_trial main_report
main-IsVerified_example =
    main-IsVerified texts cloud clock true online [] main_trial.1 main_report (pos 0) refl refl
