-- ===== src/Preflight/Config.antt =====
-- `nonsecret_https` and `validate_config` of scripts/cloud-preflight.py.
use text.Mathlib.Text.{starts_with}
use inventory_cloud_service.Base.{
  ℕ, String, ◌<>◌, Bool, true, false, not, ◌&&◌, ◌||◌, Option, none, some, List, [], ◌∷◌, ◌++◌,
  ◌==◌, nat_eq, string_eq, leb, length, all, any, contains, if◌then◌else◌,
}
use inventory_cloud_service.Base.Int.{int_eq}
use inventory_cloud_service.Base.Text.{codes, strip, is_empty, is_space, occurs_in}
use inventory_cloud_service.Base.Regex.{full_match}
use inventory_cloud_service.Json.{
  Value, null, list, dict, nil, Fields, keys, Result, ok, err, ◌>>=◌, subscript, get, is_text,
  is_list, iterate, as_str, matchable,
}
use inventory_cloud_service.Preflight.Patterns.{
  region_pattern, account_pattern, bucket_pattern, address_pattern, uuid_pattern, is_host,
  secret_pattern, github_pattern, ImageGroups, image_groups,
}

-- The result of `urlparse`; reading the port may raise a `ValueError`.
pub record Url : Type 0 where
  pub scheme : String
  pub hostname : Option String
  pub username : Option String
  pub password : Option String
  pub query : String
  pub fragment : String
  pub port : Option (Option ℕ)

-- The library calls on texts: `none` stands for a `ValueError`.
pub record TextLibrary : Type 0 where
  pub urlparse : String → Option Url
  pub lower : String → String
  -- `s.endswith(suffix)`, `s.removeprefix(prefix)`, `s.count(".")`, and `fnmatch.fnmatchcase(s, pattern)`
  pub ends_with : String → String → Bool
  pub remove_prefix : String → String → String
  pub dots : String → ℕ
  pub fnmatch : String → String → Bool

-- An entry of the list of checks.
pub record Check : Type 0 where
  pub name : String
  pub passed : Bool
  pub detail : String

abbrev pub result : String → Bool → String → Check
result name passed detail = record { name = name; passed = passed; detail = detail }

abbrev pub required : List String
required =
    "aws_region" ∷ "aws_account_id" ∷ "state_bucket_name" ∷ "container_image" ∷ "certificate_arn"
    ∷ "public_hostname" ∷ "jwt_issuer_uri" ∷ "jwt_audience" ∷ "runtime_database_secret_arn" ∷ []

abbrev pub optional : List String
optional = "github_repository" ∷ "github_oidc_provider_arn" ∷ "alarm_actions" ∷ []

abbrev is_none : {A : Type 0} → Option A → Bool
is_none none = true
is_none (some a) = false

abbrev is_nonempty : Option String → Bool
is_nonempty none = false
is_nonempty (some s) = not (is_empty s)

abbrev default_port : Option (Option ℕ) → Bool
default_port none = false
default_port (some none) = true
default_port (some (some n)) = n == 443

abbrev is_plain_https : Url → Bool
is_plain_https u =
    u.scheme == "https"
    && is_nonempty u.hostname
    && is_none u.username
    && is_none u.password
    && is_empty u.query
    && is_empty u.fragment
    && default_port u.port

abbrev hostname_of : Option Url → String
hostname_of none = ""
hostname_of (some u) = elim u.hostname [ none ↦ "" | some h ↦ h ]

-- `not isinstance(value, str) or not value.strip()`
abbrev pub is_missing : Value → Bool
is_missing v = elim (as_str v) [ none ↦ true | some s ↦ is_empty (strip s) ]

abbrev pub missing_detail : String
missing_detail = "Missing required non-secret deployment setting."

abbrev pub missing_checks : Fields → List String → List Check
missing_checks config [] = []
missing_checks config (k ∷ ks) =
    let rest = missing_checks config ks in
    elim (get (dict config) k null) [
      | ok v ↦ if is_missing v then result k false missing_detail ∷ rest else rest
      | err e ↦ rest
    ]

abbrev pub field_checks : Fields → List Check
field_checks config =
    if all (λ k. contains k (required ++ optional)) (keys config)
    then []
    else result "configuration_fields" false
        "Unsupported fields supplied. Supply only documented non-secret identifiers; never credentials or passwords."
      ∷ []

abbrev pub all_pass : List Check → Bool
all_pass checks = all (λ c. c.passed) checks

unfoldable pub absent_checks : Fields → List Check
absent_checks config = field_checks config ++ missing_checks config required

-- `config[k]`, used as a text.
abbrev pub text_item : Value → String → Result String
text_item config k = subscript config k >>= matchable

abbrev pub is_image_of : String → String → Option ImageGroups → Bool
is_image_of account region none = false
is_image_of account region (some g) = g.account == account && g.region == region

abbrev pub is_bucket : String → Bool
is_bucket s =
    leb 3 (length (codes s))
    && leb (length (codes s)) 63
    && full_match bucket_pattern (codes s)
    && not (occurs_in ".." s)
    && not (full_match address_pattern (codes s))

abbrev is_topic : String → Value → Bool
is_topic prefix v = elim (as_str v) [ none ↦ false | some s ↦ starts_with s prefix ]

abbrev is_topics : String → Value → Bool
is_topics prefix v = elim (iterate v) [
  | ok vs ↦ is_list v && all (is_topic prefix) vs
  | err e ↦ false
]

abbrev is_present : Value → Bool
is_present null = false
is_present _ = true

-- The required settings.
pub record Settings : Type 0 where
  pub region : String
  pub account : String
  pub bucket : String
  pub image : String
  pub certificate : String
  pub hostname : String
  pub issuer : String
  pub audience : String
  pub secret : String

unfoldable pub settings_of : Value → Result Settings
settings_of config = do
  region ← text_item config "aws_region"
  account ← text_item config "aws_account_id"
  bucket ← text_item config "state_bucket_name"
  image ← text_item config "container_image"
  certificate ← text_item config "certificate_arn"
  hostname ← text_item config "public_hostname"
  issuer ← text_item config "jwt_issuer_uri"
  audience ← text_item config "jwt_audience"
  secret ← text_item config "runtime_database_secret_arn"
  ok (record {
    region = region;
    account = account;
    bucket = bucket;
    image = image;
    certificate = certificate;
    hostname = hostname;
    issuer = issuer;
    audience = audience;
    secret = secret;
  })

module _ (library : TextLibrary) where
  open library use {urlparse, ends_with, remove_prefix}

  unfoldable pub nonsecret_https : String → Bool
  nonsecret_https value = elim (urlparse value) [ none ↦ false | some u ↦ is_plain_https u ]

  abbrev pub github_checks : String → Value → Value → List Check
  github_checks account github oidc =
      if is_present github || is_present oidc
      then (result "github_repository"
            (elim (as_str github) [ none ↦ false | some s ↦ full_match github_pattern (codes s) ])
            "Supply owner/repository for the optional GitHub release roles."
          ∷ result "github_oidc_provider_arn"
              (is_text oidc (
                "arn:aws:iam::" <> account <> ":oidc-provider/token.actions.githubusercontent.com"))
              "The GitHub OIDC provider must belong to the expected account."
          ∷ [])
      else []

  unfoldable pub value_list : Settings → Value → Value → Value → List Check
  value_list s github oidc alarms =
      let certificate_prefix = "arn:aws:acm:" <> s.region <> ":" <> s.account <> ":certificate/" in
      let secret_prefix = "arn:aws:secretsmanager:" <> s.region <> ":" <> s.account <> ":secret:" in
      result "aws_region" (full_match region_pattern (codes s.region))
        "Use a commercial AWS region supported by this stack."
      ∷ result "aws_account_id" (full_match account_pattern (codes s.account))
          "An explicit 12-digit expected account ID prevents using the wrong AWS session."
      ∷ result "state_bucket_name" (is_bucket s.bucket)
          "Supply the existing bootstrap state bucket name."
      ∷ result "container_image" (is_image_of s.account s.region (image_groups s.image))
          "Use a digest-pinned ECR image in the expected account and region."
      ∷ result "certificate_arn"
          (starts_with s.certificate certificate_prefix
            && full_match uuid_pattern (codes (remove_prefix s.certificate certificate_prefix)))
          "Use an ACM certificate ARN from the expected account and region."
      ∷ result "public_hostname" (is_host s.hostname && not (ends_with s.hostname ".example.com"))
          "Use the real public DNS hostname; example.com placeholders are not deployment-ready."
      ∷ result "jwt_issuer_uri"
          (nonsecret_https s.issuer
            && not (ends_with (hostname_of (urlparse s.issuer)) "example.com"))
          "Use the real HTTPS OIDC issuer without credentials, query strings, or fragments."
      ∷ result "jwt_audience"
          (not (is_empty (strip s.audience)) && not (any is_space (codes s.audience)))
          "Supply the audience configured in the identity provider."
      ∷ result "runtime_database_secret_arn"
          (starts_with s.secret secret_prefix
            && full_match secret_pattern (codes (remove_prefix s.secret secret_prefix)))
          "Use the complete runtime secret ARN in the expected account and region; never a secret value."
      ∷ (github_checks s.account github oidc
          ++ result "alarm_actions"
              (is_topics ("arn:aws:sns:" <> s.region <> ":" <> s.account <> ":") alarms)
              "Alarm destinations, if supplied, must be SNS topic ARNs in the expected account and region."
            ∷ [])

  -- The checks on the values, once all required ones are there.
  unfoldable pub value_checks : Value → Result (List Check)
  value_checks config = do
    settings ← settings_of config
    github ← get config "github_repository" null
    oidc ← get config "github_oidc_provider_arn" null
    alarms ← get config "alarm_actions" (list nil)
    ok (value_list settings github oidc alarms)

  unfoldable pub validate_config : Value → Result (List Check)
  validate_config (dict config) =
      if all_pass (absent_checks config)
      then value_checks (dict config)
      else ok (absent_checks config)
  validate_config _ = ok (
      result "configuration" false "Configuration must be a JSON object of non-secret identifiers."
      ∷ [])
