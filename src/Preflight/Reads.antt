-- ===== src/Preflight/Reads.antt =====
-- Which commands the check of AWS metadata gives, and when it gives any.
use inventory_cloud_service.Base.{
  ◌≡◌, refl, ◌∙◌, String, Bool, true, false, ◌&&◌, List, ◌∷◌, ◌==◌, string_eq,
}
use inventory_cloud_service.Json.{Value, value_error, Result, ok, err}
use inventory_cloud_service.Exec.{Exec, lift, ◌>>=◌, Event, ran, History, Host}
use inventory_cloud_service.Exec.Steps.{
  IsPreorder, Steps, Steps-pure, Steps-raise, Steps-lift, Steps-if, Steps-bind, Steps-attempt,
  Steps-gets, Steps-if_known,
}
use inventory_cloud_service.Image.Commands.{Extends, same, more, Extends-preorder}
use inventory_cloud_service.Preflight.Config.{TextLibrary, Check, all_pass}
use inventory_cloud_service.Preflight.Defs.{
  Times, is_read_command, metadata_command, run_metadata, read, judged, check, account_matches,
  repository_immutable, image_exists, is_unexpired, certificate_ready, secret_ready,
  versioning_enabled, bucket_private, bucket_encrypted, two_zones, provider_ready,
}
use inventory_cloud_service.Preflight.Aws.{
  Arguments, load_config, provider_checks, resource_checks, validate_aws, aws_checks, assess, main,
}

-- An `aws` command of the allowlist.
abbrev pub is_read : List String → Bool
is_read (program ∷ service ∷ operation ∷ arguments) =
    program == "aws" && is_read_command service operation
is_read _ = false

abbrev pub IsRead : Event → Type 0
IsRead (ran c) = is_read c.args ≡ true
IsRead _ = ⊥

abbrev Reads : {A : Type 0} → Exec History A → Type 0
Reads = Steps (Extends IsRead)

-- Nothing happens.
abbrev Still : {A : Type 0} → Exec History A → Type 0
Still = Steps (λ s t. t ≡ s)

Still-preorder : IsPreorder {S = History} (λ s t. t ≡ s)
Still-preorder = record { refl_at = λ s. refl; trans = λ p q. q ∙ p }

ruleset read_rules = (
  Steps-pure, Steps-raise, Steps-lift, Steps-if, Steps-bind, Steps-attempt, Steps-gets,
  Extends-preorder,
)

module _ (library : TextLibrary) (host : Host) (times : Times) where
  module _ (region : String) where
    run_metadata-Reads :
        (service operation : String) (arguments : List String)
        → is_read_command service operation ≡ true
        → Reads (
            run_metadata library host times region
              (metadata_command library host times region service operation arguments))
    unfolding run_metadata
    run_metadata-Reads service operation arguments p = record { at = λ h. more same p }

    read-Reads :
        (service operation : String) (arguments : List String)
        → Reads (read library host times region service operation arguments)
    unfolding read
    read-Reads service operation arguments =
        Steps-if_known (is_read_command service operation) _ _
          (run_metadata-Reads service operation arguments)
          (Steps-raise Extends-preorder value_error)

    judged-Reads :
        (name detail : String) (r : Result Bool)
        → Reads (judged library host times region name detail r)
    judged-Reads name detail (ok b) = search read_rules
    judged-Reads name detail (err e) = search read_rules

    check-Reads :
        (name : String) (m : Exec History Bool) (detail : String)
        → Reads m
        → Reads (check library host times region name m detail)
    unfolding check
    check-Reads name m detail p = search (read_rules, judged-Reads)

    account_matches-Reads :
        (config : Value) → Reads (account_matches library host times region config)
    unfolding account_matches
    account_matches-Reads config = search (read_rules, read-Reads) depth 40

    repository_immutable-Reads :
        (repository : String) → Reads (repository_immutable library host times region repository)
    unfolding repository_immutable
    repository_immutable-Reads repository = search (read_rules, read-Reads) depth 40

    image_exists-Reads :
        (repository digest : String)
        → Reads (image_exists library host times region repository digest)
    unfolding image_exists
    image_exists-Reads repository digest = search (read_rules, read-Reads) depth 40

    is_unexpired-Reads : (v : Value) → Reads (is_unexpired library host times region v)
    unfolding is_unexpired
    is_unexpired-Reads v = record { at = λ h. same }

    certificate_ready-Reads :
        (config : Value) → Reads (certificate_ready library host times region config)
    unfolding certificate_ready
    certificate_ready-Reads config = search (read_rules, read-Reads, is_unexpired-Reads) depth 40

    secret_ready-Reads : (config : Value) → Reads (secret_ready library host times region config)
    unfolding secret_ready
    secret_ready-Reads config = search (read_rules, read-Reads) depth 40

    versioning_enabled-Reads :
        (config : Value) (bucket : String)
        → Reads (versioning_enabled library host times region config bucket)
    unfolding versioning_enabled
    versioning_enabled-Reads config bucket = search (read_rules, read-Reads) depth 40

    bucket_private-Reads :
        (config : Value) (bucket : String)
        → Reads (bucket_private library host times region config bucket)
    unfolding bucket_private
    bucket_private-Reads config bucket = search (read_rules, read-Reads) depth 40

    bucket_encrypted-Reads :
        (config : Value) (bucket : String)
        → Reads (bucket_encrypted library host times region config bucket)
    unfolding bucket_encrypted
    bucket_encrypted-Reads config bucket = search (read_rules, read-Reads) depth 40

    two_zones-Reads : Reads (two_zones library host times region)
    unfolding two_zones
    two_zones-Reads = search (read_rules, read-Reads) depth 40

    provider_ready-Reads :
        (config : Value) → Reads (provider_ready library host times region config)
    unfolding provider_ready
    provider_ready-Reads config = search (read_rules, read-Reads) depth 40

    provider_checks-Reads :
        (config : Value) → Reads (provider_checks library host times region config)
    unfolding provider_checks
    provider_checks-Reads config = search (read_rules, check-Reads, provider_ready-Reads) depth 40

    resource_checks-Reads :
        (config : Value) → Reads (resource_checks library host times region config)
    unfolding resource_checks
    resource_checks-Reads config =
        search
          (
            read_rules, check-Reads, repository_immutable-Reads, image_exists-Reads,
            certificate_ready-Reads, secret_ready-Reads, versioning_enabled-Reads,
            bucket_private-Reads, bucket_encrypted-Reads, two_zones-Reads, provider_checks-Reads,
          )
          depth 60

    validate_aws-Reads : (config : Value) → Reads (validate_aws library host times region config)
    unfolding validate_aws
    validate_aws-Reads config =
        search (read_rules, check-Reads, account_matches-Reads, resource_checks-Reads) depth 40

  aws_checks-Reads :
      (allowed installed : Bool) (config : Value)
      → Reads (aws_checks library host times allowed installed config)
  unfolding aws_checks
  aws_checks-Reads allowed installed config = search (read_rules, validate_aws-Reads) depth 40

  assess-Reads :
      (installed : Bool) (args : Arguments) (found : Value × List Check)
      → Reads (assess library host times installed args found)
  unfolding assess
  assess-Reads installed args (config, checks) = search (read_rules, aws_checks-Reads) depth 40

  -- Whatever the configuration, the AWS command line and the arguments, and whether the script
  -- succeeds or raises: each thing that it does to the world is an `aws` command whose service and
  -- operation stand in the list of reads.
  pub main-reads :
      (installed : Bool) (args : Arguments) (h : History)
      → Extends IsRead h (main library host times installed args h).1
  unfolding main
  main-reads installed args h =
      (Steps-bind Extends-preorder _ _ (Steps-lift Extends-preorder _)
          (assess-Reads installed args)).at
        h

  -- The script may ask AWS: the flag is given, the command line is installed, and the configuration
  -- has passed all checks.
  abbrev may_ask : Bool → Arguments → Result (Value × List Check) → Bool
  may_ask installed args (ok p) = (args.aws_read_only && all_pass p.1) && installed
  may_ask installed args (err e) = false

  abbrev pub is_permitted : Bool → Arguments → Bool
  is_permitted installed args = may_ask installed args (load_config library args.config)

  aws_checks-Still :
      (allowed installed : Bool) (config : Value)
      → allowed && installed ≡ false
      → Still (aws_checks library host times allowed installed config)
  unfolding aws_checks
  aws_checks-Still true true config p = cc
  aws_checks-Still true false config p = Steps-pure Still-preorder _
  aws_checks-Still false installed config p = Steps-pure Still-preorder _

  assess-Still :
      (installed : Bool) (args : Arguments) (config : Value) (checks : List Check)
      → (args.aws_read_only && all_pass checks) && installed ≡ false
      → Still (assess library host times installed args (config, checks))
  unfolding assess
  assess-Still installed args config checks p =
      search (Steps-bind, Steps-gets, Steps-pure, Still-preorder, aws_checks-Still)

  lift-assess-Still :
      (installed : Bool) (args : Arguments) (r : Result (Value × List Check)) (h : History)
      → may_ask installed args r ≡ false
      → ((lift r >>= assess library host times installed args) h).1 ≡ h
  unfolding ◌>>=◌ lift
  lift-assess-Still installed args (ok (config, checks)) h p =
      (assess-Still installed args config checks p).at h
  lift-assess-Still installed args (err e) h p = refl

  -- Where the flag is not given, the command line is not installed or the configuration has not
  -- passed all checks, the script does nothing to the world: it asks AWS for nothing.
  pub main-offline :
      (installed : Bool) (args : Arguments) (h : History)
      → is_permitted installed args ≡ false
      → (main library host times installed args h).1 ≡ h
  unfolding main
  main-offline installed args h p =
      lift-assess-Still installed args (load_config library args.config) h p
