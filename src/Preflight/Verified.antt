-- ===== src/Preflight/Verified.antt =====
-- What a run of the preflight that ends with status 0 has found out from AWS.
use inventory_cloud_service.Base.{
  both, ◌≡◌, refl, sym, ◌∙◌, Bool-cases, inl, inr, ap, String, Bool, true, false, ◌&&◌, ◌++◌,
  Option, some, none, ◌==◌, string_eq, List, [], ◌∷◌, all_iff,
}
use inventory_cloud_service.Base.Int.{ℤ, pos}
use inventory_cloud_service.Json.{Value, dict, end, Result, ok, err}
use inventory_cloud_service.Json.Ensures.{ok-injective}
use inventory_cloud_service.Exec.{Exec, lift, attempt, ◌>>=◌, History, Host}
use inventory_cloud_service.Exec.Finds.{
  Finds, Finds-skip, Finds-lift, Finds-pure, Finds-bind, Finds-if, Finds-raise, Finds-weaken,
  Finds-attempt,
}
use inventory_cloud_service.Preflight.Patterns.{ImageGroups, image_groups}
use inventory_cloud_service.Preflight.Config.{
  TextLibrary, Check, result, all_pass, text_item, Settings, validate_config,
}
use inventory_cloud_service.Preflight.Valid.{all_pass-++, IsValid, validate_config-IsValid}
use inventory_cloud_service.Preflight.Defs.{
  Times, is_metadata_error, judged, check, account_matches, repository_immutable, image_exists,
  certificate_ready, secret_ready, versioning_enabled, bucket_private, bucket_encrypted, two_zones,
}
use inventory_cloud_service.Preflight.Aws.{
  is_unreadable, expect_match, Arguments, Report, resource_checks, validate_aws, loaded, validated,
  load_config, aws_checks, readiness_of, report_of, assess, main,
}

all_pass-∷ :
    (c : Check) (cs : List Check)
    → all_pass (c ∷ cs) ≡ true
    → (c.passed ≡ true) × (all_pass cs ≡ true)
all_pass-∷ c cs p = both c.passed (all_pass cs) p

-- A run of the test has returned True.
pub record IsFound (m : Exec History Bool) : Type 0 where
  pub before : History
  pub after : History
  pub found : m before ≡ (ok true, after)

module _ (library : TextLibrary) (host : Host) (times : Times) (region : String) where
  judged-Finds :
      (name detail : String) (r : Result Bool)
      → Finds (λ c. c.passed ≡ true → r ≡ ok true) (judged library host times region name detail r)
  judged-Finds name detail (ok b) = Finds-pure (result name b detail) (λ p. ap ok p)
  judged-Finds name detail (err e) =
      Finds-if (is_metadata_error e) _ _ (λ _. Finds-pure _ (λ p. cc)) (λ _. Finds-raise e)

  check-Finds :
      (name : String) (m : Exec History Bool) (detail : String)
      → Finds (λ c. c.passed ≡ true → IsFound m) (check library host times region name m detail)
  unfolding check
  check-Finds name m detail = Finds-bind (attempt m) _ (Finds-attempt m) λ r (h, g, run).
      Finds-weaken _ (judged-Finds name detail r)
        λ c passed p. record { before = h; after = g; found = run ∙ ap (λ x. (x, g)) (passed p) }

  -- The tests on the resources of a configuration that each have returned True.
  pub record IsReady (config : Value) : Type 0 where
    pub reference : String
    pub reference_at : text_item config "container_image" ≡ ok reference
    pub image : ImageGroups
    pub image_at : image_groups reference ≡ some image
    pub bucket : String
    pub bucket_at : text_item config "state_bucket_name" ≡ ok bucket
    pub immutable : IsFound (repository_immutable library host times region image.repository)
    pub exists : IsFound (image_exists library host times region image.repository image.digest)
    pub certificate : IsFound (certificate_ready library host times region config)
    pub secret : IsFound (secret_ready library host times region config)
    pub versioning : IsFound (versioning_enabled library host times region config bucket)
    pub private : IsFound (bucket_private library host times region config bucket)
    pub encryption : IsFound (bucket_encrypted library host times region config bucket)
    pub zones : IsFound (two_zones library host times region)

  expect_match-eq-ok :
      (m : Option ImageGroups) (g : ImageGroups) → expect_match m ≡ ok g → m ≡ some g
  expect_match-eq-ok none g e = cc
  expect_match-eq-ok (some f) g e = ap some (ok-injective e)

  resource_checks-Finds :
      (config : Value)
      → Finds
          (λ cs. all_pass cs ≡ true → IsReady config)
          (resource_checks library host times region config)
  unfolding resource_checks
  resource_checks-Finds config = Finds-bind _ _ (Finds-lift _) λ reference e1.
      Finds-bind _ _ (Finds-lift _) λ image e2. Finds-bind _ _ (check-Finds _ _ _) λ immutable f1.
        Finds-bind _ _ (check-Finds _ _ _) λ exists f2.
          Finds-bind _ _ (check-Finds _ _ _) λ certificate f3.
            Finds-bind _ _ (check-Finds _ _ _) λ secret f4.
              Finds-bind _ _ (Finds-lift _) λ bucket e3.
                Finds-bind _ _ (check-Finds _ _ _) λ versioning f5.
                  Finds-bind _ _ (check-Finds _ _ _) λ access f6.
                    Finds-bind _ _ (check-Finds _ _ _) λ encryption f7.
                      Finds-bind _ _ (check-Finds _ _ _) λ zones f8. Finds-skip _ _ λ provider.
                        Finds-pure _ λ p.
                          let (p1, (p2, (p3, (p4, (p5, (p6, (p7, (p8, _)))))))) =
                            (all_iff (λ c. c.passed)
                                (immutable ∷ exists ∷ certificate ∷ secret ∷ versioning ∷ access
                                  ∷ encryption ∷ zones ∷ provider)).0
                              p in
                          record {
                            reference = reference;
                            reference_at = e1;
                            image = image;
                            image_at = expect_match-eq-ok _ image e2;
                            bucket = bucket;
                            bucket_at = e3;
                            immutable = f1 p1;
                            exists = f2 p2;
                            certificate = f3 p3;
                            secret = f4 p4;
                            versioning = f5 p5;
                            private = f6 p6;
                            encryption = f7 p7;
                            zones = f8 p8;
                          }

  validate_aws-Finds :
      (config : Value)
      → Finds
          (λ cs.
            all_pass cs ≡ true
            → IsFound (account_matches library host times region config) × IsReady config)
          (validate_aws library host times region config)
  unfolding validate_aws
  validate_aws-Finds config = Finds-bind _ _ (check-Finds _ _ _) λ account found.
      Finds-if account.passed _ _
        (λ yes.
          Finds-bind _ _ (resource_checks-Finds config)
            λ cs ready. Finds-pure _ λ p. (found yes, ready ((all_pass-∷ account cs p).1)))
        (λ no. Finds-pure _ λ p. cc (no, (all_pass-∷ account [] p).0))

untrue : {A : Type 0} → false ≡ true → A
untrue e = cc

-- Only checks that all pass, AWS's among them, make the readiness so.
readiness_of-eq :
    (checks_passed aws_checked : Bool)
    → readiness_of checks_passed aws_checked ≡ "metadata_verified"
    → (checks_passed ≡ true) × (aws_checked ≡ true)
readiness_of-eq true true e = (refl, refl)
readiness_of-eq true false e = untrue (ap (λ s. s == "metadata_verified") e)
readiness_of-eq false aws_checked e = untrue (ap (λ s. s == "metadata_verified") e)

module _ (library : TextLibrary) (host : Host) (times : Times) where
  -- The region, the account and the resources that the configuration names are as they must be.
  pub record IsVerified (config : Value) : Type 0 where
    pub settings : Settings
    pub valid : IsValid library config settings
    pub region : String
    pub region_at : text_item config "aws_region" ≡ ok region
    pub account : IsFound (account_matches library host times region config)
    pub ready : IsReady library host times region config

  abbrev Asked : Value → Type 0
  Asked config =
      (region : String) × (text_item config "aws_region" ≡ ok region)
      × IsFound (account_matches library host times region config)
      × IsReady library host times region config

  aws_checks-Finds :
      (allowed installed : Bool) (config : Value)
      → Finds
          (λ p. p.0 ≡ true → all_pass p.1 ≡ true → (allowed ≡ true) × Asked config)
          (aws_checks library host times allowed installed config)
  unfolding aws_checks
  aws_checks-Finds allowed installed config =
      Finds-if allowed _ _
        (λ permitted.
          Finds-if installed _ _
            (λ _. Finds-bind _ _ (Finds-lift _) λ region e.
              Finds-bind _ _ (validate_aws-Finds library host times region config) λ cs verified.
                Finds-pure _ λ _ p.
                  let (account, ready) = verified p in (permitted, (region, e, account, ready)))
            (λ _. Finds-pure _ λ p. cc))
        (λ _. Finds-pure _ λ p. cc)

  assess-Finds :
      (installed : Bool) (args : Arguments) (config : Value) (checks : List Check)
      → Finds
          (λ r.
            r.0.readiness ≡ "metadata_verified"
            → (all_pass checks ≡ true) × (args.aws_read_only ≡ true) × (r.1 ≡ pos 0) × Asked config)
          (assess library host times installed args (config, checks))
  unfolding assess report_of
  assess-Finds installed args config checks =
      Finds-bind _ _ (aws_checks-Finds (args.aws_read_only && all_pass checks) installed config)
        λ (asked, more) verified. Finds-skip _ _ λ time. Finds-pure _ λ e.
          let (passed, a) = readiness_of-eq (all_pass (checks ++ more)) asked e in
          let (permitted, found) = verified a (all_pass-++ checks more passed).1 in
          let (flag, valid) = both args.aws_read_only (all_pass checks) permitted in
          (valid, flag, rw passed refl, found)

  validated-eq-ok :
      (config : Value) (r : Result (List Check)) (c : Value) (checks : List Check)
      → validated config r ≡ ok (c, checks)
      → all_pass checks ≡ true
      → (r ≡ ok checks) × (config ≡ c)
  validated-eq-ok config (ok cs) c checks e p =
      (ap (λ q. ok (q.1)) (ok-injective e), ap (λ q. q.0) (ok-injective e))
  validated-eq-ok config (err x) c checks e p = elim (Bool-cases (is_unreadable x)) [
    | inl unreadable_file ↦
        untrue (ap (λ q. all_pass q.1) (ok-injective (rw unreadable_file at e)) ∙ p)
    | inr other ↦ cc (rw other at e)
  ]

  load_config-eq-ok :
      (file : Option (Result Value)) (config : Value) (checks : List Check)
      → load_config library file ≡ ok (config, checks)
      → all_pass checks ≡ true
      → (loaded file ≡ ok config) × (validate_config library config ≡ ok checks)
  unfolding load_config
  load_config-eq-ok none config checks e p =
      let (there, same) =
        validated-eq-ok _ (validate_config library (dict end)) config checks e p in
      (ap ok same, ap (validate_config library) (sym same) ∙ there)
  load_config-eq-ok (some (ok c)) config checks e p =
      let (there, same) = validated-eq-ok _ (validate_config library c) config checks e p in
      (ap ok same, ap (validate_config library) (sym same) ∙ there)
  load_config-eq-ok (some (err x)) config checks e p =
      let (failed, _) = validated-eq-ok (dict end) (err x) config checks e p in cc failed

  -- A report whose readiness is "metadata_verified" comes with exit status 0, and only where the
  -- flag for AWS was given and the file of settings was read and is valid; then the account of the
  -- session was the expected one, and each test on the repository, the image, the certificate, the
  -- secret, the state bucket and the zones has returned True.
  pub main-IsVerified :
      (installed : Bool) (args : Arguments) (h g : History) (report : Report) (status : ℤ)
      → main library host times installed args h ≡ (ok (report, status), g)
      → report.readiness ≡ "metadata_verified"
      → (status ≡ pos 0)
        × (args.aws_read_only ≡ true)
        × ((config : Value) × (loaded args.config ≡ ok config) × IsVerified config)
  unfolding main
  main-IsVerified installed args h g report status e ready = (found.at h _ g e) ready
    where
      found :
          Finds
            (λ r.
              r.0.readiness ≡ "metadata_verified"
              → (r.1 ≡ pos 0)
                × (args.aws_read_only ≡ true)
                × ((config : Value) × (loaded args.config ≡ ok config) × IsVerified config))
            (lift (load_config library args.config) >>= assess library host times installed args)
      found = Finds-bind _ _ (Finds-lift _) λ (config, checks) there.
          Finds-weaken _ (assess-Finds installed args config checks) λ r known verified.
            let (passed, flag, zero_status, asked) = known verified in
            let (region, region_at, account, resources) = asked in
            let (read, validated_at) = load_config-eq-ok args.config config checks there passed in
            let (s, valid) = validate_config-IsValid library config checks validated_at passed in
            (
              zero_status,
              flag,
              (
                config,
                read,
                record {
                  settings = s;
                  valid = valid;
                  region = region;
                  region_at = region_at;
                  account = account;
                  ready = resources;
                },
              ),
            )
