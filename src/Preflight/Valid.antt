-- ===== src/Preflight/Valid.antt =====
-- What a configuration without a failed check is like.
use text.Mathlib.Text.{starts_with}
use inventory_cloud_service.Base.{
  both, Bool-cases, arith, ◌≡◌, refl, sym, ◌∙◌, ap, String, ◌<>◌, true, false, Option, some, none,
  List, [], ◌∷◌, ◌++◌, ◌==◌, string_eq, All, all_iff, inl, inr,
}
use inventory_cloud_service.Base.Text.{codes}
use inventory_cloud_service.Base.Regex.{full_match}
use inventory_cloud_service.Json.{
  Value, null, str, list, nil, dict, Fields, ok, find_key, or_default,
}
use inventory_cloud_service.Json.Ensures.{ok-injective}
use inventory_cloud_service.Preflight.Patterns.{
  region_pattern, account_pattern, is_host, ImageGroups, image_groups,
}
use inventory_cloud_service.Preflight.Config.{
  TextLibrary, Check, required, is_missing, missing_checks, field_checks, absent_checks, all_pass,
  text_item, is_image_of, is_bucket, Settings, settings_of, nonsecret_https, value_list,
  value_checks, validate_config,
}

abbrev HasText : Fields → String → Type 0
HasText config k = (s : String) × (text_item (dict config) k ≡ ok s)

found_text :
    (v : Option Value) → is_missing (or_default v null) ≡ false → (s : String) × (v ≡ some (str s))
found_text (some (str s)) p = (s, refl)
found_text _ p = cc

text_item-found :
    (config : Fields) (k : String) (s : String)
    → find_key k config ≡ some (str s)
    → text_item (dict config) k ≡ ok s
text_item-found config k s p = rw p refl

pub all_pass-++ :
    (xs ys : List Check) → all_pass (xs ++ ys) ≡ true → (all_pass xs ≡ true) × (all_pass ys ≡ true)
all_pass-++ [] ys p = (refl, p)
all_pass-++ (c ∷ xs) ys p = ground (arith, all_pass-++ xs ys)

all_pass-All : (cs : List Check) → all_pass cs ≡ true → All (λ c. c.passed ≡ true) cs
all_pass-All cs p = (all_iff _ cs).0 p

missing_checks-texts :
    (config : Fields) (ks : List String)
    → all_pass (missing_checks config ks) ≡ true
    → All (HasText config) ks
missing_checks-texts config [] p = tt
missing_checks-texts config (k ∷ ks) p =
    elim (Bool-cases (is_missing (or_default (find_key k config) null))) [
      | inl missing ↦ cc (rw missing at p)
      | inr there ↦
          let (s, found) = found_text (find_key k config) there in
          ((s, text_item-found config k s found), missing_checks-texts config ks (rw there at p))
    ]

settings_of-total :
    (config : Fields)
    → All (HasText config) required
    → (s : Settings) × (settings_of (dict config) ≡ ok s)
unfolding settings_of
settings_of-total config
      (
        (a, p1),
        ((b, p2), ((c, p3), ((d, p4), ((e, p5), ((f, p6), ((g, p7), ((h, p8), ((i, p9), _)))))))),
      ) =
    (
      record {
        region = a;
        account = b;
        bucket = c;
        image = d;
        certificate = e;
        hostname = f;
        issuer = g;
        audience = h;
        secret = i;
      },
      simp (p1, p2, p3, p4, p5, p6, p7, p8, p9),
    )

-- The settings of a configuration that has passed all checks.
pub record IsValid (library : TextLibrary) (config : Value) (s : Settings) : Type 0 where
  pub read : settings_of config ≡ ok s
  pub region : full_match region_pattern (codes s.region) ≡ true
  pub account : full_match account_pattern (codes s.account) ≡ true
  pub bucket : is_bucket s.bucket ≡ true
  -- The image stands in the registry of the account and the region.
  pub groups : ImageGroups
  pub image : image_groups s.image ≡ some groups
  pub image_account : groups.account ≡ s.account
  pub image_region : groups.region ≡ s.region
  pub certificate :
      starts_with s.certificate ("arn:aws:acm:" <> s.region <> ":" <> s.account <> ":certificate/")
      ≡ true
  pub secret :
      starts_with s.secret ("arn:aws:secretsmanager:" <> s.region <> ":" <> s.account <> ":secret:")
      ≡ true
  pub hostname : is_host s.hostname ≡ true
  pub issuer : nonsecret_https library s.issuer ≡ true

is_image_of-groups :
    (account region : String) (g : Option ImageGroups)
    → is_image_of account region g ≡ true
    → (groups : ImageGroups) × (g ≡ some groups)
      × (groups.account ≡ account)
      × (groups.region ≡ region)
is_image_of-groups account region none p = cc
is_image_of-groups account region (some g) p = (
  g,
  refl,
  (string_eq.equal_iff g.account account).0 split.0,
  (string_eq.equal_iff g.region region).0 split.1,
)
  where
    split : ((g.account == account) ≡ true) × ((g.region == region) ≡ true)
    split = both (g.account == account) (g.region == region) p

module _ (library : TextLibrary) where
  value_list-IsValid :
      (config : Value) (s : Settings) (github oidc alarms : Value)
      → settings_of config ≡ ok s
      → all_pass (value_list library s github oidc alarms) ≡ true
      → IsValid library config s
  unfolding value_list
  value_list-IsValid config s github oidc alarms read p =
      let (
        region,
        (account, (bucket, (image, (certificate, (hostname, (issuer, (audience, (secret, _)))))))),
      ) =
        all_pass-All (value_list library s github oidc alarms) p in
      let (groups, image, image_account, image_region) = is_image_of-groups _ _ _ image in
      record {
        read = read;
        region = region;
        account = account;
        bucket = bucket;
        groups = groups;
        image = image;
        image_account = image_account;
        image_region = image_region;
        certificate = (both _ _ certificate).0;
        secret = (both _ _ secret).0;
        hostname = (both _ _ hostname).0;
        issuer = (both _ _ issuer).0;
      }

  value_checks-eq :
      (config : Fields) (s : Settings)
      → settings_of (dict config) ≡ ok s
      → (github : Value) × (oidc : Value) × (alarms : Value) × (value_checks library (dict config)
          ≡ ok (value_list library s github oidc alarms))
  unfolding value_checks
  value_checks-eq config s read = (
    or_default (find_key "github_repository" config) null,
    or_default (find_key "github_oidc_provider_arn" config) null,
    or_default (find_key "alarm_actions" config) (list nil),
    rw read refl,
  )

  absent_checks_complete :
      (config : Fields)
      → all_pass (absent_checks config) ≡ true
      → (s : Settings) × (settings_of (dict config) ≡ ok s)
  unfolding absent_checks
  absent_checks_complete config p =
      settings_of-total config
        (missing_checks-texts config required (all_pass-++ (field_checks config) _ p).1)

  -- The checks of a configuration run to their end, whatever the configuration is: no look-up in it
  -- and no pattern raises.
  pub validate_config-total :
      (config : Value) → (checks : List Check) × (validate_config library config ≡ ok checks)
  unfolding validate_config
  validate_config-total (dict config) = elim (Bool-cases (all_pass (absent_checks config))) [
    | inl complete ↦
        let (s, read) = absent_checks_complete config complete in
        let (github, oidc, alarms, found) = value_checks-eq config s read in
        (value_list library s github oidc alarms, rw complete found)
    | inr incomplete ↦ (absent_checks config, rw incomplete refl)
  ]
  validate_config-total _ = (_, refl)

  complete-IsValid :
      (config : Fields) (checks : List Check)
      → value_checks library (dict config) ≡ ok checks
      → all_pass (absent_checks config) ≡ true
      → all_pass checks ≡ true
      → (s : Settings) × IsValid library (dict config) s
  complete-IsValid config checks e complete p =
      let (s, read) = absent_checks_complete config complete in
      let (github, oidc, alarms, found) = value_checks-eq config s read in
      (
        s,
        value_list-IsValid (dict config) s github oidc alarms read
            (ap all_pass (ok-injective (sym found ∙ e)) ∙ p),
      )

  -- A configuration all of whose checks pass has the nine settings as texts, with the region, the
  -- account, the bucket and the host name of the documented forms, an HTTPS issuer, and an image, a
  -- certificate and a secret of that account and region.
  pub validate_config-IsValid :
      (config : Value) (checks : List Check)
      → validate_config library config ≡ ok checks
      → all_pass checks ≡ true
      → (s : Settings) × IsValid library config s
  unfolding validate_config
  validate_config-IsValid (dict config) checks e p =
      elim (Bool-cases (all_pass (absent_checks config))) [
        | inl complete ↦ complete-IsValid config checks (rw complete at e) complete p
        | inr incomplete ↦
            cc (incomplete, p, ok-injective {a = absent_checks config} (rw incomplete at e))
      ]
  validate_config-IsValid _ checks e p = cc (p, ap all_pass (ok-injective e))
