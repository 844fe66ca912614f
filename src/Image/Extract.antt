-- ===== src/Image/Extract.antt =====
-- What a successful inspection has established of the image.
use mathlib.Core.Path.{subst}
use inventory_cloud_service.Base.{
  ◌≡◌, refl, sym, ap, ◌∙◌, ℕ, String, ◌<>◌, true, List, ◌∷◌, Option, some, ◌==◌, nat_eq, string_eq,
}
use inventory_cloud_service.Base.Int.{pos}
use inventory_cloud_service.Json.{
  Value, null, bool, int, float, str, list, dict, nil, cons, Result, ok, subscript, get, first,
  size, is_list, is_text, matchable, member,
}
use inventory_cloud_service.Exec.{◌>>=◌, Env, completed, ran, History, Host}
use inventory_cloud_service.Exec.Steps.{
  Steps-pure, bind-eq-ok, lift-eq-ok, require-bind-eq-ok, rethrow-eq-ok,
}
use inventory_cloud_service.Contract.{canonical}
use inventory_cloud_service.Image.Pattern.{is_image_id, is_registry_image}
use inventory_cloud_service.Image.Owned.{is_text→str, single_of, or_value_error-eq-ok}
use inventory_cloud_service.Image.Commands.{
  Extends, same, more, Extends-preorder, IsPassive, inspection-Passive,
}
use inventory_cloud_service.Image.Runs.{Answered, followed, returned, run-bind-eq-ok, ok-injective}
use inventory_cloud_service.Image.Embedded.{IsEmbedded, IsEmbedded-widen, extract_contract-eq-ok}
use inventory_cloud_service.Image.Defs.{
  Report, run_checked, loads, inspection, format, extract_contract, image_command, pull_command,
  inspect_local_contract, inspect_registry_contract, or_environ,
}

str-injective : {s t : String} → str s ≡ str t → s ≡ t
str-injective e = cc

module _ (host : Host) where
  matchable-eq-ok : (v : Value) (s : String) → matchable v ≡ ok s → v ≡ str s
  matchable-eq-ok (str t) s e = ap str (ok-injective e)
  matchable-eq-ok null s e = cc
  matchable-eq-ok (bool b) s e = cc
  matchable-eq-ok (int z) s e = cc
  matchable-eq-ok (float x) s e = cc
  matchable-eq-ok (list vs) s e = cc
  matchable-eq-ok (dict fs) s e = cc

  known_id :
      (r : Result Value) (v : Value) (a b : String)
      → r ≡ ok v
      → matchable v ≡ ok a
      → r ≡ ok (str b)
      → a ≡ b
  known_id r v a b e m k = str-injective (sym (matchable-eq-ok v a m) ∙ ok-injective (sym e ∙ k))

  loads-eq-ok :
      (s : String) (h : History) {v : Value} {u : History}
      → loads host s h ≡ (ok v, u)
      → host.loads s ≡ some v
  unfolding loads
  loads-eq-ok s h {v} e = or_value_error-eq-ok (host.loads s) v (ap (λ x. x.0) e)

  -- Docker's answer at this point: the reference is one image, with this immutable ID, and of the
  -- platform.
  pub record IsInspected (point : History) (reference platform : String) (env : Env) (image : Value)
      (id : String) : Type 0 where
    pub out : String
    pub answered : host.complete point (image_command reference env) ≡ completed (pos 0) out
    pub decoded : host.loads out ≡ some (list (cons image nil))
    pub identified : subscript image "Id" ≡ ok (str id)
    pub immutable : is_image_id id ≡ true
    pub os : Value
    pub architecture : Value
    pub os_at : subscript image "Os" ≡ ok os
    pub architecture_at : subscript image "Architecture" ≡ ok architecture
    pub on_platform : format host os <> "/" <> format host architecture ≡ platform

  inspection-eq-ok :
      (reference platform : String) (env : Env) (h : History) {image : Value} {u : History}
      → inspection host reference platform env h ≡ (ok image, u)
      → (id : String) × IsInspected h reference platform env image id
  unfolding inspection
  inspection-eq-ok reference platform env h {image} e =
      let tried = rethrow-eq-ok _ _ _ h e in
      let (v, h₁, look, r₁) =
        bind-eq-ok (run_checked host (image_command reference env) >>= loads host) _ h tried in
      let (out, answered, parsed) =
        run-bind-eq-ok host (image_command reference env) (loads host) h look in
      let (_, r₂) = require-bind-eq-ok (is_list v) _ _ h₁ r₁ in
      let (count, size_e, r₃) = lift-eq-ok (size v) _ h₁ r₂ in
      let (one, r₄) = require-bind-eq-ok (count == 1) _ _ h₁ r₃ in
      let (found, first_e, r₅) = lift-eq-ok (first v) _ h₁ r₄ in
      let (identity, id_e, r₆) = lift-eq-ok (subscript found "Id") _ h₁ r₅ in
      let (id, text_e, r₇) = lift-eq-ok (matchable identity) _ h₁ r₆ in
      let (valid, r₈) = require-bind-eq-ok (is_image_id id) _ _ h₁ r₇ in
      let (os, os_e, r₉) = lift-eq-ok (subscript found "Os") _ h₁ r₈ in
      let (architecture, arch_e, r₁₀) = lift-eq-ok (subscript found "Architecture") _ h₁ r₉ in
      let (matched, r₁₁) =
        require-bind-eq-ok (format host os <> "/" <> format host architecture == platform) _ _ h₁
          r₁₀ in
      let single =
        single_of v found identity "Id" first_e (size_e ∙ ap ok ((nat_eq.equal_iff count 1).0 one))
          id_e in
      (
        id,
        subst (λ w. IsInspected h reference platform env w id) (sym (returned found h₁ r₁₁))
            (record {
              out = out;
              answered = answered;
              decoded = loads-eq-ok out _ parsed ∙ ap some single;
              identified = id_e ∙ ap ok (matchable-eq-ok identity id text_e);
              immutable = valid;
              os = os;
              architecture = architecture;
              os_at = os_e;
              architecture_at = arch_e;
              on_platform = (string_eq.equal_iff _ _).0 matched;
            }),
      )

  -- What Docker answered, in a run from `h` to `u`, that vouches for a report: the image was inspected
  -- at `point`, and its contract came out of it afterwards.
  pub record IsVouched (h point u : History) (reference platform : String) (env : Env)
      (report : Report) : Type 0 where
    pub image : Value
    pub before : Extends IsPassive h point
    pub inspected : IsInspected point reference platform env image report.image_id
    pub named : report.platform ≡ platform
    pub compatible : report.declared ≡ canonical
    pub raw : List ℕ
    pub embedded : IsEmbedded host point u report.image_id platform env raw
    pub digest : report.contract_sha256 ≡ host.sha256 raw

  -- A report on this registry image that a run from `h` to `u` has established.
  pub record IsTrusted (h u : History) (reference : String) (env : Env) (report : Report)
      : Type 0 where
    pub pinned : is_registry_image reference ≡ true
    pub repeated : report.image ≡ some reference
    pub pulled : Answered host h (pull_command reference env)
    pub vouched :
        IsVouched h (ran (pull_command reference env) ∷ h) u reference "linux/amd64" env report
    pub digests : Value
    pub listing : get vouched.image "RepoDigests" (list nil) ≡ ok digests
    pub listed : member reference digests ≡ ok true

  -- A registry inspection succeeds only for a digest-pinned ECR reference, which the report repeats.
  -- `docker pull` of it succeeded; `docker image inspect` answered then with one image, whose ID is
  -- immutable and the report's, whose Os and Architecture give linux/amd64, and whose RepoDigests list
  -- the reference. After that `docker create` from this ID and `docker cp` succeeded, the file copied
  -- was then a regular file, no link, of at most 16384 bytes, and its bytes decode to a dict with no
  -- repeated key that declares the required capabilities exactly; the report holds the canonical
  -- contract and the digest of these bytes.
  pub inspect_registry_contract-IsTrusted :
      (reference : String) (env : Env) (h : History) {report : Report} {u : History}
      → inspect_registry_contract host reference env h ≡ (ok report, u)
      → IsTrusted h u reference env report
  unfolding inspect_registry_contract
  inspect_registry_contract-IsTrusted reference env h {report} {u} e =
      let pull = pull_command reference env in
      let (pinned, r₁) = require-bind-eq-ok (is_registry_image reference) _ _ h e in
      let (out, pulled, r₂) = run-bind-eq-ok host pull _ h r₁ in
      let (image, h₂, looked, r₃) =
        bind-eq-ok (inspection host reference "linux/amd64" env) _ (ran pull ∷ h) r₂ in
      let (digests, listing, r₄) = lift-eq-ok (get image "RepoDigests" (list nil)) _ h₂ r₃ in
      let (listed, member_e, r₅) = lift-eq-ok (member reference digests) _ h₂ r₄ in
      let (is_listed, r₆) = require-bind-eq-ok listed _ _ h₂ r₅ in
      let (identity, id_e, r₇) = lift-eq-ok (subscript image "Id") _ h₂ r₆ in
      let (image_id, text_e, r₈) = lift-eq-ok (matchable identity) _ h₂ r₇ in
      let (extracted, h₃, extracted_e, r₉) =
        bind-eq-ok (extract_contract host image_id "linux/amd64" env) _ h₂ r₈ in
      let (id, inspected) = inspection-eq-ok reference "linux/amd64" env (ran pull ∷ h) looked in
      let (declared, (raw, embedded, digest)) =
        extract_contract-eq-ok host image_id "linux/amd64" env h₂ extracted_e in
      let id_same = known_id _ identity image_id id id_e text_e inspected.identified in
      subst (IsTrusted h u reference env) (sym (returned _ h₃ r₉)) (record {
        pinned = pinned;
        repeated = refl;
        pulled = (out, pulled);
        vouched = record {
          image = image;
          before = more same refl;
          inspected =
              subst (IsInspected (ran pull ∷ h) reference "linux/amd64" env image) (sym id_same)
                inspected;
          named = refl;
          compatible = declared;
          raw = raw;
          embedded =
              IsEmbedded-widen host
                (followed _ (ran pull ∷ h) looked
                  (inspection-Passive host reference "linux/amd64" env))
                (followed _ h₃ r₉ (Steps-pure Extends-preorder _)) embedded;
          digest = digest;
        };
        digests = digests;
        listing = listing;
        listed = member_e ∙ ap ok is_listed;
      })

  -- A local inspection succeeds only for a full immutable ID. `docker image inspect` of it answered
  -- with one image, whose ID is this and the report's, and whose Os and Architecture give the platform
  -- asked for. After that `docker create` from this ID and `docker cp` succeeded, the file copied was
  -- then a regular file, no link, of at most 16384 bytes, and its bytes decode to a dict with no
  -- repeated key that declares the required capabilities exactly; the report holds the canonical
  -- contract and the digest of these bytes.
  pub inspect_local_contract-IsVouched :
      (image_id platform : String) (docker_env : Option Env) (h : History) {report : Report}
      {u : History}
      → inspect_local_contract host image_id platform docker_env h ≡ (ok report, u)
      → (is_image_id image_id ≡ true)
        × (report.image_id ≡ image_id)
        × IsVouched h h u image_id platform (or_environ docker_env host.environ) report
  unfolding inspect_local_contract
  inspect_local_contract-IsVouched image_id platform docker_env h {report} {u} e =
      let env = or_environ docker_env host.environ in
      let (full, r₁) = require-bind-eq-ok (is_image_id image_id) _ _ h e in
      let (image, h₁, looked, r₂) = bind-eq-ok (inspection host image_id platform env) _ h r₁ in
      let (found, id_e, r₃) = lift-eq-ok (subscript image "Id") _ h₁ r₂ in
      let (same_id, r₄) = require-bind-eq-ok (is_text found image_id) _ _ h₁ r₃ in
      let (extracted, h₂, extracted_e, r₅) =
        bind-eq-ok (extract_contract host image_id platform env) _ h₁ r₄ in
      let (id, inspected) = inspection-eq-ok image_id platform env h looked in
      let (declared, (raw, embedded, digest)) =
        extract_contract-eq-ok host image_id platform env h₁ extracted_e in
      let known : id ≡ image_id = str-injective (
        ok-injective
          (sym inspected.identified ∙ id_e ∙ ap ok (is_text→str found image_id same_id))) in
      subst
        (λ r.
          (is_image_id image_id ≡ true)
          × (r.image_id ≡ image_id)
          × IsVouched h h u image_id platform env r)
        (sym (returned _ h₂ r₅))
        (
          full,
          refl,
          record {
            image = image;
            before = same;
            inspected = subst (IsInspected h image_id platform env image) known inspected;
            named = refl;
            compatible = declared;
            raw = raw;
            embedded =
                IsEmbedded-widen host
                  (followed _ h looked (inspection-Passive host image_id platform env))
                  (followed _ h₂ r₅ (Steps-pure Extends-preorder _)) embedded;
            digest = digest;
          },
        )
