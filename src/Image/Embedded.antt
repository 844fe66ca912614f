-- ===== src/Image/Embedded.antt =====
-- What a successful extraction has established of the file that `docker cp` wrote.
use mathlib.Core.Path.{subst}
use inventory_cloud_service.Base.{
  ◌≡◌, refl, sym, ap, ◌∙◌, ℕ, ◌≤◌, String, true, false, List, ◌∷◌, Option, none, some, arith,
}
use inventory_cloud_service.Json.{Value, dict, Fields, Result, ok, err}
use inventory_cloud_service.Json.Unique.{UniqueFields, UniqueKeys}
use inventory_cloud_service.Exec.{
  lift, rethrow, Env, ran, made_directory, read_file, History, FileStatus, Host,
}
use inventory_cloud_service.Exec.Steps.{
  Steps-pure, Steps-lift, Steps-rethrow, bind-eq-ok, rethrow-eq-ok, finally-eq-ok,
}
use inventory_cloud_service.Contract.{Contract, canonical, strict}
use inventory_cloud_service.Contract.Validate.{Declares, validate_contract-eq-ok}
use inventory_cloud_service.Contract.Strict.{strict-eq-ok_iff}
use inventory_cloud_service.Image.Commands.{
  Extends, same, more, Extends-trans, Extends-preorder, IsPassive, new_ownership-Passive,
  remove_owned_container-Passive,
}
use inventory_cloud_service.Image.Defs.{
  new_ownership, content, decode, validated, decoded, is_value_error, extract_copied,
  extract_contract, create_command, copy_command,
}
use inventory_cloud_service.Image.Runs.{
  lifted, returned, followed, with_directory-eq-ok, read-bind-eq-ok, run-bind-eq-ok, Answered,
}

accepted :
    (v : Value) (r : Result Value) (c : Contract)
    → strict v ≡ r
    → validated r ≡ ok c
    → (c ≡ canonical)
      × ((fs : Fields) × (caps : List String) × (v ≡ dict fs) × UniqueFields fs × Declares fs caps)
accepted v (ok w) c s e =
    let (kept, unique) = (strict-eq-ok_iff v w).0 s in
    let (kept_canonical, (fs, caps, shape, declares)) = (validate_contract-eq-ok w c).0 e in
    let whole : v ≡ dict fs = sym kept ∙ shape in
    (kept_canonical, (fs, caps, whole, subst UniqueKeys whole unique, declares))
accepted v (err x) c s e = cc

module _ (host : Host) where
  -- Between `h` and `u` a container that starts nothing was created from the image, `docker cp` copied
  -- its file to `output`, and what then stood there was a small regular file with these bytes, which
  -- decode to a release contract with no repeated key.
  pub record IsEmbedded (h u : History) (image_id platform : String) (env : Env) (raw : List ℕ)
      : Type 0 where
    pub name : String
    pub ownership : String
    pub output : String
    pub point : History
    pub before : Extends IsPassive h point
    pub created : Answered host point (create_command name ownership platform image_id env)
    pub copied :
        Answered host
          (ran (create_command name ownership platform image_id env) ∷ point)
          (copy_command name output env)
    pub status : FileStatus
    pub found :
        host.file
          (ran (copy_command name output env)
            ∷ ran (create_command name ownership platform image_id env)
            ∷ point)
          output
        ≡ status
    pub after :
        Extends IsPassive
          (ran (copy_command name output env)
            ∷ ran (create_command name ownership platform image_id env)
            ∷ point)
          u
    pub regular : status.is_file ≡ true
    pub direct : status.is_symlink ≡ false
    pub small : status.size ≤ 16384
    pub read : status.content ≡ some raw
    pub fields : Fields
    pub decoded : host.loads_pairs raw ≡ some (dict fields)
    pub unique : UniqueFields fields
    pub capabilities : List String
    pub declares : Declares fields capabilities

  pub IsEmbedded-widen :
      {g h u v : History} {image_id platform : String} {env : Env} {raw : List ℕ}
      → Extends IsPassive g h
      → Extends IsPassive u v
      → IsEmbedded h u image_id platform env raw
      → IsEmbedded g v image_id platform env raw
  IsEmbedded-widen p q e = record {
    name = e.name;
    ownership = e.ownership;
    output = e.output;
    point = e.point;
    created = e.created;
    copied = e.copied;
    status = e.status;
    found = e.found;
    regular = e.regular;
    direct = e.direct;
    small = e.small;
    read = e.read;
    fields = e.fields;
    decoded = e.decoded;
    unique = e.unique;
    capabilities = e.capabilities;
    declares = e.declares;
    before = Extends-trans p e.before;
    after = Extends-trans e.after q;
  }

  content_lem :
      (s : FileStatus) (raw : List ℕ)
      → content host s ≡ ok raw
      → (s.is_file ≡ true) × (s.is_symlink ≡ false) × (s.size ≤ 16384) × (s.content ≡ some raw)
  content_lem s raw e = ground arith

  decode-eq-ok :
      (raw : List ℕ) (c : Contract)
      → decode host raw ≡ ok c
      → (c ≡ canonical)
        × ((fs : Fields) × (caps : List String) × (host.loads_pairs raw ≡ some (dict fs))
            × UniqueFields fs
            × Declares fs caps)
  unfolding decode
  decode-eq-ok raw c e = split_pairs (host.loads_pairs raw) refl e
    where
      split_pairs :
          (o : Option Value)
          → host.loads_pairs raw ≡ o
          → decoded o ≡ ok c
          → (c ≡ canonical)
            × ((fs : Fields) × (caps : List String) × (host.loads_pairs raw ≡ some (dict fs))
                × UniqueFields fs
                × Declares fs caps)
      split_pairs none p h = cc
      split_pairs (some v) p h =
          let (kept_canonical, (fs, caps, shape, unique, declares)) =
            accepted v (strict v) c refl h in
          (kept_canonical, (fs, caps, p ∙ ap some shape, unique, declares))

  abbrev pub IsExtracted : History → History → String → String → Env → Contract × String → Type 0
  IsExtracted h u image_id platform env extracted =
      (extracted.0 ≡ canonical)
      × ((raw : List ℕ) × IsEmbedded h u image_id platform env raw
          × (extracted.1 ≡ host.sha256 raw))

  extract_copied-eq-ok :
      (name ownership image_id platform : String) (env : Env) (output : String) (h : History)
      {extracted : Contract × String} {u : History}
      → extract_copied host name ownership image_id platform env output h ≡ (ok extracted, u)
      → IsExtracted h u image_id platform env extracted
  unfolding extract_copied
  extract_copied-eq-ok name ownership image_id platform env output h {extracted} {u} e =
      let create = create_command name ownership platform image_id env in
      let copy = copy_command name output env in
      let (made_id, created, r₁) = run-bind-eq-ok host create _ h e in
      let (nothing, copied, r₂) = run-bind-eq-ok host copy _ (ran create ∷ h) r₁ in
      let at_copy : History = ran copy ∷ ran create ∷ h in
      let (raw, read_e, r₃) = read-bind-eq-ok host output _ at_copy r₂ in
      let (declared, h₄, tried, r₄) =
        bind-eq-ok (rethrow is_value_error _ (lift (decode host raw))) _
          (read_file output ∷ at_copy) r₃ in
      let decoded_e = rethrow-eq-ok is_value_error _ (lift (decode host raw)) _ tried in
      let (canonical_e, (fs, caps, pairs, unique, declares)) =
        decode-eq-ok raw declared (lifted (decode host raw) _ decoded_e) in
      let (regular, direct, small, read) = content_lem (host.file at_copy output) raw read_e in
      let made : extracted ≡ (declared, host.sha256 raw) = returned _ h₄ r₄ in
      (
        ap (λ x. x.0) made ∙ canonical_e,
        (
          raw,
          record {
            name = name;
            ownership = ownership;
            output = output;
            point = h;
            before = same;
            created = (made_id, created);
            copied = (nothing, copied);
            status = host.file at_copy output;
            found = refl;
            after = Extends-trans (more same tt) (
                Extends-trans
                  (followed _ (read_file output ∷ at_copy) tried
                    (Steps-rethrow Extends-preorder _ _ _ (Steps-lift Extends-preorder _)))
                  (followed _ h₄ r₄ (Steps-pure Extends-preorder _)));
            regular = regular;
            direct = direct;
            small = small;
            read = read;
            fields = fs;
            decoded = pairs;
            unique = unique;
            capabilities = caps;
            declares = declares;
          },
          ap (λ x. x.1) made,
        ),
      )

  pub extract_contract-eq-ok :
      (image_id platform : String) (env : Env) (h : History) {extracted : Contract × String}
      {u : History}
      → extract_contract host image_id platform env h ≡ (ok extracted, u)
      → IsExtracted h u image_id platform env extracted
  unfolding extract_contract
  extract_contract-eq-ok image_id platform env h e =
      let (ownership, h₁, named, r₁) = bind-eq-ok (new_ownership host) _ h e in
      let (path, t, body, removed) = with_directory-eq-ok host _ _ h₁ r₁ in
      let (v, ran_e, cleaned) = finally-eq-ok _ _ (made_directory path ∷ h₁) body in
      let (canonical_e, (raw, embedded, digest)) =
        extract_copied-eq-ok _ ownership image_id platform env _ (made_directory path ∷ h₁) ran_e in
      (
        canonical_e,
        (
          raw,
          IsEmbedded-widen (more (followed _ h named (new_ownership-Passive host)) tt)
              (subst (Extends IsPassive v) removed (
                more
                  (followed _ v cleaned
                    (remove_owned_container-Passive host _ ownership image_id env))
                  tt))
              embedded,
          digest,
        ),
      )
