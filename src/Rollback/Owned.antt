-- ===== src/Rollback/Owned.antt =====
-- Which commands the removals of scripts/rollback-drill.py give, and what they know then.
use mathlib.Core.Path.{subst}
use inventory_cloud_service.Base.{
  ◌≡◌, refl, ap, sym, ◌∙◌, ◌⊎◌, inl, inr, String, Bool, true, false, not, Option, some, none, [],
  ◌∷◌, ◌==◌, string_eq,
}
use inventory_cloud_service.Base.Int.{pos}
use inventory_cloud_service.Json.{Value, Exc, Result, ok, err, present, first, subscript, is_text}
use inventory_cloud_service.Json.Ensures.{ok-injective}
use inventory_cloud_service.Exec.{Exec, pure, lift, ◌>>=◌, require, continue}
use inventory_cloud_service.Exec.Steps.{
  IsPreorder, Steps-bind, Steps-lift, continue-Steps, bind-eq-ok,
}
use inventory_cloud_service.Drill.{
  Bytes, Call, called, exited, Host, Drill, Identity, spawn, output_of, docker_with,
}
use inventory_cloud_service.Drill.Gone.{exited_well}
use inventory_cloud_service.Rollback.Checks.{is_own_candidate, has_other_tag}
use inventory_cloud_service.Rollback.Removal.{
  inspect_image, remove_candidate, base_tag, remove_base_tag,
}

abbrev image_call : String → String → Call
image_call action image = record {
  args = "docker" ∷ "image" ∷ action ∷ image ∷ [];
  extra_env = [];
  input = none;
  timeout = 90;
}

-- The state once the command has been given.
abbrev pub after : String → String → Drill → Drill
after action image s = record s { history = called (image_call action image) ∷ s.history }

abbrev Same : Drill → Drill → Type 0
Same s t = t ≡ s

same : IsPreorder Same
same = record { refl_at = λ s. refl; trans = λ p q. q ∙ p }

present-eq-ok : {v : Value} (o : Option Value) → present o ≡ ok v → o ≡ some v
present-eq-ok none e = cc
present-eq-ok (some w) e = ap some (ok-injective e)

lifted :
    {A : Type 0} (r : Result A) (s : Drill) {a : A} {t : Drill} → lift r s ≡ (ok a, t) → r ≡ ok a
unfolding lift
lifted r s e = ap (λ x. x.0) e

module _ (host : Host) (fixture : Identity) where
  -- Docker has answered the inspection of an image, from this state, with these details.
  pub record Inspected (image : String) (s : Drill) (details : Value) : Type 0 where
    pub out : Bytes
    pub errors : Bytes
    pub items : Value
    pub ended : host.complete s.history (image_call "inspect" image) ≡ exited (pos 0) out errors
    pub decoded : host.loads out ≡ some items
    pub head : first items ≡ ok details

  looked : String → Drill → Result Bytes
  looked image s =
      output_of host ("image" ∷ "inspect" ∷ image ∷ [])
        (host.complete s.history (image_call "inspect" image))

  inspect_image-after :
      (image : String) (s : Drill)
      → (inspect_image host fixture image s).1 ≡ after "inspect" image s
  unfolding inspect_image docker_with spawn ◌>>=◌ lift looked
  inspect_image-after image s =
      continue-Steps same (looked image s) _ (after "inspect" image s) λ out.
        Steps-bind same (lift (present (host.loads out))) (λ items. lift (first items))
          (Steps-lift same _) λ items. Steps-lift same (first items)

  inspect_image-Inspected :
      (image : String) (s : Drill) {details : Value} {t : Drill}
      → inspect_image host fixture image s ≡ (ok details, t)
      → Inspected image s details
  unfolding inspect_image docker_with spawn lift ◌>>=◌
  inspect_image-Inspected image s e =
      let (out, s₁, ended, r₁) =
        bind-eq-ok (docker_with host ("image" ∷ "inspect" ∷ image ∷ []) none [] 90) _ s e in
      let (items, s₂, decoded, r₂) = bind-eq-ok (lift (present (host.loads out))) _ s₁ r₁ in
      let (errors, success) =
        exited_well host fixture ("image" ∷ "inspect" ∷ image ∷ [])
          (host.complete s.history (image_call "inspect" image)) out (ap (λ r. r.0) ended) in
      record {
        out = out;
        errors = errors;
        items = items;
        ended = success;
        decoded = present-eq-ok (host.loads out) (lifted _ s₁ decoded);
        head = lifted _ s₂ r₂;
      }

  -- What holds of the state in which an action ends, step by step: it holds if the step raises, and
  -- of what follows the step if it returns.
  module _ (P : Drill → Type 0) where
    lift_then :
        {A : Type 0} (r : Result A) (f : A → Exec Drill (Unit {0})) (s : Drill)
        → P s
        → ((a : A) → r ≡ ok a → P (f a s).1)
        → P ((lift r >>= f) s).1
    unfolding lift ◌>>=◌
    lift_then (ok a) f s p k = k a refl
    lift_then (err e) f s p k = p

    require_then :
        (c : Bool) (x : Exc) (f : Unit {0} → Exec Drill (Unit {0})) (s : Drill)
        → P s
        → (c ≡ true → P (f tt s).1)
        → P ((require c x >>= f) s).1
    unfolding require ◌>>=◌
    require_then true x f s p k = k refl
    require_then false x f s p k = p

    remove_then :
        (image : String) (f : Bytes → Exec Drill (Unit {0})) (s : Drill)
        → P (after "rm" image s)
        → ((out : Bytes) → P (f out (after "rm" image s)).1)
        → P ((docker_with host ("image" ∷ "rm" ∷ image ∷ []) none [] 90 >>= f) s).1
    unfolding docker_with spawn lift ◌>>=◌
    remove_then image f s p k = ended (
        output_of host ("image" ∷ "rm" ∷ image ∷ [])
          (host.complete s.history (image_call "rm" image)))
      where
        ended : (r : Result Bytes) → P (continue r f (after "rm" image s)).1
        ended (ok out) = k out
        ended (err e) = p

    inspect_then :
        (image : String) (f : Value → Exec Drill (Unit {0})) (s : Drill)
        → P (after "inspect" image s)
        → ((details : Value)
            → Inspected image s details
            → P (f details (after "inspect" image s)).1)
        → P ((inspect_image host fixture image >>= f) s).1
    unfolding ◌>>=◌
    inspect_then image f s p k = ended (inspect_image host fixture image s) refl
      where
        ended :
            (r : Result Value × Drill)
            → inspect_image host fixture image s ≡ r
            → P (continue r.0 f r.1).1
        ended (ok details, t) e =
            subst (λ u. P (f details u).1) (sym (inspect_image-after image s) ∙ ap (λ r. r.1) e)
              (k details (inspect_image-Inspected image s e))
        ended (err x, t) e = subst P (sym (inspect_image-after image s) ∙ ap (λ r. r.1) e) p

  -- The details of the image are those of a candidate of this run.
  pub record IsOwnCandidate (candidate : String) (s : Drill) : Type 0 where
    pub other : not (candidate == fixture.image) ≡ true
    pub details : Value
    pub inspected : Inspected candidate s details
    pub own : is_own_candidate fixture candidate details ≡ ok true

  -- What `remove_candidate` does, whatever Docker answers. It refuses at once, or it inspects the image,
  -- and then does no more, or removes it. In the last case the image is not the verified one, and the
  -- answer to the inspection has its id and the labels of this run, of the drills and of a candidate.
  pub remove_candidate-proven :
      (candidate : String) (s : Drill)
      → let u = (remove_candidate host fixture candidate s).1 in
        let looked_at = after "inspect" candidate s in
        (u ≡ s)
        ⊎ (u ≡ looked_at)
        ⊎ ((u ≡ after "rm" candidate looked_at) × IsOwnCandidate candidate s)
  unfolding remove_candidate pure
  remove_candidate-proven candidate s = require_then Known _ _ _ s (inl refl) λ other.
      inspect_then Known candidate _ s (inr (inl refl)) λ details inspected.
        lift_then Known _ _ _ (inr (inl refl)) λ own e.
          require_then Known own _ _ _ (inr (inl refl)) λ yes_own.
            let gone : (Known (after "rm" candidate (after "inspect" candidate s))) = inr (
              inr (
                refl,
                record {
                  other = other;
                  details = details;
                  inspected = inspected;
                  own = e ∙ ap ok yes_own;
                },
              )) in
            remove_then Known candidate _ _ gone λ out. gone
    where
      Known : Drill → Type 0
      Known u =
          (u ≡ s)
          ⊎ (u ≡ after "inspect" candidate s)
          ⊎ ((u ≡ after "rm" candidate (after "inspect" candidate s)) × IsOwnCandidate candidate s)

  -- The tag is this run's own, leads to the verified image, and is not its only one.
  pub record IsSpareTag (tag : String) (s : Drill) : Type 0 where
    pub own : (tag == base_tag host fixture) ≡ true
    pub details : Value
    pub inspected : Inspected tag s details
    pub id : Value
    pub id_at : subscript details "Id" ≡ ok id
    pub is_image : is_text id fixture.image ≡ true
    pub other : has_other_tag tag details ≡ ok true

  -- What `remove_base_tag` does, whatever Docker answers. It refuses at once, or it inspects the tag, and
  -- then does no more, or removes the tag and inspects the image that it led to. In the last two cases
  -- the tag was the one of this run, and the answer to the inspection has the id of the verified image
  -- and another tag.
  pub remove_base_tag-proven :
      (tag : String) (s : Drill)
      → let u = (remove_base_tag host fixture tag s).1 in
        let gone = after "rm" tag (after "inspect" tag s) in
        (u ≡ s)
        ⊎ (u ≡ after "inspect" tag s)
        ⊎ (((u ≡ gone) ⊎ (u ≡ after "inspect" fixture.image gone)) × IsSpareTag tag s)
  unfolding remove_base_tag require
  remove_base_tag-proven tag s = require_then Known _ _ _ s (inl refl) λ own.
      inspect_then Known tag _ s (inr (inl refl)) λ details inspected.
        lift_then Known _ _ _ (inr (inl refl)) λ id id_at.
          require_then Known _ _ _ _ (inr (inl refl)) λ is_image.
            lift_then Known _ _ _ (inr (inl refl)) λ other e.
              require_then Known other _ _ _ (inr (inl refl)) λ yes_other.
                let spare : IsSpareTag tag s = record {
                  own = own;
                  details = details;
                  inspected = inspected;
                  id = id;
                  id_at = id_at;
                  is_image = is_image;
                  other = e ∙ ap ok yes_other;
                } in
                remove_then Known tag _ _ (inr (inr (inl refl, spare))) λ out.
                  inspect_then Known fixture.image _ _ (inr (inr (inr refl, spare))) λ last _.
                    lift_then Known _ _ _ (inr (inr (inr refl, spare)))
                      λ last_id _. inr (inr (inr refl, spare))
    where
      Known : Drill → Type 0
      Known u =
          (u ≡ s)
          ⊎ (u ≡ after "inspect" tag s)
          ⊎ (((u ≡ after "rm" tag (after "inspect" tag s))
                ⊎ (u ≡ after "inspect" fixture.image (after "rm" tag (after "inspect" tag s))))
              × IsSpareTag tag s)
