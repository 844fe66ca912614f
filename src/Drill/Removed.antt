-- ===== src/Drill/Removed.antt =====
-- What `cleanup` has achieved when it reports no errors.
use mathlib.Core.List.{reverse}
use mathlib.Core.Path.{subst}
use inventory_cloud_service.Base.{
  ℕ, ◌≡◌, refl, sym, ap, ◌∙◌, String, string_eq, Option, Bool, true, false, List, [], ◌∷◌, ◌++◌,
  All, arith, if◌then◌else◌,
}
use inventory_cloud_service.Base.Int.{int_eq}
use inventory_cloud_service.Json.{Value, Result, ok, err}
use inventory_cloud_service.Exec.{Exec, pure, ◌>>=◌, gets, attempt, modify}
use inventory_cloud_service.Exec.Steps.{
  IsPreorder, Steps, Steps-bind, Steps-pure, Steps-attempt, bind-eq-ok, lift-eq-ok, pure-eq-ok,
}
use inventory_cloud_service.Drill.World.{Bytes, Call, Host, Drill, Identity}
use inventory_cloud_service.Drill.Defs.{spawn, docker_with, docker_text}
use inventory_cloud_service.Drill.Fixture.{check_labels, owned, new_fixture}
use inventory_cloud_service.Drill.Keeps.{action_rules}
use inventory_cloud_service.Drill.Session.{
  Outcome, outcome, attempt_run, conclude, main_with, share_runs, note,
}
use inventory_cloud_service.Drill.Metadata.{metadata}
use inventory_cloud_service.Drill.Recovery.{run_drill, attempt_drill, main}
use inventory_cloud_service.Drill.Runtime.{
  remove_container, remove_network, errors_of, remove_containers, cleanup,
}
use inventory_cloud_service.Drill.Gone.{
  attempted, got, IsGoneContainer, IsGoneNetwork, remove_network-IsGone, remove_containers-IsGone,
}

module _ (host : Host) (fixture : Identity) where
  abbrev pub AllGone : Drill → Type 0
  AllGone s =
      All (IsGoneContainer host fixture) (reverse s.containers)
      × (s.network_created ≡ true → (IsGoneNetwork host fixture))

  abbrev SameNetwork : Drill → Drill → Type 0
  SameNetwork s t = s.network_created ≡ t.network_created

  abbrev Quiet : {A : Type 0} → Exec Drill A → Type 0
  Quiet = Steps SameNetwork

  quiet : IsPreorder SameNetwork
  quiet = record { refl_at = λ s. refl; trans = λ p q. p ∙ q }

  spawn-Quiet : (c : Call) → Quiet (spawn host c)
  unfolding spawn
  spawn-Quiet c = record { at = λ s. refl }

  docker_with-Quiet :
      (args : List String) (input : Option Bytes) (env : List (String × String)) (timeout : ℕ)
      → Quiet (docker_with host args input env timeout)
  unfolding docker_with
  docker_with-Quiet args input env timeout = search (action_rules, quiet, spawn-Quiet) depth 40

  docker_text-Quiet : (args : List String) (timeout : ℕ) → Quiet (docker_text host args timeout)
  unfolding docker_text
  docker_text-Quiet args timeout = search (action_rules, quiet, docker_with-Quiet) depth 40

  check_labels-Quiet :
      (kind name : String) (item : Value) → Quiet (check_labels host fixture kind name item)
  unfolding check_labels
  check_labels-Quiet kind name item = search (action_rules, quiet) depth 40

  owned-Quiet : (kind name : String) → Quiet (owned host fixture kind name)
  unfolding owned
  owned-Quiet kind name =
      search (action_rules, quiet, docker_with-Quiet, check_labels-Quiet) depth 40

  remove_container-Quiet : (name : String) → Quiet (remove_container host fixture name)
  unfolding remove_container
  remove_container-Quiet name =
      search (action_rules, quiet, docker_text-Quiet, owned-Quiet, docker_with-Quiet) depth 40

  remove_containers-Quiet : (names : List String) → Quiet (remove_containers host fixture names)
  unfolding remove_containers
  remove_containers-Quiet [] = Steps-pure quiet []
  remove_containers-Quiet (name ∷ names) =
      Steps-bind quiet _ _ (Steps-attempt quiet _ (remove_container-Quiet name))
        λ removed. Steps-bind quiet _ _ (remove_containers-Quiet names) λ rest. Steps-pure quiet _

  network-IsGone :
      (created : Bool) (errors : List String) (s : Drill) {t : Drill}
      → (if created
            then (attempt (remove_network host fixture) >>= λ removed.
                pure (errors ++ errors_of host fixture fixture.network removed))
            else pure errors)
          s
        ≡ (ok [], t)
      → (errors ≡ []) × (created ≡ true → (IsGoneNetwork host fixture))
  network-IsGone true errors s e =
      let (done, s₁, tried, r) = bind-eq-ok (attempt (remove_network host fixture)) _ s e in
      let (none_left, fine) = empty_parts errors done (sym (pure-eq-ok _ s₁ r)) in
      (
        none_left,
        λ _.
            (remove_network-IsGone host fixture) s
              (attempted (remove_network host fixture) s tried ∙ ap (λ r. (r, s₁)) fine),
      )
    where
      empty_parts :
          (errors : List String) (r : Result (Unit {0}))
          → errors ++ errors_of host fixture fixture.network r ≡ []
          → (errors ≡ []) × (r ≡ ok tt)
      empty_parts [] (ok u) h = (refl, refl)
      empty_parts [] (err x) h = cc
      empty_parts (x ∷ errors) r h = cc
  network-IsGone false errors s e = (sym (pure-eq-ok errors s e), λ h. cc)

  pub cleanup-AllGone : (s : Drill) {t : Drill} → cleanup host fixture s ≡ (ok [], t) → AllGone s
  unfolding cleanup
  cleanup-AllGone s e =
      let (names, s₀, names_e, r₀) = bind-eq-ok (gets (λ z. z.containers)) _ s e in
      let (errors, s₁, containers, r) =
        bind-eq-ok (remove_containers host fixture (reverse names)) _ s₀ r₀ in
      let (created, s₂, created_e, r₁) = bind-eq-ok (gets (λ z. z.network_created)) _ s₁ r in
      let (none_left, network) = network-IsGone created errors s₂ r₁ in
      let (names_are, s_is) = got (λ z. z.containers) s names_e in
      let (created_is, _) = got (λ z. z.network_created) s₁ created_e in
      let emptied = containers ∙ ap (λ l. (ok l, s₁)) none_left in
      let unchanged = (remove_containers-Quiet (reverse names)).at s₀ in
      (
        subst (λ l. All (IsGoneContainer host fixture) (reverse l)) names_are
            (remove_containers-IsGone host fixture (reverse names) s₀ emptied),
        λ c. network (
            created_is
            ∙ ap (λ z. z.1.network_created) (sym containers)
            ∙ sym unchanged
            ∙ ap (λ z. z.network_created) s_is
            ∙ c),
      )

outcome_passed :
    (r : Result (Unit {0})) (errors : List String)
    → (outcome r errors).exit_status ≡ 0
    → (r ≡ ok tt) × (errors ≡ [])
outcome_passed (ok u) [] z = (refl, refl)
outcome_passed (ok u) (e ∷ es) z = absurd (ground arith)
outcome_passed (err x) es z = absurd (ground arith)

module _ (host : Host) (run : Identity → Exec Drill (Unit {0})) where
  conclude-eq_zero :
      (made : Result Identity) (s : Drill) {o : Outcome} {t : Drill}
      → conclude host run made s ≡ (ok o, t)
      → o.exit_status ≡ 0
      → (fixture : Identity) × (after : Drill) × (made ≡ ok fixture)
        × (attempt_run host run fixture s ≡ (ok tt, after))
        × AllGone host fixture after
  unfolding conclude
  conclude-eq_zero (err x) s e z =
      absurd (ground (arith, ap (λ o. o.exit_status) (pure-eq-ok _ s e)))
  conclude-eq_zero (ok fixture) s e z =
      let (result, s₁, tried, r₁) = bind-eq-ok (attempt (attempt_run host run fixture)) _ s e in
      let (errors, s₂, cleaned, r₂) = bind-eq-ok (cleanup host fixture) _ s₁ r₁ in
      let (u, s₃, shared, r₃) = bind-eq-ok (modify (share_runs host run fixture)) _ s₂ r₂ in
      let (fine, none_left) =
        outcome_passed result errors
          (sym (ap (λ o. o.exit_status) (pure-eq-ok (outcome result errors) s₃ r₃)) ∙ z) in
      (
        fixture,
        s₁,
        refl,
        attempted (attempt_run host run fixture) s tried ∙ ap (λ r. (r, s₁)) fine,
        cleanup-AllGone host fixture s₁ (cleaned ∙ ap (λ l. (ok l, s₂)) none_left),
      )

  pub main_with-eq_zero :
      (image database_image : String) (s : Drill) {o : Outcome} {t : Drill}
      → main_with host run image database_image s ≡ (ok o, t)
      → o.exit_status ≡ 0
      → (fixture : Identity) × (before after : Drill) × (new_fixture host image database_image s
          ≡ (ok fixture, before))
        × (attempt_run host run fixture before ≡ (ok tt, after))
        × AllGone host fixture after
  unfolding main_with
  main_with-eq_zero image database_image s e z =
      let (made, before, tried, r) =
        bind-eq-ok (attempt (new_fixture host image database_image)) _ s e in
      let (fixture, after, is_made, ran, gone) = conclude-eq_zero made before r z in
      (
        fixture,
        before,
        after,
        attempted (new_fixture host image database_image) s tried ∙ ap (λ m. (m, before)) is_made,
        ran,
        gone,
      )

module _ (host : Host) (run : Identity → Exec Drill (Unit {0})) where
  -- The drill ran from `start` to `after` on the fixture that was made for it, and was cleaned up.
  pub record HasRun (image database_image : String) (s : Drill) (fixture : Identity)
      (start after : Drill) : Type 0 where
    pub before : Drill
    pub environment : Value
    pub made : new_fixture host image database_image s ≡ (ok fixture, before)
    pub described : metadata fixture [] ≡ ok environment
    pub noted : note "environment" environment before ≡ (ok tt, start)
    pub ran : run fixture start ≡ (ok tt, after)
    pub gone : AllGone host fixture after

  pub main_with-HasRun :
      (image database_image : String) (s : Drill) {o : Outcome} {t : Drill}
      → main_with host run image database_image s ≡ (ok o, t)
      → o.exit_status ≡ 0
      → (fixture : Identity) × (start after : Drill) × HasRun image database_image s fixture start
          after
  unfolding attempt_run
  main_with-HasRun image database_image s e z =
      let (fixture, before, after, made, attempted_e, gone) =
        main_with-eq_zero host run image database_image s e z in
      let (environment, described, r₁) = lift-eq-ok (metadata fixture []) _ before attempted_e in
      let (_, start, noted, r₂) = bind-eq-ok (note "environment" environment) _ before r₁ in
      (
        fixture,
        start,
        after,
        record {
          before = before;
          environment = environment;
          made = made;
          described = described;
          noted = noted;
          ran = r₂;
          gone = gone;
        },
      )

module _ (host : Host) where
  -- The exit status is 0 only if the drill ran to its end on the fixture that was made for it, and the
  -- cleanup after it has seen to it that every container that the fixture tracked, and its network if
  -- it was made, is gone.
  pub main-eq_zero :
      (image database_image : String) (s : Drill) {o : Outcome} {t : Drill}
      → main host image database_image s ≡ (ok o, t)
      → o.exit_status ≡ 0
      → (fixture : Identity) × (before after : Drill) × (new_fixture host image database_image s
          ≡ (ok fixture, before))
        × (attempt_drill host fixture before ≡ (ok tt, after))
        × AllGone host fixture after
  unfolding main attempt_drill
  main-eq_zero image database_image s e z =
      main_with-eq_zero host (run_drill host) image database_image s e z
