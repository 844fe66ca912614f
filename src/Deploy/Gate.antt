-- ===== src/Deploy/Gate.antt =====
-- What `verify_deployment` reports.
use mathlib.Core.Path.{subst}
use inventory_cloud_service.Base.{
  ◌≡◌, refl, sym, ap, String, Bool, true, false, not, Option, none, some, ltb, arith,
}
use inventory_cloud_service.Json.{ok}
use inventory_cloud_service.Exec.{Exec, Env, Command, Event, History, Host}
use inventory_cloud_service.Exec.Steps.{
  Steps, Steps-pure, Steps-raise, Steps-lift, Steps-if, Steps-bind, bind-eq-ok, lift-eq-ok,
}
use inventory_cloud_service.Image.{Report, run_checked, inspect_registry_contract, with_directory}
use inventory_cloud_service.Image.Commands.{
  Extends, same, more, IsPassive, Extends-trans, Extends-preorder, inspect_registry-Passive,
}
use inventory_cloud_service.Image.Runs.{returned, followed, with_directory-eq-ok}
use inventory_cloud_service.Image.Extract.{IsTrusted, inspect_registry_contract-IsTrusted}
use inventory_cloud_service.Deploy.Service.{Snapshot}
use inventory_cloud_service.Deploy.Found.{
  RollsBack, nothing_live, pinned, IsFound, find_baseline-IsFound,
}
use inventory_cloud_service.Deploy.Defs.{
  Baseline, Verified, env_item, env_set, env_pop, is_live, aws, find_baseline, docker_host,
  inspect_baseline, inspect_images, verify_deployment,
}

abbrev pub IsAny : Event → Type 0
IsAny _ = Unit

-- The second history is a later point of a run than the first.
abbrev pub Precedes : History → History → Type 0
Precedes = Extends IsAny

pub Passive-any : {h u : History} → Extends IsPassive h u → Precedes h u
Passive-any same = same
Passive-any (more p e) = more (Passive-any p) tt

pub ruleset any_rules =
    (Steps-pure, Steps-raise, Steps-lift, Steps-if, Steps-bind, Extends-preorder)

abbrev pub Goes : {A : Type 0} → Exec History A → Type 0
Goes = Steps Precedes

module _ (host : Host) where
  -- The baseline report: there is one exactly if tasks are live, on the image to roll back to.
  pub data Covers (g t : History) (docker_env : Env)
      : Bool → Option String → Option Report → Type 0 where
    bootstraps : Covers g t docker_env false none none
    restores :
        {image : String} {report : Report}
        → IsTrusted host g t image docker_env report
        → Covers g t docker_env true (some image) (some report)

  -- The two inspections of the gate, in a run from `h` to `u`.
  pub record AreInspected (h u : History) (b : Baseline) (reports : Report × Option Report)
      : Type 0 where
    pub docker_env : Env
    pub start : History
    pub middle : History
    pub finish : History
    pub before : Precedes h start
    pub candidate : IsTrusted host start middle b.candidate docker_env reports.0
    pub rollback : Covers middle finish docker_env (is_live b.service) b.image reports.1
    pub after : Precedes finish u

  -- The run has found the baseline in the answers of AWS, then inspected its images, and the report
  -- says so.
  pub record IsApproved (h u : History) (env : Env) (v : Verified) : Type 0 where
    pub baseline : Baseline
    pub point : History
    pub was_found : find_baseline host env h ≡ (ok baseline, point)
    pub found : IsFound host h env baseline
    pub inspections : AreInspected point u baseline (v.candidate, v.rollback_baseline)
    pub task : v.previous_task ≡ baseline.service.task
    pub deployment : v.previous_deployment_id ≡ baseline.service.deployment_id
    pub desired : v.previous_count ≡ baseline.service.desired
    pub all_running : v.previous_running_count ≡ v.previous_count
    pub none_pending : v.previous_pending_count ≡ 0
    pub live : is_live baseline.service ≡ ltb 0 v.previous_count
    pub bootstrap : v.bootstrap_without_running_baseline ≡ not (ltb 0 v.previous_count)

  pub run_checked-Goes : (c : Command) → Goes (run_checked host c)
  unfolding run_checked
  run_checked-Goes c = record { at = λ h. more same tt }

  pub docker_host-Goes : (environment env : Env) → Goes (docker_host host environment env)
  unfolding docker_host
  docker_host-Goes environment env = search (any_rules, run_checked-Goes) depth 40

  inspect_baseline-Covers :
      {point : History} (region repository task : String) (live : Bool) (image : Option String)
      (env : Env) (h : History) {report : Option Report} {u : History}
      → RollsBack host point region repository task live image
      → inspect_baseline host image env h ≡ (ok report, u)
      → (t : History) × Precedes t u × Covers h t env live image report
  unfolding inspect_baseline
  inspect_baseline-Covers region repository task false none env h nothing_live e = (
    h,
    followed _ h e (Steps-pure Extends-preorder none),
    subst (Covers h h env false none) (sym (returned none h e)) bootstraps,
  )
  inspect_baseline-Covers region repository task false (some i) env h p e = elim p [ ]
  inspect_baseline-Covers region repository task true none env h p e = elim p [ ]
  inspect_baseline-Covers region repository task true (some image) env h
        (pinned definition told read valid own) e =
      let (report, h₁, report_e, r) = bind-eq-ok (inspect_registry_contract host image env) _ h e in
      (
        h₁,
        followed _ h₁ r (Steps-pure Extends-preorder (some report)),
        subst (Covers h h₁ env true (some image)) (sym (returned (some report) h₁ r))
            (restores (inspect_registry_contract-IsTrusted host image env h report_e)),
      )

  inspect_images-AreInspected :
      {p : History} (environment : Env) (region asked task : String) (b : Baseline)
      (temporary : String) (h : History) {reports : Report × Option Report} {u : History}
      → RollsBack host p asked b.repository task (is_live b.service) b.image
      → inspect_images host environment region b temporary h ≡ (ok reports, u)
      → AreInspected h u b reports
  unfolding inspect_images aws
  inspect_images-AreInspected environment region asked task b temporary h {u = u} rolls_back e =
      let set = env_set "DOCKER_CONFIG" temporary environment in
      let (with_host, h₁, asked_e, r₁) = bind-eq-ok (docker_host host environment set) _ h e in
      let docker_env = env_pop "DOCKER_CONTEXT" with_host in
      let (password, h₂, password_e, r₂) = bind-eq-ok (run_checked host _) _ h₁ r₁ in
      let (_, h₃, login_e, r₃) = bind-eq-ok (run_checked host _) _ h₂ r₂ in
      let (selected, h₄, selected_e, r₄) =
        bind-eq-ok (inspect_registry_contract host b.candidate docker_env) _ h₃ r₃ in
      let (baseline, h₅, baseline_e, r₅) =
        bind-eq-ok (inspect_baseline host b.image docker_env) _ h₄ r₄ in
      let (finish, finished, covers) =
        inspect_baseline-Covers asked b.repository task (is_live b.service) b.image docker_env h₄
          rolls_back baseline_e in
      subst (AreInspected h u b) (sym (returned (selected, baseline) h₅ r₅)) (record {
        docker_env = docker_env;
        start = h₃;
        middle = h₄;
        finish = finish;
        before = Extends-trans (followed _ h asked_e (docker_host-Goes environment set)) (
            Extends-trans (followed _ h₁ password_e (run_checked-Goes _))
              (followed _ h₂ login_e (run_checked-Goes _)));
        candidate = inspect_registry_contract-IsTrusted host b.candidate docker_env h₃ selected_e;
        rollback = covers;
        after =
            Extends-trans finished
              (followed _ h₅ r₅ (Steps-pure Extends-preorder (selected, baseline)));
      })

  AreInspected-widen :
      {g h t u : History} {b : Baseline} {reports : Report × Option Report}
      → Precedes g h
      → Precedes t u
      → AreInspected h t b reports
      → AreInspected g u b reports
  AreInspected-widen p q i = record {
    docker_env = i.docker_env;
    start = i.start;
    middle = i.middle;
    finish = i.finish;
    before = Extends-trans p i.before;
    candidate = i.candidate;
    rollback = i.rollback;
    after = Extends-trans i.after q;
  }

  live_count : (s : Snapshot) → s.running ≡ s.desired → s.pending ≡ 0 → is_live s ≡ ltb 0 s.desired
  live_count s r p = ground arith

  -- If the gate passes, `find_baseline` returned in its run what these answers of AWS say: the
  -- repository of the configured name; the configured service, active, with one complete deployment,
  -- all desired tasks running and none pending; and, exactly if tasks are live, the image of the
  -- application container of its task definition, pinned by a digest in the repository. After that
  -- the gate's inspections, in its own run, have established their reports on the candidate, which is
  -- the repository's image with the requested digest, and on that live image if there is one. The
  -- report repeats the service's task definition, counts and deployment, and the bootstrap flag says
  -- that no task is desired.
  pub verify_deployment-IsApproved :
      (env : Env) (h : History) {v : Verified} {u : History}
      → verify_deployment host env h ≡ (ok v, u)
      → IsApproved h u env v
  unfolding verify_deployment
  verify_deployment-IsApproved env h {v} {u} e =
      let (b, h₁, found_e, r₁) = bind-eq-ok (find_baseline host env) _ h e in
      let found = find_baseline-IsFound host env h found_e in
      let (region, _, r₂) = lift-eq-ok (env_item "AWS_REGION" env) _ h₁ r₁ in
      let (reports, h₃, reports_e, r₃) =
        bind-eq-ok
          (with_directory host "inventory-registry-auth-" (inspect_images host env region b)) _ h₁
          r₂ in
      let (temporary, t, body, removed) =
        with_directory-eq-ok host _ (inspect_images host env region b) h₁ reports_e in
      let inspections =
        inspect_images-AreInspected env region found.region b.service.task b temporary _
          found.rolls_back body in
      let closed : Precedes t u =
        Extends-trans (subst (Precedes t) removed (more same tt))
          (followed _ h₃ r₃ (Steps-pure Extends-preorder _)) in
      let complete = found.settled.is_read.complete in
      let live = live_count b.service complete.all_running complete.none_pending in
      subst (IsApproved h u env) (sym (returned _ h₃ r₃)) (record {
        baseline = b;
        point = h₁;
        was_found = found_e;
        found = found;
        inspections = AreInspected-widen (more same tt) closed inspections;
        task = refl;
        deployment = refl;
        desired = refl;
        all_running = complete.all_running;
        none_pending = complete.none_pending;
        live = live;
        bootstrap = ap not live;
      })
