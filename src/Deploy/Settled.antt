-- ===== src/Deploy/Settled.antt =====
-- What a service that passes has in common, whatever the responses of AWS were.
use mathlib.Core.Path.{subst}
use inventory_cloud_service.Base.{
  ◌≡◌, ap, ◌∙◌, ℕ, String, Bool, true, false, some, arith, ◌==◌, nat_eq,
}
use inventory_cloud_service.Base.Text.{is_empty}
use inventory_cloud_service.Base.Int.{pos, negsuc}
use inventory_cloud_service.Image.Owned.{is_text→str}
use inventory_cloud_service.Json.{
  null, bool, int, float, str, list, dict, Value, value_error, Result, ok, >>=-eq-ok, guard,
  subscript, is_text, first, size, is_list, is_empty_list, present, as_str,
}
use inventory_cloud_service.Json.Ensures.{guard-eq-ok, ok-injective}
use inventory_cloud_service.Deploy.Service.{
  Snapshot, unsettled, as_count, is_count, is_task_definition, check_deployment, only_deployment,
  settled, active_service, read_active, read_service,
}

count→int : (v : Value) (n : ℕ) → is_count v n ≡ true → v ≡ int (pos n)
count→int (int (pos k)) n h = ap (λ m. int (pos m)) ((nat_eq.equal_iff k n).0 h)
count→int (int (negsuc k)) n h = cc
count→int null n h = cc
count→int (bool b) n h = cc
count→int (float f) n h = cc
count→int (str t) n h = cc
count→int (list vs) n h = cc
count→int (dict fs) n h = cc

present_count : (v : Value) (n : ℕ) → present (as_count v) ≡ ok n → v ≡ int (pos n)
present_count (int (pos k)) n h = ap (λ m. int (pos m)) (ok-injective h)
present_count (int (negsuc k)) n h = cc
present_count null n h = cc
present_count (bool b) n h = cc
present_count (float f) n h = cc
present_count (str t) n h = cc
present_count (list vs) n h = cc
present_count (dict fs) n h = cc

some_text : (v : Value) (t : String) → as_str v ≡ some t → v ≡ str t
some_text (str u) t h = cc
some_text null t h = cc
some_text (bool b) t h = cc
some_text (int z) t h = cc
some_text (float f) t h = cc
some_text (list vs) t h = cc
some_text (dict fs) t h = cc

present_text : (v : Value) (t : String) → present (as_str v) ≡ ok t → v ≡ str t
present_text v t h = some_text v t (ground arith)

text_at :
    (r : Result Value) (v : Value) (t : String) → r ≡ ok v → is_text v t ≡ true → r ≡ ok (str t)
text_at r v t e h = e ∙ ap ok (is_text→str v t h)

count_at :
    (r : Result Value) (v : Value) (n : ℕ) → r ≡ ok v → is_count v n ≡ true → r ≡ ok (int (pos n))
count_at r v n e h = e ∙ ap ok (count→int v n h)

-- The deployment is the primary one of this task, its rollout is complete, and it has the counts.
pub record IsComplete (deployment : Value) (s : Snapshot) : Type 0 where
  pub named : subscript deployment "id" ≡ ok (str s.deployment_id)
  pub identified : is_empty s.deployment_id ≡ false
  pub primary : subscript deployment "status" ≡ ok (str "PRIMARY")
  pub same_task : subscript deployment "taskDefinition" ≡ ok (str s.task)
  pub rolled_out : subscript deployment "rolloutState" ≡ ok (str "COMPLETED")
  pub all_running : s.running ≡ s.desired
  pub none_pending : s.pending ≡ 0
  pub desired : subscript deployment "desiredCount" ≡ ok (int (pos s.desired))
  pub running : subscript deployment "runningCount" ≡ ok (int (pos s.running))
  pub pending : subscript deployment "pendingCount" ≡ ok (int (pos s.pending))

module _ (d : Value) (s : Snapshot) where
  -- The named field of the deployment passes a test.
  abbrev Passes : String → (Value → Bool) → Type 0
  Passes k test = (v : Value) × (subscript d k ≡ ok v) × (test v ≡ true)

  abbrev Checked : Type 0
  Checked = check_deployment d s.task s.desired s.running s.pending ≡ ok s.deployment_id

  id_at : Checked → subscript d "id" ≡ ok (str s.deployment_id)
  unfolding check_deployment
  id_at e =
      let (identity, found, is_id) : (v : Value) × (subscript d "id" ≡ ok v)
          × (as_str v ≡ some s.deployment_id) =
        ground arith in
      found ∙ ap ok (some_text identity s.deployment_id is_id)

  status-Passes : Checked → Passes "status" (λ v. is_text v "PRIMARY")
  unfolding check_deployment
  status-Passes e = ground arith

  task-Passes : Checked → Passes "taskDefinition" (λ v. is_text v s.task)
  unfolding check_deployment
  task-Passes e = ground arith

  rollout-Passes : Checked → Passes "rolloutState" (λ v. is_text v "COMPLETED")
  unfolding check_deployment
  rollout-Passes e = ground arith

  desired-Passes : Checked → Passes "desiredCount" (λ v. is_count v s.desired)
  unfolding check_deployment
  desired-Passes e = ground arith

  running-Passes : Checked → Passes "runningCount" (λ v. is_count v s.running)
  unfolding check_deployment
  running-Passes e = ground arith

  pending-Passes : Checked → Passes "pendingCount" (λ v. is_count v s.pending)
  unfolding check_deployment
  pending-Passes e = ground arith

  counts_pass :
      Checked → (s.running ≡ s.desired) × (s.pending ≡ 0) × (is_empty s.deployment_id ≡ false)
  unfolding check_deployment
  counts_pass e = ground arith

  checked-IsComplete : Checked → IsComplete d s
  checked-IsComplete e =
      let (status, status_e, primary) = status-Passes e in
      let (task, task_e, same_task) = task-Passes e in
      let (rollout, rollout_e, rolled_out) = rollout-Passes e in
      let (desired, desired_e, desired_count) = desired-Passes e in
      let (running, running_e, running_count) = running-Passes e in
      let (pending, pending_e, pending_count) = pending-Passes e in
      let (all_running, none_pending, identified) = counts_pass e in
      record {
        named = id_at e;
        identified = identified;
        primary = text_at _ status "PRIMARY" status_e primary;
        same_task = text_at _ task s.task task_e same_task;
        rolled_out = text_at _ rollout "COMPLETED" rollout_e rolled_out;
        all_running = all_running;
        none_pending = none_pending;
        desired = count_at _ desired s.desired desired_e desired_count;
        running = count_at _ running s.running running_e running_count;
        pending = count_at _ pending s.pending pending_e pending_count;
      }

-- What the service has said of itself for a snapshot to be read from it.
pub record IsRead (service : Value) (s : Snapshot) : Type 0 where
  pub desired : subscript service "desiredCount" ≡ ok (int (pos s.desired))
  pub running : subscript service "runningCount" ≡ ok (int (pos s.running))
  pub pending : subscript service "pendingCount" ≡ ok (int (pos s.pending))
  pub task : subscript service "taskDefinition" ≡ ok (str s.task)
  pub revision : is_task_definition s.task ≡ true
  pub deployments : Value
  pub deployments_at : subscript service "deployments" ≡ ok deployments
  pub a_list : is_list deployments ≡ true
  pub one_deployment : size deployments ≡ ok 1
  pub deployment : Value
  pub the_deployment : first deployments ≡ ok deployment
  pub complete : IsComplete deployment s

-- What the response of `describe-services` has said.
pub record IsSettled (response : Value) (s : Snapshot) : Type 0 where
  pub failures : Value
  pub failures_at : subscript response "failures" ≡ ok failures
  pub no_failure : is_empty_list failures ≡ true
  pub services : Value
  pub services_at : subscript response "services" ≡ ok services
  pub one_service : size services ≡ ok 1
  pub service : Value
  pub the_service : first services ≡ ok service
  pub active : subscript service "status" ≡ ok (str "ACTIVE")
  pub is_read : IsRead service s

only_deployment-eq-ok :
    (service d : Value)
    → only_deployment service ≡ ok d
    → (ds : Value) × (subscript service "deployments" ≡ ok ds)
      × (is_list ds ≡ true)
      × (size ds ≡ ok 1)
      × (first ds ≡ ok d)
unfolding only_deployment
only_deployment-eq-ok service d e =
    let (ds, at, r₁) = >>=-eq-ok (subscript service "deployments") _ e in
    let (_, listed, r₂) = >>=-eq-ok (guard (is_list ds) unsettled) _ r₁ in
    let (n, size_e, r₃) = >>=-eq-ok (size ds) _ r₂ in
    let (_, one, r₄) = >>=-eq-ok (guard (n == 1) unsettled) _ r₃ in
    (
      ds,
      at,
      guard-eq-ok (is_list ds) unsettled listed,
      size_e ∙ ap ok ((nat_eq.equal_iff n 1).0 (guard-eq-ok (n == 1) unsettled one)),
      r₄,
    )

settled-eq-ok :
    (service : Value) (task : String) (desired running pending : ℕ) (s : Snapshot)
    → settled service task desired running pending ≡ ok s
    → (id : String) × (◌≡◌ {A = Snapshot}
        (record {
          desired = desired;
          running = running;
          pending = pending;
          task = task;
          deployment_id = id;
        })
        s)
      × (is_task_definition task ≡ true)
      × ((d : Value) × (only_deployment service ≡ ok d)
          × (check_deployment d task desired running pending ≡ ok id))
unfolding settled
settled-eq-ok service task desired running pending s e =
    let (_, guarded, r₁) = >>=-eq-ok (guard (is_task_definition task) value_error) _ e in
    let (d, only_e, r₂) = >>=-eq-ok (only_deployment service) _ r₁ in
    let (id, checked, r₃) = >>=-eq-ok (check_deployment d task desired running pending) _ r₂ in
    (
      id,
      ok-injective r₃,
      guard-eq-ok (is_task_definition task) value_error guarded,
      (d, only_e, checked),
    )

read_active-IsRead :
    (service : Value) (s : Snapshot) → read_active service ≡ ok s → IsRead service s
unfolding read_active
read_active-IsRead service s e =
    let (desired_value, desired_e, r₁) = >>=-eq-ok (subscript service "desiredCount") _ e in
    let (running_value, running_e, r₂) = >>=-eq-ok (subscript service "runningCount") _ r₁ in
    let (pending_value, pending_e, r₃) = >>=-eq-ok (subscript service "pendingCount") _ r₂ in
    let (task_value, task_e, r₄) = >>=-eq-ok (subscript service "taskDefinition") _ r₃ in
    let (desired, is_desired, r₅) = >>=-eq-ok (present (as_count desired_value)) _ r₄ in
    let (running, is_running, r₆) = >>=-eq-ok (present (as_count running_value)) _ r₅ in
    let (pending, is_pending, r₇) = >>=-eq-ok (present (as_count pending_value)) _ r₆ in
    let (task, is_task, r₈) = >>=-eq-ok (present (as_str task_value)) _ r₇ in
    let (id, made, revision, (d, only_e, checked)) =
      settled-eq-ok service task desired running pending s r₈ in
    let (ds, ds_e, listed, single, the_first) = only_deployment-eq-ok service d only_e in
    subst (IsRead service) made (record {
      desired = desired_e ∙ ap ok (present_count desired_value desired is_desired);
      running = running_e ∙ ap ok (present_count running_value running is_running);
      pending = pending_e ∙ ap ok (present_count pending_value pending is_pending);
      task = task_e ∙ ap ok (present_text task_value task is_task);
      revision = revision;
      deployments = ds;
      deployments_at = ds_e;
      a_list = listed;
      one_deployment = single;
      deployment = d;
      the_deployment = the_first;
      complete = checked-IsComplete d _ checked;
    })

active_service-eq-ok :
    (response service : Value) (s : Snapshot)
    → active_service response ≡ ok service
    → IsRead service s
    → IsSettled response s
unfolding active_service
active_service-eq-ok response service s e is_read =
    let (failures, failures_e, r₁) = >>=-eq-ok (subscript response "failures") _ e in
    let (_, none_failed, r₂) = >>=-eq-ok (guard (is_empty_list failures) value_error) _ r₁ in
    let (services, services_e, r₃) = >>=-eq-ok (subscript response "services") _ r₂ in
    let (n, size_e, r₄) = >>=-eq-ok (size services) _ r₃ in
    let (_, one, r₅) = >>=-eq-ok (guard (n == 1) value_error) _ r₄ in
    let (found, first_e, r₆) = >>=-eq-ok (first services) _ r₅ in
    let (status, status_e, r₇) = >>=-eq-ok (subscript found "status") _ r₆ in
    let (_, is_active, r₈) = >>=-eq-ok (guard (is_text status "ACTIVE") value_error) _ r₇ in
    let same_service : found ≡ service = ok-injective r₈ in
    record {
      failures = failures;
      failures_at = failures_e;
      no_failure = guard-eq-ok (is_empty_list failures) value_error none_failed;
      services = services;
      services_at = services_e;
      one_service =
          size_e ∙ ap ok ((nat_eq.equal_iff n 1).0 (guard-eq-ok (n == 1) value_error one));
      service = service;
      the_service = first_e ∙ ap ok same_service;
      active =
          subst (λ v. subscript v "status" ≡ ok (str "ACTIVE")) same_service
            (text_at (subscript found "status") status "ACTIVE" status_e
              (guard-eq-ok (is_text status "ACTIVE") value_error is_active));
      is_read = is_read;
    }

-- A snapshot that `read_service` reads is that of the one, active service of the response, which has
-- no failures: its counts and its numbered ECS task definition. The service has one deployment, which
-- has the snapshot's ID and is complete: it is the primary one of that task, rolled out, and it and
-- the service agree that all desired tasks run and none is pending.
pub read_service-IsSettled :
    (response : Value) (s : Snapshot) → read_service response ≡ ok s → IsSettled response s
unfolding read_service
read_service-IsSettled response s e =
    let (service, active_e, r) = >>=-eq-ok (active_service response) _ e in
    active_service-eq-ok response service s active_e (read_active-IsRead service s r)
