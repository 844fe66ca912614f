-- ===== src/Deploy/Service.antt =====
-- The reading of the ECS service that `verify_deployment` makes of the decoded responses.
use inventory_cloud_service.Base.{
  ℕ, String, Bool, true, false, not, ◌&&◌, ◌||◌, Option, none, some, List, [], ◌∷◌, ◌==◌, nat_eq,
  string_eq, if◌then◌else◌, leb,
}
use inventory_cloud_service.Base.Int.{pos, int_eq}
use inventory_cloud_service.Base.Text.{codes, is_empty}
use inventory_cloud_service.Base.Pattern.{
  is_digit, is_lower_alnum, after_literal, after_count, after_some,
}
use inventory_cloud_service.Json.{
  Value, int, as_str, present, Exc, contract, value_error, Result, ok, err, ◌>>=◌, ◌>>◌, guard,
  subscript, get, first, size, is_text, is_list, is_empty_list, iterate, matchable, null,
}

-- What the gate keeps of the service.
pub record Snapshot : Type 0 where
  pub desired : ℕ
  pub running : ℕ
  pub pending : ℕ
  pub task : String
  pub deployment_id : String

-- An `int` that is not negative; `type(value) is int` excludes a bool.
abbrev pub as_count : Value → Option ℕ
as_count (int (pos n)) = some n
as_count _ = none

-- `[A-Za-z0-9_-]`
unfoldable pub is_word : ℕ → Bool
is_word c = is_lower_alnum c || (leb b'A' c && leb c b'Z') || c == b'_' || c == b'-'

infixl 5 ◌>=>◌
abbrev ◌>=>◌ : Option (List ℕ) → (List ℕ → Option (List ℕ)) → Option (List ℕ)
none >=> f = none
some s >=> f = f s

abbrev is_end : Option (List ℕ) → Bool
is_end none = false
is_end (some []) = true
is_end (some (c ∷ s)) = false

-- `arn:aws:ecs:[a-z0-9-]+:\d{12}:task-definition/[A-Za-z0-9_-]+:\d+`; no repeated class has a colon.
unfoldable pub is_task_definition : String → Bool
unfolding is_word is_digit is_lower_alnum
is_task_definition s = is_end (
    after_literal (codes "arn:aws:ecs:") (codes s)
    >=> after_some (λ c. is_lower_alnum c || c == b'-')
    >=> after_literal (codes ":")
    >=> after_count is_digit 12
    >=> after_literal (codes ":task-definition/")
    >=> after_some is_word
    >=> after_literal (codes ":")
    >=> after_some is_digit)

abbrev pub unsettled : Exc
unsettled = contract "The service must have one settled deployment before migration or rollout."

abbrev pub unstable : Exc
unstable =
    contract
      "The service deployment is not confirmed complete and stable; migration and rollout are blocked."

-- `type(v) is int and v == n`
abbrev pub is_count : Value → ℕ → Bool
is_count v n = elim (as_count v) [ none ↦ false | some k ↦ k == n ]

-- The condition on the one deployment, its parts in the order of the `or`.
unfoldable pub check_deployment : Value → String → ℕ → ℕ → ℕ → Result String
check_deployment deployment task desired running pending = do
  identity ← subscript deployment "id"
  id ← elim (as_str identity) [ none ↦ err unstable | some s ↦ ok s ]
  guard (not (is_empty id)) unstable
  guard (is_text (← subscript deployment "status") "PRIMARY") unstable
  guard (is_text (← subscript deployment "taskDefinition") task) unstable
  guard (is_text (← subscript deployment "rolloutState") "COMPLETED") unstable
  guard (running == desired && pending == 0) unstable
  guard (is_count (← subscript deployment "desiredCount") desired) unstable
  guard (is_count (← subscript deployment "runningCount") running) unstable
  guard (is_count (← subscript deployment "pendingCount") pending) unstable
  ok id

-- The one deployment of the service.
unfoldable pub only_deployment : Value → Result Value
only_deployment service = do
  deployments ← subscript service "deployments"
  guard (is_list deployments) unsettled
  guard ((← size deployments) == 1) unsettled
  first deployments

-- The checks that follow the counts.
unfoldable pub settled : Value → String → ℕ → ℕ → ℕ → Result Snapshot
settled service task desired running pending = do
  guard (is_task_definition task) value_error
  deployment ← only_deployment service
  id ← check_deployment deployment task desired running pending
  ok (record {
    desired = desired;
    running = running;
    pending = pending;
    task = task;
    deployment_id = id;
  })

-- The one active service of the response.
unfoldable pub active_service : Value → Result Value
active_service response = do
  guard (is_empty_list (← subscript response "failures")) value_error
  services ← subscript response "services"
  guard ((← size services) == 1) value_error
  service ← first services
  guard (is_text (← subscript service "status") "ACTIVE") value_error
  ok service

-- What is read of the service.
unfoldable pub read_active : Value → Result Snapshot
read_active service = do
  desired_value ← subscript service "desiredCount"
  running_value ← subscript service "runningCount"
  pending_value ← subscript service "pendingCount"
  task_value ← subscript service "taskDefinition"
  desired ← present (as_count desired_value)
  running ← present (as_count running_value)
  pending ← present (as_count pending_value)
  task ← present (as_str task_value)
  settled service task desired running pending

-- From the response of `describe-services` to the snapshot.
unfoldable pub read_service : Value → Result Snapshot
read_service response = do service ← active_service response; read_active service

-- `[c for c in definitions if c.get('name') == 'inventory']`
abbrev pub named_inventory : List Value → Result (List Value)
named_inventory [] = ok []
named_inventory (c ∷ cs) = do
  name ← get c "name" null
  rest ← named_inventory cs
  ok (if is_text name "inventory" then c ∷ rest else rest)

abbrev pub only : List Value → Result Value
only (c ∷ []) = ok c
only _ = err value_error

-- The image of the application container of a task definition.
unfoldable pub baseline_image : Value → Result String
baseline_image definition = do
  definitions ← subscript definition "containerDefinitions"
  containers ← iterate definitions >>= named_inventory
  container ← only containers
  image ← subscript container "image"
  matchable image
