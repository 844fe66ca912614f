-- ===== src/Drill/World.antt =====
-- What a drill calls: Docker, the service over HTTP, the clock. Each answer may depend on all that
-- the run has done so far.
use inventory_cloud_service.Base.{ℕ, String, Bool, Option, List}
use inventory_cloud_service.Base.Int.{ℤ}
use inventory_cloud_service.Json.{Value, Fields, Exc}

abbrev pub Bytes : Type 0
Bytes = List ℕ

-- The arguments of `subprocess.run`; the environment is what is set beside the process's own.
pub record Call : Type 0 where
  pub args : List String
  pub extra_env : List (String × String)
  pub input : Option Bytes
  pub timeout : ℕ

-- How a process ends: an `OSError`, a `TimeoutExpired`, or an exit status and two outputs.
pub data Ending : Type 0 where
  unavailable timed_out : Ending
  exited : ℤ → Bytes → Bytes → Ending

-- A request to the service on a loopback port; the credentials go into the Authorization header.
pub record Request : Type 0 where
  pub port : ℤ
  pub verb : String
  pub path : String
  pub credentials : Option (String × String)
  pub body : Option Value
  pub idempotency_key : Option String
  pub timeout : ℕ

-- An `OSError`, an `HTTPException`, or a status and a payload.
pub data Reply : Type 0 where
  refused broken : Reply
  replied : ℕ → Bytes → Reply

pub data Event : Type 0 where
  called : Call → Event
  requested : Request → Event
  -- in milliseconds
  slept : ℕ → Event
  generated : String → Event

-- The latest event stands first.
abbrev pub History : Type 0
History = List Event

pub record Host : Type 0 where
  pub complete : History → Call → Ending
  pub http : History → Request → Reply
  -- `time.monotonic()`, in milliseconds
  pub clock : History → ℕ
  -- The difference of two readings of the clock, in seconds.
  pub seconds : ℕ → ℕ → Value
  -- `uuid.uuid4().hex`, and `secrets.token_urlsafe(24)`
  pub fresh_hex : History → String
  pub fresh_token : History → String
  -- `bytes.decode()`, and `bytes.decode(errors="replace")`
  pub decode : Bytes → Option String
  pub decode_replacing : Bytes → String
  -- `json.loads` of bytes
  pub loads : Bytes → Option Value
  -- `str.isdigit`, `int(value)` of a text or a number with `none` where it raises `ValueError`,
  -- `str(value)` of a number, `str.upper`, and `str(exc)`
  pub is_digits : String → Bool
  pub to_int : Value → Option ℤ
  pub display : ℤ → String
  pub upper : String → String
  pub describe : Exc → String
  -- `hashlib.sha256(...).hexdigest()`
  pub sha256 : Bytes → String

-- An entry of `migration_runs`.
pub record MigrationRun : Type 0 where
  pub role : String
  pub exit_code : ℤ
  pub duration_seconds : Value

-- What a fixture changes, with the report and the history of the run.
pub record Drill : Type 0 where
  pub containers : List String
  pub network_created : Bool
  pub runtime_passwords : List (String × String)
  pub prepared_databases : List String
  pub migration_runs : List MigrationRun
  pub report : Fields
  pub history : History

-- What a fixture keeps from its construction on.
pub record Identity : Type 0 where
  pub run_id : String
  pub prefix : String
  pub network : String
  pub admin_password : String
  pub customer_password : String
  pub db_password : String
  pub initial_runtime_password : String
  pub image : String
  pub database_image : String
  pub environment : Value
