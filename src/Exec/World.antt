-- ===== src/Exec/World.antt =====
-- The world that the scripts call: processes, random identifiers, temporary files, and the standard
-- library's decoder and digest. Each answer may depend on all that the run has done so far.
use inventory_cloud_service.Base.{ℕ, String, Bool, Option, List}
use inventory_cloud_service.Base.Int.{ℤ}
use inventory_cloud_service.Json.{Value}

-- Environment variables, as a mapping.
abbrev pub Env : Type 0
Env = List (String × String)

-- The arguments of `subprocess.run`.
pub record Command : Type 0 where
  pub args : List String
  pub environment : Option Env
  pub input : Option String
  pub timeout : ℕ

-- How `subprocess.run(..., text=True)` ends: an `OSError`, a `TimeoutExpired`, output that is no
-- text, or an exit status with standard output.
pub data Completion : Type 0 where
  unavailable timed_out undecodable : Completion
  completed : ℤ → String → Completion

pub data Event : Type 0 where
  ran : Command → Event
  named : String → Event
  made_directory : String → Event
  removed_directory : String → Event
  read_file : String → Event

-- The latest event stands first.
abbrev pub History : Type 0
History = List Event

-- What `Path` tells of a file; `content` is missing where `stat` or `read_bytes` raises.
pub record FileStatus : Type 0 where
  pub is_symlink : Bool
  pub is_file : Bool
  pub size : ℕ
  pub content : Option (List ℕ)

pub record Host : Type 0 where
  -- `subprocess.run`
  pub complete : History → Command → Completion
  -- `uuid.uuid4().hex`
  pub fresh_hex : History → String
  -- `tempfile.TemporaryDirectory(prefix=...)`
  pub directory : History → String → String
  pub file : History → String → FileStatus
  -- `os.environ.copy()`
  pub environ : Env
  -- `json.loads` of a text, `none` where it raises `ValueError`
  pub loads : String → Option Value
  -- `json.loads` of bytes before the hook for objects is applied: every pair of an object is
  -- kept, also under a repeated key. `none` where it raises `ValueError`.
  pub loads_pairs : List ℕ → Option Value
  -- `str(v)` of a value that is no text
  pub display : Value → String
  -- `hashlib.sha256(...).hexdigest()`
  pub sha256 : List ℕ → String
