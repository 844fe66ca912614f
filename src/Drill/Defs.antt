-- ===== src/Drill/Defs.antt =====
-- The module functions of scripts/recovery-drill.py, and its class Api.
use inventory_cloud_service.Base.{
  ℕ, zero, suc, ◌+◌, ◌*◌, String, ◌<>◌, Bool, true, false, Option, none, some, List, [], ◌∷◌, ◌==◌,
  nat_eq, string_eq, if◌then◌else◌, ltb,
}
use inventory_cloud_service.Base.Int.{ℤ, pos, int_eq}
use inventory_cloud_service.Base.Text.{strip, is_empty}
use inventory_cloud_service.Json.{
  Value, null, bool, int, float, str, Exc, runtime, key_error, type_error, os_error,
  timeout_expired, http_error, out_of_fuel, Result, ok, err, present, subscript, is_text,
}
use inventory_cloud_service.Exec.{Exec, pure, raise, lift, ◌>>=◌, ◌>>◌, require, attempt}
use inventory_cloud_service.Drill.World.{
  Bytes, Call, Ending, unavailable, timed_out, exited, Request, Reply, refused, broken, replied,
  called, requested, slept, Host, Drill, Identity,
}

abbrev pub owner_label : String
owner_label = "inventory.drill.run"

abbrev pub purpose_label : String
purpose_label = "inventory.drill.purpose"

abbrev pub purpose : String
purpose = "disposable-local-verification"

abbrev first_or_empty : List String → String
first_or_empty [] = ""
first_or_empty (a ∷ args) = a

-- `require(condition, message)`
abbrev pub demand : Bool → String → Exec Drill (Unit {0})
demand c message = require c (runtime message)

-- `int(value)`, from what it gives for a text or a number
abbrev pub to_integer : (Value → Option ℤ) → Value → Result ℤ
to_integer to_int (str s) = present (to_int (str s))
to_integer to_int (int z) = ok z
to_integer to_int (bool b) = present (to_int (bool b))
to_integer to_int (float f) = present (to_int (float f))
to_integer to_int _ = err type_error

module _ (host : Host) where
  -- `subprocess.run(..., capture_output=True)`
  unfoldable pub spawn : Call → Exec Drill Ending
  spawn c s = (ok (host.complete s.history c), record s { history = called c ∷ s.history })

  -- What `docker` makes of the end of the process.
  abbrev pub output_of : List String → Ending → Result Bytes
  output_of args unavailable = err os_error
  output_of args timed_out = err timeout_expired
  output_of args (exited code out errors) =
      if code == pos 0
      then ok out
      else err (
          runtime (
            "Docker "
            <> first_or_empty args
            <> " failed: "
            <> strip (host.decode_replacing errors)))

  -- `docker` with its keyword arguments
  unfoldable pub docker_with :
      List String → Option Bytes → List (String × String) → ℕ → Exec Drill Bytes
  docker_with args input extra_env timeout = do
    ending ←
        spawn (record {
          args = "docker" ∷ args;
          extra_env = extra_env;
          input = input;
          timeout = timeout;
        })
    lift (output_of args ending)

  abbrev pub docker : List String → Exec Drill Bytes
  docker args = docker_with args none [] 90

  -- `docker(...).decode()`
  unfoldable pub docker_text : List String → ℕ → Exec Drill String
  docker_text args timeout = do
    out ← docker_with args none [] timeout
    lift (present (host.decode out))

  unfoldable pub sleep : ℕ → Exec Drill (Unit {0})
  sleep ms s = (ok tt, record s { history = slept ms ∷ s.history })

  -- `time.monotonic()`
  unfoldable pub monotonic : Exec Drill ℕ
  monotonic s = (ok (host.clock s.history), s)

  unfoldable pub send : Request → Exec Drill Reply
  send r s = (ok (host.http s.history r), record s { history = requested r ∷ s.history })

  abbrev payload_of : Bytes → Result Value
  payload_of [] = ok null
  payload_of (b ∷ bs) = present (host.loads (b ∷ bs))

  abbrev with_status : ℕ → Result Value → Result (ℕ × Value)
  with_status status (ok v) = ok (status, v)
  with_status status (err e) = err e

  abbrev pub response_of : Reply → Result (ℕ × Value)
  response_of refused = err os_error
  response_of broken = err http_error
  response_of (replied status payload) = with_status status (payload_of payload)

abbrev pub password_of : Identity → String → Result String
password_of fixture account =
    if account == "admin"
    then ok fixture.admin_password
    else if account == "customer"
    then ok fixture.customer_password
    else err key_error

abbrev no_account : Option String → Bool
no_account none = true
no_account (some account) = is_empty account

-- What goes into the Authorization header; `if account` is false for an empty name.
abbrev pub credentials_of : Identity → Option String → Result (Option (String × String))
credentials_of fixture none = ok none
credentials_of fixture (some account) =
    if is_empty account
    then ok none
    else elim (password_of fixture account) [ ok p ↦ ok (some (account, p)) | err e ↦ err e ]

-- What a request of `Api` says beside the account.
pub record Message : Type 0 where
  pub verb : String
  pub path : String
  pub body : Option Value
  pub idempotency_key : Option String

abbrev pub get_path : String → Message
get_path path = record { verb = "GET"; path = path; body = none; idempotency_key = none }

abbrev pub post : String → Value → Option String → Message
post path body key = record { verb = "POST"; path = path; body = some body; idempotency_key = key }

abbrev pub is_transport_error : Exc → Bool
is_transport_error os_error = true
is_transport_error http_error = true
is_transport_error _ = false

-- `Api` for the service on a port.
module _ (host : Host) (fixture : Identity) (port : ℤ) where
  unfoldable pub request : Message → Option String → ℕ → Exec Drill (ℕ × Value)
  request m account timeout = do
    credentials ← lift (credentials_of fixture account)
    reply ← send host (record {
      port = port;
      verb = m.verb;
      path = m.path;
      credentials = credentials;
      body = m.body;
      idempotency_key = m.idempotency_key;
      timeout = timeout;
    })
    lift (response_of host reply)

  unfoldable pub expect : Message → String → ℕ → Exec Drill Value
  expect m account status = do
    response ← request m (some account) 10
    demand (response.0 == status) (
        m.verb
        <> " "
        <> m.path
        <> ": expected "
        <> host.display (pos status)
        <> ", received "
        <> host.display (pos response.0))
    pure response.1

  abbrev status_word : ℕ → String
  status_word expected = if expected == 200 then "UP" else "DOWN"

  abbrev display_last : Option ℕ → String
  display_last none = "None"
  display_last (some n) = host.display (pos n)

  -- Whether the response ends the wait; any exception but those of the transport passes through.
  unfoldable pub judge_health : ℕ → Result (ℕ × Value) → Exec Drill Bool
  judge_health expected (err e) = if is_transport_error e then pure false else raise e
  judge_health expected (ok (status, payload)) =
      if status == expected
      then (do
        word ← lift (subscript payload "status")
        demand (is_text word (status_word expected)) "Readiness HTTP status and payload disagree"
        pure true)
      else pure false

  abbrev last_of : Result (ℕ × Value) → Option ℕ → Option ℕ
  last_of (ok (status, payload)) last = some status
  last_of (err e) last = last

  -- The loop of `wait_health`; times in milliseconds.
  unfoldable pub poll_health : ℕ → ℕ → ℕ → Option ℕ → Exec Drill (Unit {0})
  poll_health zero expected deadline last = raise out_of_fuel
  poll_health (suc fuel) expected deadline last = do
    now ← monotonic host
    if ltb now deadline
        then (do
          response ← attempt (request (get_path "/actuator/health/readiness") none 12)
          done ← judge_health expected response
          if done
              then pure tt
              else (sleep host 250 >>= λ _.
                  poll_health fuel expected deadline (last_of response last)))
        else raise (
            runtime (
              "Readiness did not reach "
              <> host.display (pos expected)
              <> "; last response was "
              <> display_last last))

  -- A wait of `seconds` has at most 4 rounds a second, and the one that finds the deadline passed.
  unfoldable pub wait_health : ℕ → ℕ → Exec Drill (Unit {0})
  wait_health expected seconds = do
    now ← monotonic host
    poll_health (4 * seconds + 1) expected (now + 1000 * seconds) none
