-- ===== src/Webhook/Defs.antt =====
-- `sanitize_notification` and the two handlers of `Receiver`. The events are the shared state; the lock
-- makes each look at them, with the append that follows, one step.
use inventory_cloud_service.Base.{
  ℕ, String, ◌<>◌, Bool, true, false, ◌||◌, Option, none, some, List, [], ◌∷◌, ◌++◌, ◌==◌, nat_eq,
  string_eq, if◌then◌else◌, leb, length, all, take,
}
use inventory_cloud_service.Base.Int.{ℤ, pos, negsuc}
use inventory_cloud_service.Base.Text.{codes}
use inventory_cloud_service.Base.Pattern.{is_hex}
use inventory_cloud_service.Json.{
  Value, null, dict, end, str, Exc, value_error, type_error, attribute_error, recursion_error,
  Result, ok, err, ◌>>=◌, ◌>>◌, guard, subscript, get, size, as_str, present, is_text, is_list,
  is_dict, iterate,
}

abbrev pub max_body_bytes : ℕ
max_body_bytes = 65536

abbrev pub max_events : ℕ
max_events = 64

-- How `json.loads` ends: with a value, a `ValueError`, or a `RecursionError` where arrays or objects
-- are nested too deeply.
pub data Loaded : Type 0 where
  loaded : Value → Loaded
  malformed too_deep : Loaded

abbrev pub result_of : Loaded → Result Value
result_of (loaded v) = ok v
result_of malformed = err value_error
result_of too_deep = err recursion_error

-- The library calls of the receiver.
pub record Platform : Type 0 where
  -- `json.loads` on bytes
  pub loads : List ℕ → Loaded
  -- `int(text)`
  pub parse_int : String → Option ℤ
  -- Whether `datetime.fromisoformat` accepts the text.
  pub is_iso : String → Bool

pub record Alert : Type 0 where
  pub status : Value
  pub fingerprint : String
  pub starts_at : Value
  pub ends_at : Value
  pub alertname : Value
  pub drill_run : String

pub record Notification : Type 0 where
  pub received_at : String
  pub status : Value
  pub alerts : List Alert

-- `v in ("firing", "resolved")`
abbrev pub is_status : Value → Bool
is_status v = is_text v "firing" || is_text v "resolved"

-- `s.replace("Z", "+00:00")`
unfoldable pub replace_zulu : String → String
replace_zulu String.[] = String.[]
replace_zulu (String.◌∷◌ c s) =
    let rest = replace_zulu s in
    if String.◌∷◌ c String.[] == "Z" then "+00:00" <> rest else String.◌∷◌ c rest

abbrev pub is_fingerprint : String → Bool
is_fingerprint s = if length (codes s) == 16 then all is_hex (codes s) else false

module _ (platform : Platform) where
  unfoldable pub check_timestamp : Value → String → Result (Unit {0})
  check_timestamp alert name = do
    value ← get alert name null
    text ← present (as_str value)
    guard (leb (length (codes text)) 40) value_error
    guard (platform.is_iso (replace_zulu text)) value_error

  -- The body of the loop over the alerts.
  unfoldable pub clean_alert : Value → String → Result Alert
  clean_alert alert run_id = do
    labels ← get alert "labels" (dict end)
    name ← get labels "alertname" null
    guard (is_text name "InventoryReadinessFailed") value_error
    drill_run ← get labels "drill_run" null
    guard (is_text drill_run run_id) value_error
    status ← get alert "status" null
    guard (is_status status) value_error
    identity ← get alert "fingerprint" (str "")
    fingerprint ← present (as_str identity)
    guard (is_fingerprint fingerprint) value_error
    check_timestamp alert "startsAt"
    check_timestamp alert "endsAt"
    kept_status ← subscript alert "status"
    starts_at ← get alert "startsAt" null
    ends_at ← get alert "endsAt" null
    kept_name ← subscript labels "alertname"
    ok (record {
      status = kept_status;
      fingerprint = fingerprint;
      starts_at = starts_at;
      ends_at = ends_at;
      alertname = kept_name;
      drill_run = run_id;
    })

  unfoldable pub clean_alerts : List Value → String → Result (List Alert)
  clean_alerts [] run_id = ok []
  clean_alerts (alert ∷ alerts) run_id = do
    first ← clean_alert alert run_id
    rest ← clean_alerts alerts run_id
    ok (first ∷ rest)

  unfoldable pub sanitize_notification : Value → String → String → Result Notification
  sanitize_notification payload run_id now = do
    guard (is_dict payload) value_error
    receiver ← get payload "receiver" null
    guard (is_text receiver "drill-webhook") value_error
    status ← get payload "status" null
    guard (is_status status) value_error
    alerts ← get payload "alerts" null
    guard (is_list alerts) value_error
    count ← size alerts
    guard (if leb 1 count then leb count 10 else false) value_error
    items ← iterate alerts
    clean ← clean_alerts items run_id
    kept ← subscript payload "status"
    ok (record { received_at = now; status = kept; alerts = clean })

pub record Request : Type 0 where
  pub path : String
  -- The `Content-Length` header.
  pub content_length : Option String
  pub body : List ℕ
  -- The time of `datetime.now` when the notification is made.
  pub now : String

pub data Body : Type 0 where
  up accepted : Body
  error : String → Body
  events : List Notification → Body

pub record Response : Type 0 where
  pub code : ℕ
  pub body : Body

abbrev pub not_found : Response
not_found = record { code = 404; body = error "Not found" }

unfoldable pub do_get : String → List Notification → Response
do_get path stored =
    if path == "/health"
    then record { code = 200; body = up }
    else if path == "/events"
    then record { code = 200; body = events stored }
    else not_found

-- `except (ValueError, TypeError, AttributeError)`
abbrev pub is_invalid : Exc → Bool
is_invalid value_error = true
is_invalid type_error = true
is_invalid attribute_error = true
is_invalid _ = false

-- What stands in the lock.
unfoldable pub store : Notification → List Notification → Result Response × List Notification
store n stored =
    if leb max_events (length stored)
    then (ok (record { code = 429; body = error "Notification limit reached" }), stored)
    else (ok (record { code = 200; body = accepted }), stored ++ n ∷ [])

abbrev pub header_or_zero : Option String → String
header_or_zero none = "0"
header_or_zero (some s) = s

-- `n` if it is a size that the receiver reads.
abbrev pub readable : ℤ → Option ℕ
readable (pos n) = if n == 0 then none else if leb n max_body_bytes then some n else none
readable (negsuc n) = none

module _ (platform : Platform) (run_id : String) where
  unfoldable pub read_body : Request → Option ℕ → Result (Option Notification)
  read_body request none = ok none
  read_body request (some n) = do
    payload ← result_of (platform.loads (take n request.body))
    notification ← sanitize_notification platform payload run_id request.now
    ok (some notification)

  -- The notification of a request, or none where the size is refused.
  unfoldable pub read_notification : Request → Result (Option Notification)
  read_notification request = do
    size ← present (platform.parse_int (header_or_zero request.content_length))
    read_body request (readable size)

  abbrev pub answer :
      Result (Option Notification) → List Notification → Result Response × List Notification
  answer (ok (some n)) stored = store n stored
  answer (ok none) stored =
      (ok (record { code = 413; body = error "Invalid request size" }), stored)
  answer (err e) stored =
      if is_invalid e
      then (ok (record { code = 400; body = error "Invalid notification" }), stored)
      else (err e, stored)

  unfoldable pub do_post : Request → List Notification → Result Response × List Notification
  do_post request stored =
      if request.path == "/webhook"
      then answer (read_notification request) stored
      else (ok not_found, stored)
