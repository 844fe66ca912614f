-- ===== src/Tests/Webhook.antt =====
-- A notification of one alert, posted and stored.
use inventory_cloud_service.Base.{◌≡◌, refl, ◌≤◌, true, some, List, [], ◌∷◌, length, All, string_eq}
use inventory_cloud_service.Base.Int.{pos}
use inventory_cloud_service.Base.Pattern.{is_hex}
use inventory_cloud_service.Json.{
  Value, str, list, dict, nil, cons, end, field, Result, ok, err, recursion_error,
}
use inventory_cloud_service.Webhook.{
  Platform, loaded, too_deep, Notification, Request, Response, accepted, is_status, replace_zulu,
  check_timestamp, clean_alert, clean_alerts, sanitize_notification, store, read_body,
  read_notification, do_post,
}
use inventory_cloud_service.Webhook.Clean.{IsClean, sanitize_notification-eq-ok}
use inventory_cloud_service.Webhook.Bound.{
  IsStorable, Ends, do_post-Ends, started, posted, IsReached-bounded,
}

abbrev alert_json : Value
alert_json = dict (
    field "labels"
      (dict
        (field "alertname" (str "InventoryReadinessFailed") (field "drill_run" (str "run-1") end)))
      (field "status" (str "firing") (
        field "fingerprint" (str "0123456789abcdef") (
          field "startsAt" (str "2024-05-01T10:00:00Z")
            (field "endsAt" (str "0001-01-01T00:00:00Z") end)))))

abbrev payload : Value
payload = dict (
    field "receiver" (str "drill-webhook")
      (field "status" (str "firing") (field "alerts" (list (cons alert_json nil)) end)))

abbrev lenient : Platform
lenient = record {
  loads = λ body. loaded payload;
  parse_int = λ s. some (pos 3);
  is_iso = λ s. true;
}

abbrev notification : Notification
notification = record {
  received_at = "t0";
  status = str "firing";
  alerts =
      record {
        status = str "firing";
        fingerprint = "0123456789abcdef";
        starts_at = str "2024-05-01T10:00:00Z";
        ends_at = str "0001-01-01T00:00:00Z";
        alertname = str "InventoryReadinessFailed";
        drill_run = "run-1";
      }
      ∷ [];
}

abbrev request : Request
request = record { path = "/webhook"; content_length = some "3"; body = 1 ∷ 2 ∷ 3 ∷ []; now = "t0" }

sanitize_trial : Result Notification
unfolding sanitize_notification clean_alerts clean_alert check_timestamp replace_zulu is_hex
sanitize_trial = sanitize_notification lenient payload "run-1" "t0"

post_trial : Result Response × List Notification
unfolding do_post read_notification read_body store sanitize_trial
post_trial = do_post lenient "run-1" request []

post_run : post_trial ≡ (ok (record { code = 200; body = accepted }), notification ∷ [])
unfolding post_trial
post_run = refl

replace_zulu_run : replace_zulu "2024-05-01T10:00:00Z" ≡ "2024-05-01T10:00:00+00:00"
unfolding replace_zulu
replace_zulu_run = refl

sanitize_notification-eq-ok_example :
    (notification.received_at ≡ "t0")
    × (is_status notification.status ≡ true)
    × (1 ≤ length notification.alerts)
    × (length notification.alerts ≤ 10)
    × All (IsClean "run-1") notification.alerts
unfolding sanitize_trial
sanitize_notification-eq-ok_example =
    sanitize_notification-eq-ok lenient payload "run-1" "t0" notification refl

do_post-Ends_example : Ends lenient "run-1" request [] (do_post lenient "run-1" request [])
do_post-Ends_example = do_post-Ends lenient "run-1" request []

-- A body that is nested too deeply raises what `do_post` does not catch.
abbrev overwhelmed : Platform
overwhelmed = record lenient { loads = λ body. too_deep }

overwhelmed_trial : Result Response × List Notification
unfolding do_post read_notification read_body
overwhelmed_trial = do_post overwhelmed "run-1" request (notification ∷ [])

overwhelmed_run : overwhelmed_trial ≡ (err recursion_error, notification ∷ [])
unfolding overwhelmed_trial
overwhelmed_run = refl

IsReached-bounded_example :
    (length (do_post lenient "run-1" request []).1 ≤ 64)
    × All (IsStorable "run-1") (do_post lenient "run-1" request []).1
IsReached-bounded_example = IsReached-bounded lenient "run-1" (posted started request)
