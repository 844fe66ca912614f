-- ===== src/Webhook/Raises.antt =====
-- Which exceptions the reading of a notification can raise.
use inventory_cloud_service.Base.{◌≡◌, refl, String, Bool, true, List, [], ◌∷◌, arith, Option}
use inventory_cloud_service.Json.{
  Value, null, Exc, value_error, Result, ok, err, ◌>>=◌, guard, subscript, get, size, iterate,
  present, is_text,
}
use inventory_cloud_service.Webhook.Defs.{
  Platform, is_status, check_timestamp, clean_alert, clean_alerts, sanitize_notification,
  is_invalid,
}

-- An exception that `do_post` catches, if any.
pub record Caught {A : Type 0} (r : Result A) : Type 0 where
  pub at : (e : Exc) → r ≡ err e → is_invalid e ≡ true

pub Caught-ok : {A : Type 0} (a : A) → Caught (ok a)
Caught-ok a = record { at = λ e h. cc }

err_again :
    {A B : Type 0} {x y : Exc}
    → ◌≡◌ {A = Result B} (err x) (err y)
    → ◌≡◌ {A = Result A} (err x) (err y)
err_again e = cc

pub Caught-bind :
    {A B : Type 0} (r : Result A) (f : A → Result B)
    → Caught r
    → ((a : A) → r ≡ ok a → Caught (f a))
    → Caught (r >>= f)
Caught-bind (ok a) f p q = q a refl
Caught-bind (err x) f p q = record { at = λ e h. p.at e (err_again h) }

Caught-guard : (c : Bool) → Caught (guard c value_error)
Caught-guard c = record { at = λ e h. ground arith }

pub Caught-present : {A : Type 0} (o : Option A) → Caught (present o)
Caught-present o = record { at = λ e h. ground arith }

Caught-get : (v : Value) (k : String) (d : Value) → Caught (get v k d)
Caught-get v k d = record { at = λ e h. ground arith }

Caught-size : (v : Value) → Caught (size v)
Caught-size v = record { at = λ e h. ground arith }

Caught-iterate : (v : Value) → Caught (iterate v)
Caught-iterate v = record { at = λ e h. ground arith }

-- A key whose value has been compared with a text is there.
Caught-named :
    (v : Value) (k : String) (x : Value) {u : Unit {0}}
    → get v k null ≡ ok x
    → guard (is_text x "InventoryReadinessFailed") value_error ≡ ok u
    → Caught (subscript v k)
Caught-named v k x g c = record { at = λ e h. ground arith }

Caught-status :
    (v : Value) (k : String) (x : Value) {u : Unit {0}}
    → get v k null ≡ ok x
    → guard (is_status x) value_error ≡ ok u
    → Caught (subscript v k)
Caught-status v k x g c = record { at = λ e h. ground arith }

ruleset caught_rules = (
  Caught-ok, Caught-bind, Caught-guard, Caught-present, Caught-get, Caught-size, Caught-iterate,
  Caught-named, Caught-status,
)

module _ (platform : Platform) where
  check_timestamp-Caught :
      (alert : Value) (name : String) → Caught (check_timestamp platform alert name)
  unfolding check_timestamp
  check_timestamp-Caught alert name = search caught_rules depth 40

  clean_alert-Caught :
      (alert : Value) (run_id : String) → Caught (clean_alert platform alert run_id)
  unfolding clean_alert
  clean_alert-Caught alert run_id = search (caught_rules, check_timestamp-Caught) depth 60

  clean_alerts-Caught :
      (vs : List Value) (run_id : String) → Caught (clean_alerts platform vs run_id)
  unfolding clean_alerts
  clean_alerts-Caught [] run_id = Caught-ok []
  clean_alerts-Caught (v ∷ vs) run_id =
      search (caught_rules, clean_alert-Caught v run_id, clean_alerts-Caught vs run_id) depth 40

  pub sanitize_notification-Caught :
      (payload : Value) (run_id now : String)
      → Caught (sanitize_notification platform payload run_id now)
  unfolding sanitize_notification
  sanitize_notification-Caught payload run_id now =
      search (caught_rules, clean_alerts-Caught) depth 60
