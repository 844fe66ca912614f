-- ===== src/Webhook/Clean.antt =====
-- What a notification that is kept looks like.
use mathlib.Core.Path.{subst}
use inventory_cloud_service.Base.{
  ◌≡◌, refl, sym, ap, ◌∙◌, ℕ, ◌≤◌, String, true, false, List, [], ◌∷◌, All, length, arith, leb,
  if◌then◌else◌,
}
use inventory_cloud_service.Json.{
  Value, null, bool, int, float, str, list, dict, ok, >>=-eq-ok, guard, value_error, subscript, get,
  is_text, is_list, is_dict, size, iterate,
}
use inventory_cloud_service.Json.Ensures.{guard-eq-ok, ok-injective}
use inventory_cloud_service.Webhook.Defs.{
  Platform, Alert, Notification, is_status, is_fingerprint, clean_alert, clean_alerts,
  sanitize_notification,
}

-- An alert of this run of the drill.
pub record IsClean (run_id : String) (a : Alert) : Type 0 where
  pub status : is_status a.status ≡ true
  pub fingerprint : is_fingerprint a.fingerprint ≡ true
  pub alertname : is_text a.alertname "InventoryReadinessFailed" ≡ true
  pub drill_run : a.drill_run ≡ run_id

module _ (platform : Platform) where
  clean_status :
      (alert : Value) (run_id : String) (a : Alert)
      → clean_alert platform alert run_id ≡ ok a
      → is_status a.status ≡ true
  unfolding clean_alert
  clean_status alert run_id a e = ground arith

  clean_fingerprint :
      (alert : Value) (run_id : String) (a : Alert)
      → clean_alert platform alert run_id ≡ ok a
      → is_fingerprint a.fingerprint ≡ true
  unfolding clean_alert
  clean_fingerprint alert run_id a e = ground arith

  clean_name :
      (alert : Value) (run_id : String) (a : Alert)
      → clean_alert platform alert run_id ≡ ok a
      → (is_text a.alertname "InventoryReadinessFailed" ≡ true) × (a.drill_run ≡ run_id)
  unfolding clean_alert
  clean_name alert run_id a e = ground arith

  clean_alert-IsClean :
      (alert : Value) (run_id : String) (a : Alert)
      → clean_alert platform alert run_id ≡ ok a
      → IsClean run_id a
  clean_alert-IsClean alert run_id a e =
      let (name, run) = clean_name alert run_id a e in
      record {
        status = clean_status alert run_id a e;
        fingerprint = clean_fingerprint alert run_id a e;
        alertname = name;
        drill_run = run;
      }

  clean_alerts-eq-ok :
      (vs : List Value) (run_id : String) (kept : List Alert)
      → clean_alerts platform vs run_id ≡ ok kept
      → All (IsClean run_id) kept × (length kept ≡ length vs)
  unfolding clean_alerts
  clean_alerts-eq-ok [] run_id kept e =
      subst (λ l. All (IsClean run_id) l × (length l ≡ 0)) (ok-injective e) (tt, refl)
  clean_alerts-eq-ok (v ∷ vs) run_id kept e =
      let (a, first, r₁) = >>=-eq-ok (clean_alert platform v run_id) _ e in
      let (rest, others, r₂) = >>=-eq-ok (clean_alerts platform vs run_id) _ r₁ in
      let (clean, count) = clean_alerts-eq-ok vs run_id rest others in
      subst (λ l. All (IsClean run_id) l × (length l ≡ length (v ∷ vs))) (ok-injective r₂)
        ((clean_alert-IsClean v run_id a first, clean), omega (arith, count))

  kept_shape :
      (payload : Value) (run_id now : String) (n : Notification)
      → sanitize_notification platform payload run_id now ≡ ok n
      → (is_status n.status ≡ true) × (n.received_at ≡ now)
  unfolding sanitize_notification
  kept_shape payload run_id now n e = ground arith

  clean_part :
      (payload : Value) (run_id now : String) (n : Notification)
      → sanitize_notification platform payload run_id now ≡ ok n
      → (alerts : Value) × (vs : List Value) × (is_list alerts ≡ true)
        × (iterate alerts ≡ ok vs)
        × ((count : ℕ) × (size alerts ≡ ok count)
            × ((if leb 1 count then leb count 10 else false) ≡ true))
        × (clean_alerts platform vs run_id ≡ ok n.alerts)
  unfolding sanitize_notification
  clean_part payload run_id now n e =
      let (_, _, r₁) = >>=-eq-ok (guard (is_dict payload) value_error) _ e in
      let (receiver, _, r₂) = >>=-eq-ok (get payload "receiver" null) _ r₁ in
      let (_, _, r₃) = >>=-eq-ok (guard (is_text receiver "drill-webhook") value_error) _ r₂ in
      let (status, _, r₄) = >>=-eq-ok (get payload "status" null) _ r₃ in
      let (_, _, r₅) = >>=-eq-ok (guard (is_status status) value_error) _ r₄ in
      let (alerts, _, r₆) = >>=-eq-ok (get payload "alerts" null) _ r₅ in
      let (_, listed, r₇) = >>=-eq-ok (guard (is_list alerts) value_error) _ r₆ in
      let (count, sized, r₈) = >>=-eq-ok (size alerts) _ r₇ in
      let (_, few, r₉) =
        >>=-eq-ok (guard (if leb 1 count then leb count 10 else false) value_error) _ r₈ in
      let (items, found, r₁₀) = >>=-eq-ok (iterate alerts) _ r₉ in
      let (clean, cleaned, r₁₁) = >>=-eq-ok (clean_alerts platform items run_id) _ r₁₀ in
      let (kept, _, r₁₂) = >>=-eq-ok (subscript payload "status") _ r₁₁ in
      (
        alerts,
        items,
        guard-eq-ok _ value_error listed,
        found,
        (count, sized, guard-eq-ok _ value_error few),
        cleaned ∙ ap (λ m. ok m.alerts) (ok-injective r₁₂),
      )

  few_alerts :
      (alerts : Value) (vs : List Value) (count : ℕ)
      → is_list alerts ≡ true
      → iterate alerts ≡ ok vs
      → size alerts ≡ ok count
      → (if leb 1 count then leb count 10 else false) ≡ true
      → (1 ≤ length vs) × (length vs ≤ 10)
  few_alerts (list items) vs count l i s c =
      let same = ap length (sym (ok-injective i)) ∙ ok-injective s in
      let bounds : (1 ≤ count) × (count ≤ 10) = ground arith in
      (omega (arith, same, bounds.0), omega (arith, same, bounds.1))
  few_alerts null vs count l i s c = cc
  few_alerts (bool b) vs count l i s c = cc
  few_alerts (int z) vs count l i s c = cc
  few_alerts (float f) vs count l i s c = cc
  few_alerts (str t) vs count l i s c = cc
  few_alerts (dict fs) vs count l i s c = cc

  -- A notification that is kept has the time at which it was read, the status firing or resolved, and
  -- one to ten alerts, each of which is the drill's own alert of this run, with the status firing or
  -- resolved and a fingerprint of 16 hexadecimal digits.
  pub sanitize_notification-eq-ok :
      (payload : Value) (run_id now : String) (n : Notification)
      → sanitize_notification platform payload run_id now ≡ ok n
      → (n.received_at ≡ now)
        × (is_status n.status ≡ true)
        × (1 ≤ length n.alerts)
        × (length n.alerts ≤ 10)
        × All (IsClean run_id) n.alerts
  sanitize_notification-eq-ok payload run_id now n e =
      let (status, received) = kept_shape payload run_id now n e in
      let (alerts, vs, listed, found, (count, sized, few), cleaned) =
        clean_part payload run_id now n e in
      let (least, most) = few_alerts alerts vs count listed found sized few in
      let (clean, same) = clean_alerts-eq-ok vs run_id n.alerts cleaned in
      (received, status, omega (arith, least, same), omega (arith, most, same), clean)
