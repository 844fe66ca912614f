-- ===== src/Drill/Served.antt =====
-- What it means that a method of `Api` or of Fixture has returned: what the service and Docker answered.
use mathlib.Core.Path.{subst}
use inventory_cloud_service.Base.{
  ◌≡◌, refl, ap, sym, ◌∙◌, ℕ, String, ◌<>◌, Bool, true, false, both, none, some, [], ◌∷◌, ◌==◌,
  nat_eq, string_eq, Option, if◌then◌else◌,
}
use inventory_cloud_service.Base.Int.{ℤ, pos, int_eq}
use inventory_cloud_service.Base.Text.{strip}
use inventory_cloud_service.Json.{
  Value, Exc, dict, end, subscript, is_text, is_number, equals, ok, err,
}
use inventory_cloud_service.Json.Ensures.{ok-injective}
use inventory_cloud_service.Exec.{pure}
use inventory_cloud_service.Exec.Steps.{bind-eq-ok, lift-eq-ok}
use inventory_cloud_service.Exec.Finds.{
  Finds, Finds-lift, Finds-pure, Finds-bind, Finds-weaken, Finds-require,
}
use inventory_cloud_service.Drill.World.{
  Bytes, Ending, unavailable, timed_out, exited, Request, History, Call, called, Host, Drill,
  Identity,
}
use inventory_cloud_service.Drill.Defs.{
  spawn, Message, get_path, post, send, credentials_of, response_of, request, expect,
}
use inventory_cloud_service.Drill.Fixture.{owned}
use inventory_cloud_service.Drill.Runtime.{
  judge_login, login_command, login_accepted, login_rejected, within_bytes, check_runtime_login,
}

if_ok : (c : Bool) (x : Exc) {u : Unit {0}} → (if c then ok tt else err x) ≡ ok u → c ≡ true
if_ok true x e = refl
if_ok false x e = cc

login_text :
    (c : Bool) (d : Option String) (x y z : Exc) {u : Unit {0}}
    → (if c
        then elim d [
          | none ↦ err x
          | some text ↦ if strip text == login_accepted then ok tt else err y
        ]
        else err z)
      ≡ ok u
    → (text : String) × (c ≡ true) × (d ≡ some text) × (strip text ≡ login_accepted)
login_text true none x y z e = cc
login_text true (some text) x y z e =
    (text, refl, refl, (string_eq.equal_iff (strip text) login_accepted).0 (if_ok _ y e))
login_text false d x y z e = cc

pure-state : {S A : Type 0} (a : A) (s : S) → pure a s ≡ (ok a, s)
unfolding pure
pure-state a s = refl

module _ (host : Host) (fixture : Identity) where
  -- At some time the service on the port has answered the request with the status and the payload.
  pub record Served (port : ℤ) (m : Message) (account : Option String) (status : ℕ)
      (payload : Value) : Type 0 where
    pub before : History
    pub credentials : Option (String × String)
    pub timeout : ℕ
    pub known : credentials_of fixture account ≡ ok credentials
    pub answered :
        response_of host (
          host.http before (record {
            port = port;
            verb = m.verb;
            path = m.path;
            credentials = credentials;
            body = m.body;
            idempotency_key = m.idempotency_key;
            timeout = timeout;
          }))
        ≡ ok (status, payload)

  send-Finds :
      (r : Request)
      → Finds (λ reply. (before : History) × (reply ≡ host.http before r)) (send host r)
  unfolding send
  send-Finds r = record { at = λ s a t e. (s.history, sym (ok-injective (ap (λ x. x.0) e))) }

  pub request-Finds :
      (port : ℤ) (m : Message) (account : Option String) (timeout : ℕ)
      → Finds (λ r. Served port m account r.0 r.1) (request host fixture port m account timeout)
  unfolding request
  request-Finds port m account timeout = Finds-bind _ _ (Finds-lift _) λ credentials known.
      Finds-bind _ _ (send-Finds _) λ reply (before, is_reply). Finds-weaken _ (Finds-lift _) λ r e.
        record {
          before = before;
          credentials = credentials;
          timeout = timeout;
          known = known;
          answered = ap (response_of host) (sym is_reply) ∙ e;
        }

  pub expect-Finds :
      (port : ℤ) (m : Message) (account : String) (status : ℕ)
      → Finds (Served port m (some account) status) (expect host fixture port m account status)
  unfolding expect
  expect-Finds port m account status = Finds-bind _ _ (request-Finds _ _ _ _) λ (found, v) served.
      Finds-bind _ _ (Finds-require _ _) λ _ e.
        Finds-pure v (
          subst (λ n. Served port m (some account) n v) ((nat_eq.equal_iff found status).0 e)
            served)

  abbrev login_call : String → String → Call
  login_call database password = record {
    args = login_command host fixture database;
    extra_env = ("PGPASSWORD", password) ∷ [];
    input = none;
    timeout = 15;
  }

  -- The last thing done before this state was a connection to the database with the password, which
  -- has passed the query on its restrictions.
  pub record LoggedIn (t : Drill) (database password : String) : Type 0 where
    pub before : History
    pub last : t.history ≡ called (login_call database password) ∷ before
    pub out : Bytes
    pub errors : Bytes
    pub text : String
    pub ended : host.complete before (login_call database password) ≡ exited (pos 0) out errors
    pub decoded : host.decode out ≡ some text
    pub accepted : strip text ≡ login_accepted

  -- The last thing done before this state was a connection to the database with the password, which
  -- it has rejected with PostgreSQL's own message.
  pub record Rejected (t : Drill) (database password : String) : Type 0 where
    pub before : History
    pub last : t.history ≡ called (login_call database password) ∷ before
    pub out : Bytes
    pub errors : Bytes
    pub ended : host.complete before (login_call database password) ≡ exited (pos 2) out errors
    pub reason : within_bytes login_rejected errors ≡ true

  judged-LoggedIn :
      (t : Drill) (database password : String) (before : History) (ending : Ending) {u : Unit {0}}
      → t.history ≡ called (login_call database password) ∷ before
      → host.complete before (login_call database password) ≡ ending
      → judge_login host fixture true ending ≡ ok u
      → LoggedIn t database password
  judged-LoggedIn t database password before unavailable last ended e = cc
  judged-LoggedIn t database password before timed_out last ended e = cc
  judged-LoggedIn t database password before (exited code out errors) last ended e =
      let (text, zero_code, decoded, accepted) =
        login_text (code == pos 0) (host.decode out) _ _ _ e in
      record {
        before = before;
        last = last;
        out = out;
        errors = errors;
        text = text;
        ended =
            subst (λ z. host.complete before (login_call database password) ≡ exited z out errors)
              ((int_eq.equal_iff code (pos 0)).0 zero_code) ended;
        decoded = decoded;
        accepted = accepted;
      }

  judged-Rejected :
      (t : Drill) (database password : String) (before : History) (ending : Ending) {u : Unit {0}}
      → t.history ≡ called (login_call database password) ∷ before
      → host.complete before (login_call database password) ≡ ending
      → judge_login host fixture false ending ≡ ok u
      → Rejected t database password
  judged-Rejected t database password before unavailable last ended e = cc
  judged-Rejected t database password before timed_out last ended e = cc
  judged-Rejected t database password before (exited code out errors) last ended e =
      let (two, reason) = both (code == pos 2) (within_bytes login_rejected errors) (if_ok _ _ e) in
      record {
        before = before;
        last = last;
        out = out;
        errors = errors;
        ended =
            subst (λ z. host.complete before (login_call database password) ≡ exited z out errors)
              ((int_eq.equal_iff code (pos 2)).0 two) ended;
        reason = reason;
      }

  -- What a probe has done when it returns.
  probe-eq-ok :
      (database password : String) (accepted : Bool) (s : Drill) {report : Value} {t : Drill}
      → check_runtime_login host fixture database password accepted s ≡ (ok report, t)
      → (before : History) × (ending : Ending) × (t.history
          ≡ called (login_call database password) ∷ before)
        × (host.complete before (login_call database password) ≡ ending)
        × (judge_login host fixture accepted ending ≡ ok tt)
  unfolding check_runtime_login spawn
  probe-eq-ok database password accepted s e =
      let (item, s₁, _, r₁) = bind-eq-ok (owned host fixture "container" database) _ s e in
      let (ending, s₂, spawned, r₂) =
        bind-eq-ok (spawn host (login_call database password)) _ s₁ r₁ in
      let (u, judged, r₃) = lift-eq-ok (judge_login host fixture accepted ending) _ s₂ r₂ in
      (
        s₁.history,
        ending,
        ap (λ x. x.1.history) (sym r₃ ∙ pure-state _ s₂) ∙ ap (λ x. x.1.history) (sym spawned),
        ok-injective (ap (λ x. x.0) spawned),
        judged,
      )

  pub check_runtime_login-LoggedIn :
      (database password : String) (s : Drill) {report : Value} {t : Drill}
      → check_runtime_login host fixture database password true s ≡ (ok report, t)
      → LoggedIn t database password
  check_runtime_login-LoggedIn database password s e =
      let (before, ending, last, ended, judged) = probe-eq-ok database password true s e in
      judged-LoggedIn _ database password before ending last ended judged

  pub check_runtime_login-Rejected :
      (database password : String) (s : Drill) {report : Value} {t : Drill}
      → check_runtime_login host fixture database password false s ≡ (ok report, t)
      → Rejected t database password
  check_runtime_login-Rejected database password s e =
      let (before, ending, last, ended, judged) = probe-eq-ok database password false s e in
      judged-Rejected _ database password before ending last ended judged

  -- The service has answered the customer's request with a payload equal to the value.
  pub record ServedEqual (port : ℤ) (m : Message) (expected : Value) : Type 0 where
    pub payload : Value
    pub served : Served port m (some "customer") 200 payload
    pub equal : equals payload expected ≡ true

  -- The service has said that so much of the product is available.
  pub record ServedStock (port : ℤ) (path : String) (quantity : ℕ) : Type 0 where
    pub payload : Value
    pub available : Value
    pub served : Served port (get_path path) (some "customer") 200 payload
    pub said : subscript payload "availableQuantity" ≡ ok available
    pub is_quantity : is_number available (pos quantity) ≡ true

  -- The payload is what the service answered to the cancellation, and says that it is cancelled.
  pub record ServedCancelled (port : ℤ) (reservation_path : String) (payload : Value) : Type 0 where
    pub status : Value
    pub served :
        Served port
          (post (reservation_path <> "/cancel") (dict end) none)
          (some "customer")
          200
          payload
    pub said : subscript payload "status" ≡ ok status
    pub is_cancelled : is_text status "CANCELLED" ≡ true
