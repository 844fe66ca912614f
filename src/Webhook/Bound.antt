-- ===== src/Webhook/Bound.antt =====
-- The stored events: what a request does to them, and what holds after any requests.
use mathlib.Core.Path.{subst}
use inventory_cloud_service.Base.{
  ◌≡◌, refl, sym, ◌⊎◌, inl, inr, ℕ, ◌≤◌, ◌<◌, String, Bool, true, false, Option, none, some, List,
  [], ◌∷◌, ◌++◌, All, All-append, length, length-append, take, arith, ◌==◌, string_eq,
  if◌then◌else◌, leb,
}
use inventory_cloud_service.Base.Int.{ℤ}
use inventory_cloud_service.Json.{Exc, recursion_error, Result, ok, err, ◌>>=◌, >>=-eq-ok, present}
use inventory_cloud_service.Json.Ensures.{ok-injective}
use inventory_cloud_service.Webhook.Defs.{
  Platform, Loaded, loaded, malformed, too_deep, result_of, header_or_zero, Notification, Request,
  Response, is_status, is_invalid, sanitize_notification, store, answer, readable, read_body,
  read_notification, do_post,
}
use inventory_cloud_service.Webhook.Clean.{IsClean, sanitize_notification-eq-ok}
use inventory_cloud_service.Webhook.Raises.{Caught-ok, Caught-bind, sanitize_notification-Caught}

-- What may be stored for this run of the drill.
abbrev pub IsStorable : String → Notification → Type 0
IsStorable run_id n =
    (is_status n.status ≡ true)
    × (1 ≤ length n.alerts)
    × (length n.alerts ≤ 10)
    × All (IsClean run_id) n.alerts

err-injective : {A : Type 0} {x y : Exc} → ◌≡◌ {A = Result A} (err x) (err y) → x ≡ y
err-injective e = cc

clash : {b : Bool} → b ≡ true → b ≡ false → ⊥
clash p q = cc

some-injective : {A : Type 0} {a b : A} → some a ≡ some b → a ≡ b
some-injective e = cc

module _ (platform : Platform) (run_id : String) where
  -- How a request may end, and what it leaves stored.
  pub data Posted (stored : List Notification) : Response → List Notification → Type 0 where
    refused : {r : Response} → 400 ≤ r.code → Posted stored r stored
    kept :
        {r : Response} (n : Notification)
        → r.code ≡ 200
        → length stored < 64
        → IsStorable run_id n
        → Posted stored r (stored ++ n ∷ [])

  -- The bytes that the request lets the receiver read are nested too deeply for `json.loads`.
  pub record IsTooDeep (request : Request) : Type 0 where
    pub said : ℤ
    pub length : ℕ
    pub content_length : platform.parse_int (header_or_zero request.content_length) ≡ some said
    pub admitted : readable said ≡ some length
    pub nested : platform.loads (take length request.body) ≡ too_deep

  abbrev RaisesOn : Request → Option ℕ → Exc → Type 0
  RaisesOn request size e =
      (is_invalid e ≡ true)
      ⊎ ((e ≡ recursion_error)
          × (n : ℕ) × (size ≡ some n)
          × (platform.loads (take n request.body) ≡ too_deep))

  read_body-RaisesOn :
      (request : Request) (size : Option ℕ) (e : Exc)
      → read_body platform run_id request size ≡ err e
      → RaisesOn request size e
  unfolding read_body
  read_body-RaisesOn request none e h = cc
  read_body-RaisesOn request (some n) e h =
      split_loaded (platform.loads (take n request.body)) refl h
    where
      split_loaded :
          (o : Loaded)
          → platform.loads (take n request.body) ≡ o
          → (result_of o >>= λ payload.
              sanitize_notification platform payload run_id request.now >>= λ notification.
              ok (some notification))
            ≡ err e
          → RaisesOn request (some n) e
      split_loaded (loaded v) p r = inl (
          (Caught-bind (sanitize_notification platform v run_id request.now) _
              (sanitize_notification-Caught platform v run_id request.now)
              (λ made _. Caught-ok (some made))).at
            e r)
      split_loaded malformed p r = inl (ground arith)
      split_loaded too_deep p r = inr (err-injective (sym r), n, refl, p)

  -- What the reading of a notification raises is caught by `do_post`, or its bytes are too deep.
  read_notification-raises :
      (request : Request) (e : Exc)
      → read_notification platform run_id request ≡ err e
      → (is_invalid e ≡ true) ⊎ ((e ≡ recursion_error) × IsTooDeep request)
  unfolding read_notification
  read_notification-raises request e h =
      split_size (platform.parse_int (header_or_zero request.content_length)) refl h
    where
      split_size :
          (o : Option ℤ)
          → platform.parse_int (header_or_zero request.content_length) ≡ o
          → (present o >>= λ size. read_body platform run_id request (readable size)) ≡ err e
          → (is_invalid e ≡ true) ⊎ ((e ≡ recursion_error) × IsTooDeep request)
      split_size none p r = inl (ground arith)
      split_size (some size) p r = elim (read_body-RaisesOn request (readable size) e r) [
        | inl caught ↦ inl caught
        | inr (deep, n, admitted, nested) ↦ inr (
          deep,
          record {
            said = size;
            length = n;
            content_length = p;
            admitted = admitted;
            nested = nested;
          },
        )
      ]

  read_body-IsStorable :
      (request : Request) (size : Option ℕ) (n : Notification)
      → read_body platform run_id request size ≡ ok (some n)
      → IsStorable run_id n
  unfolding read_body
  read_body-IsStorable request none n e = cc
  read_body-IsStorable request (some k) n e =
      let (payload, _, r₁) = >>=-eq-ok (result_of (platform.loads (take k request.body))) _ e in
      let (made, made_e, r₂) =
        >>=-eq-ok (sanitize_notification platform payload run_id request.now) _ r₁ in
      let (_, status, least, most, clean) =
        sanitize_notification-eq-ok platform payload run_id request.now made made_e in
      subst (IsStorable run_id) (some-injective (ok-injective r₂)) (status, least, most, clean)

  read_notification-IsStorable :
      (request : Request) (n : Notification)
      → read_notification platform run_id request ≡ ok (some n)
      → IsStorable run_id n
  unfolding read_notification
  read_notification-IsStorable request n e =
      let (size, _, r) = >>=-eq-ok (present (platform.parse_int _)) _ e in
      read_body-IsStorable request (readable size) n r

  -- A run of `do_post` gives a response, or raises without touching the events.
  pub data Ends (request : Request) (stored : List Notification)
      : Result Response × List Notification → Type 0 where
    answered :
        {r : Response} {after : List Notification}
        → Posted stored r after
        → Ends request stored (ok r, after)
    escaped : IsTooDeep request → Ends request stored (err recursion_error, stored)

  Ends-if :
      {request : Request} (b : Bool) (x y : Result Response × List Notification)
      (stored : List Notification)
      → (b ≡ true → Ends request stored x)
      → (b ≡ false → Ends request stored y)
      → Ends request stored (if b then x else y)
  Ends-if true x y stored p q = p refl
  Ends-if false x y stored p q = q refl

  store-Ends :
      {request : Request} (n : Notification) (stored : List Notification)
      → IsStorable run_id n
      → Ends request stored (store n stored)
  unfolding store
  store-Ends n stored p =
      Ends-if (leb 64 (length stored)) _ _ stored (λ e. answered (refused (omega arith)))
        (λ e. answered (kept n refl (ground arith) p))

  answer-Ends :
      (request : Request) (found : Result (Option Notification)) (stored : List Notification)
      → ((e : Exc)
          → found ≡ err e
          → (is_invalid e ≡ true) ⊎ ((e ≡ recursion_error) × IsTooDeep request))
      → ((n : Notification) → found ≡ ok (some n) → IsStorable run_id n)
      → Ends request stored (answer platform run_id found stored)
  answer-Ends request (ok (some n)) stored c p = store-Ends n stored (p n refl)
  answer-Ends request (ok none) stored c p = answered (refused (omega arith))
  answer-Ends request (err e) stored c p =
      Ends-if (is_invalid e) _ _ stored (λ i. answered (refused (omega arith)))
        (λ i. elim (c e refl) [
          | inl caught ↦ absurd (clash caught i)
          | inr (is_recursion, deep) ↦
              subst (λ x. Ends request stored (err x, stored)) (sym is_recursion) (escaped deep)
        ])

  -- A request to `do_post` is answered unless the bytes that it is let to read are nested too deeply
  -- for `json.loads`; then a RecursionError escapes and the events are as they were. If it is answered,
  -- either it is refused with a code from 400 on and the events are as they were, or the code is 200,
  -- fewer than 64 events were stored, and one is added at the end that has one to ten alerts, all of
  -- this run of the drill.
  pub do_post-Ends :
      (request : Request) (stored : List Notification)
      → Ends request stored (do_post platform run_id request stored)
  unfolding do_post
  do_post-Ends request stored =
      Ends-if (request.path == "/webhook") _ _ stored
        (λ e.
          answer-Ends request (read_notification platform run_id request) stored
            (read_notification-raises request) (read_notification-IsStorable request))
        (λ e. answered (refused (omega arith)))

  -- The events that any sequence of requests can lead to.
  pub data IsReached : List Notification → Type 0 where
    started : IsReached []
    posted :
        {stored : List Notification}
        → IsReached stored
        → (request : Request) → IsReached (do_post platform run_id request stored).1

  Posted-within :
      {stored after : List Notification} {r : Response}
      → Posted stored r after
      → (length stored ≤ 64) × All (IsStorable run_id) stored
      → (length after ≤ 64) × All (IsStorable run_id) after
  Posted-within (refused c) p = p
  Posted-within {stored} (kept n c room storable) (few, all) = (
    omega (arith, room, length-append stored (n ∷ [])),
    All-append (IsStorable run_id) stored (n ∷ []) all (storable, tt),
  )

  Ends-within :
      {request : Request} {stored : List Notification} {run : Result Response × List Notification}
      → Ends request stored run
      → (length stored ≤ 64) × All (IsStorable run_id) stored
      → (length run.1 ≤ 64) × All (IsStorable run_id) run.1
  Ends-within (answered step) p = Posted-within step p
  Ends-within (escaped deep) p = p

  -- In whatever order requests are served, there are never more than 64 events, and each has one to
  -- ten alerts, all of this run of the drill.
  pub IsReached-bounded :
      {stored : List Notification}
      → IsReached stored
      → (length stored ≤ 64) × All (IsStorable run_id) stored
  IsReached-bounded started = (omega arith, tt)
  IsReached-bounded (posted {stored} before request) =
      Ends-within (do_post-Ends request stored) (IsReached-bounded before)
