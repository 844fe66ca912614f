-- ===== src/Contract/Validate.antt =====
-- What `validate_contract` accepts, against an independent description of a release contract.
use mathlib.Core.List.{Mem, Nodup, Perm}
use inventory_cloud_service.Base.{
  ◌≡◌, refl, sym, ap, ◌∙◌, ◌↔◌, inl, inr, String, Bool, true, false, Option, none, some, List, [],
  ◌∷◌, arith, ◌==◌, string_eq, Bool-cases, Option-cases, contains,
}
use inventory_cloud_service.Base.Int.{pos, int_eq}
use inventory_cloud_service.Base.Sets.{
  same_set, distinct→Nodup, same_set→Perm, Perm→same_set, Perm→distinct, same_set→mem_iff,
  mem_iff→same_set,
}
use inventory_cloud_service.Json.{
  Value, null, bool, int, float, str, list, dict, Items, nil, cons, Fields, end, field, Exc,
  contract, Result, ok, err, ◌>>=◌, ◌>>◌, guard, keys, subscript, is_text,
}
use inventory_cloud_service.Contract.Defs.{
  Contract, canonical, structure_error, schema_error, service_error, capabilities_error,
  required_capabilities, contract_keys, as_texts, exact_capabilities, is_exact_int,
  declares_capabilities, validate_fields, validate_contract,
}

-- A JSON list of texts.
abbrev pub text_items : List String → Items
text_items [] = nil
text_items (s ∷ ss) = cons (str s) (text_items ss)

-- A dict that is a release contract with the capabilities `caps`, in any order.
pub record Declares (fs : Fields) (caps : List String) : Type 0 where
  pub exact_keys : (k : String) → Mem k (keys fs) ↔ Mem k contract_keys
  pub schema : subscript (dict fs) "schemaVersion" ≡ ok (int (pos 1))
  pub service : subscript (dict fs) "service" ≡ ok (str "inventory-cloud-service")
  pub declared : subscript (dict fs) "capabilities" ≡ ok (list (text_items caps))
  pub complete : Perm caps required_capabilities

required-Nodup : Nodup required_capabilities
required-Nodup = distinct→Nodup required_capabilities refl

as_texts-text_items : (ss : List String) → as_texts (text_items ss) ≡ some ss
as_texts-text_items [] = refl
as_texts-text_items (s ∷ ss) = rw (as_texts-text_items ss)

as_texts-eq-some : (vs : Items) (ss : List String) → as_texts vs ≡ some ss → vs ≡ text_items ss
as_texts-eq-some nil [] h = refl
as_texts-eq-some nil (t ∷ ts) h = cc
as_texts-eq-some (cons (str s) vs) ss h = elim (Option-cases (as_texts vs)) [
  | inl none_left ↦ absurd (ground arith)
  | inr (rest, e) ↦
      let found : some (s ∷ rest) ≡ some ss = rw e at h in
      let here : ss ≡ s ∷ rest = cc in rw (here, as_texts-eq-some vs rest e)
]
as_texts-eq-some (cons null vs) ss h = cc
as_texts-eq-some (cons (bool b) vs) ss h = cc
as_texts-eq-some (cons (int z) vs) ss h = cc
as_texts-eq-some (cons (float f) vs) ss h = cc
as_texts-eq-some (cons (list ws) vs) ss h = cc
as_texts-eq-some (cons (dict fs) vs) ss h = cc

is_exact_int→int : (v : Value) → is_exact_int v (pos 1) ≡ true → v ≡ int (pos 1)
is_exact_int→int (int z) h = ap int ((int_eq.equal_iff z (pos 1)).0 h)
is_exact_int→int null h = cc
is_exact_int→int (bool b) h = cc
is_exact_int→int (float f) h = cc
is_exact_int→int (str s) h = cc
is_exact_int→int (list vs) h = cc
is_exact_int→int (dict fs) h = cc

is_text→str : (v : Value) (s : String) → is_text v s ≡ true → v ≡ str s
is_text→str (str t) s h = ap str ((string_eq.equal_iff t s).0 h)
is_text→str null s h = cc
is_text→str (bool b) s h = cc
is_text→str (float f) s h = cc
is_text→str (int z) s h = cc
is_text→str (list vs) s h = cc
is_text→str (dict fs) s h = cc

exact→Capable :
    (vs : Items) (o : Option (List String))
    → as_texts vs ≡ o
    → exact_capabilities o ≡ true
    → (caps : List String) × (list vs ≡ list (text_items caps)) × Perm caps required_capabilities
exact→Capable vs none e h = cc
exact→Capable vs (some ss) e h = (
  ss,
  ap list (as_texts-eq-some vs ss e),
  same_set→Perm ss required_capabilities (ground arith) required-Nodup (ground arith),
)

declares→Capable :
    (v : Value)
    → declares_capabilities v ≡ true
    → (caps : List String) × (v ≡ list (text_items caps)) × Perm caps required_capabilities
declares→Capable (list vs) h = exact→Capable vs (as_texts vs) refl h
declares→Capable null h = cc
declares→Capable (bool b) h = cc
declares→Capable (int z) h = cc
declares→Capable (float f) h = cc
declares→Capable (str s) h = cc
declares→Capable (dict fs) h = cc

Perm→exact :
    (caps : List String)
    → Perm caps required_capabilities
    → declares_capabilities (list (text_items caps)) ≡ true
Perm→exact caps p = rw (
  as_texts-text_items caps,
  Perm→distinct caps required_capabilities p required-Nodup,
  Perm→same_set caps required_capabilities p,
)

-- The three checks, over the values that the dict holds.
abbrev checked : Result Value → Result Value → Result Value → Result Contract
checked version name caps = do
  guard (is_exact_int (← version) (pos 1)) schema_error
  guard (is_text (← name) "inventory-cloud-service") service_error
  guard (declares_capabilities (← caps)) capabilities_error
  ok canonical

checked-eq-ok :
    (version name caps : Result Value) (c : Contract)
    → checked version name caps ≡ ok c
    → (c ≡ canonical)
      × (version ≡ ok (int (pos 1)))
      × (name ≡ ok (str "inventory-cloud-service"))
      × ((ss : List String) × (caps ≡ ok (list (text_items ss))) × Perm ss required_capabilities)
checked-eq-ok (ok v) (ok n) (ok x) c h =
    let (ss, same, perm) = declares→Capable x (ground arith) in
    (
      ground arith,
      ap ok (is_exact_int→int v (ground arith)),
      ap ok (is_text→str n "inventory-cloud-service" (ground arith)),
      (ss, ap ok same, perm),
    )
checked-eq-ok (err e) n x c h = cc
checked-eq-ok (ok v) (err e) x c h = ground arith
checked-eq-ok (ok v) (ok n) (err e) c h = ground arith

guard-eq-ok :
    (c : Bool) (e : Exc) (m : Result Contract) {b : Contract}
    → (guard c e >> m) ≡ ok b
    → (c ≡ true) × (m ≡ ok b)
guard-eq-ok true e m h = (refl, h)
guard-eq-ok false e m h = cc

accepted :
    (fs : Fields) (c : Contract)
    → validate_contract (dict fs) ≡ ok c
    → (c ≡ canonical) × ((caps : List String) × Declares fs caps)
unfolding validate_contract
accepted fs c h =
    let parts : (same_set (keys fs) contract_keys ≡ true) × (validate_fields (dict fs) ≡ ok c) =
      guard-eq-ok _ structure_error _ h in
    let (same, schema, service, (ss, listed, perm)) = checked-eq-ok _ _ _ c parts.1 in
    (
      same,
      (
        ss,
        record {
          exact_keys = same_set→mem_iff (keys fs) contract_keys parts.0;
          schema = schema;
          service = service;
          declared = listed;
          complete = perm;
        },
      ),
    )

declared-ok :
    (fs : Fields) (caps : List String)
    → Declares fs caps
    → validate_contract (dict fs) ≡ ok canonical
unfolding validate_contract
declared-ok fs caps d = rw (
  mem_iff→same_set (keys fs) contract_keys d.exact_keys,
  d.schema,
  d.service,
  d.declared,
  Perm→exact caps d.complete,
)

-- `validate_contract` returns exactly when the value is a dict with the keys `schemaVersion`,
-- `service` and `capabilities` and no other, the schema is the integer 1, the service is
-- inventory-cloud-service, and the capabilities are a list of the required texts, each once and in
-- any order; and what it returns is then the canonical contract, whatever the order was.
pub validate_contract-eq-ok :
    (v : Value) (c : Contract)
    → (validate_contract v ≡ ok c) ↔ (
        (c ≡ canonical) × ((fs : Fields) × (caps : List String) × (v ≡ dict fs) × Declares fs caps))
unfolding validate_contract
validate_contract-eq-ok (dict fs) c = (
  (λ h. let (same, (caps, d)) = accepted fs c h in (same, (fs, caps, refl, d))),
  λ (same, (gs, caps, p, d)). ap validate_contract p ∙ declared-ok gs caps d ∙ sym (ap ok same),
)
validate_contract-eq-ok null c = (λ h. cc, λ h. cc h.1.2)
validate_contract-eq-ok (bool b) c = (λ h. cc, λ h. cc h.1.2)
validate_contract-eq-ok (int z) c = (λ h. cc, λ h. cc h.1.2)
validate_contract-eq-ok (float f) c = (λ h. cc, λ h. cc h.1.2)
validate_contract-eq-ok (str s) c = (λ h. cc, λ h. cc h.1.2)
validate_contract-eq-ok (list vs) c = (λ h. cc, λ h. cc h.1.2)

found_key :
    (k : String) (fs : Fields)
    → contains k (keys fs) ≡ true
    → (v : Value) × (subscript (dict fs) k ≡ ok v)
found_key k end h = cc
found_key k (field j v fs) h = elim (Bool-cases (k == j)) [
  | inl here ↦ (v, rw here)
  | inr there ↦ let (w, e) = found_key k fs (rw there at h) in (w, rw there e)
]

checked-only_contract :
    (v n x : Value) (e : Exc)
    → checked (ok v) (ok n) (ok x) ≡ err e
    → (message : String) × (e ≡ contract message)
checked-only_contract v n x e h = ground arith

-- Whatever the decoded value is, a refusal is a `ContractError`: no lookup in it raises another
-- exception.
pub validate_contract-only_contract :
    (v : Value) (e : Exc)
    → validate_contract v ≡ err e
    → (message : String) × (e ≡ contract message)
unfolding validate_contract validate_fields
validate_contract-only_contract (dict fs) e h =
    elim (Bool-cases (same_set (keys fs) contract_keys)) [
      | inl exact ↦
          let (v, version) = found_key "schemaVersion" fs (ground arith) in
          let (n, name) = found_key "service" fs (ground arith) in
          let (x, caps) = found_key "capabilities" fs (ground arith) in
          checked-only_contract v n x e (rw (exact, version, name, caps) at h)
      | inr other ↦ ground arith
    ]
validate_contract-only_contract null e h = ground arith
validate_contract-only_contract (bool b) e h = ground arith
validate_contract-only_contract (int z) e h = ground arith
validate_contract-only_contract (float f) e h = ground arith
validate_contract-only_contract (str s) e h = ground arith
validate_contract-only_contract (list vs) e h = ground arith
