-- ===== src/Contract/Strict.antt =====
-- The hook `strict_object` keeps every value without repeated keys as it is, and refuses all others.
use mathlib.Core.Path.{subst}
use inventory_cloud_service.Base.{
  ◌≡◌, refl, ap, sym, ◌↔◌, ◌||◌, ◌∙◌, inl, inr, String, false, arith, Bool-cases, contains,
  string_eq, ◌==◌,
}
use inventory_cloud_service.Json.{
  Value, null, bool, int, float, str, list, dict, Items, nil, cons, Fields, end, field, Result, ok,
  err, ◌>>=◌, >>=-eq-ok, keys, snoc,
}
use inventory_cloud_service.Json.Unique.{UniqueKeys, UniqueItems, UniqueFields}
use inventory_cloud_service.Contract.Defs.{
  strict_object_from, strict_object, strict, strict_items, strict_fields,
}

-- `fs` with the entries of `gs` behind it.
join : Fields → Fields → Fields
join end gs = gs
join (field k v fs) gs = field k v (join fs gs)

join-end : (fs : Fields) → join fs end ≡ fs
unfolding join
join-end end = refl
join-end (field k v fs) = ap (field k v) (join-end fs)

join-snoc :
    (fs : Fields) (k : String) (v : Value) (gs : Fields)
    → join (snoc fs k v) gs ≡ join fs (field k v gs)
unfolding join
join-snoc end k v gs = refl
join-snoc (field j w fs) k v gs = ap (field j w) (join-snoc fs k v gs)

contains-keys-snoc :
    (a : String) (fs : Fields) (k : String) (v : Value)
    → contains a (keys (snoc fs k v)) ≡ (contains a (keys fs) || a == k)
contains-keys-snoc a end k v = ground arith
contains-keys-snoc a (field j w fs) k v = ground (arith, contains-keys-snoc a fs k v)

-- No key of the pairs stands in the dict made so far.
abbrev Apart : Fields → Fields → Type 0
Apart end made = Unit
Apart (field k v fs) made = (contains k (keys made) ≡ false) × Apart fs made

abbrev DistinctKeys : Fields → Type 0
DistinctKeys end = Unit
DistinctKeys (field k v fs) = (contains k (keys fs) ≡ false) × DistinctKeys fs

Apart-snoc :
    (fs made : Fields) (k : String) (v : Value)
    → Apart fs made
    → contains k (keys fs) ≡ false
    → Apart fs (snoc made k v)
Apart-snoc end made k v h c = tt
Apart-snoc (field j w fs) made k v h c = (
  rw contains-keys-snoc (ground (arith, string_eq.equal_iff k j, string_eq.equal_iff j k)),
  Apart-snoc fs made k v h.1 (ground arith),
)

Apart-snoc_inv :
    (fs made : Fields) (k : String) (v : Value)
    → Apart fs (snoc made k v)
    → Apart fs made × (contains k (keys fs) ≡ false)
Apart-snoc_inv end made k v h = (tt, refl)
Apart-snoc_inv (field j w fs) made k v h =
    let (apart, absent) = Apart-snoc_inv fs made k v h.1 in
    let outside : (contains j (keys made) || j == k) ≡ false = rw contains-keys-snoc at (h.0) in
    ((ground arith, apart), ground (arith, string_eq.equal_iff k j, string_eq.equal_iff j k))

Apart-end : (fs : Fields) → Apart fs end
Apart-end end = tt
Apart-end (field k v fs) = (refl, Apart-end fs)

from-ok :
    (fs made : Fields)
    → DistinctKeys fs
    → Apart fs made
    → strict_object_from fs made ≡ ok (dict (join made fs))
unfolding strict_object_from
from-ok end made d h = ap (λ fs. ok (dict fs)) (sym (join-end made))
from-ok (field k v fs) made d h = rw h.0 (
    from-ok fs (snoc made k v) d.1 (Apart-snoc fs made k v h.1 d.0)
    ∙ ap (λ gs. ok (dict gs)) (join-snoc made k v fs))

from-eq-ok :
    (fs made : Fields) (w : Value)
    → strict_object_from fs made ≡ ok w
    → (w ≡ dict (join made fs)) × DistinctKeys fs × Apart fs made
unfolding strict_object_from
from-eq-ok end made w h = (rw join-end (cc), tt, tt)
from-eq-ok (field k v fs) made w h = elim (Bool-cases (contains k (keys made))) [
  | inl found ↦ cc (rw found at h)
  | inr absent ↦
      let (same, distinct, apart) = from-eq-ok fs (snoc made k v) w (rw absent at h) in
      let (free, once) = Apart-snoc_inv fs made k v apart in
      (same ∙ ap dict (join-snoc made k v fs), (once, distinct), (absent, free))
]

-- One object: its pairs become the dict exactly when no key repeats.
strict_object-ok : (fs : Fields) → DistinctKeys fs → strict_object fs ≡ ok (dict fs)
unfolding strict_object join
strict_object-ok fs d = from-ok fs end d (Apart-end fs)

strict_object-eq-ok :
    (fs : Fields) (w : Value) → strict_object fs ≡ ok w → (w ≡ dict fs) × DistinctKeys fs
unfolding strict_object join
strict_object-eq-ok fs w h = let (same, distinct, apart) = from-eq-ok fs end w h in (same, distinct)

UniqueFields→DistinctKeys : (fs : Fields) → UniqueFields fs → DistinctKeys fs
UniqueFields→DistinctKeys end u = tt
UniqueFields→DistinctKeys (field k v fs) u = (u.0, UniqueFields→DistinctKeys fs u.2)

mutual
  unfolding strict

  strict-ok : (v : Value) → UniqueKeys v → strict v ≡ ok v
  strict-ok null u = refl
  strict-ok (bool b) u = refl
  strict-ok (int z) u = refl
  strict-ok (float f) u = refl
  strict-ok (str s) u = refl
  strict-ok (list vs) u = rw (strict_items-ok vs u)
  strict-ok (dict fs) u =
      rw (strict_fields-ok fs u) (strict_object-ok fs (UniqueFields→DistinctKeys fs u))

  strict_items-ok : (vs : Items) → UniqueItems vs → strict_items vs ≡ ok vs
  strict_items-ok nil u = refl
  strict_items-ok (cons v vs) u = rw (strict-ok v u.0, strict_items-ok vs u.1)

  strict_fields-ok : (fs : Fields) → UniqueFields fs → strict_fields fs ≡ ok fs
  strict_fields-ok end u = refl
  strict_fields-ok (field k v fs) u = rw (strict-ok v u.1, strict_fields-ok fs u.2)

-- The values of a dict keep their own keys apart.
abbrev UniqueValues : Fields → Type 0
UniqueValues end = Unit
UniqueValues (field k v fs) = UniqueKeys v × UniqueValues fs

unique_fields : (fs : Fields) → DistinctKeys fs → UniqueValues fs → UniqueFields fs
unique_fields end d u = tt
unique_fields (field k v fs) d u = (d.0, u.0, unique_fields fs d.1 u.1)

strict_dict-eq-ok :
    (fs : Fields) (r : Result Fields) (w : Value)
    → ((gs : Fields) → r ≡ ok gs → (gs ≡ fs) × UniqueValues fs)
    → (r >>= strict_object) ≡ ok w
    → (w ≡ dict fs) × UniqueFields fs
strict_dict-eq-ok fs (ok gs) w k h =
    let (same, values) = k gs refl in
    let (made, distinct) = strict_object-eq-ok gs w h in
    (made ∙ ap dict same, unique_fields fs (subst DistinctKeys same distinct) values)
strict_dict-eq-ok fs (err e) w k h = cc

mutual
  unfolding strict

  strict-eq-ok : (v w : Value) → strict v ≡ ok w → (w ≡ v) × UniqueKeys v
  strict-eq-ok null w h = (cc, tt)
  strict-eq-ok (bool b) w h = (cc, tt)
  strict-eq-ok (int z) w h = (cc, tt)
  strict-eq-ok (float f) w h = (cc, tt)
  strict-eq-ok (str s) w h = (cc, tt)
  strict-eq-ok (list vs) w h =
      let (ws, e, made) = >>=-eq-ok (strict_items vs) _ h in
      let (same, unique) = strict_items-eq-ok vs ws e in (cc, unique)
  strict-eq-ok (dict fs) w h = strict_dict-eq-ok fs (strict_fields fs) w (strict_fields-eq-ok fs) h

  strict_items-eq-ok : (vs ws : Items) → strict_items vs ≡ ok ws → (ws ≡ vs) × UniqueItems vs
  strict_items-eq-ok nil ws h = (cc, tt)
  strict_items-eq-ok (cons v vs) ws h =
      let (x, first, rest) = >>=-eq-ok (strict v) _ h in
      let (xs, others, made) = >>=-eq-ok (strict_items vs) _ rest in
      let (same, unique) = strict-eq-ok v x first in
      let (sames, uniques) = strict_items-eq-ok vs xs others in (cc, (unique, uniques))

  strict_fields-eq-ok : (fs gs : Fields) → strict_fields fs ≡ ok gs → (gs ≡ fs) × UniqueValues fs
  strict_fields-eq-ok end gs h = (cc, tt)
  strict_fields-eq-ok (field k v fs) gs h =
      let (x, first, rest) = >>=-eq-ok (strict v) _ h in
      let (xs, others, made) = >>=-eq-ok (strict_fields fs) _ rest in
      let (same, unique) = strict-eq-ok v x first in
      let (sames, uniques) = strict_fields-eq-ok fs xs others in (cc, (unique, uniques))

-- Decoding with `strict_object` as the hook returns exactly when no object, at any depth, has a key
-- twice; it then returns the decoded value unchanged.
pub strict-eq-ok_iff : (v w : Value) → (strict v ≡ ok w) ↔ ((w ≡ v) × UniqueKeys v)
strict-eq-ok_iff v w = (strict-eq-ok v w, λ (same, unique). strict-ok v unique ∙ ap ok (sym same))
