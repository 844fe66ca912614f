-- ===== src/Load/Rank.antt =====
-- The nearest-rank percentile against its description by counting.
use mathlib.Core.Path.{subst}
use native.Mathlib.Nat.{mul-le-mul, mul-le-mul_left}
use inventory_cloud_service.Base.{
  arith, ◌≡◌, refl, ap, ◌∙◌, ℕ, zero, suc, ◌+◌, ◌-◌, ◌*◌, ◌/◌, ◌≤◌, ◌<◌, Bool, true, false, some,
  List, [], ◌∷◌, All, length, get_elem?, leb, ltb, Bool-cases, inl, inr, if◌then◌else◌,
}
use inventory_cloud_service.Load.Defs.{insert_number, sorted, percentile}

leb_le : (a b : ℕ) → leb a b ≡ true → a ≤ b
leb_le a b p = ground arith

not_leb : (a b : ℕ) → leb a b ≡ false → b ≤ a
not_leb a b p = ground arith

no_below : (k : ℕ) → k < 0 → ⊥
no_below k p = omega arith

some_same : {a b : ℕ} → some a ≡ some b → a ≡ b
some_same e = cc

-- How many of the numbers pass the test.
abbrev pub tally : (ℕ → Bool) → List ℕ → ℕ
tally p [] = 0
tally p (a ∷ rest) = (if p a then 1 else 0) + tally p rest

abbrev IsAscending : List ℕ → Type 0
IsAscending [] = Unit
IsAscending (a ∷ rest) = All (λ b. a ≤ b) rest × IsAscending rest

tally-insert_number :
    (p : ℕ → Bool) (a : ℕ) (bs : List ℕ) → tally p (insert_number a bs) ≡ tally p (a ∷ bs)
tally-insert_number p a [] = refl
tally-insert_number p a (b ∷ bs) = ground (arith, tally-insert_number p a bs)

tally-sorted : (p : ℕ → Bool) (xs : List ℕ) → tally p (sorted xs) ≡ tally p xs
unfolding sorted
tally-sorted p [] = refl
tally-sorted p (a ∷ rest) =
    tally-insert_number p a (sorted rest)
    ∙ ap (λ n. (if p a then 1 else 0) + n) (tally-sorted p rest)

length-insert_number : (a : ℕ) (bs : List ℕ) → length (insert_number a bs) ≡ suc (length bs)
length-insert_number a [] = refl
length-insert_number a (b ∷ bs) = ground (arith, length-insert_number a bs)

length-sorted : (xs : List ℕ) → length (sorted xs) ≡ length xs
unfolding sorted
length-sorted [] = refl
length-sorted (a ∷ rest) = length-insert_number a (sorted rest) ∙ ap suc (length-sorted rest)

All-weaken : (a b : ℕ) (xs : List ℕ) → a ≤ b → All (λ x. b ≤ x) xs → All (λ x. a ≤ x) xs
All-weaken a b [] p q = tt
All-weaken a b (x ∷ xs) p q = (omega (arith, p, q.0), All-weaken a b xs p q.1)

All-insert_number :
    (c a : ℕ) (bs : List ℕ) → c ≤ a → All (λ b. c ≤ b) bs → All (λ b. c ≤ b) (insert_number a bs)
All-insert_number c a [] p q = (p, tt)
All-insert_number c a (b ∷ bs) p q = ground (arith, All-insert_number c a bs p q.1)

insert_number-IsAscending :
    (a : ℕ) (bs : List ℕ) → IsAscending bs → IsAscending (insert_number a bs)
insert_number-IsAscending a [] s = (tt, tt)
insert_number-IsAscending a (b ∷ bs) s = elim (Bool-cases (leb a b)) [
  | inl before ↦ rw before ((leb_le a b before, All-weaken a b bs (leb_le a b before) s.0), s)
  | inr behind ↦
      rw behind
        (All-insert_number b a bs (not_leb a b behind) s.0, insert_number-IsAscending a bs s.1)
]

sorted-IsAscending : (xs : List ℕ) → IsAscending (sorted xs)
unfolding sorted
sorted-IsAscending [] = tt
sorted-IsAscending (a ∷ rest) = insert_number-IsAscending a (sorted rest) (sorted-IsAscending rest)

get_elem-exists : (xs : List ℕ) (k : ℕ) → k < length xs → (v : ℕ) × (get_elem? xs k ≡ some v)
get_elem-exists [] k p = absurd (no_below k p)
get_elem-exists (x ∷ xs) zero p = (x, refl)
get_elem-exists (x ∷ xs) (suc k) p = get_elem-exists xs k (omega (arith, p))

All-get_elem :
    (a : ℕ) (xs : List ℕ) (k : ℕ) {v : ℕ} → All (λ x. a ≤ x) xs → get_elem? xs k ≡ some v → a ≤ v
All-get_elem a [] k q e = cc
All-get_elem a (x ∷ xs) zero q e = subst (λ w. a ≤ w) (some_same e) q.0
All-get_elem a (x ∷ xs) (suc k) q e = All-get_elem a xs k q.1 e

none_below : (a : ℕ) (xs : List ℕ) → All (λ x. a ≤ x) xs → tally (λ x. ltb x a) xs ≡ 0
none_below a [] q = refl
none_below a (x ∷ xs) q = ground (arith, none_below a xs q.1)

first_counts :
    (y : ℕ) (ys : List ℕ)
    → All (λ x. y ≤ x) ys
    → (1 ≤ tally (λ x. leb x y) (y ∷ ys)) × (tally (λ x. ltb x y) (y ∷ ys) ≤ 0)
first_counts y ys q = (ground arith, ground (arith, none_below y ys q))

-- In an ascending list more than k numbers are at most the one at k, and at most k are less.
rank_counts :
    (ys : List ℕ) (k : ℕ) (v : ℕ)
    → IsAscending ys
    → get_elem? ys k ≡ some v
    → (suc k ≤ tally (λ x. leb x v) ys) × (tally (λ x. ltb x v) ys ≤ k)
rank_counts [] k v s e = cc
rank_counts (y ∷ ys) zero v s e =
    subst (λ w. (1 ≤ tally (λ x. leb x w) (y ∷ ys)) × (tally (λ x. ltb x w) (y ∷ ys) ≤ 0))
      (some_same e) (first_counts y ys s.0)
rank_counts (y ∷ ys) (suc k) v s e =
    let (at_least, at_most) = rank_counts ys k v s.1 e in
    let first = All-get_elem y ys k s.0 e in
    (ground (arith, at_least, first), ground (arith, at_most))

rank_bounds :
    (m n : ℕ)
    → 1 ≤ m
    → m ≤ n * 100
    → ((m + 99) / 100 - 1 < n)
      × (m ≤ 100 * suc ((m + 99) / 100 - 1))
      × (100 * ((m + 99) / 100 - 1) < m)
rank_bounds m n p q = (omega arith, omega arith, omega arith)

product_bounds : (n p : ℕ) → 1 ≤ n → 1 ≤ p → p ≤ 100 → (1 ≤ n * p) × (n * p ≤ n * 100)
product_bounds n p one_n one_p few = (mul-le-mul one_n one_p, mul-le-mul_left n few)

-- A list that is not empty has a percentile for each percentage from 1 to 100: at least that share of
-- the numbers is at most the percentile, and less than that share is below it.
pub percentile-rank :
    (values : List ℕ) (percent : ℕ)
    → 1 ≤ length values
    → 1 ≤ percent
    → percent ≤ 100
    → (v : ℕ) × (percentile values percent ≡ some v)
      × (length values * percent ≤ 100 * tally (λ x. leb x v) values)
      × (100 * tally (λ x. ltb x v) values < length values * percent)
unfolding percentile
percentile-rank values percent some_values some_share whole =
    let n = length values in
    let (one_m, m_few) = product_bounds n percent some_values some_share whole in
    let (inside, enough, few) = rank_bounds (n * percent) n one_m m_few in
    let k = (n * percent + 99) / 100 - 1 in
    let (v, found) =
      get_elem-exists (sorted values) k (omega (arith, inside, length-sorted values)) in
    let (at_least, at_most) = rank_counts (sorted values) k v (sorted-IsAscending values) found in
    (
      v,
      found,
      omega (arith, enough, at_least, tally-sorted (λ x. leb x v) values),
      omega (arith, few, at_most, tally-sorted (λ x. ltb x v) values),
    )
