-- ===== src/Load/Verdict.antt =====
-- What `run_load` of scripts/load-test.py demands of the samples and of the service at the end.
use mathlib.Core.Path.{subst}
use inventory_cloud_service.Base.{
  both, arith, ◌≡◌, sym, ap, ◌∙◌, ℕ, ◌-◌, ◌≤◌, Bool, true, false, not, ◌&&◌, List, length, leb,
  ◌==◌, nat_eq, some, none, if◌then◌else◌,
}
use inventory_cloud_service.Base.Int.{ℤ, pos, negsuc, finite, infinite, not_a_number, is_negative}
use inventory_cloud_service.Json.{
  Value, bool, int, float, Result, ok, err, type_error, runtime, subscript, is_number, guard,
  guard-bind-eq-ok, ◌>>=◌, ◌>>◌, >>=-eq-ok,
}
use inventory_cloud_service.Json.Ensures.{ok-injective}
use inventory_cloud_service.Load.Defs.{Sample, is_reserve, count, stock}

-- `v >= 0`
abbrev pub at_least_zero : Value → Result Bool
at_least_zero (bool b) = ok true
at_least_zero (int z) = ok (not (is_negative z))
at_least_zero (float (finite m e)) = ok (not (is_negative m))
at_least_zero (float (infinite positive)) = ok positive
at_least_zero (float not_a_number) = ok false
at_least_zero _ = err type_error

-- `m - n`
abbrev pub difference : ℕ → ℕ → ℤ
difference m n = if leb n m then pos (m - n) else negsuc (n - m - 1)

abbrev pub is_sale : Sample → Bool
is_sale s = is_reserve s.operation && elim s.status [ none ↦ false | some n ↦ n == 201 ]

pub record Invariants : Type 0 where
  pub successful_reservations : ℕ
  pub database_reservations : Value
  pub remaining_stock : Value
  pub no_overselling : Bool
  pub stock_accounting_matches : Bool
  pub reservation_count_matches : Bool

-- `successes <= stock and final_product["availableQuantity"] >= 0`
abbrev pub not_oversold : ℕ → Value → Result Bool
not_oversold successes remaining = if leb successes stock then at_least_zero remaining else ok false

unfoldable pub invariants_of : List Sample → Value → Value → Result Invariants
invariants_of samples product reservations = do
  let successes = count is_sale samples
  total ← subscript reservations "totalElements"
  remaining ← subscript product "availableQuantity"
  safe ← not_oversold successes remaining
  ok (record {
    successful_reservations = successes;
    database_reservations = total;
    remaining_stock = remaining;
    no_overselling = safe;
    stock_accounting_matches = is_number remaining (difference stock successes);
    reservation_count_matches = is_number total (pos successes);
  })

-- The elapsed time is in milliseconds.
unfoldable pub judge_run : ℕ → ℕ → List Sample → Value → Value → Result Invariants
judge_run requests elapsed samples product reservations = do
  found ← invariants_of samples product reservations
  guard (length samples == requests)
      (runtime "Workload deadline reached before all requested operations completed")
  guard (count (λ s. not s.expected) samples == 0)
      (runtime "Workload had unexpected HTTP or transport errors")
  guard (leb elapsed 60000) (runtime "Measured workload exceeded the hard 60-second limit")
  guard (found.successful_reservations == stock && is_number found.remaining_stock (pos 0))
      (runtime "Expected exactly 64 reservations with zero available stock")
  guard (is_number found.database_reservations (pos found.successful_reservations))
      (runtime "API reservation count does not match successful writes")
  ok found

within_limit : (elapsed : ℕ) → leb elapsed 60000 ≡ true → elapsed ≤ 60000
within_limit elapsed p = ground arith

invariants_of-eq-ok :
    (samples : List Sample) (product reservations : Value) (found : Invariants)
    → invariants_of samples product reservations ≡ ok found
    → (found.successful_reservations ≡ count is_sale samples)
      × (subscript reservations "totalElements" ≡ ok found.database_reservations)
      × (subscript product "availableQuantity" ≡ ok found.remaining_stock)
unfolding invariants_of
invariants_of-eq-ok samples product reservations found e =
    let (total, p, e1) = >>=-eq-ok (subscript reservations "totalElements") _ e in
    let (remaining, q, e2) = >>=-eq-ok (subscript product "availableQuantity") _ e1 in
    let (safe, r, e3) = >>=-eq-ok (not_oversold (count is_sale samples) remaining) _ e2 in
    let same = ok-injective e3 in
    (
      ap (λ i. i.successful_reservations) (sym same),
      p ∙ ap (λ i. ok i.database_reservations) same,
      q ∙ ap (λ i. ok i.remaining_stock) same,
    )

-- A run whose checks pass has a sample for each request, none unexpected, within 60 seconds; 64
-- reservations succeeded, as many as the stock, the service has no stock left, and it reports 64
-- reservations.
pub judge_run-eq-ok :
    (requests elapsed : ℕ) (samples : List Sample) (product reservations : Value)
    (found : Invariants)
    → judge_run requests elapsed samples product reservations ≡ ok found
    → (length samples ≡ requests)
      × (count (λ s. not s.expected) samples ≡ 0)
      × (elapsed ≤ 60000)
      × (count is_sale samples ≡ 64)
      × ((remaining : Value) × (subscript product "availableQuantity" ≡ ok remaining)
          × (is_number remaining (pos 0) ≡ true))
      × ((total : Value) × (subscript reservations "totalElements" ≡ ok total)
          × (is_number total (pos 64) ≡ true))
unfolding judge_run
judge_run-eq-ok requests elapsed samples product reservations found e =
    let (inv, there, e1) = >>=-eq-ok (invariants_of samples product reservations) _ e in
    let (g1, e2) = guard-bind-eq-ok (length samples == requests) _ _ e1 in
    let (g2, e3) = guard-bind-eq-ok (count (λ s. not s.expected) samples == 0) _ _ e2 in
    let (g3, e4) = guard-bind-eq-ok (leb elapsed 60000) _ _ e3 in
    let (g4, e5) =
      guard-bind-eq-ok
        (inv.successful_reservations == stock && is_number inv.remaining_stock (pos 0)) _ _ e4 in
    let (g5, _) =
      guard-bind-eq-ok (is_number inv.database_reservations (pos inv.successful_reservations)) _ _
        e5 in
    let (successes, total_at, remaining_at) =
      invariants_of-eq-ok samples product reservations inv there in
    let (sold, empty) = both _ _ g4 in
    let all_sold = (nat_eq.equal_iff inv.successful_reservations stock).0 sold in
    (
      (nat_eq.equal_iff (length samples) requests).0 g1,
      (nat_eq.equal_iff (count (λ s. not s.expected) samples) 0).0 g2,
      within_limit elapsed g3,
      sym successes ∙ all_sold,
      (inv.remaining_stock, remaining_at, empty),
      (
        inv.database_reservations,
        total_at,
        subst (λ n. is_number inv.database_reservations (pos n) ≡ true) all_sold g5,
      ),
    )
