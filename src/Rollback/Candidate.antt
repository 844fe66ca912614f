-- ===== src/Rollback/Candidate.antt =====
-- When there is a candidate archive, and what is in it.
use mathlib.Core.Path.{subst}
use inventory_cloud_service.Base.{
  ◌≡◌, refl, ap, sym, ◌∙◌, ◌↔◌, ℕ, ◌+◌, ◌<◌, String, Bool, true, false, not, List, [], ◌∷◌, ◌++◌,
  ◌==◌, nat_eq, string_eq, length, any, All, contains, arith, both, Bool-cases, inl, inr, beq_refl,
}
use inventory_cloud_service.Base.Text.{occurs_in}
use inventory_cloud_service.Base.Sets.{distinct}
use inventory_cloud_service.Json.{
  Exc, Result, ok, err, ◌>>=◌, guard, >>=-eq-ok, guard-bind-eq-ok, all_hold,
}
use inventory_cloud_service.Json.Ensures.{ok-injective}
use inventory_cloud_service.Drill.{Bytes}
use inventory_cloud_service.Rollback.Jar.{
  Archive, names, read_entry, same_bytes, versions_of, largest, migration, adds_only, keeps_entry,
  resource_of, make_candidate_jar,
}

bind-ok : {A B : Type 0} {r : Result A} {a : A} (f : A → Result B) → r ≡ ok a → (r >>= f) ≡ f a
bind-ok f e = ap (λ x. x >>= f) e

guard-bind :
    {B : Type 0} {c : Bool} (x : Exc) (f : Unit {0} → Result B)
    → c ≡ true
    → (guard c x >>= f) ≡ f tt
guard-bind x f e = ap (λ b. guard b x >>= f) e

same_bytes_refl : (b : Bytes) → same_bytes b b ≡ true
same_bytes_refl [] = refl
same_bytes_refl (a ∷ b) = rw (beq_refl a) (same_bytes_refl b)

all_less : (vs : List ℕ) (n : ℕ) → largest vs < n → All (λ v. v < n) vs
all_less [] n h = tt
all_less (v ∷ vs) n h = (omega arith, all_less vs n (omega arith))

names-snoc :
    (source : Archive) (r : String) (b : Bytes)
    → names (source ++ (r, b) ∷ []) ≡ names source ++ r ∷ []
names-snoc [] r b = refl
names-snoc ((n, c) ∷ source) r b = ap (λ l. n ∷ l) (names-snoc source r b)

-- An entry of another name at the end of an archive leaves what is read by a name.
read_entry-snoc :
    (name r : String) (b : Bytes) (source : Archive)
    → (name == r) ≡ false
    → read_entry name (source ++ (r, b) ∷ []) ≡ read_entry name source
read_entry-snoc name r b [] other = rw other
read_entry-snoc name r b ((n, c) ∷ source) other = rw (read_entry-snoc name r b source other)

read_entry-last :
    (r : String) (b : Bytes) (source : Archive) → read_entry r (source ++ (r, b) ∷ []) ≡ ok b
read_entry-last r b [] = rw (beq_refl r)
read_entry-last r b ((n, c) ∷ source) = rw (read_entry-last r b source)

-- Each name of an archive can be read.
read_entry-contains :
    (name : String) (source : Archive)
    → contains name (names source) ≡ true
    → (b : Bytes) × (read_entry name source ≡ ok b)
read_entry-contains name [] h = cc
read_entry-contains name ((n, c) ∷ source) h = elim (Bool-cases (contains name (names source))) [
  | inl later ↦ let (b, e) = read_entry-contains name source later in (b, rw e)
  | inr later_none ↦ at_head (read_entry name source) refl (ground arith)
]
  where
    at_head :
        (found : Result Bytes)
        → read_entry name source ≡ found
        → (name == n) ≡ true
        → (b : Bytes) × (read_entry name ((n, c) ∷ source) ≡ ok b)
    at_head (ok b) e here = (b, rw e)
    at_head (err x) e here = (c, rw (e, here))

differs :
    (name r : String) (xs : List String)
    → contains name xs ≡ true
    → contains r xs ≡ false
    → (name == r) ≡ false
differs name r xs here fresh = elim (Bool-cases (name == r)) [
  | inl same ↦ cc (here, fresh, ap (λ n. contains n xs) ((string_eq.equal_iff name r).0 same))
  | inr other ↦ other
]

-- What is new in a list with a last element more, if anything is, is that element.
fresh_last :
    (r : String) (xs ys : List String)
    → ((n : String) → contains n xs ≡ true → contains n ys ≡ true)
    → any (λ n. not (contains n ys)) (xs ++ r ∷ []) ≡ true
    → contains r ys ≡ false
fresh_last r [] ys h e = ground arith
fresh_last r (x ∷ xs) ys h e =
    fresh_last r xs ys (λ n found. h n (ground arith)) (ground (arith, h x (rw (beq_refl x))))

adds_only-snoc :
    (r : String) (xs ys : List String)
    → contains r ys ≡ false
    → ((n : String) → contains n xs ≡ true → contains n ys ≡ true)
    → adds_only r ys (xs ++ r ∷ []) ≡ true
adds_only-snoc r [] ys fresh h = rw (fresh, beq_refl r)
adds_only-snoc r (x ∷ xs) ys fresh h =
    let rest = adds_only-snoc r xs ys fresh (λ n found. h n (ground arith)) in
    ground (arith, rest, h x (rw (beq_refl x)))

all_hold-keeps_entry :
    (source : Archive) (r : String) (xs : List String)
    → ((n : String) → contains n xs ≡ true → contains n (names source) ≡ true)
    → contains r (names source) ≡ false
    → all_hold (keeps_entry source (source ++ (r, migration) ∷ [])) xs ≡ ok true
all_hold-keeps_entry source r [] h fresh = refl
all_hold-keeps_entry source r (x ∷ xs) h fresh =
    let here = h x (rw (beq_refl x)) in
    let (b, found) = read_entry-contains x source here in
    let rest = all_hold-keeps_entry source r xs (λ n p. h n (ground arith)) fresh in
    rw (
      found,
      read_entry-snoc x r migration source (differs x r (names source) here fresh),
      found,
      same_bytes_refl b,
      rest,
    )

-- A source archive from which a candidate is made, and the candidate.
pub record IsCandidate (display : ℕ → String) (source : Archive) (version : ℕ) (resource : String)
    (candidate : Archive) : Type 0 where
  pub versions : List ℕ
  pub versions_are : versions_of (names source) ≡ ok versions
  pub some_version : not (length versions == 0) ≡ true
  pub unique : distinct (names source) ≡ true
  pub no_prior : not (any (occurs_in "rollback_drill") (names source)) ≡ true
  pub next : version ≡ largest versions + 1
  pub named : resource ≡ resource_of (display version)
  pub fresh : contains resource (names source) ≡ false
  pub appended : candidate ≡ source ++ (resource, migration) ∷ []

-- A candidate archive is made exactly if the source has a versioned migration and no name twice, no
-- name of it is that of an earlier candidate or the new one; the candidate is then the source with one
-- more entry, the migration, named after the version that follows the largest one of the source.
pub make_candidate_jar-eq-ok_iff :
    (display : ℕ → String) (source : Archive) (version : ℕ) (resource : String)
    (candidate : Archive)
    → (make_candidate_jar display source ≡ ok (version, (resource, candidate)))
      ↔ IsCandidate display source version resource candidate
unfolding make_candidate_jar
make_candidate_jar-eq-ok_iff display source version resource candidate = (made, makes)
  where
    made :
        make_candidate_jar display source ≡ ok (version, (resource, candidate))
        → IsCandidate display source version resource candidate
    made e =
        let (versions, versions_are, e1) = >>=-eq-ok (versions_of (names source)) _ e in
        let (some_version, e2) = guard-bind-eq-ok (not (length versions == 0)) _ _ e1 in
        let (unique, e3) = guard-bind-eq-ok (distinct (names source)) _ _ e2 in
        let (no_prior, e4) =
          guard-bind-eq-ok (not (any (occurs_in "rollback_drill") (names source))) _ _ e3 in
        let new = resource_of (display (largest versions + 1)) in
        let grown : Archive = source ++ (new, migration) ∷ [] in
        let (added, e5) = guard-bind-eq-ok (adds_only new (names source) (names grown)) _ _ e4 in
        let (kept, _, e6) = >>=-eq-ok (all_hold (keeps_entry source grown) (names source)) _ e5 in
        let (_, e7) = guard-bind-eq-ok kept _ _ e6 in
        let result = ok-injective e7 in
        let fresh =
          fresh_last new (names source) (names source) (λ n p. p)
            (subst (λ l. any (λ n. not (contains n (names source))) l ≡ true)
              (names-snoc source new migration)
              (both (any (λ n. not (contains n (names source))) (names grown)) _ added).0) in
        subst (λ (p : ℕ × (String × Archive)). IsCandidate display source p.0 p.1.0 p.1.1) result
          (record {
            versions = versions;
            versions_are = versions_are;
            some_version = some_version;
            unique = unique;
            no_prior = no_prior;
            next = refl;
            named = refl;
            fresh = fresh;
            appended = refl;
          })

    makes :
        IsCandidate display source version resource candidate
        → make_candidate_jar display source ≡ ok (version, (resource, candidate))
    makes h =
        let new = resource_of (display (largest h.versions + 1)) in
        let is_resource : (new ≡ resource) =
          ap (λ v. resource_of (display v)) (sym h.next) ∙ sym h.named in
        let fresh : (contains new (names source) ≡ false) =
          ap (λ n. contains n (names source)) is_resource ∙ h.fresh in
        let grown : Archive = source ++ (new, migration) ∷ [] in
        let added : (adds_only new (names source) (names grown) ≡ true) =
          ap (adds_only new (names source)) (names-snoc source new migration)
          ∙ adds_only-snoc new (names source) (names source) fresh (λ n p. p) in
        let kept = all_hold-keeps_entry source new (names source) (λ n p. p) fresh in
        bind-ok _ h.versions_are
        ∙ guard-bind _ _ h.some_version
        ∙ guard-bind _ _ h.unique
        ∙ guard-bind _ _ h.no_prior
        ∙ guard-bind _ _ added
        ∙ bind-ok _ kept
        ∙ (λ i. ok (
          sym h.next i,
          (is_resource i, (ap (λ n. source ++ (n, migration) ∷ []) is_resource ∙ sym h.appended) i),
        ))

-- In a candidate archive each name of the source reads what it reads in the source, the new name reads
-- the migration, and the version is above each version of the source.
pub make_candidate_jar-reads :
    (display : ℕ → String) (source : Archive) {version : ℕ} {resource : String}
    {candidate : Archive}
    → make_candidate_jar display source ≡ ok (version, (resource, candidate))
    → ((name : String)
        → contains name (names source) ≡ true
        → read_entry name candidate ≡ read_entry name source)
      × (read_entry resource candidate ≡ ok migration)
      × ((versions : List ℕ) × (versions_of (names source) ≡ ok versions)
          × All (λ v. v < version) versions)
make_candidate_jar-reads display source {version} {resource} {candidate} e =
    let h = (make_candidate_jar-eq-ok_iff display source version resource candidate).0 e in
    (
      λ name here.
          ap (read_entry name) h.appended
          ∙ read_entry-snoc name resource migration source
              (differs name resource (names source) here h.fresh),
      ap (read_entry resource) h.appended ∙ read_entry-last resource migration source,
      (h.versions, h.versions_are, all_less h.versions version (omega (arith, h.next))),
    )
