-- ===== src/Drill/Sound.antt =====
-- What holds of a fixture at all times: its names, its passwords, and what it has asked Docker to do.
use inventory_cloud_service.Base.{
  ◌≡◌, refl, ◌∙◌, String, Bool, true, false, not, ◌&&◌, ◌||◌, List, [], ◌∷◌, ◌++◌, ◌==◌, string_eq,
  if◌then◌else◌, any, contains, All, All-append, arith, beq_refl, Bool-cases, inl, inr,
}
use inventory_cloud_service.Base.Sets.{distinct}
use inventory_cloud_service.Json.{ok}
use inventory_cloud_service.Drill.World.{
  Event, called, requested, slept, generated, Drill, Identity,
}
use inventory_cloud_service.Drill.Fixture.{is_own_name, lookup, insert, discard}

abbrev is_listing : List String → Bool
is_listing [] = false
is_listing (action ∷ args) = action == "ls"

abbrev is_inspection : List String → Bool
is_inspection [] = false
is_inspection (action ∷ args) = action == "inspect"

-- A Docker command that only looks: it asks for Docker's own state, inspects an image, or lists
-- containers or networks.
abbrev pub looks : String → List String → Bool
looks verb args =
    verb == "info"
    || (verb == "image" && is_inspection args)
    || ((verb == "container" || verb == "network") && is_listing args)

-- The container that `docker run --detach --name NAME` names is tracked.
abbrev pub runs_tracked : List String → List String → Bool
runs_tracked tracked (detach ∷ flag ∷ name ∷ args) = flag == "--name" && contains name tracked
runs_tracked tracked _ = false

-- The command starts a tracked container, only looks, or names something of this run; on images it
-- only looks.
abbrev pub is_proper : Identity → List String → List String → Bool
is_proper fixture tracked (program ∷ verb ∷ args) =
    program == "docker"
    && (if verb == "run"
        then runs_tracked tracked args
        else (looks verb args || (not (verb == "image") && any (is_own_name fixture) args)))
is_proper fixture tracked _ = false

abbrev pub IsProper : Identity → List String → Event → Type 0
IsProper fixture tracked (called c) = is_proper fixture tracked c.args ≡ true
IsProper fixture tracked _ = Unit

abbrev pub HasPassword : List (String × String) → String → Type 0
HasPassword passwords database = (p : String) × (lookup database passwords ≡ ok p)

pub record IsSound (fixture : Identity) (s : Drill) : Type 0 where
  pub named : All (λ n. is_own_name fixture n ≡ true) s.containers
  pub unique : distinct s.containers ≡ true
  pub passwords : All (HasPassword s.runtime_passwords) s.prepared_databases
  pub proper : All (IsProper fixture s.containers) s.history

contains-snoc :
    (a n : String) (xs : List String) → contains a xs ≡ true → contains a (xs ++ n ∷ []) ≡ true
contains-snoc a n [] h = cc
contains-snoc a n (x ∷ xs) h = ground (arith, contains-snoc a n xs)

pub contains_last : (n : String) (xs : List String) → contains n (xs ++ n ∷ []) ≡ true
contains_last n [] = rw (beq_refl n)
contains_last n (x ∷ xs) = ground (arith, contains_last n xs)

not_contains-snoc :
    (a n : String) (xs : List String)
    → contains a xs ≡ false
    → (a == n) ≡ false
    → contains a (xs ++ n ∷ []) ≡ false
not_contains-snoc a n [] h d = ground arith
not_contains-snoc a n (x ∷ xs) h d = ground (arith, not_contains-snoc a n xs)

distinct-snoc :
    (n : String) (xs : List String)
    → contains n xs ≡ false
    → distinct xs ≡ true
    → distinct (xs ++ n ∷ []) ≡ true
distinct-snoc n [] h d = refl
distinct-snoc n (x ∷ xs) h d = ground (
  arith,
  distinct-snoc n xs,
  not_contains-snoc x n xs,
  string_eq.equal_iff n x,
  string_eq.equal_iff x n,
)

IsProper-grows :
    (fixture : Identity) (n : String) (xs : List String) (e : Event)
    → IsProper fixture xs e
    → IsProper fixture (xs ++ n ∷ []) e
IsProper-grows fixture n xs (called c) p = tracked_grows c.args p
  where
    tracked_grows :
        (args : List String)
        → is_proper fixture xs args ≡ true
        → is_proper fixture (xs ++ n ∷ []) args ≡ true
    tracked_grows [] h = h
    tracked_grows (program ∷ []) h = h
    tracked_grows (program ∷ verb ∷ []) h = h
    tracked_grows (program ∷ verb ∷ a ∷ []) h = h
    tracked_grows (program ∷ verb ∷ a ∷ b ∷ []) h = h
    tracked_grows (program ∷ verb ∷ a ∷ b ∷ name ∷ args) h = ground (arith, contains-snoc name n xs)
IsProper-grows fixture n xs (requested r) p = tt
IsProper-grows fixture n xs (slept ms) p = tt
IsProper-grows fixture n xs (generated t) p = tt

All-map :
    {A : Type 0} {P Q : A → Type 0} (xs : List A) → ((a : A) → P a → Q a) → All P xs → All Q xs
All-map [] f h = tt
All-map (x ∷ xs) f h = (f x h.0, All-map xs f h.1)

lookup-insert :
    (k j v : String) (m : List (String × String))
    → lookup j (insert k v m) ≡ (if j == k then ok v else lookup j m)
lookup-insert k j v [] = refl
lookup-insert k j v ((i, w) ∷ m) = ground (
  arith,
  string_eq.equal_iff k i,
  string_eq.equal_iff j i,
  string_eq.equal_iff j k,
  lookup-insert k j v m,
)

HasPassword-insert :
    (k v j : String) (m : List (String × String)) → HasPassword m j → HasPassword (insert k v m) j
HasPassword-insert k v j m (p, found) = elim (Bool-cases (j == k)) [
  | inl same ↦ (v, lookup-insert k j v m ∙ rw same)
  | inr other ↦ (p, lookup-insert k j v m ∙ rw other found)
]

All-discard :
    (P : String → Type 0) (k : String) (xs : List String) → All P xs → All P (discard k xs)
All-discard P k [] h = h
All-discard P k (x ∷ xs) h = elim (Bool-cases (k == x)) [
  | inl same ↦ rw same (All-discard P k xs h.1)
  | inr other ↦ rw other (h.0, All-discard P k xs h.1)
]

-- The changes that the fixture makes to its state.
module _ (fixture : Identity) {s : Drill} (sound : IsSound fixture s) where
  pub track-IsSound :
      (name : String)
      → is_own_name fixture name ≡ true
      → contains name s.containers ≡ false
      → IsSound fixture (record s { containers = s.containers ++ name ∷ [] })
  track-IsSound name own fresh = record {
    named = All-append _ s.containers (name ∷ []) sound.named (own, tt);
    unique = distinct-snoc name s.containers fresh sound.unique;
    passwords = sound.passwords;
    proper = All-map s.history (IsProper-grows fixture name s.containers) sound.proper;
  }

  pub prepare-IsSound :
      (database password : String)
      → IsSound fixture (record s {
        runtime_passwords = insert database password s.runtime_passwords;
        prepared_databases = database ∷ s.prepared_databases;
      })
  prepare-IsSound database password = record {
    named = sound.named;
    unique = sound.unique;
    passwords = (
      (
        password,
        lookup-insert database database password s.runtime_passwords ∙ rw (beq_refl database),
      ),
      All-map s.prepared_databases (λ d. HasPassword-insert database password d s.runtime_passwords)
          sound.passwords,
    );
    proper = sound.proper;
  }

  pub discard-IsSound :
      (database : String)
      → IsSound fixture (record s { prepared_databases = discard database s.prepared_databases })
  discard-IsSound database = record {
    named = sound.named;
    unique = sound.unique;
    passwords = All-discard _ database s.prepared_databases sound.passwords;
    proper = sound.proper;
  }

  pub event-IsSound :
      (e : Event)
      → IsProper fixture s.containers e
      → IsSound fixture (record s { history = e ∷ s.history })
  event-IsSound e p = record {
    named = sound.named;
    unique = sound.unique;
    passwords = sound.passwords;
    proper = (p, sound.proper);
  }
