-- ===== src/Drill/Waits.antt =====
-- The loop that waits for the database of a drill ends before its fuel does.
use inventory_cloud_service.Base.{
  arith, string_eq, ◌≡◌, ◌≢◌, Option, none, some, ℕ, zero, suc, ◌+◌, ◌*◌, ◌≤◌, true, String, List,
  [], ◌∷◌, ◌==◌, ltb, Bool-cases, inl, inr, if◌then◌else◌,
}
use inventory_cloud_service.Base.Int.{pos, int_eq}
use inventory_cloud_service.Json.{
  Value, str, list, dict, nil, cons, end, or_default, find_key, get, first, present, out_of_fuel,
  Result, ok, err,
}
use inventory_cloud_service.Exec.Lively.{
  Lively, IsFueled, Lively-pure, Lively-lift, Lively-demand, Lively-gets, Lively-bind,
}
use inventory_cloud_service.Exec.{Exec, pure, raise, lift, ◌>>=◌}
use inventory_cloud_service.Drill.World.{
  Bytes, Call, Ending, unavailable, timed_out, exited, Event, called, slept, History, Host, Drill,
  Identity,
}
use inventory_cloud_service.Drill.Defs.{docker_with, output_of, spawn, sleep, monotonic}
use inventory_cloud_service.Drill.Fixture.{
  labels_of, check_labels, exit_code_of, owned, poll_database, wait_database,
}

-- `time.monotonic` never goes back, and a sleep takes at least as long as it is told to.
pub record IsMonotonic (host : Host) : Type 0 where
  pub forward : (e : Event) (h : History) → host.clock h ≤ host.clock (e ∷ h)
  pub sleeps : (ms : ℕ) (h : History) → host.clock h + ms ≤ host.clock (slept ms ∷ h)

abbrev readiness_call : String → Call
readiness_call name = record {
  args =
      "docker" ∷ "exec" ∷ name ∷ "pg_isready" ∷ "-h" ∷ "127.0.0.1" ∷ "-U" ∷ "inventory" ∷ "-d"
      ∷ "inventory" ∷ [];
  extra_env = [];
  input = none;
  timeout = 10;
}

ruleset lively_rules = (Lively-pure, Lively-lift, Lively-demand, Lively-gets, Lively-bind)

present-IsFueled : {A : Type 0} (v : Option A) → IsFueled (present v)
present-IsFueled none = record { other = λ e. cc e }
present-IsFueled (some v) = record { other = λ e. cc e }

get-IsFueled : (v : Value) (k : String) (d : Value) → IsFueled (get v k d)
get-IsFueled (dict fs) k d = record { other = λ e. cc e }
get-IsFueled _ k d = record { other = λ e. cc e }

first_char-IsFueled : (s : String) → IsFueled (first (str s))
first_char-IsFueled String.[] = record { other = λ e. cc e }
first_char-IsFueled (String.◌∷◌ c s) = record { other = λ e. cc e }

first-IsFueled : (v : Value) → IsFueled (first v)
first-IsFueled (list nil) = record { other = λ e. cc e }
first-IsFueled (list (cons v vs)) = record { other = λ e. cc e }
first-IsFueled (str s) = first_char-IsFueled s
first-IsFueled (dict fs) = record { other = λ e. cc e }
first-IsFueled _ = record { other = λ e. cc e }

abbrev config_labels : Value → Result Value
config_labels item = elim (get item "Config" (dict end)) [
  | ok config ↦ get config "Labels" (dict end)
  | err e ↦ err e
]

config_labels-IsFueled : (item : Value) → IsFueled (config_labels item)
config_labels-IsFueled (dict fs) =
    get-IsFueled (or_default (find_key "Config" fs) (dict end)) "Labels" (dict end)
config_labels-IsFueled _ = record { other = λ e. cc e }

labels_of-IsFueled : (kind : String) (item : Value) → IsFueled (labels_of kind item)
labels_of-IsFueled kind item = elim (Bool-cases (kind == "network")) [
  | inl network ↦ rw network (get-IsFueled item "Labels" (dict end))
  | inr other ↦ rw other (config_labels-IsFueled item)
]

module _ (host : Host) (fixture : Identity) (clock : IsMonotonic host) where
  -- A round that has asked the database ends the loop, or goes on after the pause.
  round_ends :
      (ending : Ending) (next : Exec Drill (Unit {0})) (s : Drill)
      → (next (record s { history = slept 300 ∷ s.history })).0 ≢ err out_of_fuel
      → ((lift (exit_code_of host fixture ending) >>= λ code.
            if code == pos 0 then pure tt else (sleep host 300 >>= λ _. next))
          s).0
        ≢ err out_of_fuel
  unfolding ◌>>=◌ pure lift sleep
  round_ends unavailable next s p = λ e. cc e
  round_ends timed_out next s p = λ e. cc e
  round_ends (exited code out errors) next s p = elim (Bool-cases (code == pos 0)) [
    | inl ready ↦ rw ready (λ e. cc e)
    | inr waiting ↦ rw waiting p
  ]

  time_left :
      (fuel deadline : ℕ) (c : Call) (h : History)
      → deadline ≤ host.clock h + 300 * suc fuel
      → deadline ≤ host.clock (slept 300 ∷ called c ∷ h) + 300 * fuel
  time_left fuel deadline c h p =
      omega (arith, p, clock.forward (called c) h, clock.sleeps 300 (called c ∷ h))

  no_time : (n deadline : ℕ) → deadline ≤ n + 300 * 0 → ltb n deadline ≡ true → ⊥
  no_time n deadline p q = ground arith

  -- From any moment on at which no more than 300 milliseconds for each round but one are left, the
  -- loop ends with a result or an exception of the source, and never for want of fuel.
  poll_database-ends :
      (fuel : ℕ) (name : String) (deadline : ℕ) (s : Drill)
      → deadline ≤ host.clock s.history + 300 * fuel
      → (poll_database host fixture (suc fuel) name deadline s).0 ≢ err out_of_fuel
  unfolding poll_database ◌>>=◌ monotonic raise pure lift spawn sleep
  poll_database-ends zero name deadline s p =
      elim (Bool-cases (ltb (host.clock s.history) deadline)) [
        | inr late ↦ rw late (λ e. cc e)
        | inl early ↦ absurd (no_time (host.clock s.history) deadline p early)
      ]
  poll_database-ends (suc fuel) name deadline s p =
      elim (Bool-cases (ltb (host.clock s.history) deadline)) [
        | inr late ↦ rw late (λ e. cc e)
        | inl early ↦ rw early (
            round_ends (host.complete s.history (readiness_call name))
              (poll_database host fixture (suc fuel) name deadline)
              (record s { history = called (readiness_call name) ∷ s.history })
              (poll_database-ends fuel name deadline
                (record s { history = slept 300 ∷ called (readiness_call name) ∷ s.history })
                (time_left fuel deadline (readiness_call name) s.history p)))
      ]

  output_of-IsFueled :
      (args : List String) (ending : Ending) → IsFueled (output_of host args ending)
  output_of-IsFueled args unavailable = record { other = λ e. cc e }
  output_of-IsFueled args timed_out = record { other = λ e. cc e }
  output_of-IsFueled args (exited code out errors) = elim (Bool-cases (code == pos 0)) [
    | inl fine ↦ rw fine (record { other = λ e. cc e })
    | inr failed ↦ rw failed (record { other = λ e. cc e })
  ]

  spawn-Lively : (c : Call) → Lively (spawn host c)
  unfolding spawn
  spawn-Lively c = record { at = λ s e. cc e }

  check_labels-Lively :
      (kind name : String) (item : Value) → Lively (check_labels host fixture kind name item)
  unfolding check_labels
  check_labels-Lively kind name item =
      search (lively_rules, labels_of-IsFueled, get-IsFueled) depth 40

  docker_with-Lively :
      (args : List String) (input : Option Bytes) (extra : List (String × String)) (timeout : ℕ)
      → Lively (docker_with host args input extra timeout)
  unfolding docker_with
  docker_with-Lively args input extra timeout =
      search (lively_rules, spawn-Lively, output_of-IsFueled) depth 40

  owned-Lively : (kind name : String) → Lively (owned host fixture kind name)
  unfolding owned
  owned-Lively kind name =
      search
        (lively_rules, docker_with-Lively, present-IsFueled, first-IsFueled, check_labels-Lively)
        depth 40

  poll-Lively :
      (name : String)
      → Lively (monotonic host >>= λ now. poll_database host fixture 151 name (now + 45000))
  unfolding ◌>>=◌ monotonic
  poll-Lively name = record {
    at = λ s. poll_database-ends 150 name (host.clock s.history + 45000) s (omega arith);
  }

  -- Where the clock never goes back and a sleep takes its time, the wait for a database ends with a
  -- result or an exception of the source: 151 rounds are enough for its 45 seconds.
  pub wait_database-ends :
      (name : String) (s : Drill) → (wait_database host fixture name s).0 ≢ err out_of_fuel
  unfolding wait_database
  wait_database-ends name s =
      (Lively-bind _ _ (owned-Lively "container" name) (λ _. poll-Lively name)).at s
