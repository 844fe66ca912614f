-- ===== src/Drill/Gone.antt =====
-- What it takes for `remove_container` and `remove_network` to return.
use inventory_cloud_service.Base.{
  ◌≡◌, refl, sym, ap, ◌∙◌, String, ◌<>◌, string_eq, Option, Bool, true, false, List, [], ◌∷◌, ◌++◌,
  none, some, All, arith, contains, if◌then◌else◌,
}
use inventory_cloud_service.Base.Int.{pos, int_eq}
use inventory_cloud_service.Base.Text.{splitlines}
use inventory_cloud_service.Json.{Result, ok, err, present}
use inventory_cloud_service.Json.Ensures.{ok-injective}
use inventory_cloud_service.Exec.{Exec, pure, lift, ◌>>=◌, gets, attempt}
use inventory_cloud_service.Exec.Steps.{bind-eq-ok, pure-eq-ok}
use inventory_cloud_service.Drill.World.{
  Bytes, Call, Ending, unavailable, timed_out, exited, History, Host, Drill, Identity,
}
use inventory_cloud_service.Drill.Defs.{spawn, output_of, docker_with, docker_text}
use inventory_cloud_service.Drill.Fixture.{owned}
use inventory_cloud_service.Drill.Runtime.{
  remove_container, remove_network, errors_of, remove_containers,
}

pub lifted : {S A : Type 0} (r : Result A) (s : S) {a : A} {t : S} → lift r s ≡ (ok a, t) → r ≡ ok a
unfolding lift
lifted r s e = ap (λ x. x.0) e

pub attempted :
    {S A : Type 0} (m : Exec S A) (s : S) {r : Result A} {t : S}
    → attempt m s ≡ (ok r, t)
    → m s ≡ (r, t)
unfolding attempt
attempted m s e = λ i. (ok-injective (ap (λ x. x.0) e) i, (e i).1)

pub got :
    {S A : Type 0} (f : S → A) (s : S) {a : A} {t : S} → gets f s ≡ (ok a, t) → (a ≡ f s) × (t ≡ s)
unfolding gets
got f s e = (sym (ok-injective (ap (λ x. x.0) e)), sym (ap (λ x. x.1) e))

module _ (host : Host) (fixture : Identity) where
  -- Docker has answered this command with success.
  pub record Answered (args : List String) (out : Bytes) : Type 0 where
    pub before : History
    pub call : Call
    pub asked : call.args ≡ "docker" ∷ args
    pub errors : Bytes
    pub success : host.complete before call ≡ exited (pos 0) out errors

  -- The resource was absent from Docker's list of those with its name, or its removal succeeded.
  pub data IsGone (name : String) (list_args remove_args : List String) : Type 0 where
    absent :
        (out : Bytes) (listing : String)
        → Answered list_args out
        → host.decode out ≡ some listing
        → contains name (splitlines listing) ≡ false
        → IsGone name list_args remove_args
    removed : (out : Bytes) → Answered remove_args out → IsGone name list_args remove_args

  abbrev pub IsGoneContainer : String → Type 0
  IsGoneContainer name =
      IsGone name
        ("container"
          ∷ "ls"
          ∷ "--all"
          ∷ "--filter"
          ∷ ("name=^/" <> name <> "$")
          ∷ "--format"
          ∷ "{{.Names}}"
          ∷ [])
        ("container" ∷ "rm" ∷ "--force" ∷ name ∷ [])

  abbrev pub IsGoneNetwork : Type 0
  IsGoneNetwork =
      IsGone fixture.network
        ("network"
          ∷ "ls"
          ∷ "--filter"
          ∷ ("name=^" <> fixture.network <> "$")
          ∷ "--format"
          ∷ "{{.Name}}"
          ∷ [])
        ("network" ∷ "rm" ∷ fixture.network ∷ [])

  pub exited_well :
      (args : List String) (ending : Ending) (out : Bytes)
      → output_of host args ending ≡ ok out
      → (errors : Bytes) × (ending ≡ exited (pos 0) out errors)
  exited_well args unavailable out e = cc
  exited_well args timed_out out e = cc
  exited_well args (exited code found errors) out e =
      (errors, ground (arith, int_eq.equal_iff code (pos 0)))

  pub docker_with-eq-ok :
      (args : List String) (s : Drill) {out : Bytes} {t : Drill}
      → docker_with host args none [] 90 s ≡ (ok out, t)
      → Answered args out
  unfolding docker_with spawn ◌>>=◌ lift
  docker_with-eq-ok args s {out} e =
      let call : Call = record {
        args = "docker" ∷ args;
        extra_env = [];
        input = none;
        timeout = 90;
      } in
      let (errors, success) =
        exited_well args (host.complete s.history call) out (ap (λ r. r.0) e) in
      record { before = s.history; call = call; asked = refl; errors = errors; success = success }

  pub docker_text-eq-ok :
      (args : List String) (s : Drill) {text : String} {t : Drill}
      → docker_text host args 90 s ≡ (ok text, t)
      → (out : Bytes) × Answered args out × (host.decode out ≡ some text)
  unfolding docker_text
  docker_text-eq-ok args s e =
      let (out, s₁, asked, r) = bind-eq-ok (docker_with host args none [] 90) _ s e in
      (out, docker_with-eq-ok args s asked, present_value (host.decode out) (lifted _ s₁ r))
    where
      present_value : {v : String} (o : Option String) → present o ≡ ok v → o ≡ some v
      present_value none h = cc
      present_value (some w) h = ap some (ok-injective h)

  -- Either branch of a removal, from its parts.
  pub removal-IsGone :
      (kind name : String) (list_args remove_args : List String) (s : Drill) {u : Unit {0}}
      {t : Drill}
      → (docker_text host list_args 90 >>= λ listing.
            if contains name (splitlines listing)
            then (owned host fixture kind name >>= λ _.
                docker_with host remove_args none [] 90 >>= λ _. pure tt)
            else pure tt)
          s
        ≡ (ok u, t)
      → IsGone name list_args remove_args
  removal-IsGone kind name list_args remove_args s {u} {t} e =
      let (listing, s₁, listed, r) = bind-eq-ok (docker_text host list_args 90) _ s e in
      let (out, asked, decoded) = docker_text-eq-ok list_args s listed in
      split_found listing s₁ (contains name (splitlines listing)) refl out asked decoded r
    where
      split_found :
          (listing : String) (s₁ : Drill) (found : Bool)
          → contains name (splitlines listing) ≡ found
          → (out : Bytes) → Answered list_args out
          → host.decode out ≡ some listing
          → (if found
                then (owned host fixture kind name >>= λ _.
                    docker_with host remove_args none [] 90 >>= λ _. pure tt)
                else pure tt)
              s₁
            ≡ (ok u, t)
          → IsGone name list_args remove_args
      split_found listing s₁ false absence out asked decoded r =
          absent out listing asked decoded absence
      split_found listing s₁ true presence out asked decoded r =
          let (item, s₂, _, r₁) = bind-eq-ok (owned host fixture kind name) _ s₁ r in
          let (gone, s₃, removal, r₂) =
            bind-eq-ok (docker_with host remove_args none [] 90) _ s₂ r₁ in
          removed gone (docker_with-eq-ok remove_args s₂ removal)

  pub remove_container-IsGone :
      (name : String) (s : Drill) {u : Unit {0}} {t : Drill}
      → remove_container host fixture name s ≡ (ok u, t)
      → IsGoneContainer name
  unfolding remove_container
  remove_container-IsGone name s e = removal-IsGone "container" name _ _ s e

  pub remove_network-IsGone :
      (s : Drill) {u : Unit {0}} {t : Drill}
      → remove_network host fixture s ≡ (ok u, t)
      → IsGoneNetwork
  unfolding remove_network
  remove_network-IsGone s e = removal-IsGone "network" fixture.network _ _ s e

  pub no_errors :
      (name : String) (r : Result (Unit {0})) (rest : List String)
      → errors_of host fixture name r ++ rest ≡ []
      → (r ≡ ok tt) × (rest ≡ [])
  no_errors name (ok u) rest e = (refl, e)
  no_errors name (err x) rest e = cc

  pub remove_containers-IsGone :
      (names : List String) (s : Drill) {t : Drill}
      → remove_containers host fixture names s ≡ (ok [], t)
      → All IsGoneContainer names
  unfolding remove_containers
  remove_containers-IsGone [] s e = tt
  remove_containers-IsGone (name ∷ names) s e =
      let (done, s₁, tried, r₁) = bind-eq-ok (attempt (remove_container host fixture name)) _ s e in
      let (rest, s₂, others, r₂) = bind-eq-ok (remove_containers host fixture names) _ s₁ r₁ in
      let (fine, none_left) = no_errors name done rest (sym (pure-eq-ok _ s₂ r₂)) in
      (
        remove_container-IsGone name s
            (attempted (remove_container host fixture name) s tried ∙ ap (λ r. (r, s₁)) fine),
        remove_containers-IsGone names s₁ (others ∙ ap (λ l. (ok l, s₂)) none_left),
      )
