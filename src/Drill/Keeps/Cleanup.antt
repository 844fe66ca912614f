-- ===== src/Drill/Keeps/Cleanup.antt =====
-- Making the network, and the cleanup, keep a fixture sound.
use inventory_cloud_service.Base.{
  ◌≡◌, refl, String, ◌<>◌, true, List, [], ◌∷◌, ◌++◌, string_eq, arith, ◌⊎◌, inl, inr,
}
use inventory_cloud_service.Exec.Steps.{Steps-pure, Steps-if, Steps-bind, Steps-attempt}
use inventory_cloud_service.Drill.World.{Host, Drill, Identity}
use inventory_cloud_service.Drill.Fixture.{is_own_name, labels, create_network}
use inventory_cloud_service.Drill.Runtime.{
  remove_container, remove_network, remove_containers, cleanup,
}
use inventory_cloud_service.Drill.Sound.{is_proper, IsSound}
use inventory_cloud_service.Drill.Keeps.Calls.{
  action_rules, Keeps, keeping, docker_with-Keeps, docker_text-Keeps, owned_bind-Keeps,
}
use inventory_cloud_service.Drill.Keeps.Databases.{modify-Keeps, act-proper}
use inventory_cloud_service.Drill.Keeps.Service.{force-proper}

module _ (host : Host) (fixture : Identity) where
  pub listing-proper :
      (kind : String) (args tracked : List String)
      → (kind ≡ "container") ⊎ (kind ≡ "network")
      → is_proper fixture tracked ("docker" ∷ kind ∷ "ls" ∷ args) ≡ true
  listing-proper kind args tracked (inl e) = rw e (ground arith)
  listing-proper kind args tracked (inr e) = rw e (ground arith)

  pub remove_container-Keeps :
      (name : String) → Keeps host fixture (remove_container host fixture name)
  unfolding remove_container
  remove_container-Keeps name =
      Steps-bind (keeping host fixture) _ _
        (docker_text-Keeps host fixture _ 90 (λ tracked.
          listing-proper "container"
            ("--all" ∷ "--filter" ∷ ("name=^/" <> name <> "$") ∷ "--format" ∷ "{{.Names}}" ∷ [])
            tracked (inl refl)))
        λ listing.
          Steps-if (keeping host fixture) _ _ _
            (owned_bind-Keeps host fixture "container" name _ λ _ own.
              search
                (action_rules, keeping, docker_with-Keeps, (force-proper host fixture) name own)
                depth 40)
            (Steps-pure (keeping host fixture) tt)

  pub remove_network-Keeps : Keeps host fixture (remove_network host fixture)
  unfolding remove_network
  remove_network-Keeps =
      Steps-bind (keeping host fixture) _ _
        (docker_text-Keeps host fixture _ 90 (λ tracked.
          listing-proper "network"
            ("--filter" ∷ ("name=^" <> fixture.network <> "$") ∷ "--format" ∷ "{{.Name}}" ∷ [])
            tracked (inr refl)))
        λ listing.
          Steps-if (keeping host fixture) _ _ _
            (owned_bind-Keeps host fixture "network" fixture.network _ λ _ own.
              search
                (
                  action_rules,
                  keeping,
                  docker_with-Keeps,
                  (act-proper host fixture) "network" "rm" fixture.network own refl,
                )
                depth 40)
            (Steps-pure (keeping host fixture) tt)

  pub remove_containers-Keeps :
      (names : List String) → Keeps host fixture (remove_containers host fixture names)
  unfolding remove_containers
  remove_containers-Keeps [] = Steps-pure (keeping host fixture) []
  remove_containers-Keeps (name ∷ names) =
      Steps-bind (keeping host fixture) _ _
        (Steps-attempt (keeping host fixture) _ (remove_container-Keeps name))
        λ removed.
          Steps-bind (keeping host fixture) _ _ (remove_containers-Keeps names)
            λ rest. Steps-pure (keeping host fixture) _

  pub create-proper :
      is_own_name fixture fixture.network ≡ true
      → (tracked : List String)
      → is_proper fixture tracked
          ("docker" ∷ "network" ∷ "create" ∷ (labels host fixture ++ fixture.network ∷ []))
        ≡ true
  create-proper own tracked = rw own (ground arith)

  pub network-IsSound :
      (s : Drill) → IsSound fixture s → IsSound fixture (record s { network_created = true })
  network-IsSound s h = record {
    named = h.named;
    unique = h.unique;
    passwords = h.passwords;
    proper = h.proper;
  }

  pub cleanup-Keeps : Keeps host fixture (cleanup host fixture)
  unfolding cleanup
  cleanup-Keeps =
      search (action_rules, keeping, remove_containers-Keeps, remove_network-Keeps) depth 40

  pub create_network-Keeps :
      is_own_name fixture fixture.network ≡ true → Keeps host fixture (create_network host fixture)
  unfolding create_network
  create_network-Keeps own =
      search
        (action_rules, keeping, modify-Keeps, network-IsSound, docker_with-Keeps, create-proper own)
        depth 40
