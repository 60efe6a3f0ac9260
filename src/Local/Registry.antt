-- ===== src/Local/Registry.antt =====
-- What the registry says of an app is what its state says.
use galaxy_integration_steam.Prelude.{
  ◌≡◌, ◌∙◌, ap, refl, Bool, ◌||◌, [], ◌∷◌, arith, Option, none, some, any,
}
use galaxy_integration_steam.Prelude.Keys.{nat_eq}
use galaxy_integration_steam.Prelude.Text.{Text, codes, list_eq, list_beq_iff}
use galaxy_integration_steam.Prelude.Dict.{Dict, get, put, get-put, HasUniqueKeys}
use galaxy_integration_steam.Local.Defs.{
  LocalGameStates, IsFlags, RegistryValue, is_on, entry_state, game_state, app_states_from,
  get_app_states_from_registry,
}

-- Some entry of the app is named so, in whatever case, and prints as 1.
abbrev pub is_any_on : Text → Dict Text RegistryValue → Bool
is_any_on name = any (λ (e : Text × RegistryValue). is_on name e.0 e.1)

module _ {S : Type 0} (F : LocalGameStates S) where
  -- The state of an app against its entry in the registry.
  abbrev pub Agrees : Option (Dict Text RegistryValue) → Option S → Type 0
  Agrees none o = o ≡ none
  Agrees (some game_data) o =
      (s : S) × (o ≡ some s)
      × (F.includes s F.running ≡ is_any_on (codes "running") game_data)
      × (F.includes s F.installed ≡ is_any_on (codes "installed") game_data)

module _ {S : Type 0} (F : LocalGameStates S) (L : IsFlags F) where
  includes-game_state :
      (s : S) (game_data : Dict Text RegistryValue)
      → (F.includes (game_state F s game_data) F.running
          ≡ (F.includes s F.running || is_any_on (codes "running") game_data))
        × (F.includes (game_state F s game_data) F.installed
            ≡ (F.includes s F.installed || is_any_on (codes "installed") game_data))
  unfolding entry_state
  includes-game_state s [] = (ground arith, ground arith)
  includes-game_state s ((k, v) ∷ game_data) = ground (
    arith,
    includes-game_state (entry_state F s k v) game_data,
    L.running_running s,
    L.running_installed s,
    L.installed_running s,
    L.installed_installed s,
    L.installed_running (F.union s F.running),
    L.installed_installed (F.union s F.running),
  )

  abbrev from_registry : Option (Dict Text RegistryValue) → Option S → Option S
  from_registry none o = o
  from_registry (some game_data) o = some (game_state F F.none_ game_data)

  get-app_states_from :
      (i : Text) (apps : Dict Text (Dict Text RegistryValue)) (app_states : Dict Text S)
      → HasUniqueKeys apps
      → get i (app_states_from F apps app_states) ≡ from_registry (get i apps) (get i app_states)
  get-app_states_from i [] app_states u = refl
  get-app_states_from i ((game, game_data) ∷ apps) app_states u =
      let s = game_state F F.none_ game_data in
      ground (
        arith,
        get-app_states_from i apps (put game s app_states) u.1,
        get-put game i s app_states,
        list_beq_iff game i,
        u.0,
      )

  as_registered :
      {o : Option S} (r : Option (Dict Text RegistryValue))
      → o ≡ from_registry r none
      → Agrees F r o
  as_registered none p = p
  as_registered (some game_data) p =
      let (r, d) = includes-game_state F.none_ game_data in
      (
        game_state F F.none_ game_data,
        p,
        r ∙ ap (λ b. b || is_any_on (codes "running") game_data) L.none_running,
        d ∙ ap (λ b. b || is_any_on (codes "installed") game_data) L.none_installed,
      )

  -- The entry of an app in the registry decides its state: it runs exactly if some value named
  -- "running", in whatever case, prints as 1, and it is installed exactly if one named "installed"
  -- does; an app without an entry has no state. The keys of the registry are distinct, and the flags
  -- of Galaxy are flags.
  pub get-get_app_states_from_registry :
      (i : Text) (apps : Dict Text (Dict Text RegistryValue))
      → HasUniqueKeys apps
      → Agrees F (get i apps) (get i (get_app_states_from_registry F apps))
  unfolding get_app_states_from_registry
  get-get_app_states_from_registry i apps u =
      as_registered (get i apps) (get-app_states_from i apps [] u)
