-- ===== src/Plugin/Ticks.antt =====
-- What a series of ticks does: a change of the registry is not missed, and the pushes of the cache are
-- not held back.
use galaxy_integration_steam.Prelude.{
  ℕ, zero, suc, ◌+◌, ◌≡◌, true, List, [], ◌∷◌, ◌++◌, Option, arith,
}
use galaxy_integration_steam.Prelude.Keys.{Eq}
use galaxy_integration_steam.UserInfo.Defs.{is_some}
use galaxy_integration_steam.Local.Defs.{LocalGameStates}
use galaxy_integration_steam.Plugin.Defs.{
  Stat, get_stat, is_updated, stats_differ, waiting, cooling, done, Plugin, tick, update_woken,
  push_runs, cache_written, start_update, start_push, push_cache, step, run,
}

-- n copies of some events, one after the other.
abbrev pub repeat {ℓ} : {A : Type ℓ} → ℕ → List A → List A
repeat zero xs = []
repeat (suc n) xs = xs ++ repeat n xs

module _ {S : Type 0} ⦃e : Eq S⦄ (F : LocalGameStates S) where
  -- The registry has changed since the monitor last looked, while an update sleeps.
  abbrev pub IsBehind : Option Stat → Plugin S → Type 0
  IsBehind file p =
      (is_some p.local_games_cache ≡ true)
      × (p.update_task ≡ cooling)
      × (stats_differ p.regmon (get_stat file) ≡ true)

  tick-IsBehind :
      (file : Option Stat) (p : Plugin S) → IsBehind file p → IsBehind file (step F (tick file) p)
  unfolding step start_update start_push
  tick-IsBehind file p h = ground (arith, h)

  caught :
      (file : Option Stat) (p : Plugin S)
      → IsBehind file p
      → let q = run F (update_woken ∷ tick file ∷ []) p in
        (q.update_task ≡ waiting) × (q.regmon ≡ get_stat file)
  unfolding run step start_update start_push is_updated
  caught file p h = ground (arith, h)

  -- Ticks that find the registry changed while an update of the games still sleeps do not use the
  -- change up: however many there are, the first tick after the sleep starts the next update.
  pub run-tick-catches :
      (n : ℕ) (file : Option Stat) (p : Plugin S)
      → IsBehind file p
      → let q = run F (repeat n (tick file ∷ []) ++ (update_woken ∷ tick file ∷ [])) p in
        (q.update_task ≡ waiting) × (q.regmon ≡ get_stat file)
  unfolding run
  run-tick-catches zero file p h = caught file p h
  run-tick-catches (suc n) file p h =
      run-tick-catches n file (step F (tick file) p) (tick-IsBehind file p h)

  round :
      (file : Option Stat) (p : Plugin S)
      → p.push_task ≡ done
      → p.pushes_waiting ≡ 0
      → let q = run F (cache_written ∷ tick file ∷ push_runs ∷ []) p in
        (q.push_task ≡ done)
        × (q.pushes_waiting ≡ 0)
        × (q.pushed ≡ suc p.pushed)
        × (q.pushes_cooling ≡ suc p.pushes_cooling)
  unfolding run step start_update start_push push_cache
  round file p d w = ground (arith, d, w)

  -- After the first moments of the plugin the pushes of the cache are no longer held back: if the cache
  -- is written before each of n ticks, each tick is followed by a push, and all n pushes sleep at once.
  pub run-pushes :
      (n : ℕ) (file : Option Stat) (p : Plugin S)
      → p.push_task ≡ done
      → p.pushes_waiting ≡ 0
      → let q = run F (repeat n (cache_written ∷ tick file ∷ push_runs ∷ [])) p in
        (q.pushed ≡ n + p.pushed) × (q.pushes_cooling ≡ n + p.pushes_cooling)
  unfolding run
  run-pushes zero file p d w = (omega arith, omega arith)
  run-pushes (suc n) file p d w =
      let (d', w', pushed, cooling_) = round file p d w in
      let rest = run-pushes n file (run F (cache_written ∷ tick file ∷ push_runs ∷ []) p) d' w' in
      (omega (arith, rest.0, pushed), omega (arith, rest.1, cooling_))
