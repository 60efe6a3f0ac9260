-- ===== src/Games/Import/Packages.antt =====
-- One answered package moves the import on by the steps that keep its counters right.
use galaxy_integration_steam.Prelude.{
  ℕ, ◌≡◌, ◌≢◌, ◌∙◌, ap, ◌==◌, if◌then◌else◌, refl, false, List, [], ◌∷◌, map, arith, some,
}
use galaxy_integration_steam.Prelude.Keys.{nat_eq, contains, set_add, contains-set_add}
use galaxy_integration_steam.Prelude.Dict.{has}
use galaxy_integration_steam.Prelude.Int.{ℤ, pos, ◌+ℤ◌, ◌-ℤ◌}
use galaxy_integration_steam.Games.Defs.{
  License, GamesCache, add_app, update_packages, update_license_apps, update_ready_state,
}
use galaxy_integration_steam.Games.Balance.{Distinct, lacking}
use galaxy_integration_steam.Games.Balance.Steps.{Reach, here, next, Step, answered, license_app}
use galaxy_integration_steam.Games.Import.Defs.{add_apps, handle_package}

-- Adding one app leaves the others as lacking as they were.
lacking-add_app :
    (p a b : ℕ) (ls : List License) → a ≢ b → lacking p b (map (add_app p a) ls) ≡ lacking p b ls
unfolding add_app
lacking-add_app p a b [] h = refl
lacking-add_app p a b (l ∷ ls) h =
    ground (arith, lacking-add_app p a b ls h, contains-set_add a b l.app_ids)

-- Apps of package `p` that exactly one license waits for, and that have no title.
abbrev pub New : ℕ → GamesCache → List ℕ → Type 0
New p c [] = Unit
New p c (a ∷ as') = (lacking p a c.licenses ≡ 1) × (has a c.apps ≡ false) × New p c as'

New-add :
    (p a : ℕ) (c d : GamesCache) (as' : List ℕ)
    → d.apps ≡ c.apps
    → d.licenses ≡ map (add_app p a) c.licenses
    → contains a as' ≡ false
    → New p c as'
    → New p d as'
New-add p a c d [] ea el fresh n = tt
New-add p a c d (b ∷ bs) ea el fresh n =
    ground (arith, lacking-add_app p a b c.licenses, New-add p a c d bs)

-- The apps join those that a license of the package holds; another license stays as it was.
abbrev added_to : List ℕ → List ℕ → List ℕ
added_to [] ids = ids
added_to (a ∷ as') ids = added_to as' (set_add a ids)

abbrev pub with_apps : ℕ → List ℕ → License → License
with_apps p as' l = if l.package_id == p then record l { app_ids = added_to as' l.app_ids } else l

with_apps-nil : (p : ℕ) (ls : List License) → ls ≡ map (with_apps p []) ls
with_apps-nil p [] = refl
with_apps-nil p (l ∷ ls) = ground (arith, with_apps-nil p ls)

with_apps-add_app :
    (p a : ℕ) (as' : List ℕ) (ls : List License)
    → map (with_apps p as') (map (add_app p a) ls) ≡ map (with_apps p (a ∷ as')) ls
unfolding add_app
with_apps-add_app p a as' [] = refl
with_apps-add_app p a as' (l ∷ ls) = ground (arith, with_apps-add_app p a as' ls)

Reach-cons : {c d e : GamesCache} → Step c d → Reach d e → Reach c e
Reach-cons s here = next here s
Reach-cons s (next r t) = next (Reach-cons s r) t

-- The licenses of the package take the apps on, one step each.
add_apps-Reach :
    (p : ℕ) (as' : List ℕ) (c : GamesCache) {n : ℤ}
    → c.apps_to_parse ≡ some n
    → Distinct as'
    → New p c as'
    → (d : GamesCache) × (add_apps p as' c ≡ some d)
      × (d.licenses ≡ map (with_apps p as') c.licenses)
      × (d.packages_to_parse ≡ c.packages_to_parse)
      × Reach c d
unfolding add_apps
add_apps-Reach p [] c counted distinct new = (c, refl, with_apps-nil p c.licenses, refl, here)
add_apps-Reach p (a ∷ as') c {n} counted distinct new =
    let d : GamesCache = record c {
      apps_to_parse = some (n +ℤ pos 1);
      licenses = map (add_app p a) c.licenses;
    } in
    let moved : update_license_apps p a c ≡ some d = unfold update_license_apps in ground arith in
    let (e, done, taken, waiting, r) =
      add_apps-Reach p as' d refl distinct.1 (New-add p a c d as' refl refl distinct.0 new.2) in
    (
      e,
      rw (moved, add_apps) done,
      taken ∙ with_apps-add_app p a as' c.licenses,
      waiting,
      Reach-cons (license_app p a new.0 new.1 moved) r,
    )

New-same :
    (p : ℕ) (c d : GamesCache) (as' : List ℕ)
    → d.apps ≡ c.apps
    → d.licenses ≡ c.licenses
    → New p c as'
    → New p d as'
New-same p c d [] ea el n = tt
New-same p c d (b ∷ bs) ea el n = ground (arith, New-same p c d bs)

update_ready_state-keeps :
    (c : GamesCache)
    → ((update_ready_state c).apps ≡ c.apps)
      × ((update_ready_state c).licenses ≡ c.licenses)
      × ((update_ready_state c).apps_to_parse ≡ c.apps_to_parse)
      × ((update_ready_state c).packages_to_parse ≡ c.packages_to_parse)
unfolding update_ready_state
update_ready_state-keeps c = ground arith

-- An answered package whose apps have no title, each lacked by exactly one of its licenses, is taken on
-- without an error: its apps are asked for, each license of the package has them beside those that it
-- had, the other licenses stay as they were, and one package less is to be parsed; the cache moves by the
-- steps of an import that keep `apps_to_parse` right. The two counters are set.
pub handle_package-Reach :
    (p : ℕ) (as' : List ℕ) (c : GamesCache) {n k : ℤ}
    → c.packages_to_parse ≡ some k
    → c.apps_to_parse ≡ some n
    → Distinct as'
    → New p c as'
    → (d : GamesCache) × (handle_package (record { packageid = p; appids = some as' }) c
        ≡ some (d, as'))
      × (d.licenses ≡ map (with_apps p as') c.licenses)
      × (d.packages_to_parse ≡ some (k -ℤ pos 1))
      × Reach c d
unfolding handle_package
handle_package-Reach p as' c {n} {k} waiting counted distinct new =
    let c' : GamesCache = update_ready_state (record c { packages_to_parse = some (k -ℤ pos 1) }) in
    let told : update_packages c ≡ some c' = unfold update_packages in ground arith in
    let (same_apps, same_licenses, same_count, same_waiting) =
      update_ready_state-keeps (record c { packages_to_parse = some (k -ℤ pos 1) }) in
    let (d, done, taken, waits, r) =
      add_apps-Reach p as' c' (same_count ∙ counted) distinct
        (New-same p c c' as' same_apps same_licenses new) in
    (
      d,
      rw (told, handle_package) (rw (done, handle_package)),
      taken ∙ ap (map (with_apps p as')) same_licenses,
      waits ∙ same_waiting,
      Reach-cons (answered told) r,
    )
