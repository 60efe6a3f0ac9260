-- ===== src/Games/Balance/Steps.antt =====
-- The steps of an import that goes as the code expects, and what they keep.
use galaxy_integration_steam.Prelude.{
  ℕ, ◌+◌, ◌-◌, ◌≤◌, ◌≡◌, ◌∙◌, ◌↔◌, refl, ap, Bool, true, false, ◌&&◌, List, [], ◌∷◌, arith, Option,
  some, String, All, length,
}
use galaxy_integration_steam.Prelude.Keys.{nat_eq}
use galaxy_integration_steam.Prelude.Dict.{Dict, has}
use galaxy_integration_steam.Prelude.Int.{ℤ, pos, ◌-ℤ◌, ◌+ℤ◌, int_laws}
use galaxy_integration_steam.Games.Defs.{
  App, GamesCache, SteamLicense, is_zero, update_ready_state, update_packages, update_license_apps,
  count, IdText, update_app_title, start_packages_import, fresh_licenses, reset_storing_map,
}
use galaxy_integration_steam.Games.Balance.{
  IsBalanced, Distinct, unresolved, lacking, holders, unresolved-add_app, add_app-sets,
  unresolved-put, count_down-holders,
}

plus_one : (n : ℕ) → pos n +ℤ pos 1 ≡ pos (n + 1)
plus_one n = omega int_laws

minus_holders : (n k : ℕ) → k ≤ n → pos n -ℤ pos k ≡ pos (n - k)
minus_holders n k h = omega int_laws

-- A license's package has an app that the cache has not met: `apps_to_parse` follows.
pub update_license_apps-IsBalanced :
    (p a : ℕ) {c d : GamesCache}
    → IsBalanced c
    → lacking p a c.licenses ≡ 1
    → has a c.apps ≡ false
    → update_license_apps p a c ≡ some d
    → IsBalanced d
unfolding update_license_apps
update_license_apps-IsBalanced p a {c} {d} b one unknown e = ground (
  arith,
  unresolved-add_app c.apps p a c.licenses unknown,
  add_app-sets p a c.licenses b.sets,
  plus_one (unresolved c.apps c.licenses),
)

pub update_packages-IsBalanced :
    {c d : GamesCache} → IsBalanced c → update_packages c ≡ some d → IsBalanced d
unfolding update_packages update_ready_state
update_packages-IsBalanced b e = ground arith

pub update_app_title-IsBalanced :
    (a : ℕ) (title type_ : String) (parent : Option ℕ) {c d : GamesCache}
    → IsBalanced c
    → has a c.apps ≡ false
    → update_app_title a title type_ parent c ≡ some d
    → IsBalanced d
unfolding update_app_title update_ready_state
update_app_title-IsBalanced a title type_ parent {c} {d} b unknown e = ground (
  arith,
  minus_holders (unresolved c.apps c.licenses) (holders a c.licenses),
  unresolved-put c.apps a (record { appid = a; title = title; type_ = type_; parent = parent })
      c.licenses unknown b.sets,
  count_down-holders a c.licenses (pos (unresolved c.apps c.licenses)),
)

count_fresh : (ss : List SteamLicense) → count (fresh_licenses [] ss) ≡ pos (length ss)
unfolding fresh_licenses
count_fresh [] = refl
count_fresh (s ∷ ss) = rw (count_fresh ss) (plus_one (length ss) ∙ ap pos (omega arith))

fresh_unresolved :
    (apps : Dict ℕ App) (known : List IdText) (ss : List SteamLicense)
    → (unresolved apps (fresh_licenses known ss) ≡ 0)
      × All (λ l. Distinct l.app_ids) (fresh_licenses known ss)
unfolding fresh_licenses
fresh_unresolved apps known [] = (refl, tt)
fresh_unresolved apps known (s ∷ ss) = ground (arith, fresh_unresolved apps known ss)

-- After the cache was reset, an import starts with one package to parse for each license that Steam
-- sent, and balanced counters.
pub start_packages_import-reset :
    (ss : List SteamLicense) (c : GamesCache)
    → IsBalanced (start_packages_import ss (reset_storing_map c))
      × ((start_packages_import ss (reset_storing_map c)).packages_to_parse
          ≡ some (pos (length ss)))
unfolding start_packages_import reset_storing_map update_ready_state
start_packages_import-reset ss c = ground (arith, count_fresh ss, fresh_unresolved [] [] ss)

-- What Steam's answers do to the cache, where each package and each title arrives once.
pub data Step (c d : GamesCache) : Type 0 where
  answered : update_packages c ≡ some d → Step c d
  license_app :
      (p a : ℕ)
      → lacking p a c.licenses ≡ 1
      → has a c.apps ≡ false
      → update_license_apps p a c ≡ some d
      → Step c d
  title :
      (a : ℕ) (title type_ : String) (parent : Option ℕ)
      → has a c.apps ≡ false
      → update_app_title a title type_ parent c ≡ some d
      → Step c d

pub data Reach (c : GamesCache) : GamesCache → Type 0 where
  here : Reach c c
  next : {d e : GamesCache} → Reach c d → Step d e → Reach c e

Step-IsBalanced : {c d : GamesCache} → Step c d → IsBalanced c → IsBalanced d
Step-IsBalanced (answered e) b = update_packages-IsBalanced b e
Step-IsBalanced (license_app p a one unknown e) b =
    update_license_apps-IsBalanced p a b one unknown e
Step-IsBalanced (title a t ty pa unknown e) b = update_app_title-IsBalanced a t ty pa b unknown e

pub Reach-IsBalanced : {c d : GamesCache} → IsBalanced c → Reach c d → IsBalanced d
Reach-IsBalanced b here = b
Reach-IsBalanced b (next r s) = Step-IsBalanced s (Reach-IsBalanced b r)

-- From the reset and the start of an import on, along any number of steps, each of which is an answered
-- package, an app without a title that exactly one license of its package lacks and takes on, or the
-- first title of an app: `apps_to_parse` is the number of apps of licenses that have no title. A package
-- that lists an app with a title, and a title that comes again, are not among these steps.
pub import_counts :
    (ss : List SteamLicense) (c : GamesCache) {d : GamesCache}
    → Reach (start_packages_import ss (reset_storing_map c)) d
    → d.apps_to_parse ≡ some (pos (unresolved d.apps d.licenses))
import_counts ss c r = (Reach-IsBalanced (start_packages_import-reset ss c).0 r).counted

-- What `_update_ready_state` says, for balanced counters.
ready_iff :
    (packages : Option ℤ) (n : ℕ) (b : Bool)
    → b ≡ (is_zero packages && is_zero (some (pos n)))
    → (b ≡ true) ↔ ((packages ≡ some (pos 0)) × (n ≡ 0))
ready_iff packages n b e = ground arith

update_app_title-ready :
    (a : ℕ) (t type_ : String) (parent : Option ℕ) (d e : GamesCache)
    → update_app_title a t type_ parent d ≡ some e
    → e.ready ≡ (is_zero e.packages_to_parse && is_zero e.apps_to_parse)
unfolding update_app_title update_ready_state
update_app_title-ready a t type_ parent d e s = ground arith

-- After the reset and the start of an import come any number of steps, each of which is an answered
-- package, an app without a title that exactly one license of its package lacks and takes on, or the
-- first title of an app; then the first title of an app arrives. Then the cache is ready exactly if every
-- package has been answered and every app of every license has a title.
pub title_ready :
    (ss : List SteamLicense) (c : GamesCache) (a : ℕ) (t type_ : String) (parent : Option ℕ)
    {d e : GamesCache}
    → Reach (start_packages_import ss (reset_storing_map c)) d
    → has a d.apps ≡ false
    → update_app_title a t type_ parent d ≡ some e
    → (e.ready ≡ true) ↔ ((e.packages_to_parse ≡ some (pos 0)) × (unresolved e.apps e.licenses ≡ 0))
title_ready ss c a t type_ parent {d} {e} r unknown step =
    let b =
      update_app_title-IsBalanced a t type_ parent
        (Reach-IsBalanced (start_packages_import-reset ss c).0 r) unknown step in
    ready_iff e.packages_to_parse (unresolved e.apps e.licenses) e.ready (
      update_app_title-ready a t type_ parent d e step
      ∙ ap (λ x. is_zero e.packages_to_parse && is_zero x) b.counted)
