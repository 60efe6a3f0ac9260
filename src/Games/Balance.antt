-- ===== src/Games/Balance.antt =====
-- The counters of the import: while it runs as the code expects, `apps_to_parse` is the number of
-- apps of licenses that have no title yet, and the cache is ready once nothing is pending.
pub mod Steps
use galaxy_integration_steam.Prelude.{
  ℕ, zero, suc, ◌+◌, ◌-◌, ◌≡◌, ◌∙◌, refl, ap, Bool, true, false, ◌&&◌, List, [], ◌∷◌, ◌++◌, map,
  arith, Option, none, some, String, ◌==◌, if◌then◌else◌, All, All-append, length, Bool-cases, inl,
  inr,
}
use galaxy_integration_steam.Prelude.Keys.{◌=?◌, nat_eq, contains, set_add, contains-set_add}
use galaxy_integration_steam.Prelude.Dict.{Dict, get, has, put, get-put}
use galaxy_integration_steam.Prelude.Int.{ℤ, pos, ◌-ℤ◌, ◌+ℤ◌, int_laws}
use galaxy_integration_steam.Games.Defs.{
  App, License, GamesCache, SteamLicense, is_zero, update_ready_state, update_packages, add_app,
  update_license_apps, count_down, update_app_title, shift, held,
}

-- A list of app ids that is a set.
abbrev pub Distinct : List ℕ → Type 0
Distinct [] = Unit
Distinct (x ∷ xs) = (contains x xs ≡ false) × Distinct xs

abbrev pub unresolved_ids : Dict ℕ App → List ℕ → ℕ
unresolved_ids apps [] = 0
unresolved_ids apps (a ∷ as') =
    let rest = unresolved_ids apps as' in if has a apps then rest else suc rest

-- The apps of licenses that have no title yet, counted once for each license.
abbrev pub unresolved : Dict ℕ App → List License → ℕ
unresolved apps [] = 0
unresolved apps (l ∷ ls) = unresolved_ids apps l.app_ids + unresolved apps ls

-- The licenses of a package that do not hold the app yet.
abbrev pub lacking : ℕ → ℕ → List License → ℕ
lacking p a [] = 0
lacking p a (l ∷ ls) =
    let rest = lacking p a ls in
    if l.package_id == p then (if contains a l.app_ids then rest else suc rest) else rest

-- The licenses that hold the app.
abbrev pub holders : ℕ → List License → ℕ
holders a [] = 0
holders a (l ∷ ls) = let rest = holders a ls in if contains a l.app_ids then suc rest else rest

pub record IsBalanced (c : GamesCache) : Type 0 where
  pub counted : c.apps_to_parse ≡ some (pos (unresolved c.apps c.licenses))
  pub sets : All (λ l. Distinct l.app_ids) c.licenses

unresolved-add_app :
    (apps : Dict ℕ App) (p a : ℕ) (ls : List License)
    → has a apps ≡ false
    → unresolved apps (map (add_app p a) ls) ≡ unresolved apps ls + lacking p a ls
unfolding add_app
unresolved-add_app apps p a [] h = omega arith
unresolved-add_app apps p a (l ∷ ls) h = ground (arith, unresolved-add_app apps p a ls h)

add_app-sets :
    (p a : ℕ) (ls : List License)
    → All (λ l. Distinct l.app_ids) ls
    → All (λ l. Distinct l.app_ids) (map (add_app p a) ls)
unfolding add_app
add_app-sets p a [] h = tt
add_app-sets p a (l ∷ ls) h = ground (arith, add_app-sets p a ls h.1)

has-put :
    (apps : Dict ℕ App) (a b : ℕ) (app : App)
    → has b (put a app apps) ≡ (if a == b then true else has b apps)
has-put apps a b app = ground (arith, get-put a b app apps)

-- Giving a title resolves the app in each set that holds it.
unresolved_ids-put :
    (apps : Dict ℕ App) (a : ℕ) (app : App) (ids : List ℕ)
    → has a apps ≡ false
    → Distinct ids
    → unresolved_ids (put a app apps) ids + (if contains a ids then 1 else 0)
      ≡ unresolved_ids apps ids
unresolved_ids-put apps a app [] h d = omega arith
unresolved_ids-put apps a app (x ∷ xs) h d =
    ground (arith, unresolved_ids-put apps a app xs h d.1, has-put apps a x app)

unresolved-put :
    (apps : Dict ℕ App) (a : ℕ) (app : App) (ls : List License)
    → has a apps ≡ false
    → All (λ l. Distinct l.app_ids) ls
    → unresolved (put a app apps) ls + holders a ls ≡ unresolved apps ls
unresolved-put apps a app [] h d = omega arith
unresolved-put apps a app (l ∷ ls) h d =
    ground
      (arith, unresolved-put apps a app ls h d.1, unresolved_ids-put apps a app l.app_ids h d.0)

pub count_down-holders :
    (a : ℕ) (ls : List License) (z : ℤ) → count_down a ls (some z) ≡ some (z -ℤ pos (holders a ls))
unfolding count_down
count_down-holders a [] z = ap some (omega int_laws)
count_down-holders a (l ∷ ls) z = elim (Bool-cases (contains a l.app_ids)) [
  | inl here ↦ rw here (count_down-holders a ls (z -ℤ pos 1) ∙ ap some (omega int_laws))
  | inr gone ↦ rw gone (count_down-holders a ls z)
]
