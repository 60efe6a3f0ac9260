-- ===== src/Games/Import/Licenses.antt =====
-- Which licenses reach the cache, and which packages are asked for.
use galaxy_integration_steam.Prelude.{
  ℕ, ◌+◌, ◌<◌, ◌≡◌, ◌∙◌, refl, ap, sym, Bool, true, false, ◌&&◌, not, List, [], ◌∷◌, ◌++◌, map,
  arith, some, ◌==◌, ltb, if◌then◌else◌, any, filter, length, append-nil, append_assoc, Bool-cases,
  inl, inr, lt→ltb,
}
use galaxy_integration_steam.Prelude.Keys.{nat_eq, contains}
use galaxy_integration_steam.Prelude.Int.{pos}
use galaxy_integration_steam.Wire.Packet.{account_id_mask}
use galaxy_integration_steam.Games.Defs.{
  License, GamesCache, SteamLicense, is_resolved, start_packages_import, reset_storing_map,
  get_resolved_packages, update_ready_state,
}
use galaxy_integration_steam.Games.Faults.{new_license, start_packages_import-appends}
use galaxy_integration_steam.Games.Balance.{IsBalanced}
use galaxy_integration_steam.Games.Balance.Steps.{start_packages_import-reset}
use galaxy_integration_steam.Games.Import.Defs.{
  LicenseMessage, check_license, check_licenses, process_license_list, number_is_license, to_set,
  ids, same_packages, big_library, not_resolved, license_import_handler,
}

-- Flag 520 and package 0 are the entries to leave out.
abbrev pub kept : LicenseMessage → Bool
kept l = not (l.flags == 520) && not (l.package_id == 0)

abbrev pub marked : ℕ → LicenseMessage → SteamLicense
marked own l = record {
  id_ = l.package_id;
  access_token = l.access_token;
  shared = not (l.owner_id + account_id_mask == own);
}

none_is_license : (n : ℕ) (acc : List SteamLicense) → any (number_is_license n) acc ≡ false
none_is_license n [] = refl
none_is_license n (s ∷ ss) = none_is_license n ss

check_license-eq :
    (own : ℕ) (l : LicenseMessage) (acc : List SteamLicense)
    → check_license (some own) l acc ≡ some (if kept l then acc ++ marked own l ∷ [] else acc)
unfolding check_license
check_license-eq own l acc = ground (arith, none_is_license l.package_id acc)

check_licenses-eq :
    (own : ℕ) (ls : List LicenseMessage) (acc : List SteamLicense)
    → check_licenses (some own) ls acc ≡ some (acc ++ map (marked own) (filter kept ls))
unfolding check_licenses
check_licenses-eq own [] acc = ap some (sym (append-nil acc))
check_licenses-eq own (l ∷ ls) acc =
    rw (check_license-eq own l acc, check_licenses)
      (elim (Bool-cases (kept l)) [
        | inl keep ↦ rw keep (
            check_licenses-eq own ls (acc ++ marked own l ∷ [])
            ∙ ap some (append_assoc acc (marked own l ∷ []) (map (marked own) (filter kept ls))))
        | inr skip ↦ rw skip (check_licenses-eq own ls acc)
      ])

-- The licenses handed on are those without the flag 520 and with another package than 0, in the
-- order they came, none left out as a double, and shared exactly if another account owns them.
pub process_license_list-eq :
    (own : ℕ) (ls : List LicenseMessage)
    → process_license_list (some own) ls ≡ some (map (marked own) (filter kept ls))
unfolding process_license_list
process_license_list-eq own ls = check_licenses-eq own ls []

apps-start :
    (ss : List SteamLicense) (c : GamesCache)
    → ((start_packages_import ss c).apps ≡ c.apps)
      × ((start_packages_import ss c).apps_to_parse ≡ some (pos 0))
unfolding start_packages_import update_ready_state
apps-start ss c = ground arith

-- Where the list of packages changed in a library of less than 12000, the cache is rebuilt: it
-- holds the licenses sent and no app, counts one package for each and no app to parse, and all are
-- asked for.
pub license_import_handler-rebuild :
    (ss : List SteamLicense) (c : GamesCache)
    → length (to_set (ids ss)) < big_library
    → same_packages c ss ≡ false
    → ((license_import_handler ss c).0.licenses ≡ map new_license ss)
      × ((license_import_handler ss c).0.apps ≡ [])
      × ((license_import_handler ss c).0.apps_to_parse ≡ some (pos 0))
      × ((license_import_handler ss c).0.packages_to_parse ≡ some (pos (length ss)))
      × IsBalanced (license_import_handler ss c).0
      × ((license_import_handler ss c).1 ≡ ss)
unfolding license_import_handler
license_import_handler-rebuild ss c small changed = rw changed (
    rw (lt→ltb _ _ small) (
      unfold reset_storing_map in start_packages_import-appends ss (reset_storing_map c),
      unfold reset_storing_map in (apps-start ss (reset_storing_map c)).0,
      (apps-start ss (reset_storing_map c)).1,
      (start_packages_import-reset ss c).1,
      (start_packages_import-reset ss c).0,
      refl,
    ))

-- A license of the package that has apps, all of which have a title.
abbrev pub has_resolved : ℕ → GamesCache → Bool
has_resolved p c = any (λ l. l.package_id == p && is_resolved c l) c.licenses

resolved_any :
    (c : GamesCache) (p : ℕ) (ls : List License)
    → contains p (map (λ l. l.package_id) (filter (is_resolved c) ls))
      ≡ any (λ l. l.package_id == p && is_resolved c l) ls
resolved_any c p [] = refl
resolved_any c p (l ∷ ls) = ground (arith, resolved_any c p ls)

not_resolved_drops :
    (c : GamesCache) (p : ℕ) (ss : List SteamLicense)
    → contains p (ids ss) ≡ true
    → contains p (ids (not_resolved c ss)) ≡ false
    → contains p (get_resolved_packages c) ≡ true
not_resolved_drops c p [] h k = cc
not_resolved_drops c p (s ∷ ss) h k = ground (arith, not_resolved_drops c p ss)

any-append {ℓ} :
    {A : Type ℓ} (f : A → Bool) (xs ys : List A) → any f xs ≡ true → any f (xs ++ ys) ≡ true
any-append f [] ys h = cc
any-append f (x ∷ xs) ys h = ground (arith, any-append f xs ys)

is_resolved-start :
    (ss : List SteamLicense) (c : GamesCache) (l : License)
    → is_resolved (start_packages_import ss c) l ≡ is_resolved c l
unfolding is_resolved start_packages_import update_ready_state
is_resolved-start ss c l = ground arith

any_resolved-start :
    (ss : List SteamLicense) (c : GamesCache) (p : ℕ) (ls : List License)
    → any (λ l. l.package_id == p && is_resolved (start_packages_import ss c) l) ls
      ≡ any (λ l. l.package_id == p && is_resolved c l) ls
any_resolved-start ss c p [] = refl
any_resolved-start ss c p (l ∷ ls) =
    ground (arith, is_resolved-start ss c l, any_resolved-start ss c p ls)

resolved_after_start :
    (ss : List SteamLicense) (c : GamesCache) (p : ℕ)
    → contains p (get_resolved_packages c) ≡ true
    → has_resolved p (start_packages_import ss c) ≡ true
unfolding get_resolved_packages
resolved_after_start ss c p h = simp (start_packages_import-appends ss c) (
    any-append (λ l. l.package_id == p && is_resolved (start_packages_import ss c) l) c.licenses
      (map new_license ss)
      (any_resolved-start ss c p c.licenses ∙ sym (resolved_any c p c.licenses) ∙ h))

-- A package that Steam sent and that is not asked for is resolved in the cache that the handler
-- leaves: some license of it has apps, and each of them has a title.
pub not_requested :
    (ss : List SteamLicense) (c : GamesCache) (p : ℕ)
    → contains p (ids ss) ≡ true
    → contains p (ids (license_import_handler ss c).1) ≡ false
    → has_resolved p (license_import_handler ss c).0 ≡ true
unfolding license_import_handler
not_requested ss c p sent skipped =
    elim (Bool-cases (ltb (length (to_set (ids ss))) big_library && not (same_packages c ss))) [
      | inl rebuild ↦ cc (rw rebuild at skipped)
      | inr resume ↦ rw resume (
          resolved_after_start (not_resolved c ss) c p
            (not_resolved_drops c p ss sent (rw resume at skipped)))
    ]
