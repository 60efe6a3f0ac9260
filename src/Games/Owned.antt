-- ===== src/Games/Owned.antt =====
-- What the generators of src/steam_network/games_cache.py yield.
use galaxy_integration_steam.Prelude.{
  ℕ, ◌≡◌, ◌∙◌, refl, Bool, false, ◌&&◌, ◌||◌, not, List, [], ◌∷◌, ◌++◌, map, arith, none, some,
  String, if◌then◌else◌, any,
}
use galaxy_integration_steam.Prelude.Keys.{◌=?◌, nat_eq, string_eq, contains}
use galaxy_integration_steam.Prelude.Dict.{get}
use galaxy_integration_steam.Games.Defs.{
  App, License, GamesCache, witcher_3_dlcs_app_ids, yielded, consumed, consume_resolved_apps,
}

-- The app is of the type asked for, or a Witcher 3 expansion where games are asked for.
abbrev pub wanted : String → ℕ → App → Bool
wanted apptype a app =
    app.type_ =? apptype
    || (apptype =? "game" && app.type_ =? "dlc" && contains a witcher_3_dlcs_app_ids)

abbrev pub same_sharing : Bool → License → Bool
same_sharing shared l = if l.shared then shared else not shared

-- The id has a title, its app is wanted and passes the test `q`.
abbrev pub found : GamesCache → String → (App → Bool) → ℕ → Bool
found c apptype q a = elim (get a c.apps) [
  | none ↦ false
  | some app ↦ wanted apptype a app && q app
]

any-append {ℓ} :
    {A : Type ℓ} (f : A → Bool) (xs ys : List A) → any f (xs ++ ys) ≡ (any f xs || any f ys)
any-append f [] ys = refl
any-append f (x ∷ xs) ys = ground (arith, any-append f xs ys)

any-yielded :
    (c : GamesCache) (apptype : String) (q : App → Bool) (ids : List ℕ)
    → any (λ y. q y.0) (yielded c apptype ids) ≡ any (found c apptype q) ids
unfolding yielded
any-yielded c apptype q [] = refl
any-yielded c apptype q (a ∷ as') = ground (arith, any-yielded c apptype q as')

any-consumed :
    (c : GamesCache) (shared : Bool) (apptype : String) (q : App → Bool) (ls : List License)
    → any (λ y. q y.0) (consumed c shared apptype ls)
      ≡ any (λ l. same_sharing shared l && any (found c apptype q) l.app_ids) ls
unfolding consumed
any-consumed c shared apptype q [] = refl
any-consumed c shared apptype q (l ∷ ls) = ground (
  arith,
  any-consumed c shared apptype q ls,
  any-append (λ (y : App × Bool). q y.0) (yielded c apptype l.app_ids)
      (consumed c shared apptype ls),
  any-yielded c apptype q l.app_ids,
)

any-map_fst :
    (q : App → Bool) (ys : List (App × Bool)) → any q (map (λ y. y.0) ys) ≡ any (λ y. q y.0) ys
any-map_fst q [] = refl
any-map_fst q (y ∷ ys) = ground (arith, any-map_fst q ys)

-- What a generator yields, for any test of apps: an app that passes it is yielded exactly if some
-- license of that sharing holds an id with a title whose app is wanted and passes. So shared
-- licenses and owned ones are never mixed, apps without a title are left out, and the Witcher 3
-- expansions count as games.
pub any-consume_resolved_apps :
    (shared : Bool) (apptype : String) (c : GamesCache) (q : App → Bool)
    → any q (consume_resolved_apps shared apptype c).1
      ≡ any (λ l. same_sharing shared l && any (found c apptype q) l.app_ids) c.licenses
unfolding consume_resolved_apps
any-consume_resolved_apps shared apptype c q =
    any-map_fst q (consumed c shared apptype c.licenses)
    ∙ any-consumed c shared apptype q c.licenses
