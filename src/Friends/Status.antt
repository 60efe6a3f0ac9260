-- ===== src/Friends/Status.antt =====
-- The status that Galaxy is shown has nothing left to be translated.
use mathlib.Core.Path.{subst}
use galaxy_integration_steam.Prelude.{
  ℕ, ◌≡◌, ◌∙◌, refl, ap, sym, ◌⊎◌, inl, inr, true, false, ◌||◌, List, [], ◌∷◌, Option, none, some,
  arith, if◌then◌else◌, Bool-cases,
}
use galaxy_integration_steam.Prelude.Keys.{nat_eq, contains}
use galaxy_integration_steam.Prelude.Text.{Text, list_eq}
use galaxy_integration_steam.Prelude.Dict.{Dict, get}
use galaxy_integration_steam.Friends.Presence.{
  Token, Patterns, translate_presence, has_params, hash, untranslated, by_tokens, resolved,
  raw_status, status_of, played, Shown, in_game_status_of, presence_from_user_info,
}
use galaxy_integration_steam.Friends.Rounds.{
  IsTranslated, translate_rounds-IsTranslated, some-injective,
}

module _ (re : Patterns) where
  -- Nothing in the text calls for a translation.
  abbrev pub IsPlain : Text → Type 0
  IsPlain s = (contains hash s ≡ false) × (has_params s ≡ false)

  -- The status has been translated by the tokens of the game that is played, or it is plain.
  abbrev pub IsResolved : Dict ℕ (Option (List Token)) → Option ℕ → Dict Text Text → Text → Type 0
  IsResolved cache playing params s =
      IsPlain s
      ⊎ ((game : ℕ) × (tokens : List Token) × (playing ≡ some game)
          × (get game cache ≡ some (some tokens))
          × IsTranslated re params tokens s)

  untranslated-IsPlain : (status s : Text) → untranslated status ≡ some s → IsPlain s
  untranslated-IsPlain status s h = elim (Bool-cases (contains hash status || has_params status)) [
    | inl marked ↦ ground (arith, refused marked ∙ h)
    | inr plain ↦
        subst IsPlain (some-injective (shown plain ∙ h))
          (ground (arith, plain), ground (arith, plain))
  ]
    where
      refused : (contains hash status || has_params status) ≡ true → none ≡ untranslated status
      refused p = ap (λ b. if b then none else some status) (sym p)

      shown :
          (contains hash status || has_params status) ≡ false → some status ≡ untranslated status
      shown p = ap (λ b. if b then none else some status) (sym p)

  module _ (cache : Dict ℕ (Option (List Token))) (params : Dict Text Text) where
    by_tokens-IsResolved :
        (game : ℕ) (status s : Text) (o : Option (Option (List Token)))
        → get game cache ≡ o
        → by_tokens re params status o ≡ some s
        → IsResolved cache (some game) params s
    unfolding by_tokens translate_presence
    by_tokens-IsResolved game status s none p h = inl (untranslated-IsPlain status s h)
    by_tokens-IsResolved game status s (some none) p h = inl (untranslated-IsPlain status s h)
    by_tokens-IsResolved game status s (some (some tokens)) p h =
        inr (game, tokens, refl, p, translate_rounds-IsTranslated re 10 params tokens status s h)

    status_of-IsResolved :
        (game : Option ℕ) (o : Option Text) (s : Text)
        → status_of re cache params game o ≡ some s
        → IsResolved cache game params s
    unfolding status_of resolved
    status_of-IsResolved game none s h = ground (arith, h)
    status_of-IsResolved game (some []) s h =
        subst (IsResolved cache game params) (some-injective h) (inl (refl, refl))
    status_of-IsResolved none (some (c ∷ t)) s h = ground (arith, h)
    status_of-IsResolved (some game) (some (c ∷ t)) s h =
        by_tokens-IsResolved game (c ∷ t) s (get game cache) refl h

    rich_presence-IsResolved :
        (game : Option ℕ) (o : Option (Dict Text Text)) (s : Text)
        → o ≡ some params
        → in_game_status_of re cache game o ≡ some s
        → IsResolved cache game params s
    unfolding in_game_status_of
    rich_presence-IsResolved game o s p h =
        status_of-IsResolved game (raw_status params) s
          (ap (in_game_status_of re cache game) (sym p) ∙ h)

  -- A status that Galaxy is shown either has no mark of a token or parameter at all, or there are
  -- translations for the game that is played, and it is a text without a parameter of the friend's rich
  -- presence and without a token of the game, its braces blanked. The patterns may be any.
  pub presence_from_user_info-IsResolved :
      (cache : Dict ℕ (Option (List Token))) (u : Shown) (params : Dict Text Text) (s : Text)
      → u.rich_presence ≡ some params
      → (presence_from_user_info re cache u).in_game_status ≡ some s
      → IsResolved cache (played u.game_id) params s
  unfolding presence_from_user_info
  presence_from_user_info-IsResolved cache u params s p h =
      rich_presence-IsResolved cache params (played u.game_id) u.rich_presence s p h
