-- ===== src/Imports/Earned.antt =====
-- From the response of Steam to the achievements that Galaxy is shown.
use galaxy_integration_steam.Prelude.{
  ℕ, zero, suc, ◌≡◌, ◌∙◌, refl, ap, true, List, [], ◌∷◌, ◌++◌, some, arith, ltb, if◌then◌else◌,
  Result, ok, err, ◌>>=◌, or_raise, ==_iff,
}
use galaxy_integration_steam.Prelude.Keys.{nat_eq, contains, list_remove}
use galaxy_integration_steam.Prelude.Text.{Text}
use galaxy_integration_steam.Prelude.Dict.{get, put, get-put}
use galaxy_integration_steam.UserInfo.Decimal.{str}
use galaxy_integration_steam.Imports.Defs.{
  GameStats, StatsCache, update_stats, check_remove, update_ready_state,
}
use galaxy_integration_steam.Imports.Achievements.{
  Schema, text, SchemaError, get_achievement_name, Unlocked, Block, unlock, unlocked_bits,
  block_schema, bits_of, unlocked_blocks, stats_handler, value_error, Achievement, shown_name,
  named, achievements, stored_achievements, get_unlocked_achievements,
}

module _ (strip : Text → Text) (names : ℕ → ℕ → Text) where
  -- The bits of a block with a time, named from the table.
  abbrev pub earned_bits : ℕ → ℕ → List ℕ → List Achievement
  earned_bits block i [] = []
  earned_bits block i (t ∷ ts) =
      let rest = earned_bits block (suc i) ts in
      if ltb 0 t
      then (record { unlock_time = t; achievement_name = shown_name strip (names block i) }) ∷ rest
      else rest

  abbrev pub earned : List Block → List Achievement
  earned [] = []
  earned (b ∷ bs) = earned_bits b.achievement_id 0 b.unlock_time ++ earned bs

  -- The schema of the block gives each bit with a time its name.
  abbrev pub NamesBits : ℕ → Schema → ℕ → List ℕ → Type 0
  NamesBits block schema i [] = Unit
  NamesBits block schema i (zero ∷ ts) = NamesBits block schema (suc i) ts
  NamesBits block schema i (suc t ∷ ts) =
      (get_achievement_name schema i ≡ ok (text (names block i)))
      × NamesBits block schema (suc i) ts

  abbrev pub NamesBlocks : Text → Schema → List Block → Type 0
  NamesBlocks game_id schema [] = Unit
  NamesBlocks game_id schema (b ∷ bs) =
      ((s : Schema) × (block_schema game_id schema b.achievement_id ≡ ok s)
        × NamesBits b.achievement_id s 0 b.unlock_time)
      × NamesBlocks game_id schema bs

  -- What is found, and what it is shown as.
  abbrev Shows : Result SchemaError (List Unlocked) → List Achievement → Type 0
  Shows r l = (us : List Unlocked) × (r ≡ ok us) × (achievements strip us ≡ ok l)

  unlocked_bits-Shows :
      (block : ℕ) (schema : Schema) (i : ℕ) (ts : List ℕ)
      → NamesBits block schema i ts
      → Shows (unlocked_bits block schema i ts) (earned_bits block i ts)
  unfolding unlocked_bits achievements named
  unlocked_bits-Shows block schema i [] h = ([], refl, refl)
  unlocked_bits-Shows block schema i (zero ∷ ts) h = unlocked_bits-Shows block schema (suc i) ts h
  unlocked_bits-Shows block schema i (suc t ∷ ts) (n, h) =
      let (us, found, shown) = unlocked_bits-Shows block schema (suc i) ts h in
      (
        unlock block i (suc t) (text (names block i)) ∷ us,
        ground (arith, n, found),
        ground (arith, shown),
      )

  achievements-append :
      (us vs : List Unlocked) (l m : List Achievement)
      → achievements strip us ≡ ok l
      → achievements strip vs ≡ ok m
      → achievements strip (us ++ vs) ≡ ok (l ++ m)
  unfolding achievements
  achievements-append [] vs l m hu hv = ground (arith, hu, hv)
  achievements-append (u ∷ us) vs l m hu hv =
      first (named strip u.unlock_time u.name) (achievements strip us)
        (λ k hk. achievements-append us vs k m hk hv) hu
    where
      first :
          (a : Result SchemaError Achievement) (r : Result SchemaError (List Achievement))
          → ((k : List Achievement) → r ≡ ok k → achievements strip (us ++ vs) ≡ ok (k ++ m))
          → (a >>= λ x. r >>= λ rest. ok (x ∷ rest)) ≡ ok l
          → (a >>= λ x. achievements strip (us ++ vs) >>= λ rest. ok (x ∷ rest)) ≡ ok (l ++ m)
      first (ok x) (ok k) next h = rw (next k refl) (ground (arith, h))
      first (ok x) (err e) next h = ground (arith, h)
      first (err e) r next h = ground (arith, h)

  unlocked_blocks-Shows :
      (game_id : Text) (schema : Schema) (bs : List Block)
      → NamesBlocks game_id schema bs
      → Shows (unlocked_blocks game_id schema bs) (earned bs)
  unfolding unlocked_blocks bits_of achievements
  unlocked_blocks-Shows game_id schema [] h = ([], refl, refl)
  unlocked_blocks-Shows game_id schema (b ∷ bs) ((s, q, n), h) =
      let (us, found, shown) = unlocked_bits-Shows b.achievement_id s 0 b.unlock_time n in
      let (vs, found', shown') = unlocked_blocks-Shows game_id schema bs h in
      (
        us ++ vs,
        rw q (rw found (rw found' refl)),
        achievements-append us vs (earned_bits b.achievement_id 0 b.unlock_time) (earned bs) shown
            shown',
      )

module _ {S : Type 0} where
  -- The cache that waits for the game takes its answer, which is then the game's entry.
  update_stats-waited :
      (i : ℕ) (s : S) (us : List Unlocked) (c : StatsCache S (List Unlocked))
      → contains i c.games_to_import ≡ true
      → (d : StatsCache S (List Unlocked)) × (update_stats i s us c ≡ some d)
        × (get i d.info ≡ some (record { stats = some s; achievements = some us }))
  unfolding update_stats check_remove update_ready_state
  update_stats-waited i s us c h =
      let e : GameStats S (List Unlocked) = record { stats = some s; achievements = some us } in
      (
        update_ready_state
            (record c { info = put i e c.info; games_to_import = list_remove i c.games_to_import }),
        ground (arith, h),
        get-put i i e c.info ∙ ground (arith, ==_iff i i),
      )

  -- If the cache waits for the game and the schema names the bits that have a time, then the response is
  -- taken, and Galaxy is shown one achievement for each of these bits, with its time, in the order of
  -- the blocks and bits; the names without the blanks around them.
  pub shown-stats_handler :
      (strip : Text → Text) (names : ℕ → ℕ → Text) (game_id : ℕ) (stats : S) (blocks : List Block)
      (schema : Schema) (c : StatsCache S (List Unlocked))
      → contains game_id c.games_to_import ≡ true
      → NamesBlocks strip names (str game_id) schema blocks
      → (d : StatsCache S (List Unlocked)) × (stats_handler game_id stats blocks schema c ≡ ok d)
        × (get_unlocked_achievements strip game_id d ≡ ok (earned strip names blocks))
  unfolding stats_handler get_unlocked_achievements stored_achievements
  shown-stats_handler strip names game_id stats blocks schema c waits h =
      let (us, found, shown) = unlocked_blocks-Shows strip names (str game_id) schema blocks h in
      let (d, taken, entry) = update_stats-waited game_id stats us c waits in
      (
        d,
        rw found (ap (λ o. or_raise o value_error) taken),
        ap (stored_achievements strip) entry ∙ shown,
      )
