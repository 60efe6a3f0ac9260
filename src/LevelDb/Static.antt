-- ===== src/LevelDb/Static.antt =====
-- The tags of a game are the names of the collections that it was added to.
use mathlib.Core.Path.{subst}
use galaxy_integration_steam.Prelude.{
  ◌≡◌, refl, ap, ◌∙◌, sym, Bool, true, false, ◌||◌, List, [], ◌∷◌, ◌++◌, Option, none, some,
  if◌then◌else◌, append-nil, append_assoc, Result, ok, err, ◌>>=◌, Bool-cases, inl, inr,
}
use galaxy_integration_steam.Prelude.Keys.{◌=?◌, nat_eq}
use galaxy_integration_steam.Prelude.Text.{Text, list_eq, list_beq_iff}
use galaxy_integration_steam.Prelude.Dict.{Dict, get, get-put}
use galaxy_integration_steam.LevelDb.Defs.{
  GameId, str_game, Loaded, unlike, collection, LoadError, tags_of, add_tag, add_tags, is_within,
  own_names, key_error, static_tags, static_from, get_static_collections_tags,
}

-- A collection with a name and games that has no id.
abbrev is_without_id : Option Text → Option (List GameId) → Option Text → Bool
is_without_id (some name) (some (g ∷ gs)) none = true
is_without_id _ _ _ = false

abbrev pub lacks_id : List Loaded → Bool
lacks_id [] = false
lacks_id (unlike ∷ ls) = lacks_id ls
lacks_id (collection c ∷ ls) = is_without_id c.name c.added c.id || lacks_id ls

module _ (game : Text) where
  -- The tag, as often as the game is in the list.
  abbrev copies : List GameId → Text → List Text
  copies [] tag = []
  copies (g ∷ gs) tag = let rest = copies gs tag in if str_game g =? game then tag ∷ rest else rest

  get-add_tag :
      (j tag : Text) (d : Dict Text (List Text))
      → tags_of (get game (add_tag j tag d))
        ≡ tags_of (get game d) ++ (if j =? game then tag ∷ [] else [])
  get-add_tag j tag d =
      ap tags_of (get-put j game (tags_of (get j d) ++ (tag ∷ [])) d)
      ∙ elim (Bool-cases (j =? game)) [
        | inl p ↦ rw p (ap (λ k. tags_of (get k d) ++ (tag ∷ [])) ((list_beq_iff j game).0 p))
        | inr p ↦ rw p (sym (append-nil (tags_of (get game d))))
      ]

  if-append :
      (b : Bool) (tag : Text) (rest : List Text)
      → (if b then tag ∷ [] else []) ++ rest ≡ (if b then tag ∷ rest else rest)
  if-append true tag rest = refl
  if-append false tag rest = refl

  get-add_tags :
      (gs : List GameId) (tag : Text) (d : Dict Text (List Text))
      → tags_of (get game (add_tags gs tag d)) ≡ tags_of (get game d) ++ copies gs tag
  get-add_tags [] tag d = sym (append-nil (tags_of (get game d)))
  get-add_tags (g ∷ gs) tag d =
      get-add_tags gs tag (add_tag (str_game g) tag d)
      ∙ ap (λ l. l ++ copies gs tag) (get-add_tag (str_game g) tag d)
      ∙ append_assoc (tags_of (get game d)) _ (copies gs tag)
      ∙ ap (λ l. tags_of (get game d) ++ l) (if-append (str_game g =? game) tag (copies gs tag))

  -- What a collection gives the game: its id or its name, once for each time that it lists the game.
  abbrev tags_given : Option Text → Option (List GameId) → Option Text → List Text
  tags_given (some name) (some gs) (some i) = copies gs (if is_within i own_names then i else name)
  tags_given _ _ _ = []

  abbrev pub tags_in : List Loaded → List Text
  tags_in [] = []
  tags_in (unlike ∷ ls) = tags_in ls
  tags_in (collection c ∷ ls) = tags_given c.name c.added c.id ++ tags_in ls

  -- The tags of the game, and whether a collection with a name and games lacks its id.
  abbrev pub Gives : List Text → Bool → Result LoadError (Dict Text (List Text)) → Type 0
  Gives tags lacks (err e) = (e ≡ key_error) × (lacks ≡ true)
  Gives tags lacks (ok d) = (tags_of (get game d) ≡ tags) × (lacks ≡ false)

  static_tags-Gives :
      (name : Option Text) (added : Option (List GameId)) (i : Option Text)
      (d : Dict Text (List Text))
      → Gives
          (tags_of (get game d) ++ tags_given name added i)
          (is_without_id name added i)
          (static_tags name added i d)
  static_tags-Gives none added i d = (sym (append-nil (tags_of (get game d))), refl)
  static_tags-Gives (some name) none i d = (sym (append-nil (tags_of (get game d))), refl)
  static_tags-Gives (some name) (some []) none d = (sym (append-nil (tags_of (get game d))), refl)
  static_tags-Gives (some name) (some []) (some i) d =
      (sym (append-nil (tags_of (get game d))), refl)
  static_tags-Gives (some name) (some (g ∷ gs)) none d = (refl, refl)
  static_tags-Gives (some name) (some (g ∷ gs)) (some i) d = (get-add_tags (g ∷ gs) _ d, refl)

  static_from-Gives :
      (ls : List Loaded) (d : Dict Text (List Text))
      → Gives (tags_of (get game d) ++ tags_in ls) (lacks_id ls) (static_from ls d)
  static_from-Gives [] d = (sym (append-nil (tags_of (get game d))), refl)
  static_from-Gives (unlike ∷ ls) d = static_from-Gives ls d
  static_from-Gives (collection c ∷ ls) d =
      next (static_tags c.name c.added c.id d) (is_without_id c.name c.added c.id)
        (λ d'. static_from-Gives ls d') (static_tags-Gives c.name c.added c.id d)
    where
      next :
          (r : Result LoadError (Dict Text (List Text))) (lacks : Bool)
          → ((d' : Dict Text (List Text))
              → Gives (tags_of (get game d') ++ tags_in ls) (lacks_id ls) (static_from ls d'))
          → Gives (tags_of (get game d) ++ tags_given c.name c.added c.id) lacks r
          → Gives
              (tags_of (get game d) ++ (tags_given c.name c.added c.id ++ tags_in ls))
              (lacks || lacks_id ls)
              (r >>= static_from ls)
      next (err e) lacks rest (h, bad) = (h, ap (λ b. b || lacks_id ls) bad)
      next (ok d') lacks rest (h, good) =
          subst
            (λ b.
              Gives (tags_of (get game d) ++ (tags_given c.name c.added c.id ++ tags_in ls))
                (b || lacks_id ls) (static_from ls d'))
            (sym good)
            (subst (λ l. Gives l (lacks_id ls) (static_from ls d'))
              (ap (λ l. l ++ tags_in ls) h
                ∙ append_assoc (tags_of (get game d)) (tags_given c.name c.added c.id) (tags_in ls))
              (rest d'))

  -- There is a KeyError, and no result, exactly if a collection with a name and games has no id.
  -- Otherwise the tags of a game are the names of the collections that list it, in the order of the
  -- collections; of a collection whose id is a part of "favoritehidden" it is the id.
  pub get_static_collections_tags-Gives :
      (ls : List Loaded) → Gives (tags_in ls) (lacks_id ls) (get_static_collections_tags ls)
  unfolding get_static_collections_tags
  get_static_collections_tags-Gives ls = static_from-Gives ls []
