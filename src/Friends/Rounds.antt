-- ===== src/Friends/Rounds.antt =====
-- A text with nothing left in it to be replaced ends the rounds of a translation.
use mathlib.Core.Path.{subst}
use galaxy_integration_steam.Prelude.{
  ℕ, zero, suc, ◌≡◌, ◌∙◌, refl, ap, sym, Bool, true, false, List, [], ◌∷◌, Option, none, some,
  arith, if◌then◌else◌, any,
}
use galaxy_integration_steam.Prelude.Keys.{nat_eq}
use galaxy_integration_steam.Prelude.Text.{Text, list_eq}
use galaxy_integration_steam.Prelude.Dict.{Dict}
use galaxy_integration_steam.Friends.Presence.{
  Token, Patterns, replace_params, replace_token, blank_braces, replace_all, translate_rounds,
}

pub some-injective : {A : Type 0} {a b : A} → some a ≡ some b → a ≡ b
some-injective h = ground (arith, h)

module _ (re : Patterns) where
  abbrev pub has_any_param : Dict Text Text → Text → Bool
  has_any_param params t = any (λ (p : Text × Text). re.has_param p.0 t) params

  abbrev pub HasNoToken : List Token → Text → Type 0
  HasNoToken [] t = Unit {0}
  HasNoToken (k ∷ tokens) t = (re.has_token k.name t ≡ some false) × HasNoToken tokens t

  -- The braces of a text in which no parameter and no token is found are blanked.
  abbrev pub IsTranslated : Dict Text Text → List Token → Text → Type 0
  IsTranslated params tokens s =
      (t : Text) × (s ≡ blank_braces t) × (has_any_param params t ≡ false) × HasNoToken tokens t

  -- Once something is replaced the flag stays.
  replace_params-replaced :
      (params : Dict Text Text) (t u : Text) (r : Bool)
      → replace_params re params t true ≡ some (u, r)
      → r ≡ true
  unfolding replace_params
  replace_params-replaced [] t u r h = ground (arith, h)
  replace_params-replaced ((p, v) ∷ params) t u r h =
      replaced (re.has_param p t) (re.sub_param p v t) h (λ s. replace_params-replaced params s u r)
    where
      replaced :
          (b : Bool) (o : Option Text)
          → (if b
              then elim o [ none ↦ none | some s ↦ replace_params re params s true ]
              else replace_params re params t true)
            ≡ some (u, r)
          → ((s : Text) → replace_params re params s true ≡ some (u, r) → r ≡ true)
          → r ≡ true
      replaced true none h later = ground (arith, h)
      replaced true (some s) h later = later s h
      replaced false o h later = later t h

  -- Where nothing is replaced nothing is found.
  replace_params-none :
      (params : Dict Text Text) (t u : Text) (r : Bool)
      → replace_params re params t false ≡ some (u, r)
      → r ≡ false
      → (has_any_param params t ≡ false) × (u ≡ t)
  unfolding replace_params
  replace_params-none [] t u r h p = (refl, ground (arith, h))
  replace_params-none ((p, v) ∷ params) t u r h q =
      found (re.has_param p t) (re.sub_param p v t) h (λ f. replace_params-none params t u r f q)
    where
      found :
          (b : Bool) (o : Option Text)
          → (if b
              then elim o [ none ↦ none | some s ↦ replace_params re params s true ]
              else replace_params re params t false)
            ≡ some (u, r)
          → (replace_params re params t false ≡ some (u, r)
              → (has_any_param params t ≡ false) × (u ≡ t))
          → ((if b then true else has_any_param params t) ≡ false) × (u ≡ t)
      found true none h later = ground (arith, h)
      found true (some s) h later = ground (arith, q, replace_params-replaced params s u r h)
      found false o h later = later h

  replace_token-none :
      (tokens : List Token) (t u : Text) (replaced r : Bool)
      → replace_token re tokens t replaced ≡ some (u, r)
      → r ≡ false
      → HasNoToken tokens t × (replaced ≡ false) × (u ≡ t)
  unfolding replace_token
  replace_token-none [] t u replaced r h p = (tt, ground (arith, h, p), ground (arith, h))
  replace_token-none (k ∷ tokens) t u replaced r h p =
      found (re.has_token k.name t) (re.sub_token k.name k.value t) h
        (λ f. replace_token-none tokens t u replaced r f p)
    where
      found :
          (b : Option Bool) (o : Option Text)
          → elim b [
            | none ↦ none
            | some true ↦ elim o [ none ↦ none | some s ↦ some (s, true) ]
            | some false ↦ replace_token re tokens t replaced
          ]
            ≡ some (u, r)
          → (replace_token re tokens t replaced ≡ some (u, r)
              → HasNoToken tokens t × (replaced ≡ false) × (u ≡ t))
          → ((b ≡ some false) × HasNoToken tokens t) × (replaced ≡ false) × (u ≡ t)
      found none o h later = ground (arith, h)
      found (some true) none h later = ground (arith, h)
      found (some true) (some s) h later = ground (arith, h, p)
      found (some false) o h later =
          let (none_found, not_replaced, same) = later h in ((refl, none_found), not_replaced, same)

  replace_all-none :
      (params : Dict Text Text) (tokens : List Token) (t s : Text)
      → replace_all re params tokens t ≡ some (s, false)
      → IsTranslated params tokens s
  unfolding replace_all
  replace_all-none params tokens t s h = params_first (replace_params re params t false) refl h
    where
      tokens_next :
          (u : Text) (r : Bool) (o : Option (Text × Bool))
          → replace_params re params t false ≡ some (u, r)
          → replace_token re tokens u r ≡ o
          → ◌≡◌ {A = Option (Text × Bool)}
              (elim o [ none ↦ none | some (s', r') ↦ some (blank_braces s', r') ])
              (some (s, false))
          → IsTranslated params tokens s
      tokens_next u r none p q h = ground (arith, h)
      tokens_next u r (some (s', r')) p q h =
          let (no_token, not_replaced, same) =
            replace_token-none tokens u s' r r' q
              (ap (λ (x : Text × Bool). x.1) (some-injective h)) in
          let (no_param, kept) = replace_params-none params t u r p not_replaced in
          (
            t,
            sym (ap (λ (x : Text × Bool). x.0) (some-injective h)) ∙ ap blank_braces (same ∙ kept),
            no_param,
            subst (HasNoToken tokens) kept no_token,
          )

      params_first :
          (o : Option (Text × Bool))
          → replace_params re params t false ≡ o
          → ◌≡◌ {A = Option (Text × Bool)}
              (elim o [
                | none ↦ none
                | some (u, r) ↦ elim (replace_token re tokens u r) [
                  | none ↦ none
                  | some (s', r') ↦ some (blank_braces s', r')
                ]
              ])
              (some (s, false))
          → IsTranslated params tokens s
      params_first none p h = ground (arith, h)
      params_first (some (u, r)) p h = tokens_next u r (replace_token re tokens u r) p refl h

  pub translate_rounds-IsTranslated :
      (depth : ℕ) (params : Dict Text Text) (tokens : List Token) (t s : Text)
      → translate_rounds re depth params tokens t ≡ some s
      → IsTranslated params tokens s
  unfolding translate_rounds
  translate_rounds-IsTranslated zero params tokens t s h = ground (arith, h)
  translate_rounds-IsTranslated (suc depth) params tokens t s h =
      round (replace_all re params tokens t) refl h
        (λ u. translate_rounds-IsTranslated depth params tokens u s)
    where
      round :
          (o : Option (Text × Bool))
          → replace_all re params tokens t ≡ o
          → elim o [
            | none ↦ none
            | some (u, true) ↦ translate_rounds re depth params tokens u
            | some (u, false) ↦ some u
          ]
            ≡ some s
          → ((u : Text)
              → translate_rounds re depth params tokens u ≡ some s
              → IsTranslated params tokens s)
          → IsTranslated params tokens s
      round none p h later = ground (arith, h)
      round (some (u, true)) p h later = later u h
      round (some (u, false)) p h later =
          subst (IsTranslated params tokens) (some-injective h)
            (replace_all-none params tokens t u p)
