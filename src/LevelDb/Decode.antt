-- ===== src/LevelDb/Decode.antt =====
-- The loop that decodes the user's entries ends, and takes them from the user's section.
use galaxy_integration_steam.Prelude.{
  ℕ, zero, suc, ◌+◌, ◌≤◌, ◌<◌, ◌≡◌, refl, Bool, true, false, List, [], ◌∷◌, Option, none, some,
  arith, if◌then◌else◌, length, drop, ltb, All, if_intro,
}
use galaxy_integration_steam.Prelude.Text.{Text, codes}
use galaxy_integration_steam.LevelDb.Defs.{Entry}
use galaxy_integration_steam.LevelDb.Log.{find}
use galaxy_integration_steam.LevelDb.Meta.{FindSplits, find-FindSplits}
use galaxy_integration_steam.LevelDb.Jsons.{
  is_past, next_position, decoded, jsons_from, or_length, retrieve_jsons,
}

-- A value ends after its start.
abbrev pub Advances : (Text → Option (Entry × ℕ)) → Type 0
Advances raw_decode = (t : Text) (e : Entry) (n : ℕ) → raw_decode t ≡ some (e, n) → 0 < n

-- The smaller and the larger of the two ends of the section.
abbrev pub first_of : ℕ → ℕ → ℕ
first_of start stop = if ltb stop start then stop else start

abbrev pub last_of : ℕ → ℕ → ℕ
last_of start stop = if ltb stop start then start else stop

module _ (raw_decode : Text → Option (Entry × ℕ)) (log : Text) where
  -- The entry is decoded from a position in the section.
  abbrev pub IsFrom : ℕ → ℕ → Entry → Type 0
  IsFrom start stop e =
      (p : ℕ) × (n : ℕ) × (start ≤ p)
      × (is_past stop p ≡ false)
      × (raw_decode (drop p log) ≡ some (e, n))

  abbrev Ends : ℕ → ℕ → Option (List Entry) → Type 0
  Ends start stop o = (es : List Entry) × (o ≡ some es) × All (IsFrom start stop) es

  All-later :
      (start later stop : ℕ) (es : List Entry)
      → start ≤ later
      → All (IsFrom later stop) es
      → All (IsFrom start stop) es
  All-later start later stop [] le h = tt
  All-later start later stop (e ∷ es) le ((p, n, from, inside, d), h) =
      ((p, n, omega (arith, le, from), inside, d), All-later start later stop es le h)

  next-after :
      (p : ℕ) (d : Option (Entry × ℕ))
      → Advances raw_decode
      → raw_decode (drop p log) ≡ d
      → p < next_position p d
  next-after p none adv h = omega arith
  next-after p (some (e, n)) adv h = omega (arith, adv (drop p log) e n h)

  decoded-Ends :
      (start stop p : ℕ) (d : Option (Entry × ℕ)) (rest : Option (List Entry))
      → start ≤ p
      → is_past stop p ≡ false
      → raw_decode (drop p log) ≡ d
      → p < next_position p d
      → Ends (next_position p d) stop rest
      → Ends start stop (elim rest [ none ↦ none | some es ↦ some (decoded d es) ])
  decoded-Ends start stop p none rest le inside h after_ (es, q, all) =
      (es, rw q refl, All-later start (suc p) stop es (omega (arith, le)) all)
  decoded-Ends start stop p (some (e, n)) rest le inside h after_ (es, q, all) = (
    e ∷ es,
    rw q refl,
    ((p, n, le, inside, h), All-later start (p + n) stop es (omega (arith, le, after_)) all),
  )

  jsons_from-Ends :
      (fuel parse stop : ℕ)
      → Advances raw_decode
      → 0 < fuel
      → length log < fuel + parse
      → Ends parse stop (jsons_from raw_decode log stop fuel parse)
  unfolding jsons_from
  jsons_from-Ends zero parse stop adv pos lt = absurd (omega arith)
  jsons_from-Ends (suc fuel) parse stop adv pos lt =
      found (find (codes "{") log parse) (find-FindSplits 123 [] log parse)
        (λ next within enough. jsons_from-Ends fuel next stop adv within enough)
    where
      found :
          (o : Option ℕ)
          → FindSplits 123 [] log parse o
          → ((next : ℕ)
              → 0 < fuel
              → length log < fuel + next
              → Ends next stop (jsons_from raw_decode log stop fuel next))
          → Ends parse stop (elim o [
            | none ↦ some []
            | some p ↦
                let d = raw_decode (drop p log) in
                let rest = jsons_from raw_decode log stop fuel (next_position p d) in
                if is_past stop p
                then some []
                else elim rest [ none ↦ none | some es ↦ some (decoded d es) ]
          ])
      found none h again = ([], refl, tt)
      found (some p) (le, within, _) again =
          let d = raw_decode (drop p log) in
          let after_ = next-after p d adv refl in
          if_intro (Ends parse stop) (is_past stop p) (λ _. ([], refl, tt))
            (λ inside.
              decoded-Ends parse stop p d (jsons_from raw_decode log stop fuel (next_position p d))
                le inside refl after_
                (again (next_position p d) (omega (arith, le, within, lt))
                  (omega (arith, le, within, lt, after_))))

  -- With a decoder whose values end after they start, the loop ends, and each entry that it finds has
  -- been decoded from a position of the section, whichever of its ends comes first.
  pub retrieve_jsons-IsFrom :
      (start : ℕ) (end_ : Option ℕ)
      → Advances raw_decode
      → (es : List Entry) × (retrieve_jsons raw_decode log start end_ ≡ some es)
        × All (IsFrom (first_of start (or_length end_ log)) (last_of start (or_length end_ log))) es
  unfolding retrieve_jsons
  retrieve_jsons-IsFrom start end_ adv =
      by_order (or_length end_ log) (ltb (or_length end_ log) start)
    where
      by_order :
          (stop : ℕ) (b : Bool)
          → let fuel = suc (suc (length log)) in
            (es : List Entry) × ((if b
                then jsons_from raw_decode log start fuel stop
                else jsons_from raw_decode log stop fuel start)
              ≡ some es)
            × All (IsFrom (if b then stop else start) (if b then start else stop)) es
      by_order stop true =
          jsons_from-Ends (suc (suc (length log))) stop start adv (omega arith) (omega arith)
      by_order stop false =
          jsons_from-Ends (suc (suc (length log))) start stop adv (omega arith) (omega arith)
