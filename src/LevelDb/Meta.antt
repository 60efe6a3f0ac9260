-- ===== src/LevelDb/Meta.antt =====
-- The loop that looks for the headers of the log finds each of them, in order.
use galaxy_integration_steam.Prelude.{
  ℕ, zero, suc, ◌+◌, ◌-◌, ◌≤◌, ◌<◌, ◌≡◌, refl, ap, ◌∙◌, sym, true, false, List, [], ◌∷◌, Option,
  none, some, arith, if◌then◌else◌, length, drop, ltb, length-drop, if_intro, tests,
}
use galaxy_integration_steam.Prelude.Text.{Text}
use galaxy_integration_steam.LevelDb.Defs.{is_prefix}
use galaxy_integration_steam.LevelDb.Log.{find_from, find, find_meta_pairs_from, find_meta_pairs}

drop-nil : (m : ℕ) → drop {A = ℕ} m [] ≡ []
drop-nil zero = refl
drop-nil (suc m) = refl

drop-drop : (m n : ℕ) (t : Text) → drop m (drop n t) ≡ drop (n + m) t
drop-drop m zero t = ap (λ k. drop k t) zero_add
  where
    zero_add : m ≡ zero + m
    zero_add = omega arith
drop-drop m (suc n) [] = drop-nil m ∙ sym (drop-nil (suc n + m))
drop-drop m (suc n) (d ∷ t) = drop-drop m n t ∙ ap (λ k. drop k (d ∷ t)) suc_add
  where
    suc_add : suc (n + m) ≡ suc n + m
    suc_add = omega arith

drop_past : (n : ℕ) (t : Text) → length t < n → drop n t ≡ []
drop_past zero t h = absurd (omega arith)
drop_past (suc n) [] h = refl
drop_past (suc n) (d ∷ t) h = drop_past n t (omega (arith, h))

module _ (c : ℕ) (s : Text) where
  -- Every position at which the text c ∷ s stands, counted from i.
  abbrev pub occurrences : Text → ℕ → List ℕ
  occurrences [] i = []
  occurrences (d ∷ t) i =
      let later = occurrences t (suc i) in if is_prefix (c ∷ s) (d ∷ t) then i ∷ later else later

  -- After a find from i at p, the rest of the occurrences are those after p.
  abbrev Splits : Text → ℕ → Option ℕ → Type 0
  Splits t i none = occurrences t i ≡ []
  Splits t i (some p) =
      (i ≤ p)
      × (p < i + length t)
      × (occurrences t i ≡ p ∷ occurrences (drop (suc p - i) t) (suc p))

  Splits-here :
      (d : ℕ) (t : Text) (i : ℕ) → is_prefix (c ∷ s) (d ∷ t) ≡ true → Splits (d ∷ t) i (some i)
  Splits-here d t i here = (
    omega arith,
    omega arith,
    ap (λ b. if b then i ∷ occurrences t (suc i) else occurrences t (suc i)) here
        ∙ ap (λ n. i ∷ occurrences (drop n (d ∷ t)) (suc i)) (one i),
  )
    where
      one : (i : ℕ) → 1 ≡ suc i - i
      one i = omega arith

  Splits-step :
      (d : ℕ) (t : Text) (i : ℕ) (o : Option ℕ)
      → is_prefix (c ∷ s) (d ∷ t) ≡ false
      → Splits t (suc i) o
      → Splits (d ∷ t) i o
  Splits-step d t i none not_here h =
      ap (λ b. if b then i ∷ occurrences t (suc i) else occurrences t (suc i)) not_here ∙ h
  Splits-step d t i (some p) not_here (le, lt, h) = (
    omega (arith, le),
    omega (arith, lt),
    ap (λ b. if b then i ∷ occurrences t (suc i) else occurrences t (suc i)) not_here
        ∙ h
        ∙ ap (λ n. p ∷ occurrences (drop n (d ∷ t)) (suc p)) (one_more le),
  )
    where
      one_more : suc i ≤ p → suc (suc p - suc i) ≡ suc p - i
      one_more le = omega (arith, le)

  find_from-Splits : (t : Text) (i : ℕ) → Splits t i (find_from (c ∷ s) t i)
  find_from-Splits [] i = refl
  find_from-Splits (d ∷ t) i =
      if_intro (Splits (d ∷ t) i) (is_prefix (c ∷ s) (d ∷ t)) (Splits-here d t i) (λ not_here.
        Splits-step d t i (find_from (c ∷ s) t (suc i)) not_here (find_from-Splits t (suc i)))

  abbrev pub FindSplits : Text → ℕ → Option ℕ → Type 0
  FindSplits log start none = occurrences (drop start log) start ≡ []
  FindSplits log start (some p) =
      (start ≤ p)
      × (p < length log)
      × (occurrences (drop start log) start ≡ p ∷ occurrences (drop (suc p) log) (suc p))

  Splits-FindSplits :
      (log : Text) (start : ℕ) (o : Option ℕ)
      → start ≤ length log
      → Splits (drop start log) start o
      → FindSplits log start o
  Splits-FindSplits log start none within h = h
  Splits-FindSplits log start (some p) within (le, lt, h) = (
    le,
    omega (arith, lt, within, length-drop start log),
    h
        ∙ ap (λ t. p ∷ occurrences t (suc p))
            (drop-drop (suc p - start) start log ∙ ap (λ k. drop k log) (back_again le)),
  )
    where
      back_again : start ≤ p → start + (suc p - start) ≡ suc p
      back_again le = omega (arith, le)

  pub find-FindSplits : (log : Text) (start : ℕ) → FindSplits log start (find (c ∷ s) log start)
  unfolding find
  find-FindSplits log start =
      if_intro (FindSplits log start) (ltb (length log) start)
        (λ past. ap (λ t. occurrences t start) (drop_past start log (omega (tests, past))))
        (λ within.
          Splits-FindSplits log start (find_from (c ∷ s) (drop start log) start)
            (ground (arith, within)) (find_from-Splits (drop start log) start))

  find_meta_pairs_from-occurrences :
      (log : Text) (fuel current_pos : ℕ)
      → current_pos ≤ length log
      → length log < fuel + current_pos
      → find_meta_pairs_from (c ∷ s) log fuel current_pos
        ≡ some (occurrences (drop current_pos log) current_pos)
  unfolding find_meta_pairs_from
  find_meta_pairs_from-occurrences log zero current_pos le lt = absurd (omega arith)
  find_meta_pairs_from-occurrences log (suc fuel) current_pos le lt =
      found (find (c ∷ s) log current_pos) (find-FindSplits log current_pos) (λ p past within.
        find_meta_pairs_from-occurrences log fuel (suc p) (omega (arith, within))
          (omega (arith, past, lt)))
    where
      found :
          (o : Option ℕ)
          → FindSplits log current_pos o
          → ((p : ℕ)
              → current_pos ≤ p
              → p < length log
              → find_meta_pairs_from (c ∷ s) log fuel (suc p)
                ≡ some (occurrences (drop (suc p) log) (suc p)))
          → elim o [
            | none ↦ some []
            | some p ↦ elim (find_meta_pairs_from (c ∷ s) log fuel (suc p)) [
              | none ↦ none
              | some found ↦ some (p ∷ found)
            ]
          ]
            ≡ some (occurrences (drop current_pos log) current_pos)
      found none h next = ap some (sym h)
      found (some p) (le, within, h) next = rw (next p le within) (ap some (sym h))

  -- The loop ends, and what it finds are all the positions at which the header stands in the log, in
  -- ascending order; the header is not empty.
  pub find_meta_pairs-occurrences :
      (log : Text) → find_meta_pairs (c ∷ s) log ≡ some (occurrences log 0)
  unfolding find_meta_pairs
  find_meta_pairs-occurrences log =
      find_meta_pairs_from-occurrences log (suc (suc (length log))) 0 (omega arith) (omega arith)
