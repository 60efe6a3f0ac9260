-- ===== src/LevelDb/Fresh.antt =====
-- Of the entries with one key the latest is kept.
use mathlib.Core.Path.{subst}
use galaxy_integration_steam.Prelude.{
  ℕ, ◌≤◌, ◌≡◌, refl, ap, ◌∙◌, Bool, true, false, not, List, [], ◌∷◌, Option, none, some, arith,
  if◌then◌else◌, ltb, All, any, if_intro, filter, sym,
}
use galaxy_integration_steam.Prelude.Keys.{◌=?◌, nat_eq}
use galaxy_integration_steam.Prelude.Text.{Text, list_eq, list_beq_iff}
use galaxy_integration_steam.Prelude.Dict.{Dict, get, has, put, values, get-put}
use galaxy_integration_steam.LevelDb.Defs.{
  Entry, timestamp_of, keep, pretenders_from, fresh_collections,
}
use galaxy_integration_steam.LevelDb.Kept.{
  lists, is_listed, HasKey, Keyed, as_list, pretenders_from-IsKept, filter-values, values-HasKey,
  is_listed-get,
}

module _ (k : Text) where
  keep-grows :
      (key : Option Text) (timestamp : Option ℕ) (e : Entry) (d : Dict Text Entry)
      → e.timestamp ≡ timestamp
      → (timestamp_of (get k d) ≤ timestamp_of (get k (keep key timestamp e d)))
        × (lists k key timestamp ≡ true
            → timestamp_of (some e) ≤ timestamp_of (get k (keep key timestamp e d)))
        × ((if has k d then true else lists k key timestamp) ≡ has k (keep key timestamp e d))
  keep-grows none timestamp e d p = ground arith
  keep-grows (some j) none e d p = ground arith
  keep-grows (some j) (some t) e d p = ground (arith, get-put j k e d, list_beq_iff j k, p)

  if-if :
      (a b c : Bool)
      → (if a then true else if b then true else c) ≡ (if (if a then true else b) then true else c)
  if-if true b c = refl
  if-if false b c = refl

  pretenders_from-grows :
      (es : List Entry) (d : Dict Text Entry)
      → (timestamp_of (get k d) ≤ timestamp_of (get k (pretenders_from es d)))
        × All
            (λ (e : Entry).
              is_listed k e ≡ true
              → timestamp_of (some e) ≤ timestamp_of (get k (pretenders_from es d)))
            es
        × ((if has k d then true else any (is_listed k) es) ≡ has k (pretenders_from es d))
  pretenders_from-grows [] d = (omega arith, tt, ground arith)
  pretenders_from-grows (e ∷ es) d =
      let (grows, reached, has_) = keep-grows e.key e.timestamp e d refl in
      let (grows', bounded, has_') = pretenders_from-grows es (keep e.key e.timestamp e d) in
      (
        omega (arith, grows, grows'),
        ((λ h. omega (arith, reached h, grows')), bounded),
        if-if (has k d) (is_listed k e) (any (is_listed k) es)
            ∙ ap (λ b. if b then true else any (is_listed k) es) has_
            ∙ has_',
      )

module _ (P : Entry → Type 0) where
  put-All :
      (k : Text) (e : Entry) (d : Dict Text Entry)
      → P e
      → All P (values d)
      → All P (values (put k e d))
  put-All k e [] p h = (p, tt)
  put-All k e ((j, x) ∷ d) p h =
      if_intro (λ (l : Dict Text Entry). All P (values l)) (j =? k) (λ _. (p, h.1))
        (λ _. (h.0, put-All k e d p h.1))

  keep-All :
      (key : Option Text) (timestamp : Option ℕ) (e : Entry) (d : Dict Text Entry)
      → P e
      → All P (values d)
      → All P (values (keep key timestamp e d))
  keep-All none timestamp e d p h = h
  keep-All (some k) none e d p h = h
  keep-All (some k) (some t) e d p h =
      let after = put-All k e d p h in
      if_intro (λ (l : Dict Text Entry). All P (values l)) (not (has k d)) (λ _. after)
        (λ _.
          if_intro (λ (l : Dict Text Entry). All P (values l)) (ltb (timestamp_of (get k d)) t)
            (λ _. after) (λ _. h))

  pretenders_from-All :
      (es : List Entry) (d : Dict Text Entry)
      → All P es
      → All P (values d)
      → All P (values (pretenders_from es d))
  pretenders_from-All [] d all h = h
  pretenders_from-All (e ∷ es) d all h =
      pretenders_from-All es (keep e.key e.timestamp e d) all.1
        (keep-All e.key e.timestamp e d all.0 h)

module _ (k : Text) (b : ℕ) where
  abbrev stamp : Entry → ℕ
  stamp e = if is_listed k e then timestamp_of (some e) else 0

  All-stamp :
      (es : List Entry)
      → All (λ (e : Entry). is_listed k e ≡ true → timestamp_of (some e) ≤ b) es
      → All (λ (e : Entry). stamp e ≤ b) es
  All-stamp [] h = tt
  All-stamp (e ∷ es) h =
      (if_intro (λ n. n ≤ b) (is_listed k e) (λ l. h.0 l) (λ _. omega arith), All-stamp es h.1)

-- Of the entries with the key k: there is none among all, or the one that is kept is one of them, with a
-- timestamp that none of them exceeds.
abbrev pub IsLatest : Text → List Entry → List Entry → Type 0
IsLatest k es [] = any (is_listed k) es ≡ false
IsLatest k es (e ∷ []) =
    (is_listed k e ≡ true)
    × All
        (λ (x : Entry).
          (if is_listed k x then timestamp_of (some x) else 0) ≤ timestamp_of (some e))
        es
IsLatest k es (e ∷ f ∷ l) = ⊥

IsLatest-in :
    (es : List Entry) (k : Text) (d : Dict Text Entry) (o : Option Entry)
    → Keyed d
    → get k d ≡ o
    → All
        (λ (x : Entry).
          (if is_listed k x then timestamp_of (some x) else 0) ≤ timestamp_of (get k d))
        es
    → any (is_listed k) es ≡ has k d
    → IsLatest k es (as_list o)
IsLatest-in es k d none keyed p bounded has_ = rw (p, has) at has_
IsLatest-in es k d (some e) keyed p bounded has_ = (is_listed-get k d e keyed p, rw p at bounded)

-- Of the entries of the log with a key and a timestamp exactly one is kept for each key, and none with
-- that key is later; the others are not kept. What holds of all entries (P) holds of those that are kept.
pub fresh_collections-IsLatest :
    (es : List Entry) (k : Text) (P : Entry → Type 0)
    → All P es
    → IsLatest k es (filter (is_listed k) (fresh_collections es))
      × All HasKey (fresh_collections es)
      × All P (fresh_collections es)
unfolding fresh_collections
fresh_collections-IsLatest es k P all =
    let d = pretenders_from es [] in
    let kept = pretenders_from-IsKept es [] (tt, tt) in
    let (_, bounded, has_) = pretenders_from-grows k es [] in
    (
      subst (IsLatest k es) (sym (filter-values k d kept)) (
          IsLatest-in es k d (get k d) kept.0 refl (All-stamp k (timestamp_of (get k d)) es bounded)
            has_),
      values-HasKey d kept.0,
      pretenders_from-All P es [] all tt,
    )
