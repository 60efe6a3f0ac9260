-- ===== src/LevelDb/Kept.antt =====
-- The dictionary of the entries that are kept: each under its own key, and once.
use mathlib.Core.Path.{subst}
use galaxy_integration_steam.Prelude.{
  ℕ, ◌≡◌, refl, ap, ◌∙◌, Bool, true, false, not, List, [], ◌∷◌, Option, none, some, arith, ltb, All,
  if_intro, filter, sym, Bool-cases, inl, inr,
}
use galaxy_integration_steam.Prelude.Keys.{◌=?◌, nat_eq}
use galaxy_integration_steam.Prelude.Text.{Text, list_eq, list_beq_iff}
use galaxy_integration_steam.Prelude.Dict.{
  Dict, get, has, put, values, HasUniqueKeys, put-HasUniqueKeys,
}
use galaxy_integration_steam.LevelDb.Defs.{Entry, timestamp_of, keep, pretenders_from}

module _ (k : Text) where
  -- An entry with the key and a timestamp.
  abbrev pub lists : Option Text → Option ℕ → Bool
  lists (some j) (some t) = j =? k
  lists _ _ = false

  abbrev pub is_listed : Entry → Bool
  is_listed e = lists e.key e.timestamp

-- Each entry of the dictionary has its key, and a timestamp.
abbrev pub Keyed : Dict Text Entry → Type 0
Keyed [] = Unit
Keyed ((j, e) ∷ d) = (is_listed j e ≡ true) × Keyed d

lists_self : (k : Text) (t : ℕ) → lists k (some k) (some t) ≡ true
lists_self k t = ground (arith, list_beq_iff k k)

put-Keyed :
    (k : Text) (e : Entry) (d : Dict Text Entry)
    → is_listed k e ≡ true
    → Keyed d
    → Keyed (put k e d)
put-Keyed k e [] l h = (l, tt)
put-Keyed k e ((j, x) ∷ d) l h =
    if_intro Keyed (j =? k)
      (λ same. (subst (λ i. is_listed i e ≡ true) (sym ((list_beq_iff j k).0 same)) l, h.1))
      (λ _. (h.0, put-Keyed k e d l h.1))

-- A dictionary of kept entries.
abbrev pub IsKept : Dict Text Entry → Type 0
IsKept d = Keyed d × HasUniqueKeys d

keep-IsKept :
    (key : Option Text) (timestamp : Option ℕ) (e : Entry) (d : Dict Text Entry)
    → e.key ≡ key
    → e.timestamp ≡ timestamp
    → IsKept d
    → IsKept (keep key timestamp e d)
keep-IsKept none timestamp e d p q h = h
keep-IsKept (some k) none e d p q h = h
keep-IsKept (some k) (some t) e d p q h =
    let listed : is_listed k e ≡ true =
      ap (λ o. lists k o e.timestamp) p ∙ ap (lists k (some k)) q ∙ lists_self k t in
    let after : IsKept (put k e d) = (put-Keyed k e d listed h.0, put-HasUniqueKeys k e d h.1) in
    if_intro IsKept (not (has k d)) (λ _. after)
      (λ _. if_intro IsKept (ltb (timestamp_of (get k d)) t) (λ _. after) (λ _. h))

pub pretenders_from-IsKept :
    (es : List Entry) (d : Dict Text Entry) → IsKept d → IsKept (pretenders_from es d)
pretenders_from-IsKept [] d h = h
pretenders_from-IsKept (e ∷ es) d h =
    pretenders_from-IsKept es (keep e.key e.timestamp e d)
      (keep-IsKept e.key e.timestamp e d refl refl h)

abbrev pub as_list : Option Entry → List Entry
as_list none = []
as_list (some e) = e ∷ []

lists-other :
    (j k : Text) (key : Option Text) (timestamp : Option ℕ)
    → lists j key timestamp ≡ true
    → lists k key timestamp ≡ (j =? k)
lists-other j k none timestamp h = ground (arith, h)
lists-other j k (some i) none h = ground (arith, h)
lists-other j k (some i) (some t) h = ap (λ x. x =? k) ((list_beq_iff i j).0 h)

get-none : (k : Text) (d : Dict Text Entry) → has k d ≡ false → get k d ≡ none
get-none k d h = ground (arith, h)

-- The entries with a key are what the dictionary has under it.
pub filter-values :
    (k : Text) (d : Dict Text Entry)
    → IsKept d
    → filter (is_listed k) (values d) ≡ as_list (get k d)
filter-values k [] h = refl
filter-values k ((j, e) ∷ d) ((l, keyed), (alone, unique)) =
    let rest = filter-values k d (keyed, unique) in
    let other = lists-other j k e.key e.timestamp l in
    elim (Bool-cases (j =? k)) [
      | inl p ↦ rw (other ∙ p) (
          rw p (
            ap (λ l. e ∷ l)
              (rest
                ∙ ap as_list
                    (get-none k d (subst (λ i. has i d ≡ false) ((list_beq_iff j k).0 p) alone)))))
      | inr p ↦ rw (other ∙ p) (rw p rest)
    ]

abbrev has_key : Option Text → Option ℕ → Bool
has_key (some k) (some t) = true
has_key _ _ = false

has_key-lists :
    (j : Text) (key : Option Text) (timestamp : Option ℕ)
    → lists j key timestamp ≡ true
    → has_key key timestamp ≡ true
has_key-lists j none timestamp h = ground (arith, h)
has_key-lists j (some i) none h = ground (arith, h)
has_key-lists j (some i) (some t) h = refl

abbrev pub HasKey : Entry → Type 0
HasKey e = has_key e.key e.timestamp ≡ true

pub values-HasKey : (d : Dict Text Entry) → Keyed d → All HasKey (values d)
values-HasKey [] h = tt
values-HasKey ((j, e) ∷ d) (l, h) = (has_key-lists j e.key e.timestamp l, values-HasKey d h)

pub is_listed-get :
    (k : Text) (d : Dict Text Entry) (e : Entry) → Keyed d → get k d ≡ some e → is_listed k e ≡ true
is_listed-get k [] e h p = ground (arith, p)
is_listed-get k ((j, x) ∷ d) e (l, h) p = elim (Bool-cases (j =? k)) [
  | inl q ↦
      let same : x ≡ e = ground (arith, p, q) in
      subst (λ y. is_listed k y ≡ true) same (lists-other j k x.key x.timestamp l ∙ q)
  | inr q ↦ is_listed-get k d e h (ground (arith, p, q))
]
