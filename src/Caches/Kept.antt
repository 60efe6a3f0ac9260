-- ===== src/Caches/Kept.antt =====
-- What is put into a cache is found again by its fingerprint, and a cache survives its dictionary.
use galaxy_integration_steam.Prelude.{
  ◌≡◌, ◌∙◌, refl, ap, sym, false, List, [], ◌∷◌, ◌++◌, none, some, arith, if◌then◌else◌, ok, map,
  All, append_assoc, append-nil,
}
use galaxy_integration_steam.Prelude.Keys.{Eq, ◌=?◌, nat_eq}
use galaxy_integration_steam.Prelude.Text.{Text, list_eq}
use galaxy_integration_steam.Prelude.Dict.{
  Dict, has, get-put, put-fresh, has-append_one, HasUniqueKeys,
}
use galaxy_integration_steam.Caches.Entries.{
  CacheEntry, get_value, update_value, Fingerprint, Stored, Classes, Cache, as_stored, as_dict,
  read_achievements, read_stored, from_dict,
}

module _ {K V W : Type 0} ⦃e : Eq K⦄ where
  abbrev IsFreshIn : Dict K V → Dict K W → Type 0
  IsFreshIn r = All (λ (p : K × W). has p.0 r ≡ false)

  IsFreshIn-append_one :
      (k : K) (v : V) (r : Dict K V) (d : Dict K W)
      → IsFreshIn r d
      → has k d ≡ false
      → IsFreshIn (r ++ (k, v) ∷ []) d
  IsFreshIn-append_one k v r [] h p = tt
  IsFreshIn-append_one k v r ((j, w) ∷ d) (h, hs) p = (
    has-append_one j k v r h (ground (arith, p, e.beq_iff k j, e.beq_iff j k)),
    IsFreshIn-append_one k v r d hs (ground (arith, p)),
  )

nothing-IsFresh : {K W : Type 0} ⦃e : Eq K⦄ → (V : Type 0) (d : Dict K W) → IsFreshIn {V = V} [] d
nothing-IsFresh V [] = tt
nothing-IsFresh V (p ∷ d) = (refl, nothing-IsFresh V d)

module _ {K V F : Type 0} ⦃e : Eq K⦄ ⦃f : Eq F⦄ where
  -- An update is found by its key and its fingerprint, and by no other fingerprint; what is kept under
  -- other keys stays.
  pub get_value-update_value :
      (k j : K) (value : V) (fp fp' : F) (c : Dict K (CacheEntry V F))
      → get_value j fp' (update_value k value fp c)
        ≡ (if k =? j then (if fp =? fp' then some value else none) else get_value j fp' c)
  unfolding get_value update_value
  get_value-update_value k j value fp fp' c =
      ground (arith, get-put k j (record { value = value; fingerprint = fp }) c)

module _ {A D : Type 0} (classes : Classes A D) where
  abbrev all_stored : Cache A → Dict Text (Stored D)
  all_stored = map (λ (p : Text × CacheEntry (List A) Fingerprint). (p.0, as_stored classes p.1))

  as_dict-eq :
      (c : Cache A) (d : Dict Text (Stored D))
      → HasUniqueKeys c
      → IsFreshIn d c
      → as_dict classes c d ≡ d ++ all_stored c
  unfolding as_dict
  as_dict-eq [] d unique fresh = sym (append-nil d)
  as_dict-eq ((k, entry) ∷ c) d (new, unique) (fresh, freshes) =
      rw (put-fresh k (as_stored classes entry) d fresh) (
        as_dict-eq c (d ++ (k, as_stored classes entry) ∷ []) unique
          (IsFreshIn-append_one k (as_stored classes entry) d c freshes new)
        ∙ append_assoc d ((k, as_stored classes entry) ∷ []) (all_stored c))

  -- What Galaxy's classes write they read.
  abbrev pub IsRead : Type 0
  IsRead =
      ((a : A) → classes.achievement (classes.asdict a) ≡ some a)
      × ((fp : Fingerprint) → classes.read_fingerprint (classes.fingerprint_asdict fp) ≡ some fp)

  read_achievements-map :
      IsRead → (as' : List A) → read_achievements classes (map classes.asdict as') ≡ ok as'
  read_achievements-map h [] = refl
  read_achievements-map h (a ∷ as') = ground (arith, h.0 a, read_achievements-map h as')

  read_stored-as_stored :
      IsRead
      → (entry : CacheEntry (List A) Fingerprint)
      → read_stored classes (as_stored classes entry) ≡ ok entry
  unfolding read_stored
  read_stored-as_stored h entry =
      ground (arith, read_achievements-map h entry.value, h.1 entry.fingerprint)

  from_dict-eq :
      IsRead
      → (c r : Cache A) → HasUniqueKeys c
      → IsFreshIn r c
      → from_dict classes (all_stored c) r ≡ ok (r ++ c)
  unfolding from_dict update_value
  from_dict-eq h [] r unique fresh = ap ok (sym (append-nil r))
  from_dict-eq h ((k, entry) ∷ c) r (new, unique) (fresh, freshes) =
      rw (read_stored-as_stored h entry) rw (put-fresh k entry r fresh) (
        from_dict-eq h c (r ++ (k, entry) ∷ []) unique
          (IsFreshIn-append_one k entry r c freshes new)
        ∙ ap ok (append_assoc r ((k, entry) ∷ []) c))

  -- A cache of achievements that is stored as a dictionary is read back, with its order, if Galaxy's
  -- classes read what they write. The cache is a dictionary, whose keys are different.
  pub from_dict-as_dict :
      IsRead → (c : Cache A) → HasUniqueKeys c → from_dict classes (as_dict classes c []) [] ≡ ok c
  from_dict-as_dict h c unique =
      rw (as_dict-eq c [] unique (nothing-IsFresh (Stored D) c))
        (from_dict-eq h c [] unique (nothing-IsFresh (CacheEntry (List A) Fingerprint) c))
