-- ===== src/Local/Library.antt =====
-- The numbered library folders: the loop over them ends, and it takes each up to the first gap.
use galaxy_integration_steam.Prelude.{
  ℕ, zero, suc, ◌≤◌, ◌<◌, ◌≡◌, ◌≢◌, refl, sym, ap, ◌∙◌, List, [], ◌∷◌, Option, none, some, arith,
  if◌then◌else◌, length, true, false, Result, ok, err,
}
use galaxy_integration_steam.Prelude.Keys.{◌=?◌, nat_eq}
use galaxy_integration_steam.Prelude.Text.{Text, codes, list_eq, list_beq_iff}
use galaxy_integration_steam.Prelude.Dict.{Dict, get, has, pop, get-pop}
use galaxy_integration_steam.UserInfo.Decimal.{str, int, int-str}
use galaxy_integration_steam.Local.Folders.{
  Vdf, Entries, text, node, items, ClientError, Machine, item, folder_path, folders_from,
  read_folders, then_folder, after_get, folder_count, attribute_error,
}

some-injective : {A : Type 0} {a b : A} → some a ≡ some b → a ≡ b
some-injective h = ground (arith, h)

str-ne : (i j : ℕ) → i < j → (str i =? str j) ≡ false
str-ne i j h = ground (
  arith,
  list_beq_iff (str i) (str j),
  λ (p : str i ≡ str j). some-injective (sym (int-str i) ∙ ap int p ∙ int-str j),
)

length-pop : {V : Type 0} (k : Text) (d : Dict Text V) → length (pop k d) ≤ length d
length-pop k [] = omega arith
length-pop k ((j, v) ∷ d) = ground (arith, length-pop k d)

length-pop_of_has :
    {V : Type 0} (k : Text) (d : Dict Text V) → has k d ≡ true → length (pop k d) < length d
length-pop_of_has k [] h = ground (arith, h)
length-pop_of_has k ((j, w) ∷ d) h = ground (arith, length-pop k d, length-pop_of_has k d)

module _ (m : Machine) (d : Dict Text Vdf) where
  -- The paths are those of the entries i, i + 1, ... up to the first number without an entry.
  abbrev pub IsNumbered : ℕ → List Text → Type 0
  IsNumbered i [] = get (str i) d ≡ none
  IsNumbered i (path ∷ paths) =
      ((v : Vdf) × (get (str i) d ≡ some v) × (folder_path m v ≡ ok path))
      × IsNumbered (suc i) paths

  -- The first of the entries i, i + 1, ... that is malformed raises e; those before it have a folder.
  pub data IsRaised (e : ClientError) : ℕ → Type 0 where
    here : (i : ℕ) (v : Vdf) → get (str i) d ≡ some v → folder_path m v ≡ err e → IsRaised e i
    later :
        (i : ℕ) (v : Vdf) (path : Text)
        → get (str i) d ≡ some v
        → folder_path m v ≡ ok path
        → IsRaised e (suc i)
        → IsRaised e i

  abbrev pub IsNumberedResult : ℕ → Result ClientError (List Text) → Type 0
  IsNumberedResult i (err e) = IsRaised e i
  IsNumberedResult i (ok paths) = IsNumbered i paths

module _ (m : Machine) (d : Dict Text Vdf) (i : ℕ) where
  then_folder-IsNumbered :
      (f : Result ClientError Text) (rest : Option (Result ClientError (List Text))) (v : Vdf)
      (r : Result ClientError (List Text))
      → get (str i) d ≡ some v
      → folder_path m v ≡ f
      → rest ≡ some r
      → IsNumberedResult m d (suc i) r
      → (s : Result ClientError (List Text)) × (then_folder f rest ≡ some s)
        × IsNumberedResult m d i s
  then_folder-IsNumbered (err x) rest v r p fp q n = (err x, refl, here i v p fp)
  then_folder-IsNumbered (ok path) rest v (err x) p fp q n =
      (err x, ap (then_folder (ok path)) q, later i v path p fp n)
  then_folder-IsNumbered (ok path) rest v (ok paths) p fp q n =
      (ok (path ∷ paths), ap (then_folder (ok path)) q, ((v, p, fp), n))

  after_get-IsNumbered :
      (o : Option Vdf) (rest : Option (Result ClientError (List Text)))
      → get (str i) d ≡ o
      → (o ≢ none
          → (r : Result ClientError (List Text)) × (rest ≡ some r) × IsNumberedResult m d (suc i) r)
      → (r : Result ClientError (List Text)) × (after_get m (ok o) rest ≡ some r)
        × IsNumberedResult m d i r
  after_get-IsNumbered none rest p next = (ok [], refl, p)
  after_get-IsNumbered (some v) rest p next =
      let (r, q, n) = next (λ h. ground (arith, h)) in
      then_folder-IsNumbered (folder_path m v) rest v r p refl q n

module _ (m : Machine) (config : Vdf) where
  folders_from-suc :
      (fuel i : ℕ) (e : Entries)
      → item (codes "LibraryFolders") config ≡ ok (node e)
      → folders_from m (suc fuel) i config
        ≡ after_get m (ok (get (str i) (items e))) (folders_from m fuel (suc i) config)
  unfolding folders_from
  folders_from-suc fuel i e h = rw h refl

  folders_from-IsNumbered :
      (fuel i : ℕ) (e : Entries) (left : Dict Text Vdf)
      → item (codes "LibraryFolders") config ≡ ok (node e)
      → ((j : ℕ) → i ≤ j → get (str j) (items e) ≡ get (str j) left)
      → length left < fuel
      → (r : Result ClientError (List Text)) × (folders_from m fuel i config ≡ some r)
        × IsNumberedResult m (items e) i r
  folders_from-IsNumbered zero i e left h same lt = absurd (omega arith)
  folders_from-IsNumbered (suc fuel) i e left h same lt = rw (folders_from-suc fuel i e h) (
      after_get-IsNumbered m (items e) i (get (str i) (items e))
        (folders_from m fuel (suc i) config) refl
        (λ there.
          folders_from-IsNumbered fuel (suc i) e (pop (str i) left) h
            (λ j le.
              same j (omega arith)
              ∙ sym (
                  get-pop (str i) (str j) left
                  ∙ ap (λ b. if b then none else get (str j) left) (str-ne i j (omega arith))))
            (omega (
              arith,
              length-pop_of_has (str i) left (ground (arith, there, same i (omega arith))),
            ))))

  -- What the value of "LibraryFolders" is read as.
  abbrev pub IsReadAs : Result ClientError Vdf → Result ClientError (List Text) → Type 0
  IsReadAs (err x) r = r ≡ err x
  IsReadAs (ok (text t)) r = r ≡ err attribute_error
  IsReadAs (ok (node e)) r = IsNumberedResult m (items e) 1 r

  value-IsReadAs :
      (x : Result ClientError Vdf)
      → item (codes "LibraryFolders") config ≡ x
      → (r : Result ClientError (List Text)) × (folders_from m (suc (folder_count x)) 1 config
          ≡ some r)
        × IsReadAs x r
  unfolding folders_from
  value-IsReadAs (err x) h = (err x, rw h refl, refl)
  value-IsReadAs (ok (text t)) h = (err attribute_error, rw h refl, refl)
  value-IsReadAs (ok (node e)) h =
      folders_from-IsNumbered (suc (length (items e))) 1 e (items e) h (λ j le. refl) (omega arith)

  -- The loop over the numbers 1, 2, ... always ends. It takes the folder of each number up to the first
  -- that has no entry, in this order, or raises what the first malformed one of these entries raises; where the configuration
  -- has no such dictionary, what is raised is the KeyError or TypeError of the lookup, or the
  -- AttributeError of a text.
  pub read_folders-IsReadAs :
      (r : Result ClientError (List Text)) × (read_folders m config ≡ some r)
      × IsReadAs (item (codes "LibraryFolders") config) r
  unfolding read_folders
  read_folders-IsReadAs = value-IsReadAs (item (codes "LibraryFolders") config) refl
