-- ===== src/LevelDb/Total.antt =====
-- `parse_leveldb` always comes to an end.
use galaxy_integration_steam.Prelude.{
  ℕ, ◌≡◌, refl, ap, Bool, true, false, List, [], ◌∷◌, Option, none, some, arith, if◌then◌else◌,
  Result, ok, err, ◌>>=◌, or_raise, if_intro, elim_intro,
}
use galaxy_integration_steam.Prelude.Text.{Text}
use galaxy_integration_steam.UserInfo.Defs.{is_some}
use galaxy_integration_steam.Friends.Defs.{is_empty}
use galaxy_integration_steam.LevelDb.Defs.{Entry, Loaded, LoadError}
use galaxy_integration_steam.LevelDb.Log.{
  find, find_meta_pairs, pair_utf_8, pair_utf_16, Encoding, utf_8, Stop, out_of_fuel, raised,
  Section, found_meta_entries, user_section, last_first, find_last_meta_miniprofile_pair, or_next,
  last_pair, seen_encoding,
}
use galaxy_integration_steam.LevelDb.Meta.{find_meta_pairs-occurrences}
use galaxy_integration_steam.LevelDb.Jsons.{
  entries_in, read_again, is_utf_8, finish, read_entries, Parser, parse_leveldb,
}
use galaxy_integration_steam.LevelDb.Decode.{Advances, retrieve_jsons-IsFrom}

-- The fuel is not out.
abbrev has_fuel {ℓ} : {A : Type ℓ} → Result Stop A → Bool
has_fuel (ok a) = true
has_fuel (err out_of_fuel) = false
has_fuel (err raised) = true

has_fuel->>= :
    {A B : Type 0} (m : Result Stop A) (f : A → Result Stop B)
    → has_fuel m ≡ true
    → ((a : A) → has_fuel (f a) ≡ true)
    → has_fuel (m >>= f) ≡ true
has_fuel->>= (ok a) f h k = k a
has_fuel->>= (err out_of_fuel) f h k = h
has_fuel->>= (err raised) f h k = refl

has_fuel-or_next :
    (user : Text) (found : Option (List ℕ)) (next : Result Stop (List ℕ × Text))
    → is_some found ≡ true
    → has_fuel next ≡ true
    → has_fuel (or_next user found next) ≡ true
has_fuel-or_next user none next f h = ground (arith, f)
has_fuel-or_next user (some []) next f h = h
has_fuel-or_next user (some (p ∷ ps)) next f h = refl

has_fuel-last_pair :
    (user : Text) (found : Option (List ℕ))
    → is_some found ≡ true
    → has_fuel (last_pair user found) ≡ true
has_fuel-last_pair user none f = ground (arith, f)
has_fuel-last_pair user (some ps) f = refl

is_some-find_meta_pairs :
    (meta log : Text) → is_empty meta ≡ false → is_some (find_meta_pairs meta log) ≡ true
is_some-find_meta_pairs [] log h = ground (arith, h)
is_some-find_meta_pairs (c ∷ s) log h = ap is_some (find_meta_pairs-occurrences c s log)

has_fuel-found_meta_entries : (i : ℕ) (log : Text) → has_fuel (found_meta_entries i log) ≡ true
unfolding found_meta_entries
has_fuel-found_meta_entries i log =
    let (m1, u1) = pair_utf_8 i in
    let (m2, u2) = pair_utf_16 false i in
    let (m3, u3) = pair_utf_16 true i in
    has_fuel-or_next u1 (find_meta_pairs m1 log)
      (or_next u2 (find_meta_pairs m2 log) (last_pair u3 (find_meta_pairs m3 log)))
      (is_some-find_meta_pairs m1 log refl)
      (has_fuel-or_next u2 (find_meta_pairs m2 log) (last_pair u3 (find_meta_pairs m3 log))
        (is_some-find_meta_pairs m2 log refl)
        (has_fuel-last_pair u3 (find_meta_pairs m3 log) (is_some-find_meta_pairs m3 log refl)))

has_fuel-user_section :
    (log user : Text) (entries : List (ℕ × Option ℕ)) (e : Encoding)
    → has_fuel (user_section log user entries e) ≡ true
unfolding user_section
has_fuel-user_section log user [] e = refl
has_fuel-user_section log user ((p, next) ∷ entries) e =
    elim_intro (λ (r : Result Stop Section). has_fuel r ≡ true) (seen_encoding log p e)
      (λ _. has_fuel-user_section log user entries e)
      (λ f _.
        elim_intro (λ (r : Result Stop Section). has_fuel r ≡ true) (find user log p)
          (λ _. has_fuel-user_section log user entries f) (λ u _. refl))

has_fuel-find_last_meta_miniprofile_pair :
    (i : ℕ) (log : Text) → has_fuel (find_last_meta_miniprofile_pair i log) ≡ true
unfolding find_last_meta_miniprofile_pair
has_fuel-find_last_meta_miniprofile_pair i log =
    has_fuel->>= (found_meta_entries i log)
      (λ (f : List ℕ × Text). user_section log f.1 (last_first f.0 []) utf_8)
      (has_fuel-found_meta_entries i log)
      (λ f. has_fuel-user_section log f.1 (last_first f.0 []) utf_8)

has_fuel-or_raise : {A : Type 0} (o : Option A) → has_fuel (or_raise o raised) ≡ true
has_fuel-or_raise none = refl
has_fuel-or_raise (some a) = refl

module _ (raw_decode : Text → Option (Entry × ℕ)) (advances : Advances raw_decode) where
  has_fuel-entries_in : (log : Text) (s : Section) → has_fuel (entries_in raw_decode log s) ≡ true
  unfolding entries_in
  has_fuel-entries_in log s =
      let (es, q, _) = retrieve_jsons-IsFrom raw_decode log s.start s.stop advances in
      ap (λ o. has_fuel (or_raise o out_of_fuel)) q

  has_fuel-read_again :
      (i : ℕ) (log_utf_16 : Option Text) → has_fuel (read_again raw_decode i log_utf_16) ≡ true
  unfolding read_again
  has_fuel-read_again i none = refl
  has_fuel-read_again i (some log) =
      has_fuel->>= (find_last_meta_miniprofile_pair i log) (entries_in raw_decode log)
        (has_fuel-find_last_meta_miniprofile_pair i log) (has_fuel-entries_in log)

  has_fuel-read_entries :
      (i : ℕ) (log_utf_8 log_utf_16 : Option Text)
      → has_fuel (read_entries raw_decode i log_utf_8 log_utf_16) ≡ true
  unfolding read_entries
  has_fuel-read_entries i none log_utf_16 = refl
  has_fuel-read_entries i (some log) log_utf_16 =
      has_fuel->>= (find_last_meta_miniprofile_pair i log)
        (λ (s : Section).
          if is_utf_8 s.encoding
          then entries_in raw_decode log s
          else read_again raw_decode i log_utf_16)
        (has_fuel-find_last_meta_miniprofile_pair i log)
        (λ s.
          if_intro (λ (r : Result Stop (List Entry)). has_fuel r ≡ true) (is_utf_8 s.encoding)
            (λ _. has_fuel-entries_in log s) (λ _. has_fuel-read_again i log_utf_16))

  -- With a decoder whose values end after they start, `parse_leveldb` comes to an end on every log.
  pub parse_leveldb-total :
      (loads : Text → Option Loaded) (i : ℕ) (log_utf_8 log_utf_16 : Option Text) (p : Parser)
      → (r : Parser × Result LoadError Parser) × (parse_leveldb raw_decode loads i log_utf_8
            log_utf_16 p
          ≡ some r)
  unfolding parse_leveldb
  parse_leveldb-total loads i log_utf_8 log_utf_16 p =
      parsed (read_entries raw_decode i log_utf_8 log_utf_16)
        (has_fuel-read_entries i log_utf_8 log_utf_16)
    where
      parsed :
          (r : Result Stop (List Entry))
          → has_fuel r ≡ true
          → (s : Parser × Result LoadError Parser) × (finish loads p r ≡ some s)
      parsed (ok es) h = (_, refl)
      parsed (err raised) h = (_, refl)
      parsed (err out_of_fuel) h = ground (arith, h)
