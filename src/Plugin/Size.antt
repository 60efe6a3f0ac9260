-- ===== src/Plugin/Size.antt =====
-- The size that a well-formed manifest gives a game.
use galaxy_integration_steam.Prelude.{
  ℕ, ◌+◌, ◌-◌, ◌*◌, ◌≡◌, refl, ap, ◌∙◌, Bool, true, false, [], ◌∷◌, none, some, arith,
  if◌then◌else◌, ok, err, ◌>>=◌,
}
use galaxy_integration_steam.Prelude.Int.{ℤ, pos}
use galaxy_integration_steam.Prelude.Keys.{nat_eq}
use galaxy_integration_steam.Prelude.Text.{Text, codes, list_eq}
use galaxy_integration_steam.Prelude.Dict.{Dict, get}
use galaxy_integration_steam.UserInfo.Decimal.{str, int, read_digits, int-str}
use galaxy_integration_steam.Local.Folders.{Vdf, text, Machine, value_error, item}
use galaxy_integration_steam.Plugin.Manifest.{
  strip_start, strip_end, digits, signed, int_of, are_state_flags, is_fully_installed,
  fully_installed, as_int, state_size, none_if_raised, manifest_size, size_at, get_local_size,
}

-- Digits are read as they are.
strip_end_of_digits : (acc n : ℕ) (cs : Text) → read_digits acc cs ≡ some n → strip_end cs ≡ cs
strip_end_of_digits acc n [] h = refl
strip_end_of_digits acc n (c ∷ cs) h =
    ground (arith, strip_end_of_digits (acc * 10 + (c - 48)) n cs, h)

digits_of_digits :
    (acc n : ℕ) (cs : Text) → read_digits acc cs ≡ some n → digits true acc cs ≡ some n
digits_of_digits acc n [] h = h
digits_of_digits acc n (c ∷ cs) h = ground (arith, digits_of_digits (acc * 10 + (c - 48)) n cs, h)

signed_of_digits :
    (c n : ℕ) (cs : Text) → read_digits 0 (c ∷ cs) ≡ some n → signed (c ∷ cs) ≡ some (pos n)
signed_of_digits c n cs h = ground (arith, digits_of_digits (0 * 10 + (c - 48)) n cs, h)

strip_start_of_digits :
    (c n : ℕ) (cs : Text) → read_digits 0 (c ∷ cs) ≡ some n → strip_start (c ∷ cs) ≡ c ∷ cs
strip_start_of_digits c n cs h = ground (arith, h)

int_of-int : (t : Text) (n : ℕ) → int t ≡ some n → int_of t ≡ some (pos n)
unfolding int int_of
int_of-int [] n h = ground (arith, h)
int_of-int (c ∷ cs) n h =
    ap (λ t. signed (strip_end t)) (strip_start_of_digits c n cs h)
    ∙ ap signed (strip_end_of_digits 0 n (c ∷ cs) h)
    ∙ signed_of_digits c n cs h

pub int_of-str : (n : ℕ) → int_of (str n) ≡ some (pos n)
int_of-str n = int_of-int (str n) n (int-str n)

-- A manifest whose "AppState" holds these three numbers.
abbrev pub HasNumbers : Vdf → ℕ → ℕ → ℕ → Type 0
HasNumbers app_state flags size downloaded =
    (item (codes "StateFlags") app_state ≡ ok (text (str flags)))
    × (item (codes "SizeOnDisk") app_state ≡ ok (text (str size)))
    × (item (codes "BytesDownloaded") app_state ≡ ok (text (str downloaded)))

state_size-HasNumbers :
    (app_state : Vdf) (flags size downloaded : ℕ)
    → HasNumbers app_state flags size downloaded
    → state_size app_state ≡ (
        if are_state_flags flags
        then ok (pos (if is_fully_installed flags then size else downloaded))
        else err value_error)
unfolding state_size as_int fully_installed
state_size-HasNumbers app_state flags size downloaded (f, s, d) =
    rw f (rw int_of-str (by_flags (are_state_flags flags) (is_fully_installed flags)))
  where
    by_flags :
        (valid full : Bool)
        → ((if valid then ok full else err value_error) >>= λ full.
            item (if full then codes "SizeOnDisk" else codes "BytesDownloaded") app_state
            >>= as_int)
          ≡ (if valid then ok (pos (if full then size else downloaded)) else err value_error)
    by_flags false full = refl
    by_flags true true = rw s (rw int_of-str refl)
    by_flags true false = rw d (rw int_of-str refl)

manifest_size-loaded :
    (m : Machine) (path : Text) (manifest app_state : Vdf)
    → m.load_vdf path ≡ ok manifest
    → item (codes "AppState") manifest ≡ ok app_state
    → manifest_size m path ≡ state_size app_state
unfolding manifest_size
manifest_size-loaded m path manifest app_state l a = rw l (rw a refl)

-- For a game whose manifest has the three numbers the size is `SizeOnDisk` if the flag of a full
-- installation is among the flags and `BytesDownloaded` if not, and there is none if the number of the
-- flags has a bit that is no flag.
pub get_local_size-HasNumbers :
    (m : Machine) (game_id path : Text) (context : Dict Text Text) (manifest app_state : Vdf)
    (flags size downloaded : ℕ)
    → get game_id context ≡ some path
    → m.load_vdf path ≡ ok manifest
    → item (codes "AppState") manifest ≡ ok app_state
    → HasNumbers app_state flags size downloaded
    → get_local_size m game_id context ≡ (
        if are_state_flags flags
        then some (pos (if is_fully_installed flags then size else downloaded))
        else none)
unfolding get_local_size
get_local_size-HasNumbers m game_id path context manifest app_state flags size downloaded there l a
      h =
    ap (size_at m) there
    ∙ ap none_if_raised (
        manifest_size-loaded m path manifest app_state l a
        ∙ state_size-HasNumbers app_state flags size downloaded h)
    ∙ by_flags (are_state_flags flags) (pos (if is_fully_installed flags then size else downloaded))
  where
    by_flags :
        (b : Bool) (n : ℤ)
        → none_if_raised (if b then ok n else err value_error) ≡ (if b then some n else none)
    by_flags true n = refl
    by_flags false n = refl
