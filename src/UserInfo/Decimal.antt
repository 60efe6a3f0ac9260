-- ===== src/UserInfo/Decimal.antt =====
-- `str(n)` and `int(s)` of Python, for a number that is not negative.
use galaxy_integration_steam.Prelude.{
  ℕ, zero, suc, ◌+◌, ◌-◌, ◌*◌, ◌/◌, ◌%◌, ◌<◌, ◌≡◌, Bool, ◌&&◌, List, [], ◌∷◌, arith, ◌∙◌, All,
  Option, none, some, ltb, leb, if◌then◌else◌,
}

abbrev pub write_digits : ℕ → ℕ → List ℕ → List ℕ
write_digits zero n acc = acc
write_digits (suc fuel) n acc =
    let more = write_digits fuel (n / 10) ((n % 10 + 48) ∷ acc) in
    if ltb n 10 then (n + 48) ∷ acc else more

-- The decimal digits of a number; `n + 1` rounds are enough.
unfoldable pub str : ℕ → List ℕ
str n = write_digits (suc n) n []

abbrev pub is_digit : ℕ → Bool
is_digit c = leb 48 c && leb c 57

abbrev pub read_digits : ℕ → List ℕ → Option ℕ
read_digits acc [] = some acc
read_digits acc (c ∷ cs) =
    let more = read_digits (acc * 10 + (c - 48)) cs in if is_digit c then more else none

-- The number that a text of digits stands for. What else `int` accepts (blanks, a sign, `_`) is
-- taken for an error here.
unfoldable pub int : List ℕ → Option ℕ
int [] = none
int (c ∷ cs) = read_digits 0 (c ∷ cs)

read-write_digits :
    (fuel n : ℕ) (acc : List ℕ)
    → n < fuel
    → read_digits 0 (write_digits fuel n acc) ≡ read_digits n acc
read-write_digits zero n acc h = absurd (omega arith)
read-write_digits (suc fuel) n acc h =
    ground (arith, read-write_digits fuel (n / 10) ((n % 10 + 48) ∷ acc))

-- A number always has a digit.
int-write_digits :
    (fuel n : ℕ) (acc : List ℕ)
    → n < fuel
    → int (write_digits fuel n acc) ≡ read_digits 0 (write_digits fuel n acc)
unfolding int
int-write_digits zero n acc h = absurd (omega arith)
int-write_digits (suc fuel) n acc h =
    ground (arith, int-write_digits fuel (n / 10) ((n % 10 + 48) ∷ acc))

pub int-str : (n : ℕ) → int (str n) ≡ some n
unfolding str
int-str n =
    int-write_digits (suc n) n [] (omega arith) ∙ read-write_digits (suc n) n [] (omega arith)

write_digits-bytes :
    (fuel n : ℕ) (acc : List ℕ)
    → All (λ c. c < 256) acc
    → All (λ c. c < 256) (write_digits fuel n acc)
write_digits-bytes zero n acc h = h
write_digits-bytes (suc fuel) n acc h =
    ground (arith, write_digits-bytes fuel (n / 10) ((n % 10 + 48) ∷ acc))

pub str-bytes : (n : ℕ) → All (λ c. c < 256) (str n)
unfolding str
str-bytes n = write_digits-bytes (suc n) n [] tt
