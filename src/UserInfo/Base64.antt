-- ===== src/UserInfo/Base64.antt =====
-- `base64.b64encode` and `b64decode` of Python's library, as user_info_cache.py and
-- local_machine_cache.py use them, on the standard alphabet with padding.
use galaxy_integration_steam.Prelude.{
  ℕ, ◌+◌, ◌-◌, ◌*◌, ◌/◌, ◌%◌, ◌<◌, ◌≡◌, refl, false, ◌&&◌, List, [], ◌∷◌, arith, Option, none, some,
  ◌==◌, ltb, leb, if◌then◌else◌, All,
}

-- The character of a 6-bit value.
unfoldable pub digit : ℕ → ℕ
digit v =
    if ltb v 26
    then v + 65
    else if ltb v 52
    then v + 71
    else if ltb v 62
    then v - 4
    else if v == 62
    then 43
    else 47

-- The value of a character; `none` for one outside the alphabet.
unfoldable pub value : ℕ → Option ℕ
value c =
    if leb 65 c && leb c 90
    then some (c - 65)
    else if leb 97 c && leb c 122
    then some (c - 71)
    else if leb 48 c && leb c 57
    then some (c + 4)
    else if c == 43
    then some 62
    else if c == 47
    then some 63
    else none

abbrev pad : ℕ
pad = 61

unfoldable pub encode : List ℕ → List ℕ
encode [] = []
encode (a ∷ []) = digit (a / 4) ∷ digit (a % 4 * 16) ∷ pad ∷ pad ∷ []
encode (a ∷ b ∷ []) = digit (a / 4) ∷ digit (a % 4 * 16 + b / 16) ∷ digit (b % 16 * 4) ∷ pad ∷ []
encode (a ∷ b ∷ c ∷ r) =
    digit (a / 4)
    ∷ digit (a % 4 * 16 + b / 16)
    ∷ digit (b % 16 * 4 + c / 64)
    ∷ digit (c % 64)
    ∷ encode r

-- The bytes of a group of four characters, of which the last two may be padding.
abbrev group : Option ℕ → Option ℕ → Option ℕ → Option ℕ → List ℕ → Option (List ℕ)
group (some w) (some x) (some y) (some z) r =
    some ((w * 4 + x / 16) ∷ (x % 16 * 16 + y / 4) ∷ (y % 4 * 64 + z) ∷ r)
group _ _ _ _ r = none

abbrev last_two : Option ℕ → Option ℕ → Option ℕ → Option (List ℕ)
last_two (some w) (some x) (some y) = some ((w * 4 + x / 16) ∷ (x % 16 * 16 + y / 4) ∷ [])
last_two _ _ _ = none

abbrev last_one : Option ℕ → Option ℕ → Option (List ℕ)
last_one (some w) (some x) = some ((w * 4 + x / 16) ∷ [])
last_one _ _ = none

-- The text that `encode` writes is read back; anything else may be refused.
unfoldable pub decode : List ℕ → Option (List ℕ)
decode [] = some []
decode (p ∷ q ∷ r ∷ s ∷ rest) =
    let more = decode rest in
    if s == pad
    then (if r == pad then last_one (value p) (value q) else last_two (value p) (value q) (value r))
    else elim more [ none ↦ none | some bs ↦ group (value p) (value q) (value r) (value s) bs ]
decode _ = none

value-digit : (v : ℕ) → v < 64 → value (digit v) ≡ some v
unfolding digit value
value-digit v h = ground arith

digit-ne-pad : (v : ℕ) → v < 64 → (digit v == pad) ≡ false
unfolding digit
digit-ne-pad v h = ground arith

abbrev pub IsByte : ℕ → Type 0
IsByte b = b < 256

pub decode-encode : (bs : List ℕ) → All IsByte bs → decode (encode bs) ≡ some bs
unfolding encode decode
decode-encode [] h = refl
decode-encode (a ∷ []) h =
    rw (value-digit (a / 4) (omega arith))
      (rw (value-digit (a % 4 * 16) (omega arith)) (ground arith))
decode-encode (a ∷ b ∷ []) h = rw (digit-ne-pad (b % 16 * 4) (omega arith)) (
    rw (value-digit (a / 4) (omega arith)) (
      rw (value-digit (a % 4 * 16 + b / 16) (omega arith))
        (rw (value-digit (b % 16 * 4) (omega arith)) (ground arith))))
decode-encode (a ∷ b ∷ c ∷ r) h = rw (digit-ne-pad (c % 64) (omega arith)) (
    rw (decode-encode r h.1.1.1) (
      rw (value-digit (a / 4) (omega arith)) (
        rw (value-digit (a % 4 * 16 + b / 16) (omega arith)) (
          rw (value-digit (b % 16 * 4 + c / 64) (omega arith))
            (rw (value-digit (c % 64) (omega arith)) (ground arith))))))
