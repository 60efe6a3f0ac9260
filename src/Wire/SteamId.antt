-- ===== src/Wire/SteamId.antt =====
-- `SteamId.parse` of src/steam_network/protocol/steam_types.py: the four fields of a 64-bit id.
use galaxy_integration_steam.Prelude.{
  ℕ, ◌+◌, ◌*◌, ◌/◌, ◌%◌, ◌^◌, ◌<◌, ◌≡◌, arith, Result, ok, err, ltb, if◌then◌else◌,
}
use galaxy_integration_steam.Wire.Bytes.{WireError, struct_error}

pub record SteamId : Type 0 where
  pub id_ : ℕ
  pub instance_ : ℕ
  pub type_ : ℕ
  pub universe : ℕ

-- `struct.pack("<Q", steam_id)` raises where the id does not fit, and unpacking by "<II" gives its
-- two halves.
pub parse : ℕ → Result WireError SteamId
parse steam_id =
    if ltb steam_id (2 ^ 64)
    then (let rest = steam_id / 2 ^ 32 in
        ok (record {
          id_ = steam_id % 2 ^ 32;
          instance_ = rest % 2 ^ 20;
          type_ = rest / 2 ^ 20 % 2 ^ 4;
          universe = rest / 2 ^ 24;
        }))
    else err struct_error

pub record InRange (s : SteamId) : Type 0 where
  pub id_fits : s.id_ < 2 ^ 32
  pub instance_fits : s.instance_ < 2 ^ 20
  pub type_fits : s.type_ < 2 ^ 4
  pub universe_fits : s.universe < 2 ^ 8

-- The number that the four fields stand for, as the docstring of the class lays them out.
abbrev pub layout : SteamId → ℕ
layout s = s.id_ + s.instance_ * 2 ^ 32 + s.type_ * 2 ^ 52 + s.universe * 2 ^ 56

-- A 64-bit id is read into fields that fit their widths and stand for that id.
pub layout-parse :
    (n : ℕ) → n < 2 ^ 64 → (s : SteamId) × (parse n ≡ ok s) × InRange s × (layout s ≡ n)
unfolding parse
layout-parse n h = (
  record {
    id_ = n % 2 ^ 32;
    instance_ = n / 2 ^ 32 % 2 ^ 20;
    type_ = n / 2 ^ 32 / 2 ^ 20 % 2 ^ 4;
    universe = n / 2 ^ 32 / 2 ^ 24;
  },
  ground arith,
  omega arith,
  omega arith,
)

-- Fields that fit their widths are read back from the number that they stand for.
pub parse-layout : (s : SteamId) → InRange s → parse (layout s) ≡ ok s
unfolding parse
parse-layout s h = ground arith
