-- ===== src/Wire/Bytes.antt =====
-- `struct.pack` and `struct.unpack` at the formats "<I" and "<Q" that protobuf_client.py and
-- steam_types.py use. Bytes are numbers below 256.
use galaxy_integration_steam.Prelude.{
  ℕ, ◌+◌, ◌*◌, ◌/◌, ◌%◌, ◌^◌, ◌<◌, ◌≡◌, refl, List, [], ◌∷◌, arith, Result, ok, err, ltb,
  if◌then◌else◌, length, All,
}

abbrev pub Bytes : Type 0
Bytes = List ℕ

-- What the protocol code raises: `struct.error`, protobuf's `DecodeError`, `ValueError` of an enum
-- without such a member, `AttributeError`, the errors of decompression, and
-- `RecursionError` where bundles are nested deeper than the interpreter allows.
pub data WireError : Type 0 where
  struct_error decode_error value_error attribute_error gzip_error recursion_error : WireError

-- struct.pack("<I", n)
unfoldable pub pack_u32 : ℕ → Result WireError Bytes
pack_u32 n =
    if ltb n (2 ^ 32)
    then ok (n % 256 ∷ n / 256 % 256 ∷ n / 65536 % 256 ∷ n / 16777216 ∷ [])
    else err struct_error

-- struct.unpack("<I", data)[0]
unfoldable pub unpack_u32 : Bytes → Result WireError ℕ
unpack_u32 (a ∷ b ∷ c ∷ d ∷ []) = ok (a + b * 256 + c * 65536 + d * 16777216)
unpack_u32 _ = err struct_error

-- The four bytes of a number that fits.
abbrev pub u32_bytes : ℕ → Bytes
u32_bytes n = n % 256 ∷ n / 256 % 256 ∷ n / 65536 % 256 ∷ n / 16777216 ∷ []

pub pack_u32-eq-ok : (n : ℕ) → n < 2 ^ 32 → pack_u32 n ≡ ok (u32_bytes n)
unfolding pack_u32
pack_u32-eq-ok n h = ground arith

pub pack_u32-eq-err : (n : ℕ) → ¬ (n < 2 ^ 32) → pack_u32 n ≡ err struct_error
unfolding pack_u32
pack_u32-eq-err n h = ground arith

pub unpack_u32-u32_bytes : (n : ℕ) → unpack_u32 (u32_bytes n) ≡ ok n
unfolding unpack_u32
unpack_u32-u32_bytes n = ground arith

abbrev pub IsByte : ℕ → Type 0
IsByte b = b < 256

-- Four bytes always make a number below 2 ^ 32.
pub unpack_u32-lt : (bs : Bytes) (n : ℕ) → All IsByte bs → unpack_u32 bs ≡ ok n → n < 2 ^ 32
unfolding unpack_u32
unpack_u32-lt (a ∷ b ∷ c ∷ d ∷ []) n h e = ground arith
unpack_u32-lt [] n h e = ground arith
unpack_u32-lt _ n h e = ground arith

-- Anything that is not four bytes long is refused.
pub unpack_u32-short : (bs : Bytes) → length bs < 4 → unpack_u32 bs ≡ err struct_error
unfolding unpack_u32
unpack_u32-short [] h = refl
unpack_u32-short (a ∷ []) h = refl
unpack_u32-short (a ∷ b ∷ []) h = refl
unpack_u32-short (a ∷ b ∷ c ∷ []) h = refl
unpack_u32-short (a ∷ b ∷ c ∷ d ∷ r) h = absurd (omega arith)
