-- ===== src/Wire/Multi.antt =====
-- The loop of `ProtobufClient._process_multi`: a bundle of length-prefixed packets.
use galaxy_integration_steam.Prelude.{
  ℕ, zero, suc, ◌+◌, ◌*◌, ◌<◌, ◌≡◌, refl, List, [], ◌∷◌, ◌++◌, append_assoc, true, false, arith,
  Result, ok, err, Option, none, some, leb, length, take, drop, length-drop, length-append,
  take-append_length, drop-append_length,
}
use mathlib.Core.Path.{subst}
use galaxy_integration_steam.Wire.Bytes.{
  Bytes, WireError, u32_bytes, unpack_u32, unpack_u32-u32_bytes,
}

-- The packets that one round and the rounds after it hand over, given what the later rounds do.
-- The slice data[offset + 4 : offset + 4 + size] is cut short where the data ends.
abbrev pub frame_step :
    (Bytes → Option (Result WireError (List Bytes)))
    → Bytes
    → Result WireError ℕ
    → Option (Result WireError (List Bytes))
frame_step later rest (err e) = some (err e)
frame_step later rest (ok size) = elim (later (drop size rest)) [
  | none ↦ none
  | some (err e) ↦ some (err e)
  | some (ok fs) ↦ some (ok (take size rest ∷ fs))
]

-- while offset + 4 <= data_size, on what is left of the data; `none` when the fuel runs out.
unfoldable pub frames : ℕ → Bytes → Option (Result WireError (List Bytes))
frames zero data' = none
frames (suc fuel) data' = elim (leb 4 (length data')) [
  | true ↦ frame_step (frames fuel) (drop 4 data') (unpack_u32 (take 4 data'))
  | false ↦ some (ok [])
]

-- A bundle: each packet behind its length.
unfoldable pub join : List Bytes → Bytes
join [] = []
join (f ∷ fs) = u32_bytes (length f) ++ (f ++ join fs)

-- One round, where four bytes or more are left.
frames-round :
    (fuel : ℕ) (head rest : Bytes) {n : ℕ} {fs : List Bytes}
    → length head ≡ 4
    → unpack_u32 head ≡ ok n
    → frames fuel (drop n rest) ≡ some (ok fs)
    → frames (suc fuel) (head ++ rest) ≡ some (ok (take n rest ∷ fs))
unfolding frames
frames-round fuel (a ∷ b ∷ c ∷ d ∷ []) rest len e later =
    rw (four-le (length rest), frames) (rw e (rw later))
  where
    four-le : (n : ℕ) → leb 4 (suc (suc (suc (suc n)))) ≡ true
    four-le n = ground arith
frames-round fuel [] rest len e later = absurd (omega arith)
frames-round fuel (a ∷ []) rest len e later = absurd (omega arith)
frames-round fuel (a ∷ b ∷ []) rest len e later = absurd (omega arith)
frames-round fuel (a ∷ b ∷ c ∷ []) rest len e later = absurd (omega arith)
frames-round fuel (a ∷ b ∷ c ∷ d ∷ x ∷ r) rest len e later = absurd (omega arith)

-- With more fuel than there are bytes the loop ends by its test, and raises nothing.
pub frames_total :
    (fuel : ℕ) (bs : Bytes) → length bs < fuel → (fs : List Bytes) × (frames fuel bs ≡ some (ok fs))
unfolding frames
frames_total zero bs h = absurd (omega arith)
frames_total (suc fuel) (a ∷ b ∷ c ∷ d ∷ rest) h =
    let n : ℕ = a + b * 256 + c * 65536 + d * 16777216 in
    let (fs, e) = frames_total fuel (drop n rest) (omega (arith, length-drop n rest)) in
    (
      take n rest ∷ fs,
      frames-round fuel (a ∷ b ∷ c ∷ d ∷ []) rest refl (unfold unpack_u32 in refl) e,
    )
frames_total (suc fuel) [] h = ([], refl)
frames_total (suc fuel) (a ∷ []) h = ([], refl)
frames_total (suc fuel) (a ∷ b ∷ []) h = ([], refl)
frames_total (suc fuel) (a ∷ b ∷ c ∷ []) h = ([], refl)

length-join :
    (f : Bytes) (fs : List Bytes) → length (join (f ∷ fs)) ≡ 4 + (length f + length (join fs))
unfolding join
length-join f fs = omega (arith, length-append f (join fs))

-- The loop takes a bundle apart into the packets that were joined, whatever their bytes; up to
-- three bytes behind the last packet are dropped.
pub frames-join :
    (fuel : ℕ) (fs : List Bytes) (tail : Bytes)
    → length (join fs) + length tail < fuel
    → length tail < 4
    → frames fuel (join fs ++ tail) ≡ some (ok fs)
unfolding join
frames-join zero fs tail h t = absurd (omega arith)
frames-join (suc fuel) [] tail h t = unfold frames in ground arith
frames-join (suc fuel) (f ∷ fs) tail h t =
    let later : frames fuel (join fs ++ tail) ≡ some (ok fs) =
      frames-join fuel fs tail (omega (arith, length-join f fs)) t in
    let cut : take (length f) (f ++ (join fs ++ tail)) ≡ f =
      take-append_length f (join fs ++ tail) in
    rw (append_assoc f (join fs) tail) (
      subst
        (λ x.
          frames (suc fuel) (u32_bytes (length f) ++ (f ++ (join fs ++ tail))) ≡ some (ok (x ∷ fs)))
        cut
        (frames-round fuel (u32_bytes (length f)) (f ++ (join fs ++ tail)) refl
          (unpack_u32-u32_bytes (length f)) (rw (drop-append_length f (join fs ++ tail)) later)))
