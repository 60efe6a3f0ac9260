-- ===== src/Wire/Receive/Faults.antt =====
-- Packets that are not received: too short, or of another session.
use native.Mathlib.Decide.{dec_lt, ℕ_discrete}
use galaxy_integration_steam.Prelude.{
  ◌*◌, ◌/◌, ◌%◌, ◌≤◌, refl, take, drop, length-take, length-drop, inl, inr, ℕ, ◌+◌, ◌≡◌, ◌≢◌, ◌<◌,
  ◌⊎◌, arith, [], ◌∷◌, ok, err, some, length,
}
use galaxy_integration_steam.Wire.Bytes.{
  Bytes, struct_error, attribute_error, unpack_u32, unpack_u32-short,
}
use galaxy_integration_steam.Wire.Packet.{
  Header, Codec, Client, proto_mask, read_packet, note_session,
}
use galaxy_integration_steam.Wire.Packet.Laws.{packet_bytes, read_packet-packet_bytes}
use galaxy_integration_steam.Wire.Receive.Defs.{Receiver, Action, process_packet}

-- Four bytes are always read.
four_bytes : (p : Bytes) → 4 ≤ length p → (raw : ℕ) × (unpack_u32 (take 4 p) ≡ ok raw)
unfolding unpack_u32
four_bytes (a ∷ b ∷ c ∷ d ∷ p) h = (a + b * 256 + c * 65536 + d * 16777216, refl)
four_bytes [] h = absurd (omega arith)
four_bytes (a ∷ []) h = absurd (omega arith)
four_bytes (a ∷ b ∷ []) h = absurd (omega arith)
four_bytes (a ∷ b ∷ c ∷ []) h = absurd (omega arith)

read_packet_short :
    (k : Codec) (p : Bytes) (raw : ℕ)
    → length p < 8
    → unpack_u32 (take 4 p) ≡ ok raw
    → raw / proto_mask % 2 ≡ 1
    → read_packet k p ≡ err struct_error
unfolding read_packet
read_packet_short k p raw short e marked = rw e (
    rw
      (unpack_u32-short (take 4 (drop 4 p))
        (omega (arith, length-take 4 (drop 4 p), length-drop 4 p)))
      (ground arith))

read_packet_tiny : (k : Codec) (p : Bytes) → length p < 4 → read_packet k p ≡ err struct_error
unfolding read_packet
read_packet_tiny k p short = rw (unpack_u32-short (take 4 p) (omega (arith, length-take 4 p)))

module _ {S : Type 0} (r : Receiver S) where
  -- A packet of less than 8 bytes is logged as ignored, and is not ignored: the method raises
  -- `struct.error`, unless the packet has four bytes and they do not announce a protobuf header.
  pub short_packet :
      (bundle : Bytes → Action S) (p : Bytes) (st : Client × S)
      → length p < 8
      → (process_packet r bundle p st ≡ (st, err struct_error))
        ⊎ ((4 ≤ length p)
            × ((raw : ℕ) × (unpack_u32 (take 4 p) ≡ ok raw) × (raw / proto_mask % 2 ≢ 1)))
  unfolding process_packet
  short_packet bundle p st short = elim (dec_lt (length p) 4) [
    | yes tiny ↦ inl (rw (read_packet_tiny r.codec p tiny))
    | no four ↦
        (let (raw, e) = four_bytes p (omega arith) in
          elim (ℕ_discrete (raw / proto_mask % 2) 1) [
            | yes marked ↦ inl (rw (read_packet_short r.codec p raw short e marked))
            | no unmarked ↦ inr (omega arith, (raw, e, unmarked))
          ])
  ]

  -- A packet of another session than the client's raises, and is not handled: the line that was to
  -- log it reads a field that headers do not have.
  pub other_session_raises :
      (bundle : Bytes → Action S) (emsg : ℕ) (h : Header) (body : Bytes) (c : Client) (s : S)
      {own received : ℕ}
      → emsg < proto_mask
      → c.session_id ≡ some own
      → h.client_sessionid ≡ some received
      → 0 < received
      → received ≢ own
      → process_packet r bundle (packet_bytes r.codec emsg h body) (c, s)
        ≡ ((c, s), err attribute_error)
  unfolding process_packet note_session
  other_session_raises bundle emsg h body c s small mine theirs given differ =
      rw (read_packet-packet_bytes r.codec emsg h body small) (simp (mine, theirs) (ground arith))
