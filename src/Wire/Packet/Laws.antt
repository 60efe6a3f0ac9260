-- ===== src/Wire/Packet/Laws.antt =====
-- What is sent is read back.
use native.Mathlib.Decide.{dec_lt}
use galaxy_integration_steam.Prelude.{
  sym, ◌∙◌, ℕ, ◌+◌, ◌^◌, ◌<◌, ◌≡◌, ◌++◌, arith, Result, ok, err, Option, some, length,
  take-append_length, drop-append_length,
}
use galaxy_integration_steam.Prelude.Text.{Text}
use galaxy_integration_steam.Wire.Bytes.{
  Bytes, struct_error, u32_bytes, pack_u32-eq-ok, pack_u32-eq-err, WireError, unpack_u32-u32_bytes,
}
use galaxy_integration_steam.Wire.Packet.Defs.{
  Header, Codec, Client, proto_mask, with_mask, header_for, send, read_packet,
}

with_mask_small : (emsg : ℕ) → emsg < proto_mask → with_mask emsg ≡ emsg + proto_mask
with_mask_small emsg h = ground arith

packet_of_ok : {a b : Bytes} → ◌≡◌ {A = Result WireError Bytes} (ok a) (ok b) → a ≡ b
packet_of_ok e = cc

module _ (k : Codec) where
  -- The bytes of a packet with a given number, header and body.
  abbrev pub packet_bytes : ℕ → Header → Bytes → Bytes
  packet_bytes emsg h body =
      (u32_bytes (emsg + proto_mask) ++ u32_bytes (length (k.serialize h))) ++ k.serialize h ++ body

  pub send-eq-packet_bytes :
      (c : Client) (emsg : ℕ) (body : Bytes) (source target : Option ℕ) (name : Option Text)
      → emsg < proto_mask
      → length (k.serialize (header_for c source target name)) < 2 ^ 32
      → send k c emsg body source target name
        ≡ ok (packet_bytes emsg (header_for c source target name) body)
  unfolding send
  send-eq-packet_bytes c emsg body source target name small fits = rw (with_mask_small emsg small) (
      rw (pack_u32-eq-ok (emsg + proto_mask) (omega arith))
        (rw (pack_u32-eq-ok (length (k.serialize (header_for c source target name))) fits)))

  pub read_packet-packet_bytes :
      (emsg : ℕ) (h : Header) (body : Bytes)
      → emsg < proto_mask
      → read_packet k (packet_bytes emsg h body) ≡ ok (emsg, some (h, body))
  unfolding read_packet
  read_packet-packet_bytes emsg h body small = rw (unpack_u32-u32_bytes (emsg + proto_mask)) (
      rw (unpack_u32-u32_bytes (length (k.serialize h)))
        (simp (take-append_length, drop-append_length, k.parse-serialize) (ground arith)))

  -- A header that is too long for its length field is not sent.
  send_too_long :
      (c : Client) (emsg : ℕ) (body : Bytes) (source target : Option ℕ) (name : Option Text)
      → emsg < proto_mask
      → ¬ (length (k.serialize (header_for c source target name)) < 2 ^ 32)
      → send k c emsg body source target name ≡ err struct_error
  unfolding send
  send_too_long c emsg body source target name small long = rw (with_mask_small emsg small) (
      rw (pack_u32-eq-ok (emsg + proto_mask) (omega arith))
        (rw (pack_u32-eq-err (length (k.serialize (header_for c source target name))) long)))

  -- What `_send` puts on the wire is read back by the receiving side: the same message number, the
  -- header that was filled in, and the same body, for any message number below the mask.
  pub read_packet-send :
      (c : Client) (emsg : ℕ) (body : Bytes) (source target : Option ℕ) (name : Option Text)
      {packet : Bytes}
      → emsg < proto_mask
      → send k c emsg body source target name ≡ ok packet
      → read_packet k packet ≡ ok (emsg, some (header_for c source target name, body))
  read_packet-send c emsg body source target name small sent =
      let h = header_for c source target name in
      elim (dec_lt (length (k.serialize h)) (2 ^ 32)) [
        | yes fits ↦
            rw
              (← packet_of_ok
                (sym (send-eq-packet_bytes c emsg body source target name small fits) ∙ sent))
              (read_packet-packet_bytes emsg h body small)
        | no long ↦ cc (send_too_long c emsg body source target name small long)
      ]
