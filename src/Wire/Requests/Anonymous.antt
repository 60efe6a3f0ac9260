-- ===== src/Wire/Requests/Anonymous.antt =====
-- The log-on by token does not carry the id of the user in its header.
use galaxy_integration_steam.Prelude.{ℕ, ◌≡◌, ◌∙◌, refl, ap, Option, none, some, Result, ok, arith}
use galaxy_integration_steam.Wire.Bytes.{Bytes, WireError}
use galaxy_integration_steam.Wire.EMsg
use galaxy_integration_steam.Wire.Packet.{
  Header, Codec, Client, header_for, read_packet, account_id_mask,
}
use galaxy_integration_steam.Wire.Packet.Laws.{read_packet-send}
use galaxy_integration_steam.Wire.Requests.{
  Request, LogOn, log_on_token, send_call, call_of, send_request, for_call, after_call,
  send_log_on_token_message,
}

abbrev pub steamid_of : Result WireError (ℕ × Option (Header × Bytes)) → Option ℕ
steamid_of (ok (emsg, some (h, body))) = h.steamid
steamid_of _ = none

reset :
    (i : ℕ) (c : Client)
    → c.confirmed_steam_id ≡ none
    → after_call c.confirmed_steam_id (for_call i c) ≡ c
reset i c h = again c.confirmed_steam_id refl h
  where
    again : (o : Option ℕ) → c.confirmed_steam_id ≡ o → o ≡ none → after_call o (for_call i c) ≡ c
    again none p q = ground (arith, p)
    again (some j) p q = ground (arith, q)

-- While no id is confirmed, the packet of a log-on by token is read with the id of no account in its
-- header, and not with the id that is logged on; the client is as before, with no id confirmed.
pub steamid-send_log_on_token_message :
    (k : Codec) (serialize : Request → Bytes) (m : LogOn) (c : Client) (packet : Bytes)
    → c.confirmed_steam_id ≡ none
    → (send_log_on_token_message k serialize m c).1 ≡ ok packet
    → (steamid_of (read_packet k packet) ≡ some account_id_mask)
      × ((send_log_on_token_message k serialize m c).0 ≡ c)
unfolding send_log_on_token_message send_request send_call call_of header_for
steamid-send_log_on_token_message k serialize m c packet h sent =
    let same = reset m.steam_id c h in
    (
      ap steamid_of (
            read_packet-send k (after_call c.confirmed_steam_id (for_call m.steam_id c))
              EMsg.client_logon (serialize (log_on_token m)) none none none (omega arith) sent)
          ∙ ap (λ (x : Client). (header_for x none none none).steamid) same
          ∙ ap
              (λ (o : Option ℕ).
                (header_for (record c { confirmed_steam_id = o }) none none none).steamid)
              h,
      same,
    )
