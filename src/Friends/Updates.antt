-- ===== src/Friends/Updates.antt =====
-- What an update of a user's info changes, and when it is reported.
use galaxy_integration_steam.Prelude.{◌≡◌, ◌↔◌, refl, ap, false, arith, Option, none, some}
use galaxy_integration_steam.Prelude.Keys.{Eq, nat_eq}
use galaxy_integration_steam.Prelude.Text.{list_eq}
use galaxy_integration_steam.Friends.Defs.{
  ProtoUserInfo, update_field, field_changes, update_info, info_changes,
}

module _ {ℓ} {A : Type ℓ} ⦃e : Eq A⦄ where
  field_changes-false :
      (old new : Option A) → (field_changes old new ≡ false) ↔ (update_field old new ≡ old)
  field_changes-false old none = (λ _. refl, λ _. refl)
  field_changes-false none (some v) = (λ h. ground (arith, h), λ h. ground (arith, h))
  field_changes-false (some a) (some v) =
      let (to, from) = e.beq_iff a v in (λ h. ground (arith, h, to), λ h. ground (arith, h, from))

  field_changes-again : (old new : Option A) → field_changes (update_field old new) new ≡ false
  field_changes-again old none = refl
  field_changes-again old (some v) = ground (arith, e.beq_iff v v)

-- An update reports no change exactly if it changes nothing.
pub info_changes_iff : (u v : ProtoUserInfo) → (info_changes u v ≡ false) ↔ (update_info u v ≡ u)
unfolding info_changes update_info
info_changes_iff u v =
    let f1 = field_changes-false u.name v.name in
    let f2 = field_changes-false u.avatar_hash v.avatar_hash in
    let f3 = field_changes-false u.state v.state in
    let f4 = field_changes-false u.game_id v.game_id in
    let f5 = field_changes-false u.game_name v.game_name in
    let f6 = field_changes-false u.rich_presence v.rich_presence in
    (
      (λ h. ground (arith, h, f1.0, f2.0, f3.0, f4.0, f5.0, f6.0)),
      (λ p. ground (
        arith,
        f1.1 (ap (λ (x : ProtoUserInfo). x.name) p),
        f2.1 (ap (λ (x : ProtoUserInfo). x.avatar_hash) p),
        f3.1 (ap (λ (x : ProtoUserInfo). x.state) p),
        f4.1 (ap (λ (x : ProtoUserInfo). x.game_id) p),
        f5.1 (ap (λ (x : ProtoUserInfo). x.game_name) p),
        f6.1 (ap (λ (x : ProtoUserInfo). x.rich_presence) p),
      )),
    )

-- The same update a second time changes nothing.
pub info_changes-again : (u v : ProtoUserInfo) → info_changes (update_info u v) v ≡ false
unfolding info_changes update_info
info_changes-again u v = ground (
  arith,
  field_changes-again u.name v.name,
  field_changes-again u.avatar_hash v.avatar_hash,
  field_changes-again u.state v.state,
  field_changes-again u.game_id v.game_id,
  field_changes-again u.game_name v.game_name,
  field_changes-again u.rich_presence v.rich_presence,
)
