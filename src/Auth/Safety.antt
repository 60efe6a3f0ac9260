-- ===== src/Auth/Safety.antt =====
-- Who is let in: the login never ends without Steam's consent.
use galaxy_integration_steam.Prelude.{
  ◌≡◌, ◌≢◌, refl, ap, sym, ◌∙◌, String, Bool, true, false, List, [], ◌∷◌, arith, Option, none, some,
  Result, ok, err, any, ◌==◌, ◌⊎◌, inl, inr,
}
use galaxy_integration_steam.Prelude.Text.{Text}
use galaxy_integration_steam.Prelude.Dict.{Dict}
use galaxy_integration_steam.UserInfo.Defs.{clear}
use galaxy_integration_steam.Auth.EResult
use galaxy_integration_steam.Auth.Results.{Raised, backend_timeout}
use galaxy_integration_steam.Auth.Methods.{
  UserActionRequired, no_action_required, no_action_confirm_token, TwoFactorMethod,
  no_action_confirm_login, two_factor_required, two_factor_expired, invalid_auth_data,
  to_user_action,
}
use galaxy_integration_steam.Auth.Protocol.{
  Replies, Session, SteamPollingData, finalize_login, update_two_factor, check_auth_status,
  get_rsa_public_key, authenticate_password,
}
use galaxy_integration_steam.Auth.Loop.{
  Request, rsa_and_login, update_two_factor_code, poll_two_factor, token, other_mode, auth_call,
  rsa_login, two_factor_login, poll_login, after_password,
}
use galaxy_integration_steam.Auth.Pages.{Answer, next_step, authentication, DisplayUriHelper}
use galaxy_integration_steam.Auth.Backend.{Dialogue, done, fail, ask, forget, run_dialogue}

-- The action that a round answered with, if it did.
abbrev pub is_end_of_login : Result Raised UserActionRequired → Bool
is_end_of_login (ok no_action_required) = true
is_end_of_login _ = false

after_password-goes_on :
    (username : Text) (m : Session × Result Raised (Option SteamPollingData))
    → is_end_of_login (after_password username m).1 ≡ false
unfolding after_password to_user_action
after_password-goes_on username (s, err e) = refl
after_password-goes_on username (s, ok none) = refl
after_password-goes_on username (s, ok (some polled)) = ground arith

rsa_login-goes_on :
    (r : Replies) (username password : Option Text) (s : Session)
    → is_end_of_login (rsa_login r username password s).1 ≡ false
unfolding rsa_login
rsa_login-goes_on r none password s = refl
rsa_login-goes_on r (some username) password s =
    ground
      (arith, after_password-goes_on username (authenticate_password r (get_rsa_public_key r s).0))

two_factor_login-goes_on :
    (r : Replies) (code : Option Text) (m : Option TwoFactorMethod) (s : Session)
    → is_end_of_login (two_factor_login r code m s).1 ≡ false
unfolding two_factor_login update_two_factor
two_factor_login-goes_on r code m s = ground arith

poll_login-goes_on :
    (r : Replies) (is_confirm : Bool) (s : Session)
    → is_end_of_login (poll_login r is_confirm s).1 ≡ false
unfolding poll_login check_auth_status
poll_login-goes_on r is_confirm s = ground arith

-- Only the token's request ends the loop, and only on the result OK.
pub auth_call-end :
    (r : Replies) (q : Request) (s : Session)
    → is_end_of_login (auth_call r q s).1 ≡ true
    → (q ≡ token) × (r.token ≡ EResult.ok_result)
unfolding auth_call finalize_login
auth_call-end r (rsa_and_login u p) s h = ground (arith, rsa_login-goes_on r u p s)
auth_call-end r (update_two_factor_code c m) s h = ground (arith, two_factor_login-goes_on r c m s)
auth_call-end r (poll_two_factor b) s h = ground (arith, poll_login-goes_on r b s)
auth_call-end r token s h = ground arith
auth_call-end r other_mode s h = ground arith

-- A dialogue that logs in nobody unless some round ended the loop.
pub data IsGuarded : Dialogue → Type 0 where
  page_only : {d : DisplayUriHelper} {a : Dict String Text} → IsGuarded (done (next_step d a))
  failing : {e : Raised} → IsGuarded (fail e)
  forgetting : {d : Dialogue} → IsGuarded d → IsGuarded (forget d)
  asking :
      {q : Request} {k : UserActionRequired → Session → Dialogue}
      → ((a : UserActionRequired) (s : Session) → a ≢ no_action_required → IsGuarded (k a s))
      → IsGuarded (ask q k)

abbrev pub is_login : Result Raised Answer → Bool
is_login (ok (authentication i n)) = true
is_login _ = false

-- Some reply of the list lets the token in.
abbrev pub admits : List Replies → Bool
admits rs = any (λ (r : Replies). r.token == EResult.ok_result) rs

Result-cases :
    (res : Result Raised UserActionRequired)
    → ((a : UserActionRequired) × (res ≡ ok a)) ⊎ ((e : Raised) × (res ≡ err e))
Result-cases (ok a) = inl (a, refl)
Result-cases (err e) = inr (e, refl)

no_action-cases :
    (a : UserActionRequired) → (is_end_of_login (ok a) ≡ true) ⊎ (a ≢ no_action_required)
no_action-cases no_action_required = inl refl
no_action-cases no_action_confirm_token = inr (λ p. ground (arith, p))
no_action-cases no_action_confirm_login = inr (λ p. ground (arith, p))
no_action-cases two_factor_required = inr (λ p. ground (arith, p))
no_action-cases two_factor_expired = inr (λ p. ground (arith, p))
no_action-cases invalid_auth_data = inr (λ p. ground (arith, p))

pub run_dialogue-answered :
    (q : Request) (k : UserActionRequired → Session → Dialogue) (r : Replies) (rs : List Replies)
    (s : Session) (a : UserActionRequired)
    → (auth_call r q s).1 ≡ ok a
    → run_dialogue (ask q k) (r ∷ rs) s
      ≡ run_dialogue (k a (auth_call r q s).0) rs (auth_call r q s).0
unfolding run_dialogue
run_dialogue-answered q k r rs s a p = rw (p, run_dialogue)

run_dialogue-unanswered :
    (q : Request) (k : UserActionRequired → Session → Dialogue) (r : Replies) (rs : List Replies)
    (s : Session) (e : Raised)
    → (auth_call r q s).1 ≡ err e
    → run_dialogue (ask q k) (r ∷ rs) s ≡ ((auth_call r q s).0, err backend_timeout)
unfolding run_dialogue
run_dialogue-unanswered q k r rs s e p = rw (p, run_dialogue)

pub run_dialogue-IsGuarded :
    (d : Dialogue) (rs : List Replies) (s : Session)
    → IsGuarded d
    → is_login (run_dialogue d rs s).1 ≡ true
    → admits rs ≡ true
unfolding run_dialogue
run_dialogue-IsGuarded (done a) rs s page_only h = ground arith
run_dialogue-IsGuarded (fail e) rs s failing h = ground arith
run_dialogue-IsGuarded (forget d) rs s (forgetting g) h =
    run_dialogue-IsGuarded d rs (record s { user_info = clear s.user_info }) g h
run_dialogue-IsGuarded (ask q k) [] s (asking g) h = ground arith
run_dialogue-IsGuarded (ask q k) (r ∷ rs) s (asking g) h =
    let s' = (auth_call r q s).0 in
    elim (Result-cases (auth_call r q s).1) [
      | inl (a, p) ↦ elim (no_action-cases a) [
        | inl ended ↦
            let (same, consent) = auth_call-end r q s (ap is_end_of_login p ∙ ended) in
            ground (arith, consent)
        | inr goes_on ↦
            let answered = run_dialogue-answered q k r rs s a p in
            let rest =
              run_dialogue-IsGuarded (k a s') rs s' (g a s' goes_on)
                (sym (ap (λ x. is_login x.1) answered) ∙ h) in
            ground (arith, rest)
      ]
      | inr (e, p) ↦
          ground (arith, sym (ap (λ x. is_login x.1) (run_dialogue-unanswered q k r rs s e p)) ∙ h)
    ]
