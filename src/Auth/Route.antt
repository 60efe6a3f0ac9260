-- ===== src/Auth/Route.antt =====
-- The whole way from the login page to the logged-in user, where Steam wants no second factor.
use galaxy_integration_steam.Prelude.{
  ℕ, ◌≡◌, ◌∙◌, ap, sym, refl, true, false, List, [], ◌∷◌, arith, some, Result, ok,
}
use galaxy_integration_steam.Prelude.Text.{Text}
use galaxy_integration_steam.UserInfo.Defs.{UserInfo, is_initialized, truthy, is_some}
use galaxy_integration_steam.Auth.EResult
use galaxy_integration_steam.Auth.Results.{Raised}
use galaxy_integration_steam.Auth.Methods.{
  TwoFactorMethod, nothing, no_action_required, no_action_confirm_token, two_factor_required,
  confirmations, has_valid_confirmation_method, update_authentication_cache,
}
use galaxy_integration_steam.Auth.Protocol.{Replies, Session, SteamPollingData, store_tokens}
use galaxy_integration_steam.Auth.Loop.{rsa_and_login, poll_two_factor, token, auth_call}
use galaxy_integration_steam.Auth.Pages.{Answer, authentication, sanitize_string}
use galaxy_integration_steam.Auth.Backend.{
  Dialogue, ask, run_dialogue, EndAddress, handle_login_finished, handle_steam_guard_none,
  finish_auth_process, after_login, after_none_poll, after_token, second_factor,
}
use galaxy_integration_steam.Auth.Safety.{run_dialogue-answered}
use galaxy_integration_steam.Auth.Factors.{starts_known, starts_known-by_priority}
use galaxy_integration_steam.Auth.Success.{
  rsa_login-accepted, accepted, methods_of, first_action-nonempty, poll_login-tokens,
  finalize_login-admitted, polled_by, accepted-user, store_tokens-SameUser, SameUser,
}

abbrev pub outcome : Dialogue → List Replies → Session → Result Raised Answer
outcome d rs s = (run_dialogue d rs s).1

-- The last part: the tokens are there, and Steam lets the token in.
finish_auth_process-logs_in :
    (r : Replies) (rs : List Replies) (s : Session) (i : ℕ)
    → is_initialized s.user_info ≡ true
    → r.token ≡ EResult.ok_result
    → r.token_steam_id ≡ some i
    → outcome (finish_auth_process s) (r ∷ rs) s
      ≡ ok (authentication (some i) s.user_info.persona_name)
unfolding finish_auth_process run_dialogue
finish_auth_process-logs_in r rs s i ready admitted id_ =
    let (ended, persona, user) = finalize_login-admitted r s i admitted id_ in
    let opened : finish_auth_process s ≡ ask token after_token = rw ready in
    ap (λ d. outcome d (r ∷ rs) s) opened
    ∙ ap (λ x. x.1) (run_dialogue-answered token after_token r rs s no_action_required ended)
    ∙ ground (arith, persona, user)

-- A reply to a poll that brings the tokens and the name of the account.
pub record BringsTokens (r : Replies) (name : Text) : Type 0 where
  pub polled_ok : r.poll ≡ EResult.ok_result
  pub refresh_there : truthy (some r.status.refresh_token) ≡ true
  pub account_is : r.status.account_name ≡ name
  pub account_there : truthy (some name) ≡ true

is_initialized-SameUser : (u v : UserInfo) → SameUser u v → is_initialized u ≡ is_initialized v
unfolding is_initialized
is_initialized-SameUser u v same =
    ground (arith, same.same_id, same.same_username, same.same_persona, same.same_refresh)

store_tokens-is_initialized :
    (r : Replies) (name : Text) (u : UserInfo)
    → BringsTokens r name
    → is_some u.steam_id ≡ true
    → truthy u.account_username ≡ true
    → (is_initialized (store_tokens r.status u) ≡ true)
      × ((store_tokens r.status u).persona_name ≡ some name)
unfolding is_initialized
store_tokens-is_initialized r name u t id_ user =
    let m = r.status in
    let same = store_tokens-SameUser m.refresh_token m.access_token m.account_name u in
    (
      is_initialized-SameUser _ _ same
          ∙ ground (arith, t.refresh_there, t.account_there, t.account_is, id_, user),
      same.same_persona ∙ ap some t.account_is,
    )

-- The poll before it.
handle_steam_guard_none-logs_in :
    (r₂ r₃ : Replies) (rs : List Replies) (s : Session) (polled : SteamPollingData) (i : ℕ)
    (name : Text)
    → s.polling ≡ some polled
    → is_some s.user_info.steam_id ≡ true
    → truthy s.user_info.account_username ≡ true
    → BringsTokens r₂ name
    → r₃.token ≡ EResult.ok_result
    → r₃.token_steam_id ≡ some i
    → outcome handle_steam_guard_none (r₂ ∷ r₃ ∷ rs) s ≡ ok (authentication (some i) (some name))
unfolding handle_steam_guard_none
handle_steam_guard_none-logs_in r₂ r₃ rs s polled i name known id_ user brings admitted same_id =
    let (action, stored) =
      poll_login-tokens r₂ false polled s known brings.polled_ok brings.refresh_there in
    let (ready, persona) = store_tokens-is_initialized r₂ name s.user_info brings id_ user in
    let s' = (auth_call r₂ (poll_two_factor false) s).0 in
    ap (λ x. x.1)
      (run_dialogue-answered (poll_two_factor false) after_none_poll r₂ (r₃ ∷ rs) s
        no_action_confirm_token action)
    ∙ finish_auth_process-logs_in r₃ rs s' i (ap is_initialized stored ∙ ready) admitted same_id
    ∙ ap (λ (x : UserInfo). ok (authentication (some i) x.persona_name)) stored
    ∙ ap (λ x. ok (authentication (some i) x)) persona

-- A login page whose user Steam knows and wants no second factor of, then a poll that brings the
-- tokens, then a log-on by token that Steam lets in: Galaxy gets the id of that log-on and the name of
-- the account, in three rounds of the loop and whatever the caches held.
pub handle_login_finished-logs_in :
    (c : EndAddress) (u p : ℕ) (us ps typed msg name : Text) (rest : List (TwoFactorMethod × Text))
    (r₁ r₂ r₃ : Replies) (s : Session) (i : ℕ)
    → c.username ≡ some (u ∷ us)
    → c.password ≡ some typed
    → sanitize_string typed ≡ p ∷ ps
    → r₁.rsa ≡ EResult.ok_result
    → r₁.login ≡ EResult.ok_result
    → methods_of r₁.message ≡ (nothing, msg) ∷ rest
    → BringsTokens r₂ name
    → r₃.token ≡ EResult.ok_result
    → r₃.token_steam_id ≡ some i
    → outcome (handle_login_finished c) (r₁ ∷ r₂ ∷ r₃ ∷ []) s
      ≡ ok (authentication (some i) (some name))
unfolding handle_login_finished auth_call update_authentication_cache
handle_login_finished-logs_in c u p us ps typed msg name rest r₁ r₂ r₃ s i named typed_is clean key
      login first brings admitted same_id =
    let request = rsa_and_login (some (u ∷ us)) (some (p ∷ ps)) in
    let opened : handle_login_finished c ≡ ask request after_login =
      ground (arith, named, typed_is, clean) in
    let valid : has_valid_confirmation_method (confirmations r₁.message.allowed_confirmations [])
        ≡ true =
      sym (starts_known-by_priority (confirmations r₁.message.allowed_confirmations []))
      ∙ ap starts_known first in
    let round = rsa_login-accepted r₁ u p us ps s key login valid in
    let (has_id, has_name) = accepted-user r₁.message u us s in
    ap (λ d. outcome d (r₁ ∷ r₂ ∷ r₃ ∷ []) s) opened
    ∙ ap (λ x. x.1)
        (run_dialogue-answered request after_login r₁ (r₂ ∷ r₃ ∷ []) s two_factor_required (
          ap (λ x. x.1) round
          ∙ ap ok (first_action-nonempty (methods_of r₁.message) rest (nothing, msg) first)))
    ∙ ap
        (λ (x : Session).
          outcome (second_factor x.authentication.two_factor_allowed_methods) (r₂ ∷ r₃ ∷ []) x)
        (ap (λ x. x.0) round)
    ∙ ap (λ ms. outcome (second_factor ms) (r₂ ∷ r₃ ∷ []) (accepted r₁.message (u ∷ us) s)) first
    ∙ handle_steam_guard_none-logs_in r₂ r₃ [] (accepted r₁.message (u ∷ us) s)
        (polled_by r₁.message) i name refl has_id has_name brings admitted same_id
