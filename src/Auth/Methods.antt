-- ===== src/Auth/Methods.antt =====
-- The second factors of src/steam_network/enums.py, and `AuthenticationCache` of
-- src/steam_network/authentication_cache.py with the factors in order of preference.
use galaxy_integration_steam.Prelude.{
  ℕ, zero, suc, ◌≡◌, ◌↔◌, refl, sym, ap, ◌∙◌, ==_iff, Bool, true, false, not, List, [], ◌∷◌, Option,
  some, ◌==◌, leb, if◌then◌else◌, any,
}
use galaxy_integration_steam.Prelude.Keys.{Eq, ◌=?◌, nat_eq}
use galaxy_integration_steam.Prelude.Text.{Text}
use galaxy_integration_steam.Prelude.Dict.{Dict, put, keys}

-- Declared in the order of their values.
pub data TwoFactorMethod : Type 0 where
  nothing phone_code email_code phone_confirm unknown : TwoFactorMethod

pub data UserActionRequired : Type 0 where
  no_action_required no_action_confirm_token no_action_confirm_login : UserActionRequired
  two_factor_required two_factor_expired invalid_auth_data : UserActionRequired

abbrev pub value : TwoFactorMethod → ℕ
value nothing = 0
value phone_code = 1
value email_code = 2
value phone_confirm = 3
value unknown = 4

abbrev of_value : ℕ → TwoFactorMethod
of_value zero = nothing
of_value (suc zero) = phone_code
of_value (suc (suc zero)) = email_code
of_value (suc (suc (suc zero))) = phone_confirm
of_value _ = unknown

of_value-value : (m : TwoFactorMethod) → of_value (value m) ≡ m
of_value-value nothing = refl
of_value-value phone_code = refl
of_value-value email_code = refl
of_value-value phone_confirm = refl
of_value-value unknown = refl

pub same_value : (a b : TwoFactorMethod) → ((value a == value b) ≡ true) ↔ (a ≡ b)
same_value a b =
    let (to, from) = ==_iff (value a) (value b) in
    (λ h. sym (of_value-value a) ∙ ap of_value (to h) ∙ of_value-value b, λ p. from (ap value p))

instance abbrev pub method_eq : Eq TwoFactorMethod
method_eq = record { beq = λ a b. value a == value b; beq_iff = same_value }

-- The members of `EAuthSessionGuardType` that the code names.
abbrev pub guard_unknown : ℕ
guard_unknown = 0

abbrev pub guard_none : ℕ
guard_none = 1

abbrev pub guard_email_code : ℕ
guard_email_code = 2

abbrev pub guard_device_code : ℕ
guard_device_code = 3

abbrev pub guard_device_confirmation : ℕ
guard_device_confirmation = 4

unfoldable pub to_two_factor_method : ℕ → TwoFactorMethod
to_two_factor_method g =
    if g == guard_none
    then nothing
    else if g == guard_email_code
    then email_code
    else if g == guard_device_code
    then phone_code
    else if g == guard_device_confirmation
    then phone_confirm
    else unknown

unfoldable pub to_guard_type : TwoFactorMethod → ℕ
to_guard_type nothing = guard_none
to_guard_type email_code = guard_email_code
to_guard_type phone_code = guard_device_code
to_guard_type phone_confirm = guard_device_confirmation
to_guard_type unknown = guard_unknown

-- `to_TwoFactorWithMessage` of an allowed confirmation: its type and its message.
unfoldable pub to_two_factor_with_message : ℕ × Text → TwoFactorMethod × Text
to_two_factor_with_message (g, msg) = (to_two_factor_method g, msg)

-- What the code compares with a method: a method, or, where it passes an element of the cache's list,
-- a pair, which equals no method.
pub data Compared : Type 0 where
  method : TwoFactorMethod → Compared
  pair : TwoFactorMethod → Text → Compared

abbrev pub equals : Compared → TwoFactorMethod → Bool
equals (method a) b = a =? b
equals (pair _ _) b = false

unfoldable pub to_user_action : Compared → UserActionRequired
to_user_action m =
    if equals m nothing
    then no_action_confirm_login
    else if not (equals m unknown)
    then two_factor_required
    else invalid_auth_data

unfoldable pub auth_priority : TwoFactorMethod → ℕ
auth_priority unknown = 0
auth_priority nothing = 1
auth_priority email_code = 2
auth_priority phone_code = 3
auth_priority phone_confirm = 4

-- `allowed_confirmations`: `dict(map(to_TwoFactorWithMessage, ...))`.
unfoldable pub confirmations :
    List (ℕ × Text) → Dict TwoFactorMethod Text → Dict TwoFactorMethod Text
confirmations [] d = d
confirmations (c ∷ cs) d =
    let (m, msg) = to_two_factor_with_message c in confirmations cs (put m msg d)

unfoldable pub has_valid_confirmation_method : Dict TwoFactorMethod Text → Bool
has_valid_confirmation_method d = any (λ m. not (m =? unknown)) (keys d)

-- `sort(key=_auth_priority, reverse=True)`, which keeps the order of elements with the same key.
abbrev pub insert :
    TwoFactorMethod × Text → List (TwoFactorMethod × Text) → List (TwoFactorMethod × Text)
insert x [] = x ∷ []
insert x (y ∷ ys) =
    let rest = insert x ys in
    if leb (auth_priority y.0) (auth_priority x.0) then x ∷ y ∷ ys else y ∷ rest

unfoldable pub by_priority : List (TwoFactorMethod × Text) → List (TwoFactorMethod × Text)
by_priority [] = []
by_priority (x ∷ xs) = insert x (by_priority xs)

pub record AuthenticationCache : Type 0 where
  pub two_factor_allowed_methods : List (TwoFactorMethod × Text)
  pub error_message : Option Text

unfoldable pub update_authentication_cache :
    Dict TwoFactorMethod Text → Text → AuthenticationCache → AuthenticationCache
update_authentication_cache d msg c = record {
  two_factor_allowed_methods = by_priority d;
  error_message = some msg;
}
