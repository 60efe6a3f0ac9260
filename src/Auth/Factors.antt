-- ===== src/Auth/Factors.antt =====
-- Which second factor the user is asked for.
use galaxy_integration_steam.Prelude.{
  ℕ, ◌≤◌, ◌≡◌, refl, Bool, true, false, not, List, [], ◌∷◌, arith, All, length, suc, if◌then◌else◌,
  any, leb,
}
use galaxy_integration_steam.Prelude.Keys.{◌=?◌}
use galaxy_integration_steam.Prelude.Text.{Text}
use galaxy_integration_steam.Auth.Methods.{
  TwoFactorMethod, nothing, phone_code, email_code, phone_confirm, unknown, to_two_factor_method,
  to_guard_type, auth_priority, insert, by_priority, has_valid_confirmation_method, method_eq,
}

abbrev Entry : Type 0
Entry = TwoFactorMethod × Text

abbrev pub priority : Entry → ℕ
priority x = auth_priority x.0

-- No entry of the list is preferred to `x`.
abbrev pub IsBelow : Entry → List Entry → Type 0
IsBelow x xs = All (λ (y : Entry). priority y ≤ priority x) xs

abbrev pub IsSorted : List Entry → Type 0
IsSorted [] = Unit
IsSorted (x ∷ xs) = IsBelow x xs × IsSorted xs

IsBelow-insert :
    (x y : Entry) (ys : List Entry)
    → priority y ≤ priority x
    → IsBelow x ys
    → IsBelow x (insert y ys)
IsBelow-insert x y [] le h = (le, tt)
IsBelow-insert x y (z ∷ ys) le h = ground (arith, IsBelow-insert x y ys le h.1)

IsBelow-weaken :
    (x y : Entry) (ys : List Entry) → priority y ≤ priority x → IsBelow y ys → IsBelow x ys
IsBelow-weaken x y [] le h = tt
IsBelow-weaken x y (z ∷ ys) le h = (omega (arith, le, h.0), IsBelow-weaken x y ys le h.1)

insert-IsSorted : (x : Entry) (ys : List Entry) → IsSorted ys → IsSorted (insert x ys)
insert-IsSorted x [] h = (tt, tt)
insert-IsSorted x (y ∷ ys) h =
    ground (arith, insert-IsSorted x ys h.1, IsBelow-weaken x y ys, IsBelow-insert y x ys)

any-insert : (p : Entry → Bool) (x : Entry) (ys : List Entry) → any p (insert x ys) ≡ any p (x ∷ ys)
any-insert p x [] = refl
any-insert p x (y ∷ ys) = ground (arith, any-insert p x ys)

length-insert : (x : Entry) (ys : List Entry) → length (insert x ys) ≡ suc (length ys)
length-insert x [] = refl
length-insert x (y ∷ ys) = ground (arith, length-insert x ys)

-- The sort keeps the number of entries and, for any test, whether some entry passes it; and no entry
-- stands behind one that is preferred less.
pub by_priority-IsSorted :
    (p : Entry → Bool) (xs : List Entry)
    → IsSorted (by_priority xs)
      × (length (by_priority xs) ≡ length xs)
      × (any p (by_priority xs) ≡ any p xs)
unfolding by_priority
by_priority-IsSorted p [] = (tt, refl, refl)
by_priority-IsSorted p (x ∷ xs) =
    let (sorted, size, same) = by_priority-IsSorted p xs in
    (
      insert-IsSorted x (by_priority xs) sorted,
      omega (arith, length-insert x (by_priority xs), size),
      ground (arith, any-insert p x (by_priority xs), same),
    )

-- The list begins with a known method.
abbrev pub starts_known : List Entry → Bool
starts_known [] = false
starts_known ((m, msg) ∷ _) = not (m =? unknown)

unknown-priority : (m : TwoFactorMethod) → (m =? unknown) ≡ leb (auth_priority m) 0
unfolding auth_priority
unknown-priority nothing = refl
unknown-priority phone_code = refl
unknown-priority email_code = refl
unknown-priority phone_confirm = refl
unknown-priority unknown = refl

starts_known-insert :
    (x : Entry) (ys : List Entry)
    → starts_known (insert x ys) ≡ (if starts_known (x ∷ []) then true else starts_known ys)
starts_known-insert (m, msg) [] = ground arith
starts_known-insert (m, msg) ((n, msg') ∷ ys) =
    ground (arith, unknown-priority m, unknown-priority n)

-- The first method of the sorted list is known exactly if any method is.
pub starts_known-by_priority :
    (xs : List Entry) → starts_known (by_priority xs) ≡ has_valid_confirmation_method xs
unfolding by_priority has_valid_confirmation_method
starts_known-by_priority [] = refl
starts_known-by_priority ((m, msg) ∷ xs) =
    ground (arith, starts_known-insert (m, msg) (by_priority xs), starts_known-by_priority xs)

-- A method that is sent to Steam is read back as the same method.
pub to_two_factor_method-to_guard_type :
    (m : TwoFactorMethod) → to_two_factor_method (to_guard_type m) ≡ m
unfolding to_two_factor_method to_guard_type
to_two_factor_method-to_guard_type nothing = refl
to_two_factor_method-to_guard_type phone_code = refl
to_two_factor_method-to_guard_type email_code = refl
to_two_factor_method-to_guard_type phone_confirm = refl
to_two_factor_method-to_guard_type unknown = refl
