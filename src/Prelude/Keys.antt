-- ===== src/Prelude/Keys.antt =====
-- Equality tests as an interface: what Python compares by `==`, uses as a key, or keeps in a set.
use Prim.Native.Nat.{ℕ}
use Prim.Native.String.{String}
use mathlib.Core.Path.{◌≡◌}
use mathlib.Core.Logic.{◌↔◌}
use mathlib.Core.Bool.{Bool, true, false}
use mathlib.Core.List.{List, [], ◌∷◌}
use text.Mathlib.Text.{◌==◌ as str_beq}
use text.Mathlib.TextEquality.{eq_iff}
use native.Mathlib.Omega.{arith}
use galaxy_integration_steam.Prelude.Tests.{◌==◌ as nat_beq, ==_iff, if◌then◌else◌}

pub record Eq {ℓ} (A : Type ℓ) : Type ℓ where
  pub beq : A → A → Bool
  pub beq_iff : (a b : A) → (beq a b ≡ true) ↔ (a ≡ b)

infix 50 ◌=?◌
abbrev pub ◌=?◌ {ℓ} : {A : Type ℓ} ⦃e : Eq A⦄ → A → A → Bool
◌=?◌ ⦃e⦄ = e.beq

instance abbrev pub nat_eq : Eq ℕ
nat_eq = record { beq = nat_beq; beq_iff = ==_iff }

instance abbrev pub string_eq : Eq String
string_eq = record { beq = str_beq; beq_iff = eq_iff }

module _ {ℓ} {A : Type ℓ} ⦃e : Eq A⦄ where
  -- `a in xs`
  abbrev pub contains : A → List A → Bool
  contains a [] = false
  contains a (x ∷ xs) = let rest = contains a xs in if x =? a then true else rest

  -- `s.add(a)`, a set kept as a list of its members.
  abbrev pub set_add : A → List A → List A
  set_add a xs = if contains a xs then xs else (a ∷ xs)

  -- `xs.remove(a)`: the first occurrence goes.
  abbrev pub list_remove : A → List A → List A
  list_remove a [] = []
  list_remove a (x ∷ xs) = let rest = list_remove a xs in if x =? a then xs else (x ∷ rest)

  pub contains-set_add :
      (a b : A) (xs : List A) → contains b (set_add a xs) ≡ (if a =? b then true else contains b xs)
  contains-set_add a b xs = ground (arith, e.beq_iff a b)
