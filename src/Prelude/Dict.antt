-- ===== src/Prelude/Dict.antt =====
-- Python's `dict` in insertion order.

use mathlib.Core.Path.{◌≡◌, refl}
use mathlib.Core.Bool.{Bool, true, false}
use mathlib.Core.Option.{Option, none, some}
use mathlib.Core.List.{List, [], ◌∷◌, ◌++◌}
use native.Mathlib.Omega.{arith}
use galaxy_integration_steam.Prelude.Tests.{if◌then◌else◌}
use galaxy_integration_steam.Prelude.Keys.{Eq, ◌=?◌}

abbrev pub Dict {ℓ κ} : Type ℓ → Type κ → Type (ℓ ⊔ κ)
Dict K V = List (K × V)

module _ {ℓ κ} {K : Type ℓ} {V : Type κ} ⦃e : Eq K⦄ where
  -- d.get(k)
  abbrev pub get : K → Dict K V → Option V
  get k [] = none
  get k ((j, v) ∷ d) = let rest = get k d in if j =? k then some v else rest

  -- k in d
  abbrev pub has : K → Dict K V → Bool
  has k d = elim (get k d) [ none ↦ false | some _ ↦ true ]

  -- d[k] = v
  abbrev pub put : K → V → Dict K V → Dict K V
  put k v [] = (k, v) ∷ []
  put k v ((j, w) ∷ d) = let rest = put k v d in if j =? k then (j, v) ∷ d else (j, w) ∷ rest

  -- d.pop(k, None)
  abbrev pub pop : K → Dict K V → Dict K V
  pop k [] = []
  pop k ((j, w) ∷ d) = let rest = pop k d in if j =? k then rest else (j, w) ∷ rest

  -- As in every dictionary of Python.
  abbrev pub HasUniqueKeys : Dict K V → Type 0
  HasUniqueKeys [] = Unit
  HasUniqueKeys ((k, _) ∷ d) = (has k d ≡ false) × HasUniqueKeys d

  pub get-put :
      (k j : K) (v : V) (d : Dict K V) → get j (put k v d) ≡ (if k =? j then some v else get j d)
  get-put k j v [] = refl
  get-put k j v ((i, w) ∷ d) =
      ground (arith, get-put k j v d, e.beq_iff i k, e.beq_iff i j, e.beq_iff k j)

  pub put-HasUniqueKeys :
      (k : K) (v : V) (d : Dict K V) → HasUniqueKeys d → HasUniqueKeys (put k v d)
  put-HasUniqueKeys k v [] u = (refl, tt)
  put-HasUniqueKeys k v ((j, w) ∷ d) (fresh, u) =
      ground
        (arith, put-HasUniqueKeys k v d u, get-put k j v d, e.beq_iff j k, e.beq_iff k j, fresh, u)

  pub get-pop : (k j : K) (d : Dict K V) → get j (pop k d) ≡ (if k =? j then none else get j d)
  get-pop k j [] = ground arith
  get-pop k j ((i, w) ∷ d) =
      ground (arith, get-pop k j d, e.beq_iff i k, e.beq_iff i j, e.beq_iff k j)

  -- A new key comes last.
  pub put-fresh : (k : K) (v : V) (d : Dict K V) → has k d ≡ false → put k v d ≡ d ++ (k, v) ∷ []
  put-fresh k v [] h = refl
  put-fresh k v ((j, w) ∷ d) h = ground (arith, put-fresh k v d, h)

  pub has-append_one :
      (j k : K) (v : V) (d : Dict K V)
      → has j d ≡ false
      → (k =? j) ≡ false
      → has j (d ++ (k, v) ∷ []) ≡ false
  has-append_one j k v [] h p = ground (arith, p)
  has-append_one j k v ((i, w) ∷ d) h p = ground (arith, has-append_one j k v d, h, p)

module _ {ℓ κ} {K : Type ℓ} {V : Type κ} where
  -- d.keys()
  abbrev pub keys : Dict K V → List K
  keys [] = []
  keys ((k, _) ∷ d) = k ∷ keys d

  -- d.values()
  abbrev pub values : Dict K V → List V
  values [] = []
  values ((_, v) ∷ d) = v ∷ values d
