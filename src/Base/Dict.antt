-- ===== src/Base/Dict.antt =====
-- A Python dict: an association list in insertion order, each key once.
pub mod Laws
use Prim.Native.Nat.{ℕ, zero, suc, ◌+◌, ◌≤◌}
use mathlib.Core.Path.{◌≡◌, refl, ap, sym}
use mathlib.Core.Logic.{◌≢◌, ◌⊎◌, inl, inr}
use mathlib.Core.Bool.{Bool, true, false}
use mathlib.Core.Option.{Option, none, some}
use mathlib.Core.List.{List, [], ◌∷◌, ◌++◌, map}
use native.Mathlib.Omega.{arith}

abbrev pub Dict {ℓ κ} : Type ℓ → Type κ → Type (ℓ ⊔ κ)
Dict K V = List (K × V)

abbrev pub keys {ℓ κ} : {K : Type ℓ} {V : Type κ} → Dict K V → List K
keys d = map (λ e. e.0) d

abbrev pub values {ℓ κ} : {K : Type ℓ} {V : Type κ} → Dict K V → List V
values d = map (λ e. e.1) d

-- No element of the list is `k`.
abbrev pub Absent {ℓ} : {K : Type ℓ} → K → List K → Type ℓ
Absent k [] = Unit
Absent k (j ∷ l) = (k ≢ j) × Absent k l

-- The elements are pairwise different.
abbrev pub Distinct {ℓ} : {K : Type ℓ} → List K → Type ℓ
Distinct [] = Unit
Distinct (k ∷ l) = Absent k l × Distinct l

module _ {ℓ κ} {K : Type ℓ} {V : Type κ} (dec : Discrete K) where
  -- `d.get(k)`
  abbrev pub get : K → Dict K V → Option V
  get k [] = none
  get k ((j, v) ∷ d) = elim (dec k j) [ yes _ ↦ some v | no _ ↦ get k d ]

  -- `d[k] = v`
  abbrev pub set : K → V → Dict K V → Dict K V
  set k v [] = (k, v) ∷ []
  set k v ((j, w) ∷ d) = elim (dec k j) [ yes _ ↦ (j, v) ∷ d | no _ ↦ (j, w) ∷ set k v d ]

  -- `d.pop(k, None)`, the dict that it leaves
  abbrev pub without : K → Dict K V → Dict K V
  without k [] = []
  without k ((j, w) ∷ d) = elim (dec k j) [ yes _ ↦ d | no _ ↦ (j, w) ∷ without k d ]

  -- `k in d`
  abbrev pub contains : K → Dict K V → Bool
  contains k d = elim (get k d) [ none ↦ false | some _ ↦ true ]
