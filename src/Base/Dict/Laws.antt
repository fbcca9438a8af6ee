-- ===== src/Base/Dict/Laws.antt =====
-- Laws of the dict operations.
use mathlib.Core.Path.{◌≡◌, refl, ap, sym, subst}
use mathlib.Core.Logic.{◌≢◌}
use mathlib.Core.Option.{none, some}
use mathlib.Core.List.{List, [], ◌∷◌, ◌++◌}
use native.Mathlib.Omega.{arith}
use rosy.Base.Tests.{holds, if◌then◌else◌}
use rosy.Base.Dict.{Dict, keys, get, set, without, Absent, Distinct}

module _ {ℓ} {K : Type ℓ} where
  pub Absent-append : (k : K) (xs ys : List K) → Absent k xs → Absent k ys → Absent k (xs ++ ys)
  Absent-append k [] ys h g = g
  Absent-append k (x ∷ xs) ys h g = (h.0, Absent-append k xs ys h.1 g)

module _ {ℓ κ} {K : Type ℓ} {V : Type κ} (dec : Discrete K) where
  -- A write to a new key goes to the end.
  pub set-Absent :
      (k : K) (v : V) (d : Dict K V) → Absent k (keys d) → set dec k v d ≡ d ++ (k, v) ∷ []
  set-Absent k v [] h = refl
  set-Absent k v ((j, w) ∷ d) h =
      elim (dec k j)
        as (λ b.
          elim b as (λ _. Dict K V) [ yes _ ↦ (j, v) ∷ d | no _ ↦ (j, w) ∷ set dec k v d ]
          ≡ (j, w) ∷ (d ++ (k, v) ∷ [])) [
            | yes p ↦ absurd (h.0 p)
            | no p ↦ ap (λ l. (j, w) ∷ l) (set-Absent k v d h.1)
          ]

  pub get-set_self : (k : K) (v : V) (d : Dict K V) → get dec k (set dec k v d) ≡ some v
  get-set_self k v [] = ground arith
  get-set_self k v ((j, w) ∷ d) = ground (arith, get-set_self k v d)

  pub get-set_ne :
      (k j : K) (v : V) (d : Dict K V) → j ≢ k → get dec j (set dec k v d) ≡ get dec j d
  get-set_ne k j v [] h = ground arith
  get-set_ne k j v ((i, w) ∷ d) h = ground (arith, get-set_ne k j v d h)

  pub get-Absent : (k : K) (d : Dict K V) → Absent k (keys d) → get dec k d ≡ none
  get-Absent k [] h = refl
  get-Absent k ((j, w) ∷ d) h = ground (arith, get-Absent k d h.1, h.0)

  pub get-without_ne : (k j : K) (d : Dict K V) → j ≢ k → get dec j (without dec k d) ≡ get dec j d
  get-without_ne k j [] h = refl
  get-without_ne k j ((i, w) ∷ d) h = ground (arith, get-without_ne k j d h)

  pub get-without_self :
      (k : K) (d : Dict K V) → Distinct (keys d) → get dec k (without dec k d) ≡ none
  get-without_self k [] h = refl
  get-without_self k ((j, w) ∷ d) h = ground (arith, get-without_self k d h.1, get-Absent j d h.0)

  -- The dict operations as functions on keys.
  pub get-set :
      (j k : K) (v : V) (d : Dict K V)
      → get dec j (set dec k v d) ≡ (if holds (dec j k) then some v else get dec j d)
  get-set j k v d =
      elim (dec j k)
        as (λ b. get dec j (set dec k v d) ≡ (if holds b then some v else get dec j d)) [
          | yes p ↦ subst (λ x. get dec x (set dec k v d) ≡ some v) (sym p) (get-set_self k v d)
          | no p ↦ get-set_ne k j v d p
        ]

  pub get-without :
      (j k : K) (d : Dict K V)
      → Distinct (keys d)
      → get dec j (without dec k d) ≡ (if holds (dec j k) then none else get dec j d)
  get-without j k d u =
      elim (dec j k)
        as (λ b. get dec j (without dec k d) ≡ (if holds b then none else get dec j d)) [
          | yes p ↦ subst (λ x. get dec x (without dec k d) ≡ none) (sym p) (get-without_self k d u)
          | no p ↦ get-without_ne k j d p
        ]

  Absent-set :
      (j k : K) (v : V) (d : Dict K V) → j ≢ k → Absent j (keys d) → Absent j (keys (set dec k v d))
  Absent-set j k v [] ne h = (ne, tt)
  Absent-set j k v ((i, w) ∷ d) ne h = ground (arith, Absent-set j k v d ne h.1)

  Absent-without : (j k : K) (d : Dict K V) → Absent j (keys d) → Absent j (keys (without dec k d))
  Absent-without j k [] h = tt
  Absent-without j k ((i, w) ∷ d) h = ground (arith, Absent-without j k d h.1)

  pub Distinct-set :
      (k : K) (v : V) (d : Dict K V) → Distinct (keys d) → Distinct (keys (set dec k v d))
  Distinct-set k v [] u = (tt, tt)
  Distinct-set k v ((j, w) ∷ d) u =
      elim (dec k j)
        as (λ b. Distinct (
          keys
            (elim b as (λ _. Dict K V) [ yes _ ↦ (j, v) ∷ d | no _ ↦ (j, w) ∷ set dec k v d ]))) [
              | yes p ↦ u
              | no p ↦ (Absent-set j k v d (λ e. p (sym e)) u.0, Distinct-set k v d u.1)
            ]

  pub Distinct-without :
      (k : K) (d : Dict K V) → Distinct (keys d) → Distinct (keys (without dec k d))
  Distinct-without k [] u = tt
  Distinct-without k ((j, w) ∷ d) u =
      elim (dec k j)
        as (λ b.
          Distinct
            (keys (elim b as (λ _. Dict K V) [ yes _ ↦ d | no _ ↦ (j, w) ∷ without dec k d ]))) [
              | yes p ↦ u.1
              | no p ↦ (Absent-without j k d u.0, Distinct-without k d u.1)
            ]
