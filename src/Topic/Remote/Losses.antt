-- ===== src/Topic/Remote/Losses.antt =====
-- Lists from which some elements are lost, the others in their order.
use rosy.Base.{ℕ, suc, ◌+◌, ◌≡◌, refl, sym, ap, subst, List, [], ◌∷◌, ◌++◌, length, All, arith}

-- `Drops n xs ys`: `xs` is `ys` without `n` of its elements.
pub data Drops {A : Type 0} : ℕ → List A → List A → Type 0 where
  all : Drops 0 [] []
  keep : {n : ℕ} {x : A} {xs ys : List A} → Drops n xs ys → Drops n (x ∷ xs) (x ∷ ys)
  drop_one : {n : ℕ} {y : A} {xs ys : List A} → Drops n xs ys → Drops (suc n) xs (y ∷ ys)

module _ {A : Type 0} where
  -- One element behind both.
  pub snoc :
      {n : ℕ} {xs ys : List A} (x : A) → Drops n xs ys → Drops n (xs ++ x ∷ []) (ys ++ x ∷ [])
  snoc x all = keep all
  snoc x (keep d) = keep (snoc x d)
  snoc x (drop_one d) = drop_one (snoc x d)

  abbrev head_or : A → List A → A
  head_or a [] = a
  head_or a (x ∷ _) = x

  abbrev tail : List A → List A
  tail [] = []
  tail (_ ∷ xs) = xs

  lose_at :
      {n : ℕ} {us ws : List A}
      → Drops n us ws
      → (xs : List A) (y : A) (zs : List A) → us ≡ xs ++ y ∷ zs
      → Drops (suc n) (xs ++ zs) ws
  lose_at all [] y zs e = absurd (ground (arith, e))
  lose_at all (_ ∷ _) y zs e = absurd (ground (arith, e))
  lose_at (keep {n} {x} {xs = us} {ys = ws} d) [] y zs e =
      drop_one (subst (λ l. Drops n l ws) (ap tail e) d)
  lose_at (keep {n} {x} {xs = us} {ys = ws} d) (x' ∷ xs) y zs e =
      subst (λ h. Drops (suc n) (x' ∷ (xs ++ zs)) (h ∷ ws)) (sym (ap (head_or x) e))
        (keep (lose_at d xs y zs (ap tail e)))
  lose_at (drop_one d) xs y zs e = drop_one (lose_at d xs y zs e)

  -- An element in the middle is lost too.
  pub lose :
      {n : ℕ} {ws : List A} (xs : List A) (y : A) (zs : List A)
      → Drops n (xs ++ y ∷ zs) ws
      → Drops (suc n) (xs ++ zs) ws
  lose xs y zs d = lose_at d xs y zs refl

  pub Drops-length : {n : ℕ} {xs ys : List A} → Drops n xs ys → length ys ≡ length xs + n
  Drops-length all = omega arith
  Drops-length (keep d) = omega (arith, Drops-length d)
  Drops-length (drop_one d) = omega (arith, Drops-length d)

  pub Drops-none : {n : ℕ} {xs ys : List A} → Drops n xs ys → n ≡ 0 → xs ≡ ys
  Drops-none all e = refl
  Drops-none (keep {x = x} d) e = ap (λ l. x ∷ l) (Drops-none d e)
  Drops-none (drop_one d) e = absurd (omega (arith, e))

  pub All-Drops : (P : A → Type 0) {n : ℕ} {xs ys : List A} → Drops n xs ys → All P ys → All P xs
  All-Drops P all h = tt
  All-Drops P (keep d) h = (h.0, All-Drops P d h.1)
  All-Drops P (drop_one d) h = All-Drops P d h.1
