-- ===== src/LoadBalancing/Balancers/Laws.antt =====
-- Grouping makes one group of the nodes of a key, and neither loses nor doubles a node.
use mathlib.Core.List.{Perm}
use mathlib.Core.List.Perm
use rosy.Base.{
  ◌≡◌, refl, ap, ◌∙◌, List, [], ◌∷◌, ◌++◌, ◌≢◌, true, false, All, Bool-cases, inl, inr, arith,
}
use rosy.Base.Text.{Text}
use rosy.Mesh.{MeshNodeSpec}
use rosy.LoadBalancing.Balancers.{text_lt, insert_node, sort_nodes, add_to_groups, group_nodes}

-- The order of texts is strict and total.
pub text_lt_total : (a b : Text) → a ≢ b → text_lt a b ≡ false → text_lt b a ≡ true
unfolding text_lt
text_lt_total [] [] ne h = absurd (ne refl)
text_lt_total [] (y ∷ b) ne h = absurd (ground (arith, h))
text_lt_total (x ∷ a) [] ne h = refl
text_lt_total (x ∷ a) (y ∷ b) ne h = ground (arith, text_lt_total a b, ne)

module _ (group_key : MeshNodeSpec → Text) where
  insert-Perm :
      (node : MeshNodeSpec) (xs : List MeshNodeSpec)
      → Perm (insert_node group_key node xs) (node ∷ xs)
  unfolding insert_node
  insert-Perm node [] = Perm.refl (node ∷ [])
  insert-Perm node (x ∷ xs) = elim (Bool-cases (text_lt (group_key x) (group_key node))) [
    | inl e ↦ rw e (Perm.trans (Perm.cons x (insert-Perm node xs)) (Perm.swap node x xs))
    | inr e ↦ rw e (Perm.refl (node ∷ x ∷ xs))
  ]

  pub sort_nodes-Perm : (xs : List MeshNodeSpec) → Perm (sort_nodes group_key xs) xs
  unfolding sort_nodes
  sort_nodes-Perm [] = Perm.refl []
  sort_nodes-Perm (x ∷ xs) =
      Perm.trans (insert-Perm x (sort_nodes group_key xs)) (Perm.cons x (sort_nodes-Perm xs))

  abbrev pub joined : List (List MeshNodeSpec) → List MeshNodeSpec
  joined [] = []
  joined (g ∷ gs) = g ++ joined gs

  joined-add :
      (x : MeshNodeSpec) (gs : List (List MeshNodeSpec))
      → joined (add_to_groups group_key x gs) ≡ x ∷ joined gs
  unfolding add_to_groups
  joined-add x [] = refl
  joined-add x ([] ∷ gs) = refl
  joined-add x ((y ∷ g) ∷ gs) = ground arith

  pub joined-group_nodes : (xs : List MeshNodeSpec) → joined (group_nodes group_key xs) ≡ xs
  unfolding group_nodes
  joined-group_nodes [] = refl
  joined-group_nodes (x ∷ xs) =
      joined-add x (group_nodes group_key xs) ∙ ap (λ l. x ∷ l) (joined-group_nodes xs)

  -- The first of the nodes has no lesser key.
  abbrev NotAbove : MeshNodeSpec → List MeshNodeSpec → Type 0
  NotAbove x [] = Unit
  NotAbove x (y ∷ _) = text_lt (group_key y) (group_key x) ≡ false

  abbrev Sorted : List MeshNodeSpec → Type 0
  Sorted [] = Unit
  Sorted (x ∷ xs) = NotAbove x xs × Sorted xs

  -- The first of the groups has a greater key.
  abbrev pub Below : Text → List (List MeshNodeSpec) → Type 0
  Below k [] = Unit
  Below k ([] ∷ _) = ⊥
  Below k ((y ∷ _) ∷ _) = text_lt k (group_key y) ≡ true

  -- No group is empty, the nodes of a group have one key, and the keys ascend from group to group.
  abbrev pub Grouped : List (List MeshNodeSpec) → Type 0
  Grouped [] = Unit
  Grouped ([] ∷ gs) = ⊥
  Grouped ((x ∷ g) ∷ gs) =
      All (λ y. group_key y ≡ group_key x) g × (Below (group_key x) gs × Grouped gs)
