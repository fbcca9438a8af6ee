-- ===== src/LoadBalancing/Recent/Laws.antt =====
-- The node chosen is one of the candidates, and none of them was used less recently.
use rosy.Base.{ℕ, ◌≡◌, Option, some, List, [], ◌∷◌}
use rosy.Base.Dict.{get}
use rosy.Mesh.{NodeId, NodeId-discrete, MeshNodeSpec}
use rosy.LoadBalancing.Recent.{LeastRecent, with_times}

-- The time that the table has for a node; a node without one has none.
abbrev pub time_of : LeastRecent → NodeId → Option ℕ
time_of s id = get NodeId-discrete id s.last_used

abbrev Pair : Type 0
Pair = MeshNodeSpec × ℕ

-- The pairs are the nodes with their times in the table `s`, in order.
abbrev Tracks : LeastRecent → List MeshNodeSpec → List Pair → Type 0
Tracks s [] [] = Unit
Tracks s [] (_ ∷ _) = ⊥
Tracks s (_ ∷ _) [] = ⊥
Tracks s (n ∷ ns) (p ∷ ps) =
    (p.0 ≡ n) × ((u : ℕ) → time_of s n.id ≡ some u → p.1 ≡ u) × Tracks s ns ps

module _ (node : MeshNodeSpec) (nodes : List MeshNodeSpec) (s : LeastRecent) where
  abbrev pairs : List Pair
  pairs = (with_times (node ∷ nodes) s).0
