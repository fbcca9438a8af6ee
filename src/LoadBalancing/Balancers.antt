-- ===== src/LoadBalancing/Balancers.antt =====
-- The load balancers of src/rosy/node/loadbalancing.py.
pub mod Laws
use rosy.Base.{
  ℕ, zero, suc, Bool, true, false, Option, none, some, List, [], ◌∷◌, ◌++◌, ltb, holds,
  if◌then◌else◌, length, ◌%◌,
}
use rosy.Base.Text.{Text, Text-discrete}
use rosy.Base.Dict.{Dict, get, set}
use rosy.Mesh.{NodeId, NodeId-discrete, MeshNodeSpec}

-- A topic balancer over a state `S`: its random numbers, clock and tables.
abbrev pub TopicBalancer : Type 0 → Type 0
TopicBalancer S = List MeshNodeSpec → S → List MeshNodeSpec × S

-- `NoopTopicLoadBalancer.choose_nodes`
unfoldable pub noop_choose_nodes : {S : Type 0} → TopicBalancer S
noop_choose_nodes nodes s = (nodes, s)

-- `node_name_group_key`
abbrev pub node_name_group_key : MeshNodeSpec → Text
node_name_group_key node = node.id.name

-- Python's order of str: by code points.
unfoldable pub text_lt : Text → Text → Bool
text_lt [] [] = false
text_lt [] (_ ∷ _) = true
text_lt (_ ∷ _) [] = false
text_lt (a ∷ s) (b ∷ t) =
    let rest = text_lt s t in if ltb a b then true else if ltb b a then false else rest

module _ (group_key : MeshNodeSpec → Text) where
  -- Before the first element whose key is greater: `sorted` is stable.
  unfoldable pub insert_node : MeshNodeSpec → List MeshNodeSpec → List MeshNodeSpec
  unfolding text_lt
  insert_node node [] = node ∷ []
  insert_node node (x ∷ xs) =
      let rest = insert_node node xs in
      if text_lt (group_key x) (group_key node) then x ∷ rest else node ∷ x ∷ xs

  -- `sorted(nodes, key=group_key)`, from the last node to the first, each before its equals
  unfoldable pub sort_nodes : List MeshNodeSpec → List MeshNodeSpec
  unfolding insert_node
  sort_nodes [] = []
  sort_nodes (node ∷ nodes) = insert_node node (sort_nodes nodes)

  -- One element put before groups: it joins the first group if the keys are the same.
  unfoldable pub add_to_groups : MeshNodeSpec → List (List MeshNodeSpec) → List (List MeshNodeSpec)
  unfolding Text-discrete
  add_to_groups node ((x ∷ group) ∷ groups) =
      if holds (Text-discrete (group_key node) (group_key x))
      then (node ∷ x ∷ group) ∷ groups
      else (node ∷ []) ∷ (x ∷ group) ∷ groups
  add_to_groups node groups = (node ∷ []) ∷ groups

  -- `groupby(nodes, key=group_key)`: runs of neighbours with one key
  unfoldable pub group_nodes : List MeshNodeSpec → List (List MeshNodeSpec)
  unfolding add_to_groups
  group_nodes [] = []
  group_nodes (node ∷ nodes) = add_to_groups node (group_nodes nodes)

  -- `chain.from_iterable` over the groups, in order; the inner balancer keeps its state.
  unfoldable pub choose_each :
      {S : Type 0} → TopicBalancer S → List (List MeshNodeSpec) → S → List MeshNodeSpec × S
  choose_each inner [] s = ([], s)
  choose_each inner (group ∷ groups) s =
      let (chosen, s') = inner group s in
      let (rest, s'') = choose_each inner groups s' in (chosen ++ rest, s'')

  -- `GroupingTopicLoadBalancer.choose_nodes`
  unfoldable pub grouping_choose_nodes : {S : Type 0} → TopicBalancer S → TopicBalancer S
  unfolding sort_nodes group_nodes choose_each
  grouping_choose_nodes inner [] s = ([], s)
  grouping_choose_nodes inner (node ∷ nodes) s =
      choose_each inner (group_nodes (sort_nodes (node ∷ nodes))) s
