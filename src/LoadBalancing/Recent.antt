-- ===== src/LoadBalancing/Recent.antt =====
-- LeastRecentLoadBalancer and RandomLoadBalancer of src/rosy/node/loadbalancing.py.
pub mod Laws
use rosy.Base.{
  ℕ, zero, suc, ◌+◌, Bool, true, false, Option, none, some, List, [], ◌∷◌, ltb, if◌then◌else◌,
  length,
}
use rosy.Base.Dict.{Dict, get, set}
use rosy.Mesh.{NodeId, NodeId-discrete, MeshNodeSpec}

-- `clock` has the readings of `time_func` still to come, by number, and `draws` the values
-- `t0 * rng.random()` of the default factory; times are in ticks.
pub record LeastRecent : Type 0 where
  pub last_used : Dict NodeId ℕ
  pub clock : ℕ → ℕ
  pub readings : ℕ
  pub draws : ℕ → ℕ
  pub drawn : ℕ

-- `self._last_used[id]` of the `defaultdict`: a missing id is entered with a drawn value.
unfoldable pub last_used_time : NodeId → LeastRecent → ℕ × LeastRecent
last_used_time id s = elim (get NodeId-discrete id s.last_used) [
  | some t ↦ (t, s)
  | none ↦ (
    s.draws s.drawn,
    record s {
      last_used = set NodeId-discrete id (s.draws s.drawn) s.last_used;
      drawn = s.drawn + 1;
    },
  )
]

-- `zip(nodes, last_used_times)`
unfoldable pub with_times : List MeshNodeSpec → LeastRecent → List (MeshNodeSpec × ℕ) × LeastRecent
with_times [] s = ([], s)
with_times (node ∷ nodes) s =
    let (t, s') = last_used_time node.id s in
    let (rest, s'') = with_times nodes s' in ((node, t) ∷ rest, s'')

-- `min(…, key=lambda i: i[1])`: the first of the least; `best` is the least so far.
unfoldable pub least : MeshNodeSpec × ℕ → List (MeshNodeSpec × ℕ) → MeshNodeSpec × ℕ
least best [] = best
least best (x ∷ xs) = least (if ltb x.1 best.1 then x else best) xs

abbrev least_of : List (MeshNodeSpec × ℕ) → Option (MeshNodeSpec × ℕ)
least_of [] = none
least_of (x ∷ xs) = some (least x xs)

-- `self._last_used[node.id] = self.time_func()`
unfoldable pub mark_used : MeshNodeSpec → LeastRecent → LeastRecent
mark_used node s = record s {
  last_used = set NodeId-discrete node.id (s.clock s.readings) s.last_used;
  readings = s.readings + 1;
}

-- `choose_node`, by `_get_least_recent_node` where there are nodes
unfoldable pub choose_node : List MeshNodeSpec → LeastRecent → Option MeshNodeSpec × LeastRecent
unfolding mark_used
choose_node [] s = (none, s)
choose_node (node ∷ nodes) s =
    let (t, s') = last_used_time node.id s in
    let (rest, s'') = with_times nodes s' in
    let best = least (node, t) rest in (some best.0, mark_used best.0 s'')

-- `choose_nodes`
unfoldable pub choose_nodes : List MeshNodeSpec → LeastRecent → List MeshNodeSpec × LeastRecent
unfolding choose_node
choose_nodes nodes s =
    let (chosen, s') = choose_node nodes s in (elim chosen [ none ↦ [] | some n ↦ n ∷ [] ], s')

-- `rng.choice(nodes)` takes the element at `randbelow(len(nodes))`; the generator is a parameter.
abbrev pub element : ℕ → MeshNodeSpec → List MeshNodeSpec → MeshNodeSpec
element i node [] = node
element zero node (x ∷ xs) = node
element (suc i) node (x ∷ xs) = element i x xs

module _ {R : Type 0} (randbelow : ℕ → R → ℕ × R) where
  -- `RandomLoadBalancer.choose_node`
  unfoldable pub random_choose_node : List MeshNodeSpec → R → Option MeshNodeSpec × R
  random_choose_node [] rng = (none, rng)
  random_choose_node (node ∷ nodes) rng =
      let (i, rng') = randbelow (length (node ∷ nodes)) rng in (some (element i node nodes), rng')

  -- `RandomLoadBalancer.choose_nodes`
  unfoldable pub random_choose_nodes : List MeshNodeSpec → R → List MeshNodeSpec × R
  random_choose_nodes [] rng = ([], rng)
  random_choose_nodes (node ∷ nodes) rng =
      let (i, rng') = randbelow (length (node ∷ nodes)) rng in (element i node nodes ∷ [], rng')
