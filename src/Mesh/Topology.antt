-- ===== src/Mesh/Topology.antt =====
-- MeshTopologyManager of src/rosy/node/topology.py.
pub mod Laws
pub mod Refines
use rosy.Base.{
  Bool, true, false, not, Option, none, some, List, [], ◌∷◌, ◌++◌, holds, if◌then◌else◌,
}
use rosy.Base.Text.{Text, Text-discrete}
use rosy.Base.Dict.{Dict, get, set}
use rosy.Mesh.{NodeId, NodeId-discrete, MeshNodeSpec}

-- The nodes of a topology; each `set` of a node is a list without duplicates, in iteration order.
abbrev pub MeshTopologySpec : Type 0
MeshTopologySpec = List MeshNodeSpec

abbrev pub NodesCache : Type 0
NodesCache = Dict Text (List MeshNodeSpec)

pub record MeshTopologyManager : Type 0 where
  pub topology : MeshTopologySpec
  pub topic_nodes_cache : NodesCache
  pub service_nodes_cache : NodesCache

-- `cache[name]` of a `defaultdict(list)`
abbrev pub nodes_for : Text → NodesCache → List MeshNodeSpec
nodes_for name cache = elim (get Text-discrete name cache) [ none ↦ [] | some nodes ↦ nodes ]

-- `cache[name].append(node)`
abbrev pub append_node : MeshNodeSpec → Text → NodesCache → NodesCache
append_node node name cache = set Text-discrete name (nodes_for name cache ++ node ∷ []) cache

-- The inner loop, over the names of one node.
unfoldable pub cache_names : MeshNodeSpec → List Text → NodesCache → NodesCache
cache_names node [] cache = cache
cache_names node (name ∷ names) cache = cache_names node names (append_node node name cache)

-- `_cache_topic_nodes`
unfoldable pub cache_topic_nodes : MeshTopologySpec → NodesCache → NodesCache
cache_topic_nodes [] cache = cache
cache_topic_nodes (node ∷ nodes) cache =
    cache_topic_nodes nodes (cache_names node node.topics cache)

-- `_cache_service_nodes`
unfoldable pub cache_service_nodes : MeshTopologySpec → NodesCache → NodesCache
cache_service_nodes [] cache = cache
cache_service_nodes (node ∷ nodes) cache =
    cache_service_nodes nodes (cache_names node node.services cache)

unfoldable pub set_topology : MeshTopologySpec → MeshTopologyManager → MeshTopologyManager
set_topology topology m = record {
  topology = topology;
  topic_nodes_cache = cache_topic_nodes topology [];
  service_nodes_cache = cache_service_nodes topology [];
}

-- A read of a `defaultdict` enters a missing name with an empty list.
abbrev pub read_cache : Text → NodesCache → NodesCache
read_cache name cache = set Text-discrete name (nodes_for name cache) cache

unfoldable pub get_nodes_listening_to_topic :
    Text → MeshTopologyManager → List MeshNodeSpec × MeshTopologyManager
get_nodes_listening_to_topic topic m = (
  nodes_for topic m.topic_nodes_cache,
  record m { topic_nodes_cache = read_cache topic m.topic_nodes_cache },
)

unfoldable pub get_nodes_providing_service :
    Text → MeshTopologyManager → List MeshNodeSpec × MeshTopologyManager
get_nodes_providing_service service m = (
  nodes_for service m.service_nodes_cache,
  record m { service_nodes_cache = read_cache service m.service_nodes_cache },
)

-- `node.id in {n.id for n in nodes}`
unfoldable pub has_id : NodeId → MeshTopologySpec → Bool
has_id id [] = false
has_id id (node ∷ nodes) =
    let rest = has_id id nodes in if holds (NodeId-discrete id node.id) then true else rest

-- The comprehension of `get_removed_nodes`.
unfoldable pub removed_from : MeshTopologySpec → MeshTopologySpec → List MeshNodeSpec
removed_from new_topology [] = []
removed_from new_topology (node ∷ nodes) =
    let rest = removed_from new_topology nodes in
    if has_id node.id new_topology then rest else node ∷ rest

unfoldable pub get_removed_nodes : MeshTopologySpec → MeshTopologyManager → List MeshNodeSpec
get_removed_nodes new_topology m = removed_from new_topology m.topology
