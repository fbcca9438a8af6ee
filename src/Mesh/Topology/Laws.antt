-- ===== src/Mesh/Topology/Laws.antt =====
-- The caches of the topology manager agree with the topology.
use rosy.Base.{
  ◌≡◌, refl, sym, ap, ◌∙◌, Bool, true, false, not, ◌&&◌, List, [], ◌∷◌, ◌++◌, holds, if◌then◌else◌,
  All, arith, append_assoc, append-nil,
}
use rosy.Base.Text.{Text, Text-discrete}
use rosy.Base.Dict.{Distinct, Absent}
use rosy.Base.Dict.Laws.{get-set}
use rosy.Mesh.{NodeId, NodeId-discrete, MeshNodeSpec}
use rosy.Mesh.Topology.{
  MeshTopologySpec, NodesCache, MeshTopologyManager, nodes_for, append_node, cache_names,
  cache_topic_nodes, cache_service_nodes, set_topology, get_nodes_listening_to_topic,
  get_nodes_providing_service, read_cache, has_id, removed_from, get_removed_nodes,
}

unfoldable pub has_name : Text → List Text → Bool
has_name n [] = false
has_name n (m ∷ names) =
    let rest = has_name n names in if holds (Text-discrete n m) then true else rest

-- The nodes with the name among their names, in the order of the topology.
unfoldable pub nodes_with : (MeshNodeSpec → List Text) → Text → MeshTopologySpec → List MeshNodeSpec
unfolding has_name
nodes_with names n [] = []
nodes_with names n (node ∷ nodes) =
    let rest = nodes_with names n nodes in if has_name n (names node) then node ∷ rest else rest

nodes_for-append_node :
    (node : MeshNodeSpec) (n m : Text) (cache : NodesCache)
    → nodes_for n (append_node node m cache)
      ≡ (if holds (Text-discrete n m) then nodes_for n cache ++ node ∷ [] else nodes_for n cache)
nodes_for-append_node node n m cache =
    ground (arith, get-set Text-discrete n m (nodes_for m cache ++ node ∷ []) cache)

has_name-Absent : (n : Text) (names : List Text) → Absent n names → has_name n names ≡ false
unfolding has_name
has_name-Absent n [] h = refl
has_name-Absent n (m ∷ names) h = ground (arith, has_name-Absent n names h.1, h.0)

-- The inner loop appends the node once to the names that it has.
nodes_for-cache_names :
    (node : MeshNodeSpec) (n : Text) (names : List Text) (cache : NodesCache)
    → Distinct names
    → nodes_for n (cache_names node names cache)
      ≡ (if has_name n names then nodes_for n cache ++ node ∷ [] else nodes_for n cache)
unfolding cache_names has_name
nodes_for-cache_names node n [] cache u = refl
nodes_for-cache_names node n (m ∷ names) cache u =
    nodes_for-cache_names node n names (append_node node m cache) u.1
    ∙ ground (arith, nodes_for-append_node node n m cache, has_name-Absent m names u.0)

-- Names in a `set` are distinct.
abbrev pub NamesDistinct : (MeshNodeSpec → List Text) → MeshTopologySpec → Type 0
NamesDistinct names nodes = All (λ node. Distinct (names node)) nodes

append_if :
    (b : Bool) (node : MeshNodeSpec) (xs ys : List MeshNodeSpec)
    → (if b then xs ++ node ∷ [] else xs) ++ ys ≡ xs ++ (if b then node ∷ ys else ys)
append_if true node xs ys = append_assoc xs (node ∷ []) ys
append_if false node xs ys = refl

nodes_for-cache_topic_nodes :
    (n : Text) (nodes : MeshTopologySpec) (cache : NodesCache)
    → NamesDistinct (λ node. node.topics) nodes
    → nodes_for n (cache_topic_nodes nodes cache)
      ≡ nodes_for n cache ++ nodes_with (λ node. node.topics) n nodes
unfolding cache_topic_nodes nodes_with
nodes_for-cache_topic_nodes n [] cache u = sym (append-nil (nodes_for n cache))
nodes_for-cache_topic_nodes n (node ∷ nodes) cache u =
    let later = nodes_with (λ x. x.topics) n nodes in
    nodes_for-cache_topic_nodes n nodes (cache_names node node.topics cache) u.1
    ∙ ap (λ l. l ++ later) (nodes_for-cache_names node n node.topics cache u.0)
    ∙ append_if (has_name n node.topics) node (nodes_for n cache) later

nodes_for-cache_service_nodes :
    (n : Text) (nodes : MeshTopologySpec) (cache : NodesCache)
    → NamesDistinct (λ node. node.services) nodes
    → nodes_for n (cache_service_nodes nodes cache)
      ≡ nodes_for n cache ++ nodes_with (λ node. node.services) n nodes
unfolding cache_service_nodes nodes_with
nodes_for-cache_service_nodes n [] cache u = sym (append-nil (nodes_for n cache))
nodes_for-cache_service_nodes n (node ∷ nodes) cache u =
    let later = nodes_with (λ x. x.services) n nodes in
    nodes_for-cache_service_nodes n nodes (cache_names node node.services cache) u.1
    ∙ ap (λ l. l ++ later) (nodes_for-cache_names node n node.services cache u.0)
    ∙ append_if (has_name n node.services) node (nodes_for n cache) later

-- Reading a `defaultdict` changes no answer.
nodes_for-read_cache :
    (n m : Text) (cache : NodesCache) → nodes_for n (read_cache m cache) ≡ nodes_for n cache
nodes_for-read_cache n m cache = ground (arith, get-set Text-discrete n m (nodes_for m cache) cache)

-- What the manager answers agrees with its topology.
pub record IsCached (m : MeshTopologyManager) : Type 0 where
  pub topics_cached :
      (n : Text) → nodes_for n m.topic_nodes_cache ≡ nodes_with (λ node. node.topics) n m.topology
  pub services_cached :
      (n : Text)
      → nodes_for n m.service_nodes_cache ≡ nodes_with (λ node. node.services) n m.topology

-- Where no node has a topic or a service twice, after `set_topology` the answers are the nodes of
-- the new topology with the topic or service, in its order, each once.
pub set_topology-IsCached :
    (topology : MeshTopologySpec) (m : MeshTopologyManager)
    → NamesDistinct (λ node. node.topics) topology
    → NamesDistinct (λ node. node.services) topology
    → IsCached (set_topology topology m)
unfolding set_topology
set_topology-IsCached topology m t s = record {
  topics_cached = λ n. nodes_for-cache_topic_nodes n topology [] t;
  services_cached = λ n. nodes_for-cache_service_nodes n topology [] s;
}

-- Where the caches agree with the topology, a query answers the nodes of the topology with the
-- topic, and leaves the topology as it is and caches that still agree with it.
pub get_nodes_listening_to_topic_lem :
    (topic : Text) (m : MeshTopologyManager)
    → IsCached m
    → ((get_nodes_listening_to_topic topic m).0 ≡ nodes_with (λ node. node.topics) topic m.topology)
      × IsCached (get_nodes_listening_to_topic topic m).1
      × ((get_nodes_listening_to_topic topic m).1.topology ≡ m.topology)
unfolding get_nodes_listening_to_topic
get_nodes_listening_to_topic_lem topic m c = (
  c.topics_cached topic,
  record {
    topics_cached = λ n. nodes_for-read_cache n topic m.topic_nodes_cache ∙ c.topics_cached n;
    services_cached = c.services_cached;
  },
  refl,
)

pub get_nodes_providing_service_lem :
    (service : Text) (m : MeshTopologyManager)
    → IsCached m
    → ((get_nodes_providing_service service m).0
        ≡ nodes_with (λ node. node.services) service m.topology)
      × IsCached (get_nodes_providing_service service m).1
      × ((get_nodes_providing_service service m).1.topology ≡ m.topology)
unfolding get_nodes_providing_service
get_nodes_providing_service_lem service m c = (
  c.services_cached service,
  record {
    topics_cached = c.topics_cached;
    services_cached =
        λ n. nodes_for-read_cache n service m.service_nodes_cache ∙ c.services_cached n;
  },
  refl,
)

-- An id is among the removed nodes exactly when the old topology has it and the new one has not.
pub has_id-get_removed_nodes :
    (id : NodeId) (new_topology : MeshTopologySpec) (m : MeshTopologyManager)
    → has_id id (get_removed_nodes new_topology m)
      ≡ (has_id id m.topology && not (has_id id new_topology))
unfolding get_removed_nodes removed_from has_id
has_id-get_removed_nodes id new_topology m = of_list m.topology
  where
    of_list :
        (old : MeshTopologySpec)
        → has_id id (removed_from new_topology old)
          ≡ (has_id id old && not (has_id id new_topology))
    of_list [] = refl
    of_list (x ∷ old) = elim (NodeId-discrete id x.id) [
      | yes p ↦ ground (arith, of_list old, ap (λ i. has_id i new_topology) p)
      | no p ↦ ground (arith, of_list old)
    ]
