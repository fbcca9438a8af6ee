-- ===== src/Mesh/Topology/Refines.antt =====
-- The topology manager with its caches does what one without caches does.
use rosy.Base.{◌≡◌, refl, ap, ◌∙◌, List, [], ◌∷◌, All}
use rosy.Base.Text.{Text}
use rosy.Mesh.{MeshNodeSpec}
use rosy.Mesh.Topology.{
  MeshTopologySpec, MeshTopologyManager, set_topology, get_nodes_listening_to_topic,
  get_nodes_providing_service, get_removed_nodes, removed_from,
}
use rosy.Mesh.Topology.Laws.{
  NamesDistinct, IsCached, nodes_with, set_topology-IsCached, get_nodes_listening_to_topic_lem,
  get_nodes_providing_service_lem,
}

-- A call of the manager.
pub data Call : Type 0 where
  sets : MeshTopologySpec → Call
  listens provides : Text → Call
  removes : MeshTopologySpec → Call

-- The topics, and the services, of each node of a topology that is set are different.
abbrev pub IsProper : Call → Type 0
IsProper (sets topology) =
    NamesDistinct (λ node. node.topics) topology × NamesDistinct (λ node. node.services) topology
IsProper _ = Unit

-- The nodes that the calls return, a call of `set_topology` none.
unfoldable pub run : List Call → MeshTopologyManager → List (List MeshNodeSpec)
run [] m = []
run (sets topology ∷ calls) m = [] ∷ run calls (set_topology topology m)
run (listens topic ∷ calls) m =
    let (nodes, m') = get_nodes_listening_to_topic topic m in nodes ∷ run calls m'
run (provides service ∷ calls) m =
    let (nodes, m') = get_nodes_providing_service service m in nodes ∷ run calls m'
run (removes topology ∷ calls) m = get_removed_nodes topology m ∷ run calls m

-- The specification: the state is the topology alone, and each answer is read off it.
unfoldable pub run_spec : List Call → MeshTopologySpec → List (List MeshNodeSpec)
run_spec [] t = []
run_spec (sets topology ∷ calls) t = [] ∷ run_spec calls topology
run_spec (listens topic ∷ calls) t = nodes_with (λ node. node.topics) topic t ∷ run_spec calls t
run_spec (provides service ∷ calls) t =
    nodes_with (λ node. node.services) service t ∷ run_spec calls t
run_spec (removes topology ∷ calls) t = removed_from topology t ∷ run_spec calls t

-- From a manager whose caches agree with its topology, any calls return what the specification
-- returns from that topology, where no node of a topology that is set has a name twice.
pub run_refines :
    (calls : List Call) (m : MeshTopologyManager)
    → IsCached m
    → All IsProper calls
    → run calls m ≡ run_spec calls m.topology
unfolding run run_spec
run_refines [] m v h = refl
run_refines (sets topology ∷ calls) m v h =
    ap (λ r. [] ∷ r)
      (run_refines calls (set_topology topology m) (set_topology-IsCached topology m h.0.0 h.0.1)
          h.1
        ∙ unfold set_topology in refl)
run_refines (listens topic ∷ calls) m v h =
    let (same, v', kept) = get_nodes_listening_to_topic_lem topic m v in
    let rest = run_refines calls (get_nodes_listening_to_topic topic m).1 v' h.1 in
    λ i. same i ∷ (rest ∙ ap (run_spec calls) kept) i
run_refines (provides service ∷ calls) m v h =
    let (same, v', kept) = get_nodes_providing_service_lem service m v in
    let rest = run_refines calls (get_nodes_providing_service service m).1 v' h.1 in
    λ i. same i ∷ (rest ∙ ap (run_spec calls) kept) i
run_refines (removes topology ∷ calls) m v h =
    ap (λ r. get_removed_nodes topology m ∷ r) (run_refines calls m v h.1)
    ∙ unfold get_removed_nodes in refl
