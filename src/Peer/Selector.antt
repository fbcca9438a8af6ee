-- ===== src/Peer/Selector.antt =====
-- PeerSelector of src/rosy/node/peer/selector.py, over the balancers' states.
use rosy.Base.{Option, List}
use rosy.Base.Text.{Text}
use rosy.Mesh.{MeshNodeSpec}
use rosy.Mesh.Topology.{
  MeshTopologyManager, get_nodes_listening_to_topic, get_nodes_providing_service,
}
use rosy.LoadBalancing.Balancers.{TopicBalancer}

-- A service balancer over a state `S`.
abbrev pub ServiceBalancer : Type 0 → Type 0
ServiceBalancer S = List MeshNodeSpec → S → Option MeshNodeSpec × S

module _ {S : Type 0} where
  unfoldable pub get_nodes_for_topic :
      TopicBalancer S
      → Text
      → MeshTopologyManager × S
      → List MeshNodeSpec × (MeshTopologyManager × S)
  get_nodes_for_topic choose_nodes topic (m, s) =
      let (peers, m') = get_nodes_listening_to_topic topic m in
      let (chosen, s') = choose_nodes peers s in (chosen, (m', s'))

  unfoldable pub get_node_for_service :
      ServiceBalancer S
      → Text
      → MeshTopologyManager × S
      → Option MeshNodeSpec × (MeshTopologyManager × S)
  get_node_for_service choose_node service (m, s) =
      let (peers, m') = get_nodes_providing_service service m in
      let (chosen, s') = choose_node peers s in (chosen, (m', s'))
