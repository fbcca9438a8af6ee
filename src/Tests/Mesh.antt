-- ===== src/Tests/Mesh.antt =====
-- The topology, the balancers, the outboxes and the connections at concrete inputs.
use mathlib.Core.List.{List}
use rosy.Base.{ℕ, ◌≡◌, [], ◌∷◌, true, false, some, arith}
use rosy.Base.Text.{Text}
use rosy.Base.Dict.{get}
use rosy.Base.Exec.{ok}
use rosy.Mesh.{NodeId, NodeId-discrete, MeshNodeSpec}
use rosy.Mesh.Topology.{MeshTopologyManager, set_topology}
use rosy.Mesh.Topology.Laws.{IsCached, set_topology-IsCached}
use rosy.Cli.Listing.{list_topics, list_services}
use rosy.Cli.Listing.Laws.{Lists, listings_lem}
use rosy.LoadBalancing.Recent.{LeastRecent}
use rosy.Topic.Outbox.{Outbox, new_outbox}
use rosy.Peer.Connection.{ConnectionManager}
use rosy.Peer.Removal.{Peers, Endings}

abbrev name : Text
name = b'n' ∷ []

abbrev spec : ℕ → MeshNodeSpec
spec n = record {
  id = record { name = name; hostname = []; uuid = n };
  connection_specs = [];
  topics = (b't' ∷ []) ∷ [];
  services = [];
}

abbrev topic : Text
topic = b't' ∷ []

abbrev empty_manager : MeshTopologyManager
empty_manager = record { topology = []; topic_nodes_cache = []; service_nodes_cache = [] }

abbrev manager : MeshTopologyManager
manager = record { topology = spec 1 ∷ []; topic_nodes_cache = []; service_nodes_cache = [] }

set_IsCached : IsCached (set_topology (spec 1 ∷ []) empty_manager)
set_IsCached = set_topology-IsCached (spec 1 ∷ []) empty_manager ((tt, tt), tt) (tt, tt)

abbrev recent : LeastRecent
recent = record { last_used = []; clock = λ n. n; readings = 0; draws = λ n. n; drawn = 0 }

no_outboxes : (id : NodeId) (o : Outbox) → get NodeId-discrete id [] ≡ some o → o.finished ≡ false
no_outboxes id o h = ground (arith, h)

abbrev connections : ConnectionManager
connections = record { connections = ((spec 1).id, 4) ∷ []; closing = λ _. true; closed = [] }

abbrev peers : Peers
peers = (((spec 1).id, new_outbox) ∷ [], connections)

abbrev endings : Endings
endings = record { stopping = λ _. ok tt; closes = λ _. ok tt }

listings_example :
    Lists (λ node. node.topics) (spec 1 ∷ spec 2 ∷ []) (list_topics (spec 1 ∷ spec 2 ∷ []))
    × Lists (λ node. node.services) (spec 1 ∷ spec 2 ∷ []) (list_services (spec 1 ∷ spec 2 ∷ []))
listings_example = listings_lem (spec 1 ∷ spec 2 ∷ [])
