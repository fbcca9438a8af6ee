-- ===== src/Peer/Removal.antt =====
-- TopologyChangedHandler of src/rosy/node/topology.py: nodes that left are cleaned up.
pub mod Laws
use rosy.Base.{ℕ, Bool, List, [], ◌∷◌}
use rosy.Base.Exec.{Exec, Result, ok, err, finally, modify, ◌>>=◌, ◌>>◌, after, on_first, on_second}
use rosy.Mesh.{NodeId, MeshNodeSpec}
use rosy.Mesh.Topology.{MeshTopologySpec, MeshTopologyManager, set_topology, get_removed_nodes}
use rosy.Topic.Sender.{Outboxes, stop_outbox}
use rosy.Peer.Connection.{ConnectionManager, close_connection}

-- What the outboxes' and the connections' managers hold.
abbrev pub Peers : Type 0
Peers = Outboxes × ConnectionManager

-- What cancelling the task of an outbox gives, and what `wait_closed()` of a connection gives.
pub record Endings : Type 0 where
  pub stopping : NodeId → Result (Unit {0})
  pub closes : NodeId → Result (Unit {0})

-- The body of the loop for one node.
unfoldable pub clean_up : Endings → MeshNodeSpec → Exec Peers (Unit {0})
clean_up endings node p =
    finally (on_first (stop_outbox (endings.stopping node.id) node) p)
      (on_second (close_connection (endings.closes node.id) node.id))

-- The loop; an exception ends it, so the nodes that follow are left as they are.
unfoldable pub clean_up_all : Endings → List MeshNodeSpec → Exec Peers (Unit {0})
unfolding clean_up
clean_up_all endings [] p = (ok tt, p)
clean_up_all endings (node ∷ nodes) p =
    after (clean_up endings node p) (λ _. clean_up_all endings nodes)

-- `TopologyChangedHandler.__call__`
unfoldable pub topology_changed :
    Endings → MeshTopologySpec → Exec (MeshTopologyManager × Peers) (Unit {0})
unfolding clean_up_all
topology_changed endings new_topology (m, p) =
    let removed_nodes = get_removed_nodes new_topology m in
    on_second (clean_up_all endings removed_nodes) (set_topology new_topology m, p)
