-- ===== src/Tests/Running.antt =====
-- Outboxes, servers, the discovery and the node's states at concrete inputs.
use rosy.Base.{ℕ, ◌+◌, ◌≡◌, refl, List, [], ◌∷◌, ◌++◌, true, false, some, arith}
use rosy.Base.Text.{Text}
use rosy.Base.Exec.{Result, ok, err, runtime_error, unsupported_provider, foreign}
use rosy.Stream.{Bytes, LockableWriter}
use rosy.Mesh.{NodeId, MeshNodeSpec, ip}
use rosy.Topic.Outbox.{Outbox, Attempt}
use rosy.Topic.Outbox.Laws.{entries, send_all, last_of, send_all-queue}
use rosy.Topic.Outbox.Laws
use rosy.Servers.{Started, ServersManager}
use rosy.Discovery.{Discovery, added, removed}
use rosy.Discovery.Laws.{Event, changes, checks, happen_all, IsMonitored, happen_all-IsMonitored}
use rosy.Node.{Node, Parts, State, start, stop}
use rosy.Node.Lifecycle.{Op, op_exit, op_listen, perform_all, start_once, stop_final}

abbrev outbox : Outbox
outbox = record { ttl = 5; maxsize = 2; queue = []; finished = false }

abbrev sends : List (ℕ × Bytes)
sends = (0, b'a' ∷ []) ∷ (1, b'b' ∷ []) ∷ (2, b'c' ∷ []) ∷ []

outbox-IsValid : Laws.IsValid outbox
outbox-IsValid = record { bounded = omega arith; positive = omega arith }

send_all_example :
    ((send_all sends outbox).queue ≡ last_of 2 ([] ++ entries 5 sends))
    × Laws.IsValid (send_all sends outbox)
send_all_example = send_all-queue sends outbox outbox-IsValid refl

abbrev writer : LockableWriter
writer = record { written = []; locked = false; closing = false }

abbrev queued : Outbox
queued = record {
  ttl = 5;
  maxsize = 2;
  queue = (5, b'a' ∷ []) ∷ (6, b'b' ∷ []) ∷ [];
  finished = false;
}

abbrev prompt : Attempt
prompt = record { started = 3; connected = ok tt; locked_at = 4; drained = ok tt }

abbrev id : NodeId
id = record { name = []; hostname = []; uuid = 1 }

abbrev provided : List (Result Started)
provided = err unsupported_provider ∷ ok (8, ip [] 5000 2 ∷ []) ∷ []

abbrev no_servers : ServersManager
no_servers = record { servers = []; connection_specs = []; closed = [] }

abbrev two_servers : ServersManager
two_servers = record { servers = 8 ∷ 9 ∷ []; connection_specs = []; closed = [] }

abbrev discovery : Discovery
discovery = record {
  service_name_to_node = [];
  node_monitors = [];
  topology_changed = false;
  fresh = 0;
  removals = [];
}

abbrev spec : MeshNodeSpec
spec = record { id = id; connection_specs = []; topics = []; services = [] }

abbrev name : Text
name = b'n' ∷ []

abbrev happened : List Event
happened =
    changes (ok tt) name added ∷ checks (ok (some [])) 0 name ∷ changes (ok tt) name removed ∷ []

discovery-IsMonitored : IsMonitored discovery
discovery-IsMonitored = (tt, λ n h. absurd (ground (arith, h)))

discovery_example : IsMonitored (happen_all (λ a b. true) (λ text. ok spec) happened discovery)
discovery_example =
    happen_all-IsMonitored (λ a b. true) (λ text. ok spec) happened discovery discovery-IsMonitored

-- Parts that count the calls.
abbrev parts : Parts ℕ ℕ
parts = record {
  discovery_start = λ w. (ok tt, 1 + w);
  discovery_stop = λ w. (err foreign, 1 + w);
  register_node = λ s w. (ok tt, 1 + w);
  update_node = λ s w. (ok tt, 1 + w);
  start_servers = λ w. (ok tt, 1 + w);
  stop_servers = λ w. (ok tt, 1 + w);
  connection_specs = λ w. [];
  topic_send = λ t a k w. (ok tt, w);
  service_call = λ t a k w. (ok 0, w);
}

abbrev node : Node ℕ ℕ
node = record {
  id = id;
  topology_manager = record { topology = []; topic_nodes_cache = []; service_nodes_cache = [] };
  topic_listener_manager = [];
  service_handler_manager = [];
  state = State.initd;
}

abbrev ops : List (Op ℕ ℕ)
ops = op_listen name 3 ∷ op_exit ∷ []

start_once_example :
    start parts (perform_all parts ops (start parts (node, 0)).1)
    ≡ (err runtime_error, perform_all parts ops (start parts (node, 0)).1)
start_once_example = start_once parts ops (node, 0)

stop_final_example :
    ((perform_all parts ops (stop parts (node, 0)).1).0.state ≡ State.stopped)
    × (stop parts (perform_all parts ops (stop parts (node, 0)).1)
        ≡ (ok tt, perform_all parts ops (stop parts (node, 0)).1))
stop_final_example = stop_final parts ops (node, 0)
