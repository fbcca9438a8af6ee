-- ===== src/Tests/Runs.antt =====
-- Runs of the topology manager and of the discovery at concrete inputs.
use rosy.Base.{
  ℕ, ◌==◌, if◌then◌else◌, ◌+◌, Bool, Option, none, ◌≡◌, refl, some, List, [], ◌∷◌, true, false,
}
use rosy.Base.Text.{Text, Text-discrete}
use rosy.Base.Exec.{Exec, Result, ok, err, foreign}
use rosy.Mesh.{MeshNodeSpec}
use rosy.Mesh.Topology.{MeshTopologyManager, set_topology, get_nodes_listening_to_topic}
use rosy.Mesh.Topology.Laws.{IsCached, set_topology-IsCached}
use rosy.Mesh.Topology.Refines.{Call, sets, listens, removes, run_spec, run_refines}
use rosy.Mesh.Topology.Refines
use rosy.Discovery.{
  Discovery, added, topology, announce, call_topology_changed_callback, on_service_state_change,
  start_monitoring_node, stop_monitoring_node, check_node, check_this_task_is_current_monitor,
  take_info, learn_node,
}
use rosy.Discovery.Laws.{changes, checks, happen}
use rosy.Node.{
  Node, Parts, State, dependent, topic_has_listeners, stop_listening, remove_callback, register,
  wait_for_listener, wait_then_listen, get_callback, listen, set_callback,
}
use rosy.Discovery.Announce.{Step, occurs, tells, run, step, last_of, run_announces}

abbrev spec : ℕ → MeshNodeSpec
spec n = record {
  id = record { name = b'n' ∷ []; hostname = []; uuid = n };
  connection_specs = [];
  topics = (b't' ∷ []) ∷ [];
  services = [];
}

abbrev empty_manager : MeshTopologyManager
empty_manager = record { topology = []; topic_nodes_cache = []; service_nodes_cache = [] }

one_IsCached : IsCached (set_topology (spec 1 ∷ []) empty_manager)
one_IsCached = set_topology-IsCached (spec 1 ∷ []) empty_manager ((tt, tt), tt) (tt, tt)

abbrev calls : List Call
calls = listens (b't' ∷ []) ∷ sets (spec 2 ∷ []) ∷ listens (b't' ∷ []) ∷ removes [] ∷ []

run_refines_example :
    Refines.run calls (set_topology (spec 1 ∷ []) empty_manager)
    ≡ run_spec calls (set_topology (spec 1 ∷ []) empty_manager).topology
run_refines_example =
    run_refines calls (set_topology (spec 1 ∷ []) empty_manager) one_IsCached
      (tt, ((((tt, tt), tt), (tt, tt)), (tt, (tt, tt))))

abbrev discovery : Discovery
discovery = record {
  service_name_to_node = [];
  node_monitors = [];
  topology_changed = false;
  fresh = 0;
  removals = [];
}

abbrev steps : List Step
steps =
    occurs (changes (ok tt) (b'n' ∷ []) added)
    ∷ occurs (checks (ok (some [])) 0 (b'n' ∷ []))
    ∷ tells (err foreign)
    ∷ []

settled : (run (λ a b. true) (λ text. ok (spec 1)) steps (discovery, [])).0.topology_changed ≡ false
unfolding run step announce call_topology_changed_callback happen on_service_state_change
    start_monitoring_node stop_monitoring_node check_node check_this_task_is_current_monitor
    take_info learn_node Text-discrete
settled = refl

run_announces_example :
    topology (run (λ a b. true) (λ text. ok (spec 1)) steps (discovery, [])).0
    ≡ last_of (run (λ a b. true) (λ text. ok (spec 1)) steps (discovery, [])).1
unfolding topology
run_announces_example =
    run_announces (λ a b. true) (λ text. ok (spec 1)) steps (discovery, []) (λ h. refl) settled

-- Parts that count the calls.
abbrev parts : Parts ℕ ℕ
parts = record {
  discovery_start = λ w. (ok tt, 1 + w);
  discovery_stop = λ w. (ok tt, 1 + w);
  register_node = λ s w. (ok tt, 1 + w);
  update_node = λ s w. (ok tt, 1 + w);
  start_servers = λ w. (ok tt, 1 + w);
  stop_servers = λ w. (ok tt, 1 + w);
  connection_specs = λ w. [];
  topic_send = λ t a k w. (ok tt, w);
  service_call = λ t a k w. (ok 0, w);
}

-- A node that listens to `u`, with the callback 7, and its node's topology after a sleep.
abbrev node : Node ℕ ℕ
node = record {
  id = (spec 1).id;
  topology_manager = empty_manager;
  topic_listener_manager = (b'u' ∷ [], 7) ∷ [];
  service_handler_manager = [];
  state = State.started;
}

abbrev joined : Node ℕ ℕ → Node ℕ ℕ
joined n = record n {
  topology_manager = record {
    topology = spec 2 ∷ [];
    topic_nodes_cache = (b't' ∷ [], spec 2 ∷ []) ∷ [];
    service_nodes_cache = [];
  };
}

abbrev forwards : Text → ℕ → Exec (Node ℕ ℕ × ℕ) (Unit {0})
forwards topic value s = (ok tt, s)

abbrev paused : Result Bool × (Node ℕ ℕ × ℕ)
paused = dependent parts (b't' ∷ []) forwards (b'u' ∷ []) 5 (node, 0)

task_made : paused.0 ≡ ok true
unfolding dependent topic_has_listeners get_nodes_listening_to_topic stop_listening remove_callback
    register Text-discrete
task_made = refl

-- The entry of the table is what the wrapper does for a message.
abbrev as_entry : (Text → ℕ → Exec (Node ℕ ℕ × ℕ) Bool) → ℕ
as_entry wrapper = (wrapper (b'u' ∷ []) 5 (node, 0)).1.1

abbrev entry_after : Option (Result (Unit {0}) × (Node ℕ ℕ × ℕ)) → Option ℕ
entry_after none = none
entry_after (some r) = get_callback (b'u' ∷ []) r.1.0.topic_listener_manager

resumed :
    entry_after (
      wait_then_listen parts as_entry
        (joined ∷ [])
        (b't' ∷ [])
        forwards
        (b'u' ∷ [])
        (paused.1.0, 3))
    ≡ some (as_entry (dependent parts (b't' ∷ []) forwards))
unfolding dependent topic_has_listeners get_nodes_listening_to_topic stop_listening remove_callback
    register Text-discrete wait_for_listener wait_then_listen listen set_callback get_callback
resumed = refl

-- A round that counts, up to the third, which raises.
abbrev round : Exec ℕ (Unit {0})
round n = if n == 2 then (err foreign, n) else (ok tt, 1 + n)

abbrev sleep : Exec ℕ (Unit {0})
sleep n = (ok tt, n)
