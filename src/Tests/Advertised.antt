-- ===== src/Tests/Advertised.antt =====
-- A started node and its spec in the mesh, at concrete inputs.
use rosy.Base.{ℕ, refl, List, [], ◌∷◌}
use rosy.Base.Exec.{ok, after}
use rosy.Mesh.{ConnectionSpec, unix, MeshNodeSpec}
use rosy.Node.{State, Parts, Node, start}
use rosy.Node.Advertised.{
  Op, listens, stops_listening, adds, removes, Publisher, Advertises, do_all,
  start-do_all-Advertises,
}

-- What the servers listen on, and the spec that the mesh has.
abbrev World : Type 0
World = List ConnectionSpec × MeshNodeSpec

abbrev parts : Parts ℕ World
parts = record {
  discovery_start = λ w. (ok tt, w);
  discovery_stop = λ w. (ok tt, w);
  register_node = λ s w. (ok tt, (w.0, s));
  update_node = λ s w. (ok tt, (w.0, s));
  start_servers = λ w. (ok tt, (unix (b'p' ∷ []) (b'h' ∷ []) ∷ [], w.1));
  stop_servers = λ w. (ok tt, ([], w.1));
  connection_specs = λ w. w.0;
  topic_send = λ t a k w. (ok tt, w);
  service_call = λ t a k w. (ok 0, w);
}

abbrev published : World → MeshNodeSpec
published w = w.1

parts-Publisher : Publisher parts published
parts-Publisher = record {
  registers = λ s w. refl;
  registered = λ s w. refl;
  registers_only = λ s w. refl;
  updates = λ s w. refl;
  updated = λ s w. refl;
  updates_only = λ s w. refl;
}

abbrev nothing : MeshNodeSpec
nothing = record {
  id = record { name = []; hostname = []; uuid = 0 };
  connection_specs = [];
  topics = [];
  services = [];
}

abbrev node : Node ℕ ℕ
node = record {
  id = record { name = b'n' ∷ []; hostname = []; uuid = 1 };
  topology_manager = record { topology = []; topic_nodes_cache = []; service_nodes_cache = [] };
  topic_listener_manager = [];
  service_handler_manager = [];
  state = State.initd;
}

abbrev ops : List (Op ℕ ℕ)
ops =
    listens (b't' ∷ []) 7
    ∷ adds (b's' ∷ []) 8
    ∷ removes (b'u' ∷ [])
    ∷ listens (b'u' ∷ []) 9
    ∷ stops_listening (b't' ∷ [])
    ∷ []

start_and_change_example :
    Advertises parts published parts-Publisher
      (after (start parts (node, ([], nothing))) (λ _. do_all parts ops))
start_and_change_example =
    start-do_all-Advertises parts published parts-Publisher (λ w. refl) (λ w. refl) node
      ([], nothing) ops refl
