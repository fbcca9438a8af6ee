-- ===== src/Tests/Delivery/Heard.antt =====
-- A listener that the discovery knows, at concrete inputs.
use rosy.Base.{ℕ, ◌≡◌, refl, List, [], ◌∷◌, some, arith}
use rosy.Base.Exec.{ok}
use rosy.Codec.Utf8.{encode_text}
use rosy.Message.{TopicMessage}
use rosy.Message.Node.{encode_topic_message}
use rosy.Message.Codecs.{topic_message_codec}
use rosy.Codec.Containers.{string_codec, sequence_codec, dict_codec}
use rosy.Codec.Ints.{fixed_length_int_codec}
use rosy.Codec.Bytes.{to_bytes}
use rosy.Mesh.{NodeId-discrete, MeshNodeSpec}
use rosy.Mesh.Topology.{has_id}
use rosy.Builder.Codec.{build_data_codec}
use rosy.Builder.Codec.Wire.{TopicFits}
use rosy.Node.Handlers.{handle_client}
use rosy.Topic.Outbox.{send, goes_on, send_once}
use rosy.Topic.Sender.{send_topic}
use rosy.LoadBalancing.Balancers.{noop_choose_nodes}
use rosy.Mesh.Topology.{set_topology, get_nodes_listening_to_topic, cache_topic_nodes, cache_names}
use rosy.Topic.Remote.Selected.{send_message}
use rosy.Topic.Remote.Schedule.{
  Event, sends, takes, finishes, run_line, sent_in, step, losses, take_item, finish_item,
}
use rosy.Topic.Remote.Heard.{heard, node_hears, sends_message}
use rosy.Topic.Sender.Laws.{outbox_for}
use rosy.Topic.Remote.Delivery.{handle_each, new_line, TopicFits-Arrives}
use rosy.Topic.Remote.Listener.{told, selected, listener_found}
use rosy.Topic.Sender.Laws.{with_entry}
use rosy.Topic.Remote.{wire_of}
use rosy.Base.{true, false}
use rosy.Base.Exec.{Result}
use rosy.Mesh.Topology.{MeshTopologyManager}
use rosy.Mesh.Topology.Laws.{has_name}
use rosy.Peer.Removal.{Peers, Endings, topology_changed}
use rosy.Discovery.{Discovery, topology, announce}
use rosy.Tests.Delivery.{
  unit_codec, libraries, arg, codec, greeting, greeting_fits, node, prompt, count, calm,
}

abbrev listener : MeshNodeSpec
listener = record {
  id = record { name = []; hostname = []; uuid = 1 };
  connection_specs = [];
  topics = (b'h' ∷ b'i' ∷ []) ∷ [];
  services = [];
}

abbrev discovery : Discovery
discovery = record {
  service_name_to_node = (b'n' ∷ [], listener) ∷ [];
  node_monitors = (b'n' ∷ [], 0) ∷ [];
  topology_changed = true;
  fresh = 1;
  removals = [];
}

abbrev manager : MeshTopologyManager
manager = record { topology = node 2 ∷ []; topic_nodes_cache = []; service_nodes_cache = [] }

abbrev peers : Peers
peers = ([], record { connections = []; closing = λ _. true; closed = [] })

-- The ends of what belongs to removed nodes raise nothing.
abbrev endings : Endings
endings = record { stopping = λ _. ok tt; closes = λ _. ok tt }

listens : has_name (b'h' ∷ b'i' ∷ []) listener.topics ≡ true
unfolding has_name
listens = ground arith

listener_found_example :
    (r : Result (Unit {0})) × (announce
        (some (topology_changed endings))
        (discovery, (manager, peers))
      ≡ some (
        r,
        (record discovery { topology_changed = false }, told endings discovery (manager, peers)),
      ))
    × ((send_topic
          (encode_topic_message codec)
          3
          (selected endings codec discovery manager peers greeting.topic listener)
          greeting.topic
          greeting.args
          greeting.kwargs
          (told endings discovery (manager, peers)).1.0).0
        ≡ ok tt)
    × (outbox_for listener.id
          (send_topic
            (encode_topic_message codec)
            3
            (selected endings codec discovery manager peers greeting.topic listener)
            greeting.topic
            greeting.args
            greeting.kwargs
            (told endings discovery (manager, peers)).1.0).1
        ≡ with_entry 3
            (wire_of codec greeting)
            (outbox_for listener.id (told endings discovery (manager, peers)).1.0))
unfolding topology has_id build_data_codec
listener_found_example =
    listener_found endings codec discovery manager peers (b'n' ∷ []) listener 3 greeting listener
      refl (ground arith) listens ((tt, tt), tt) (tt, tt) (refl, tt) (tt, tt)
      (λ id o h. ground (arith, h))
      (TopicFits-Arrives tt libraries 2 arg count greeting greeting_fits)

abbrev other_topic : TopicMessage (Unit {0})
other_topic = record { topic = b'o' ∷ []; args = []; kwargs = [] }

other_fits : TopicFits unit_codec other_topic
unfolding encode_text
other_fits = record {
  topic_short = record { encoded = b'o' ∷ []; encodes = refl; short = omega arith };
  arguments = record {
    args_few = omega arith;
    args_carried = tt;
    kwargs_few = omega arith;
    kwargs_distinct = tt;
    kwargs_carried = tt;
  };
}

-- The second message is of a topic that nobody listens to; the task works between the calls.
abbrev events : List (Event (ℕ × TopicMessage (Unit {0})))
events =
    sends (3, greeting)
    ∷ takes
    ∷ sends (3, other_topic)
    ∷ finishes prompt
    ∷ sends (4, greeting)
    ∷ takes
    ∷ finishes prompt
    ∷ []

node_hears_example :
    handle_client codec count 4 (record {
      stream =
          (run_line listener.id
            (sends_message tt libraries 2 arg count (λ m w. refl))
            events
            (new_line (set_topology (topology discovery) manager, tt) [])).writer.written;
      world = 0;
      tasks = [];
    })
    ≡ some (
      ok tt,
      record {
        stream = [];
        world = handle_each count (heard listener (sent_in events)) 0;
        tasks = [];
      },
    )
unfolding topology has_id build_data_codec send_message set_topology has_name encode_topic_message
    topic_message_codec string_codec encode_text fixed_length_int_codec to_bytes sequence_codec
    dict_codec send NodeId-discrete noop_choose_nodes get_nodes_listening_to_topic cache_topic_nodes
    cache_names run_line step losses take_item finish_item goes_on send_once
node_hears_example =
    node_hears tt libraries 2 arg count (λ m w. refl) discovery (b'n' ∷ []) listener manager tt []
      events 4 0 refl ((tt, tt), tt) (tt, tt) (refl, tt) (λ id o h. ground (arith, h)) refl
      (greeting_fits, (other_fits, (greeting_fits, tt))) (calm, (calm, tt)) (omega arith) refl refl
