-- ===== src/Tests/Delivery.antt =====
-- Topic messages between two nodes, at concrete inputs.
mod Heard
use rosy.Base.{ℕ, ◌+◌, ◌≡◌, refl, List, [], ◌∷◌, some, arith}
use rosy.Base.Exec.{Exec, ok}
use rosy.Codec.Interface.{Codec}
use rosy.Codec.Utf8.{encode_text}
use rosy.Codec.Serializers.{Serializer}
use rosy.Message.{TopicMessage}
use rosy.Message.Node.{NodeMessageCodec, encode_topic_message}
use rosy.Message.Codecs.{topic_message_codec}
use rosy.Codec.Containers.{string_codec, sequence_codec, dict_codec}
use rosy.Codec.Ints.{fixed_length_int_codec}
use rosy.Codec.Bytes.{to_bytes}
use rosy.Mesh.{NodeId-discrete, MeshNodeSpec}
use rosy.Mesh.Topology.{has_id}
use rosy.Builder.Codec.{Serializers, DataCodecArg, build_data_codec}
use rosy.Builder.Codec.Wire.{TopicFits, built}
use rosy.Node.Handlers.{handle_client}
use rosy.Topic.Outbox.{Attempt, send}
use rosy.Topic.Outbox.Laws.{last_of}
use rosy.Topic.Sender.{send_topic}
use rosy.LoadBalancing.Balancers.{noop_choose_nodes}
use rosy.Mesh.Topology.{set_topology}
use rosy.Topic.Sender.{Outboxes}
use rosy.Base.{map}
use rosy.Topic.Sender.Laws.{outbox_for}
use rosy.Topic.Remote.{Sending}
use rosy.Topic.Remote.Delivery.{
  handle_each, new_line, topic_delivered, TopicFits-Arrives, Handled, sends_to_nodes, is_for,
  time_of, message_of,
}
use rosy.Topic.Remote.Schedule.{Event, sends, takes, finishes, run_line}
use rosy.Topic.Remote.Streams.{Calm}
use rosy.Topic.Remote.Listener.{told, selected, listener_found}
use rosy.Topic.Sender.Laws.{with_entry}
use rosy.Topic.Remote.{wire_of}
use rosy.Base.{true, false}
use rosy.Base.Exec.{Result}
use rosy.Mesh.Topology.{MeshTopologyManager}
use rosy.Mesh.Topology.Laws.{has_name}
use rosy.Peer.Removal.{Peers, Endings, topology_changed}
use rosy.Discovery.{Discovery, topology, announce}

-- A data codec that writes nothing: the only value is `tt`.
abbrev unit_codec : Codec (Unit {0})
unit_codec = record { encode = λ v w. (ok tt, w); decode = λ s. (ok tt, s) }

abbrev libraries : Serializers (Unit {0})
libraries = record { pickle_lib = lib; orjson_lib = lib; msgpack_lib = lib }
  where
    lib : Serializer (Unit {0})
    lib = record { dumps = λ v. ok []; loads = λ b. ok tt }

abbrev arg : DataCodecArg (Unit {0})
arg = DataCodecArg.custom unit_codec

abbrev codec : NodeMessageCodec (Unit {0})
codec = built tt libraries 2 arg

abbrev greeting : TopicMessage (Unit {0})
greeting = record { topic = b'h' ∷ b'i' ∷ []; args = []; kwargs = [] }

greeting_fits : TopicFits unit_codec greeting
unfolding encode_text
greeting_fits = record {
  topic_short = record { encoded = b'h' ∷ b'i' ∷ []; encodes = refl; short = omega arith };
  arguments = record {
    args_few = omega arith;
    args_carried = tt;
    kwargs_few = omega arith;
    kwargs_distinct = tt;
    kwargs_carried = tt;
  };
}

abbrev node : ℕ → MeshNodeSpec
node n = record {
  id = record { name = []; hostname = []; uuid = n };
  connection_specs = [];
  topics = [];
  services = [];
}

abbrev prompt : Attempt
prompt = record { started = 5; connected = ok tt; locked_at = 6; drained = ok tt }

-- Handling counts the messages.
abbrev count : TopicMessage (Unit {0}) → Exec ℕ (Unit {0})
count m n = (ok tt, 1 + n)

calm : Calm prompt
calm = (λ h. ground (arith, h), λ h. ground (arith, h))

-- The outbox's task works between the calls, and it has not got to the last message.
abbrev events : List (Event (Sending (Unit {0})))
events =
    sends (record { now = 3; nodes = node 1 ∷ node 2 ∷ []; message = greeting })
    ∷ takes
    ∷ sends (record { now = 3; nodes = node 2 ∷ []; message = greeting })
    ∷ finishes prompt
    ∷ takes
    ∷ sends (record { now = 4; nodes = node 1 ∷ []; message = greeting })
    ∷ []

topic_delivered_example :
    Handled codec count
      (λ m w. refl)
      time_of
      message_of
      (node 1).id
      (sends_to_nodes tt libraries 2 arg count)
      (is_for (node 1).id)
      events
      (new_line tt [])
      4
      0
      (run_line (node 1).id (sends_to_nodes tt libraries 2 arg count) events (new_line tt []))
unfolding has_id NodeId-discrete build_data_codec
topic_delivered_example =
    topic_delivered tt libraries 2 arg count (node 1).id (λ m w. refl) events [] 4 0
      (λ id o h. ground (arith, h)) refl
      (
        ((refl, (refl, tt)), greeting_fits),
        (((refl, tt), greeting_fits), (((refl, tt), greeting_fits), tt)),
      )
      (calm, tt) (omega arith)
