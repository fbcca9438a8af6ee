-- ===== src/Tests/Remote.antt =====
-- Calls between two nodes, and the requests of a node that was built, at concrete inputs.
use rosy.Base.{
  ℕ, ◌≡◌, sym, ap, append-nil, refl, List, [], ◌∷◌, ◌++◌, true, false, none, some, inr, arith,
}
use rosy.Base.Int.{pos}
use rosy.Base.Text.{Text, Text-discrete}
use rosy.Base.Exec.{Exec, Error, Result, ok}
use rosy.Stream.{Bytes, LockableWriter}
use rosy.Codec.Interface.{Codec}
use rosy.Codec.Utf8.{encode_text}
use rosy.Codec.Serializers.{Serializer}
use rosy.Codec.Shrinks.{Shrinks}
use rosy.Message.{TopicMessage, ServiceRequest, ServiceResponse}
use rosy.Message.Codecs.Laws.{received}
use rosy.Message.Node.{
  encode_service_request, decode_topic_message_or_service_request, decode_service_response,
}
use rosy.Builder.Codec.{Serializers, DataCodecArg, build_data_codec}
use rosy.Builder.Codec.Wire.{TextBelow, ArgsFit, built, codec}
use rosy.Builder.Node.{
  Machine, Settings, Built, lan_suffix, tmp_unix, tcp, build_parts, server_providers_of, assemble,
}
use rosy.Builder.Node.Laws.{codec_of, build_parts_lem, build_parts-request_arrives}
use rosy.Node.{get_callback}
use rosy.Node.Handlers.{respond, answer, handle_request, handle_client, Client}
use rosy.Node.Handlers.Ends.{handle_client_ends}
use rosy.Service.Caller.{
  Caller, enter_request, handle_one_response, finish_request, get_new_request_id, find_from,
  find_next_available_request_id, inc_next_request_id, add_future,
}
use rosy.Service.Caller.Valid.{registered}
use rosy.Service.Caller.Routing.{request, run}
use rosy.Service.Caller.Reach.{new_caller, new_caller-IsValid}
use rosy.Service.Remote.{remote_call, written_to, result_of}

-- A data codec that writes nothing: the only value is `tt`.
abbrev unit_codec : Codec (Unit {0})
unit_codec = record { encode = λ v w. (ok tt, w); decode = λ s. (ok tt, s) }

abbrev libraries : Serializers (Unit {0})
libraries = record { pickle_lib = lib; orjson_lib = lib; msgpack_lib = lib }
  where
    lib : Serializer (Unit {0})
    lib = record { dumps = λ v. ok []; loads = λ b. ok tt }

abbrev arg : DataCodecArg (Unit {0})
arg = DataCodecArg.custom unit_codec

abbrev caller : Caller (Unit {0})
caller = new_caller 65536

entered : enter_request 0 caller ≡ (ok (0, 0), (enter_request 0 caller).1)
unfolding enter_request get_new_request_id find_next_available_request_id find_from
    inc_next_request_id add_future
entered = refl

abbrev question : ServiceRequest (Unit {0})
question = record { id = pos 0; service = b'a' ∷ []; args = []; kwargs = [] }

abbrev answered : ServiceResponse (Unit {0})
answered = record { id = pos 0; result = tt; error = none }

-- The only service has a number as its handler, and its calls are counted.
abbrev counts : ℕ → ServiceRequest (Unit {0}) → Exec ℕ (Unit {0})
counts handler r n = (ok tt, handler)

abbrev repr : Text → Text
repr t = t

abbrev repr_error : Error → Text
repr_error e = b'e' ∷ []

abbrev handlers : List (Text × ℕ)
handlers = (b'a' ∷ [], 1) ∷ []

responded : respond tt repr repr_error counts handlers question 0 ≡ (ok answered, 1)
unfolding respond answer get_callback Text-discrete
responded = refl

abbrev writer : LockableWriter
writer = record { written = []; locked = false; closing = false }

-- Another request of the reader comes in between.
remote_call_example :
    (wire : Bytes) × (handle_request
        (built tt libraries 2 arg)
        tt
        repr
        repr_error
        counts
        handlers
        question
        (0, writer)
      ≡ (ok tt, (1, written_to writer wire)))
    × ((rest : Bytes)
        → decode_service_response (built tt libraries 2 arg) (wire ++ rest)
          ≡ (ok (received tt answered), rest))
    × (c'' : Caller (Unit {0})) × (finish_request 0 0 0 (
          handle_one_response 0
            (received tt answered)
            (run (request 0 ∷ []) (enter_request 0 caller).1))
        ≡ some (result_of tt answered, c''))
    × (registered c'' 0 0 ≡ none)
unfolding build_data_codec
remote_call_example =
    remote_call tt libraries 2 arg repr repr_error counts handlers 0 0 caller
      (enter_request 0 caller).1 (request 0 ∷ []) question answered 0 1 writer
      (new_caller-IsValid 65536 (omega arith)) (omega arith) entered refl (tt, tt) responded
      (record {
        wire = [];
        writes = λ w. ap (λ l. (ok tt, l)) (sym (append-nil w));
        reads = λ rest. refl;
      })

unit-Shrinks : Shrinks (codec tt libraries 2 arg).decode
unfolding build_data_codec
unit-Shrinks = record { at = λ s. omega arith }

abbrev ignores : TopicMessage (Unit {0}) → Exec ℕ (Unit {0})
ignores m n = (ok tt, n)

-- A stream that ends within a message.
abbrev cut_off : Client (Unit {0}) ℕ
cut_off = record { stream = b't' ∷ 3 ∷ b'a' ∷ []; world = 0; tasks = [] }

handle_client_ends_example :
    (r : Result (Unit {0}) × Client (Unit {0}) ℕ) × (handle_client
        (built tt libraries 2 arg)
        ignores
        4
        cut_off
      ≡ some r)
handle_client_ends_example =
    handle_client_ends tt libraries 2 arg ignores unit-Shrinks cut_off 4 (omega arith)

abbrev machine : Machine
machine = record { environ = []; hostname = b'p' ∷ []; uuid = 1 }

abbrev settings : Settings (Unit {0}) (Unit {0})
settings = record {
  name = b'n' ∷ [];
  domain_id = none;
  allow_unix_connections = true;
  allow_tcp_connections = true;
  node_server_host = none;
  node_client_host = none;
  data_codec = arg;
  topic_load_balancer = none;
  service_load_balancer = none;
}

abbrev node : Built (Unit {0}) (Unit {0}) ℕ ℕ
node =
    assemble tt libraries machine settings (codec_of tt libraries settings)
      (tmp_unix ∷ tcp none (b'p' ∷ lan_suffix) ∷ [])

node_built : build_parts tt libraries machine settings ≡ ok node
unfolding server_providers_of
node_built = build_parts_lem tt libraries machine settings

node_entered :
    enter_request 0 (run [] node.service_caller) ≡ (ok (0, 0), (enter_request 0 caller).1)
unfolding enter_request get_new_request_id find_next_available_request_id find_from
    inc_next_request_id add_future assemble run
node_entered = refl

a_below : TextBelow 256 (b'a' ∷ [])
unfolding encode_text
a_below = record { encoded = b'a' ∷ []; encodes = refl; short = omega arith }

no_args : ArgsFit unit_codec [] []
no_args = record {
  args_few = omega arith;
  args_carried = tt;
  kwargs_few = omega arith;
  kwargs_distinct = tt;
  kwargs_carried = tt;
}

built_request_example :
    (wire : Bytes) × (encode_service_request node.node_message_codec question ≡ ok wire)
    × ((rest : Bytes)
        → decode_topic_message_or_service_request node.node_message_codec (wire ++ rest)
          ≡ (ok (inr question), rest))
unfolding build_data_codec
built_request_example =
    build_parts-request_arrives tt libraries machine settings node [] 0 0 0
      (enter_request 0 caller).1 question node_built node_entered refl a_below no_args
