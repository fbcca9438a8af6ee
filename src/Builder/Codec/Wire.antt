-- ===== src/Builder/Codec/Wire.antt =====
-- The format on the wire of a node that `build_node` makes: what it can send, and that it arrives.
use rosy.Base.{
  Option, some, none, ℕ, ◌<◌, ◌≡◌, refl, [], ◌∷◌, ◌++◌, length, All, false, inl, inr, arith,
}
use rosy.Base.Int.{ℤ, pos}
use rosy.Base.Text.{Text, Text-discrete}
use rosy.Base.Dict.{keys, Distinct}
use rosy.Base.Exec.{ok}
use rosy.Stream.{Bytes}
use rosy.Codec.Interface.{Codec, Carries}
use rosy.Codec.Bytes.{ByteOrder, Fits}
use rosy.Codec.Utf8.{encode_text}
use rosy.Codec.Ints.Laws.{fixed-Carries}
use rosy.Codec.Containers.{string_codec}
use rosy.Codec.Containers.Laws.{string-Carries, sequence-Carries, dict-Carries}
use rosy.Message.{Args, Kwargs, TopicMessage, ServiceRequest, ServiceResponse}
use rosy.Message.Codecs.{topic_message_codec, service_request_codec, service_response_codec}
use rosy.Message.Codecs.Laws.{
  topic-Carries, request-Carries, OutcomeCarries, response-Sends, received,
}
use rosy.Message.Node.{
  NodeMessageCodec, node_message_codec, topic_prefix, request_prefix, encode_topic_message,
  encode_service_request, encode_service_response, decode_service_response,
  decode_topic_message_or_service_request,
}
use rosy.Message.Node.Laws.{topic_message_received, service_request_received}
use rosy.Builder.Codec.{
  Serializers, DataCodecArg, int_codec, short_string_codec, build_data_codec, args_codec,
  kwargs_codec, build_node_message_codec,
}

-- The text has an encoding of less than `bound` bytes.
pub record TextBelow (bound : ℕ) (s : Text) : Type 0 where
  pub encoded : Bytes
  pub encodes : encode_text s ≡ ok encoded
  pub short : length encoded < bound

module _ {Data : Type 0} (codec : Codec Data) where
  -- At most 255 positional and 255 keyword arguments, each of which the data codec carries.
  pub record ArgsFit (args : Args Data) (kwargs : Kwargs Data) : Type 0 where
    pub args_few : length args < 256
    pub args_carried : All (Carries codec) args
    pub kwargs_few : length kwargs < 256
    pub kwargs_distinct : Distinct (keys kwargs)
    pub kwargs_carried : All (λ e. TextBelow 256 e.0 × Carries codec e.1) kwargs

  pub record TopicFits (m : TopicMessage Data) : Type 0 where
    pub topic_short : TextBelow 256 m.topic
    pub arguments : ArgsFit m.args m.kwargs

  -- `n` is the number that the request has as its id.
  pub record RequestFits (id_bytes : ℕ) (r : ServiceRequest Data) : Type 0 where
    pub id_fits : Fits id_bytes false r.id
    pub service_short : TextBelow 256 r.service
    pub arguments : ArgsFit r.args r.kwargs

-- What is written of a response: an error whose UTF-8 form is below 65536 bytes, or a result that
-- the data codec carries. An empty error is none.
abbrev pub OutcomeFits : {Data : Type 0} → Codec Data → Data → Option Text → Type 0
OutcomeFits codec result (some (c ∷ e)) = TextBelow 65536 (c ∷ e)
OutcomeFits codec result (some []) = Carries codec result
OutcomeFits codec result none = Carries codec result

int_carried : (k : ℕ) (v : ℤ) → Fits k false v → Carries (int_codec k) v
int_carried k v h = (fixed-Carries k ByteOrder.little false v h).0

short_string_carried : (s : Text) → TextBelow 256 s → Carries short_string_codec s
short_string_carried s t =
    string-Carries (int_codec 1) s t.encoded t.encodes
      (int_carried 1 (pos (length t.encoded)) t.short)

error_carried : (s : Text) → TextBelow 65536 s → Carries (string_codec (int_codec 2)) s
error_carried s t =
    string-Carries (int_codec 2) s t.encoded t.encodes
      (int_carried 2 (pos (length t.encoded)) t.short)

module _ {Data : Type 0} (null : Data) (libs : Serializers Data) (id_bytes : ℕ)
    (arg : DataCodecArg Data) where
  abbrev pub codec : Codec Data
  codec = build_data_codec libs arg

  abbrev pub built : NodeMessageCodec Data
  built = record {
    topic_message_codec =
        topic_message_codec short_string_codec (args_codec codec) (kwargs_codec codec);
    service_request_codec =
        service_request_codec (int_codec id_bytes) short_string_codec (args_codec codec)
          (kwargs_codec codec);
    service_response_codec =
        service_response_codec null (int_codec id_bytes) codec (string_codec (int_codec 2));
    topic_message_prefix = topic_prefix;
    service_request_prefix = request_prefix;
  }

  -- The constructor's tests pass.
  pub build_node_message_codec-built : build_node_message_codec null libs id_bytes arg ≡ ok built
  unfolding build_node_message_codec node_message_codec
  build_node_message_codec-built = refl

  entries_carried :
      (d : Kwargs Data)
      → All (λ e. TextBelow 256 e.0 × Carries codec e.1) d
      → All (λ e. Carries short_string_codec e.0 × Carries codec e.1) d
  entries_carried [] h = tt
  entries_carried ((k, v) ∷ d) h = ((short_string_carried k h.0.0, h.0.1), entries_carried d h.1)

  module _ (args : Args Data) (kwargs : Kwargs Data) (f : ArgsFit codec args kwargs) where
    args_carried : Carries (args_codec codec) args
    args_carried =
        sequence-Carries codec (int_codec 1) args (int_carried 1 (pos (length args)) f.args_few)
          f.args_carried

    kwargs_carried : Carries (kwargs_codec codec) kwargs
    kwargs_carried =
        dict-Carries Text-discrete short_string_codec codec (int_codec 1) kwargs f.kwargs_distinct
          (int_carried 1 (pos (length kwargs)) f.kwargs_few)
          (entries_carried kwargs f.kwargs_carried)

  -- A topic message within the limits (texts below 256 bytes, at most 255 arguments of each kind,
  -- which the data codec carries) is encoded, and read back as it was, whatever follows.
  pub topic_arrives :
      (m : TopicMessage Data)
      → TopicFits codec m
      → (wire : Bytes) × (encode_topic_message built m ≡ ok wire)
        × ((rest : Bytes)
            → decode_topic_message_or_service_request built (wire ++ rest) ≡ (ok (inl m), rest))
  topic_arrives m f = topic_message_received built b't' b's' refl refl m (
      topic-Carries short_string_codec (args_codec codec) (kwargs_codec codec) m
        (short_string_carried m.topic f.topic_short) (args_carried m.args m.kwargs f.arguments)
        (kwargs_carried m.args m.kwargs f.arguments))

  -- A request within the limits, whose id fits into the bytes of a request id, is encoded, and read
  -- back as it was, whatever follows.
  pub request_arrives :
      (r : ServiceRequest Data)
      → RequestFits codec id_bytes r
      → (wire : Bytes) × (encode_service_request built r ≡ ok wire)
        × ((rest : Bytes)
            → decode_topic_message_or_service_request built (wire ++ rest) ≡ (ok (inr r), rest))
  request_arrives r f = service_request_received built b't' b's' refl refl r (omega arith) (
      request-Carries short_string_codec (args_codec codec) (kwargs_codec codec)
        (int_codec id_bytes) r (int_carried id_bytes r.id f.id_fits)
        (short_string_carried r.service f.service_short) (args_carried r.args r.kwargs f.arguments)
        (kwargs_carried r.args r.kwargs f.arguments))

  outcome_carried :
      (result : Data) (error : Option Text)
      → OutcomeFits codec result error
      → OutcomeCarries null (int_codec id_bytes) codec (string_codec (int_codec 2)) result error
  outcome_carried result (some (c ∷ e)) f = error_carried (c ∷ e) f
  outcome_carried result (some []) f = f
  outcome_carried result none f = f

  -- A response within the limits is written whole behind what the writer has, and read back, with
  -- no result beside an error, whatever follows.
  pub response_arrives :
      (r : ServiceResponse Data)
      → Fits id_bytes false r.id
      → OutcomeFits codec r.result r.error
      → (wire : Bytes) × ((w : Bytes) → encode_service_response built r w ≡ (ok tt, w ++ wire))
        × ((rest : Bytes)
            → decode_service_response built (wire ++ rest) ≡ (ok (received null r), rest))
  unfolding encode_service_response decode_service_response
  response_arrives r i f =
      let sent =
        response-Sends null (int_codec id_bytes) codec (string_codec (int_codec 2)) r
          (int_carried id_bytes r.id i) (outcome_carried r.result r.error f) in
      (sent.wire, sent.writes, sent.reads)
