-- ===== src/Tests/Wire.antt =====
-- Codecs and client handlers at concrete inputs.
use rosy.Base.{ℕ, ◌≡◌, refl, ◌+◌, length, List, [], ◌∷◌, ◌++◌, true, false, some, inl, inr, arith}
use rosy.Base.Int.{pos}
use rosy.Base.Exec.{Exec, ok, err, overflow_error}
use rosy.Stream.{Bytes}
use rosy.Codec.Interface.{Codec}
use rosy.Codec.Bytes.{ByteOrder, bit_length, from_bytes, to_bytes, from_bytes-to_bytes}
use rosy.Codec.Utf8.{encode_text}
use rosy.Codec.Ints.{variable_codec}
use rosy.Codec.Ints.Laws.{variable_signed_overflow}
use rosy.Codec.Serializers.{Serializer}
use rosy.Message.{TopicMessage, ServiceRequest}
use rosy.Message.Node.{
  NodeMessageCodec, encode_topic_message, encode_service_request,
  decode_topic_message_or_service_request,
}
use rosy.Builder.Codec.{Serializers, DataCodecArg, build_data_codec}
use rosy.Builder.Codec.Wire.{TextBelow, ArgsFit, built, topic_arrives, request_arrives}
use rosy.Node.Handlers.{handle_client}
use rosy.Node.Handlers.Laws.{Sent, stream_of, handle_all, requests, handle_client-stream_of}

-- A data codec that writes nothing: the only value is `tt`.
abbrev unit_codec : Codec (Unit {0})
unit_codec = record { encode = λ v w. (ok tt, w); decode = λ s. (ok tt, s) }

abbrev libraries : Serializers (Unit {0})
libraries = record { pickle_lib = lib; orjson_lib = lib; msgpack_lib = lib }
  where
    lib : Serializer (Unit {0})
    lib = record { dumps = λ v. ok []; loads = λ b. ok tt }

abbrev arg : DataCodecArg (Unit {0})
arg = DataCodecArg.custom unit_codec

abbrev codec : NodeMessageCodec (Unit {0})
codec = built tt libraries 2 arg

abbrev greeting : TopicMessage (Unit {0})
greeting = record { topic = b'h' ∷ b'i' ∷ []; args = []; kwargs = [] }

abbrev question : ServiceRequest (Unit {0})
question = record { id = pos 7; service = b'a' ∷ []; args = []; kwargs = [] }

hi_below : TextBelow 256 (b'h' ∷ b'i' ∷ [])
unfolding encode_text
hi_below = record { encoded = b'h' ∷ b'i' ∷ []; encodes = refl; short = omega arith }

a_below : TextBelow 256 (b'a' ∷ [])
unfolding encode_text
a_below = record { encoded = b'a' ∷ []; encodes = refl; short = omega arith }

no_args : ArgsFit unit_codec [] []
no_args = record {
  args_few = omega arith;
  args_carried = tt;
  kwargs_few = omega arith;
  kwargs_distinct = tt;
  kwargs_carried = tt;
}

topic_arrives_example :
    (wire : Bytes) × (encode_topic_message codec greeting ≡ ok wire)
    × ((rest : Bytes)
        → decode_topic_message_or_service_request codec (wire ++ rest) ≡ (ok (inl greeting), rest))
unfolding build_data_codec
topic_arrives_example =
    topic_arrives tt libraries 2 arg greeting
      (record { topic_short = hi_below; arguments = no_args })

variable_signed_example :
    (variable_codec 4 ByteOrder.big true).encode (pos 200) [] ≡ (err overflow_error, [])
unfolding bit_length
variable_signed_example =
    variable_signed_overflow 4 200 ByteOrder.big [] (omega arith) (omega arith) refl

from_bytes_example :
    (bs : Bytes) × (to_bytes 2 ByteOrder.big false (pos 300) ≡ ok bs)
    × (length bs ≡ 2)
    × (from_bytes ByteOrder.big false bs ≡ pos 300)
from_bytes_example = from_bytes-to_bytes 2 ByteOrder.big false (pos 300) (omega arith)

-- Handling counts the messages.
abbrev count : TopicMessage (Unit {0}) → Exec ℕ (Unit {0})
count m n = (ok tt, 1 + n)

greeting_read :
    (wire : Bytes) × (encode_topic_message codec greeting ≡ ok wire)
    × ((rest : Bytes)
        → decode_topic_message_or_service_request codec (wire ++ rest) ≡ (ok (inl greeting), rest))
unfolding build_data_codec
greeting_read =
    topic_arrives tt libraries 2 arg greeting
      (record { topic_short = hi_below; arguments = no_args })

question_read :
    (wire : Bytes) × (encode_service_request codec question ≡ ok wire)
    × ((rest : Bytes)
        → decode_topic_message_or_service_request codec (wire ++ rest) ≡ (ok (inr question), rest))
unfolding build_data_codec
question_read =
    request_arrives tt libraries 2 arg question
      (record { id_fits = omega arith; service_short = a_below; arguments = no_args })

abbrev sent : List (Sent (Unit {0}))
sent = (greeting_read.0, inl greeting) ∷ (question_read.0, inr question) ∷ []

handle_client_example :
    handle_client codec count 3 (record { stream = stream_of sent; world = 0; tasks = [] })
    ≡ some (ok tt, record { stream = []; world = handle_all count sent 0; tasks = requests sent })
handle_client_example =
    handle_client-stream_of codec count (λ m w. refl) sent 3 0 []
      (greeting_read.2, (question_read.2, tt)) (omega arith)
