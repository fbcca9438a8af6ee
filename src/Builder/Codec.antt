-- ===== src/Builder/Codec.antt =====
-- `build_node_message_codec` and `build_data_codec` of src/rosy/node/builder.py.
pub mod Wire
use rosy.Base.{ℕ, false}
use rosy.Base.Int.{ℤ}
use rosy.Base.Text.{Text, Text-discrete}
use rosy.Base.Exec.{Result}
use rosy.Codec.Interface.{Codec}
use rosy.Codec.Bytes.{ByteOrder}
use rosy.Codec.Ints.{fixed_length_int_codec}
use rosy.Codec.Containers.{string_codec, sequence_codec, dict_codec}
use rosy.Codec.Serializers.{Serializer, pickle_codec, json_codec, msgpack_codec}
use rosy.Message.{Args, Kwargs}
use rosy.Message.Codecs.{topic_message_codec, service_request_codec, service_response_codec}
use rosy.Message.Node.{NodeMessageCodec, node_message_codec, topic_prefix, request_prefix}

-- "pickle", "json", "msgpack", or a codec
pub data DataCodecArg (Data : Type 0) : Type 0 where
  pickle json msgpack : DataCodecArg Data
  custom : Codec Data → DataCodecArg Data

-- The serializers that the program calls.
pub record Serializers (Data : Type 0) : Type 0 where
  pub pickle_lib : Serializer Data
  pub orjson_lib : Serializer Data
  pub msgpack_lib : Serializer Data

-- `FixedLengthIntCodec(length)` with its defaults
abbrev pub int_codec : ℕ → Codec ℤ
int_codec length = fixed_length_int_codec length ByteOrder.little false

-- `short_string_codec`
abbrev pub short_string_codec : Codec Text
short_string_codec = string_codec (int_codec 1)

module _ {Data : Type 0} where
  unfoldable pub build_data_codec : Serializers Data → DataCodecArg Data → Codec Data
  build_data_codec libs pickle = pickle_codec libs.pickle_lib
  build_data_codec libs json = json_codec libs.orjson_lib
  build_data_codec libs msgpack = msgpack_codec libs.msgpack_lib
  build_data_codec libs (custom codec) = codec

  abbrev pub args_codec : Codec Data → Codec (Args Data)
  args_codec data_codec = sequence_codec (int_codec 1) data_codec

  abbrev pub kwargs_codec : Codec Data → Codec (Kwargs Data)
  kwargs_codec data_codec = dict_codec Text-discrete (int_codec 1) short_string_codec data_codec

  unfoldable pub build_node_message_codec :
      Data → Serializers Data → ℕ → DataCodecArg Data → Result (NodeMessageCodec Data)
  unfolding build_data_codec
  build_node_message_codec null libs request_id_bytes data_codec_arg =
      let data_codec = build_data_codec libs data_codec_arg in
      let args = args_codec data_codec in
      let kwargs = kwargs_codec data_codec in
      let request_id_codec = int_codec request_id_bytes in
      node_message_codec (topic_message_codec short_string_codec args kwargs)
        (service_request_codec request_id_codec short_string_codec args kwargs)
        (service_response_codec null request_id_codec data_codec (string_codec (int_codec 2)))
        topic_prefix request_prefix
