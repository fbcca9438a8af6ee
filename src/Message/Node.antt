-- ===== src/Message/Node.antt =====
-- src/rosy/node/codec.py: the codec of a connection between nodes.
pub mod Laws
use rosy.Base.{
  ◌≡◌, List, [], ◌∷◌, ◌++◌, Bool, true, false, ◌&&◌, ◌==◌, if◌then◌else◌, holds, length, ◌⊎◌, inl,
  inr,
}
use rosy.Base.Text.{Text-discrete}
use rosy.Base.Exec.{Exec, Result, ok, err, pure, raise, ◌>>=◌, ◌>>◌, after, value_error}
use rosy.Stream.{Bytes, readexactly, write}
use rosy.Codec.Interface.{Codec}
use rosy.Message.{TopicMessage, ServiceRequest, ServiceResponse}

pub record NodeMessageCodec (Data : Type 0) : Type 0 where
  pub topic_message_codec : Codec (TopicMessage Data)
  pub service_request_codec : Codec (ServiceRequest Data)
  pub service_response_codec : Codec (ServiceResponse Data)
  pub topic_message_prefix : Bytes
  pub service_request_prefix : Bytes

-- `b"t"` and `b"s"`, the defaults
abbrev pub topic_prefix : Bytes
topic_prefix = b't' ∷ []

abbrev pub request_prefix : Bytes
request_prefix = b's' ∷ []

-- The buffer that is returned; an exception drops it.
abbrev pub filled : Result (Unit {0}) × Bytes → Result Bytes
filled (ok _, buffer) = ok buffer
filled (err e, buffer) = err e

-- `buffer = BufferWriter()`, the body on it, `return buffer`
abbrev pub buffered : Exec Bytes (Unit {0}) → Result Bytes
buffered body = filled (body [])

module _ {Data : Type 0} where
  -- The constructor, with its tests.
  unfoldable pub node_message_codec :
      Codec (TopicMessage Data)
      → Codec (ServiceRequest Data)
      → Codec (ServiceResponse Data)
      → Bytes
      → Bytes
      → Result (NodeMessageCodec Data)
  node_message_codec topic request response topic_message_prefix service_request_prefix =
      if length topic_message_prefix == 1
      then if length service_request_prefix == 1
        then ok (record {
          topic_message_codec = topic;
          service_request_codec = request;
          service_response_codec = response;
          topic_message_prefix = topic_message_prefix;
          service_request_prefix = service_request_prefix;
        })
        else err value_error
      else err value_error

  module _ (c : NodeMessageCodec Data) where
    unfoldable pub encode_topic_message : TopicMessage Data → Result Bytes
    unfolding write
    encode_topic_message message =
        buffered do write c.topic_message_prefix; c.topic_message_codec.encode message

    unfoldable pub encode_service_request : ServiceRequest Data → Result Bytes
    unfolding write
    encode_service_request request =
        buffered do write c.service_request_prefix; c.service_request_codec.encode request

    unfoldable pub encode_service_response : ServiceResponse Data → Exec Bytes (Unit {0})
    encode_service_response response = c.service_response_codec.encode response

    unfoldable pub decode_by_prefix : Bytes → Exec Bytes (TopicMessage Data ⊎ ServiceRequest Data)
    unfolding Text-discrete
    decode_by_prefix prefix =
        if holds (Text-discrete prefix c.topic_message_prefix)
        then (do message ← c.topic_message_codec.decode; pure (inl message))
        else if holds (Text-discrete prefix c.service_request_prefix)
        then (do request ← c.service_request_codec.decode; pure (inr request))
        else raise value_error

    unfoldable pub decode_topic_message_or_service_request :
        Exec Bytes (TopicMessage Data ⊎ ServiceRequest Data)
    unfolding readexactly decode_by_prefix
    decode_topic_message_or_service_request = do prefix ← readexactly 1; decode_by_prefix prefix

    unfoldable pub decode_service_response : Exec Bytes (ServiceResponse Data)
    decode_service_response = c.service_response_codec.decode
