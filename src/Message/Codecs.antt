-- ===== src/Message/Codecs.antt =====
-- src/rosy/node/topic/codec.py and node/service/codec.py.
pub mod Laws
use rosy.Base.{List, [], ◌∷◌, ◌++◌, Option, none, some, Bool, true, false, if◌then◌else◌, holds}
use rosy.Base.Text.{Text, Text-discrete}
use rosy.Base.Exec.{Exec, pure, raise, lift, ◌>>=◌, ◌>>◌, after, value_error}
use rosy.Stream.{Bytes, readexactly, write}
use rosy.Codec.Interface.{Codec}
use rosy.Message.{Args, Kwargs, RequestId, TopicMessage, ServiceRequest, ServiceResponse}

module _ {Data : Type 0} where
  unfoldable pub topic_encode :
      Codec Text
      → Codec (Args Data)
      → Codec (Kwargs Data)
      → TopicMessage Data
      → Exec Bytes (Unit {0})
  topic_encode topic_codec args_codec kwargs_codec message = do
    topic_codec.encode message.topic
    args_codec.encode message.args
    kwargs_codec.encode message.kwargs

  unfoldable pub topic_decode :
      Codec Text → Codec (Args Data) → Codec (Kwargs Data) → Exec Bytes (TopicMessage Data)
  topic_decode topic_codec args_codec kwargs_codec = do
    topic ← topic_codec.decode
    args ← args_codec.decode
    kwargs ← kwargs_codec.decode
    pure (record { topic = topic; args = args; kwargs = kwargs })

  -- `TopicMessageCodec`
  unfoldable pub topic_message_codec :
      Codec Text → Codec (Args Data) → Codec (Kwargs Data) → Codec (TopicMessage Data)
  unfolding topic_encode topic_decode
  topic_message_codec topic_codec args_codec kwargs_codec = record {
    encode = topic_encode topic_codec args_codec kwargs_codec;
    decode = topic_decode topic_codec args_codec kwargs_codec;
  }

  unfoldable pub request_encode :
      Codec RequestId
      → Codec Text
      → Codec (Args Data)
      → Codec (Kwargs Data)
      → ServiceRequest Data
      → Exec Bytes (Unit {0})
  request_encode id_codec service_codec args_codec kwargs_codec request = do
    id_codec.encode request.id
    service_codec.encode request.service
    args_codec.encode request.args
    kwargs_codec.encode request.kwargs

  unfoldable pub request_decode :
      Codec RequestId
      → Codec Text
      → Codec (Args Data)
      → Codec (Kwargs Data)
      → Exec Bytes (ServiceRequest Data)
  request_decode id_codec service_codec args_codec kwargs_codec = do
    id ← id_codec.decode
    service ← service_codec.decode
    args ← args_codec.decode
    kwargs ← kwargs_codec.decode
    pure (record { id = id; service = service; args = args; kwargs = kwargs })

  -- `ServiceRequestCodec`
  unfoldable pub service_request_codec :
      Codec RequestId
      → Codec Text
      → Codec (Args Data)
      → Codec (Kwargs Data)
      → Codec (ServiceRequest Data)
  unfolding request_encode request_decode
  service_request_codec id_codec service_codec args_codec kwargs_codec = record {
    encode = request_encode id_codec service_codec args_codec kwargs_codec;
    decode = request_decode id_codec service_codec args_codec kwargs_codec;
  }

-- The default status codes.
abbrev pub success_status_code : Bytes
success_status_code = 0x00 ∷ []

abbrev pub error_status_code : Bytes
error_status_code = 0xee ∷ []

-- `null` is None.
module _ {Data : Type 0} (null : Data) where
  module _ (id_codec : Codec RequestId) (data_codec : Codec Data) (error_codec : Codec Text) where
    -- What follows the id: an empty text is no error for `if response.error`.
    unfoldable pub outcome_encode : Data → Option Text → Exec Bytes (Unit {0})
    unfolding write
    outcome_encode result (some (c ∷ error)) = do
      write error_status_code
      error_codec.encode (c ∷ error)
    outcome_encode result _ = do write success_status_code; data_codec.encode result

    unfoldable pub response_encode : ServiceResponse Data → Exec Bytes (Unit {0})
    unfolding outcome_encode
    response_encode response = do
      id_codec.encode response.id
      outcome_encode response.result response.error

    unfoldable pub outcome_decode : RequestId → Bytes → Exec Bytes (ServiceResponse Data)
    unfolding Text-discrete
    outcome_decode id status_code =
        if holds (Text-discrete status_code success_status_code)
        then (do value ← data_codec.decode; pure (record { id = id; result = value; error = none }))
        else if holds (Text-discrete status_code error_status_code)
        then (do
          error ← error_codec.decode
          pure (record { id = id; result = null; error = some error }))
        else raise value_error

    unfoldable pub response_decode : Exec Bytes (ServiceResponse Data)
    unfolding readexactly outcome_decode
    response_decode = do
      id ← id_codec.decode
      status_code ← readexactly 1
      outcome_decode id status_code

    -- `ServiceResponseCodec`
    unfoldable pub service_response_codec : Codec (ServiceResponse Data)
    unfolding response_encode response_decode
    service_response_codec = record { encode = response_encode; decode = response_decode }
