-- ===== src/Message/Node/Laws.antt =====
-- What a node sends on a connection is what the other node reads.
use rosy.Base.{ℕ, ◌≡◌, ◌≢◌, refl, sym, [], ◌∷◌, ◌++◌, holds-yes, holds-no, inl, inr, arith}
use rosy.Base.Text.{Text-discrete}
use rosy.Base.Exec.{ok, err, value_error}
use rosy.Stream.{Bytes}
use rosy.Codec.Interface.{Carries}
use rosy.Message.{TopicMessage, ServiceRequest}
use rosy.Message.Node.{
  NodeMessageCodec, encode_topic_message, encode_service_request,
  decode_topic_message_or_service_request,
}

module _ {Data : Type 0} (c : NodeMessageCodec Data) (t s : ℕ)
    (topic_is : c.topic_message_prefix ≡ t ∷ [])
    (request_is : c.service_request_prefix ≡ s ∷ []) where
  -- A topic message that the codec carries is read as that topic message.
  pub topic_message_received :
      (m : TopicMessage Data)
      → Carries c.topic_message_codec m
      → (wire : Bytes) × (encode_topic_message c m ≡ ok wire)
        × ((rest : Bytes)
            → decode_topic_message_or_service_request c (wire ++ rest) ≡ (ok (inl m), rest))
  unfolding encode_topic_message decode_topic_message_or_service_request
  topic_message_received m k = (
    t ∷ k.wire,
    rw (topic_is, k.writes) refl,
    λ rest.
        rw (holds-yes (Text-discrete (t ∷ []) c.topic_message_prefix) (sym topic_is), k.reads) refl,
  )

  -- A request that the codec carries is read as that request, if the two prefixes differ.
  pub service_request_received :
      (r : ServiceRequest Data)
      → s ≢ t
      → Carries c.service_request_codec r
      → (wire : Bytes) × (encode_service_request c r ≡ ok wire)
        × ((rest : Bytes)
            → decode_topic_message_or_service_request c (wire ++ rest) ≡ (ok (inr r), rest))
  unfolding encode_service_request decode_topic_message_or_service_request
  service_request_received r ne k = (
    s ∷ k.wire,
    rw (request_is, k.writes) refl,
    λ rest.
        rw
          (
            holds-no (Text-discrete (s ∷ []) c.topic_message_prefix) (differs topic_is),
            holds-yes (Text-discrete (s ∷ []) c.service_request_prefix) (sym request_is),
            k.reads,
          )
          refl,
  )
    where
      differs : {p : Bytes} → p ≡ t ∷ [] → ¬ (s ∷ [] ≡ p)
      differs e q = ground arith

  -- Any other first byte raises, and nothing behind it is read.
  pub unknown_prefix :
      (b : ℕ) (rest : Bytes)
      → b ≢ t
      → b ≢ s
      → decode_topic_message_or_service_request c (b ∷ rest) ≡ (err value_error, rest)
  unfolding decode_topic_message_or_service_request
  unknown_prefix b rest nt ns =
      rw
        (
          holds-no (Text-discrete (b ∷ []) c.topic_message_prefix) (differs t nt topic_is),
          holds-no (Text-discrete (b ∷ []) c.service_request_prefix) (differs s ns request_is),
        )
        refl
    where
      differs : (x : ℕ) {p : Bytes} → b ≢ x → p ≡ x ∷ [] → ¬ (b ∷ [] ≡ p)
      differs x ne e q = ground arith
