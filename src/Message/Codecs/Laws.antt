-- ===== src/Message/Codecs/Laws.antt =====
-- What the message codecs carry, given codecs that carry the fields.
use rosy.Base.{ℕ, ◌≡◌, refl, ap, ◌∙◌, [], ◌∷◌, ◌++◌, Option, none, some, append_assoc}
use rosy.Base.Text.{Text}
use rosy.Base.Exec.{ok, Result}
use rosy.Stream.{Bytes}
use rosy.Codec.Interface.{Codec, Carries, Sends}
use rosy.Message.{Args, Kwargs, RequestId, TopicMessage, ServiceRequest, ServiceResponse}
use rosy.Message.Codecs.{
  topic_message_codec, service_request_codec, service_response_codec, outcome_encode,
  outcome_decode,
}

-- Two parts of a wire form, one behind the other.
pub two_parts :
    (w a b : Bytes)
    → ◌≡◌ {A = Result (Unit {0}) × Bytes} (ok tt, (w ++ a) ++ b) (ok tt, w ++ (a ++ b))
two_parts w a b = ap (λ l. (ok tt, l)) (append_assoc w a b)

module _ {Data : Type 0} (text : Codec Text) (args : Codec (Args Data))
    (kwargs : Codec (Kwargs Data)) where
  -- A topic message is carried if its fields are.
  pub topic-Carries :
      (m : TopicMessage Data)
      → Carries text m.topic
      → Carries args m.args
      → Carries kwargs m.kwargs
      → Carries (topic_message_codec text args kwargs) m
  unfolding topic_message_codec
  topic-Carries m t a k = record {
    wire = t.wire ++ (a.wire ++ k.wire);
    writes = λ w.
        rw (t.writes w, a.writes (w ++ t.wire), k.writes)
          (two_parts (w ++ t.wire) a.wire k.wire ∙ two_parts w t.wire (a.wire ++ k.wire));
    reads = λ rest. rw (append_assoc t.wire, append_assoc a.wire, t.reads, a.reads, k.reads) refl;
  }

  -- A request is carried if its fields are.
  pub request-Carries :
      (id : Codec RequestId) (r : ServiceRequest Data)
      → Carries id r.id
      → Carries text r.service
      → Carries args r.args
      → Carries kwargs r.kwargs
      → Carries (service_request_codec id text args kwargs) r
  unfolding service_request_codec
  request-Carries id r i t a k = record {
    wire = i.wire ++ (t.wire ++ (a.wire ++ k.wire));
    writes = λ w.
        rw (i.writes w, t.writes (w ++ i.wire), a.writes ((w ++ i.wire) ++ t.wire), k.writes)
          (two_parts ((w ++ i.wire) ++ t.wire) a.wire k.wire
            ∙ two_parts (w ++ i.wire) t.wire (a.wire ++ k.wire)
            ∙ two_parts w i.wire (t.wire ++ (a.wire ++ k.wire)));
    reads = λ rest.
        rw
          (
            append_assoc i.wire,
            append_assoc t.wire,
            append_assoc a.wire,
            i.reads,
            t.reads,
            a.reads,
            k.reads,
          )
          refl;
  }

-- What the caller gets: an empty error is none, and a response with an error has no result.
unfoldable pub received_of :
    {Data : Type 0} → Data → RequestId → Data → Option Text → ServiceResponse Data
received_of null id result (some (c ∷ e)) = record { id = id; result = null; error = some (c ∷ e) }
received_of null id result _ = record { id = id; result = result; error = none }

abbrev pub received : {Data : Type 0} → Data → ServiceResponse Data → ServiceResponse Data
received null r = received_of null r.id r.result r.error

module _ {Data : Type 0} (null : Data) (id : Codec RequestId) (value : Codec Data)
    (error : Codec Text) where
  -- The part that is written is carried: the error if there is one, else the result.
  abbrev pub OutcomeCarries : Data → Option Text → Type 0
  OutcomeCarries result (some (c ∷ e)) = Carries error (c ∷ e)
  OutcomeCarries result (some []) = Carries value result
  OutcomeCarries result none = Carries value result

  abbrev OutcomeSent : RequestId → Data → Option Text → Type 0
  OutcomeSent i result e =
      (status : ℕ) × (wire : Bytes) × ((w : Bytes)
        → outcome_encode null id value error result e w ≡ (ok tt, w ++ status ∷ wire))
      × ((rest : Bytes)
          → outcome_decode null id value error i (status ∷ []) (wire ++ rest)
            ≡ (ok (received_of null i result e), rest))

  outcome_sent :
      (i : RequestId) (result : Data) (e : Option Text)
      → OutcomeCarries result e
      → OutcomeSent i result e
  unfolding outcome_encode outcome_decode received_of
  outcome_sent i result (some (c ∷ e)) k =
      (0xee, k.wire, λ w. rw k.writes (two_parts w (0xee ∷ []) k.wire), λ rest. rw k.reads refl)
  outcome_sent i result (some []) k =
      (0x00, k.wire, λ w. rw k.writes (two_parts w (0x00 ∷ []) k.wire), λ rest. rw k.reads refl)
  outcome_sent i result none k =
      (0x00, k.wire, λ w. rw k.writes (two_parts w (0x00 ∷ []) k.wire), λ rest. rw k.reads refl)

  -- A response whose id and written part are carried is read as `received` says.
  pub response-Sends :
      (r : ServiceResponse Data)
      → Carries id r.id
      → OutcomeCarries r.result r.error
      → Sends (service_response_codec null id value error) r (received null r)
  unfolding service_response_codec
  response-Sends r i k =
      let (status, wire, writes, reads) = outcome_sent r.id r.result r.error k in
      record {
        wire = i.wire ++ status ∷ wire;
        writes = λ w. rw (i.writes w, writes) (two_parts w i.wire (status ∷ wire));
        reads = λ rest. rw (append_assoc, i.reads) (reads rest);
      }
