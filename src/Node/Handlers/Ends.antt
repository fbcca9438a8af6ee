-- ===== src/Node/Handlers/Ends.antt =====
-- The client handler ends on every stream, whatever bytes a client sends.
use rosy.Base.{
  ℕ, zero, suc, ◌<◌, ◌≡◌, ◌⊎◌, inl, inr, refl, ap, Bool, true, false, some, [], ◌∷◌, length, arith,
  holds, Bool-cases,
}
use rosy.Base.Text.{Text-discrete}
use rosy.Base.Exec.{Error, Exec, Result, ok, err, incomplete_read}
use rosy.Stream.{Bytes, readexactly}
use rosy.Codec.Shrinks.{
  Shrinks, shrinking, fixed-Shrinks, string-Shrinks, sequence-Shrinks, dict-Shrinks,
}
use rosy.Message.{TopicMessage, ServiceRequest}
use rosy.Message.Codecs.{topic_decode, request_decode, topic_message_codec, service_request_codec}
use rosy.Message.Node.{NodeMessageCodec, decode_by_prefix, decode_topic_message_or_service_request}
use rosy.Builder.Codec.{
  Serializers, DataCodecArg, int_codec, short_string_codec, args_codec, kwargs_codec,
}
use rosy.Builder.Codec.Wire.{codec, built}
use rosy.Node.Handlers.{Client, dispatch, handle_next, handle_client}

module _ {Data : Type 0} (c : NodeMessageCodec Data) where
  prefix-Shrinks :
      (prefix : Bytes)
      → Shrinks c.topic_message_codec.decode
      → Shrinks c.service_request_codec.decode
      → Shrinks (decode_by_prefix c prefix)
  unfolding decode_by_prefix
  prefix-Shrinks prefix h k =
      elim (Bool-cases (holds (Text-discrete prefix c.topic_message_prefix))) [
        | inl e ↦ rw e (search (shrinking))
        | inr e ↦ elim (Bool-cases (holds (Text-discrete prefix c.service_request_prefix))) [
          | inl f ↦ rw (e, f) (search (shrinking))
          | inr f ↦ rw (e, f) (search (shrinking))
        ]
      ]

  -- A message that was decoded took at least one byte.
  decoded-lt :
      (stream : Bytes)
      → Shrinks c.topic_message_codec.decode
      → Shrinks c.service_request_codec.decode
      → (m : TopicMessage Data ⊎ ServiceRequest Data)
      → (decode_topic_message_or_service_request c stream).0 ≡ ok m
      → length (decode_topic_message_or_service_request c stream).1 < length stream
  unfolding decode_topic_message_or_service_request readexactly
  decoded-lt [] h k m e = absurd (cc)
  decoded-lt (b ∷ stream) h k m e = omega (arith, (prefix-Shrinks (b ∷ []) h k).at stream)

going : (r : Result Bool) → (r ≡ ok true) ⊎ ((r ≡ ok false) ⊎ ((e : Error) × (r ≡ err e)))
going (ok true) = inl refl
going (ok false) = inr (inl refl)
going (err e) = inr (inr (e, refl))

module _ {Data S : Type 0} (handle : TopicMessage Data → Exec S (Unit {0})) where
  dispatch-stream :
      (r : Result (TopicMessage Data ⊎ ServiceRequest Data)) (c : Client Data S)
      → (dispatch handle r c).1.stream ≡ c.stream
  unfolding dispatch
  dispatch-stream (ok (inl m)) c = ground arith
  dispatch-stream (ok (inr m)) c = refl
  dispatch-stream (err incomplete_read) c = refl
  dispatch-stream (err e) c = refl

  dispatch-true :
      (r : Result (TopicMessage Data ⊎ ServiceRequest Data)) (c : Client Data S)
      → (dispatch handle r c).0 ≡ ok true
      → (m : TopicMessage Data ⊎ ServiceRequest Data) × (r ≡ ok m)
  unfolding dispatch
  dispatch-true (ok m) c h = (m, refl)
  dispatch-true (err incomplete_read) c h = absurd (cc)
  dispatch-true (err e) c h = absurd (cc)

  module _ (codec : NodeMessageCodec Data) (topics : Shrinks codec.topic_message_codec.decode)
      (requests : Shrinks codec.service_request_codec.decode) where
    next-lt :
        (c : Client Data S)
        → (handle_next codec handle c).0 ≡ ok true
        → length (handle_next codec handle c).1.stream < length c.stream
    unfolding handle_next
    next-lt c h =
        let d = decode_topic_message_or_service_request codec c.stream in
        let c' : Client Data S = record c { stream = d.1 } in
        let (m, e) = dispatch-true d.0 c' h in
        omega (
          arith,
          ap (λ s. length s) (dispatch-stream d.0 c'),
          decoded-lt codec c.stream topics requests m e,
        )

    -- The loop over the rounds ends with more rounds than there are bytes.
    handle_client_total :
        (fuel : ℕ) (c : Client Data S)
        → length c.stream < fuel
        → (r : Result (Unit {0}) × Client Data S) × (handle_client codec handle fuel c ≡ some r)
    unfolding handle_client
    handle_client_total zero c h = absurd (omega arith)
    handle_client_total (suc fuel) c h = elim (going (handle_next codec handle c).0) [
      | inl e ↦
          (let (r, k) =
              handle_client_total fuel (handle_next codec handle c).1
                (omega (arith, next-lt c e)) in
            (r, rw (handle_client, e) k))
      | inr (inl e) ↦ ((ok tt, (handle_next codec handle c).1), rw (handle_client, e) refl)
      | inr (inr (x, e)) ↦ ((err x, (handle_next codec handle c).1), rw (handle_client, e) refl)
    ]

module _ {Data S : Type 0} (null : Data) (libs : Serializers Data) (id_bytes : ℕ)
    (arg : DataCodecArg Data) (handle : TopicMessage Data → Exec S (Unit {0}))
    (data_shrinks : Shrinks (codec null libs id_bytes arg).decode) where
  args_shrink : Shrinks (args_codec (codec null libs id_bytes arg)).decode
  args_shrink =
      sequence-Shrinks (int_codec 1) (codec null libs id_bytes arg) (fixed-Shrinks _ _ _)
        data_shrinks

  text-Shrinks : Shrinks short_string_codec.decode
  text-Shrinks = string-Shrinks (int_codec 1) (fixed-Shrinks _ _ _)

  kwargs_shrink : Shrinks (kwargs_codec (codec null libs id_bytes arg)).decode
  kwargs_shrink =
      dict-Shrinks Text-discrete (int_codec 1) short_string_codec (codec null libs id_bytes arg)
        (fixed-Shrinks _ _ _) text-Shrinks data_shrinks

  topic-Shrinks : Shrinks (built null libs id_bytes arg).topic_message_codec.decode
  unfolding topic_message_codec topic_decode
  topic-Shrinks = search (shrinking, args_shrink, text-Shrinks, kwargs_shrink)

  request-Shrinks : Shrinks (built null libs id_bytes arg).service_request_codec.decode
  unfolding service_request_codec request_decode
  request-Shrinks = search (shrinking, args_shrink, text-Shrinks, kwargs_shrink, fixed-Shrinks)

  -- With the built codec, over a data codec that puts no bytes back, the handler of a client
  -- connection ends on every stream, well-formed or not, in at most one round more than there are
  -- bytes: it returns or raises.
  pub handle_client_ends :
      (c : Client Data S) (fuel : ℕ)
      → length c.stream < fuel
      → (r : Result (Unit {0}) × Client Data S) × (handle_client
            (built null libs id_bytes arg)
            handle
            fuel
            c
          ≡ some r)
  handle_client_ends c fuel h =
      handle_client_total handle (built null libs id_bytes arg) topic-Shrinks request-Shrinks fuel c
        h
