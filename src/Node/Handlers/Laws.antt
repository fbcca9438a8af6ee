-- ===== src/Node/Handlers/Laws.antt =====
-- A connection's messages are handled one by one, until the stream ends.
use rosy.Base.{
  ℕ, zero, suc, ◌⊎◌, ◌≡◌, ◌<◌, refl, ap, ◌∙◌, inl, inr, true, false, some, List, [], ◌∷◌, ◌++◌,
  length, All, append_assoc, append-nil, arith,
}
use rosy.Base.Exec.{Error, Exec, Result, ok, err, contained, interrupt}
use rosy.Stream.{Bytes, readexactly}
use rosy.Message.{TopicMessage, ServiceRequest}
use rosy.Message.Node.{NodeMessageCodec, decode_topic_message_or_service_request}
use rosy.Node.{CallbackManager}
use rosy.Node.Handlers.{handle_message, Client, dispatch, handle_next, handle_client}

-- A message, and the bytes that stand for it on the stream.
abbrev pub Sent : Type 0 → Type 0
Sent Data = Bytes × (TopicMessage Data ⊎ ServiceRequest Data)

-- The codec reads the message back from its bytes, and leaves what follows.
abbrev pub Reads : {Data : Type 0} → NodeMessageCodec Data → Sent Data → Type 0
Reads codec m =
    (rest : Bytes) → decode_topic_message_or_service_request codec (m.0 ++ rest) ≡ (ok m.1, rest)

-- The bytes of the messages, one behind the other.
abbrev pub stream_of : {Data : Type 0} → List (Sent Data) → Bytes
stream_of [] = []
stream_of (m ∷ ms) = m.0 ++ stream_of ms

-- What the messages do to the program, the topic messages in order.
abbrev pub handle_all :
    {Data S : Type 0} → (TopicMessage Data → Exec S (Unit {0})) → List (Sent Data) → S → S
handle_all handle [] w = w
handle_all handle ((_, inl message) ∷ ms) w = handle_all handle ms (handle message w).1
handle_all handle ((_, inr request) ∷ ms) w = handle_all handle ms w

-- The requests among the messages.
abbrev pub requests : {Data : Type 0} → List (Sent Data) → List (ServiceRequest Data)
requests [] = []
requests ((_, inl _) ∷ ms) = requests ms
requests ((_, inr request) ∷ ms) = request ∷ requests ms

module _ {Data S : Type 0} (codec : NodeMessageCodec Data)
    (handle : TopicMessage Data → Exec S (Unit {0}))
    (total : (m : TopicMessage Data) (w : S) → (handle m w).0 ≡ ok tt) where
  abbrev client : Bytes → S → List (ServiceRequest Data) → Client Data S
  client stream world tasks = record { stream = stream; world = world; tasks = tasks }

  ended :
      (w : S) (tasks : List (ServiceRequest Data))
      → handle_next codec handle (client [] w tasks) ≡ (ok false, client [] w tasks)
  unfolding handle_next dispatch decode_topic_message_or_service_request readexactly
  ended w tasks = refl

  one_topic :
      (bytes rest : Bytes) (m : TopicMessage Data) (w : S) (tasks : List (ServiceRequest Data))
      → Reads codec (bytes, inl m)
      → handle_next codec handle (client (bytes ++ rest) w tasks)
        ≡ (ok true, client rest (handle m w).1 tasks)
  unfolding handle_next dispatch
  one_topic bytes rest m w tasks h = rw (h rest, total m w) refl

  one_request :
      (bytes rest : Bytes) (r : ServiceRequest Data) (w : S) (tasks : List (ServiceRequest Data))
      → Reads codec (bytes, inr r)
      → handle_next codec handle (client (bytes ++ rest) w tasks)
        ≡ (ok true, client rest w (tasks ++ r ∷ []))
  unfolding handle_next dispatch
  one_request bytes rest r w tasks h = rw (h rest) refl

  goes_on :
      (fuel : ℕ) (c c' : Client Data S)
      → handle_next codec handle c ≡ (ok true, c')
      → handle_client codec handle (suc fuel) c ≡ handle_client codec handle fuel c'
  unfolding handle_client
  goes_on fuel c c' h =
      rw (handle_client, h) (ap (handle_client codec handle fuel) (ap (λ r. r.1) h))

  ends :
      (fuel : ℕ) (c c' : Client Data S)
      → handle_next codec handle c ≡ (ok false, c')
      → handle_client codec handle (suc fuel) c ≡ some (ok tt, c')
  unfolding handle_client
  ends fuel c c' h = rw (handle_client, h) (ap (λ r. some (ok tt, r.1)) h)

  -- A client that sends messages which the codec reads, and closes the connection, has each topic
  -- message handled in order and a task made for each request, in order; then the loop returns.
  -- More rounds than messages are enough; the handling of topic messages does not raise.
  pub handle_client-stream_of :
      (ms : List (Sent Data)) (fuel : ℕ) (w : S) (tasks : List (ServiceRequest Data))
      → All (Reads codec) ms
      → length ms < fuel
      → handle_client codec handle fuel (record { stream = stream_of ms; world = w; tasks = tasks })
        ≡ some (
          ok tt,
          record { stream = []; world = handle_all handle ms w; tasks = tasks ++ requests ms },
        )
  handle_client-stream_of ms zero w tasks h k = absurd (omega arith)
  handle_client-stream_of [] (suc fuel) w tasks h k =
      rw (append-nil tasks) (ends fuel (client [] w tasks) (client [] w tasks) (ended w tasks))
  handle_client-stream_of ((bytes, inl m) ∷ ms) (suc fuel) w tasks h k =
      let w' = (handle m w).1 in
      goes_on fuel (client (bytes ++ stream_of ms) w tasks) (client (stream_of ms) w' tasks)
        (one_topic bytes (stream_of ms) m w tasks h.0)
      ∙ handle_client-stream_of ms fuel w' tasks h.1 (omega arith)
  handle_client-stream_of ((bytes, inr r) ∷ ms) (suc fuel) w tasks h k =
      goes_on fuel (client (bytes ++ stream_of ms) w tasks)
        (client (stream_of ms) w (tasks ++ r ∷ [])) (one_request bytes (stream_of ms) r w tasks h.0)
      ∙ (handle_client-stream_of ms fuel w (tasks ++ r ∷ []) h.1 (omega arith)
          ∙ ap (λ ts. some (ok tt, client [] (handle_all handle ms w) ts))
              (append_assoc tasks (r ∷ []) (requests ms)))

contained_raises :
    {S : Type 0} (r : Result (Unit {0}) × S) (e : Error) → (contained r).0 ≡ err e → e ≡ interrupt
contained_raises (ok _, s) e h = ground arith
contained_raises (err f, s) e h = elim f [ interrupt ↦ ground arith | _ ↦ ground arith ]

module _ {Data S C : Type 0} (run_callback : C → TopicMessage Data → Exec S (Unit {0})) where
  -- A topic message raises nothing but an exception of `ALLOWED_EXCEPTIONS`: not where its callback
  -- raises another exception, and not where no listener is registered.
  pub handle_message_raises :
      (listeners : CallbackManager C) (message : TopicMessage Data) (s : S) (e : Error)
      → (handle_message run_callback listeners message s).0 ≡ err e
      → e ≡ interrupt
  unfolding handle_message
  handle_message_raises listeners message s e h = contained_raises _ e h
