-- ===== src/Node/Handlers.antt =====
-- src/rosy/node/topic/messagehandler.py, node/service/requesthandler.py and node/clienthandler.py:
-- what a node does with the messages that arrive on a connection.
pub mod Laws
pub mod Ends
use rosy.Base.{
  ℕ, zero, suc, ◌+◌, ◌⊎◌, inl, inr, Bool, true, false, Option, none, some, List, [], ◌∷◌, ◌++◌,
}
use rosy.Base.Text.{Text}
use rosy.Base.Exec.{
  Error, Exec, Result, ok, err, pure, raise, lift, contained, modify, ◌>>=◌, ◌>>◌, after, on_first,
  on_second, type_error, incomplete_read, interrupt,
}
use rosy.Stream.{Bytes, LockableWriter, with_lock}
use rosy.Message.{TopicMessage, ServiceRequest, ServiceResponse}
use rosy.Message.Node.{
  NodeMessageCodec, encode_service_response, decode_topic_message_or_service_request,
}
use rosy.Node.{CallbackManager, get_callback}

-- The text of the error for a service without a handler; `repr` is Python's.
abbrev pub not_provided : (Text → Text) → Text → Text
not_provided repr service =
    (b's' ∷ b'e' ∷ b'r' ∷ b'v' ∷ b'i' ∷ b'c' ∷ b'e' ∷ 0x3d ∷ [])
    ++ repr service
    ++ (0x20 ∷ b'i' ∷ b's' ∷ 0x20 ∷ b'n' ∷ b'o' ∷ b't' ∷ 0x20 ∷ b'p' ∷ b'r' ∷ b'o' ∷ b'v' ∷ b'i'
        ∷ b'd' ∷ b'e' ∷ b'd' ∷ 0x20 ∷ b'b' ∷ b'y' ∷ 0x20 ∷ b't' ∷ b'h' ∷ b'i' ∷ b's' ∷ 0x20 ∷ b'n'
        ∷ b'o' ∷ b'd' ∷ b'e' ∷ [])

-- The response for what the handler returned or raised. `except Exception` lets the exceptions of
-- `ALLOWED_EXCEPTIONS` through; `repr_error` is `repr` of an exception.
unfoldable pub answer :
    {Data : Type 0}
    → Data
    → (Error → Text)
    → ServiceRequest Data
    → Result Data
    → Result (ServiceResponse Data)
answer null repr_error request (ok result) =
    ok (record { id = request.id; result = result; error = none })
answer null repr_error request (err interrupt) = err interrupt
answer null repr_error request (err e) =
    ok (record { id = request.id; result = null; error = some (repr_error e) })

module _ {Data S C : Type 0} where
  -- `TopicMessageHandler.handle_message`. Without a listener it warns and goes on to call None,
  -- which raises a `TypeError`.
  unfoldable pub handle_message :
      (C → TopicMessage Data → Exec S (Unit {0}))
      → CallbackManager C
      → TopicMessage Data
      → Exec S (Unit {0})
  unfolding get_callback
  handle_message run_callback listeners message s =
      contained (elim (get_callback message.topic listeners) [
        | none ↦ (err type_error, s)
        | some callback ↦ run_callback callback message s
      ])

  -- `handle_request` up to the response.
  unfoldable pub respond :
      Data
      → (Text → Text)
      → (Error → Text)
      → (C → ServiceRequest Data → Exec S Data)
      → CallbackManager C
      → ServiceRequest Data
      → Exec S (ServiceResponse Data)
  unfolding get_callback answer
  respond null repr repr_error run_handler handlers request s =
      elim (get_callback request.service handlers) [
        | none ↦ (
          ok (record {
            id = request.id;
            result = null;
            error = some (not_provided repr request.service);
          }),
          s,
        )
        | some handler ↦
            let (r, s') = run_handler handler request s in (answer null repr_error request r, s')
      ]

  -- `ServiceRequestHandler.handle_request`
  unfoldable pub handle_request :
      NodeMessageCodec Data
      → Data
      → (Text → Text)
      → (Error → Text)
      → (C → ServiceRequest Data → Exec S Data)
      → CallbackManager C
      → ServiceRequest Data
      → Exec (S × LockableWriter) (Unit {0})
  unfolding respond with_lock encode_service_response
  handle_request codec null repr repr_error run_handler handlers request = do
    response ← on_first (respond null repr repr_error run_handler handlers request)
    on_second (with_lock (encode_service_response codec response))

-- What a client handler works on: the bytes that the reader still gives, the state of the program's
-- callbacks, and the requests that it made tasks for, the first one first.
pub record Client (Data S : Type 0) : Type 0 where
  pub stream : Bytes
  pub world : S
  pub tasks : List (ServiceRequest Data)

module _ {Data S : Type 0} where
  -- The body of the loop for what was decoded. An `EOFError` ends the loop; `true` says that it
  -- goes on.
  unfoldable pub dispatch :
      (TopicMessage Data → Exec S (Unit {0}))
      → Result (TopicMessage Data ⊎ ServiceRequest Data)
      → Exec (Client Data S) Bool
  dispatch handle (ok (inl message)) c =
      let (r, w) = handle message c.world in after (r, record c { world = w }) (λ _. pure true)
  dispatch handle (ok (inr request)) c = (ok true, record c { tasks = c.tasks ++ request ∷ [] })
  dispatch handle (err incomplete_read) c = (ok false, c)
  dispatch handle (err e) c = (err e, c)

  -- One round of the loop.
  unfoldable pub handle_next :
      NodeMessageCodec Data → (TopicMessage Data → Exec S (Unit {0})) → Exec (Client Data S) Bool
  unfolding dispatch
  handle_next codec handle c =
      let (r, stream) = decode_topic_message_or_service_request codec c.stream in
      dispatch handle r (record c { stream = stream })

  -- `ClientHandler.handle_client`, for at most `fuel` rounds; `none` where they are not enough.
  unfoldable pub handle_client :
      NodeMessageCodec Data
      → (TopicMessage Data → Exec S (Unit {0}))
      → ℕ
      → Client Data S
      → Option (Result (Unit {0}) × Client Data S)
  handle_client codec handle zero c = none
  handle_client codec handle (suc fuel) c =
      let (going, c') = handle_next codec handle c in
      elim going [
        | ok true ↦ handle_client codec handle fuel c'
        | ok false ↦ some (ok tt, c')
        | err e ↦ some (err e, c')
      ]
