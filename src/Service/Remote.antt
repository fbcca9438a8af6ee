-- ===== src/Service/Remote.antt =====
-- A service call across two nodes: the caller of one, the request handler of the other, and the
-- bytes between them.
use rosy.Base.{
  ℕ, ◌<◌, ◌≤◌, ◌^◌, ◌≡◌, ◌≢◌, refl, sym, ◌∙◌, subst, ap, arith, Option-cases, inl, inr, Option,
  none, some, List, [], ◌∷◌, ◌++◌, All, false,
}
use rosy.Base.Int.{pos}
use rosy.Base.Text.{Text}
use rosy.Base.Exec.{Error, Exec, Result, ok, err, interrupt, service_response_error}
use rosy.Stream.{Bytes, LockableWriter, with_lock}
use rosy.Codec.Bytes.{Fits}
use rosy.Message.{RequestId, ServiceRequest, ServiceResponse}
use rosy.Message.Codecs.Laws.{received, received_of}
use rosy.Message.Node.{encode_service_response, decode_service_response}
use rosy.Builder.Codec.{Serializers, DataCodecArg}
use rosy.Builder.Codec.Wire.{codec, built, OutcomeFits, response_arrives}
use rosy.Node.{CallbackManager, get_callback}
use rosy.Node.Handlers.{not_provided, answer, respond, handle_request}
use rosy.Service.Caller.{Caller, enter_request, handle_one_response, finish_request, outcome}
use rosy.Service.Caller.Valid.{IsValid, registered}
use rosy.Service.Caller.Request.{entered-lt}
use rosy.Service.Caller.Routing.{Event, run, Spares, call_gets_its_response}

-- The writer with the bytes behind what it has, and its lock free.
abbrev pub written_to : LockableWriter → Bytes → LockableWriter
written_to w bytes = record w { written = w.written ++ bytes; locked = false }

-- What the call returns or raises for the response that was sent.
unfoldable pub result_of : {Data : Type 0} → Data → ServiceResponse Data → Result Data
unfolding outcome received_of
result_of null r = outcome (received null r)

received-id : {Data : Type 0} (null : Data) (r : ServiceResponse Data) → (received null r).id ≡ r.id
unfolding received_of
received-id null r = ground arith

-- What a handler returned or raised, as the caller gets it.
abbrev pub remote_result : {Data : Type 0} → (Error → Text) → Result Data → Result Data
remote_result repr_error (ok v) = ok v
remote_result repr_error (err e) = err (service_response_error (repr_error e))

error_result :
    {Data : Type 0} (null : Data) (id : RequestId) (text : Text)
    → text ≢ []
    → result_of null (record { id = id; result = null; error = some text })
      ≡ err (service_response_error text)
unfolding result_of
error_result null id [] ne = absurd (ne refl)
error_result null id (c ∷ cs) ne = refl

answer_result :
    {Data : Type 0} (null : Data) (repr_error : Error → Text) (request : ServiceRequest Data)
    (r : Result Data) (resp : ServiceResponse Data)
    → ((e : Error) → repr_error e ≢ [])
    → answer null repr_error request r ≡ ok resp
    → result_of null resp ≡ remote_result repr_error r
unfolding answer
answer_result null re request (ok v) resp ne h =
    let e : record { id = request.id; result = v; error = none } ≡ resp = cc in
    subst (λ x. result_of null x ≡ ok v) e (unfold result_of in refl)
answer_result null re request (err interrupt) resp ne h = absurd (cc (h))
answer_result null re request (err x) resp ne h =
    let e : record { id = request.id; result = null; error = some (re x) } ≡ resp = cc in
    subst (λ y. result_of null y ≡ err (service_response_error (re x))) e
      (error_result null request.id (re x) (ne x))

module _ {Data S C : Type 0} (null : Data) (libs : Serializers Data) (id_bytes : ℕ)
    (arg : DataCodecArg Data) (repr : Text → Text) (repr_error : Error → Text)
    (run_handler : C → ServiceRequest Data → Exec S Data) (handlers : CallbackManager C) where
  answers :
      (request : ServiceRequest Data) (s s' : S) (resp : ServiceResponse Data) (w : LockableWriter)
      (wire : Bytes)
      → respond null repr repr_error run_handler handlers request s ≡ (ok resp, s')
      → ((b : Bytes)
          → encode_service_response (built null libs id_bytes arg) resp b ≡ (ok tt, b ++ wire))
      → handle_request
          (built null libs id_bytes arg)
          null
          repr
          repr_error
          run_handler
          handlers
          request
          (s, w)
        ≡ (ok tt, (s', written_to w wire))
  unfolding handle_request with_lock
  answers request s s' resp w wire responded writes = rw (responded, writes) refl

  -- What `respond` gives, by the handler.
  abbrev answered : Option C → ServiceRequest Data → S → Result (ServiceResponse Data)
  answered none request s =
      ok (record {
        id = request.id;
        result = null;
        error = some (not_provided repr request.service);
      })
  answered (some handler) request s =
      answer null repr_error request (run_handler handler request s).0

  respond-answered :
      (request : ServiceRequest Data) (s : S)
      → (respond null repr repr_error run_handler handlers request s).0
        ≡ answered (get_callback request.service handlers) request s
  unfolding respond
  respond-answered request s = elim (Option-cases (get_callback request.service handlers)) [
    | inl e ↦ rw (e, respond) refl
    | inr (h, e) ↦ rw (e, respond) refl
  ]

  answered-id :
      (o : Option C) (request : ServiceRequest Data) (s : S) (resp : ServiceResponse Data)
      → answered o request s ≡ ok resp
      → resp.id ≡ request.id
  unfolding answer
  answered-id none request s resp h = cc
  answered-id (some handler) request s resp h = ground arith

  respond-id :
      (request : ServiceRequest Data) (s s' : S) (resp : ServiceResponse Data)
      → respond null repr repr_error run_handler handlers request s ≡ (ok resp, s')
      → resp.id ≡ request.id
  unfolding respond
  respond-id request s s' resp h =
      answered-id (get_callback request.service handlers) request s resp
        (sym (respond-answered request s) ∙ ap (λ r. r.0) h)

  -- What a call is to give, by the handler of the service and what it returns or raises.
  abbrev pub call_result : Option C → ServiceRequest Data → S → Result Data
  call_result none request s = err (service_response_error (not_provided repr request.service))
  call_result (some handler) request s = remote_result repr_error (run_handler handler request s).0

  answered_result :
      (o : Option C) (request : ServiceRequest Data) (s : S) (resp : ServiceResponse Data)
      → ((e : Error) → repr_error e ≢ [])
      → answered o request s ≡ ok resp
      → result_of null resp ≡ call_result o request s
  answered_result none request s resp ne h =
      let text = not_provided repr request.service in
      let e : record { id = request.id; result = null; error = some text } ≡ resp = cc in
      subst (λ y. result_of null y ≡ err (service_response_error text)) e
        (error_result null request.id text (λ n. cc))
  answered_result (some handler) request s resp ne h =
      answer_result null repr_error request (run_handler handler request s).0 resp ne h

  -- The call returns what the handler returned, raises a `ServiceResponseError` with the `repr` of
  -- what the handler raised, or one that says that the service is not provided, where the `repr` of
  -- no exception is empty.
  pub result_of-respond :
      (request : ServiceRequest Data) (s s' : S) (resp : ServiceResponse Data)
      → ((e : Error) → repr_error e ≢ [])
      → respond null repr repr_error run_handler handlers request s ≡ (ok resp, s')
      → result_of null resp ≡ call_result (get_callback request.service handlers) request s
  result_of-respond request s s' resp ne h =
      answered_result (get_callback request.service handlers) request s resp ne
        (sym (respond-answered request s) ∙ ap (λ r. r.0) h)

  -- A call across two nodes with the built codec. The caller, in a valid state and with no more
  -- request ids than fit into the id's bytes, registered the request; the other node's handler runs
  -- and its response is within the limits of the codec. Then the handler's task writes the response
  -- whole, the caller reads it back whatever follows on the stream, and when it handles it, after
  -- any events that are not of this request, the call ends with the result of the response, and its
  -- id is free again.
  pub remote_call :
      (reader id : ℕ) (c c' : Caller Data) (es : List (Event Data)) (request : ServiceRequest Data)
      (resp : ServiceResponse Data) (s s' : S) (w : LockableWriter)
      → IsValid c
      → c.max_request_ids ≤ 256 ^ id_bytes
      → enter_request reader c ≡ (ok (id, c.fresh), c')
      → request.id ≡ pos id
      → All (Spares reader id c.fresh) es
      → respond null repr repr_error run_handler handlers request s ≡ (ok resp, s')
      → OutcomeFits (codec null libs id_bytes arg) resp.result resp.error
      → (wire : Bytes) × (handle_request
            (built null libs id_bytes arg)
            null
            repr
            repr_error
            run_handler
            handlers
            request
            (s, w)
          ≡ (ok tt, (s', written_to w wire)))
        × ((rest : Bytes)
            → decode_service_response (built null libs id_bytes arg) (wire ++ rest)
              ≡ (ok (received null resp), rest))
        × (c'' : Caller Data) × (finish_request reader id c.fresh
              (handle_one_response reader (received null resp) (run es c'))
            ≡ some (result_of null resp, c''))
        × (registered c'' reader id ≡ none)
  unfolding result_of
  remote_call reader id c c' es request resp s s' w v small entered is_id spares responded fits =
      let same : resp.id ≡ pos id = respond-id request s s' resp responded ∙ is_id in
      let below : id < 256 ^ id_bytes = omega (arith, entered-lt c reader v entered) in
      let fits_id : Fits id_bytes false resp.id = subst (Fits id_bytes false) (sym same) below in
      let (wire, writes, reads) = response_arrives null libs id_bytes arg resp fits_id fits in
      let (c'', done, free) =
        call_gets_its_response reader id c c' es (received null resp) v entered spares
          (received-id null resp ∙ same) in
      (wire, answers request s s' resp w wire responded writes, reads, c'', done, free)
