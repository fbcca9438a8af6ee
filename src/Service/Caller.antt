-- ===== src/Service/Caller.antt =====
-- ServiceCaller of src/rosy/node/service/caller.py. The event loop runs one of these functions at a
-- time; between them, at each `await`, other calls and the response handlers run.
pub mod Ids
pub mod Valid
pub mod Request
pub mod Routing
pub mod Reach
pub mod Failures
use rosy.Base.{
  ℕ, zero, suc, ◌+◌, ◌%◌, Bool, true, false, Option, none, some, List, [], ◌∷◌, ◌++◌, ◌==◌,
  if◌then◌else◌, ℕ_discrete, not,
}
use rosy.Base.Int.{ℤ, pos, negsuc}
use rosy.Base.Text.{Text}
use rosy.Base.Dict.{Dict, get, set, without, contains, values}
use rosy.Base.Exec.{
  Error, Exec, Result, ok, err, raise, lift, pure, ◌>>=◌, ◌>>◌, after, modify, on_first, on_second,
  service_request_error, service_response_error,
}
use rosy.Stream.{Bytes, LockableWriter, with_lock, write}
use rosy.Message.{Args, Kwargs, ServiceRequest, ServiceResponse}

-- An `asyncio.Future`; one that failed or was cancelled holds what its awaiter raises.
pub data Future (Data : Type 0) : Type 0 where
  pending : Future Data
  resolved : ServiceResponse Data → Future Data
  failed : Error → Future Data

abbrev pub done : {Data : Type 0} → Future Data → Bool
done pending = false
done _ = true

-- Readers and futures are objects, compared by identity: a number names each. `futures` is the
-- store of the future objects made so far, those numbered below `fresh`.
pub record Caller (Data : Type 0) : Type 0 where
  pub max_request_ids : ℕ
  pub next_request_id : ℕ
  pub response_futures : Dict ℕ (Dict ℕ ℕ)
  pub futures : ℕ → Future Data
  pub fresh : ℕ

-- `_response_futures[reader]`, empty where the reader has no entry: the code's KeyError does not come
-- up, since `call` reads it only after `_start_response_handler` made the entry.
abbrev pub pending_of : {Data : Type 0} → ℕ → Caller Data → Dict ℕ ℕ
pending_of reader c = elim (get ℕ_discrete reader c.response_futures) [ none ↦ [] | some d ↦ d ]

-- The loop of `_find_next_available_request_id` over the rounds left; the second part is the new
-- `_next_request_id`.
unfoldable pub find_from : ℕ → Dict ℕ ℕ → ℕ → ℕ → Result ℕ × ℕ
find_from max used zero next = (err service_request_error, next)
find_from max used (suc rounds) next =
    let rest = find_from max used rounds ((next + 1) % max) in
    if contains ℕ_discrete next used then rest else (ok next, next)

-- `writer.write(request)` under the lock, then `await writer.drain()`, which may raise.
unfoldable pub send_request : Bytes → Result (Unit {0}) → Exec LockableWriter (Unit {0})
unfolding with_lock write
send_request request drained = with_lock (do write request; lift drained)

abbrev pub id_of : ℤ → Option ℕ
id_of (pos n) = some n
id_of (negsuc n) = none

abbrev pub find_future : Option ℕ → Dict ℕ ℕ → Option ℕ
find_future none d = none
find_future (some n) d = get ℕ_discrete n d

module _ {Data : Type 0} where
  unfoldable pub inc_next_request_id : Caller Data → Caller Data
  inc_next_request_id c = record c { next_request_id = (c.next_request_id + 1) % c.max_request_ids }

  unfoldable pub find_next_available_request_id : ℕ → Exec (Caller Data) ℕ
  unfolding find_from
  find_next_available_request_id reader c =
      let (r, next) =
        find_from c.max_request_ids (pending_of reader c) c.max_request_ids c.next_request_id in
      (r, record c { next_request_id = next })

  unfoldable pub get_new_request_id : ℕ → Exec (Caller Data) ℕ
  unfolding find_next_available_request_id inc_next_request_id
  get_new_request_id reader = do
    request_id ← find_next_available_request_id reader
    modify inc_next_request_id
    pure request_id

  -- `_start_response_handler`; a reader without an entry also gets a `_response_handler` task.
  unfoldable pub start_response_handler : ℕ → Caller Data → Caller Data
  start_response_handler reader c =
      if contains ℕ_discrete reader c.response_futures
      then c
      else record c { response_futures = set ℕ_discrete reader [] c.response_futures }

  abbrev pub update : (ℕ → Future Data) → ℕ → Future Data → ℕ → Future Data
  update futures k v j = if j == k then v else futures j

  -- `_response_futures[reader][request_id] = Future()`
  unfoldable pub add_future : ℕ → ℕ → Exec (Caller Data) (ℕ × ℕ)
  add_future reader request_id c = (
    ok (request_id, c.fresh),
    record c {
      response_futures =
          set ℕ_discrete reader (set ℕ_discrete request_id c.fresh (pending_of reader c))
            c.response_futures;
      futures = update c.futures c.fresh pending;
      fresh = c.fresh + 1;
    },
  )

  -- `_get_request_id_and_response_future` up to its `yield`
  unfoldable pub enter_request : ℕ → Exec (Caller Data) (ℕ × ℕ)
  unfolding get_new_request_id add_future
  enter_request reader = do request_id ← get_new_request_id reader; add_future reader request_id

  -- The rest, after the `yield`. It is not in a `finally`: an exception in the body skips it.
  unfoldable pub exit_request : ℕ → ℕ → Caller Data → Caller Data
  exit_request reader request_id c = elim (get ℕ_discrete reader c.response_futures) [
    | none ↦ c
    | some futures ↦ record c {
      response_futures =
          set ℕ_discrete reader (without ℕ_discrete request_id futures) c.response_futures;
    }
  ]

  -- `call` from the connection to the wait for the response: it returns the request id and the
  -- future that it waits for. `encode` is `encode_service_request` of the codec.
  unfoldable pub begin_request :
      (ServiceRequest Data → Result Bytes)
      → Result (Unit {0})
      → ℕ
      → Text
      → Args Data
      → Kwargs Data
      → Exec (Caller Data × LockableWriter) (ℕ × ℕ)
  begin_request encode drained reader service args kwargs = do
    on_first (modify (start_response_handler reader))
    entered ← on_first (enter_request reader)
    request ←
        lift
          (encode (record { id = pos entered.0; service = service; args = args; kwargs = kwargs }))
    on_second (send_request request drained)
    pure entered

  -- The result of the call, for a response that came.
  unfoldable pub outcome : ServiceResponse Data → Result Data
  outcome response = elim response.error [
    | none ↦ ok response.result
    | some e ↦ elim e [ [] ↦ ok response.result | c ∷ cs ↦ err (service_response_error (c ∷ cs)) ]
  ]

  -- `await response_future` and what follows it; `none` while the future is pending.
  unfoldable pub finish_future :
      Future Data → ℕ → ℕ → Caller Data → Option (Result Data × Caller Data)
  unfolding exit_request outcome
  finish_future pending reader request_id c = none
  finish_future (resolved response) reader request_id c =
      some (outcome response, exit_request reader request_id c)
  finish_future (failed e) reader request_id c = some (err e, c)

  unfoldable pub finish_request : ℕ → ℕ → ℕ → Caller Data → Option (Result Data × Caller Data)
  unfolding finish_future
  finish_request reader request_id future c = finish_future (c.futures future) reader request_id c

  -- `if not response_future.done(): response_future.set_result(response)`
  unfoldable pub settle : Future Data → ℕ → (ℕ → Future Data) → ℕ → Future Data
  settle value k futures = if done (futures k) then futures else update futures k value

  -- `_handle_one_response`, for the response that was decoded
  unfoldable pub handle_one_response : ℕ → ServiceResponse Data → Caller Data → Caller Data
  unfolding settle
  handle_one_response reader response c =
      elim (find_future (id_of response.id) (pending_of reader c)) [
        | none ↦ c
        | some k ↦ record c { futures = settle (resolved response) k c.futures }
      ]

  -- The loop of `_fail_pending_response_futures_for`; its error is a `ServiceResponseError`.
  unfoldable pub fail_all : Error → List ℕ → (ℕ → Future Data) → ℕ → Future Data
  unfolding settle
  fail_all error [] futures = futures
  fail_all error (k ∷ ks) futures = fail_all error ks (settle (failed error) k futures)

  -- The `finally` of `_response_handler`: the reader raised.
  unfoldable pub close_reader : Error → ℕ → Caller Data → Caller Data
  unfolding fail_all
  close_reader error reader c = record c {
    futures = fail_all error (values (pending_of reader c)) c.futures;
    response_futures = without ℕ_discrete reader c.response_futures;
  }
