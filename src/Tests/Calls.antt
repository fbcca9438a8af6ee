-- ===== src/Tests/Calls.antt =====
-- Service calls at concrete inputs.
use rosy.Base.{ℕ, ◌≡◌, ◌<◌, refl, List, [], ◌∷◌, false, none, some, arith, ◌↔◌, ℕ_discrete}
use rosy.Base.Int.{pos}
use rosy.Base.Exec.{Result, ok, err, incomplete_read, foreign, service_request_error}
use rosy.Stream.{Bytes, LockableWriter}
use rosy.Message.{ServiceRequest, ServiceResponse}
use rosy.Service.Caller.{
  Caller, pending, get_new_request_id, find_from, find_next_available_request_id,
  inc_next_request_id, add_future, enter_request, finish_request, handle_one_response, outcome,
  close_reader, begin_request, start_response_handler,
}
use rosy.Service.Caller.Ids.{IdInUse, get_new_request_id-eq-err_iff}
use rosy.Service.Caller.Valid.{IsValid, registered}
use rosy.Service.Caller.Routing.{Event, request, response, run, Waits, call_gets_its_response}
use rosy.Service.Caller.Failures.{failing, close_reader_fails, begin_request_leaks}

-- A caller with two request ids, which has no reader yet.
abbrev idle : Caller ℕ
idle = record {
  max_request_ids = 2;
  next_request_id = 0;
  response_futures = [];
  futures = λ _. pending;
  fresh = 0;
}

idle-IsValid : IsValid idle
idle-IsValid = record {
  next_below = omega arith;
  readers_distinct = tt;
  ids_distinct = λ r. tt;
  ids_below = λ r i k h. absurd (ground (arith, h));
  futures_below = λ r i k h. absurd (ground (arith, h));
  futures_distinct = λ r i r' i' k h. absurd (ground (arith, h));
}

enters : enter_request 0 idle ≡ (ok (0, 0), (enter_request 0 idle).1)
unfolding enter_request get_new_request_id find_next_available_request_id find_from
    inc_next_request_id add_future
enters = refl

abbrev reply : ServiceResponse ℕ
reply = record { id = pos 0; result = 42; error = none }

abbrev other_reply : ServiceResponse ℕ
other_reply = record { id = pos 1; result = 5; error = none }

-- Another call on the reader, and its response, come in between.
abbrev between : List (Event ℕ)
between = request 0 ∷ response 0 other_reply ∷ []

call_gets_its_response_example :
    (c'' : Caller ℕ) × (finish_request 0 0 0
        (handle_one_response 0 reply (run between (enter_request 0 idle).1))
      ≡ some (outcome reply, c''))
    × (registered c'' 0 0 ≡ none)
call_gets_its_response_example =
    call_gets_its_response 0 0 idle (enter_request 0 idle).1 between reply idle-IsValid enters
      (tt, ((λ h. absurd (ground (arith, h.1))), tt)) refl

ids_example :
    ((get_new_request_id 0 idle).0 ≡ err service_request_error)
    ↔ ((id : ℕ) → id < 2 → IdInUse 0 idle (omega arith) id)
ids_example = get_new_request_id-eq-err_iff 0 idle (omega arith)

abbrev refuses : ServiceRequest ℕ → Result Bytes
refuses r = err foreign

abbrev idle_writer : LockableWriter
idle_writer = record { written = []; locked = false; closing = false }

-- The caller with one request, of id 0 on reader 0, whose future is 0.
abbrev waiting : Caller ℕ
waiting = (enter_request 0 (start_response_handler 0 idle)).1

starts : enter_request 0 (start_response_handler 0 idle) ≡ (ok (0, 0), waiting)
unfolding enter_request get_new_request_id find_next_available_request_id find_from
    inc_next_request_id add_future start_response_handler ℕ_discrete
starts = refl

begin_request_leaks_example :
    (begin_request refuses (ok tt) 0 [] [] [] (idle, idle_writer)
      ≡ (err foreign, (waiting, idle_writer)))
    × Waits waiting 0 0 0
begin_request_leaks_example =
    begin_request_leaks refuses (ok tt) 0 [] [] [] idle waiting idle_writer 0 0 foreign idle-IsValid
      starts refl

waiting-Waits : Waits waiting 0 0 0
waiting-Waits =
    (begin_request_leaks refuses (ok tt) 0 [] [] [] idle waiting idle_writer 0 0 foreign
      idle-IsValid starts refl).1

close_reader_fails_example :
    ((close_reader incomplete_read 0 waiting).futures 0
      ≡ failing incomplete_read (waiting.futures 0))
    × (registered (close_reader incomplete_read 0 waiting) 0 0 ≡ none)
close_reader_fails_example =
    close_reader_fails incomplete_read waiting 0 0 0 waiting-Waits.valid waiting-Waits.is_registered
