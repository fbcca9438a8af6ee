-- ===== src/Service/Caller/Reach.antt =====
-- The states that a caller reaches: the tables stay well-formed, and request ids fit into their
-- bytes.
use rosy.Base.{ℕ, zero, suc, ◌*◌, ◌^◌, ◌<◌, ◌≡◌, refl, ◌∙◌, List, [], ◌∷◌, inl, inr, false, arith}
use native.Mathlib.Nat.{pow-suc}
use rosy.Base.Int.{pos}
use rosy.Base.Exec.{ok}
use rosy.Codec.Bytes.{Fits, pow-two-byte}
use rosy.Service.Caller.{
  Caller, pending, enter_request, get_new_request_id, find_next_available_request_id,
  inc_next_request_id, add_future, start_response_handler, exit_request, handle_one_response,
  close_reader, failed, settle,
}
use rosy.Service.Caller.Valid.{
  IsValid, start-IsValid, exit-IsValid, close-IsValid, response-IsValid,
}
use rosy.Service.Caller.Request.{entered-lt, enter_request_cases, moved-IsValid}
use rosy.Service.Caller.Routing.{
  Event, request, finish, response, close, cancel, apply, run, futures-IsValid,
}

positive : (k : ℕ) → 0 < 2 ^ k
positive zero = omega arith
positive (suc k) = omega (arith, pow-suc 2 k, positive k)

module _ {Data : Type 0} where
  -- `ServiceCaller(…)` before any call.
  abbrev pub new_caller : ℕ → Caller Data
  new_caller max_request_ids = record {
    max_request_ids = max_request_ids;
    next_request_id = 0;
    response_futures = [];
    futures = λ _. pending;
    fresh = 0;
  }

  pub new_caller-IsValid : (max : ℕ) → 0 < max → IsValid (new_caller max)
  new_caller-IsValid max h = record {
    next_below = h;
    readers_distinct = tt;
    ids_distinct = λ r. tt;
    ids_below = λ r i k e. absurd (ground (arith, e));
    futures_below = λ r i k e. absurd (ground (arith, e));
    futures_distinct = λ r i r' i' k e. absurd (ground (arith, e));
  }

  enter-IsValid : (c : Caller Data) (reader : ℕ) → IsValid c → IsValid (enter_request reader c).1
  enter-IsValid c reader v = elim (enter_request_cases c reader v) [
    | inl (id, c', small, e) ↦ rw (e.entered) (e.valid)
    | inr (n, small, e, all) ↦ rw e (moved-IsValid c n small v)
  ]

  apply-IsValid : (e : Event Data) (c : Caller Data) → IsValid c → IsValid (apply e c)
  unfolding apply
  apply-IsValid (request reader) c v =
      enter-IsValid (start_response_handler reader c) reader (start-IsValid c reader v)
  apply-IsValid (finish reader id) c v = exit-IsValid c reader id v
  apply-IsValid (response reader r) c v = response-IsValid c reader r v
  apply-IsValid (close reader error) c v = close-IsValid c error reader v
  apply-IsValid (cancel k error) c v = futures-IsValid 0 0 k c (settle (failed error) k c.futures) v

  apply-max : (e : Event Data) (c : Caller Data) → (apply e c).max_request_ids ≡ c.max_request_ids
  unfolding apply start_response_handler enter_request get_new_request_id
      find_next_available_request_id inc_next_request_id add_future exit_request handle_one_response
      close_reader
  apply-max (request reader) c = ground arith
  apply-max (finish reader id) c = ground arith
  apply-max (response reader r) c = ground arith
  apply-max (close reader error) c = refl
  apply-max (cancel k error) c = refl

  -- Every event keeps the tables well-formed and the limit of request ids.
  pub run-IsValid :
      (es : List (Event Data)) (c : Caller Data)
      → IsValid c
      → IsValid (run es c) × ((run es c).max_request_ids ≡ c.max_request_ids)
  unfolding run
  run-IsValid [] c v = (v, refl)
  run-IsValid (e ∷ es) c v =
      let (v', m) = run-IsValid es (apply e c) (apply-IsValid e c v) in (v', m ∙ apply-max e c)

  -- A caller that is made for the ids that `n` bytes hold, with n positive, gives a request no
  -- other id, whatever happened before: the id's codec never overflows.
  pub new_caller-Fits :
      (n : ℕ) (es : List (Event Data)) (reader id k : ℕ) (c' : Caller Data)
      → 0 < n
      → enter_request reader (run es (new_caller (2 ^ (8 * n)))) ≡ (ok (id, k), c')
      → Fits n false (pos id)
  new_caller-Fits n es reader id k c' h e =
      let (v, m) =
        run-IsValid es (new_caller (2 ^ (8 * n)))
          (new_caller-IsValid (2 ^ (8 * n)) (positive (8 * n))) in
      let below = entered-lt (run es (new_caller (2 ^ (8 * n)))) reader v e in
      omega (arith, below, m, pow-two-byte n)
