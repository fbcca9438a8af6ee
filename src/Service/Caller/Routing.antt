-- ===== src/Service/Caller/Routing.antt =====
-- Concurrent calls: each call gets the response to its own request, whatever else happens between.
use rosy.Base.{
  ℕ, ◌≡◌, ◌≢◌, refl, ap, ◌∙◌, none, some, List, [], ◌∷◌, inl, inr, All, Option-cases, ℕ_discrete,
  arith,
}
use rosy.Base.Int.{ℤ, pos, negsuc}
use rosy.Base.Dict.{Dict, get, keys, values, Distinct}
use rosy.Base.Dict.Laws.{get-Absent}
use rosy.Base.Exec.{Error, ok}
use rosy.Message.{ServiceResponse}
use rosy.Service.Caller.{
  Caller, Future, pending, resolved, failed, pending_of, enter_request, start_response_handler,
  exit_request, handle_one_response, close_reader, settle, fail_all, id_of, find_future, outcome,
  finish_request, finish_future,
}
use rosy.Service.Caller.Valid.{
  IsValid, registered, registered-exit, registered-close, pending_of-start, start-IsValid,
  exit-IsValid, close-IsValid,
}
use rosy.Service.Caller.Request.{Entered-of, enter_request_cases, moved-IsValid}

-- What may happen at the caller: a call registers its request, a call that got its response
-- finishes, a response is read, a reader raises, a call is cancelled while it waits.
pub data Event (Data : Type 0) : Type 0 where
  request : ℕ → Event Data
  finish : ℕ → ℕ → Event Data
  response : ℕ → ServiceResponse Data → Event Data
  close : ℕ → Error → Event Data
  cancel : ℕ → Error → Event Data

module _ {Data : Type 0} where
  unfoldable pub apply : Event Data → Caller Data → Caller Data
  unfolding start_response_handler enter_request exit_request handle_one_response close_reader
      settle
  apply (request reader) c = (enter_request reader (start_response_handler reader c)).1
  apply (finish reader id) c = exit_request reader id c
  apply (response reader r) c = handle_one_response reader r c
  apply (close reader error) c = close_reader error reader c
  apply (cancel k error) c = record c { futures = settle (failed error) k c.futures }

  unfoldable pub run : List (Event Data) → Caller Data → Caller Data
  unfolding apply
  run [] c = c
  run (e ∷ es) c = run es (apply e c)

  -- The event is none of request `id` of `reader`, whose future is `k`.
  abbrev pub Spares : ℕ → ℕ → ℕ → Event Data → Type 0
  Spares reader id k (request r) = Unit {0}
  Spares reader id k (finish r i) = ¬ ((r ≡ reader) × (i ≡ id))
  Spares reader id k (response r resp) = ¬ ((r ≡ reader) × (resp.id ≡ pos id))
  Spares reader id k (close r error) = r ≢ reader
  Spares reader id k (cancel j error) = j ≢ k

  pub record Waits (c : Caller Data) (reader id k : ℕ) : Type 0 where
    pub valid : IsValid c
    pub is_registered : registered c reader id ≡ some k
    pub is_pending : c.futures k ≡ pending

  settle_other :
      (f : Future Data) (j k : ℕ) (futures : ℕ → Future Data)
      → j ≢ k
      → settle f j futures k ≡ futures k
  unfolding settle
  settle_other f j k futures ne = ground arith

  fail_all_other :
      (e : Error) (ks : List ℕ) (k : ℕ) (futures : ℕ → Future Data)
      → All (λ j. j ≢ k) ks
      → fail_all e ks futures k ≡ futures k
  unfolding fail_all
  fail_all_other e [] k futures h = refl
  fail_all_other e (j ∷ ks) k futures h =
      fail_all_other e ks k (settle (failed e) j futures) h.1
      ∙ settle_other (failed e) j k futures h.0

-- A value that no key has is none of the values.
values_without :
    (d : Dict ℕ ℕ) (k : ℕ)
    → Distinct (keys d)
    → ((i : ℕ) → get ℕ_discrete i d ≢ some k)
    → All (λ j. j ≢ k) (values d)
values_without [] k u h = tt
values_without ((i, j) ∷ d) k u h = (
  λ e. h i (ground arith),
  values_without d k u.1 (λ i' e. h i' (ground (arith, e, get-Absent ℕ_discrete i d u.0))),
)

module _ {Data : Type 0} (reader id k : ℕ) where
  pub futures-IsValid :
      (c : Caller Data) (futures : ℕ → Future Data)
      → IsValid c
      → IsValid (record c { futures = futures })
  futures-IsValid c futures v = record {
    next_below = v.next_below;
    readers_distinct = v.readers_distinct;
    ids_distinct = v.ids_distinct;
    ids_below = v.ids_below;
    futures_below = v.futures_below;
    futures_distinct = v.futures_distinct;
  }

  other_future :
      (c : Caller Data) (r j : ℕ) (z : ℤ)
      → Waits c reader id k
      → ¬ ((r ≡ reader) × (z ≡ pos id))
      → find_future (id_of z) (pending_of r c) ≡ some j
      → j ≢ k
  other_future c r j (pos n) w ne e p =
      let (same_reader, same_id) =
        w.valid.futures_distinct r n reader id k (e ∙ ap some p) w.is_registered in
      ne (same_reader, ap pos same_id)
  other_future c r j (negsuc n) w ne e p = cc

  enter_Waits :
      (c : Caller Data) (r : ℕ) → Waits c reader id k → Waits (enter_request r c).1 reader id k
  enter_Waits c r w = elim (enter_request_cases c r w.valid) [
    | inl (i, c', small, e) ↦
        let small_k = w.valid.futures_below reader id k w.is_registered in
        rw (e.entered) (record {
          valid = e.valid;
          is_registered = ground (arith, w.is_registered, e.registrations reader id, e.was_free);
          is_pending = e.kept k small_k ∙ w.is_pending;
        })
    | inr (n, small, e, all) ↦ rw e (record {
      valid = moved-IsValid c n small w.valid;
      is_registered = w.is_registered;
      is_pending = w.is_pending;
    })
  ]

  start_Waits :
      (c : Caller Data) (r : ℕ)
      → Waits c reader id k
      → Waits (start_response_handler r c) reader id k
  unfolding start_response_handler
  start_Waits c r w = record {
    valid = start-IsValid c r w.valid;
    is_registered = rw (pending_of-start c reader r) w.is_registered;
    is_pending = ground (arith, w.is_pending);
  }

  finish_Waits :
      (c : Caller Data) (r i : ℕ)
      → ¬ ((r ≡ reader) × (i ≡ id))
      → Waits c reader id k
      → Waits (exit_request r i c) reader id k
  unfolding exit_request
  finish_Waits c r i ne w = record {
    valid = exit-IsValid c r i w.valid;
    is_registered = ground (arith, w.is_registered, registered-exit c r i reader id w.valid, ne);
    is_pending = ground (arith, w.is_pending);
  }

  close_Waits :
      (c : Caller Data) (r : ℕ) (e : Error)
      → r ≢ reader
      → Waits c reader id k
      → Waits (close_reader e r c) reader id k
  unfolding close_reader
  close_Waits c r e ne w = record {
    valid = close-IsValid c e r w.valid;
    is_registered = ground (arith, w.is_registered, registered-close c e r reader id w.valid, ne);
    is_pending =
        fail_all_other e (values (pending_of r c)) k c.futures (
          values_without (pending_of r c) k (w.valid.ids_distinct r)
            (λ i h. ne (w.valid.futures_distinct r i reader id k h w.is_registered).0))
        ∙ w.is_pending;
  }

  response_Waits :
      (c : Caller Data) (r : ℕ) (resp : ServiceResponse Data)
      → ¬ ((r ≡ reader) × (resp.id ≡ pos id))
      → Waits c reader id k
      → Waits (handle_one_response r resp c) reader id k
  unfolding handle_one_response
  response_Waits c r resp ne w =
      elim (Option-cases (find_future (id_of resp.id) (pending_of r c))) [
        | inl e ↦ rw (e, handle_one_response) w
        | inr (j, e) ↦
            rw (e, handle_one_response)
              (record {
                valid = futures-IsValid c (settle (resolved resp) j c.futures) w.valid;
                is_registered = w.is_registered;
                is_pending =
                    settle_other (resolved resp) j k c.futures (other_future c r j resp.id w ne e)
                    ∙ w.is_pending;
              })
      ]

  cancel_Waits :
      (c : Caller Data) (j : ℕ) (e : Error)
      → j ≢ k
      → Waits c reader id k
      → Waits (record c { futures = settle (failed e) j c.futures }) reader id k
  cancel_Waits c j e ne w = record {
    valid = futures-IsValid c (settle (failed e) j c.futures) w.valid;
    is_registered = w.is_registered;
    is_pending = settle_other (failed e) j k c.futures ne ∙ w.is_pending;
  }

  apply-Waits :
      (e : Event Data) (c : Caller Data)
      → Spares reader id k e
      → Waits c reader id k
      → Waits (apply e c) reader id k
  unfolding apply
  apply-Waits (request r) c s w = enter_Waits (start_response_handler r c) r (start_Waits c r w)
  apply-Waits (finish r i) c s w = finish_Waits c r i s w
  apply-Waits (response r resp) c s w = response_Waits c r resp s w
  apply-Waits (close r e) c s w = close_Waits c r e s w
  apply-Waits (cancel j e) c s w = cancel_Waits c j e s w

  -- A waiting call still waits, under its own id and future, after any events of other calls.
  pub run-Waits :
      (es : List (Event Data)) (c : Caller Data)
      → All (Spares reader id k) es
      → Waits c reader id k
      → Waits (run es c) reader id k
  unfolding run
  run-Waits [] c s w = w
  run-Waits (e ∷ es) c s w = run-Waits es (apply e c) s.1 (apply-Waits e c s.0 w)

  module _ (c : Caller Data) (resp : ServiceResponse Data) (is_id : resp.id ≡ pos id)
      (w : Waits c reader id k) where
    abbrev answered : Caller Data
    answered = record c { futures = settle (resolved resp) k c.futures }

    handled : handle_one_response reader resp c ≡ answered
    unfolding handle_one_response
    handled =
        let found : find_future (id_of resp.id) (pending_of reader c) ≡ some k =
          ap (λ z. find_future (id_of z) (pending_of reader c)) is_id ∙ w.is_registered in
        rw (found, handle_one_response) refl

    settled : answered.futures k ≡ resolved resp
    unfolding settle
    settled = ground (arith, w.is_pending)

    gone : registered (exit_request reader id answered) reader id ≡ none
    gone = ground (
      arith,
      registered-exit answered reader id reader id (futures-IsValid c answered.futures w.valid),
    )

    delivered :
        (c' : Caller Data) × (finish_request reader id k (handle_one_response reader resp c)
          ≡ some (outcome resp, c'))
        × (registered c' reader id ≡ none)
    unfolding finish_request
    delivered = (exit_request reader id answered, rw (handled, settled, finish_future) refl, gone)

-- A call that registered request `id` on `reader` at a valid caller gets the response to `id` that
-- is read there, as long as no event in between is one of this request: the response, the call's
-- own end or cancellation, or the end of the reader. Then its id is free again. What the other
-- calls and responses do meanwhile, on any reader, makes no difference.
pub call_gets_its_response :
    {Data : Type 0} (reader id : ℕ) (c c' : Caller Data) (es : List (Event Data))
    (resp : ServiceResponse Data)
    → IsValid c
    → enter_request reader c ≡ (ok (id, c.fresh), c')
    → All (Spares reader id c.fresh) es
    → resp.id ≡ pos id
    → (c'' : Caller Data) × (finish_request reader id c.fresh
          (handle_one_response reader resp (run es c'))
        ≡ some (outcome resp, c''))
      × (registered c'' reader id ≡ none)
call_gets_its_response {Data} reader id c c' es resp v entered spares is_id =
    delivered reader id c.fresh (run es c') resp is_id
      (run-Waits reader id c.fresh es c' spares waits)
  where
    waits : Waits c' reader id c.fresh
    waits =
        let e = Entered-of c reader v entered in
        record {
          valid = e.valid;
          is_registered = ground (arith, e.registrations reader id);
          is_pending = e.waits;
        }
