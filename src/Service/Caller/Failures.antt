-- ===== src/Service/Caller/Failures.antt =====
-- What a call leaves behind when it fails: at the end of the reader, and when sending raises.
use rosy.Base.{
  ℕ, ◌≡◌, refl, ap, ◌∙◌, true, false, none, some, List, [], ◌∷◌, ◌++◌, ℕ_discrete, arith,
  if◌then◌else◌,
}
use rosy.Base.Int.{pos}
use rosy.Base.Text.{Text}
use rosy.Base.Dict.{Dict, get, values}
use rosy.Base.Exec.{Error, Result, ok, err}
use rosy.Stream.{Bytes, LockableWriter}
use rosy.Message.{Args, Kwargs, ServiceRequest}
use rosy.Service.Caller.{
  Caller, Future, failed, done, pending_of, start_response_handler, enter_request, begin_request,
  send_request, close_reader, settle, fail_all,
}
use rosy.Service.Caller.Valid.{IsValid, registered, registered-close, start-IsValid}
use rosy.Service.Caller.Request.{Entered-of}
use rosy.Service.Caller.Routing.{Waits}

module _ {Data : Type 0} (e : Error) where
  -- What failing does to one future.
  abbrev pub failing : Future Data → Future Data
  failing f = if done f then f else failed e

  fail_all-done :
      (ks : List ℕ) (k : ℕ) (futures : ℕ → Future Data)
      → done (futures k) ≡ true
      → fail_all e ks futures k ≡ futures k
  unfolding fail_all settle
  fail_all-done [] k futures h = refl
  fail_all-done (j ∷ ks) k futures h =
      let keeps : settle (failed e) j futures k ≡ futures k = ground (arith, h) in
      fail_all-done ks k (settle (failed e) j futures) (ap done keeps ∙ h) ∙ keeps

  fail_all_value :
      (d : Dict ℕ ℕ) (id k : ℕ) (futures : ℕ → Future Data)
      → get ℕ_discrete id d ≡ some k
      → fail_all e (values d) futures k ≡ failing (futures k)
  unfolding fail_all settle
  fail_all_value [] id k futures h = cc
  fail_all_value ((i, j) ∷ d) id k futures h =
      let next = settle (failed e) j futures in
      elim (ℕ_discrete j k) [
        | yes p ↦
            let now : next k ≡ failing (futures k) = ground arith in
            let over : done (failing (futures k)) ≡ true = ground arith in
            fail_all-done (values d) k next (ap done now ∙ over) ∙ now
        | no p ↦
            let same : next k ≡ futures k = ground arith in
            fail_all_value d id k next (ground (arith, h)) ∙ ap failing same
      ]

  -- When a reader of a valid caller ends, the future of each request on it fails, unless it was
  -- done, and none of its requests stays registered.
  pub close_reader_fails :
      (c : Caller Data) (reader id k : ℕ)
      → IsValid c
      → registered c reader id ≡ some k
      → ((close_reader e reader c).futures k ≡ failing (c.futures k))
        × (registered (close_reader e reader c) reader id ≡ none)
  unfolding close_reader
  close_reader_fails c reader id k v h = (
    fail_all_value (pending_of reader c) id k c.futures h,
    ground (arith, registered-close c e reader reader id v),
  )

module _ {Data : Type 0} (encode : ServiceRequest Data → Result Bytes) (drained : Result (Unit {0}))
    (reader : ℕ) (service : Text) (args : Args Data) (kwargs : Kwargs Data) (c c' : Caller Data)
    (w : LockableWriter) (id k : ℕ) where
  abbrev started : Caller Data
  started = start_response_handler reader c

  abbrev message : ServiceRequest Data
  message = record { id = pos id; service = service; args = args; kwargs = kwargs }

  -- A request that is encoded is written whole behind what the writer has, and its lock is free.
  pub begin_request_sends :
      (bytes : Bytes)
      → enter_request reader started ≡ (ok (id, k), c')
      → encode message ≡ ok bytes
      → drained ≡ ok tt
      → begin_request encode drained reader service args kwargs (c, w)
        ≡ (ok (id, k), (c', record w { written = w.written ++ bytes; locked = false }))
  unfolding begin_request send_request
  begin_request_sends bytes entered enc dr = rw (entered, enc, dr) refl

  -- If encoding raises after a valid caller registered the request, the call raises with its
  -- request still registered, and it waits for a response that no one was asked for: the cleanup
  -- after the `yield` is skipped.
  pub begin_request_leaks :
      (e : Error)
      → IsValid c
      → enter_request reader started ≡ (ok (id, k), c')
      → encode message ≡ err e
      → (begin_request encode drained reader service args kwargs (c, w) ≡ (err e, (c', w)))
        × Waits c' reader id k
  unfolding begin_request
  begin_request_leaks e v entered enc = (rw (entered, enc) refl, waits)
    where
      waits : Waits c' reader id k
      waits =
          let n = Entered-of started reader (start-IsValid c reader v) entered in
          let same : k ≡ started.fresh = cc (entered, n.entered) in
          record {
            valid = n.valid;
            is_registered = ground (arith, n.registrations reader id);
            is_pending = rw same n.waits;
          }
