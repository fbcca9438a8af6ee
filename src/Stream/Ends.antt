-- ===== src/Stream/Ends.antt =====
-- The ends of tasks and writers, src/rosy/asyncio.py. asyncio's tasks and streams are parameters
-- but for what the functions look at.
use rosy.Base.{
  ◌+◌, ℕ, ◌≡◌, ◌≢◌, refl, ap, Bool, true, false, List, [], ◌∷◌, ◌++◌, All, arith, ◌==◌,
  if◌then◌else◌, inl, inr, Bool-cases,
}
use rosy.Base.Exec.{Exec, Result, ok, err, finally, modify, connection_error, timeout_error, ◌>>◌}

-- A task: whether it is done, how often it was asked to cancel, and its callbacks.
pub record Task : Type 0 where
  pub done : Bool
  pub cancels : ℕ
  pub callbacks : List ℕ

-- `remove_done_callback`
unfoldable pub without_callback : ℕ → List ℕ → List ℕ
without_callback cb [] = []
without_callback cb (c ∷ callbacks) =
    let rest = without_callback cb callbacks in if cb == c then rest else c ∷ rest

-- `cancel_task`; `ends` says whether the task ends before the timeout, and `cb` is the callback that
-- sets the event.
unfoldable pub cancel_task : ℕ → Bool → Exec Task (Unit {0})
unfolding without_callback
cancel_task cb ends task =
    let asked : Task = record {
      done = ends;
      cancels = task.cancels + 1;
      callbacks = task.callbacks ++ cb ∷ [];
    } in
    if task.done
    then (ok tt, task)
    else finally ((if ends then ok tt else err timeout_error), asked)
        (modify (λ t. record t { callbacks = without_callback cb t.callbacks }))

-- `close_ignoring_errors`, on the state of a writer.
abbrev pub except_connection_error : {W : Type 0} → Result (Unit {0}) × W → Result (Unit {0}) × W
except_connection_error (err connection_error, w) = (ok tt, w)
except_connection_error r = r

-- The methods of a `Writer` that end it.
pub record Closing (W : Type 0) : Type 0 where
  pub close : Exec W (Unit {0})
  pub wait_closed : Exec W (Unit {0})

unfoldable pub close_ignoring_errors : {W : Type 0} → Closing W → Exec W (Unit {0})
close_ignoring_errors writer w = except_connection_error ((do writer.close; writer.wait_closed) w)

without_callback-append :
    (cb : ℕ) (callbacks : List ℕ)
    → All (λ c. cb ≢ c) callbacks
    → without_callback cb (callbacks ++ cb ∷ []) ≡ callbacks
unfolding without_callback
without_callback-append cb [] h = ground arith
without_callback-append cb (c ∷ callbacks) h =
    ground (arith, h.0, without_callback-append cb callbacks h.1)

abbrev waited : Bool → Result (Unit {0})
waited b = if b then ok tt else err timeout_error

wait_ended :
    (cb : ℕ) (b : Bool) (task : Task)
    → All (λ c. cb ≢ c) task.callbacks
    → finally {S = Task}
        (
          waited b,
          record { done = b; cancels = task.cancels + 1; callbacks = task.callbacks ++ cb ∷ [] },
        )
        (modify (λ t. record t { callbacks = without_callback cb t.callbacks }))
      ≡ (waited b, record { done = b; cancels = task.cancels + 1; callbacks = task.callbacks })
wait_ended cb true task new =
    ap (λ c. (ok tt, record { done = true; cancels = task.cancels + 1; callbacks = c }))
      (without_callback-append cb task.callbacks new)
wait_ended cb false task new =
    ap
      (λ c. (err timeout_error, record { done = false; cancels = task.cancels + 1; callbacks = c }))
      (without_callback-append cb task.callbacks new)

-- A task that is done is left as it is. Any other is asked once to cancel, and however the wait for
-- it ends, its callbacks are then those that it had; the wait raises a timeout exactly where the
-- task is not done in time.
cancel_task_lem :
    (cb : ℕ) (ends : Bool) (task : Task)
    → All (λ c. cb ≢ c) task.callbacks
    → cancel_task cb ends task ≡ (
      (if task.done then ok tt else if ends then ok tt else err timeout_error),
      record {
        done = (if task.done then true else ends);
        cancels = (if task.done then task.cancels else task.cancels + 1);
        callbacks = task.callbacks;
      },
    )
unfolding cancel_task
cancel_task_lem cb ends task new = elim (Bool-cases task.done) [
  | inl e ↦ rw e refl
  | inr e ↦ rw e (wait_ended cb ends task new)
]
