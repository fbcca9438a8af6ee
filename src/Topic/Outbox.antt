-- ===== src/Topic/Outbox.antt =====
-- NodeOutbox of src/rosy/node/topic/outbox.py. Time is a number of clock ticks of the event loop.
pub mod Laws
use rosy.Base.{
  ℕ, zero, suc, ◌+◌, ◌≤◌, Bool, true, false, Option, none, some, List, [], ◌∷◌, ◌++◌, length, leb,
  if◌then◌else◌, not,
}
use rosy.Base.Exec.{
  Error, Result, Exec, ok, err, pure, raise, lift, require, ◌>>=◌, ◌>>◌, after, modify,
  runtime_error, interrupt,
}
use rosy.Stream.{Bytes, LockableWriter, with_lock, write}

-- An entry of the queue: `(deadline, data)`.
abbrev pub Item : Type 0
Item = ℕ × Bytes

-- `finished` says that the task of `_run` is done. `asyncio.Queue(0)` would be unbounded.
pub record Outbox : Type 0 where
  pub ttl : ℕ
  pub maxsize : ℕ
  pub queue : List Item
  pub finished : Bool

-- `NodeOutbox(node, connection_manager)`
abbrev pub new_outbox : Outbox
new_outbox = record { ttl = 5; maxsize = 100; queue = []; finished = false }

-- `queue.full()`
abbrev pub full : Outbox → Bool
full o = elim o.maxsize [ zero ↦ false | suc n ↦ leb (suc n) (length o.queue) ]

-- `queue.get_nowait()` on a queue that is not empty: the oldest entry goes.
abbrev pub drop_oldest : List Item → List Item
drop_oldest [] = []
drop_oldest (_ ∷ queue) = queue

-- `send`, at the loop time `now`
unfoldable pub send : ℕ → Bytes → Exec Outbox (Unit {0})
send now bytes o =
    if o.finished
    then (err runtime_error, o)
    else let room = if full o then drop_oldest o.queue else o.queue in
      (ok tt, record o { queue = room ++ (now + o.ttl, bytes) ∷ [] })

-- `_expired`, at the loop time `now`
abbrev pub expired : ℕ → ℕ → Bool
expired deadline now = leb deadline now

-- What the environment gives to one run of `_send_once`: the loop time at its start, the
-- connection's result, the loop time when the lock is held, and the result of `drain()`.
pub record Attempt : Type 0 where
  pub started : ℕ
  pub connected : Result (Unit {0})
  pub locked_at : ℕ
  pub drained : Result (Unit {0})

-- `_send_once`, on the writer of the connection
unfoldable pub send_once : Attempt → Item → Exec LockableWriter (Unit {0})
unfolding with_lock write
send_once a (deadline, bytes) w =
    if expired deadline a.started
    then (ok tt, w)
    else after (lift a.connected w) λ _.
      with_lock (if expired deadline a.locked_at then pure tt else (do write bytes; lift a.drained))

-- How a round of `_run` goes on: an exception ends the task only if it is one of
-- `ALLOWED_EXCEPTIONS`; any other is logged.
unfoldable pub goes_on : Result (Unit {0}) → Bool
goes_on (err interrupt) = false
goes_on _ = true
