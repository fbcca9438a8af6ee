-- ===== src/Topic/Remote/Schedule.antt =====
-- The tasks of a node that sends topic messages to one other node: the program's, which calls
-- `send`, and the task of the outbox (`NodeOutbox._run` of src/rosy/node/topic/outbox.py), in any
-- order of their steps. `Node.send` of src/rosy/node/node.py lets the other tasks run after each
-- send by its `await noop()`.
use rosy.Base.{
  ℕ, ◌+◌, Bool, true, false, not, ◌&&◌, Option, none, some, List, [], ◌∷◌, length, if◌then◌else◌,
}
use rosy.Base.Dict.{set}
use rosy.Base.Exec.{Result, ok, err}
use rosy.Stream.{LockableWriter}
use rosy.Mesh.{NodeId, NodeId-discrete}
use rosy.Topic.Outbox.{Outbox, Item, Attempt, send_once, goes_on, expired, full}
use rosy.Topic.Sender.{Outboxes}
use rosy.Topic.Sender.Laws.{outbox_for}

-- A step: a call of `send`; the outbox's task takes an entry off its queue; the task ends what it
-- does with the entry. Between two steps every task stands at an `await`.
pub data Event (A : Type 0) : Type 0 where
  sends : A → Event A
  takes : Event A
  finishes : Attempt → Event A

-- `selector` is what the sender has beside its outboxes, `flight` the entry that the task took, and
-- `writer` that of the connection.
pub record Line (X : Type 0) : Type 0 where
  pub selector : X
  pub boxes : Outboxes
  pub flight : Option Item
  pub writer : LockableWriter

abbrev pub is_ok : Result (Unit {0}) → Bool
is_ok (ok _) = true
is_ok (err _) = false

-- The attempt writes the entry: the connection is there, and the deadline is not over.
abbrev pub writes : Attempt → Item → Bool
writes a item =
    not (expired item.0 a.started) && is_ok a.connected && not (expired item.0 a.locked_at)

module _ {X : Type 0} (id : NodeId) where
  abbrev pub put : Outbox → Line X → Line X
  put o l = record l { boxes = set NodeId-discrete id o l.boxes }

  abbrev pub taken : List Item → Line X → Line X
  taken [] l = l
  taken (item ∷ rest) l = record {
    selector = l.selector;
    boxes = set NodeId-discrete id (record (outbox_for id l.boxes) { queue = rest }) l.boxes;
    flight = some item;
    writer = l.writer;
  }

  -- `item = await self._queue.get()`; the task waits where the queue is empty, and takes nothing
  -- where it has ended.
  unfoldable pub take_item : Line X → Line X
  take_item l = elim l.flight [
    | some _ ↦ l
    | none ↦ if (outbox_for id l.boxes).finished then l else taken (outbox_for id l.boxes).queue l
  ]

  -- `_send_once` of the entry, and how the loop goes on.
  unfoldable pub finish_item : Attempt → Line X → Line X
  finish_item a l = elim l.flight [
    | none ↦ l
    | some item ↦
        let (r, w) = send_once a item l.writer in
        let rest : Line X = record {
          selector = l.selector;
          boxes = l.boxes;
          flight = none;
          writer = w;
        } in
        if goes_on r then rest else put (record (outbox_for id l.boxes) { finished = true }) rest
  ]

  -- The entries that are not written yet.
  abbrev pub waiting : Line X → ℕ
  waiting l = elim l.flight [
    | none ↦ length (outbox_for id l.boxes).queue
    | some _ ↦ 1 + length (outbox_for id l.boxes).queue
  ]

module _ {A X : Type 0} (id : NodeId) (deliver : A → X × Outboxes → X × Outboxes) where
  abbrev pub sent_on : A → Line X → Line X
  sent_on a l = record l {
    selector = (deliver a (l.selector, l.boxes)).0;
    boxes = (deliver a (l.selector, l.boxes)).1;
  }

  unfoldable pub step : Event A → Line X → Line X
  unfolding take_item finish_item
  step (sends a) l = sent_on a l
  step takes l = take_item id l
  step (finishes a) l = finish_item id a l

  unfoldable pub run_line : List (Event A) → Line X → Line X
  unfolding step
  run_line [] l = l
  run_line (e ∷ es) l = run_line es (step e l)

  -- The messages that a step loses: the oldest of a full queue, where a send is `for_id`, and one
  -- whose attempt does not write it.
  abbrev pub lost_in : (A → Bool) → Event A → Line X → ℕ
  lost_in for_id (sends a) l = if for_id a && full (outbox_for id l.boxes) then 1 else 0
  lost_in for_id takes l = 0
  lost_in for_id (finishes a) l = elim l.flight [
    | none ↦ 0
    | some item ↦ if writes a item then 0 else 1
  ]

  unfoldable pub losses : (A → Bool) → List (Event A) → Line X → ℕ
  unfolding step
  losses for_id [] l = 0
  losses for_id (e ∷ es) l = losses for_id es (step e l) + lost_in for_id e l

-- What was sent, in order.
abbrev pub sent_in : {A : Type 0} → List (Event A) → List A
sent_in [] = []
sent_in (sends a ∷ es) = a ∷ sent_in es
sent_in (takes ∷ es) = sent_in es
sent_in (finishes _ ∷ es) = sent_in es
