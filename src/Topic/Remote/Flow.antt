-- ===== src/Topic/Remote/Flow.antt =====
-- What a sender has written to a node at any point of a schedule: all that was sent, less what the
-- schedule loses and what still waits.
pub mod Steps
use rosy.Base.{
  ℕ, zero, suc, ◌+◌, ◌≡◌, refl, sym, ap, ◌∙◌, subst, Bool, true, false, Option, none, some, List,
  [], ◌∷◌, ◌++◌, length, leb, map, length-map, All, arith, append_assoc, append-nil, if◌then◌else◌,
  ◌&&◌,
}
use rosy.Base.Dict.{get, set}
use rosy.Base.Dict.Laws.{get-set_self, get-set_ne}
use rosy.Stream.{LockableWriter}
use rosy.Mesh.{NodeId, NodeId-discrete}
use rosy.Topic.Outbox.{Outbox, Item, new_outbox, Attempt, send_once, goes_on, full, drop_oldest}
use rosy.Topic.Sender.{Outboxes}
use rosy.Topic.Sender.Laws.{IsAlive, outbox_for, with_entry, alive_for}
use rosy.Topic.Remote.Schedule.{
  Event, sends, takes, finishes, Line, writes, put, taken, take_item, finish_item, sent_on, step,
  run_line, lost_in, losses, waiting, sent_in,
}
use rosy.Topic.Remote.Losses.{Drops, snoc, lose}
use rosy.Topic.Remote.Streams.{
  Calm, IsCalm, send_once_written, send_once-goes_on, counted, chosen, chosen-snoc, as_list, stream,
}

module _ {A X : Type 0} (id : NodeId) (deliver : A → X × Outboxes → X × Outboxes)
    (for_id : A → Bool) (entry : A → Item) where
  abbrev pub flight_of : Option A → Option Item
  flight_of none = none
  flight_of (some a) = some (entry a)

  stream-snoc : (xs : List A) (a : A) → stream entry (xs ++ a ∷ []) ≡ stream entry xs ++ (entry a).1
  stream-snoc [] a = append-nil (entry a).1
  stream-snoc (x ∷ xs) a =
      ap (λ l. (entry x).1 ++ l) (stream-snoc xs a)
      ∙ sym (append_assoc (entry x).1 (stream entry xs) (entry a).1)

  -- The outbox of the node, as the messages in it.
  pub record Holds (o : Outbox) (pending : List A) : Type 0 where
    pub queued : o.queue ≡ map entry pending
    pub limit : o.maxsize ≡ 100
    pub living : o.ttl ≡ 5

  -- What a call of `send` does.
  abbrev pub Delivers : (X → Type 0) → A → Type 0
  Delivers Kept a =
      (x : X) (m : Outboxes)
      → Kept x
      → IsAlive m
      → Kept (deliver a (x, m)).0
        × IsAlive (deliver a (x, m)).1
        × ((now : ℕ) × (entry a ≡ (now + 5, (entry a).1))
            × (outbox_for id (deliver a (x, m)).1 ≡ (
                if for_id a
                then with_entry now (entry a).1 (outbox_for id m)
                else outbox_for id m)))

  -- A point of a schedule: `sent` are the messages for the node so far, `n` of them lost.
  pub record Flows (Kept : X → Type 0) (n : ℕ) (sent : List A) (l : Line X) : Type 0 where
    pub written : List A
    pub taken_off : Option A
    pub pending : List A
    pub kept : Kept l.selector
    pub alive : IsAlive l.boxes
    pub bytes : l.writer.written ≡ stream entry written
    pub in_flight : l.flight ≡ flight_of taken_off
    pub holds : Holds (outbox_for id l.boxes) pending
    pub lost : Drops n ((written ++ as_list taken_off) ++ pending) sent

  map-snoc : (a : A) (p : List A) → map entry p ++ entry a ∷ [] ≡ map entry (p ++ a ∷ [])
  map-snoc a [] = refl
  map-snoc a (x ∷ p) = ap (λ l. entry x ∷ l) (map-snoc a p)

  -- The entry of a call behind what is left of the queue.
  entered_holds :
      (a : A) (now : ℕ) (o : Outbox) (b : Bool) (p q : List A)
      → full o ≡ b
      → entry a ≡ (now + 5, (entry a).1)
      → Holds o p
      → (if b then drop_oldest (map entry p) else map entry p) ≡ map entry q
      → Holds (with_entry now (entry a).1 o) (q ++ a ∷ [])
  entered_holds a now o b p q f e h r = record {
    queued =
        ap (λ c. (if c then drop_oldest o.queue else o.queue) ++ (now + o.ttl, (entry a).1) ∷ []) f
        ∙ ap (λ l. (if b then drop_oldest l else l) ++ (now + o.ttl, (entry a).1) ∷ []) h.queued
        ∙ ap (λ l. l ++ (now + o.ttl, (entry a).1) ∷ []) r
        ∙ ap (λ t. map entry q ++ (now + t, (entry a).1) ∷ []) h.living
        ∙ ap (λ i. map entry q ++ i ∷ []) (sym e)
        ∙ map-snoc a q;
    limit = h.limit;
    living = h.living;
  }

  not_full : (o : Outbox) → o.queue ≡ [] → o.maxsize ≡ 100 → full o ≡ false
  not_full o q m =
      ap (λ k. elim k [ zero ↦ false | suc n ↦ leb (suc n) (length o.queue) ]) m
      ∙ ap (λ l. leb 100 (length l)) q

  -- An entry is put into the outbox, where it is full in the place of the oldest.
  entered :
      (written : List A) {n : ℕ} {sent : List A} (a : A) (now : ℕ) (o : Outbox) (b : Bool)
      (p : List A)
      → full o ≡ b
      → entry a ≡ (now + 5, (entry a).1)
      → Holds o p
      → Drops n (written ++ p) sent
      → (p' : List A) × Holds (with_entry now (entry a).1 o) p'
        × Drops (if b then suc n else n) (written ++ p') (sent ++ a ∷ [])
  entered written {n} {sent} a now o false p f e h d = (
    p ++ a ∷ [],
    entered_holds a now o false p p f e h refl,
    subst (λ l. Drops n l (sent ++ a ∷ [])) (append_assoc written p (a ∷ [])) (snoc a d),
  )
  entered written a now o true [] f e h d =
      absurd (ground (arith, sym f ∙ not_full o h.queued h.limit))
  entered written {n} {sent} a now o true (q ∷ p) f e h d = (
    p ++ a ∷ [],
    entered_holds a now o true (q ∷ p) p f e h refl,
    subst (λ l. Drops (suc n) l (sent ++ a ∷ [])) (append_assoc written p (a ∷ []))
        (snoc a (lose written q p d)),
  )

  set-IsAlive :
      (o : Outbox) (m : Outboxes)
      → o.finished ≡ false
      → IsAlive m
      → IsAlive (set NodeId-discrete id o m)
  set-IsAlive o m h alive j o' e = elim (NodeId-discrete j id) [
    | yes p ↦
        ap (λ x. elim x [ none ↦ false | some y ↦ y.finished ])
          (sym e
            ∙ ap (λ k. get NodeId-discrete k (set NodeId-discrete id o m)) p
            ∙ get-set_self NodeId-discrete id o m)
        ∙ h
    | no p ↦ alive j o' (sym (get-set_ne NodeId-discrete id j o m p) ∙ e)
  ]

  outbox_for-set : (o : Outbox) (m : Outboxes) → outbox_for id (set NodeId-discrete id o m) ≡ o
  outbox_for-set o m =
      ap (λ x. elim x [ none ↦ new_outbox | some y ↦ y ]) (get-set_self NodeId-discrete id o m)
