-- ===== src/Topic/Remote/Delivery.antt =====
-- What the client handler of a node makes of the bytes that another node's outbox wrote.
use rosy.Base.{
  length-map, ℕ, ◌+◌, ◌<◌, ◌≡◌, refl, sym, ap, ◌∙◌, subst, Bool, false, none, some, List, [], ◌∷◌,
  ◌++◌, append_assoc, map, All, length, length-append, arith, inl,
}
use rosy.Base.Dict.{get}
use rosy.Base.Exec.{Exec, ok, err}
use rosy.Stream.{LockableWriter}
use rosy.Message.{TopicMessage}
use rosy.Message.Node.{NodeMessageCodec, decode_topic_message_or_service_request}
use rosy.Mesh.{NodeId, NodeId-discrete}
use rosy.Mesh.Topology.{has_id}
use rosy.Topic.Outbox.{Item, new_outbox}
use rosy.Topic.Sender.{Outboxes}
use rosy.Topic.Sender.Laws.{IsAlive}
use rosy.Node.Handlers.{handle_client}
use rosy.Node.Handlers.Laws.{Sent, Reads, stream_of, handle_all, requests, handle_client-stream_of}
use rosy.Topic.Remote.{Sending, IdsDistinct, send_one, wire_of, Arrives, send_topic_lem}
use rosy.Topic.Remote.Schedule.{Event, Line, run_line, losses, waiting, sent_in}
use rosy.Topic.Remote.Losses.{Drops, all, Drops-length, All-Drops}
use rosy.Topic.Remote.Streams.{IsCalm, chosen, All-chosen, stream, as_list}
use rosy.Topic.Remote.Flow.{Holds, Delivers, Flows}
use rosy.Topic.Remote.Flow.Steps.{after_schedule, Flows-waiting}
use rosy.Builder.Codec.{Serializers, DataCodecArg}
use rosy.Builder.Codec.Wire.{built, codec, TopicFits, topic_arrives}

-- The messages are handled one after the other.
abbrev pub handle_each :
    {Data S : Type 0} → (TopicMessage Data → Exec S (Unit {0})) → List (TopicMessage Data) → S → S
handle_each handle [] world = world
handle_each handle (m ∷ ms) world = handle_each handle ms (handle m world).1

-- A writer of a new connection.
abbrev pub new_writer : LockableWriter
new_writer = record { written = []; locked = false; closing = false }

-- A sender with a new connection, where the outbox's task has taken nothing.
abbrev pub new_line : {X : Type 0} → X → Outboxes → Line X
new_line x m = record { selector = x; boxes = m; flight = none; writer = new_writer }

module _ {Data S A : Type 0} (codec : NodeMessageCodec Data)
    (handle : TopicMessage Data → Exec S (Unit {0}))
    (total : (m : TopicMessage Data) (world : S) → (handle m world).0 ≡ ok tt) (now : A → ℕ)
    (message : A → TopicMessage Data) where
  -- The entry that a call makes.
  abbrev pub entry_of : A → Item
  entry_of a = (now a + 5, wire_of codec (message a))

  abbrev sent_as : A → Sent Data
  sent_as a = (wire_of codec (message a), inl (message a))

  stream-stream_of : (as_ : List A) → stream entry_of as_ ≡ stream_of (map sent_as as_)
  stream-stream_of [] = refl
  stream-stream_of (a ∷ as_) = ap (λ b. wire_of codec (message a) ++ b) (stream-stream_of as_)

  handle_all-map :
      (as_ : List A) (world : S)
      → handle_all handle (map sent_as as_) world ≡ handle_each handle (map message as_) world
  handle_all-map [] world = refl
  handle_all-map (a ∷ as_) world = handle_all-map as_ (handle (message a) world).1

  requests-map : (as_ : List A) → requests (map sent_as as_) ≡ []
  requests-map [] = refl
  requests-map (a ∷ as_) = requests-map as_

  Reads-map :
      (as_ : List A)
      → All (λ a. Arrives codec (message a)) as_
      → All (Reads codec) (map sent_as as_)
  Reads-map [] h = tt
  Reads-map (a ∷ as_) h = (h.0.1, Reads-map as_ h.1)

  All-prefix : (P : A → Type 0) (xs ys : List A) → All P (xs ++ ys) → All P xs
  All-prefix P [] ys h = tt
  All-prefix P (x ∷ xs) ys h = (h.0, All-prefix P xs ys h.1)

  module _ {X : Type 0} (id : NodeId) (deliver : A → X × Outboxes → X × Outboxes)
      (for_id : A → Bool) where
    -- What the client handler makes of what the line has written: of the messages for the node, in
    -- order, it handles all but those that are lost and those that wait.
    abbrev pub Handled : List (Event A) → Line X → ℕ → S → Line X → Type 0
    Handled es start fuel world l =
        (heard pending : List A) × (Drops (losses id deliver for_id es start) (heard ++ pending)
          (chosen for_id (sent_in es)))
        × (length pending ≡ waiting id l)
        × (handle_client codec handle fuel
              (record { stream = l.writer.written; world = world; tasks = [] })
            ≡ some (
              ok tt,
              record {
                stream = [];
                world = handle_each handle (map message heard) world;
                tasks = [];
              },
            ))

    started :
        (Kept : X → Type 0) (x : X) (m : Outboxes)
        → Kept x
        → IsAlive m
        → get NodeId-discrete id m ≡ none
        → Flows id deliver for_id entry_of Kept 0 [] (new_line x m)
    started Kept x m k alive new = record {
      written = [];
      taken_off = none;
      pending = [];
      kept = k;
      alive = alive;
      bytes = refl;
      in_flight = refl;
      holds =
          subst (λ o. Holds id deliver for_id entry_of o [])
            (sym (ap (λ x. elim x [ none ↦ new_outbox | some o ↦ o ]) new))
            (record { queued = refl; limit = refl; living = refl });
      lost = all;
    }

    pub line-Handled :
        (Kept : X → Type 0) (x : X) (m : Outboxes) (es : List (Event A)) (fuel : ℕ) (world : S)
        → Kept x
        → IsAlive m
        → get NodeId-discrete id m ≡ none
        → All (Delivers id deliver for_id entry_of Kept) (sent_in es)
        → All (λ a. Arrives codec (message a)) (sent_in es)
        → IsCalm es
        → length (chosen for_id (sent_in es)) < fuel
        → Handled es (new_line x m) fuel world (run_line id deliver es (new_line x m))
    line-Handled Kept x m es fuel world k alive new did arrive calm enough =
        let l = run_line id deliver es (new_line x m) in
        let lost = losses id deliver for_id es (new_line x m) in
        let f : Flows id deliver for_id entry_of Kept (lost + 0) (chosen for_id (sent_in es)) l =
          after_schedule id deliver for_id entry_of Kept es (new_line x m) did calm
            (started Kept x m k alive new) in
        let behind = as_list f.taken_off ++ f.pending in
        let drops : Drops lost (f.written ++ behind) (chosen for_id (sent_in es)) =
          subst (λ n. Drops n (f.written ++ behind) (chosen for_id (sent_in es))) (omega arith)
            (subst (λ u. Drops (lost + 0) u (chosen for_id (sent_in es)))
              (append_assoc f.written (as_list f.taken_off) f.pending) f.lost) in
        let reads = Reads-map f.written (
          All-prefix (λ a. Arrives codec (message a)) f.written behind
            (All-Drops (λ a. Arrives codec (message a)) drops
              (All-chosen (λ a. Arrives codec (message a)) for_id (sent_in es) arrive))) in
        (
          f.written,
          behind,
          drops,
          sym (Flows-waiting id deliver for_id entry_of Kept l f),
          ap
                (λ b.
                  handle_client codec handle fuel
                    (record { stream = b; world = world; tasks = [] }))
                (f.bytes ∙ stream-stream_of f.written)
              ∙ handle_client-stream_of codec handle total (map sent_as f.written) fuel world []
                  reads
                  (omega (
                    arith,
                    length-map sent_as f.written,
                    enough,
                    Drops-length drops,
                    length-append f.written behind,
                  ))
              ∙ (λ i. some (
                ok tt,
                record {
                  stream = [];
                  world = handle_all-map f.written world i;
                  tasks = requests-map f.written i;
                },
              )),
        )

-- What stands in a call of `send`.
module _ {Data : Type 0} where
  abbrev pub is_for : NodeId → Sending Data → Bool
  is_for id s = has_id id s.nodes

  abbrev pub time_of : Sending Data → ℕ
  time_of s = s.now

  abbrev pub message_of : Sending Data → TopicMessage Data
  message_of s = s.message

module _ {Data S : Type 0} (null : Data) (libs : Serializers Data) (id_bytes : ℕ)
    (arg : DataCodecArg Data) (handle : TopicMessage Data → Exec S (Unit {0})) where
  abbrev wires : NodeMessageCodec Data
  wires = built null libs id_bytes arg

  -- A message within the limits arrives.
  pub TopicFits-Arrives :
      (m : TopicMessage Data) → TopicFits (codec null libs id_bytes arg) m → Arrives wires m
  TopicFits-Arrives m f =
      let (wire, e, reads) = topic_arrives null libs id_bytes arg m f in
      let same : wire_of wires m ≡ wire = ap (λ r. elim r [ ok bytes ↦ bytes | err _ ↦ [] ]) e in
      (
        e ∙ ap ok (sym same),
        λ rest.
            ap (λ b. decode_topic_message_or_service_request wires (b ++ rest)) same ∙ reads rest,
      )

  abbrev Right : Sending Data → Type 0
  Right s = IdsDistinct s.nodes × TopicFits (codec null libs id_bytes arg) s.message

  -- A call of `TopicSender.send`, with the nodes that the peer selector gave.
  abbrev pub sends_to_nodes : Sending Data → Unit {0} × Outboxes → Unit {0} × Outboxes
  sends_to_nodes s (u, m) = (u, (send_one wires s m).1)

  module _ (id : NodeId)
      (total : (m : TopicMessage Data) (world : S) → (handle m world).0 ≡ ok tt) where
    All-Delivers :
        (ss : List (Sending Data))
        → All Right ss
        → All
            (Delivers id sends_to_nodes
              (is_for id)
              (entry_of wires handle total time_of message_of)
              (λ u. Unit {0}))
            ss
    All-Delivers [] h = tt
    All-Delivers (s ∷ ss) h = (
      λ u m k alive.
          let (r, alive', did) =
            send_topic_lem wires s.now s.nodes s.message m id alive h.0.0
              (TopicFits-Arrives s.message h.0.1) in
          (tt, alive', (s.now, refl, did)),
      All-Delivers ss h.1,
    )

    All-Arrives : (ss : List (Sending Data)) → All Right ss → All (λ s. Arrives wires s.message) ss
    All-Arrives [] h = tt
    All-Arrives (s ∷ ss) h = (TopicFits-Arrives s.message h.0.1, All-Arrives ss h.1)

    -- Topic messages from a node to the node `id`, in any order of the calls of `send` and of the
    -- steps of the outbox's task. At every point, the client handler of `id` handles, once and in
    -- the order of the calls, the messages that were for `id` but for those that still wait, which
    -- are the last of them, and those that were lost: as many as there were calls at a full queue
    -- and attempts that wrote nothing. It ends where the stream ends. The messages are
    -- within the limits of the built codec, the peer selector gives no node twice, handling a
    -- message raises nothing, no attempt ends with an exception of ALLOWED_EXCEPTIONS, no task of an
    -- outbox has ended before, `id` has no outbox
    -- at first, and the fuel is more than the messages for `id`.
    pub topic_delivered :
        (es : List (Event (Sending Data))) (m : Outboxes) (fuel : ℕ) (world : S)
        → IsAlive m
        → get NodeId-discrete id m ≡ none
        → All Right (sent_in es)
        → IsCalm es
        → length (chosen (is_for id) (sent_in es)) < fuel
        → Handled wires handle total time_of message_of id sends_to_nodes
            (is_for id)
            es
            (new_line tt m)
            fuel
            world
            (run_line id sends_to_nodes es (new_line tt m))
    topic_delivered es m fuel world alive new fit calm enough =
        line-Handled wires handle total time_of message_of id sends_to_nodes (is_for id)
          (λ u. Unit {0}) tt m es fuel world tt alive new (All-Delivers (sent_in es) fit)
          (All-Arrives (sent_in es) fit) calm enough
