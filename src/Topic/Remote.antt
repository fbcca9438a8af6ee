-- ===== src/Topic/Remote.antt =====
-- Topic messages from one node to another: the sender and the outbox of one, the client handler of
-- the other, and the bytes between them.
pub mod Schedule
pub mod Losses
pub mod Streams
pub mod Flow
pub mod Delivery
pub mod Listener
pub mod Selected
pub mod Heard
use rosy.Base.{
  ℕ, zero, suc, ◌+◌, ◌-◌, ◌<◌, ◌≡◌, refl, sym, ap, ◌∙◌, subst, Bool, true, false, Option, none,
  some, List, [], ◌∷◌, ◌++◌, map, All, length, drop, arith, inl, inr, Bool-cases, holds,
  if◌then◌else◌,
}
use rosy.Base.Dict.{get}
use rosy.Base.Exec.{Exec, Result, ok, err, lift, after}
use rosy.Stream.{Bytes, LockableWriter}
use rosy.Message.{TopicMessage}
use rosy.Message.Node.{NodeMessageCodec, encode_topic_message}
use rosy.Mesh.{NodeId, NodeId-discrete, MeshNodeSpec}
use rosy.Mesh.Topology.{has_id}
use rosy.Topic.Outbox.{Outbox, Item, new_outbox, send}
use rosy.Topic.Outbox.Laws.{IsValid, entries, send_all, last_of, send_all-queue}
use rosy.Topic.Sender.{Outboxes, send_each, send_to, send_topic}
use rosy.Topic.Sender.Laws.{
  IsAlive, outbox_for, with_entry, sends, alive_for, sends_to, sends_to-IsAlive, send_each_step,
  send_each_others,
}
use rosy.Node.Handlers.{Client, handle_client}
use rosy.Node.Handlers.Laws.{Sent, Reads, stream_of, handle_all, requests, handle_client-stream_of}

-- No node stands in the list twice.
abbrev pub IdsDistinct : List MeshNodeSpec → Type 0
IdsDistinct [] = Unit
IdsDistinct (node ∷ nodes) = (has_id node.id nodes ≡ false) × IdsDistinct nodes

outbox_for-eq :
    (id : NodeId) (m m' : Outboxes)
    → get NodeId-discrete id m ≡ get NodeId-discrete id m'
    → outbox_for id m ≡ outbox_for id m'
outbox_for-eq id m m' e = ap (λ x. elim x [ none ↦ new_outbox | some o ↦ o ]) e

outbox_for-some :
    (id : NodeId) (m : Outboxes) (o : Outbox)
    → get NodeId-discrete id m ≡ some o
    → outbox_for id m ≡ o
outbox_for-some id m o e = ap (λ x. elim x [ none ↦ new_outbox | some p ↦ p ]) e

module _ (now : ℕ) (bytes : Bytes) where
  send_each-IsAlive :
      (nodes : List MeshNodeSpec) (m : Outboxes)
      → IsAlive m
      → IsAlive (send_each now bytes nodes m).1
  unfolding send_each
  send_each-IsAlive [] m h = h
  send_each-IsAlive (node ∷ nodes) m h =
      subst (λ r. IsAlive r.1) (sym (send_each_step now bytes node nodes m h))
        (send_each-IsAlive nodes (send_to now bytes node m).1 (sends_to-IsAlive now bytes node m h))

  send_each_ok :
      (nodes : List MeshNodeSpec) (m : Outboxes)
      → IsAlive m
      → (send_each now bytes nodes m).0 ≡ ok tt
  unfolding send_each
  send_each_ok [] m h = refl
  send_each_ok (node ∷ nodes) m h =
      ap (λ r. r.0) (send_each_step now bytes node nodes m h)
      ∙ send_each_ok nodes (send_to now bytes node m).1 (sends_to-IsAlive now bytes node m h)

  -- Where a message is for a node once, the node's outbox gets it once.
  send_each_once :
      (nodes : List MeshNodeSpec) (m : Outboxes) (id : NodeId)
      → IsAlive m
      → IdsDistinct nodes
      → outbox_for id (send_each now bytes nodes m).1
        ≡ (if has_id id nodes then with_entry now bytes (outbox_for id m) else outbox_for id m)
  unfolding send_each has_id
  send_each_once [] m id h u = refl
  send_each_once (node ∷ nodes) m id h u =
      let m' = (send_to now bytes node m).1 in
      let alive = sends_to-IsAlive now bytes node m h in
      let one : Outbox → Outbox = with_entry now bytes in
      ap (λ r. outbox_for id r.1) (send_each_step now bytes node nodes m h)
      ∙ elim (NodeId-discrete id node.id)
            as (λ d.
              (get NodeId-discrete id m'
                ≡ (if holds d then some (one (outbox_for node.id m)) else get NodeId-discrete id m))
              → outbox_for id (send_each now bytes nodes m').1 ≡ (
                  if if holds d then true else has_id id nodes
                  then one (outbox_for id m)
                  else outbox_for id m)) [
                    | yes p ↦ λ e.
                        outbox_for-some id (send_each now bytes nodes m').1
                          (one (outbox_for node.id m))
                          (send_each_others now bytes nodes m' id alive
                              (ap (λ i. has_id i nodes) p ∙ u.0)
                            ∙ e)
                        ∙ ap (λ i. one (outbox_for i m)) (sym p)
                    | no p ↦ λ e.
                        send_each_once nodes m' id alive u.1
                        ∙ ap (λ o. if has_id id nodes then one o else o) (outbox_for-eq id m' m e)
                  ]
          (sends_to now bytes node m id h).1

-- A call of `TopicSender.send`: when, the nodes that the peer selector gave, and the message.
pub record Sending (Data : Type 0) : Type 0 where
  pub now : ℕ
  pub nodes : List MeshNodeSpec
  pub message : TopicMessage Data

module _ {Data : Type 0} (codec : NodeMessageCodec Data) where
  abbrev pub send_one : Sending Data → Exec Outboxes (Unit {0})
  send_one s =
      send_topic (encode_topic_message codec) s.now s.nodes s.message.topic s.message.args
        s.message.kwargs

  -- The bytes of a message, if the codec encodes it.
  abbrev pub wire_of : TopicMessage Data → Bytes
  wire_of message = elim (encode_topic_message codec message) [ ok bytes ↦ bytes | err _ ↦ [] ]

  -- The message is encoded, and it is read back from its bytes.
  abbrev pub Arrives : TopicMessage Data → Type 0
  Arrives message =
      (encode_topic_message codec message ≡ ok (wire_of message))
      × Reads codec (wire_of message, inl message)

  -- What one call does to the outbox of a node, where no task of an outbox has ended.
  abbrev pub Did : Sending Data → Outboxes → NodeId → Result (Unit {0}) × Outboxes → Type 0
  Did s m id r =
      (r.0 ≡ ok tt)
      × IsAlive r.1
      × (outbox_for id r.1 ≡ (
          if has_id id s.nodes
          then with_entry s.now (wire_of s.message) (outbox_for id m)
          else outbox_for id m))

  pub send_topic_lem :
      (now : ℕ) (nodes : List MeshNodeSpec) (message : TopicMessage Data) (m : Outboxes)
      (id : NodeId)
      → IsAlive m
      → IdsDistinct nodes
      → Arrives message
      → Did
          (record { now = now; nodes = nodes; message = message })
          m
          id
          (send_topic
            (encode_topic_message codec)
            now
            nodes
            message.topic
            message.args
            message.kwargs
            m)
  unfolding send_topic has_id
  send_topic_lem now [] message m id h u a = (refl, h, refl)
  send_topic_lem now (node ∷ nodes) message m id h u a =
      let wire = wire_of message in
      rw (a.0, after, lift)
        (
          send_each_ok now wire (node ∷ nodes) m h,
          send_each-IsAlive now wire (node ∷ nodes) m h,
          send_each_once now wire (node ∷ nodes) m id h u,
        )
