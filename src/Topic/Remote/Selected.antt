-- ===== src/Topic/Remote/Selected.antt =====
-- Which nodes a topic sender takes: `TopicSender.send` of src/rosy/node/topic/sender.py with its peer
-- selector.
use rosy.Base.{ℕ, ◌≡◌, ◌≢◌, sym, ap, ◌∙◌, subst, false, some, [], ◌∷◌, arith}
use rosy.Base.Text.{Text, Text-discrete}
use rosy.Base.Dict.{Dict, get, values}
use rosy.Base.Exec.{Exec, Result}
use rosy.Stream.{Bytes}
use rosy.Message.{TopicMessage}
use rosy.Message.Node.{NodeMessageCodec, encode_topic_message}
use rosy.Mesh.{NodeId, MeshNodeSpec}
use rosy.Mesh.Topology.{MeshTopologySpec, MeshTopologyManager, has_id}
use rosy.Mesh.Topology.Laws.{has_name, nodes_with, IsCached, get_nodes_listening_to_topic_lem}
use rosy.LoadBalancing.Balancers.{TopicBalancer, noop_choose_nodes}
use rosy.Peer.Selector.{get_nodes_for_topic}
use rosy.Topic.Sender.{Outboxes, send_topic}
use rosy.Topic.Remote.{IdsDistinct, send_one}
use rosy.Topic.Remote.Listener.{listeners, not_has_id-listeners}
use rosy.Discovery.Registry.Learned.{has_id-get}

-- The state that a topic sender works on: the topology manager and the load balancer of the peer
-- selector, and the outboxes.
abbrev pub SenderState : Type 0 → Type 0
SenderState S = (MeshTopologyManager × S) × Outboxes

module _ {Data S : Type 0} (encode : TopicMessage Data → Result Bytes)
    (choose_nodes : TopicBalancer S) where
  -- `TopicSender.send` at a loop time, with the nodes that the peer selector gives.
  unfoldable pub send_message : ℕ → TopicMessage Data → Exec (SenderState S) (Unit {0})
  unfolding get_nodes_for_topic send_topic
  send_message now message (selector, m) =
      let (nodes, selector') = get_nodes_for_topic choose_nodes message.topic selector in
      let (r, m') = send_topic encode now nodes message.topic message.args message.kwargs m in
      (r, (selector', m'))

first_listener :
    (topic : Text) (node : MeshNodeSpec) (nodes : MeshTopologySpec)
    → has_id node.id nodes ≡ false
    → has_id node.id (listeners topic (node ∷ nodes)) ≡ has_name topic node.topics
unfolding has_id nodes_with
first_listener topic node nodes u = ground (arith, not_has_id-listeners topic node.id nodes u)

later_listener :
    (topic : Text) (id : NodeId) (node : MeshNodeSpec) (nodes : MeshTopologySpec)
    → id ≢ node.id
    → has_id id (listeners topic (node ∷ nodes)) ≡ has_id id (listeners topic nodes)
unfolding has_id nodes_with
later_listener topic id node nodes n = ground (arith, n)

-- In a topology with each id once, a node is among the listeners of a topic exactly where it
-- listens to the topic.
pub has_id-listeners-eq :
    (topic name : Text) (nodes : Dict Text MeshNodeSpec) (node : MeshNodeSpec)
    → get Text-discrete name nodes ≡ some node
    → IdsDistinct (values nodes)
    → has_id node.id (listeners topic (values nodes)) ≡ has_name topic node.topics
has_id-listeners-eq topic name [] node e u = absurd (ground (arith, e))
has_id-listeners-eq topic name ((k, v) ∷ nodes) node e u = elim (Text-discrete name k) [
  | yes p ↦
      let it : v ≡ node = ground (arith, e) in
      subst
        (λ (w : MeshNodeSpec).
          has_id w.id (listeners topic (v ∷ values nodes)) ≡ has_name topic w.topics)
        it (first_listener topic v (values nodes) u.0)
  | no p ↦
      let h : get Text-discrete name nodes ≡ some node = ground (arith, e) in
      later_listener topic node.id v (values nodes) (λ q. absurd (
        ground
          (arith, sym (ap (λ i. has_id i (values nodes)) q) ∙ has_id-get name nodes node h, u.0)))
      ∙ has_id-listeners-eq topic name nodes node h u.1
]

module _ {Data S : Type 0} (codec : NodeMessageCodec Data) (now : ℕ) (message : TopicMessage Data)
    (m : MeshTopologyManager) (s : S) (o : Outboxes) where
  -- A call with the load balancer that keeps all nodes works on the outboxes as a send to the
  -- listeners in the topology.
  pub send_message_lem :
      IsCached m
      → ((send_message (encode_topic_message codec) noop_choose_nodes now message ((m, s), o)).1.1
          ≡ (send_one codec
              (record { now = now; nodes = listeners message.topic m.topology; message = message })
              o).1)
        × (IsCached
              (send_message
                (encode_topic_message codec)
                noop_choose_nodes
                now
                message
                ((m, s), o)).1.0.0
            × ((send_message
                  (encode_topic_message codec)
                  noop_choose_nodes
                  now
                  message
                  ((m, s), o)).1.0.0.topology
                ≡ m.topology))
  unfolding send_message noop_choose_nodes get_nodes_for_topic
  send_message_lem c =
      let (same, c', kept) = get_nodes_listening_to_topic_lem message.topic m c in
      (
        ap
            (λ nodes.
              (send_topic (encode_topic_message codec) now nodes message.topic message.args
                message.kwargs o).1)
            same,
        (c', kept),
      )
