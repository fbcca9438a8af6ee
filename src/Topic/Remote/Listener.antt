-- ===== src/Topic/Remote/Listener.antt =====
-- From the discovery of a node that listens to a topic to the outbox that gets the topic's messages:
-- the announcement, the topology manager, the peer selector and the topic sender.
use rosy.Base.{
  ℕ, ◌≡◌, refl, sym, ap, ◌∙◌, subst, true, false, none, some, List, [], ◌∷◌, arith, holds,
  if◌then◌else◌,
}
use rosy.Base.Text.{Text, Text-discrete}
use rosy.Base.Dict.{Dict, get, values}
use rosy.Base.Exec.{Exec, Result, ok, err, after}
use rosy.Message.{TopicMessage}
use rosy.Message.Node.{NodeMessageCodec, encode_topic_message}
use rosy.Mesh.{NodeId, NodeId-discrete, MeshNodeSpec}
use rosy.Mesh.Topology.{
  MeshTopologySpec, MeshTopologyManager, set_topology, get_removed_nodes, has_id,
}
use rosy.Mesh.Topology.Laws.{
  has_name, nodes_with, NamesDistinct, set_topology-IsCached, get_nodes_listening_to_topic_lem,
}
use rosy.LoadBalancing.Balancers.{noop_choose_nodes}
use rosy.Peer.Selector.{get_nodes_for_topic}
use rosy.Peer.Removal.{Peers, Endings, clean_up, clean_up_all, topology_changed}
use rosy.Peer.Removal.Laws.{IsTidy, clean_up_state, cleaned-IsTidy, clean_up_removes}
use rosy.Topic.Sender.{send_topic}
use rosy.Topic.Sender.Laws.{IsAlive, outbox_for, with_entry}
use rosy.Topic.Remote.{IdsDistinct, wire_of, Arrives, send_topic_lem}
use rosy.Discovery.{Discovery, topology, announce, call_topology_changed_callback}
use rosy.Discovery.Announce.{contained_state}

-- The nodes that listen to the topic.
abbrev pub listeners : Text → MeshTopologySpec → List MeshNodeSpec
listeners topic nodes = nodes_with (λ node. node.topics) topic nodes

has_id-listeners :
    (topic name : Text) (nodes : Dict Text MeshNodeSpec) (node : MeshNodeSpec)
    → get Text-discrete name nodes ≡ some node
    → has_name topic node.topics ≡ true
    → has_id node.id (listeners topic (values nodes)) ≡ true
unfolding has_id nodes_with
has_id-listeners topic name [] node e h = ground (arith, e)
has_id-listeners topic name ((k, v) ∷ nodes) node e h = elim (Text-discrete name k) [
  | yes p ↦ ground (arith, e, h)
  | no p ↦ ground (arith, has_id-listeners topic name nodes node, e, h)
]

pub not_has_id-listeners :
    (topic : Text) (id : NodeId) (nodes : MeshTopologySpec)
    → has_id id nodes ≡ false
    → has_id id (listeners topic nodes) ≡ false
unfolding has_id nodes_with
not_has_id-listeners topic id [] h = refl
not_has_id-listeners topic id (node ∷ nodes) h =
    ground (arith, h, not_has_id-listeners topic id nodes)

pub listeners-IdsDistinct :
    (topic : Text) (nodes : MeshTopologySpec)
    → IdsDistinct nodes
    → IdsDistinct (listeners topic nodes)
unfolding nodes_with
listeners-IdsDistinct topic [] h = tt
listeners-IdsDistinct topic (node ∷ nodes) h =
    elim (has_name topic node.topics)
      as (λ b. IdsDistinct (if b then node ∷ listeners topic nodes else listeners topic nodes)) [
        | true ↦
            (not_has_id-listeners topic node.id nodes h.0, listeners-IdsDistinct topic nodes h.1)
        | false ↦ listeners-IdsDistinct topic nodes h.1
      ]

-- A state that a property holds of, after a step and what follows it.
after_state :
    {A S : Type 0} (Q : S → Type 0) (r : Result A × S) (rest : Exec S A)
    → Q r.1
    → ((s : S) → Q s → Q (rest s).1)
    → Q (after r (λ _. rest)).1
after_state Q (ok a, s) rest q keep = keep s q
after_state Q (err e, s) rest q keep = q

module _ (endings : Endings) where
  abbrev Sound : Peers → Type 0
  Sound p = IsTidy p × IsAlive p.0

  clean_up-Sound : (node : MeshNodeSpec) (p : Peers) → Sound p → Sound (clean_up endings node p).1
  clean_up-Sound node p (tidy, alive) = (
    subst IsTidy (sym (clean_up_state endings node p)) (cleaned-IsTidy endings node p tidy),
    λ id o e.
        elim (NodeId-discrete id node.id)
            as (λ b.
              (if holds b then none else get NodeId-discrete id p.0) ≡ some o
              → o.finished ≡ false) [
                | yes _ ↦ λ n. absurd (ground (arith, n))
                | no _ ↦ λ n. alive id o n
              ]
          (sym (clean_up_removes endings node p id tidy).0 ∙ e),
  )

  clean_up_all-Sound :
      (nodes : List MeshNodeSpec) (p : Peers) → Sound p → Sound (clean_up_all endings nodes p).1
  unfolding clean_up_all
  clean_up_all-Sound [] p h = h
  clean_up_all-Sound (node ∷ nodes) p h =
      after_state Sound (clean_up endings node p) (clean_up_all endings nodes)
        (clean_up-Sound node p h) (clean_up_all-Sound nodes)

  -- The state after an announcement of the topology.
  abbrev pub told : Discovery → MeshTopologyManager × Peers → MeshTopologyManager × Peers
  told d s = (topology_changed endings (topology d) s).1

  announced :
      (d : Discovery) (s : MeshTopologyManager × Peers)
      → d.topology_changed ≡ true
      → (r : Result (Unit {0})) × (announce (some (topology_changed endings)) (d, s)
          ≡ some (r, (record d { topology_changed = false }, told d s)))
  unfolding announce call_topology_changed_callback
  announced d s e =
      let callback = topology_changed endings in
      (
        (call_topology_changed_callback (some callback) (topology d) s).0,
        rw e (
            ap
              (λ t. some (
                (call_topology_changed_callback (some callback) (topology d) s).0,
                (record d { topology_changed = false }, t),
              ))
              (contained_state (callback (topology d) s).0 (callback (topology d) s).1)),
      )

  told-IsAlive :
      (d : Discovery) (m : MeshTopologyManager) (p : Peers)
      → IsTidy p
      → IsAlive p.0
      → IsAlive (told d (m, p)).1.0
  unfolding topology_changed
  told-IsAlive d m p tidy alive =
      (clean_up_all-Sound (get_removed_nodes (topology d) m) p (tidy, alive)).1

  module _ {Data S : Type 0} (codec : NodeMessageCodec Data) (d : Discovery)
      (m : MeshTopologyManager) (p : Peers) where
    -- The nodes that the peer selector gives after the announcement, where it keeps all of them.
    abbrev pub selected : Text → S → List MeshNodeSpec
    selected topic s = (get_nodes_for_topic noop_choose_nodes topic ((told d (m, p)).0, s)).0

    told-selected :
        (topic : Text) (s : S)
        → NamesDistinct (λ node. node.topics) (topology d)
        → NamesDistinct (λ node. node.services) (topology d)
        → selected topic s ≡ listeners topic (topology d)
    unfolding get_nodes_for_topic noop_choose_nodes topology_changed
    told-selected topic s t v =
        (get_nodes_listening_to_topic_lem topic (set_topology (topology d) m)
          (set_topology-IsCached (topology d) m t v)).0
        ∙ unfold set_topology in refl

    -- The discovery knows a node that listens to the topic of a message, and an announcement is
    -- due; the topology has each id, and each name of a node, once, the peers have each node at
    -- most once, no task of an outbox has ended, and the message is one that arrives. Then the
    -- announcement runs, whatever the ends of removed nodes' outboxes and connections raise, and
    -- the next send of the message, where the load balancer keeps all nodes, does not raise: it
    -- puts the bytes of the message, once, into the outbox of that node.
    pub listener_found :
        (name : Text) (node : MeshNodeSpec) (now : ℕ) (message : TopicMessage Data) (s : S)
        → d.topology_changed ≡ true
        → get Text-discrete name d.service_name_to_node ≡ some node
        → has_name message.topic node.topics ≡ true
        → NamesDistinct (λ node. node.topics) (topology d)
        → NamesDistinct (λ node. node.services) (topology d)
        → IdsDistinct (topology d)
        → IsTidy p
        → IsAlive p.0
        → Arrives codec message
        → (r : Result (Unit {0})) × (announce (some (topology_changed endings)) (d, (m, p))
            ≡ some (r, (record d { topology_changed = false }, told d (m, p))))
          × ((send_topic
                (encode_topic_message codec)
                now
                (selected message.topic s)
                message.topic
                message.args
                message.kwargs
                (told d (m, p)).1.0).0
              ≡ ok tt)
          × (outbox_for node.id
                (send_topic
                  (encode_topic_message codec)
                  now
                  (selected message.topic s)
                  message.topic
                  message.args
                  message.kwargs
                  (told d (m, p)).1.0).1
              ≡ with_entry now (wire_of codec message) (outbox_for node.id (told d (m, p)).1.0))
    unfolding topology
    listener_found name node now message s due known listens t v ids tidy alive arrives =
        let (r, ran) = announced d (m, p) due in
        let nodes = told-selected message.topic s t v in
        let has : has_id node.id (selected message.topic s) ≡ true =
          ap (has_id node.id) nodes
          ∙ has_id-listeners message.topic name d.service_name_to_node node known listens in
        let (sent, _, entered) =
          send_topic_lem codec now (selected message.topic s) message (told d (m, p)).1.0 node.id
            (told-IsAlive d m p tidy alive)
            (subst IdsDistinct (sym nodes) (listeners-IdsDistinct message.topic (topology d) ids))
            arrives in
        (r, ran, sent, entered ∙ rw has refl)
