-- ===== src/Topic/Remote/Heard.antt =====
-- Which messages of a topic sender reach a node that its discovery knows.
use rosy.Base.{
  ℕ, ◌+◌, ◌<◌, ◌≡◌, refl, sym, ap, ◌∙◌, subst, Bool, some, none, List, [], ◌∷◌, ◌++◌, map, All,
  length, append-nil, arith, if◌then◌else◌,
}
use rosy.Base.Text.{Text, Text-discrete}
use rosy.Base.Dict.{get}
use rosy.Base.Exec.{Exec, ok}
use rosy.Message.{TopicMessage}
use rosy.Message.Node.{NodeMessageCodec, encode_topic_message}
use rosy.Mesh.{NodeId-discrete, MeshNodeSpec}
use rosy.Mesh.Topology.{MeshTopologySpec, MeshTopologyManager, has_id, set_topology}
use rosy.Mesh.Topology.Laws.{has_name, NamesDistinct, IsCached, set_topology-IsCached}
use rosy.LoadBalancing.Balancers.{noop_choose_nodes}
use rosy.Topic.Sender.{Outboxes}
use rosy.Topic.Sender.Laws.{IsAlive, outbox_for, with_entry}
use rosy.Topic.Remote.{IdsDistinct, wire_of, Arrives, send_one, send_topic_lem}
use rosy.Topic.Remote.Schedule.{Event, run_line, losses, waiting, sent_in}
use rosy.Topic.Remote.Losses.{Drops-none}
use rosy.Topic.Remote.Streams.{IsCalm, chosen}
use rosy.Topic.Remote.Flow.{Delivers}
use rosy.Topic.Remote.Delivery.{handle_each, new_line, entry_of, line-Handled, TopicFits-Arrives}
use rosy.Topic.Remote.Listener.{listeners, listeners-IdsDistinct}
use rosy.Node.Handlers.{handle_client}
use rosy.Builder.Codec.{Serializers, DataCodecArg}
use rosy.Builder.Codec.Wire.{built, codec, TopicFits}
use rosy.Discovery.{Discovery, topology}
use rosy.Topic.Remote.Selected.{send_message, has_id-listeners-eq, send_message_lem}

-- A call of `send` at a loop time.
abbrev pub Call : Type 0 → Type 0
Call Data = ℕ × TopicMessage Data

-- The node listens to the topic of the message.
abbrev pub listens_to : {Data : Type 0} → MeshNodeSpec → Call Data → Bool
listens_to node call = has_name call.1.topic node.topics

-- The messages of the topics that the node listens to.
abbrev pub heard : {Data : Type 0} → MeshNodeSpec → List (Call Data) → List (TopicMessage Data)
heard node calls = map (λ call. call.1) (chosen (listens_to node) calls)

module _ {Data W : Type 0} (null : Data) (libs : Serializers Data) (id_bytes : ℕ)
    (arg : DataCodecArg Data) (handle : TopicMessage Data → Exec W (Unit {0}))
    (total : (m : TopicMessage Data) (world : W) → (handle m world).0 ≡ ok tt) where
  abbrev built_codec : NodeMessageCodec Data
  built_codec = built null libs id_bytes arg

  -- `send` of the topic sender, with its peer selector.
  abbrev pub sends_message :
      {S : Type 0}
      → Call Data
      → (MeshTopologyManager × S) × Outboxes
      → (MeshTopologyManager × S) × Outboxes
  sends_message call state =
      (send_message (encode_topic_message built_codec) noop_choose_nodes call.0 call.1 state).1

  abbrev Fits : Call Data → Type 0
  Fits call = TopicFits (codec null libs id_bytes arg) call.1

  All-Arrives :
      (calls : List (Call Data)) → All Fits calls → All (λ call. Arrives built_codec call.1) calls
  All-Arrives [] h = tt
  All-Arrives (call ∷ calls) h =
      (TopicFits-Arrives null libs id_bytes arg handle call.1 h.0, All-Arrives calls h.1)

  module _ (S : Type 0) (t : MeshTopologySpec) (node : MeshNodeSpec) (ids : IdsDistinct t)
      (same : (topic : Text)
        → has_id node.id (listeners topic t) ≡ has_name topic node.topics) where
    abbrev Selects : MeshTopologyManager × S → Type 0
    Selects (m, s) = IsCached m × (m.topology ≡ t)

    All-Delivers :
        (calls : List (Call Data))
        → All Fits calls
        → All
            (Delivers node.id sends_message
              (listens_to node)
              (entry_of built_codec handle total (λ call. call.0) (λ call. call.1))
              Selects)
            calls
    All-Delivers [] h = tt
    All-Delivers ((now, message) ∷ calls) h =
        (λ x o k alive. delivers x.0 x.1 o k.0 k.1 alive, All-Delivers calls h.1)
      where
        delivers :
            (m : MeshTopologyManager) (s : S) (o : Outboxes)
            → IsCached m
            → m.topology ≡ t
            → IsAlive o
            → Selects (sends_message (now, message) ((m, s), o)).0
              × IsAlive (sends_message (now, message) ((m, s), o)).1
              × ((at : ℕ) × (entry_of built_codec handle total
                      (λ (call : Call Data). call.0)
                      (λ call. call.1)
                      (now, message)
                    ≡ (at + 5, wire_of built_codec message))
                  × (outbox_for node.id (sends_message (now, message) ((m, s), o)).1 ≡ (
                      if listens_to node (now, message)
                      then with_entry at (wire_of built_codec message) (outbox_for node.id o)
                      else outbox_for node.id o)))
        delivers m s o c e alive =
            let nodes = listeners message.topic t in
            let wire = wire_of built_codec message in
            let (outboxes, (c', kept)) = send_message_lem built_codec now message m s o c in
            let (r, alive', did) =
              send_topic_lem built_codec now nodes message o node.id alive
                (listeners-IdsDistinct message.topic t ids)
                (TopicFits-Arrives null libs id_bytes arg handle message h.0) in
            let sent =
              outboxes
              ∙ ap
                  (λ u.
                    (send_one built_codec
                      (record { now = now; nodes = listeners message.topic u; message = message })
                      o).1)
                  e in
            (
              (c', kept ∙ e),
              subst IsAlive (sym sent) alive',
              (
                now,
                refl,
                ap (outbox_for node.id) sent
                    ∙ did
                    ∙ ap
                        (λ b.
                          if b
                          then with_entry now wire (outbox_for node.id o)
                          else outbox_for node.id o)
                        (same message.topic),
              ),
            )

  -- A sender of topics with the topology that its discovery has, each id and each name of a node in
  -- it once, and the load balancer that keeps all nodes (not the one of the default builder), sends
  -- messages that are within the limits of the codec, in any order with the steps of the task of
  -- the outbox of a node that the discovery knows. Where the schedule loses none, that is no call
  -- finds the outbox full and each attempt writes, and no entry waits at its end, the node's client
  -- handler handles exactly those of the messages whose topic the node listens to, each once and in
  -- the order of the calls, and ends with the stream. Handling a message raises nothing, no attempt
  -- ends with an exception of ALLOWED_EXCEPTIONS, no task of an outbox has ended before, and the
  -- node has no outbox at first; the fuel is more than the messages that it listens to.
  pub node_hears :
      {S : Type 0} (d : Discovery) (name : Text) (node : MeshNodeSpec) (m : MeshTopologyManager)
      (s : S) (o : Outboxes) (es : List (Event (Call Data))) (fuel : ℕ) (world : W)
      → get Text-discrete name d.service_name_to_node ≡ some node
      → NamesDistinct (λ x. x.topics) (topology d)
      → NamesDistinct (λ x. x.services) (topology d)
      → IdsDistinct (topology d)
      → IsAlive o
      → get NodeId-discrete node.id o ≡ none
      → All Fits (sent_in es)
      → IsCalm es
      → length (chosen (listens_to node) (sent_in es)) < fuel
      → losses node.id sends_message
          (listens_to node)
          es
          (new_line (set_topology (topology d) m, s) o)
        ≡ 0
      → waiting node.id
          (run_line node.id sends_message es (new_line (set_topology (topology d) m, s) o))
        ≡ 0
      → handle_client built_codec handle fuel (record {
        stream =
            (run_line node.id sends_message es
              (new_line (set_topology (topology d) m, s) o)).writer.written;
        world = world;
        tasks = [];
      })
        ≡ some (
          ok tt,
          record {
            stream = [];
            world = handle_each handle (heard node (sent_in es)) world;
            tasks = [];
          },
        )
  unfolding topology
  node_hears {S} d name node m s o es fuel world known tn sn ids alive new fits calm enough lossless
        quiet =
      let t = topology d in
      let same : (topic : Text) → has_id node.id (listeners topic t) ≡ has_name topic node.topics =
        λ topic. has_id-listeners-eq topic name d.service_name_to_node node known ids in
      let (handled, pending, drops, rest, ends) =
        line-Handled built_codec handle total (λ call. call.0) (λ call. call.1) node.id
          sends_message (listens_to node) (Selects S t node ids same) (set_topology t m, s) o es
          fuel world (set_topology-IsCached t m tn sn, unfold set_topology in refl) alive new
          (All-Delivers S t node ids same (sent_in es) fits) (All-Arrives (sent_in es) fits) calm
          enough in
      let all_handled : handled ≡ chosen (listens_to node) (sent_in es) =
        sym (append-nil handled)
        ∙ ap (λ p. handled ++ p) (sym (none_of pending (rest ∙ quiet)))
        ∙ Drops-none drops lossless in
      ends
      ∙ ap
          (λ h. some (
            ok tt,
            record {
              stream = [];
              world = handle_each handle (map (λ call. call.1) h) world;
              tasks = [];
            },
          ))
          all_handled
    where
      none_of : (p : List (Call Data)) → length p ≡ 0 → p ≡ []
      none_of [] e = refl
      none_of (_ ∷ p) e = absurd (omega (arith, e))
