-- ===== src/Topic/Sender.antt =====
-- src/rosy/node/topic/sender.py, and NodeOutboxManager of src/rosy/node/topic/outbox.py.
pub mod Laws
use rosy.Base.{ℕ, Option, none, some, List, [], ◌∷◌}
use rosy.Base.Text.{Text}
use rosy.Base.Dict.{Dict, get, set, without}
use rosy.Base.Exec.{Exec, Result, ok, err, pure, after, lift, ◌>>=◌, ◌>>◌}
use rosy.Stream.{Bytes}
use rosy.Mesh.{NodeId, NodeId-discrete, MeshNodeSpec}
use rosy.Message.{TopicMessage, Args, Kwargs}
use rosy.Topic.Outbox.{Outbox, new_outbox, send}

-- The outboxes, by node.
abbrev pub Outboxes : Type 0
Outboxes = Dict NodeId Outbox

-- `get_outbox`: the outbox, made where there is none; `finished` of a new one is false.
unfoldable pub get_outbox : MeshNodeSpec → Outboxes → Outbox × Outboxes
get_outbox node m = elim (get NodeId-discrete node.id m) [
  | some o ↦ (o, m)
  | none ↦ (new_outbox, set NodeId-discrete node.id new_outbox m)
]

-- `stop_outbox`; `stopping` is what the cancellation of the outbox's task gives.
unfoldable pub stop_outbox : Result (Unit {0}) → MeshNodeSpec → Exec Outboxes (Unit {0})
stop_outbox stopping node m = elim (get NodeId-discrete node.id m) [
  | none ↦ (ok tt, m)
  | some _ ↦ (stopping, without NodeId-discrete node.id m)
]

-- `outbox.send(data)` on the outbox object that the dict holds.
unfoldable pub send_to : ℕ → Bytes → MeshNodeSpec → Exec Outboxes (Unit {0})
unfolding get_outbox
send_to now bytes node m =
    let (o, m') = get_outbox node m in
    let (r, o') = send now bytes o in (r, set NodeId-discrete node.id o' m')

-- The loop of `TopicSender.send`.
unfoldable pub send_each : ℕ → Bytes → List MeshNodeSpec → Exec Outboxes (Unit {0})
unfolding send_to
send_each now bytes [] = pure tt
send_each now bytes (node ∷ nodes) = do send_to now bytes node; send_each now bytes nodes

-- `TopicSender.send` at the loop time `now`, for the nodes that the peer selector gave; `encode` is
-- `encode_topic_message`, which is not called where there is no node.
unfoldable pub send_topic :
    {Data : Type 0}
    → (TopicMessage Data → Result Bytes)
    → ℕ
    → List MeshNodeSpec
    → Text
    → Args Data
    → Kwargs Data
    → Exec Outboxes (Unit {0})
unfolding send_each
send_topic encode now [] topic args kwargs = pure tt
send_topic encode now (node ∷ nodes) topic args kwargs = do
  bytes ← lift (encode (record { topic = topic; args = args; kwargs = kwargs }))
  send_each now bytes (node ∷ nodes)
