-- ===== src/Node.antt =====
-- src/rosy/node/node.py and node/callbackmanager.py: the node that a program holds.
pub mod Lifecycle
pub mod Advertised
pub mod Handlers
use rosy.Base.{ℕ, suc, ◌+◌, Bool, true, false, Option, none, some, List, [], ◌∷◌, if◌then◌else◌}
use rosy.Base.Text.{Text, Text-discrete}
use rosy.Base.Dict.{Dict, get, set, without, keys}
use rosy.Base.Exec.{
  Error, Exec, Result, ok, err, pure, modify, require, finally, ◌>>=◌, ◌>>◌, after, on_first,
  on_second, runtime_error,
}
use rosy.Message.{Args, Kwargs}
use rosy.Mesh.{NodeId, MeshNodeSpec, ConnectionSpec}
use rosy.Mesh.Topology.{
  MeshTopologyManager, get_nodes_listening_to_topic, get_nodes_providing_service,
}

-- `CallbackManager`: its state is the dict of handlers.
abbrev pub CallbackManager : Type 0 → Type 0
CallbackManager C = Dict Text C

module _ {C : Type 0} where
  unfoldable pub get_callback : Text → CallbackManager C → Option C
  get_callback key handlers = get Text-discrete key handlers

  unfoldable pub set_callback : Text → C → CallbackManager C → CallbackManager C
  set_callback key callback handlers = set Text-discrete key callback handlers

  unfoldable pub remove_callback : Text → CallbackManager C → Option C × CallbackManager C
  remove_callback key handlers =
      (get Text-discrete key handlers, without Text-discrete key handlers)

pub data State : Type 0 where
  initd started stopped : State

abbrev pub is_initd : State → Bool
is_initd initd = true
is_initd _ = false

abbrev pub is_started : State → Bool
is_started started = true
is_started _ = false

abbrev pub is_stopped : State → Bool
is_stopped stopped = true
is_stopped _ = false

-- What the node uses of its discovery, its servers, its topic sender and its service caller, each
-- with its own part of the state `W`.
pub record Parts (Data W : Type 0) : Type 0 where
  pub discovery_start : Exec W (Unit {0})
  pub discovery_stop : Exec W (Unit {0})
  pub register_node : MeshNodeSpec → Exec W (Unit {0})
  pub update_node : MeshNodeSpec → Exec W (Unit {0})
  pub start_servers : Exec W (Unit {0})
  pub stop_servers : Exec W (Unit {0})
  pub connection_specs : W → List ConnectionSpec
  pub topic_send : Text → Args Data → Kwargs Data → Exec W (Unit {0})
  pub service_call : Text → Args Data → Kwargs Data → Exec W Data

-- `TC` and `SC` are the callbacks of topics and of services.
pub record Node (TC SC : Type 0) : Type 0 where
  pub id : NodeId
  pub topology_manager : MeshTopologyManager
  pub topic_listener_manager : CallbackManager TC
  pub service_handler_manager : CallbackManager SC
  pub state : State

abbrev pub is_nonempty : {A : Type 0} → List A → Bool
is_nonempty [] = false
is_nonempty (_ ∷ _) = true

module _ {Data W TC SC : Type 0} (parts : Parts Data W) where
  unfoldable pub build_node_spec : Node TC SC → W → MeshNodeSpec
  build_node_spec n w = record {
    id = n.id;
    connection_specs = parts.connection_specs w;
    topics = keys n.topic_listener_manager;
    services = keys n.service_handler_manager;
  }

  unfoldable pub register : Bool → Exec (Node TC SC × W) (Unit {0})
  unfolding build_node_spec
  register first_time (n, w) =
      let spec = build_node_spec n w in
      on_second (if first_time then parts.register_node spec else parts.update_node spec) (n, w)

  abbrev pub enter_state : State → Node TC SC → Node TC SC
  enter_state state n = record n { state = state }

  unfoldable pub start : Exec (Node TC SC × W) (Unit {0})
  unfolding register
  start = do
    on_first (λ n. require (is_initd n.state) runtime_error n)
    on_first (modify (enter_state started))
    on_second parts.discovery_start
    on_second parts.start_servers
    register true

  unfoldable pub stop : Exec (Node TC SC × W) (Unit {0})
  stop (n, w) =
      if is_stopped n.state
      then (ok tt, (n, w))
      else finally (on_second parts.discovery_stop (enter_state stopped n, w))
          (on_second parts.stop_servers)

  -- `__aenter__` and `__aexit__`
  unfoldable pub aenter : Exec (Node TC SC × W) (Unit {0})
  unfolding start
  aenter (n, w) = if is_initd n.state then start (n, w) else (ok tt, (n, w))

  unfoldable pub aexit : Exec (Node TC SC × W) (Unit {0})
  unfolding stop
  aexit (n, w) = if is_started n.state then stop (n, w) else (ok tt, (n, w))

  -- The `await noop()` after the send lets other tasks run and changes nothing itself: Topic.Remote
  -- has these tasks between the sends.
  unfoldable pub send : Text → Args Data → Kwargs Data → Exec (Node TC SC × W) (Unit {0})
  send topic args kwargs = on_second (parts.topic_send topic args kwargs)

  unfoldable pub call : Text → Args Data → Kwargs Data → Exec (Node TC SC × W) Data
  call service args kwargs = on_second (parts.service_call service args kwargs)

  unfoldable pub listen : Text → TC → Exec (Node TC SC × W) (Unit {0})
  unfolding set_callback register
  listen topic callback = do
    on_first (
        modify (λ n. record n {
          topic_listener_manager = set_callback topic callback n.topic_listener_manager;
        }))
    register false

  -- A topic without a listener is only logged.
  unfoldable pub stop_listening : Text → Exec (Node TC SC × W) (Unit {0})
  unfolding remove_callback register
  stop_listening topic (n, w) =
      let (callback, left) = remove_callback topic n.topic_listener_manager in
      let n' : Node TC SC = record n { topic_listener_manager = left } in
      elim callback [ none ↦ (ok tt, (n', w)) | some _ ↦ register false (n', w) ]

  unfoldable pub add_service : Text → SC → Exec (Node TC SC × W) (Unit {0})
  unfolding set_callback register
  add_service service handler = do
    on_first (
        modify (λ n. record n {
          service_handler_manager = set_callback service handler n.service_handler_manager;
        }))
    register false

  unfoldable pub remove_service : Text → Exec (Node TC SC × W) (Unit {0})
  unfolding remove_callback register
  remove_service service (n, w) =
      let (callback, left) = remove_callback service n.service_handler_manager in
      let n' : Node TC SC = record n { service_handler_manager = left } in
      elim callback [ none ↦ (ok tt, (n', w)) | some _ ↦ register false (n', w) ]

module _ {TC SC : Type 0} where
  unfoldable pub topic_has_listeners : Text → Node TC SC → Bool × Node TC SC
  topic_has_listeners topic n =
      let (listeners, m) = get_nodes_listening_to_topic topic n.topology_manager in
      (is_nonempty listeners, record n { topology_manager = m })

  unfoldable pub service_has_providers : Text → Node TC SC → Bool × Node TC SC
  service_has_providers service n =
      let (providers, m) = get_nodes_providing_service service n.topology_manager in
      (is_nonempty providers, record n { topology_manager = m })

  -- `wait_for_listener`: one element of `sleeps` for each sleep, with the changes that other tasks
  -- make to the node meanwhile; `none` while it still waits.
  unfoldable pub wait_for_listener :
      List (Node TC SC → Node TC SC) → Text → Node TC SC → Option (Node TC SC)
  unfolding topic_has_listeners
  wait_for_listener [] topic n =
      let (has, n') = topic_has_listeners topic n in if has then some n' else none
  wait_for_listener (sleep ∷ sleeps) topic n =
      let (has, n') = topic_has_listeners topic n in
      let rest = wait_for_listener sleeps topic (sleep n') in if has then some n' else rest

  unfoldable pub wait_for_service_provider :
      List (Node TC SC → Node TC SC) → Text → Node TC SC → Option (Node TC SC)
  unfolding service_has_providers
  wait_for_service_provider [] service n =
      let (has, n') = service_has_providers service n in if has then some n' else none
  wait_for_service_provider (sleep ∷ sleeps) service n =
      let (has, n') = service_has_providers service n in
      let rest = wait_for_service_provider sleeps service (sleep n') in
      if has then some n' else rest

  module _ {Data W : Type 0} (parts : Parts Data W) where
    -- The `wrapper` of `depends_on_listener`; the result says whether it made the task that waits
    -- for a listener. `callback` may call the node.
    unfoldable pub dependent :
        Text
        → (Text → Data → Exec (Node TC SC × W) (Unit {0}))
        → Text
        → Data
        → Exec (Node TC SC × W) Bool
    unfolding topic_has_listeners stop_listening
    dependent downstream callback topic value (n, w) =
        let (has, n') = topic_has_listeners downstream n in
        if has
        then after (callback topic value (n', w)) (λ _. pure false)
        else after (stop_listening parts topic (n', w)) (λ _. pure true)

    -- `wait_for_listener_then_listen`: the node listens again with the `wrapper` of the callback,
    -- which `as_callback` makes an entry of the table; `none` while it waits.
    unfoldable pub wait_then_listen :
        ((Text → Data → Exec (Node TC SC × W) Bool) → TC)
        → List (Node TC SC → Node TC SC)
        → Text
        → (Text → Data → Exec (Node TC SC × W) (Unit {0}))
        → Text
        → Node TC SC × W
        → Option (Result (Unit {0}) × (Node TC SC × W))
    unfolding wait_for_listener listen dependent
    wait_then_listen as_callback sleeps downstream callback topic (n, w) =
        let wrapper = dependent downstream callback in
        elim (wait_for_listener sleeps downstream n) [
          | none ↦ none
          | some n' ↦ some (listen parts topic (as_callback wrapper) (n', w))
        ]
