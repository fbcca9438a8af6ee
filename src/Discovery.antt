-- ===== src/Discovery.antt =====
-- src/rosy/discovery/: the nodes that a node knows of. zeroconf answers are parameters. A monitor
-- is a task, known by a number.
pub mod Laws
pub mod Announce
pub mod Names
pub mod Registry
use rosy.Base.{
  ℕ, ◌+◌, Bool, true, false, not, Option, none, some, List, [], ◌∷◌, ◌++◌, ◌==◌, if◌then◌else◌,
}
use rosy.Base.Text.{Text, Text-discrete}
use rosy.Base.Dict.{Dict, get, set, without, contains, values}
use rosy.Base.Exec.{
  Error, Exec, Result, ok, err, pure, raise, lift, contained, modify, ◌>>=◌, ◌>>◌, after,
  runtime_error, foreign,
}
use rosy.Stream.{Bytes}
use rosy.Mesh.{MeshNodeSpec}
use rosy.Mesh.Topology.{MeshTopologySpec}

-- `fresh` is above the tasks made so far. `removals` lists the names that a task was made to
-- remove.
pub record Discovery : Type 0 where
  pub service_name_to_node : Dict Text MeshNodeSpec
  pub node_monitors : Dict Text ℕ
  pub topology_changed : Bool
  pub fresh : ℕ
  pub removals : List Text

pub data ServiceStateChange : Type 0 where
  added removed updated : ServiceStateChange

unfoldable pub topology : Discovery → MeshTopologySpec
topology d = values d.service_name_to_node

-- `_stop_monitoring_node`; `cancelled` is what `cancel_task` gives.
unfoldable pub stop_monitoring_node : Result (Unit {0}) → Text → Exec Discovery (Unit {0})
stop_monitoring_node cancelled name d =
    if contains Text-discrete name d.node_monitors
    then after (cancelled, d)
        (λ _ d. (ok tt, record d { node_monitors = without Text-discrete name d.node_monitors }))
    else (ok tt, d)

unfoldable pub start_monitoring_node : Result (Unit {0}) → Text → Exec Discovery (Unit {0})
unfolding stop_monitoring_node
start_monitoring_node cancelled name = do
  stop_monitoring_node cancelled name
  modify (λ d. record d {
    node_monitors = set Text-discrete name d.fresh d.node_monitors;
    fresh = d.fresh + 1;
  })

-- The rest of `_remove_node`: the node is forgotten.
unfoldable pub forget_node : Text → Discovery → Discovery
forget_node name d = elim (get Text-discrete name d.service_name_to_node) [
  | none ↦ d
  | some _ ↦ record d {
    service_name_to_node = without Text-discrete name d.service_name_to_node;
    topology_changed = true;
  }
]

unfoldable pub remove_node : Result (Unit {0}) → Text → Exec Discovery (Unit {0})
unfolding stop_monitoring_node forget_node
remove_node cancelled name = do stop_monitoring_node cancelled name; modify (forget_node name)

-- `_async_on_service_state_change`
unfoldable pub on_service_state_change :
    Result (Unit {0}) → Text → ServiceStateChange → Exec Discovery (Unit {0})
unfolding start_monitoring_node remove_node
on_service_state_change cancelled name added = start_monitoring_node cancelled name
on_service_state_change cancelled name updated = start_monitoring_node cancelled name
on_service_state_change cancelled name removed = remove_node cancelled name

-- `_check_this_task_is_current_monitor`; a missing name is a `KeyError`.
unfoldable pub check_this_task_is_current_monitor : ℕ → Text → Exec Discovery (Unit {0})
check_this_task_is_current_monitor task name d = elim (get Text-discrete name d.node_monitors) [
  | none ↦ (err foreign, d)
  | some monitor ↦ if task == monitor then (ok tt, d) else (err runtime_error, d)
]

-- `node != existing_node`, for the `==` of the data class.
abbrev pub differs :
    (MeshNodeSpec → MeshNodeSpec → Bool) → MeshNodeSpec → Option MeshNodeSpec → Bool
differs same node none = true
differs same node (some existing) = not (same node existing)

-- The node that the service info has.
unfoldable pub learn_node :
    (MeshNodeSpec → MeshNodeSpec → Bool) → Text → MeshNodeSpec → Discovery → Discovery
learn_node same name node d =
    if differs same node (get Text-discrete name d.service_name_to_node)
    then record d {
      service_name_to_node = set Text-discrete name node d.service_name_to_node;
      topology_changed = true;
    }
    else d

-- What `_check_node` does with the service info; `decode` is that of the node spec codec.
unfoldable pub take_info :
    (MeshNodeSpec → MeshNodeSpec → Bool)
    → (Bytes → Result MeshNodeSpec)
    → Text
    → Option Bytes
    → Exec Discovery Bool
unfolding learn_node
take_info same decode name none = do
  modify (λ d. record d { removals = d.removals ++ name ∷ [] })
  pure false
take_info same decode name (some text) = do
  node ← lift (decode text)
  modify (learn_node same name node)
  pure true

-- `_check_node` of a monitor task; `info` is what `_get_service_info` gives.
unfoldable pub check_node :
    (MeshNodeSpec → MeshNodeSpec → Bool)
    → (Bytes → Result MeshNodeSpec)
    → Result (Option Bytes)
    → ℕ
    → Text
    → Exec Discovery Bool
unfolding check_this_task_is_current_monitor take_info
check_node same decode info task name = do
  check_this_task_is_current_monitor task name
  found ← lift info
  take_info same decode name found

-- `_call_topology_changed_callback` of src/rosy/discovery/base.py, on the program's state.
unfoldable pub call_topology_changed_callback :
    {S : Type 0}
    → Option (MeshTopologySpec → Exec S (Unit {0}))
    → MeshTopologySpec
    → Exec S (Unit {0})
call_topology_changed_callback none t s = (ok tt, s)
call_topology_changed_callback (some callback) t s = contained (callback t s)

-- A round of `_monitor_for_topology_changes`; `none` while it waits for the event.
unfoldable pub announce :
    {S : Type 0}
    → Option (MeshTopologySpec → Exec S (Unit {0}))
    → Discovery × S
    → Option (Result (Unit {0}) × (Discovery × S))
unfolding topology call_topology_changed_callback
announce callback (d, s) =
    if d.topology_changed
    then (let (r, s') = call_topology_changed_callback callback (topology d) s in
        some (r, (record d { topology_changed = false }, s')))
    else none

-- The exceptions among the results of the steps of `stop`, each caught.
abbrev pub exceptions : List (Result (Unit {0})) → List Error
exceptions [] = []
exceptions (ok _ ∷ rs) = exceptions rs
exceptions (err e ∷ rs) = e ∷ exceptions rs

-- `stop`: the steps are the cancellation of the caller's task and of the browser, that of each
-- monitor, and the close; all of them run. `interrupt` is not among what a step raises here.
unfoldable pub stop :
    Result (Unit {0})
    → Result (Unit {0})
    → (ℕ → Result (Unit {0}))
    → Result (Unit {0})
    → Exec Discovery (Unit {0})
stop caller browser cancel close d =
    elim (exceptions
      (caller ∷ browser ∷ (cancel_all cancel (values d.node_monitors) ++ close ∷ []))) [
        | [] ↦ (ok tt, d)
        | _ ∷ _ ↦ (err foreign, d)
      ]
  where
    cancel_all : (ℕ → Result (Unit {0})) → List ℕ → List (Result (Unit {0}))
    cancel_all cancel [] = []
    cancel_all cancel (task ∷ tasks) = cancel task ∷ cancel_all cancel tasks
