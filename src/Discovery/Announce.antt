-- ===== src/Discovery/Announce.antt =====
-- No change of the topology is lost: what was announced last is current, or an announcement is due.
use rosy.Base.{
  ℕ, ◌≡◌, refl, sym, ap, ◌∙◌, Bool, false, Option, none, some, List, [], ◌∷◌, arith, inl, inr,
  Bool-cases, map,
}
use rosy.Base.Text.{Text}
use rosy.Base.Exec.{Result, Exec, ok, err, interrupt, contained}
use rosy.Stream.{Bytes}
use rosy.Mesh.{MeshNodeSpec}
use rosy.Mesh.Topology.{MeshTopologySpec}
use rosy.Discovery.{
  Discovery, added, removed, updated, topology, stop_monitoring_node, start_monitoring_node,
  forget_node, remove_node, on_service_state_change, check_this_task_is_current_monitor, learn_node,
  take_info, check_node, announce, call_topology_changed_callback,
}
use rosy.Discovery.Laws.{Event, changes, checks, removes, happen}

-- If the flag is not set in the new state, then it was not set before and no node changed.
abbrev Quiet : Discovery → Discovery → Type 0
Quiet d d' =
    d'.topology_changed ≡ false
    → (d'.service_name_to_node ≡ d.service_name_to_node) × (d.topology_changed ≡ false)

stop-Quiet :
    (cancelled : Result (Unit {0})) (name : Text) (d : Discovery)
    → Quiet d (stop_monitoring_node cancelled name d).1
unfolding stop_monitoring_node
stop-Quiet cancelled name d h = ground arith

start-Quiet :
    (cancelled : Result (Unit {0})) (name : Text) (d : Discovery)
    → Quiet d (start_monitoring_node cancelled name d).1
unfolding start_monitoring_node stop_monitoring_node
start-Quiet cancelled name d h = ground arith

remove-Quiet :
    (cancelled : Result (Unit {0})) (name : Text) (d : Discovery)
    → Quiet d (remove_node cancelled name d).1
unfolding remove_node stop_monitoring_node forget_node
remove-Quiet cancelled name d h = ground arith

-- The discovery with the topologies that its callback got, the last one first. The callback may
-- raise anything.
abbrev recording : Result (Unit {0}) → MeshTopologySpec → Exec (List MeshTopologySpec) (Unit {0})
recording answer t log = (answer, t ∷ log)

-- What was announced last; an empty topology before the first announcement.
abbrev pub last_of : List MeshTopologySpec → MeshTopologySpec
last_of [] = []
last_of (t ∷ _) = t

-- Something happens, or the task that watches for changes runs a round, where it does not wait.
pub data Step : Type 0 where
  occurs : Event → Step
  tells : Result (Unit {0}) → Step

pub contained_state : {S : Type 0} (r : Result (Unit {0})) (s : S) → (contained (r, s)).1 ≡ s
contained_state (ok _) s = refl
contained_state (err interrupt) s = refl
contained_state (err _) s = refl

module _ (same : MeshNodeSpec → MeshNodeSpec → Bool) (decode : Bytes → Result MeshNodeSpec) where
  check-Quiet :
      (info : Result (Option Bytes)) (task : ℕ) (name : Text) (d : Discovery)
      → Quiet d (check_node same decode info task name d).1
  unfolding check_node check_this_task_is_current_monitor take_info learn_node
  check-Quiet info task name d h = ground arith

  happen-Quiet : (e : Event) (d : Discovery) → Quiet d (happen same decode e d)
  unfolding happen on_service_state_change
  happen-Quiet (changes cancelled name added) d = start-Quiet cancelled name d
  happen-Quiet (changes cancelled name updated) d = start-Quiet cancelled name d
  happen-Quiet (changes cancelled name removed) d = remove-Quiet cancelled name d
  happen-Quiet (checks info task name) d = check-Quiet info task name d
  happen-Quiet (removes cancelled name) d = remove-Quiet cancelled name d

  unfoldable pub step : Step → Discovery × List MeshTopologySpec → Discovery × List MeshTopologySpec
  step (occurs e) (d, log) = (happen same decode e d, log)
  step (tells answer) (d, log) = elim (announce (some (recording answer)) (d, log)) [
    | none ↦ (d, log)
    | some (r, s) ↦ s
  ]

  unfoldable pub run :
      List Step → Discovery × List MeshTopologySpec → Discovery × List MeshTopologySpec
  run [] s = s
  run (x ∷ xs) s = run xs (step x s)

  -- The flag is set, or what was announced last is the topology.
  abbrev pub IsCurrent : Discovery × List MeshTopologySpec → Type 0
  IsCurrent s = s.0.topology_changed ≡ false → topology s.0 ≡ last_of s.1

  step-IsCurrent :
      (x : Step) (s : Discovery × List MeshTopologySpec) → IsCurrent s → IsCurrent (step x s)
  unfolding step topology announce call_topology_changed_callback
  step-IsCurrent (occurs e) (d, log) h k =
      let (nodes, quiet) = happen-Quiet e d k in ap (λ n. map (λ x. x.1) n) nodes ∙ h quiet
  step-IsCurrent (tells answer) (d, log) h k = elim (Bool-cases d.topology_changed) [
    | inl e ↦ rw e (ap last_of (sym (contained_state answer (topology d ∷ log))))
    | inr e ↦ rw e (h e)
  ]

  run-IsCurrent :
      (xs : List Step) (s : Discovery × List MeshTopologySpec) → IsCurrent s → IsCurrent (run xs s)
  unfolding run
  run-IsCurrent [] s h = h
  run-IsCurrent (x ∷ xs) s h = run-IsCurrent xs (step x s) (step-IsCurrent x s h)

  -- No change is lost: after any events and announcements, in any order and whatever they raise,
  -- from a state where an announcement is due or the topology is the one announced last, the
  -- topology is the one announced last, unless an announcement is due.
  pub run_announces :
      (xs : List Step) (s : Discovery × List MeshTopologySpec)
      → IsCurrent s
      → (run xs s).0.topology_changed ≡ false
      → topology (run xs s).0 ≡ last_of (run xs s).1
  run_announces xs s h quiet = run-IsCurrent xs s h quiet
