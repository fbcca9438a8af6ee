-- ===== src/Discovery/Laws.antt =====
-- Each known node has a monitor.
use rosy.Base.{
  ℕ, ◌+◌, ◌≡◌, ◌≢◌, refl, sym, ◌∙◌, subst, Bool, true, false, Option, none, some, List, [], ◌∷◌,
  arith, inl, inr, Option-cases, Bool-cases, ◌==◌,
}
use rosy.Base.Text.{Text, Text-discrete}
use rosy.Base.Dict.{Dict, get, set, without, contains, keys, Distinct}
use rosy.Base.Dict.Laws.{
  get-set_self, get-set_ne, get-without_self, get-without_ne, Distinct-set, Distinct-without,
}
use rosy.Base.Exec.{Result, ok, err, after, lift, modify, pure, ◌>>◌, foreign, runtime_error}
use rosy.Stream.{Bytes}
use rosy.Mesh.{MeshNodeSpec}
use rosy.Discovery.{
  Discovery, ServiceStateChange, added, removed, updated, stop_monitoring_node,
  start_monitoring_node, forget_node, remove_node, on_service_state_change,
  check_this_task_is_current_monitor, differs, learn_node, take_info, check_node,
}

-- Each name is there once, and a name with a node has a monitor.
abbrev pub IsMonitored : Discovery → Type 0
IsMonitored d =
    Distinct (keys d.service_name_to_node)
    × ((name : Text)
        → contains Text-discrete name d.service_name_to_node ≡ true
        → contains Text-discrete name d.node_monitors ≡ true)

module _ {V : Type 0} (d : Dict Text V) where
  contains-set_self : (k : Text) (v : V) → contains Text-discrete k (set Text-discrete k v d) ≡ true
  contains-set_self k v = rw (get-set_self Text-discrete k v d, contains) refl

  contains-set_ne :
      (j k : Text) (v : V)
      → j ≢ k
      → contains Text-discrete j (set Text-discrete k v d) ≡ contains Text-discrete j d
  contains-set_ne j k v h = rw (get-set_ne Text-discrete k j v d h, contains) refl

  contains-without_ne :
      (j k : Text)
      → j ≢ k
      → contains Text-discrete j (without Text-discrete k d) ≡ contains Text-discrete j d
  contains-without_ne j k h = rw (get-without_ne Text-discrete k j d h, contains) refl

  contains-without_self :
      (k : Text) → Distinct (keys d) → contains Text-discrete k (without Text-discrete k d) ≡ false
  contains-without_self k u = rw (get-without_self Text-discrete k d u, contains) refl

module _ (name : Text) (d : Discovery) where
  checks_missing :
      (task : ℕ)
      → get Text-discrete name d.node_monitors ≡ none
      → check_this_task_is_current_monitor task name d ≡ (err foreign, d)
  unfolding check_this_task_is_current_monitor
  checks_missing task e = rw (e, check_this_task_is_current_monitor) refl

  pub checks_current :
      (task monitor : ℕ)
      → get Text-discrete name d.node_monitors ≡ some monitor
      → (task == monitor) ≡ true
      → check_this_task_is_current_monitor task name d ≡ (ok tt, d)
  unfolding check_this_task_is_current_monitor
  checks_current task monitor e t = rw (e, check_this_task_is_current_monitor, t) refl

  checks_stale :
      (task monitor : ℕ)
      → get Text-discrete name d.node_monitors ≡ some monitor
      → (task == monitor) ≡ false
      → check_this_task_is_current_monitor task name d ≡ (err runtime_error, d)
  unfolding check_this_task_is_current_monitor
  checks_stale task monitor e t = rw (e, check_this_task_is_current_monitor, t) refl

module _ (name : Text) (d : Discovery) (h : IsMonitored d) where
  -- The state after `_start_monitoring_node`, the old monitor gone first.
  fresh_monitor :
      (task : ℕ) (monitors : Dict Text ℕ)
      → ((j : Text)
          → j ≢ name
          → contains Text-discrete j monitors ≡ contains Text-discrete j d.node_monitors)
      → (j : Text) → contains Text-discrete j d.service_name_to_node ≡ true
      → contains Text-discrete j (set Text-discrete name task monitors) ≡ true
  fresh_monitor task monitors same j k = elim (Text-discrete j name) [
    | yes p ↦
        subst (λ i. contains Text-discrete i (set Text-discrete name task monitors) ≡ true) (sym p)
          (contains-set_self monitors name task)
    | no p ↦ contains-set_ne monitors j name task p ∙ (same j p ∙ h.1 j k)
  ]

  monitored :
      (monitors : Dict Text ℕ)
      → ((j : Text)
          → j ≢ name
          → contains Text-discrete j monitors ≡ contains Text-discrete j d.node_monitors)
      → IsMonitored (record d {
        node_monitors = set Text-discrete name d.fresh monitors;
        fresh = d.fresh + 1;
      })
  monitored monitors same = (h.0, fresh_monitor d.fresh monitors same)

  start-IsMonitored :
      (cancelled : Result (Unit {0})) → IsMonitored (start_monitoring_node cancelled name d).1
  unfolding start_monitoring_node stop_monitoring_node
  start-IsMonitored (ok _) = elim (Bool-cases (contains Text-discrete name d.node_monitors)) [
    | inl e ↦ rw (e) (
        monitored (without Text-discrete name d.node_monitors)
          (λ j. contains-without_ne d.node_monitors j name))
    | inr e ↦ rw (e) (monitored d.node_monitors (λ j _. refl))
  ]
  start-IsMonitored (err x) = elim (Bool-cases (contains Text-discrete name d.node_monitors)) [
    | inl e ↦ rw (e) h
    | inr e ↦ rw (e) (monitored d.node_monitors (λ j _. refl))
  ]

  forgets_none :
      (d' : Discovery)
      → get Text-discrete name d'.service_name_to_node ≡ none
      → forget_node name d' ≡ d'
  unfolding forget_node
  forgets_none d' e = rw (e, forget_node) refl

  forgets_some :
      (d' : Discovery) (v : MeshNodeSpec)
      → get Text-discrete name d'.service_name_to_node ≡ some v
      → forget_node name d' ≡ record d' {
        service_name_to_node = without Text-discrete name d'.service_name_to_node;
        topology_changed = true;
      }
  unfolding forget_node
  forgets_some d' v e = rw (e, forget_node) refl

  module _ (monitors : Dict Text ℕ)
      (same : (j : Text)
        → j ≢ name
        → contains Text-discrete j monitors ≡ contains Text-discrete j d.node_monitors) where
    others :
        (nodes : Dict Text MeshNodeSpec)
        → contains Text-discrete name nodes ≡ false
        → ((j : Text)
            → j ≢ name
            → contains Text-discrete j nodes ≡ contains Text-discrete j d.service_name_to_node)
        → (j : Text) → contains Text-discrete j nodes ≡ true
        → contains Text-discrete j monitors ≡ true
    others nodes gone kept j k = elim (Text-discrete j name) [
      | yes p ↦
          let k' = subst (λ i. contains Text-discrete i nodes ≡ true) p k in
          ground (arith, gone, k')
      | no p ↦ same j p ∙ h.1 j (sym (kept j p) ∙ k)
    ]

    -- The state after `_remove_node`, whichever of the two entries there was.
    without_both : IsMonitored (forget_node name (record d { node_monitors = monitors }))
    without_both =
        let d' : Discovery = record d { node_monitors = monitors } in
        elim (Option-cases (get Text-discrete name d.service_name_to_node)) [
          | inl e ↦
              subst IsMonitored (sym (forgets_none d' e))
                (h.0, others d.service_name_to_node (rw (e, contains) refl) (λ j _. refl))
          | inr (v, e) ↦ subst IsMonitored (sym (forgets_some d' v e)) (
            Distinct-without Text-discrete name d.service_name_to_node h.0,
            others (without Text-discrete name d.service_name_to_node)
                (contains-without_self d.service_name_to_node name h.0)
                (λ j. contains-without_ne d.service_name_to_node j name),
          )
        ]

  remove-IsMonitored :
      (cancelled : Result (Unit {0})) → IsMonitored (remove_node cancelled name d).1
  unfolding remove_node stop_monitoring_node
  remove-IsMonitored (ok _) = elim (Bool-cases (contains Text-discrete name d.node_monitors)) [
    | inl e ↦ rw (e) (
        without_both (without Text-discrete name d.node_monitors)
          (λ j. contains-without_ne d.node_monitors j name))
    | inr e ↦ rw (e) (without_both d.node_monitors (λ j _. refl))
  ]
  remove-IsMonitored (err x) = elim (Bool-cases (contains Text-discrete name d.node_monitors)) [
    | inl e ↦ rw (e) h
    | inr e ↦ rw (e) (without_both d.node_monitors (λ j _. refl))
  ]

  change-IsMonitored :
      (cancelled : Result (Unit {0})) (change : ServiceStateChange)
      → IsMonitored (on_service_state_change cancelled name change d).1
  unfolding on_service_state_change
  change-IsMonitored cancelled added = start-IsMonitored cancelled
  change-IsMonitored cancelled updated = start-IsMonitored cancelled
  change-IsMonitored cancelled removed = remove-IsMonitored cancelled

  -- A node is learnt under a name that has a monitor.
  learn-IsMonitored :
      (same : MeshNodeSpec → MeshNodeSpec → Bool) (node : MeshNodeSpec)
      → contains Text-discrete name d.node_monitors ≡ true
      → IsMonitored (learn_node same name node d)
  unfolding learn_node
  learn-IsMonitored same node m =
      elim (Bool-cases (differs same node (get Text-discrete name d.service_name_to_node))) [
        | inl e ↦ rw (e) (Distinct-set Text-discrete name node d.service_name_to_node h.0, known)
        | inr e ↦ rw (e) h
      ]
    where
      known :
          (j : Text)
          → contains Text-discrete j (set Text-discrete name node d.service_name_to_node) ≡ true
          → contains Text-discrete j d.node_monitors ≡ true
      known j k = elim (Text-discrete j name) [
        | yes p ↦ subst (λ i. contains Text-discrete i d.node_monitors ≡ true) (sym p) m
        | no p ↦ h.1 j (sym (contains-set_ne d.service_name_to_node j name node p) ∙ k)
      ]

  module _ (same : MeshNodeSpec → MeshNodeSpec → Bool) (decode : Bytes → Result MeshNodeSpec) where
    taken-IsMonitored :
        (found : Option Bytes)
        → contains Text-discrete name d.node_monitors ≡ true
        → IsMonitored (take_info same decode name found d).1
    unfolding take_info
    taken-IsMonitored none m = h
    taken-IsMonitored (some text) m =
        elim (decode text)
          as (λ r.
            IsMonitored
              (after (lift r d)
                (λ node. ◌>>◌ (modify (learn_node same name node)) (pure true))).1) [
                  | ok node ↦ learn-IsMonitored same node m
                  | err e ↦ h
                ]

    found-IsMonitored :
        (info : Result (Option Bytes))
        → contains Text-discrete name d.node_monitors ≡ true
        → IsMonitored (after (lift info d) (take_info same decode name)).1
    found-IsMonitored (ok found) m = taken-IsMonitored found m
    found-IsMonitored (err e) m = h

    pub check-IsMonitored :
        (info : Result (Option Bytes)) (task : ℕ)
        → IsMonitored (check_node same decode info task name d).1
    unfolding check_node
    check-IsMonitored info task = elim (Option-cases (get Text-discrete name d.node_monitors)) [
      | inl e ↦ rw (checks_missing name d task e) h
      | inr (monitor, e) ↦ elim (Bool-cases (task == monitor)) [
        | inl t ↦
            rw (checks_current name d task monitor e t)
              (found-IsMonitored info (rw (e, contains) refl))
        | inr t ↦ rw (checks_stale name d task monitor e t) h
      ]
    ]

-- What happens to the discovery: a change that zeroconf reports, or a check of a monitor task.
pub data Event : Type 0 where
  changes : Result (Unit {0}) → Text → ServiceStateChange → Event
  checks : Result (Option Bytes) → ℕ → Text → Event
  removes : Result (Unit {0}) → Text → Event

module _ (same : MeshNodeSpec → MeshNodeSpec → Bool) (decode : Bytes → Result MeshNodeSpec) where
  unfoldable pub happen : Event → Discovery → Discovery
  happen (changes cancelled name change) d = (on_service_state_change cancelled name change d).1
  happen (checks info task name) d = (check_node same decode info task name d).1
  happen (removes cancelled name) d = (remove_node cancelled name d).1

  unfoldable pub happen_all : List Event → Discovery → Discovery
  happen_all [] d = d
  happen_all (e ∷ es) d = happen_all es (happen e d)

  happen-IsMonitored : (e : Event) (d : Discovery) → IsMonitored d → IsMonitored (happen e d)
  unfolding happen
  happen-IsMonitored (changes cancelled name change) d h =
      change-IsMonitored name d h cancelled change
  happen-IsMonitored (checks info task name) d h = check-IsMonitored name d h same decode info task
  happen-IsMonitored (removes cancelled name) d h = remove-IsMonitored name d h cancelled

  -- From such a state, whatever changes zeroconf reports and whatever the monitor tasks find, in
  -- any order and with any exceptions, each name has at most one node, and a name with a node has a
  -- monitor.
  pub happen_all-IsMonitored :
      (es : List Event) (d : Discovery) → IsMonitored d → IsMonitored (happen_all es d)
  unfolding happen_all
  happen_all-IsMonitored [] d h = h
  happen_all-IsMonitored (e ∷ es) d h =
      happen_all-IsMonitored es (happen e d) (happen-IsMonitored e d h)
